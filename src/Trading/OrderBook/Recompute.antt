-- ===== src/Trading/OrderBook/Recompute.antt =====
-- `best_bid_idx`, `best_ask_idx` of hft/src/order_book.hpp with their cache, and the new BBO fields that
-- are made of them.
use hft.Prelude.{
  ℕ, ◌*◌, ◌<◌, ◌≡◌, refl, ◌∙◌, inl, inr, true, false, Option, none, some, arith, Bool-cases,
  Option-cases,
}
use hft.Prelude.Bits.{word_bits}
use hft.Trading.OrderBook.{Search, bucket_size, Half, is_valid, search_best, cached_valid, best_idx}
use hft.Trading.OrderBook.Find.{Best}
use hft.Trading.OrderBook.Levels.{IsValidHalf}
use hft.Trading.OrderBook.Best.{search_best-Best, search_best-none}
use hft.Trading.OrderBook.Market.{OrderBookConfig, recompute, price_of, qty_of}

-- How many levels `n` words of the summary reach.
abbrev pub reach : ℕ → ℕ
reach n = n * word_bits * bucket_size

-- `o` is the best active level of a side, if there is one.
pub record BestLevel (d : Search) (n : ℕ) (h : Half) (o : Option ℕ) : Type 0 where
  pub found : (k : ℕ) → o ≡ some k → Best d (is_valid h) (reach n) k
  pub gone : o ≡ none → (j : ℕ) → j < reach n → is_valid h j ≡ false

abbrev pub set_cached : Half → Option ℕ → Half
set_cached h o = record h { cached_best = o }

search_best-BestLevel :
    (d : Search) (n : ℕ) (h : Half) → IsValidHalf h → BestLevel d n h (search_best d h n)
search_best-BestLevel d n h v = record {
  found = λ k e. search_best-Best d h n k v e;
  gone = λ e j lt. search_best-none d h n j v e lt;
}

-- The best index is that of the best active level, provided that a cached level that is still active
-- is the best one; it is what is then cached, and nothing else changes.
pub best_idx-BestLevel :
    (d : Search) (n : ℕ) (h : Half)
    → IsValidHalf h
    → ((k : ℕ) → h.cached_best ≡ some k → is_valid h k ≡ true → Best d (is_valid h) (reach n) k)
    → (o : Option ℕ) × (best_idx d h n ≡ (o, set_cached h o)) × BestLevel d n h o
unfolding best_idx
best_idx-BestLevel d n h v fits = elim (Bool-cases (cached_valid h)) [
  | inr stale ↦ (search_best d h n, rw stale refl, search_best-BestLevel d n h v)
  | inl hit ↦ (
    h.cached_best,
    rw hit refl,
    record {
      found = λ k e. fits k e (ground (arith, hit, e));
      gone = λ e j lt. absurd (ground (arith, hit, e));
    },
  )
]

pub any_cache : (h : Half) (o : Option ℕ) → IsValidHalf h → IsValidHalf (set_cached h o)
any_cache h o v = record { bits = v.bits; filled = v.filled; named = v.named }

-- A best level is found again from the cache.
again :
    (d : Search) (n : ℕ) (h : Half) (o : Option ℕ)
    → IsValidHalf h
    → BestLevel d n h o
    → best_idx d (set_cached h o) n ≡ (o, set_cached h o)
unfolding best_idx
again d n h (some k) v b = let hit = (b.found k refl).hit in rw hit refl
again d n h none v b =
    let (o, e, c) =
      best_idx-BestLevel d n (set_cached h none) (any_cache h none v)
        (λ k f on. ground (arith, f)) in
    elim (Option-cases o) [
      | inl f ↦ e ∙ rw f refl
      | inr (k, f) ↦
          let at = c.found k f in
          let off = b.gone refl k at.within in
          let on : is_valid h k ≡ true = at.hit in absurd (ground (arith, on, off))
    ]

-- Both new fields are those of the best active level, which is then cached.
pub recompute-BestLevel :
    (d : Search) (c : OrderBookConfig) (h : Half)
    → IsValidHalf h
    → h.cached_best ≡ none
    → (o : Option ℕ) × (recompute d c h ≡ record {
      half = set_cached h o;
      quote = record { price = price_of c o; qty = qty_of (set_cached h o) o };
    })
      × BestLevel d c.summary_words h o
unfolding recompute
recompute-BestLevel d c h v e =
    let n = c.summary_words in
    let (o, f, b) = best_idx-BestLevel d n h v (λ k g on. ground (arith, e, g)) in
    (o, rw (f, again d n h o v b) refl, b)
