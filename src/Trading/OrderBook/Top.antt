-- ===== src/Trading/OrderBook/Top.antt =====
-- What `add_order` and `delete_order` of hft/src/order_book.hpp keep of one side: the cached index and
-- the BBO fields are those of the best active level.
use hft.Prelude.{
  ℕ, ◌/◌, ◌%◌, ◌<◌, ◌≡◌, refl, sym, subst, ap, ◌∙◌, inl, inr, true, false, none, some, ◌==◌,
  if◌then◌else◌, arith, Bool-cases, Option-cases,
}
use hft.Prelude.Int.{ℤ}
use hft.Trading.OrderBook.{Search, bucket_size, is_active_qty, Half, order_in, order_at, is_valid}
use hft.Trading.OrderBook.Find.{Best}
use hft.Trading.OrderBook.Levels.{IsValidHalf}
use hft.Trading.OrderBook.Update.{offered, level_in, level, Updated}
use hft.Trading.OrderBook.Recompute.{reach, BestLevel, set_cached, any_cache, recompute-BestLevel}
use hft.Trading.OrderBook.Market.{
  OrderBookConfig, Quote, Wing, no_quote, recompute, price_of, qty_of, index_to_price,
}

abbrev pub quote_at : OrderBookConfig → Half → ℕ → Quote
quote_at c h k = record { price = index_to_price c k; qty = order_at h k }

-- The bitmaps fit, and what is cached and quoted is the best active level, if there is one.
pub record IsWing (d : Search) (c : OrderBookConfig) (w : Wing) : Type 0 where
  pub valid : IsValidHalf w.half
  pub best : BestLevel d c.summary_words w.half w.half.cached_best
  pub quoted : (k : ℕ) → w.half.cached_best ≡ some k → w.quote ≡ quote_at c w.half k
  pub idle : w.half.cached_best ≡ none → w.quote ≡ no_quote

-- A level is active exactly if something is offered, and then that is its quantity.
pub is_valid-level : (h : Half) (j : ℕ) → is_valid h j ≡ is_active_qty (level h j)
unfolding order_in level_in offered
is_valid-level h j = elim (Option-cases (h.buckets (j / bucket_size))) [
  | inl e ↦ rw e refl
  | inr (k, e) ↦ elim (Bool-cases (is_active_qty (k.orders (j % bucket_size)))) [
    | inl on ↦ rw (e, on) (sym on)
    | inr off ↦ rw (e, off) refl
  ]
]

pub order_at-level : (h : Half) (j : ℕ) → is_valid h j ≡ true → order_at h j ≡ level h j
unfolding order_in level_in offered
order_at-level h j on = elim (Option-cases (h.buckets (j / bucket_size))) [
  | inl e ↦ rw e refl
  | inr (k, e) ↦
      let hit : is_active_qty (k.orders (j % bucket_size)) ≡ true = ground (arith, e, on) in
      rw (e, hit) refl
]

-- The active levels after an update, and their quantities.
pub Updated-valid :
    (h h' : Half) (idx j : ℕ) (q : ℤ)
    → Updated h idx q h'
    → is_valid h' j ≡ (if idx == j then is_active_qty q else is_valid h j)
unfolding offered
Updated-valid h h' idx j q u = elim (Bool-cases (idx == j)) [
  | inl e ↦ is_valid-level h' j ∙ ap (λ x. is_active_qty x) (u.levels j) ∙ rw e (offers q)
  | inr e ↦
      is_valid-level h' j ∙ ap (λ x. is_active_qty x) (u.levels j) ∙ rw e (sym (is_valid-level h j))
]
  where
    offers : (q : ℤ) → is_active_qty (offered q) ≡ is_active_qty q
    offers q = ground arith

pub Updated-order_at :
    (h h' : Half) (idx j : ℕ) (q : ℤ)
    → Updated h idx q h'
    → is_valid h' j ≡ true
    → order_at h' j ≡ (if idx == j then q else order_at h j)
unfolding offered
Updated-order_at h h' idx j q u on = elim (Bool-cases (idx == j)) [
  | inl e ↦
      let act : is_active_qty q ≡ true = ground (arith, e, on, Updated-valid h h' idx j q u) in
      order_at-level h' j on ∙ u.levels j ∙ rw (e, act) refl
  | inr e ↦
      let before : is_valid h j ≡ true = ground (arith, e, on, Updated-valid h h' idx j q u) in
      order_at-level h' j on ∙ u.levels j ∙ rw e (sym (order_at-level h j before))
]

-- A wing whose cached level is the best active one, and one without active levels.
pub held :
    (d : Search) (c : OrderBookConfig) (w : Wing) (k : ℕ)
    → IsValidHalf w.half
    → w.half.cached_best ≡ some k
    → Best d (is_valid w.half) (reach c.summary_words) k
    → w.quote ≡ quote_at c w.half k
    → IsWing d c w
held d c w k v e b q = record {
  valid = v;
  best = record {
    found = λ j f.
        let same : k ≡ j = ground (arith, e, f) in
        subst (λ i. Best d (is_valid w.half) (reach c.summary_words) i) same b;
    gone = λ f. ground (arith, e, f);
  };
  quoted = λ j f. let same : k ≡ j = ground (arith, e, f) in q ∙ ap (λ i. quote_at c w.half i) same;
  idle = λ f. ground (arith, e, f);
}

pub idle_wing :
    (d : Search) (c : OrderBookConfig) (w : Wing)
    → IsValidHalf w.half
    → w.half.cached_best ≡ none
    → ((j : ℕ) → j < reach c.summary_words → is_valid w.half j ≡ false)
    → w.quote ≡ no_quote
    → IsWing d c w
idle_wing d c w v e gone q = record {
  valid = v;
  best = record { found = λ k f. ground (arith, e, f); gone = λ f. gone };
  quoted = λ k f. ground (arith, e, f);
  idle = λ f. q;
}

-- The wing that both new fields are made of.
pub recompute-IsWing :
    (d : Search) (c : OrderBookConfig) (h : Half)
    → IsValidHalf h
    → IsWing d c (recompute d c (set_cached h none))
unfolding price_of qty_of
recompute-IsWing d c h ok =
    let (o, e, b) = recompute-BestLevel d c (set_cached h none) (any_cache h none ok) refl in
    elim (Option-cases o) [
      | inl f ↦
          rw (e, f)
            (idle_wing d c (record { half = set_cached h none; quote = no_quote })
              (any_cache h none ok) refl (b.gone f) refl)
      | inr (k, f) ↦
          rw (e, f)
            (held d c (record { half = set_cached h (some k); quote = quote_at c h k }) k
              (any_cache h (some k) ok) refl (b.found k f) refl)
    ]
