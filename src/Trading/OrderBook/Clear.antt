-- ===== src/Trading/OrderBook/Clear.antt =====
-- kClear of hft/src/order_book.hpp, and what the index that it leaves cached does to the next entries.
use hft.Prelude.{
  ℕ, ◌≡◌, ◌<◌, ◌/◌, ◌≢◌, refl, sym, ap, if◌then◌else◌, ltb, Bool-cases, inl, inr, ==_self, ◌∙◌,
  true, false, none, some, ◌==◌, arith,
}
use hft.Prelude.Int.{ℤ}
use hft.Trading.OrderBook.{Search, is_active_qty, Half, is_valid, update}
use hft.Trading.OrderBook.Levels.{IsValidHalf}
use hft.Trading.OrderBook.Update.{update-Updated}
use hft.Prelude.Bits.{word_bits}
use hft.Trading.OrderBook.Top.{Updated-valid, is_valid-level}
use hft.Trading.OrderBook.Depth.{after_add-level}
use hft.Trading.OrderBook.Stock.{Stocked}
use hft.Trading.OrderBook.Invariant.{IsConfig, on_some-some}
use hft.Trading.OrderBook.Market.{
  OrderBookConfig, Wing, no_quote, beats, leading, is_cached, after_add, add_in, clear_wing,
}

clear_wing-cached :
    (c : OrderBookConfig) (w : Wing) → (clear_wing c w).half.cached_best ≡ w.half.cached_best
unfolding clear_wing
clear_wing-cached c w = refl

clear_wing-quote : (c : OrderBookConfig) (w : Wing) → (clear_wing c w).quote ≡ no_quote
unfolding clear_wing
clear_wing-quote c w = refl

-- A cleared side is valid: it has no bucket and names none.
clear_wing-IsValidHalf :
    (c : OrderBookConfig) (w : Wing)
    → IsConfig c
    → Stocked c w
    → IsValidHalf w.half
    → IsValidHalf (clear_wing c w).half
unfolding clear_wing
clear_wing-IsValidHalf c w r p v = record {
  bits = λ b k e. absurd (ground (arith, e, no_bucket b));
  filled = λ b k e. absurd (ground (arith, e, no_bucket b));
  named = λ b.
      (let gone = no_bucket b in
        let was = v.named b in
        let later = p.within b in
        let reached = r.buckets in
        let covers : b < c.bucket_count → b / word_bits < c.summary_words = (λ l. omega arith) in
        ground (arith, gone, was, later, covers));
}
  where
    no_bucket : (b : ℕ) → (if ltb b c.bucket_count then none else w.half.buckets b) ≡ none
    no_bucket b = elim (Bool-cases (ltb b c.bucket_count)) [
      | inl e ↦ rw e refl
      | inr e ↦ rw e (p.within b (ground (arith, e)))
    ]

after_add-behind :
    (d : Search) (c : OrderBookConfig) (w : Wing) (idx k : ℕ) (q : ℤ) (h : Half)
    → h.cached_best ≡ some k
    → beats d idx k ≡ false
    → idx ≢ k
    → (after_add d c w idx q h).quote ≡ w.quote
unfolding after_add
after_add-behind d c w idx k q h e b ne =
    let lag : leading d h idx ≡ false = rw e b in
    let other : is_cached h idx ≡ false =
      (let n : (idx == k) ≡ false = ground (arith, ne) in rw e n) in
    rw (lag, other) refl

-- On a side that had a best level `k` when it was cleared, a level behind `k` becomes active and yet
-- the BBO goes on showing no quote: the cached index is not reset, and the level does not beat it.
pub clear_wing-add_in :
    (d : Search) (c : OrderBookConfig) (w w' : Wing) (k idx : ℕ) (q : ℤ)
    → IsConfig c
    → Stocked c w
    → IsValidHalf w.half
    → w.half.cached_best ≡ some k
    → beats d idx k ≡ false
    → idx ≢ k
    → is_active_qty q ≡ true
    → add_in d c (clear_wing c w) idx q ≡ some w'
    → (is_valid w'.half idx ≡ true) × (w'.quote ≡ no_quote)
unfolding add_in
clear_wing-add_in d c w w' k idx q r p v0 e b ne a f =
    let v = clear_wing-IsValidHalf c w r p v0 in
    let (h, done, same) =
      on_some-some (after_add d c (clear_wing c w) idx q) (update (clear_wing c w).half idx q) w'
        f in
    let u = update-Updated (clear_wing c w).half h idx q v done in
    rw (← same) (
      is_valid-level (after_add d c (clear_wing c w) idx q h).half idx
          ∙ ap (λ x. is_active_qty x) (after_add-level d c (clear_wing c w) idx idx q h)
          ∙ sym (is_valid-level h idx)
          ∙ Updated-valid (clear_wing c w).half h idx idx q u
          ∙ rw (==_self idx) a,
      after_add-behind d c (clear_wing c w) idx k q h (u.cached ∙ clear_wing-cached c w ∙ e) b ne
          ∙ clear_wing-quote c w,
    )
