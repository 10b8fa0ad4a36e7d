-- ===== src/Trading/OrderBook/Wings.antt =====
-- `add_order` and `delete_order` of hft/src/order_book.hpp on one side, after the level is written.
use hft.Prelude.{
  ℕ, ◌<◌, ◌≡◌, ◌≢◌, refl, subst, ap, ◌∙◌, ◌⊎◌, inl, inr, true, false, none, some, ◌==◌, ==_iff,
  ==_self, arith, Bool-cases, Option-cases,
}
use hft.Prelude.Int.{ℤ, pos}
use hft.Trading.OrderBook.{Search, highest, lowest, is_active_qty, Half, order_at, is_valid}
use hft.Trading.OrderBook.Find.{Best, NotWorse}
use hft.Trading.OrderBook.Update.{Updated}
use hft.Trading.OrderBook.Recompute.{reach, set_cached, any_cache}
use hft.Trading.OrderBook.Market.{
  OrderBookConfig, Wing, index_to_price, beats, leading, is_cached, after_delete, after_add,
}
use hft.Trading.OrderBook.Top.{
  IsWing, Updated-valid, Updated-order_at, held, idle_wing, recompute-IsWing,
}

-- A level that is written with an active quantity where it beats, meets or follows the best one.
beats-NotWorse :
    (d : Search) (idx k j : ℕ) → beats d idx k ≡ true → NotWorse d k j → NotWorse d idx j
beats-NotWorse highest idx k j b h = ground arith
beats-NotWorse lowest idx k j b h = ground arith

not_beaten : (d : Search) (idx k : ℕ) → beats d idx k ≡ false → NotWorse d k idx
not_beaten highest idx k b = ground arith
not_beaten lowest idx k b = ground arith

same-NotWorse : (d : Search) (k j : ℕ) → k ≡ j → NotWorse d k j
same-NotWorse highest k j e = omega arith
same-NotWorse lowest k j e = omega arith

module _ (d : Search) (h h' : Half) (n idx : ℕ) (q : ℤ) (u : Updated h idx q h') where
  -- Of the levels that are active after the update, one is the level written.
  now_active : (j : ℕ) → is_valid h' j ≡ true → (idx ≡ j) ⊎ ((idx ≢ j) × (is_valid h j ≡ true))
  now_active j on = elim (Bool-cases (idx == j)) [
    | inl e ↦ inl ((==_iff idx j).0 e)
    | inr e ↦ inr (ground (arith, e), ground (arith, e, on, Updated-valid h h' idx j q u))
  ]

  written_active : is_active_qty q ≡ true → is_valid h' idx ≡ true
  written_active a = Updated-valid h h' idx idx q u ∙ rw (==_self idx) a

  still_active : (k : ℕ) → idx ≢ k → is_valid h k ≡ true → is_valid h' k ≡ true
  still_active k ne on = ground (arith, ne, on, Updated-valid h h' idx k q u)

  Best-first :
      idx < n
      → is_active_qty q ≡ true
      → ((j : ℕ) → j < n → is_valid h j ≡ false)
      → Best d (is_valid h') n idx
  Best-first lt a gone = record {
    within = lt;
    hit = written_active a;
    best = λ j lj on. elim (now_active j on) [
      | inl e ↦ same-NotWorse d idx j e
      | inr (ne, was) ↦ absurd (ground (arith, was, gone j lj))
    ];
  }

  Best-beats :
      (k : ℕ)
      → idx < n
      → is_active_qty q ≡ true
      → Best d (is_valid h) n k
      → beats d idx k ≡ true
      → Best d (is_valid h') n idx
  Best-beats k lt a b wins = record {
    within = lt;
    hit = written_active a;
    best = λ j lj on. elim (now_active j on) [
      | inl e ↦ same-NotWorse d idx j e
      | inr (ne, was) ↦ beats-NotWorse d idx k j wins (b.best j lj was)
    ];
  }

  Best-stays :
      (k : ℕ)
      → Best d (is_valid h) n k
      → is_valid h' k ≡ true
      → (is_active_qty q ≡ true → NotWorse d k idx)
      → Best d (is_valid h') n k
  Best-stays k b here worse = record {
    within = b.within;
    hit = here;
    best = λ j lj on. elim (now_active j on) [
      | inl e ↦
          let act : is_active_qty q ≡ true =
            ground (arith, e, on, Updated-valid h h' idx j q u, ==_self idx) in
          subst (λ i. NotWorse d k i) e (worse act)
      | inr (ne, was) ↦ b.best j lj was
    ];
  }

leads_same :
    (c : OrderBookConfig) (h h' : Half) (idx : ℕ) (q : ℤ)
    → Updated h idx q h'
    → is_valid h' idx ≡ true
    → order_at h' idx ≡ q
leads_same c h h' idx q u on = Updated-order_at h h' idx idx q u on ∙ rw (==_self idx) refl

module _ (d : Search) (c : OrderBookConfig) (w : Wing) (h : Half) (idx : ℕ) (v : IsWing d c w) where
  abbrev range : ℕ
  range = reach c.summary_words

  leads :
      (q : ℤ)
      → Best d (is_valid h) range idx
      → Updated w.half idx q h
      → leading d h idx ≡ true
      → IsWing d c (after_add d c w idx q h)
  unfolding after_add
  leads q b u e =
      let here : order_at h idx ≡ q = leads_same c w.half h idx q u b.hit in
      rw e (
        held d c
          (record {
            half = set_cached h (some idx);
            quote = record { price = index_to_price c idx; qty = q };
          })
          idx (any_cache h (some idx) u.valid) refl b (rw here refl))

  -- A level that is written with an active quantity.
  pub after_add-IsWing :
      (q : ℤ)
      → idx < range
      → is_active_qty q ≡ true
      → Updated w.half idx q h
      → IsWing d c (after_add d c w idx q h)
  unfolding after_add
  after_add-IsWing q lt a u = elim (Option-cases w.half.cached_best) [
    | inl e ↦
        leads q (Best-first d w.half h range idx q u lt a (v.best.gone e)) u
          (ground (arith, e, u.cached))
    | inr (k, e) ↦
        let kept : h.cached_best ≡ some k = u.cached ∙ e in
        let b = v.best.found k e in
        elim (Bool-cases (beats d idx k)) [
          | inl wins ↦ leads q (Best-beats d w.half h range idx q u k lt a b wins) u (rw kept wins)
          | inr loses ↦
              let second : leading d h idx ≡ false = rw kept loses in
              elim (Bool-cases (idx == k)) [
                | inl same ↦
                    let met : idx ≡ k = (==_iff idx k).0 same in
                    let on : is_valid h k ≡ true =
                      subst (λ i. is_valid h i ≡ true) met
                        (written_active d w.half h range idx q u a) in
                    let third : is_cached h idx ≡ true = rw kept same in
                    let here : order_at h k ≡ q =
                      Updated-order_at w.half h idx k q u on ∙ rw same refl in
                    let price : w.quote.price ≡ index_to_price c k =
                      ap (λ x. x.price) (v.quoted k e) in
                    rw (second, third)
                      (held d c
                        (record { half = h; quote = record { price = w.quote.price; qty = q } }) k
                        u.valid kept
                        (Best-stays d w.half h range idx q u k b on (λ _. not_beaten d idx k loses))
                        (rw (price, here) refl))
                | inr other ↦
                    let apart : idx ≢ k = ground (arith, other) in
                    let third : is_cached h idx ≡ false = rw kept other in
                    let on = still_active d w.half h range idx q u k apart b.hit in
                    let here : order_at h k ≡ order_at w.half k =
                      Updated-order_at w.half h idx k q u on ∙ rw other refl in
                    rw (second, third)
                      (held d c (record w { half = h }) k u.valid kept
                        (Best-stays d w.half h range idx q u k b on (λ _. not_beaten d idx k loses))
                        (v.quoted k e ∙ rw here refl))
              ]
        ]
  ]

  -- A level that is written with nothing.
  pub after_delete-IsWing : Updated w.half idx (pos 0) h → IsWing d c (after_delete d c w idx h)
  unfolding after_delete
  after_delete-IsWing u = elim (Option-cases w.half.cached_best) [
    | inl e ↦
        let kept : h.cached_best ≡ none = u.cached ∙ e in
        let third : is_cached h idx ≡ false = rw kept refl in
        rw third (
          idle_wing d c (record w { half = h }) u.valid kept
            (λ j lj. ground (arith, Updated-valid w.half h idx j (pos 0) u, v.best.gone e j lj))
            (v.idle e))
    | inr (k, e) ↦
        let kept : h.cached_best ≡ some k = u.cached ∙ e in
        let b = v.best.found k e in
        elim (Bool-cases (idx == k)) [
          | inl same ↦
              let third : is_cached h idx ≡ true = rw kept same in
              rw third (recompute-IsWing d c h u.valid)
          | inr other ↦
              let apart : idx ≢ k = ground (arith, other) in
              let third : is_cached h idx ≡ false = rw kept other in
              let on = still_active d w.half h range idx (pos 0) u k apart b.hit in
              let here : order_at h k ≡ order_at w.half k =
                Updated-order_at w.half h idx k (pos 0) u on ∙ rw other refl in
              rw third (
                held d c (record w { half = h }) k u.valid kept
                  (Best-stays d w.half h range idx (pos 0) u k b on
                    (λ a. absurd (ground (arith, a))))
                  (v.quoted k e ∙ rw here refl))
        ]
  ]
