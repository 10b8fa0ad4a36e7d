-- ===== src/Trading/Position/Net.antt =====
-- What a fill does to the cost of the net position of hft/src/position_keeper.cpp.
use hft.Prelude.{◌≡◌, ◌∙◌, ap, refl, true, false, ◌⊎◌, inl, inr, Bool-cases, arith}
use hft.Prelude.Int.{
  ℤ, pos, negsuc, ◌+ℤ◌, ◌-ℤ◌, ◌*ℤ◌, ◌/ℤ◌, ◌≤ℤ◌, ◌<ℤ◌, ltb_ℤ, leb_ℤ, eqb_ℤ, int_laws, *ℤ_one,
  *ℤ_minus_one, *ℤ_neg, *ℤ_below,
}
use hft.Common.Types.{Side, buy, sell, side_to_value, side_to_index, opp_index}
use hft.Trading.Position.{PositionInfo, vwap_at, set_vwap, fill_net, mark_net, size_of}

-- The two costs of the net position: only the side that the position is on has one, and neither
-- has one if the position is flat.
pub record CostsFit (p : PositionInfo) : Type 0 where
  pub no_buy : p.position ≤ℤ pos 0 → p.open_vwap_buy ≡ pos 0
  pub no_sell : pos 0 ≤ℤ p.position → p.open_vwap_sell ≡ pos 0

-- Costs that fit wherever the position is not flat fit after the marking.
mark_net-CostsFit :
    (p : PositionInfo) (price : ℤ)
    → (p.position <ℤ pos 0 → p.open_vwap_buy ≡ pos 0)
    → (pos 0 <ℤ p.position → p.open_vwap_sell ≡ pos 0)
    → CostsFit (mark_net p price)
unfolding mark_net
mark_net-CostsFit p price b s = elim (Bool-cases (eqb_ℤ p.position (pos 0))) [
  | inl e ↦ rw e (record { no_buy = λ _. refl; no_sell = λ _. refl })
  | inr e ↦ rw e (record { no_buy = λ h. b (ground arith); no_sell = λ h. s (ground arith) })
]

times_one : (a : ℤ) → a *ℤ pos 1 <ℤ pos 0 → a <ℤ pos 0
times_one a h = elim (*ℤ_neg a (pos 1) h) [ inl e ↦ e.0 | inr e ↦ absurd (omega arith) ]

times_minus : (a : ℤ) → pos 0 ≤ℤ a *ℤ negsuc 0 → a ≤ℤ pos 0
times_minus a h = (*ℤ_below a (negsuc 0) h).0 (omega arith)

times_minus_neg : (a : ℤ) → a *ℤ negsuc 0 <ℤ pos 0 → pos 0 <ℤ a
times_minus_neg a h = elim (*ℤ_neg a (negsuc 0) h) [ inl e ↦ absurd (omega arith) | inr e ↦ e.0 ]

-- A position that crosses zero.
crossed : (a b : ℤ) → a *ℤ b <ℤ pos 0 → b <ℤ pos 0 → pos 0 <ℤ a
crossed a b h l = elim (*ℤ_neg a b h) [ inl e ↦ absurd (omega arith) | inr e ↦ e.0 ]

crossed_down : (a b : ℤ) → a *ℤ b <ℤ pos 0 → pos 0 <ℤ b → a <ℤ pos 0
crossed_down a b h l = elim (*ℤ_neg a b h) [ inl e ↦ e.0 | inr e ↦ absurd (omega arith) ]

not_below : (a : ℤ) → pos 0 ≤ℤ a → ¬ (a <ℤ pos 0)
not_below a h l = omega arith

not_above : (a : ℤ) → a ≤ℤ pos 0 → ¬ (pos 0 <ℤ a)
not_above a h l = omega arith

grown : (a b c : ℤ) → c ≡ a +ℤ b → pos 0 ≤ℤ a → pos 0 ≤ℤ b → pos 0 ≤ℤ c
grown a b c e h k = rw e (omega int_laws)

shrunk : (a b c : ℤ) → c ≡ a -ℤ b → a ≤ℤ pos 0 → pos 0 ≤ℤ b → c ≤ℤ pos 0
shrunk a b c e h k = rw e (omega int_laws)

-- The three ways of a fill.
net_open :
    (p : PositionInfo) (old : ℤ) (side : Side) (price q : ℤ)
    → leb_ℤ (pos 0) (old *ℤ side_to_value side) ≡ true
    → (fill_net p old side price q).0
      ≡ set_vwap p (side_to_index side) (vwap_at p (side_to_index side) +ℤ price *ℤ q)
unfolding fill_net
net_open p old side price q e = ground (arith, e)

net_crossed :
    (p : PositionInfo) (old : ℤ) (side : Side) (price q : ℤ)
    → leb_ℤ (pos 0) (old *ℤ side_to_value side) ≡ false
    → ltb_ℤ (p.position *ℤ old) (pos 0) ≡ true
    → (fill_net p old side price q).0
      ≡ set_vwap
          (set_vwap p (side_to_index side) (price *ℤ size_of p.position))
          (opp_index (side_to_index side))
          (pos 0)
unfolding fill_net
net_crossed p old side price q e f = ground (arith, e, f)

net_reduced :
    (p : PositionInfo) (old : ℤ) (side : Side) (price q : ℤ)
    → leb_ℤ (pos 0) (old *ℤ side_to_value side) ≡ false
    → ltb_ℤ (p.position *ℤ old) (pos 0) ≡ false
    → let opp = opp_index (side_to_index side) in
      (fill_net p old side price q).0
      ≡ set_vwap p opp (vwap_at p opp /ℤ size_of old *ℤ size_of p.position)
unfolding fill_net
net_reduced p old side price q e f = ground (arith, e, f)

-- A purchase, and a sale: the position moves from `old`, whose costs fit, and its new costs fit
-- wherever it is not flat.
bought :
    (p : PositionInfo) (old price q : ℤ)
    → CostsFit (record p { position = old })
    → pos 0 ≤ℤ q
    → p.position ≡ old +ℤ q
    → let n = (fill_net p old buy price q).0 in
      (n.position ≡ p.position)
      × (n.position <ℤ pos 0 → n.open_vwap_buy ≡ pos 0)
      × (pos 0 <ℤ n.position → n.open_vwap_sell ≡ pos 0)
unfolding side_to_value
bought p old price q c h e = elim (Bool-cases (leb_ℤ (pos 0) (old *ℤ pos 1))) [
  | inl up ↦
      let no = (*ℤ_below old (pos 1) (ground arith)).1 (omega arith) in
      rw (net_open p old buy price q up) (
        refl,
        λ n. absurd (not_below p.position (grown old q p.position e no h) n),
        λ n. c.no_sell no,
      )
  | inr down ↦
      let low = times_one old (ground arith) in
      elim (Bool-cases (ltb_ℤ (p.position *ℤ old) (pos 0))) [
        | inl over ↦
            let s = crossed p.position old (ground arith) low in
            rw (net_crossed p old buy price q down over)
              (refl, λ n. absurd (not_below p.position (omega arith) n), λ n. refl)
        | inr under ↦
            let s = (*ℤ_below p.position old (ground arith)).0 low in
            rw (net_reduced p old buy price q down under)
              (refl, λ n. c.no_buy (omega arith), λ n. absurd (not_above p.position s n))
      ]
]

sold :
    (p : PositionInfo) (old price q : ℤ)
    → CostsFit (record p { position = old })
    → pos 0 ≤ℤ q
    → p.position ≡ old -ℤ q
    → let n = (fill_net p old sell price q).0 in
      (n.position ≡ p.position)
      × (n.position <ℤ pos 0 → n.open_vwap_buy ≡ pos 0)
      × (pos 0 <ℤ n.position → n.open_vwap_sell ≡ pos 0)
unfolding side_to_value
sold p old price q c h e = elim (Bool-cases (leb_ℤ (pos 0) (old *ℤ negsuc 0))) [
  | inl up ↦
      let no = times_minus old (ground arith) in
      rw (net_open p old sell price q up) (
        refl,
        λ n. c.no_buy no,
        λ n. absurd (not_above p.position (shrunk old q p.position e no h) n),
      )
  | inr down ↦
      let high = times_minus_neg old (ground arith) in
      elim (Bool-cases (ltb_ℤ (p.position *ℤ old) (pos 0))) [
        | inl over ↦
            let s = crossed_down p.position old (ground arith) high in
            rw (net_crossed p old sell price q down over)
              (refl, λ n. refl, λ n. absurd (not_above p.position (omega arith) n))
        | inr under ↦
            let s = (*ℤ_below p.position old (ground arith)).1 high in
            rw (net_reduced p old sell price q down under)
              (refl, λ n. absurd (not_below p.position s n), λ n. c.no_sell (omega arith))
      ]
]

plus_bought : (a b : ℤ) → a +ℤ b *ℤ side_to_value buy ≡ a +ℤ b
unfolding side_to_value
plus_bought a b = rw (*ℤ_one b) refl

minus_sold : (a b : ℤ) → a +ℤ b *ℤ side_to_value sell ≡ a -ℤ b
unfolding side_to_value
minus_sold a b = rw (*ℤ_minus_one b) (omega int_laws)

-- The costs of the net position after a fill on one of the two sides.
pub net_costs :
    (p : PositionInfo) (old price q : ℤ) (side : Side)
    → (side ≡ buy) ⊎ (side ≡ sell)
    → CostsFit (record p { position = old })
    → pos 0 ≤ℤ q
    → p.position ≡ old +ℤ q *ℤ side_to_value side
    → CostsFit (mark_net (fill_net p old side price q).0 price)
net_costs p old price q side (inl b) c h e =
    let m = e ∙ ap (λ s. old +ℤ q *ℤ side_to_value s) b ∙ plus_bought old q in
    let (same, lo, hi) = bought p old price q c h m in rw b (mark_net-CostsFit _ price lo hi)
net_costs p old price q side (inr b) c h e =
    let m = e ∙ ap (λ s. old +ℤ q *ℤ side_to_value s) b ∙ minus_sold old q in
    let (same, lo, hi) = sold p old price q c h m in rw b (mark_net-CostsFit _ price lo hi)
