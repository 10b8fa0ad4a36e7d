-- ===== src/Trading/OrderManager/RiskFilter.antt =====
-- The filter by risk of hft/src/order_manager.hpp, against the check of hft/src/risk_manager.cpp.
use mathlib.Core.Path.{subst}
use hft.Prelude.{◌≡◌, refl, true, List, [], ◌∷◌, inl, inr, Bool-cases, arith}
use mathlib.Core.Logic.{∥∥₁_map}
use mathlib.Core.List.{Sublist, Sublistᴰ}
use hft.Prelude.Int.{ℤ, ◌+ℤ◌, ◌*ℤ◌, ◌≤ℤ◌}
use hft.Common.Types.{Side, side_to_value}
use hft.Trading.Risk.{
  RiskInfo, RiskCheckResult, projected, allowed, check_pre_trade_risk, check_pre_trade_risk-allowed,
}
use hft.Trading.Reconciler.{ActionNew, ActionReplace, Actions}
use hft.Trading.OrderManager.Apply.{is_allowed, allow, replace_delta, filter_by_risk}

allowed_of : (r : RiskCheckResult) → is_allowed r ≡ true → r ≡ allowed
allowed_of r e = ground arith

-- Each action of a list, in turn, is of a size that is allowed and leads to a position within the
-- limits, with all before it and all that was reserved counted; the loss is within its limit.
module _ {A : Type 0} (i : RiskInfo) (side_of : A → Side) (delta_of : A → ℤ) where
  abbrev pub Within : ℤ → List A → Type 0
  Within running [] = Unit
  Within running (a ∷ rest) =
      let next = running +ℤ side_to_value (side_of a) *ℤ delta_of a in
      (delta_of a ≤ℤ i.risk_cfg.max_order_size)
      × (projected i (side_of a) (delta_of a) running ≤ℤ i.risk_cfg.max_position)
      × (i.risk_cfg.min_position ≤ℤ projected i (side_of a) (delta_of a) running)
      × (i.risk_cfg.max_loss ≤ℤ i.position_info.total_pnl)
      × Within next rest

  -- The running position after the actions of a list.
  abbrev pub after : ℤ → List A → ℤ
  after running [] = running
  after running (a ∷ rest) = after (running +ℤ side_to_value (side_of a) *ℤ delta_of a) rest

  allow_lem :
      (running : ℤ) (xs : List A)
      → let (kept, final) = allow i side_of delta_of running xs in
        Within running kept × (final ≡ after running kept) × Sublist kept xs
  unfolding allow
  allow_lem running [] = (tt, refl, ∣ Sublistᴰ.slnil ∣₁)
  allow_lem running (a ∷ rest) =
      let check = check_pre_trade_risk i (side_of a) (delta_of a) running in
      elim (Bool-cases (is_allowed check)) [
        | inl e ↦
            let (w, f, sub) = allow_lem (running +ℤ side_to_value (side_of a) *ℤ delta_of a) rest in
            let ok =
              (check_pre_trade_risk-allowed i (side_of a) (delta_of a) running).0
                (allowed_of check e) in
            rw (e, allow)
              ((ok.0, ok.1, ok.2, ok.3, w), f, ∥∥₁_map sub (λ d. Sublistᴰ.cons-cons refl d))
        | inr e ↦
            let (w, f, sub) = allow_lem running rest in
            rw (e, allow) (w, f, ∥∥₁_map sub (λ d. Sublistᴰ.cons d))
      ]

-- After the filter the new orders, in turn, and then the replacements, with the change of their
-- quantities, each are of a size that is allowed and lead to a position within the limits, where all
-- before them and all that was reserved count; they are among the actions that came in, in their
-- order, and the cancellations are as they were.
pub filter_by_risk_lem :
    (i : RiskInfo) (reserved : ℤ) (acts : Actions)
    → let out = filter_by_risk i reserved acts in
      Within i (λ (a : ActionNew). a.side) (λ a. a.qty) reserved out.news
      × Within i
          (λ (a : ActionReplace). a.side)
          replace_delta
          (after i (λ (a : ActionNew). a.side) (λ a. a.qty) reserved out.news)
          out.repls
      × Sublist out.news acts.news
      × Sublist out.repls acts.repls
      × (out.cancels ≡ acts.cancels)
unfolding filter_by_risk
filter_by_risk_lem i reserved acts =
    let (w, f, sub) = allow_lem i (λ (a : ActionNew). a.side) (λ a. a.qty) reserved acts.news in
    let (w', _, sub') =
      allow_lem i (λ (a : ActionReplace). a.side) replace_delta
        (allow i (λ (a : ActionNew). a.side) (λ a. a.qty) reserved acts.news).1 acts.repls in
    (
      w,
      subst
          (λ x.
            Within i (λ (a : ActionReplace). a.side) replace_delta x
              (filter_by_risk i reserved acts).repls)
          f w',
      sub,
      sub',
      refl,
    )
