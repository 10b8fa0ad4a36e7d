-- ===== src/Trading/OrderManager/Layers.antt =====
-- The layers of the replacements in `apply` of hft/src/order_manager.hpp, through the filters of
-- hft/src/quote_reconciler.h and of the risk.
use hft.Prelude.{
  ℕ, zero, suc, ◌<◌, Option, Bool, true, false, inl, inr, Bool-cases, List, [], ◌∷◌, map, length,
  All, String,
}
use hft.Prelude.Int.{ℤ, ◌+ℤ◌, ◌*ℤ◌}
use hft.Common.Types.{Side, PositionSide, buy, sell, long, short, side_to_value}
use hft.Trading.LayerBook.{Books, slots_per_side, get_last_time}
use hft.Trading.Risk.{RiskInfo, check_pre_trade_risk}
use hft.Trading.Reconciler.{
  ActionReplace, VenuePolicy, last_or, drop_last, swap_erase, erase_if_too_recent, erase_recent,
  limit_replace, filter_by_venue,
}
use hft.Trading.Reconciler.Diff.{QuoteIntent, QuoteReconciler, diff}
use hft.Trading.Reconciler.Diff.Sound.{diff_fits, ReplaceFits}
use hft.Trading.OrderManager.Apply.{is_allowed, allow, filter_by_risk, replace_delta}

module _ {A : Type 0} (P : A → Type 0) where
  last_or-All : (d : A) (xs : List A) → P d → All P xs → P (last_or d xs)
  last_or-All d [] p h = p
  last_or-All d (x ∷ xs) p h = last_or-All x xs h.0 h.1

  drop_last-All : (xs : List A) → All P xs → All P (drop_last xs)
  drop_last-All [] h = tt
  drop_last-All (x ∷ []) h = tt
  drop_last-All (x ∷ y ∷ ys) h = (h.0, drop_last-All (y ∷ ys) h.1)

  swap_erase-All : (n : ℕ) (p : A → Bool) (xs : List A) → All P xs → All P (swap_erase n p xs)
  unfolding swap_erase
  swap_erase-All zero p xs h = tt
  swap_erase-All (suc n) p [] h = tt
  swap_erase-All (suc n) p (x ∷ []) h = elim (Bool-cases (p x)) [
    | inl e ↦ rw (e, swap_erase) tt
    | inr e ↦ rw (e, swap_erase) h
  ]
  swap_erase-All (suc n) p (x ∷ y ∷ ys) h = elim (Bool-cases (p x)) [
    | inl e ↦
        rw (e, swap_erase)
          (swap_erase-All n p (last_or y ys ∷ drop_last (y ∷ ys))
            (last_or-All y ys h.1.0 h.1.1, drop_last-All (y ∷ ys) h.1))
    | inr e ↦ rw (e, swap_erase) (h.0, swap_erase-All n p (y ∷ ys) h.1)
  ]

  module _ (side_of : A → Side) (position_of : A → Option PositionSide) where
    erase_if-All :
        (recent : Bool) (s : Side) (p : PositionSide) (xs : List A)
        → All P xs
        → All P (erase_if_too_recent side_of position_of recent s p xs)
    unfolding erase_if_too_recent
    erase_if-All true s p xs h = swap_erase-All (length xs) _ xs h
    erase_if-All false s p xs h = h

    erase_recent-All :
        (v : VenuePolicy) (now : ℕ) (times : List ℕ) (xs : List A)
        → All P xs
        → All P (erase_recent side_of position_of v now times xs)
    unfolding erase_recent
    erase_recent-All v now times xs h =
        erase_if-All _ sell short _
          (erase_if-All _ buy short _ (erase_if-All _ sell long _ (erase_if-All _ buy long xs h)))

  module _ (risk : RiskInfo) (side_of : A → Side) (delta_of : A → ℤ) where
    allow-All :
        (running : ℤ) (xs : List A) → All P xs → All P (allow risk side_of delta_of running xs).0
    unfolding allow
    allow-All running [] h = tt
    allow-All running (a ∷ rest) h =
        elim (Bool-cases
          (is_allowed (check_pre_trade_risk risk (side_of a) (delta_of a) running))) [
            | inl e ↦
                rw (e, allow)
                  (h.0, allow-All (running +ℤ side_to_value (side_of a) *ℤ delta_of a) rest h.1)
            | inr e ↦ rw (e, allow) (allow-All running rest h.1)
          ]

abbrev pub InLayers : List ActionReplace → Type 0
InLayers xs = All (λ (a : ActionReplace). a.layer < slots_per_side) xs

limits-InLayers :
    (v : VenuePolicy) (xs : List ActionReplace) → InLayers xs → InLayers (map (limit_replace v) xs)
limits-InLayers v [] h = tt
limits-InLayers v (x ∷ xs) h = (h.0, limits-InLayers v xs h.1)

module _ (q : QuoteReconciler) (now : ℕ) (books : Books) (ticker : String) where
  fits-InLayers :
      (xs : List ActionReplace) → All (λ a. ReplaceFits q now books ticker a) xs → InLayers xs
  fits-InLayers [] h = tt
  fits-InLayers (x ∷ xs) h = (h.0.0, fits-InLayers xs h.1)

-- The replacements that are left after both filters.
pub filtered-InLayers :
    (q : QuoteReconciler) (v : VenuePolicy) (risk : RiskInfo) (reserved : ℤ) (now later : ℕ)
    (books : Books) (i : QuoteIntent) (is : List QuoteIntent)
    → InLayers
        (filter_by_risk risk reserved
          (filter_by_venue v i.ticker (diff q later (i ∷ is) books) now books)).repls
unfolding filter_by_risk filter_by_venue
filtered-InLayers q v risk reserved now later books i is =
    allow-All (λ (a : ActionReplace). a.layer < slots_per_side) risk (λ (a : ActionReplace). a.side)
      replace_delta _ _
      (limits-InLayers v _ (
        erase_recent-All (λ (a : ActionReplace). a.layer < slots_per_side)
          (λ (a : ActionReplace). a.side) (λ a. a.position_side) v now
          (get_last_time books i.ticker) _
          (fits-InLayers q later books i.ticker _ (diff_fits q later books i is).1)))
