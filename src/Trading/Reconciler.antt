-- ===== src/Trading/Reconciler.antt =====
-- hft/src/quote_reconciler.h: the actions that bring the layers to what a strategy wants, and the
-- venue's limits on them.
pub mod Diff
pub mod Erase
pub mod Quantity
use hft.Prelude.{
  ℕ, zero, suc, ◌+◌, ◌-◌, ◌%◌, ◌^◌, ◌≤◌, ◌<◌, ◌≡◌, refl, Bool, true, false, not, ◌&&◌, ◌||◌, Option,
  none, some, List, [], ◌∷◌, ◌++◌, map, String, length, get_or, ltb, leb, ◌==◌, if◌then◌else◌,
}
use hft.Prelude.Int.{ℤ, pos, negsuc, ◌+ℤ◌, ◌-ℤ◌, ◌*ℤ◌, ◌/ℤ◌, abs, ltb_ℤ, leb_ℤ, eqb_ℤ, to_u64}
use hft.Common.Types.{
  Side, buy, sell, PositionSide, long, short, invalid, live, OmOrderState, side_eq,
  position_side_eq, invalid_value,
}
use hft.Trading.LayerBook.{
  OrderSlot, SideBook, Books, AssignPlan, slot_at, is_free, is_live, plan_layer, side_book,
  get_last_time,
}
use hft.Trading.Tracker.{TickConverter, to_ticks_raw}

pub record ActionNew : Type 0 where
  pub layer : ℕ
  pub price : ℤ
  pub qty : ℤ
  pub side : Side
  pub cl_order_id : ℕ
  pub position_side : Option PositionSide

pub record ActionReplace : Type 0 where
  pub layer : ℕ
  pub price : ℤ
  pub qty : ℤ
  pub side : Side
  pub cl_order_id : ℕ
  pub original_cl_order_id : ℕ
  pub last_qty : ℤ
  pub position_side : Option PositionSide

pub record ActionCancel : Type 0 where
  pub layer : ℕ
  pub side : Side
  pub cl_order_id : ℕ
  pub original_cl_order_id : ℕ
  pub position_side : Option PositionSide

pub record Actions : Type 0 where
  pub news : List ActionNew
  pub repls : List ActionReplace
  pub cancels : List ActionCancel

-- `VenuePolicy`, with the scale of quantities that `filter_by_venue` divides by.
pub record VenuePolicy : Type 0 where
  pub minimum_usdt : ℤ
  pub minimum_qty : ℤ
  pub maximum_qty : ℤ
  pub minimum_time_gap : ℤ
  pub qty_increment : ℤ
  pub qty_scale : ℤ

unfoldable pub round_qty : VenuePolicy → ℤ → ℤ
round_qty v qty =
    let steps = (qty +ℤ v.qty_increment -ℤ pos 1) /ℤ v.qty_increment in steps *ℤ v.qty_increment

-- `vec.back()` and what `pop_back` leaves.
module _ {ℓ} {A : Type ℓ} where
  abbrev pub last_or : A → List A → A
  last_or d [] = d
  last_or d (x ∷ xs) = last_or x xs

  abbrev pub drop_last : List A → List A
  drop_last [] = []
  drop_last (x ∷ []) = []
  drop_last (x ∷ y ∷ ys) = x ∷ drop_last (y ∷ ys)

  -- The loop of `erase_if_too_recent`, at the elements from `i` on: one that goes is overwritten by
  -- the last, which is then looked at in its turn. Each round leaves one element fewer to look at.
  unfoldable pub swap_erase : ℕ → (A → Bool) → List A → List A
  swap_erase zero p xs = []
  swap_erase (suc n) p [] = []
  swap_erase (suc n) p (x ∷ []) = if p x then [] else x ∷ []
  swap_erase (suc n) p (x ∷ y ∷ ys) = elim (p x) [
    | true ↦ swap_erase n p (last_or y ys ∷ drop_last (y ∷ ys))
    | false ↦ x ∷ swap_erase n p (y ∷ ys)
  ]

-- `position_side == pos_side`, between an optional and a value
abbrev pub at_side : Option PositionSide → PositionSide → Bool
at_side none q = false
at_side (some p) q = position_side_eq p q

-- `current_time - last_times[i] < minimum_time_gap`, in 64 bits.
unfoldable pub too_recent : VenuePolicy → ℕ → ℕ → Bool
too_recent v now last = ltb ((now + (2 ^ 64 - last)) % 2 ^ 64) (to_u64 v.minimum_time_gap)

abbrev pub matches : Side → PositionSide → Side → Option PositionSide → Bool
matches s p side position_side = side_eq side s && at_side position_side p

module _ {A : Type 0} (side_of : A → Side) (position_of : A → Option PositionSide) where
  unfoldable pub erase_if_too_recent : Bool → Side → PositionSide → List A → List A
  erase_if_too_recent recent s p xs =
      if recent
      then swap_erase (length xs) (λ a. matches s p (side_of a) (position_of a)) xs
      else xs

  -- LONG_BUY, LONG_SELL, SHORT_BUY, SHORT_SELL
  unfoldable pub erase_recent : VenuePolicy → ℕ → List ℕ → List A → List A
  erase_recent v now times xs =
      let recent = λ (i : ℕ). too_recent v now (get_or times i 0) in
      erase_if_too_recent (recent 3) sell short (
        erase_if_too_recent (recent 2) buy short
          (erase_if_too_recent (recent 1) sell long (erase_if_too_recent (recent 0) buy long xs)))

-- The quantity that the venue takes for an order.
unfoldable pub venue_qty : VenuePolicy → ℤ → ℤ → ℤ
venue_qty v price qty =
    let raised = if ltb_ℤ qty v.minimum_qty then v.minimum_qty else qty in
    let order_usdt = price *ℤ raised /ℤ v.qty_scale in
    let worth =
      if ltb_ℤ order_usdt v.minimum_usdt then v.minimum_usdt *ℤ v.qty_scale /ℤ price else raised in
    let capped = if ltb_ℤ v.maximum_qty worth then v.maximum_qty else worth in round_qty v capped

abbrev pub limit_new : VenuePolicy → ActionNew → ActionNew
limit_new v a = record a { qty = venue_qty v a.price a.qty }

abbrev pub limit_replace : VenuePolicy → ActionReplace → ActionReplace
limit_replace v a = record a { qty = venue_qty v a.price a.qty; last_qty = round_qty v a.last_qty }

unfoldable pub filter_by_venue : VenuePolicy → String → Actions → ℕ → Books → Actions
filter_by_venue v symbol acts now books =
    let times = get_last_time books symbol in
    record {
      news =
          map (limit_new v)
            (erase_recent (λ (a : ActionNew). a.side) (λ a. a.position_side) v now times acts.news);
      repls = map (limit_replace v) (
          erase_recent (λ (a : ActionReplace). a.side) (λ a. a.position_side) v now times
            acts.repls);
      cancels =
          erase_recent (λ (a : ActionCancel). a.side) (λ a. a.position_side) v now times
            acts.cancels;
    }
