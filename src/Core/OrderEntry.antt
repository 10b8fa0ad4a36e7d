-- ===== src/Core/OrderEntry.antt =====
-- hft/core/order_entry.h: the enumerations of order entry, and the texts that they are printed as and
-- read from.
use hft.Prelude.{◌≡◌, refl, ◌≢◌, ◌↔◌, String, if◌then◌else◌}
use hft.Common.Types.{Side, buy, sell, trade, invalid_side, side_to_string, to_side, PositionSide}
use hft.Common.Types.{long, short, invalid_position_side, position_side_to_string, to_position_side}
use text.Mathlib.Text.{◌==◌ as str_eq}

pub data OrdStatus : Type 0 where
  invalid_status new partially_filled filled canceled : OrdStatus
  pending_cancel_status rejected pending_new_status expired : OrdStatus

pub data ExecType : Type 0 where
  exec_new exec_canceled exec_replaced exec_rejected : ExecType
  exec_suspended exec_trade exec_expired : ExecType

pub data OrderSide : Type 0 where
  no_side buy_side sell_side : OrderSide

-- `toString(OrdStatus)`
unfoldable pub status_to_string : OrdStatus → String
status_to_string invalid_status = "INVALID"
status_to_string new = "NEW"
status_to_string partially_filled = "PARIALLY_FILLED"
status_to_string filled = "FILLED"
status_to_string canceled = "CANCELED"
status_to_string pending_cancel_status = "PENDING_CANCEL"
status_to_string rejected = "REJECTED"
status_to_string pending_new_status = "PENDING_NEW"
status_to_string expired = "EXPIRED"

-- `toOrderStatus`
unfoldable pub to_order_status : String → OrdStatus
to_order_status s =
    if str_eq s "NEW"
    then new
    else if str_eq s "PARTIALLY_FILLED"
    then partially_filled
    else if str_eq s "FILLED"
    then filled
    else if str_eq s "CANCELED"
    then canceled
    else if str_eq s "PENDING_CANCELED"
    then pending_cancel_status
    else if str_eq s "REJECTED"
    then rejected
    else if str_eq s "PENDING_NEW"
    then pending_new_status
    else if str_eq s "EXPIRED"
    then expired
    else invalid_status

-- `toString(ExecType)`
unfoldable pub exec_to_string : ExecType → String
exec_to_string exec_new = "NEW"
exec_to_string exec_canceled = "CANCELED"
exec_to_string exec_replaced = "REPLACED"
exec_to_string exec_rejected = "REJECTED"
exec_to_string exec_suspended = "SUSPENDED"
exec_to_string exec_trade = "TRADE"
exec_to_string exec_expired = "EXPIRED"

-- `toType`
unfoldable pub to_type : String → ExecType
to_type s =
    if str_eq s "NEW"
    then exec_new
    else if str_eq s "TRADE"
    then exec_trade
    else if str_eq s "CANCELED"
    then exec_canceled
    else if str_eq s "REJECTED"
    then exec_rejected
    else exec_new

unfoldable pub from_common_side : Side → OrderSide
from_common_side buy = buy_side
from_common_side sell = sell_side
from_common_side _ = no_side

unfoldable pub to_common_side : OrderSide → Side
to_common_side buy_side = buy
to_common_side sell_side = sell
to_common_side no_side = invalid_side

-- A status read back from its own text is the same status exactly if it is neither a partial fill
-- nor a pending cancellation: those two are printed otherwise than they are read.
pub status_round_trip :
    (s : OrdStatus)
    → (to_order_status (status_to_string s) ≡ s)
      ↔ ((s ≢ partially_filled) × (s ≢ pending_cancel_status))
unfolding status_to_string to_order_status
status_round_trip invalid_status = (λ _. (λ e. cc, λ e. cc), λ _. refl)
status_round_trip new = (λ _. (λ e. cc, λ e. cc), λ _. refl)
status_round_trip partially_filled = (λ e. absurd cc, λ h. absurd (h.0 refl))
status_round_trip filled = (λ _. (λ e. cc, λ e. cc), λ _. refl)
status_round_trip canceled = (λ _. (λ e. cc, λ e. cc), λ _. refl)
status_round_trip pending_cancel_status = (λ e. absurd cc, λ h. absurd (h.1 refl))
status_round_trip rejected = (λ _. (λ e. cc, λ e. cc), λ _. refl)
status_round_trip pending_new_status = (λ _. (λ e. cc, λ e. cc), λ _. refl)
status_round_trip expired = (λ _. (λ e. cc, λ e. cc), λ _. refl)

side_back : (s : Side) → to_side (side_to_string s) ≡ s
unfolding side_to_string to_side
side_back buy = refl
side_back sell = refl
side_back trade = refl
side_back invalid_side = refl

position_side_back : (p : PositionSide) → to_position_side (position_side_to_string p) ≡ p
unfolding position_side_to_string to_position_side
position_side_back long = refl
position_side_back short = refl
position_side_back invalid_position_side = refl

-- A side read back from its own text is the same side, and so is a position side.
pub side_round_trip :
    ((s : Side) → to_side (side_to_string s) ≡ s)
    × ((p : PositionSide) → to_position_side (position_side_to_string p) ≡ p)
side_round_trip = (side_back, position_side_back)

-- An execution type read back from its own text is the same exactly for the four types that are
-- read: a replacement, a suspension and an expiry are printed but read as a new order.
pub exec_round_trip :
    (e : ExecType)
    → (to_type (exec_to_string e) ≡ e)
      ↔ ((e ≢ exec_replaced) × (e ≢ exec_suspended) × (e ≢ exec_expired))
unfolding exec_to_string to_type
exec_round_trip exec_new = (λ _. (λ e. cc, λ e. cc, λ e. cc), λ _. refl)
exec_round_trip exec_canceled = (λ _. (λ e. cc, λ e. cc, λ e. cc), λ _. refl)
exec_round_trip exec_rejected = (λ _. (λ e. cc, λ e. cc, λ e. cc), λ _. refl)
exec_round_trip exec_trade = (λ _. (λ e. cc, λ e. cc, λ e. cc), λ _. refl)
exec_round_trip exec_replaced = (λ e. absurd cc, λ h. absurd (h.0 refl))
exec_round_trip exec_suspended = (λ e. absurd cc, λ h. absurd (h.1 refl))
exec_round_trip exec_expired = (λ e. absurd cc, λ h. absurd (h.2 refl))
