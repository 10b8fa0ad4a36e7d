-- ===== src/Common/Types.antt =====
-- hft/common/types.h and hft/src/orders.h: sides, order identifiers and order states.
use hft.Prelude.{ℕ, zero, ◌-◌, ◌^◌, Bool, true, false, String, if◌then◌else◌}
use hft.Prelude.Int.{ℤ, pos, negsuc}
use text.Mathlib.Text.{◌==◌ as str_eq}

pub data Side : Type 0 where
  buy sell trade invalid_side : Side

pub data PositionSide : Type 0 where
  long short invalid_position_side : PositionSide

pub data OmOrderState : Type 0 where
  invalid pending_new live pending_cancel dead reserved cancel_reserved : OmOrderState

pub Side-discrete : Discrete Side
Side-discrete = hlevel

abbrev pub is_buy : Side → Bool
is_buy buy = true
is_buy _ = false

-- `sideToValue`
unfoldable pub side_to_value : Side → ℤ
side_to_value s = if is_buy s then pos 1 else negsuc 0

-- `sideToIndex`
abbrev pub side_to_index : Side → ℕ
side_to_index buy = 0
side_to_index sell = 1
side_to_index trade = 2
side_to_index invalid_side = 3

-- `oppIndex`, `idx ^ 1U`, at the two indices that occur
abbrev pub opp_index : ℕ → ℕ
opp_index zero = 1
opp_index _ = 0

-- `positionSideToIndex`
abbrev pub position_side_to_index : PositionSide → ℕ
position_side_to_index long = 0
position_side_to_index short = 1
position_side_to_index invalid_position_side = 2

abbrev pub side_eq : Side → Side → Bool
side_eq buy buy = true
side_eq sell sell = true
side_eq trade trade = true
side_eq invalid_side invalid_side = true
side_eq _ _ = false

abbrev pub position_side_eq : PositionSide → PositionSide → Bool
position_side_eq long long = true
position_side_eq short short = true
position_side_eq invalid_position_side invalid_position_side = true
position_side_eq _ _ = false

-- `kOrderIdInvalid`
abbrev pub order_id_invalid : ℕ
order_id_invalid = 2 ^ 64 - 1

-- `FixedPoint::kInvalidValue`, what a default-constructed price or quantity holds
abbrev pub invalid_value : ℤ
invalid_value = pos (2 ^ 63 - 1)

-- `toString(Side)`
unfoldable pub side_to_string : Side → String
side_to_string buy = "BUY"
side_to_string sell = "SELL"
side_to_string trade = "TRADE"
side_to_string invalid_side = "INVALID"

-- `toSide`
unfoldable pub to_side : String → Side
to_side s =
    if str_eq s "BUY"
    then buy
    else if str_eq s "SELL"
    then sell
    else if str_eq s "TRADE"
    then trade
    else invalid_side

-- `toString(PositionSide)`
unfoldable pub position_side_to_string : PositionSide → String
position_side_to_string long = "LONG"
position_side_to_string short = "SHORT"
position_side_to_string invalid_position_side = "INVALID"

-- `toPositionSide`
unfoldable pub to_position_side : String → PositionSide
to_position_side s =
    if str_eq s "LONG" then long else if str_eq s "SHORT" then short else invalid_position_side
