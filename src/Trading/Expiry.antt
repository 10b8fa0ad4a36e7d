-- ===== src/Trading/Expiry.antt =====
-- hft/src/order_expiry_manager.h: the times at which orders run out. The priority queue is a list in
-- order of time; which of two equal times comes first, the standard library leaves open.
pub mod Sweep
use hft.Prelude.{
  ℕ, ◌+◌, ◌%◌, ◌^◌, ◌≤◌, ◌<◌, ◌≡◌, refl, Bool, true, false, Option, List, [], ◌∷◌, ◌++◌, String,
  leb, if◌then◌else◌, inl, inr, Bool-cases, All, length, arith,
}
use hft.Common.Types.{Side, PositionSide, OmOrderState, reserved, cancel_reserved}

pub record ExpiryKey : Type 0 where
  pub expire_ts : ℕ
  pub symbol : String
  pub side : Side
  pub position_side : Option PositionSide
  pub layer : ℕ
  pub cl_order_id : ℕ

pub record OrderExpiryManager : Type 0 where
  pub expiry_pq : List ExpiryKey
  pub ttl_reserved_ns : ℕ
  pub ttl_live_ns : ℕ

-- `priority_queue::push`
unfoldable pub push : ExpiryKey → List ExpiryKey → List ExpiryKey
push k [] = k ∷ []
push k (j ∷ q) = if leb k.expire_ts j.expire_ts then k ∷ j ∷ q else j ∷ push k q

abbrev pub is_reserved : OmOrderState → Bool
is_reserved reserved = true
is_reserved cancel_reserved = true
is_reserved _ = false

abbrev pub ttl_of : OrderExpiryManager → OmOrderState → ℕ
ttl_of m state = if is_reserved state then m.ttl_reserved_ns else m.ttl_live_ns

abbrev pub key_of :
    OrderExpiryManager → String → Side → Option PositionSide → ℕ → ℕ → OmOrderState → ℕ → ExpiryKey
key_of m ticker side position_side layer order_id state now = record {
  expire_ts = (now + ttl_of m state) % 2 ^ 64;
  symbol = ticker;
  side = side;
  position_side = position_side;
  layer = layer;
  cl_order_id = order_id;
}

unfoldable pub register_expiry :
    OrderExpiryManager
    → String
    → Side
    → Option PositionSide
    → ℕ
    → ℕ
    → OmOrderState
    → ℕ
    → OrderExpiryManager
register_expiry m ticker side position_side layer order_id state now = record m {
  expiry_pq = push (key_of m ticker side position_side layer order_id state now) m.expiry_pq;
}

-- The loop of `sweep_expired`: what is due comes off the top.
unfoldable pub sweep : ℕ → List ExpiryKey → List ExpiryKey × List ExpiryKey
sweep now [] = ([], [])
sweep now (k ∷ q) = elim (leb k.expire_ts now) [
  | true ↦ let (due, rest) = sweep now q in (k ∷ due, rest)
  | false ↦ ([], k ∷ q)
]

unfoldable pub sweep_expired : OrderExpiryManager → ℕ → List ExpiryKey × OrderExpiryManager
sweep_expired m now =
    let (due, rest) = sweep now m.expiry_pq in (due, record m { expiry_pq = rest })

unfoldable pub configure_ttl : OrderExpiryManager → ℕ → ℕ → OrderExpiryManager
configure_ttl m reserved_ns live_ns = record m {
  ttl_reserved_ns = reserved_ns;
  ttl_live_ns = live_ns;
}
