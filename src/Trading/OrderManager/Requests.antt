-- ===== src/Trading/OrderManager/Requests.antt =====
-- The requests that `process_new_orders` and `process_replace_orders` of hft/src/order_manager.hpp
-- send, and what is reserved for them.
use mathlib.Core.List.{append_assoc, append-nil}
use mathlib.Core.Path.{subst}
use hft.Prelude.{
  ℕ, ◌≡◌, ◌∙◌, ap, sym, refl, ◌⊎◌, inl, inr, Bool-cases, List, [], ◌∷◌, ◌++◌, map, All, String,
}
use hft.Prelude.Int.{ℤ, pos, ◌+ℤ◌, ◌*ℤ◌, +ℤ-zero, +ℤ_assoc}
use hft.Common.Types.{side_to_value}
use hft.Trading.LayerBook.{side_book}
use hft.Trading.Tracker.{add_reserved, to_ticks_raw}
use hft.Trading.Reconciler.{ActionNew}
use hft.Trading.OrderManager.{
  new_single, RequestCommon, OrderManager, Config, new_order, clashes, process_new,
  process_new_orders,
}

-- The quantities of requests, with the signs of their sides.
pub total_signed : List RequestCommon → ℤ
total_signed [] = pos 0
total_signed (r ∷ rs) = side_to_value r.side *ℤ r.order_qty +ℤ total_signed rs

-- New orders for a ticker were sent: the requests come last, each with its identifier in the answer,
-- and what they are for is reserved.
pub record Sent (ticker : String) (m : OrderManager) (ids : List ℕ) (out : OrderManager × List ℕ)
    (rs : List RequestCommon) : Type 0 where
  pub requests : out.0.requests ≡ m.requests ++ rs
  pub answered : out.1 ≡ ids ++ map (λ r. r.cl_order_id) rs
  pub reserved :
      out.0.position_tracker.reserved_position
      ≡ m.position_tracker.reserved_position +ℤ total_signed rs
  pub kinds : All (λ r. (r.req_type ≡ new_single) × (r.symbol ≡ ticker)) rs

-- One round: either a clash and nothing, or one request.
round :
    (c : Config) (ticker : String) (now : ℕ) (a : ActionNew) (m : OrderManager) (ids : List ℕ)
    → let out = process_new c ticker now a (m, ids) in
      (out ≡ (m, ids)) ⊎ Sent ticker m ids out (new_order ticker a ∷ [])
unfolding process_new add_reserved total_signed
round c ticker now a m ids =
    let sb = side_book m.layer_book ticker a.side a.position_side in
    let tick = to_ticks_raw c.tick_converter a.price in
    elim (Bool-cases (clashes sb tick a.layer)) [
      | inl e ↦ inl (rw e refl)
      | inr e ↦ inr (
          rw e (record {
            requests = refl;
            answered = refl;
            reserved = ap (λ t. m.position_tracker.reserved_position +ℤ t) (sym (+ℤ-zero _));
            kinds = ((refl, refl), tt);
          }))
    ]

-- Two parts after each other.
followed :
    (ticker : String) (m : OrderManager) (ids : List ℕ) (mid out : OrderManager × List ℕ)
    (r : RequestCommon) (rs : List RequestCommon)
    → Sent ticker m ids mid (r ∷ [])
    → Sent ticker mid.0 mid.1 out rs
    → Sent ticker m ids out (r ∷ rs)
unfolding total_signed
followed ticker m ids mid out r rs f s = record {
  requests = s.requests ∙ ap (λ l. l ++ rs) f.requests ∙ append_assoc m.requests (r ∷ []) rs;
  answered =
      s.answered
      ∙ ap (λ l. l ++ map (λ x. x.cl_order_id) rs) f.answered
      ∙ append_assoc ids (r.cl_order_id ∷ []) _;
  reserved =
      s.reserved
      ∙ ap (λ t. t +ℤ total_signed rs)
          (f.reserved ∙ ap (λ t. m.position_tracker.reserved_position +ℤ t) (+ℤ-zero _))
      ∙ +ℤ_assoc m.position_tracker.reserved_position (side_to_value r.side *ℤ r.order_qty)
          (total_signed rs);
  kinds = (f.kinds.0, s.kinds);
}

-- The new orders that `process_new_orders` sends, and no others, are answered with their identifiers,
-- in order, and the reserved position grows by exactly their quantities.
pub new_orders-Sent :
    (c : Config) (ticker : String) (now : ℕ) (acts : List ActionNew) (m : OrderManager)
    (ids : List ℕ)
    → (rs : List RequestCommon) × Sent ticker m ids
        (process_new_orders c ticker now acts (m, ids))
        rs
unfolding process_new_orders total_signed
new_orders-Sent c ticker now [] m ids = (
  [],
  record {
    requests = sym (append-nil m.requests);
    answered = sym (append-nil ids);
    reserved = sym (+ℤ-zero _);
    kinds = tt;
  },
)
new_orders-Sent c ticker now (a ∷ rest) m ids =
    let out = process_new c ticker now a (m, ids) in
    let (rs, s) = new_orders-Sent c ticker now rest out.0 out.1 in
    elim (round c ticker now a m ids) [
      | inl e ↦ (
        rs,
        subst
            (λ (o : OrderManager × List ℕ).
              Sent ticker o.0 o.1 (process_new_orders c ticker now rest out) rs)
            e s,
      )
      | inr f ↦ (new_order ticker a ∷ rs, followed ticker m ids out _ _ rs f s)
    ]
