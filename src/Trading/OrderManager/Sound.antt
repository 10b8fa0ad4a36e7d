-- ===== src/Trading/OrderManager/Sound.antt =====
-- Valid side books and a queue in order, under each part of hft/src/order_manager.hpp.
use hft.Prelude.{
  ℕ, ◌<◌, Bool, true, false, inl, inr, Bool-cases, Option, none, some, List, [], ◌∷◌, String,
  length-set, All, leb, if◌then◌else◌, arith,
}
use hft.Prelude.Maps.{assign, assign-All}
use hft.Trading.LayerBook.{
  OrderSlot, SideBook, IsValid, slots_per_side, slot_at, set_slot, side_book,
}
use hft.Trading.LayerBook.Unmap.{erase_layer_bound}
use hft.Trading.LayerBook.Books.{AllBooks, put_side_book-All, HasBooks, put_side_book-HasBooks}
use hft.Trading.Tracker.{to_ticks_raw}
use hft.Trading.StateManager.{ExecutionReport, pred_id}
use hft.Trading.StateManager.Invariant.{report-IsValid}
use hft.Trading.Expiry.{ExpiryKey}
use hft.Trading.Expiry.Sweep.{IsSorted, register_expiry_lem, sweep_expired_lem}
use hft.Trading.Risk.{RiskInfo}
use hft.Trading.Reconciler.{ActionNew, ActionReplace, ActionCancel, filter_by_venue}
use hft.Trading.Reconciler.Diff.{QuoteIntent, diff}
use hft.Trading.OrderManager.{
  OrderManager, Config, clashes, place_replace, pending_info, replacing_slot, reply_id, process_new,
  process_new_orders, process_replace, process_replace_orders, process_cancel,
  process_cancel_orders, can_expire, expire, expire_all, sweep_expired_orders,
}
use hft.Trading.OrderManager.Apply.{apply, filter_by_risk, register_live, update_order}
use hft.Trading.OrderManager.Balance.{place_new-IsValid}
use hft.Trading.OrderManager.Layers.{InLayers, filtered-InLayers}

-- Every side book is valid, those in use are there, and the queue of times to live is in order.
pub record Sound (m : OrderManager) : Type 0 where
  pub books : AllBooks IsValid m.layer_book
  pub arrays : HasBooks m.layer_book
  pub queue : IsSorted m.expiry_manager.expiry_pq

place_replace-IsValid :
    (car : Bool) (sb : SideBook) (a : ActionReplace) (tick now : ℕ)
    → a.layer < slots_per_side
    → IsValid sb
    → IsValid (place_replace car sb a tick now)
unfolding place_replace
place_replace-IsValid car sb a tick now h v = record {
  slots_size = omega (arith, v.slots_size, length-set {0} sb.slots a.layer (replacing_slot a now));
  ticks_size = omega (arith, v.ticks_size, length-set sb.layer_ticks a.layer tick);
  pending_size = omega (
    arith,
    v.pending_size,
    length-set {0} sb.pending_repl a.layer (some (pending_info car sb a tick)),
  );
  orig_in = originals car;
  new_in =
      assign-All (λ e. e.1 < slots_per_side) (reply_id car a) a.layer _ h
        (erase_layer_bound a.layer slots_per_side _ v.new_in);
}
  where
    originals :
        (b : Bool)
        → All
            (λ e. e.1 < slots_per_side)
            (if b
              then assign (pred_id a.cl_order_id) a.layer sb.orig_id_to_layer
              else sb.orig_id_to_layer)
    originals true =
        assign-All (λ e. e.1 < slots_per_side) (pred_id a.cl_order_id) a.layer _ h v.orig_in
    originals false = v.orig_in

set_slot-IsValid : (sb : SideBook) (l : ℕ) (s : OrderSlot) → IsValid sb → IsValid (set_slot sb l s)
set_slot-IsValid sb l s v = record {
  slots_size = omega (arith, v.slots_size, length-set {0} sb.slots l s);
  ticks_size = v.ticks_size;
  pending_size = v.pending_size;
  orig_in = v.orig_in;
  new_in = v.new_in;
}

module _ (c : Config) where
  process_new-Sound :
      (ticker : String) (now : ℕ) (a : ActionNew) (m : OrderManager) (ids : List ℕ)
      → Sound m
      → Sound (process_new c ticker now a (m, ids)).0
  unfolding process_new
  process_new-Sound ticker now a m ids s =
      let sb = side_book m.layer_book ticker a.side a.position_side in
      let tick = to_ticks_raw c.tick_converter a.price in
      elim (Bool-cases (clashes sb tick a.layer)) [
        | inl e ↦ rw e s
        | inr e ↦ rw e (record {
          books =
              put_side_book-All IsValid m.layer_book ticker a.side a.position_side _ s.books
                (place_new-IsValid sb a tick now (s.books ticker a.side a.position_side));
          arrays = put_side_book-HasBooks m.layer_book ticker a.side a.position_side _ s.arrays;
          queue =
              (register_expiry_lem m.expiry_manager ticker a.side a.position_side a.layer _ _ now
                s.queue).0;
        })
      ]

  process_replace-Sound :
      (ticker : String) (now : ℕ) (a : ActionReplace) (m : OrderManager)
      → a.layer < slots_per_side
      → Sound m
      → Sound (process_replace c ticker now a m)
  unfolding process_replace
  process_replace-Sound ticker now a m h s =
      let sb = side_book m.layer_book ticker a.side a.position_side in
      let tick = to_ticks_raw c.tick_converter a.price in
      elim (Bool-cases (clashes sb tick a.layer)) [
        | inl e ↦ rw e s
        | inr e ↦ rw e (record {
          books = put_side_book-All IsValid m.layer_book ticker a.side a.position_side _ s.books (
              place_replace-IsValid c.cancel_and_reorder sb a tick now h
                (s.books ticker a.side a.position_side));
          arrays = put_side_book-HasBooks m.layer_book ticker a.side a.position_side _ s.arrays;
          queue =
              (register_expiry_lem m.expiry_manager ticker a.side a.position_side a.layer _ _ now
                s.queue).0;
        })
      ]

  news-Sound :
      (ticker : String) (now : ℕ) (acts : List ActionNew) (m : OrderManager) (ids : List ℕ)
      → Sound m
      → Sound (process_new_orders c ticker now acts (m, ids)).0
  unfolding process_new_orders
  news-Sound ticker now [] m ids s = s
  news-Sound ticker now (a ∷ rest) m ids s =
      let out = process_new c ticker now a (m, ids) in
      news-Sound ticker now rest out.0 out.1 (process_new-Sound ticker now a m ids s)

  repls-Sound :
      (ticker : String) (now : ℕ) (acts : List ActionReplace) (m : OrderManager)
      → InLayers acts
      → Sound m
      → Sound (process_replace_orders c ticker now acts m)
  unfolding process_replace_orders
  repls-Sound ticker now [] m h s = s
  repls-Sound ticker now (a ∷ rest) m h s =
      repls-Sound ticker now rest _ h.1 (process_replace-Sound ticker now a m h.0 s)

  cancels-Sound :
      (ticker : String) (now : ℕ) (acts : List ActionCancel) (m : OrderManager)
      → Sound m
      → Sound (process_cancel_orders c ticker now acts m)
  unfolding process_cancel_orders process_cancel
  cancels-Sound ticker now [] m s = s
  cancels-Sound ticker now (a ∷ rest) m s =
      cancels-Sound ticker now rest (process_cancel c ticker now a m) (record {
        books =
            put_side_book-All IsValid m.layer_book ticker a.side a.position_side _ s.books
              (set_slot-IsValid _ a.layer _ (s.books ticker a.side a.position_side));
        arrays = put_side_book-HasBooks m.layer_book ticker a.side a.position_side _ s.arrays;
        queue = s.queue;
      })

  expire-Sound : (now : ℕ) (k : ExpiryKey) (m : OrderManager) → Sound m → Sound (expire c now k m)
  unfolding expire
  expire-Sound now k m s =
      let sb = side_book m.layer_book k.symbol k.side k.position_side in
      elim (Bool-cases (leb slots_per_side k.layer)) [
        | inl e ↦ rw e s
        | inr e ↦ elim (Bool-cases (can_expire c (slot_at sb k.layer) k)) [
          | inl f ↦
              rw (e, f)
                (record {
                  books =
                      put_side_book-All IsValid m.layer_book k.symbol k.side k.position_side _
                        s.books
                        (set_slot-IsValid sb k.layer _ (s.books k.symbol k.side k.position_side));
                  arrays =
                      put_side_book-HasBooks m.layer_book k.symbol k.side k.position_side _
                        s.arrays;
                  queue = s.queue;
                })
          | inr f ↦ rw (e, f) s
        ]
      ]

  expire_all-Sound :
      (now : ℕ) (ks : List ExpiryKey) (m : OrderManager) → Sound m → Sound (expire_all c now ks m)
  unfolding expire_all
  expire_all-Sound now [] m s = s
  expire_all-Sound now (k ∷ ks) m s =
      expire_all-Sound now ks (expire c now k m) (expire-Sound now k m s)

  sweep-Sound : (now : ℕ) (m : OrderManager) → Sound m → Sound (sweep_expired_orders c now m)
  unfolding sweep_expired_orders
  sweep-Sound now m s = expire_all-Sound now _ _ (record {
    books = s.books;
    arrays = s.arrays;
    queue = (sweep_expired_lem m.expiry_manager now s.queue).sorted;
  })

  pub apply-Sound :
      (risk : RiskInfo) (now later : ℕ) (intents : List QuoteIntent) (m : OrderManager)
      → Sound m
      → Sound (apply c risk now later intents m).0
  unfolding apply
  apply-Sound risk now later [] m s = sweep-Sound now m s
  apply-Sound risk now later (i ∷ is) m s =
      let wanted = diff c.reconciler later (i ∷ is) m.layer_book in
      let taken = filter_by_venue m.venue_policy i.ticker wanted now m.layer_book in
      let acts = filter_by_risk risk m.position_tracker.reserved_position taken in
      let out = process_new_orders c i.ticker now acts.news (m, []) in
      sweep-Sound now _ (
        cancels-Sound i.ticker now acts.cancels _ (
          repls-Sound i.ticker now acts.repls out.0
            (filtered-InLayers c.reconciler m.venue_policy risk m.position_tracker.reserved_position
              now later m.layer_book i is)
            (news-Sound i.ticker now acts.news m [] s)))

  register_live-Sound :
      (r : ExecutionReport) (now : ℕ) (l : Option ℕ) (m : OrderManager)
      → Sound m
      → Sound (register_live c r now l m)
  unfolding register_live
  register_live-Sound r now none m s = s
  register_live-Sound r now (some layer) m s = record {
    books = s.books;
    arrays = s.arrays;
    queue =
        (register_expiry_lem m.expiry_manager r.symbol r.side r.position_side layer _ _ now
          s.queue).0;
  }

  pub report-Sound :
      (r : ExecutionReport) (now : ℕ) (m : OrderManager) → Sound m → Sound (update_order c r now m)
  unfolding update_order
  report-Sound r now m s =
      let sb = side_book m.layer_book r.symbol r.side r.position_side in
      register_live-Sound r now _ _ (record {
        books = put_side_book-All IsValid m.layer_book r.symbol r.side r.position_side _ s.books (
            report-IsValid c.state_manager r (sb, m.position_tracker) now
              (s.books r.symbol r.side r.position_side));
        arrays = put_side_book-HasBooks m.layer_book r.symbol r.side r.position_side _ s.arrays;
        queue = s.queue;
      })
