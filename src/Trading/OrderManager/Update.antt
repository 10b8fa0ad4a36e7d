-- ===== src/Trading/OrderManager/Update.antt =====
-- `on_order_updated` of hft/src/order_manager.hpp on a report whose side book is within the bounds:
-- what the manager shows after it is what the state manager gives.
use hft.Prelude.{String, Option, ap, refl, true, ℕ, ◌≡◌, ◌∙◌, none, some}
use hft.Common.Types.{Side, PositionSide}
use hft.Trading.LayerBook.{Books, in_bounds, side_book, put_side_book, SideBook}
use hft.Trading.LayerBook.Books.{side_book-put_side_book}
use hft.Trading.StateManager.{ExecutionReport, handle_execution_report}
use hft.Trading.OrderManager.{OrderManager, Config}
use hft.Trading.OrderManager.Apply.{register_live, expiring_layer, update_order}

pub same_book :
    (bs : Books) (t u : String) (s s' : Side) (p p' : Option PositionSide)
    → u ≡ t
    → s' ≡ s
    → p' ≡ p
    → side_book bs t s p ≡ side_book bs u s' p'
same_book bs t u s s' p p' e f g = rw (e, f, g) refl

pub same_bounds :
    (bs : Books) (t u : String) (s s' : Side) (p p' : Option PositionSide)
    → u ≡ t
    → s' ≡ s
    → p' ≡ p
    → in_bounds bs t s p ≡ true
    → in_bounds bs u s' p' ≡ true
same_bounds bs t u s s' p p' e f g h = rw (e, f, g) h

register_live-keeps :
    (c : Config) (r : ExecutionReport) (now : ℕ) (l : Option ℕ) (m : OrderManager)
    → ((register_live c r now l m).layer_book ≡ m.layer_book)
      × ((register_live c r now l m).position_tracker ≡ m.position_tracker)
unfolding register_live
register_live-keeps c r now none m = (refl, refl)
register_live-keeps c r now (some l) m = (refl, refl)

abbrev pub report_book : OrderManager → ExecutionReport → SideBook
report_book m r = side_book m.layer_book r.symbol r.side r.position_side

-- What the manager shows after a report is what the state manager gives.
pub update_order-managed :
    (c : Config) (r : ExecutionReport) (now : ℕ) (m : OrderManager)
    → in_bounds m.layer_book r.symbol r.side r.position_side ≡ true
    → let m' = update_order c r now m in
      (report_book m' r, m'.position_tracker)
      ≡ handle_execution_report c.state_manager r (report_book m r, m.position_tracker) now
unfolding update_order
update_order-managed c r now m bound =
    let out = handle_execution_report c.state_manager r (report_book m r, m.position_tracker) now in
    let n = record m {
      layer_book = put_side_book m.layer_book r.symbol r.side r.position_side out.0;
      position_tracker = out.1;
    } in
    let kept = register_live-keeps c r now (expiring_layer c r.ord_status r out.0) n in
    ap
      (λ bs.
        (side_book bs r.symbol r.side r.position_side, (update_order c r now m).position_tracker))
      kept.0
    ∙ ap (λ sb. (sb, (update_order c r now m).position_tracker))
        (side_book-put_side_book m.layer_book r.symbol r.side r.position_side out.0 bound)
    ∙ ap (λ tr. (out.0, tr)) kept.1
