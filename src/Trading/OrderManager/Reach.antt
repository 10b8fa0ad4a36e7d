-- ===== src/Trading/OrderManager/Reach.antt =====
-- The states that the order manager of hft/src/order_manager.hpp reaches, by rounds of `apply` and
-- reports to `on_order_updated` in any order.
use mathlib.Core.Path.{subst}
use hft.Prelude.{
  ℕ, ◌≡◌, true, sym, inl, inr, Bool-cases, All, refl, none, some, List, [], get_or-replicate, arith,
}
use hft.Common.Types.{long, short, invalid_position_side, side_to_index}
use hft.Trading.LayerBook.{
  IsValid, empty_side_book, empty_four_way, find_book, in_bounds, in_use, side_book,
}
use hft.Trading.LayerBook.Books.{AllBooks, HasBooks, start-HasBooks}
use hft.Trading.StateManager.{ExecutionReport}
use hft.Trading.Expiry.Sweep.{IsSorted}
use hft.Trading.Risk.{RiskInfo}
use hft.Trading.Reconciler.Diff.{QuoteIntent}
use hft.Trading.OrderManager.{OrderManager, Config}
use hft.Trading.OrderManager.Apply.{apply, update_order, on_order_updated}
use hft.Trading.OrderManager.Sound.{Sound, apply-Sound, report-Sound}

module _ (c : Config) where
  -- What happens to the manager: a round of quotes, with intents and keys in the queue for sides in
  -- use, or a report that does not index out of bounds.
  pub data Step (m : OrderManager) : OrderManager → Type 0 where
    applied :
        (risk : RiskInfo) (now later : ℕ) (intents : List QuoteIntent)
        → All (λ i. in_use i.side i.position_side ≡ true) intents
        → All (λ k. in_use k.side k.position_side ≡ true) m.expiry_manager.expiry_pq
        → Step m (apply c risk now later intents m).0
    reported :
        (r : ExecutionReport) (now : ℕ) {n : OrderManager}
        → on_order_updated c r now m ≡ some n
        → Step m n

  pub data Reach (start : OrderManager) : OrderManager → Type 0 where
    begin : Reach start start
    next : {m n : OrderManager} → Reach start m → Step m n → Reach start n

  on_order_updated-Sound :
      (r : ExecutionReport) (now : ℕ) (m n : OrderManager)
      → on_order_updated c r now m ≡ some n
      → Sound m
      → Sound n
  unfolding on_order_updated
  on_order_updated-Sound r now m n e s =
      elim (Bool-cases (in_bounds m.layer_book r.symbol r.side r.position_side)) [
        | inl f ↦ subst Sound (ground (arith, e, f)) (report-Sound c r now m s)
        | inr f ↦ ground (arith, e, f)
      ]

  Step-Sound : (m n : OrderManager) → Step m n → Sound m → Sound n
  Step-Sound m _ (applied risk now later intents _ _) s = apply-Sound c risk now later intents m s
  Step-Sound m n (reported r now e) s = on_order_updated-Sound r now m n e s

  -- Whatever quotes arrive for one of the two sides and for one of the two position sides or none,
  -- while the keys in the queue are for those too, and whatever reports whose side book is not out of
  -- bounds, in whatever order and at whatever times, from a sound state only sound states are reached: every side book of every ticker is valid,
  -- the four-way books keep all their side books, and the queue of times to live is in order. Reports
  -- with another side or position side, on which the source indexes out of bounds, are left out.
  pub Reach-Sound : (start m : OrderManager) → Sound start → Reach start m → Sound m
  Reach-Sound start _ s begin = s
  Reach-Sound start n s (next {m} r st) = Step-Sound m n st (Reach-Sound start m s r)

-- In every state that is reached from a sound one, `on_order_updated` is defined on every report
-- whose side is one of the two and whose position side is one of the two or none, for any ticker, and
-- leads to a state that is sound again.
pub report_taken :
    (c : Config) (start m : OrderManager) (r : ExecutionReport) (now : ℕ)
    → Sound start
    → Reach c start m
    → in_use r.side r.position_side ≡ true
    → (n : OrderManager) × (on_order_updated c r now m ≡ some n) × Sound n
unfolding on_order_updated
report_taken c start m r now s reach used =
    let sound = Reach-Sound c start m s reach in
    let bound = sound.arrays r.symbol r.side r.position_side used in
    (update_order c r now m, rw bound refl, report-Sound c r now m sound)

empty-IsValid : IsValid empty_side_book
unfolding empty_side_book
empty-IsValid = record {
  slots_size = refl;
  ticks_size = refl;
  pending_size = refl;
  orig_in = tt;
  new_in = tt;
}

-- Before any order every side book is valid.
start-IsValid : AllBooks IsValid []
unfolding side_book empty_four_way find_book
start-IsValid t s none = rw (get_or-replicate 2 (side_to_index s) empty_side_book) empty-IsValid
start-IsValid t s (some long) =
    rw (get_or-replicate 2 (side_to_index s) empty_side_book) empty-IsValid
start-IsValid t s (some short) =
    rw (get_or-replicate 2 (side_to_index s) empty_side_book) empty-IsValid
start-IsValid t s (some invalid_position_side) = empty-IsValid

-- Before any order the state is sound.
pub start-Sound :
    (m : OrderManager) → m.layer_book ≡ [] → IsSorted m.expiry_manager.expiry_pq → Sound m
start-Sound m e q = record {
  books = subst (AllBooks IsValid) (sym e) start-IsValid;
  arrays = subst HasBooks (sym e) start-HasBooks;
  queue = q;
}
