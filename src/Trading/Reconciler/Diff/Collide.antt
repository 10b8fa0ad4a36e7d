-- ===== src/Trading/Reconciler/Diff/Collide.antt =====
-- Two quotes that hft/src/quote_reconciler.h plans on one layer.
use hft.Prelude.{ℕ, ◌≡◌, ◌∙◌, ◌⊎◌, inl, inr, ap, refl, String, true, none, some, [], ◌∷◌, arith}
use hft.Prelude.Int.{ℤ}
use hft.Common.Types.{buy, sell}
use hft.Trading.LayerBook.{
  SideBook, Books, slot_at, is_free, find_layer_by_ticks, find_free_layer, plan_layer, side_book,
}
use hft.Trading.Tracker.{to_ticks_raw}
use hft.Trading.Reconciler.{Actions}
use hft.Trading.Reconciler.Diff.{
  QuoteIntent, QuoteReconciler, add_new, new_action, no_actions, diff_planned, diff_active,
  is_intended, diff_intent, diff_side, diff,
}

-- An intent at a tick that no layer has becomes a new order for the first free layer.
planned_free :
    (q : QuoteReconciler) (now : ℕ) (sb : SideBook) (i : QuoteIntent) (p : ℤ) (acts : Actions)
    (k : ℕ)
    → find_layer_by_ticks sb (to_ticks_raw q.tick_converter p) ≡ none
    → find_free_layer sb ≡ some k
    → is_free (slot_at sb k).state ≡ true
    → diff_active q now sb i p acts ≡ add_new acts (new_action q now i p k)
unfolding diff_active diff_planned plan_layer
planned_free q now sb i p acts k a f free = ground arith

intent_planned :
    (q : QuoteReconciler) (now : ℕ) (books : Books) (t : String) (i : QuoteIntent) (p : ℤ)
    (acts : Actions) (k : ℕ)
    → i.price ≡ some p
    → is_intended q now p i.qty ≡ true
    → find_layer_by_ticks
        (side_book books t i.side i.position_side)
        (to_ticks_raw q.tick_converter p)
      ≡ none
    → find_free_layer (side_book books t i.side i.position_side) ≡ some k
    → is_free (slot_at (side_book books t i.side i.position_side) k).state ≡ true
    → diff_intent q now books t i acts ≡ add_new acts (new_action q now i p k)
unfolding diff_intent
intent_planned q now books t i p acts k price wanted a f free =
    let planned =
      planned_free q now (side_book books t i.side i.position_side) i p acts k a f free in
    ground (arith, planned)

two_quotes :
    (q : QuoteReconciler) (now : ℕ) (books : Books) (i j : QuoteIntent)
    → (i.side ≡ buy) ⊎ (i.side ≡ sell)
    → j.side ≡ i.side
    → diff q now (i ∷ j ∷ []) books
      ≡ diff_intent q now books i.ticker j (diff_intent q now books i.ticker i no_actions)
unfolding diff diff_side
two_quotes q now books i j (inl e) same = rw (same ∙ e, e) refl
two_quotes q now books i j (inr e) same = rw (same ∙ e, e) refl

-- Two quotes of one ticker, side and position side, at prices whose ticks no layer of their side book
-- has, are both planned on the first free layer of that book, and if its slot holds no order `diff`
-- makes both new orders for that layer: the plan of the second does not see the first.
pub new_orders_collide :
    (q : QuoteReconciler) (now : ℕ) (books : Books) (i j : QuoteIntent) (p r : ℤ) (k : ℕ)
    → (i.side ≡ buy) ⊎ (i.side ≡ sell)
    → j.side ≡ i.side
    → j.position_side ≡ i.position_side
    → i.price ≡ some p
    → j.price ≡ some r
    → is_intended q now p i.qty ≡ true
    → is_intended q now r j.qty ≡ true
    → let sb = side_book books i.ticker i.side i.position_side in
      (find_layer_by_ticks sb (to_ticks_raw q.tick_converter p) ≡ none)
      → (find_layer_by_ticks sb (to_ticks_raw q.tick_converter r) ≡ none)
      → (find_free_layer sb ≡ some k)
      → (is_free (slot_at sb k).state ≡ true)
      → (diff q now (i ∷ j ∷ []) books
          ≡ add_new (add_new no_actions (new_action q now i p k)) (new_action q now j r k))
new_orders_collide q now books i j p r k side same pos_j pi pj wi wj a b f free =
    two_quotes q now books i j side same
    ∙ ap (λ acts. diff_intent q now books i.ticker j acts)
        (intent_planned q now books i.ticker i p no_actions k pi wi a f free)
    ∙ intent_planned q now books i.ticker j r _ k pj wj (rw (same, pos_j) b) (rw (same, pos_j) f)
        (rw (same, pos_j) free)
