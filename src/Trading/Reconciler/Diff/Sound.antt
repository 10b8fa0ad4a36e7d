-- ===== src/Trading/Reconciler/Diff/Sound.antt =====
-- The actions of `QuoteReconciler::diff` of hft/src/quote_reconciler.h against the layers.
use hft.Prelude.{
  ℕ, ◌<◌, ◌≡◌, refl, ◌⊎◌, inl, inr, Bool, true, false, ◌&&◌, some, List, [], ◌∷◌, String, All,
  All-append, Bool-cases, Option-cases, if◌then◌else◌, arith,
}
use hft.Prelude.Int.{ℤ, pos, ◌<ℤ◌, ltb_ℤ}
use hft.Common.Types.{Side, buy, sell, side_eq}
use hft.Trading.LayerBook.{
  OrderSlot, SideBook, Books, AssignPlan, slots_per_side, slot_at, is_free, is_live, plan_layer,
  side_book,
}
use hft.Trading.LayerBook.Search.{Planned, mapped, free, evicted, plan_layer-Planned}
use hft.Trading.Tracker.{to_ticks_raw}
use hft.Trading.Reconciler.{ActionNew, ActionReplace, Actions}
use hft.Trading.Reconciler.Diff.{
  QuoteIntent, QuoteReconciler, no_actions, add_new, add_replace, new_action, replace_action,
  differs, diff_planned, diff_active, is_intended, diff_intent, diff_side, diff,
}

module _ (q : QuoteReconciler) (now : ℕ) (books : Books) (ticker : String) where
  -- A new order goes to a layer in range whose slot holds no order, for a positive quantity.
  abbrev pub NewFits : ActionNew → Type 0
  NewFits a =
      (a.layer < slots_per_side)
      × (is_free (slot_at (side_book books ticker a.side a.position_side) a.layer).state ≡ true)
      × (pos 0 <ℤ a.qty)
      × (a.cl_order_id ≡ now)

  -- A replacement names the live order of its slot and the quantity that the slot has.
  abbrev pub ReplaceFits : ActionReplace → Type 0
  ReplaceFits a =
      let slot = slot_at (side_book books ticker a.side a.position_side) a.layer in
      (a.layer < slots_per_side)
      × (is_live slot.state ≡ true)
      × (a.original_cl_order_id ≡ slot.cl_order_id)
      × (a.last_qty ≡ slot.qty)
      × (pos 0 <ℤ a.qty)
      × (a.cl_order_id ≡ now)

  abbrev pub ActionsFit : Actions → Type 0
  ActionsFit acts = All NewFits acts.news × All ReplaceFits acts.repls × (acts.cancels ≡ [])

  victim_live :
      (sb : SideBook) (tick v : ℕ) (p : AssignPlan)
      → Planned sb tick p
      → p.victim_live_layer ≡ some v
      → (p.layer ≡ v) × (is_live (slot_at sb v).state ≡ true)
  victim_live sb tick v p (mapped a b) e = ground arith
  victim_live sb tick v p (free a b c) e = ground arith
  victim_live sb tick v p (evicted a b c d) e =
      elim (Bool-cases (is_live (slot_at sb p.layer).state)) [
        | inl l ↦ let k : p.layer ≡ v = ground arith in (k, rw (← k) l)
        | inr l ↦ absurd (ground arith)
      ]

  Planned-fits :
      (i : QuoteIntent) (price : ℤ) (p : AssignPlan) (acts : Actions) (tick : ℕ)
      → let sb = side_book books ticker i.side i.position_side in
        p.layer < slots_per_side
        → Planned sb tick p
        → ltb_ℤ (pos 0) i.qty ≡ true
        → ActionsFit acts
        → ActionsFit (diff_planned q now sb i price p acts)
  unfolding diff_planned
  Planned-fits i price p acts tick lt pl positive f = elim (Option-cases p.victim_live_layer) [
    | inr (v, e) ↦
        let (k, l) = victim_live (side_book books ticker i.side i.position_side) tick v p pl e in
        let fits = ReplaceFits (
          replace_action q now i price v
            (slot_at (side_book books ticker i.side i.position_side) v)) in
        let ok : fits = (rw (← k) lt, l, refl, refl, ground arith, refl) in
        rw (e, diff_planned) (f.0, All-append ReplaceFits acts.repls _ f.1 (ok, tt), f.2)
    | inl e ↦ rw (e, diff_planned) (at_slot (Bool-cases (is_free slot.state)))
  ]
    where
      sb : SideBook
      sb = side_book books ticker i.side i.position_side

      slot : OrderSlot
      slot = slot_at sb p.layer

      live_slot :
          (is_free slot.state ≡ false)
          → (b : Bool) → is_live slot.state && differs q now slot price i.qty ≡ b
          → ActionsFit
              (if b then add_replace acts (replace_action q now i price p.layer slot) else acts)
      live_slot nf false e = f
      live_slot nf true e = (
        f.0,
        All-append ReplaceFits acts.repls _ f.1
            ((lt, ground arith, refl, refl, ground arith, refl), tt),
        f.2,
      )

      at_slot :
          (is_free slot.state ≡ true) ⊎ (is_free slot.state ≡ false)
          → ActionsFit (
              if is_free slot.state
              then add_new acts (new_action q now i price p.layer)
              else if is_live slot.state && differs q now slot price i.qty
              then add_replace acts (replace_action q now i price p.layer slot)
              else acts)
      at_slot (inl e) =
          rw e (All-append NewFits acts.news _ f.0 ((lt, e, ground arith, refl), tt), f.1, f.2)
      at_slot (inr e) = rw e (live_slot e _ refl)

  intent_fits :
      (i : QuoteIntent) (acts : Actions)
      → ActionsFit acts
      → ActionsFit (diff_intent q now books ticker i acts)
  unfolding diff_intent diff_active
  intent_fits i acts f = elim (Option-cases i.price) [
    | inl e ↦ rw (e, diff_intent) f
    | inr (price, e) ↦ elim (Bool-cases (is_intended q now price i.qty)) [
      | inl on ↦
          let sb = side_book books ticker i.side i.position_side in
          let tick = to_ticks_raw q.tick_converter price in
          let (lt, _, pl) = plan_layer-Planned sb tick in
          rw (e, diff_intent)
            (rw on (Planned-fits i price (plan_layer sb tick) acts tick lt pl (ground arith) f))
      | inr off ↦ rw (e, diff_intent) (rw off f)
    ]
  ]

  side_fits :
      (side : Side) (is : List QuoteIntent) (acts : Actions)
      → ActionsFit acts
      → ActionsFit (diff_side q now books ticker side is acts)
  unfolding diff_side
  side_fits side [] acts f = f
  side_fits side (i ∷ is) acts f = elim (Bool-cases (side_eq i.side side)) [
    | inl e ↦
        rw (e, diff_side)
          (side_fits side is (diff_intent q now books ticker i acts) (intent_fits i acts f))
    | inr e ↦ rw (e, diff_side) (side_fits side is acts f)
  ]

-- For every list of intents and every state of the books, each new order of `diff` is for a positive
-- quantity and a layer in range whose slot holds no order; each replacement is of a live order, in
-- range, and names that order's identifier and quantity; all carry the time as identifier; and there
-- are no cancellations.
pub diff_fits :
    (q : QuoteReconciler) (now : ℕ) (books : Books) (i : QuoteIntent) (is : List QuoteIntent)
    → ActionsFit q now books i.ticker (diff q now (i ∷ is) books)
unfolding diff
diff_fits q now books i is =
    side_fits q now books i.ticker sell (i ∷ is) _
      (side_fits q now books i.ticker buy (i ∷ is) no_actions (tt, tt, refl))
