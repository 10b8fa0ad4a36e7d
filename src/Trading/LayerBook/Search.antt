-- ===== src/Trading/LayerBook/Search.antt =====
-- What the searches of hft/src/layer_book.h find, and what `plan_layer` promises.
use hft.Prelude.{
  ℕ, zero, suc, ◌+◌, ◌≤◌, ◌<◌, ◌≡◌, refl, ◌≢◌, ◌⊎◌, inl, inr, true, false, ◌||◌, none, some, ltb,
  ◌==◌, if◌then◌else◌, first_index-some, first_index-none, Bool-cases, Option-cases, arith,
}
use hft.Common.Types.{order_id_invalid}
use hft.Trading.LayerBook.{
  SideBook, AssignPlan, slots_per_side, ticks_invalid, slot_at, tick_at, is_live, is_free,
  find_layer_by_ticks, find_layer_by_id, find_free_layer, victim_from, pick_victim_layer,
  plan_layer,
}

pub find_layer_by_ticks-some :
    (sb : SideBook) (tick k : ℕ)
    → find_layer_by_ticks sb tick ≡ some k
    → (k < slots_per_side) × (tick_at sb k ≡ tick)
unfolding find_layer_by_ticks
find_layer_by_ticks-some sb tick k h =
    let (lt, hit, _) = first_index-some (λ i. tick_at sb i == tick) slots_per_side k h in
    (lt, ground arith)

pub find_layer_by_ticks-none :
    (sb : SideBook) (tick j : ℕ)
    → find_layer_by_ticks sb tick ≡ none
    → j < slots_per_side
    → tick_at sb j ≢ tick
unfolding find_layer_by_ticks
find_layer_by_ticks-none sb tick j h lt =
    let miss = first_index-none (λ i. tick_at sb i == tick) slots_per_side j h lt in
    λ e. ground arith

pub find_layer_by_id-some :
    (sb : SideBook) (id k : ℕ)
    → find_layer_by_id sb id ≡ some k
    → (k < slots_per_side) × ((slot_at sb k).cl_order_id ≡ id) × (id ≢ order_id_invalid)
unfolding find_layer_by_id
find_layer_by_id-some sb id k h = elim (Bool-cases (id == order_id_invalid)) [
  | inl e ↦ absurd (ground arith)
  | inr e ↦
      let (lt, hit, _) =
        first_index-some (λ i. (slot_at sb i).cl_order_id == id) slots_per_side k (ground arith) in
      (lt, ground arith, λ z. ground arith)
]

pub find_free_layer-some :
    (sb : SideBook) (k : ℕ)
    → find_free_layer sb ≡ some k
    → (k < slots_per_side)
      × ((is_free (slot_at sb k).state ≡ true) ⊎ (tick_at sb k ≡ ticks_invalid))
unfolding find_free_layer
find_free_layer-some sb k h =
    let (lt, hit, _) =
      first_index-some (λ i. is_free (slot_at sb i).state || tick_at sb i == ticks_invalid)
        slots_per_side k h in
    (lt, ground arith)

pub find_free_layer-none :
    (sb : SideBook) (j : ℕ)
    → find_free_layer sb ≡ none
    → j < slots_per_side
    → (is_free (slot_at sb j).state ≡ false) × (tick_at sb j ≢ ticks_invalid)
unfolding find_free_layer
find_free_layer-none sb j h lt =
    let miss =
      first_index-none (λ i. is_free (slot_at sb i).state || tick_at sb i == ticks_invalid)
        slots_per_side j h lt in
    (ground arith, λ e. ground arith)

abbrev pub used_at : SideBook → ℕ → ℕ
used_at sb i = (slot_at sb i).last_used

-- The victim of the first `i` layers: nobody there was used less recently, nobody before it as
-- little.
record IsVictim (sb : SideBook) (v i : ℕ) : Type 0 where
  within : v < i
  least : (j : ℕ) → j < i → used_at sb v ≤ used_at sb j
  first : (j : ℕ) → j < v → used_at sb v < used_at sb j

IsVictim-step :
    (sb : SideBook) (v i : ℕ)
    → IsVictim sb v i
    → IsVictim sb (if ltb (used_at sb i) (used_at sb v) then i else v) (suc i)
IsVictim-step sb v i h = elim (Bool-cases (ltb (used_at sb i) (used_at sb v))) [
  | inl lower ↦ rw lower (record {
    within = omega arith;
    least = λ j b. ground (arith, h.least j);
    first = λ j b. ground (arith, h.least j);
  })
  | inr higher ↦ rw higher (record {
    within = let w = h.within in omega arith;
    least = λ j b. least j b higher;
    first = h.first;
  })
]
  where
    least :
        (j : ℕ)
        → j < suc i
        → ltb (used_at sb i) (used_at sb v) ≡ false
        → used_at sb v ≤ used_at sb j
    least j b e = elim (Bool-cases (j == i)) [
      | inl same ↦ let q : j ≡ i = ground arith in rw q (ground arith)
      | inr other ↦ h.least j (ground arith)
    ]

victim_from-IsVictim :
    (sb : SideBook) (v i n : ℕ) → IsVictim sb v i → IsVictim sb (victim_from sb v i n) (i + n)
unfolding victim_from
victim_from-IsVictim sb v i zero h = let e : i + 0 ≡ i = omega arith in rw e h
victim_from-IsVictim sb v i (suc n) h =
    let e : i + suc n ≡ suc i + n = omega arith in
    rw e (
      victim_from-IsVictim sb (if ltb (used_at sb i) (used_at sb v) then i else v) (suc i) n
        (IsVictim-step sb v i h))

-- `pick_victim_layer` picks the first of the layers that were used least recently.
pub pick_victim_layer_least :
    (sb : SideBook)
    → (pick_victim_layer sb < slots_per_side)
      × ((j : ℕ) → j < slots_per_side → used_at sb (pick_victim_layer sb) ≤ used_at sb j)
      × ((j : ℕ) → j < pick_victim_layer sb → used_at sb (pick_victim_layer sb) < used_at sb j)
unfolding pick_victim_layer
pick_victim_layer_least sb =
    let v = victim_from-IsVictim sb 0 1 7 (record {
      within = omega arith;
      least = λ j b. let e : j ≡ 0 = omega arith in rw e (omega arith);
      first = λ j b. absurd (omega arith);
    }) in
    (v.within, v.least, v.first)

-- How a plan came about.
pub data Planned (sb : SideBook) (tick : ℕ) (p : AssignPlan) : Type 0 where
  -- the tick has a layer already
  mapped : tick_at sb p.layer ≡ tick → p.victim_live_layer ≡ none → Planned sb tick p
  -- the tick has none, and the layer is free
  free :
      ((j : ℕ) → j < slots_per_side → tick_at sb j ≢ tick)
      → (is_free (slot_at sb p.layer).state ≡ true) ⊎ (tick_at sb p.layer ≡ ticks_invalid)
      → p.victim_live_layer ≡ none
      → Planned sb tick p
  -- the tick has none and no layer is free: the layer is the least recently used one, and is named
  -- as the victim exactly if its order is live
  evicted :
      ((j : ℕ) → j < slots_per_side → tick_at sb j ≢ tick)
      → ((j : ℕ)
          → j < slots_per_side
          → (is_free (slot_at sb j).state ≡ false) × (tick_at sb j ≢ ticks_invalid))
      → ((j : ℕ) → j < slots_per_side → used_at sb p.layer ≤ used_at sb j)
      → p.victim_live_layer ≡ (if is_live (slot_at sb p.layer).state then some p.layer else none)
      → Planned sb tick p

-- For every book and tick `plan_layer` gives a layer in range and keeps the tick. The layer is the
-- one that has the tick; if none has it, a free one; if none is free either, the least recently used
-- one, reported as the victim exactly if its order is live.
pub plan_layer-Planned :
    (sb : SideBook) (tick : ℕ)
    → ((plan_layer sb tick).layer < slots_per_side)
      × ((plan_layer sb tick).tick ≡ tick)
      × Planned sb tick (plan_layer sb tick)
unfolding plan_layer
plan_layer-Planned sb tick = elim (Option-cases (find_layer_by_ticks sb tick)) [
  | inr (k, e) ↦
      let (lt, hit) = find_layer_by_ticks-some sb tick k e in
      rw (e, plan_layer) (lt, refl, mapped hit refl)
  | inl e ↦
      let absent = λ (j : ℕ). find_layer_by_ticks-none sb tick j e in
      elim (Option-cases (find_free_layer sb)) [
        | inr (k, f) ↦
            let (lt, hit) = find_free_layer-some sb k f in
            rw (e, f, plan_layer) (lt, refl, free absent hit refl)
        | inl f ↦
            let v = pick_victim_layer_least sb in
            rw (e, f, plan_layer)
              (v.0, refl, evicted absent (λ j. find_free_layer-none sb j f) v.1 refl)
      ]
]
