-- ===== src/Trading/LayerBook/Unmap.antt =====
-- `unmap_layer` of hft/src/layer_book.h.
use hft.Prelude.{
  ℕ, ◌<◌, ◌≡◌, refl, ◌≢◌, Option, none, some, List, [], ◌∷◌, All, ◌==◌, if◌then◌else◌,
  get_or-set_self, get_or-set_ne, length-set, arith,
}
use hft.Prelude.Maps.{find}
use hft.Trading.LayerBook.{
  SideBook, IsValid, slots_per_side, ticks_invalid, tick_at, pending_at, erase_layer, unmap_layer,
}

abbrev pub except : ℕ → Option ℕ → Option ℕ
except l none = none
except l (some k) = if k == l then none else some k

-- Each key once, as in any map.
abbrev pub IsMap : List (ℕ × ℕ) → Type 0
IsMap [] = Unit
IsMap ((k, v) ∷ m) = (find k m ≡ none) × IsMap m

find-erase_layer-none :
    (l k : ℕ) (m : List (ℕ × ℕ)) → find k m ≡ none → find k (erase_layer l m) ≡ none
unfolding find erase_layer
find-erase_layer-none l k [] h = refl
find-erase_layer-none l k ((j, v) ∷ m) h = ground (arith, find-erase_layer-none l k m)

pub find-erase_layer :
    (l k : ℕ) (m : List (ℕ × ℕ)) → IsMap m → find k (erase_layer l m) ≡ except l (find k m)
unfolding find erase_layer
find-erase_layer l k [] u = refl
find-erase_layer l k ((j, v) ∷ m) u =
    ground (arith, find-erase_layer l k m u.1, find-erase_layer-none l k m)

pub erase_layer-IsMap : (l : ℕ) (m : List (ℕ × ℕ)) → IsMap m → IsMap (erase_layer l m)
unfolding erase_layer
erase_layer-IsMap l [] u = tt
erase_layer-IsMap l ((j, v) ∷ m) u =
    ground (arith, erase_layer-IsMap l m u.1, find-erase_layer-none l j m)

pub erase_layer_bound :
    (l n : ℕ) (m : List (ℕ × ℕ)) → All (λ e. e.1 < n) m → All (λ e. e.1 < n) (erase_layer l m)
unfolding erase_layer
erase_layer_bound l n [] h = tt
erase_layer_bound l n ((k, v) ∷ m) h = ground (arith, erase_layer_bound l n m h.1)

pub erase_layer_gone : (l : ℕ) (m : List (ℕ × ℕ)) → All (λ e. e.1 ≢ l) (erase_layer l m)
unfolding erase_layer
erase_layer_gone l [] = tt
erase_layer_gone l ((k, v) ∷ m) = ground (arith, erase_layer_gone l m)

-- Unmapping a layer of a valid book, whose two maps have each key once, takes away its tick, its
-- pending replacement and every identifier that leads to it. Slots, the ticks and replacements of
-- the other layers and the identifiers that lead to them stay as they were.
pub unmap_layer_lem :
    (sb : SideBook) (l : ℕ)
    → IsValid sb
    → IsMap sb.orig_id_to_layer
    → IsMap sb.new_id_to_layer
    → l < slots_per_side
    → let sb' = unmap_layer sb l in
      (tick_at sb' l ≡ ticks_invalid)
      × (pending_at sb' l ≡ none)
      × ((k : ℕ) → find k sb'.orig_id_to_layer ≡ except l (find k sb.orig_id_to_layer))
      × ((k : ℕ) → find k sb'.new_id_to_layer ≡ except l (find k sb.new_id_to_layer))
      × (sb'.slots ≡ sb.slots)
      × ((j : ℕ) → l ≢ j → (tick_at sb' j ≡ tick_at sb j) × (pending_at sb' j ≡ pending_at sb j))
unfolding unmap_layer
unmap_layer_lem sb l v om nm h = (
  get_or-set_self sb.layer_ticks l _ _ (omega arith),
  get_or-set_self sb.pending_repl l none none (omega arith),
  λ k. find-erase_layer l k _ om,
  λ k. find-erase_layer l k _ nm,
  refl,
  λ j ne. (get_or-set_ne sb.layer_ticks l j _ _ ne, get_or-set_ne sb.pending_repl l j none none ne),
)

-- The invariant survives.
pub unmap_layer-IsValid : (sb : SideBook) (l : ℕ) → IsValid sb → IsValid (unmap_layer sb l)
unfolding unmap_layer
unmap_layer-IsValid sb l v = record {
  slots_size = v.slots_size;
  ticks_size = omega (arith, length-set sb.layer_ticks l ticks_invalid);
  pending_size = omega (arith, length-set {0} sb.pending_repl l none);
  orig_in = erase_layer_bound l _ _ v.orig_in;
  new_in = erase_layer_bound l _ _ v.new_in;
}
