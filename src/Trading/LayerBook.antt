-- ===== src/Trading/LayerBook.antt =====
-- hft/src/layer_book.h: the eight order slots of each side, the ticks and the identifiers that find
-- them. An `int` layer is an `Option ℕ`, with -1 as `none`; an array is a list of eight elements; a
-- `flat_hash_map` is an association list.
pub mod Search
pub mod Books
pub mod Unmap
use hft.Prelude.{
  ◌&&◌, ℕ, zero, suc, ◌+◌, ◌<◌, ◌≡◌, Bool, true, false, ◌||◌, Option, none, some, List, [], ◌∷◌,
  map, String, or_else, max, length, get_or, set, replicate, All, filter_by, ltb, ◌==◌,
  if◌then◌else◌, first_index,
}
use hft.Prelude.Int.{ℤ}
use hft.Common.Types.{
  Side, PositionSide, OmOrderState, invalid, pending_new, live, pending_cancel, dead, reserved,
  cancel_reserved, order_id_invalid, invalid_value, side_to_index, position_side_to_index,
}
use text.Mathlib.Text.{◌==◌ as str_eq}

pub record OrderSlot : Type 0 where
  pub state : OmOrderState
  pub price : ℤ
  pub qty : ℤ
  pub last_used : ℕ
  pub cl_order_id : ℕ

pub record PendingReplaceInfo : Type 0 where
  pub new_price : ℤ
  pub new_qty : ℤ
  pub new_tick : ℕ
  pub new_cl_order_id : ℕ
  pub last_qty : ℤ
  pub original_cl_order_id : ℕ
  pub original_price : ℤ
  pub original_tick : ℕ

pub record SideBook : Type 0 where
  pub slots : List OrderSlot
  pub layer_ticks : List ℕ
  pub pending_repl : List (Option PendingReplaceInfo)
  pub orig_id_to_layer : List (ℕ × ℕ)
  pub new_id_to_layer : List (ℕ × ℕ)

-- `kSlotsPerSide`
abbrev pub slots_per_side : ℕ
slots_per_side = 8

-- `kTicksInvalid`, `numeric_limits<uint64_t>::min()`
abbrev pub ticks_invalid : ℕ
ticks_invalid = 0

abbrev pub default_slot : OrderSlot
default_slot = record {
  state = invalid;
  price = invalid_value;
  qty = invalid_value;
  last_used = 0;
  cl_order_id = order_id_invalid;
}

-- `SideBook()`
unfoldable pub empty_side_book : SideBook
empty_side_book = record {
  slots = replicate slots_per_side default_slot;
  layer_ticks = replicate slots_per_side ticks_invalid;
  pending_repl = replicate slots_per_side none;
  orig_id_to_layer = [];
  new_id_to_layer = [];
}

abbrev pub slot_at : SideBook → ℕ → OrderSlot
slot_at sb i = get_or sb.slots i default_slot

abbrev pub tick_at : SideBook → ℕ → ℕ
tick_at sb i = get_or sb.layer_ticks i ticks_invalid

abbrev pub pending_at : SideBook → ℕ → Option PendingReplaceInfo
pending_at sb i = get_or sb.pending_repl i none

abbrev pub set_slot : SideBook → ℕ → OrderSlot → SideBook
set_slot sb i s = record sb { slots = set sb.slots i s }

-- The arrays have their size, and every identifier is mapped to a layer.
pub record IsValid (sb : SideBook) : Type 0 where
  pub slots_size : length sb.slots ≡ slots_per_side
  pub ticks_size : length sb.layer_ticks ≡ slots_per_side
  pub pending_size : length sb.pending_repl ≡ slots_per_side
  pub orig_in : All (λ e. e.1 < slots_per_side) sb.orig_id_to_layer
  pub new_in : All (λ e. e.1 < slots_per_side) sb.new_id_to_layer

abbrev pub is_live : OmOrderState → Bool
is_live live = true
is_live _ = false

abbrev pub is_free : OmOrderState → Bool
is_free invalid = true
is_free dead = true
is_free _ = false

unfoldable pub find_layer_by_ticks : SideBook → ℕ → Option ℕ
find_layer_by_ticks sb tick = first_index (λ i. tick_at sb i == tick) slots_per_side

unfoldable pub find_layer_by_id : SideBook → ℕ → Option ℕ
find_layer_by_id sb id =
    if id == order_id_invalid
    then none
    else first_index (λ i. (slot_at sb i).cl_order_id == id) slots_per_side

-- The two tests of one round are in order: the state first, then the tick.
unfoldable pub find_free_layer : SideBook → Option ℕ
find_free_layer sb =
    first_index (λ i. is_free (slot_at sb i).state || tick_at sb i == ticks_invalid) slots_per_side

-- The loop of `pick_victim_layer` from `index`, with `n` rounds left.
victim_from : SideBook → ℕ → ℕ → ℕ → ℕ
victim_from sb victim index zero = victim
victim_from sb victim index (suc n) =
    victim_from sb
      (if ltb (slot_at sb index).last_used (slot_at sb victim).last_used then index else victim)
      (suc index) n

unfoldable pub pick_victim_layer : SideBook → ℕ
unfolding victim_from
pick_victim_layer sb = victim_from sb 0 1 7

-- Both loops of `unmap_layer` that erase while they iterate.
unfoldable pub erase_layer : ℕ → List (ℕ × ℕ) → List (ℕ × ℕ)
erase_layer layer [] = []
erase_layer layer ((k, l) ∷ m) =
    let rest = erase_layer layer m in if l == layer then rest else (k, l) ∷ rest

unfoldable pub unmap_layer : SideBook → ℕ → SideBook
unmap_layer sb layer = record sb {
  layer_ticks = set sb.layer_ticks layer ticks_invalid;
  new_id_to_layer = erase_layer layer sb.new_id_to_layer;
  orig_id_to_layer = erase_layer layer sb.orig_id_to_layer;
  pending_repl = set sb.pending_repl layer none;
}

pub record AssignPlan : Type 0 where
  pub layer : ℕ
  pub victim_live_layer : Option ℕ
  pub tick : ℕ

abbrev plan : ℕ → Option ℕ → ℕ → AssignPlan
plan l v t = record { layer = l; victim_live_layer = v; tick = t }

unfoldable pub plan_layer : SideBook → ℕ → AssignPlan
plan_layer sb tick = elim (find_layer_by_ticks sb tick) [
  | some layer ↦ plan layer none tick
  | none ↦ elim (find_free_layer sb) [
    | some layer ↦ plan layer none tick
    | none ↦
        let vidx = pick_victim_layer sb in
        plan vidx (if is_live (slot_at sb vidx).state then some vidx else none) tick
  ]
]

-- `FourWay`: two position sides, each with two sides.
pub record PositionBook : Type 0 where
  pub sides : List SideBook

-- `books_`, by ticker.
abbrev pub Books : Type 0
Books = List (String × List PositionBook)

unfoldable pub empty_four_way : List PositionBook
unfolding empty_side_book
empty_four_way = replicate 2 (record { sides = replicate 2 empty_side_book })

unfoldable pub find_book : String → Books → Option (List PositionBook)
find_book t [] = none
find_book t ((u, b) ∷ bs) = if str_eq u t then some b else find_book t bs

unfoldable pub put_book : String → List PositionBook → Books → Books
put_book t b [] = (t, b) ∷ []
put_book t b ((u, c) ∷ bs) = if str_eq u t then (t, b) ∷ bs else (u, c) ∷ put_book t b bs

abbrev pub pos_index : Option PositionSide → ℕ
pos_index none = 0
pos_index (some p) = position_side_to_index p

-- The four-way book of a ticker, made if it is not there.
abbrev pub book_of : Books → String → List PositionBook
book_of bs t = or_else (find_book t bs) empty_four_way

abbrev pub no_sides : PositionBook
no_sides = record { sides = [] }

abbrev pub fits_four : List PositionBook → ℕ → ℕ → Bool
fits_four four i j = ltb i (length four) && ltb j (length (get_or four i no_sides).sides)

-- Whether `side_book` indexes its arrays within their bounds: not for a side or a position side that
-- is neither of the two.
unfoldable pub in_bounds : Books → String → Side → Option PositionSide → Bool
in_bounds bs t side p = fits_four (book_of bs t) (pos_index p) (side_to_index side)

-- One of the two sides, and one of the two position sides or none.
abbrev pub in_use : Side → Option PositionSide → Bool
in_use side p = ltb (side_to_index side) 2 && ltb (pos_index p) 2

-- `side_book`, read, where it is `in_bounds`: the reference that it returns, as the value there.
-- Elsewhere the behaviour of the source is undefined and this value means nothing.
unfoldable pub side_book : Books → String → Side → Option PositionSide → SideBook
side_book bs t side p =
    get_or (get_or (book_of bs t) (pos_index p) no_sides).sides (side_to_index side) empty_side_book

-- `side_book`, written through the reference, where it is `in_bounds`; elsewhere the behaviour of the
-- source is undefined.
unfoldable pub put_side_book : Books → String → Side → Option PositionSide → SideBook → Books
put_side_book bs t side p sb =
    let four = book_of bs t in
    let pb = get_or four (pos_index p) no_sides in
    put_book t (set four (pos_index p) (record { sides = set pb.sides (side_to_index side) sb })) bs

abbrev pub is_active : OmOrderState → Bool
is_active live = true
is_active reserved = true
is_active _ = false

-- The inner loop of `get_last_time`.
unfoldable pub last_active : ℕ → List OrderSlot → ℕ
last_active last [] = last
last_active last (s ∷ ss) =
    last_active (if is_active s.state then max last s.last_used else last) ss

abbrev pub time_at : List PositionBook → ℕ → ℕ → ℕ
time_at b p s = last_active 0 (get_or (get_or b p no_sides).sides s empty_side_book).slots

-- `get_last_time`: LONG_BUY, LONG_SELL, SHORT_BUY, SHORT_SELL
unfoldable pub get_last_time : Books → String → List ℕ
get_last_time bs t =
    let b = book_of bs t in time_at b 0 0 ∷ time_at b 0 1 ∷ time_at b 1 0 ∷ time_at b 1 1 ∷ []
