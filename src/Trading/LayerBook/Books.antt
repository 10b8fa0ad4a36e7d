-- ===== src/Trading/LayerBook/Books.antt =====
-- The four-way books of hft/src/layer_book.h: what holds of every side book, and keeps holding when
-- one is written.
use hft.Prelude.{
  ℕ, zero, suc, ◌<◌, ◌≡◌, ◌∙◌, refl, ap, true, length, length-set, get_or-set_self, get_or-set_ne,
  ltb, ◌&&◌, ◌==◌, ◌≢◌, none, ◌⊎◌, inl, inr, Option, some, List, [], ◌∷◌, String, set, get_or,
  if◌then◌else◌, Bool-cases, arith,
}
use hft.Common.Types.{
  Side, buy, sell, trade, invalid_side, PositionSide, long, short, invalid_position_side,
  side_to_index,
}
use hft.Trading.LayerBook.{
  SideBook, PositionBook, Books, empty_side_book, fits_four, find_book, put_book, pos_index,
  book_of, no_sides, in_use, in_bounds, empty_four_way, side_book, put_side_book,
}
use mathlib.Core.Path.{subst}
use text.Mathlib.Text.{◌==◌ as str_eq}
use text.Mathlib.TextEquality.{eq_iff}

get_or-set_cases {ℓ} :
    {A : Type ℓ} (xs : List A) (i j : ℕ) (a d : A)
    → (get_or (set xs i a) j d ≡ a) ⊎ (get_or (set xs i a) j d ≡ get_or xs j d)
get_or-set_cases [] i j a d = inr refl
get_or-set_cases (x ∷ xs) zero zero a d = inl refl
get_or-set_cases (x ∷ xs) zero (suc j) a d = inr refl
get_or-set_cases (x ∷ xs) (suc i) zero a d = inr refl
get_or-set_cases (x ∷ xs) (suc i) (suc j) a d = get_or-set_cases xs i j a d

find-put_book :
    (t u : String) (b : List PositionBook) (bs : Books)
    → find_book u (put_book t b bs) ≡ (if str_eq t u then some b else find_book u bs)
unfolding find_book put_book
find-put_book t u b [] = refl
find-put_book t u b ((w, c) ∷ bs) =
    ground (arith, eq_iff t u, eq_iff w t, eq_iff w u, find-put_book t u b bs)

-- A property of every side book of every ticker.
abbrev pub AllBooks {ℓ} : (SideBook → Type ℓ) → Books → Type ℓ
AllBooks P bs = (t : String) (s : Side) (p : Option PositionSide) → P (side_book bs t s p)

abbrev pick : List PositionBook → ℕ → ℕ → SideBook
pick four k l = get_or (get_or four k no_sides).sides l empty_side_book

abbrev write : List PositionBook → ℕ → ℕ → SideBook → List PositionBook
write four i j sb = set four i (record { sides = set (get_or four i no_sides).sides j sb })

-- A four-way book after a write, at two indices.
pick-write {ℓ} :
    (P : SideBook → Type ℓ) (four : List PositionBook) (i j k l : ℕ) (sb : SideBook)
    → P sb
    → P (pick four k l)
    → P (pick four i l)
    → P (pick (write four i j sb) k l)
pick-write P four i j k l sb new h g =
    elim (get_or-set_cases four i k (record { sides = set (get_or four i no_sides).sides j sb })
      no_sides) [
        | inl e ↦
            rw e (elim (get_or-set_cases (get_or four i no_sides).sides j l sb empty_side_book) [
              | inl f ↦ rw f new
              | inr f ↦ rw f g
            ])
        | inr e ↦ rw e h
      ]

-- Writing a side book that has the property keeps it for all.
pub put_side_book-All {ℓ} :
    (P : SideBook → Type ℓ) (bs : Books) (t : String) (s : Side) (p : Option PositionSide)
    (sb : SideBook)
    → AllBooks P bs
    → P sb
    → AllBooks P (put_side_book bs t s p sb)
unfolding side_book put_side_book
put_side_book-All P bs t s p sb all new u s' p' = elim (Bool-cases (str_eq t u)) [
  | inl e ↦
      rw (find-put_book, e)
        (pick-write P (book_of bs t) (pos_index p) (side_to_index s) (pos_index p')
          (side_to_index s') sb new (all t s' p') (all t s' p))
  | inr e ↦ rw (find-put_book, e) (all u s' p')
]

abbrev PickBounds : List PositionBook → ℕ → ℕ → Type 0
PickBounds four i j = (i < length four) × (j < length (get_or four i no_sides).sides)

pick-bounds :
    (bs : Books) (t : String) (s : Side) (p : Option PositionSide)
    → in_bounds bs t s p ≡ true
    → PickBounds (book_of bs t) (pos_index p) (side_to_index s)
unfolding in_bounds
pick-bounds bs t s p h = ground arith

book-put_book : (t : String) (b : List PositionBook) (bs : Books) → book_of (put_book t b bs) t ≡ b
book-put_book t b bs =
    let same : str_eq t t ≡ true = ground (arith, eq_iff t t) in rw (find-put_book, same) refl

pick-write_self :
    (four : List PositionBook) (i j : ℕ) (sb : SideBook)
    → PickBounds four i j
    → pick (write four i j sb) i j ≡ sb
pick-write_self four i j sb h =
    rw
      (get_or-set_self four i (record { sides = set (get_or four i no_sides).sides j sb }) no_sides
        h.0)
      (get_or-set_self (get_or four i no_sides).sides j sb empty_side_book h.1)

write-PickBounds :
    (four : List PositionBook) (i j : ℕ) (sb : SideBook)
    → PickBounds four i j
    → PickBounds (write four i j sb) i j
write-PickBounds four i j sb h = (
  omega (
    arith,
    h.0,
    length-set {0} four i (record { sides = set (get_or four i no_sides).sides j sb }),
  ),
  rw
      (get_or-set_self four i (record { sides = set (get_or four i no_sides).sides j sb }) no_sides
        h.0)
      (omega (arith, h.1, length-set {0} (get_or four i no_sides).sides j sb)),
)

-- Within the bounds, what is written is read.
pub side_book-put_side_book :
    (bs : Books) (t : String) (s : Side) (p : Option PositionSide) (sb : SideBook)
    → in_bounds bs t s p ≡ true
    → side_book (put_side_book bs t s p sb) t s p ≡ sb
unfolding side_book put_side_book
side_book-put_side_book bs t s p sb h =
    let b = write (book_of bs t) (pos_index p) (side_to_index s) sb in
    ap (λ four. pick four (pos_index p) (side_to_index s)) (book-put_book t b bs)
    ∙ pick-write_self (book_of bs t) (pos_index p) (side_to_index s) sb (pick-bounds bs t s p h)

-- A write keeps the bounds.
pub in_bounds-put_side_book :
    (bs : Books) (t : String) (s : Side) (p : Option PositionSide) (sb : SideBook)
    → in_bounds bs t s p ≡ true
    → in_bounds (put_side_book bs t s p sb) t s p ≡ true
unfolding in_bounds put_side_book
in_bounds-put_side_book bs t s p sb h =
    let four = book_of bs t in
    let w = write-PickBounds four (pos_index p) (side_to_index s) sb (pick-bounds bs t s p h) in
    ap (λ b. fits_four b (pos_index p) (side_to_index s))
      (book-put_book t (write four (pos_index p) (side_to_index s) sb) bs)
    ∙ ground (arith, w)

-- A write leaves the arrays as long as they are.
fits_write :
    (four : List PositionBook) (i j k l : ℕ) (sb : SideBook)
    → fits_four (write four i j sb) k l ≡ fits_four four k l
fits_write four i j k l sb =
    let pb : PositionBook = record { sides = set (get_or four i no_sides).sides j sb } in
    let size = length-set {0} four i pb in
    let inner = length-set {0} (get_or four i no_sides).sides j sb in
    elim (Bool-cases (ltb k (length four))) [
      | inr e ↦ rw (size, e) refl
      | inl e ↦ elim (Bool-cases (i == k)) [
        | inl f ↦
            let same : i ≡ k = ground (arith, f) in
            let lt : i < length four = ground (arith, e, same) in
            let sides : length (get_or (set four i pb) i no_sides).sides
                ≡ length (get_or four i no_sides).sides =
              ap (λ b. length b.sides) (get_or-set_self four i pb no_sides lt) ∙ inner in
            let sides_k =
              subst
                (λ x.
                  length (get_or (set four i pb) x no_sides).sides
                  ≡ length (get_or four x no_sides).sides)
                same sides in
            ap (λ n. ltb k n && ltb l (length (get_or (set four i pb) k no_sides).sides)) size
            ∙ ap (λ n. ltb k (length four) && ltb l n) sides_k
        | inr f ↦
            let ne : i ≢ k = ground (arith, f) in
            ap (λ n. ltb k n && ltb l (length (get_or (set four i pb) k no_sides).sides)) size
            ∙ ap (λ b. ltb k (length four) && ltb l (length b.sides))
                (get_or-set_ne four i k pb no_sides ne)
      ]
    ]

-- Every side book that is in use is there, for every ticker.
abbrev pub HasBooks : Books → Type 0
HasBooks bs =
    (t : String) (s : Side) (p : Option PositionSide)
    → in_use s p ≡ true
    → in_bounds bs t s p ≡ true

pub put_side_book-HasBooks :
    (bs : Books) (t : String) (s : Side) (p : Option PositionSide) (sb : SideBook)
    → HasBooks bs
    → HasBooks (put_side_book bs t s p sb)
unfolding in_bounds put_side_book
put_side_book-HasBooks bs t s p sb all u s' p' used = elim (Bool-cases (str_eq t u)) [
  | inl e ↦
      let same : t ≡ u = ground (arith, e, eq_iff t u) in
      rw (find-put_book, e)
        (fits_write (book_of bs t) (pos_index p) (side_to_index s) (pos_index p') (side_to_index s')
            sb
          ∙ ap (λ x. fits_four (book_of bs x) (pos_index p') (side_to_index s')) same
          ∙ all u s' p' used)
  | inr e ↦ rw (find-put_book, e) (all u s' p' used)
]

-- Before any order the four-way books are made with all four.
pub start-HasBooks : HasBooks []
unfolding in_bounds empty_four_way find_book
start-HasBooks t buy none used = refl
start-HasBooks t buy (some long) used = refl
start-HasBooks t buy (some short) used = refl
start-HasBooks t sell none used = refl
start-HasBooks t sell (some long) used = refl
start-HasBooks t sell (some short) used = refl
start-HasBooks t buy (some invalid_position_side) used = ground arith
start-HasBooks t sell (some invalid_position_side) used = ground arith
start-HasBooks t trade p used = ground arith
start-HasBooks t invalid_side p used = ground arith
