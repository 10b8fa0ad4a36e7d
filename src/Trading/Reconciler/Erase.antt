-- ===== src/Trading/Reconciler/Erase.antt =====
-- The erasing loop of `erase_if_too_recent` in hft/src/quote_reconciler.h.
use hft.Prelude.{
  ℕ, zero, suc, ◌≤◌, ◌≡◌, refl, ap, Bool, true, false, not, ◌&&◌, List, [], ◌∷◌, length, filter_by,
  Bool-cases, inl, inr, arith, get_or, Option,
}
use mathlib.Core.List.{Perm, Permᴰ}
use mathlib.Core.Logic.{∥∥₁_elim, ∥∥₁_prop}
use mathlib.Core.List.Perm
use hft.Common.Types.{Side, PositionSide, buy, sell, long, short}
use hft.Trading.Reconciler.{
  VenuePolicy, last_or, drop_last, swap_erase, matches, too_recent, erase_if_too_recent,
  erase_recent,
}

module _ {ℓ} {A : Type ℓ} where
  filter_swap :
      (q : A → Bool) (a b : A) (xs : List A)
      → Perm (filter_by q (a ∷ b ∷ xs)) (filter_by q (b ∷ a ∷ xs))
  filter_swap q a b xs = elim (Bool-cases (q a)) [
    | inl e ↦ elim (Bool-cases (q b)) [
      | inl f ↦ rw (e, f) (Perm.swap b a _)
      | inr f ↦ rw (e, f) (Perm.refl _)
    ]
    | inr e ↦ rw e (Perm.refl _)
  ]

  filter_cons :
      (q : A → Bool) (a : A) (xs ys : List A)
      → Perm (filter_by q xs) (filter_by q ys)
      → Perm (filter_by q (a ∷ xs)) (filter_by q (a ∷ ys))
  filter_cons q a xs ys h = elim (Bool-cases (q a)) [
    | inl e ↦ rw e (Perm.cons a h)
    | inr e ↦ rw e h
  ]

  -- Moving the last element to the front keeps the elements.
  filter_rotate :
      (q : A → Bool) (y : A) (ys : List A)
      → Perm (filter_by q (last_or y ys ∷ drop_last (y ∷ ys))) (filter_by q (y ∷ ys))
  filter_rotate q y [] = Perm.refl _
  filter_rotate q y (z ∷ zs) =
      Perm.trans (filter_swap q (last_or z zs) y (drop_last (z ∷ zs)))
        (filter_cons q y (last_or z zs ∷ drop_last (z ∷ zs)) (z ∷ zs) (filter_rotate q z zs))

  length-drop_last : (y : A) (ys : List A) → length (drop_last (y ∷ ys)) ≡ length ys
  length-drop_last y [] = refl
  length-drop_last y (z ∷ zs) = ap suc (length-drop_last z zs)

  -- With a round for each element the loop comes to the end, and what is left is what the test does
  -- not match, each as often as before.
  pub swap_erase-perm :
      (n : ℕ) (p : A → Bool) (xs : List A)
      → length xs ≤ n
      → Perm (swap_erase n p xs) (filter_by (λ a. not (p a)) xs)
  unfolding swap_erase
  swap_erase-perm zero p [] h = Perm.refl _
  swap_erase-perm zero p (x ∷ xs) h = absurd (omega arith)
  swap_erase-perm (suc n) p [] h = Perm.refl _
  swap_erase-perm (suc n) p (x ∷ []) h = elim (Bool-cases (p x)) [
    | inl e ↦ rw e (Perm.refl _)
    | inr e ↦ rw e (Perm.refl _)
  ]
  swap_erase-perm (suc n) p (x ∷ y ∷ ys) h = elim (Bool-cases (p x)) [
    | inl e ↦
        rw (e, swap_erase)
          (Perm.trans
            (swap_erase-perm n p (last_or y ys ∷ drop_last (y ∷ ys))
              (omega (arith, length-drop_last y ys)))
            (filter_rotate (λ a. not (p a)) y ys))
    | inr e ↦ rw (e, swap_erase) (Perm.cons x (swap_erase-perm n p (y ∷ ys) (omega arith)))
  ]

  filter_permᴰ :
      (q : A → Bool) {xs ys : List A} → Permᴰ xs ys → Perm (filter_by q xs) (filter_by q ys)
  filter_permᴰ q Permᴰ.nil = Perm.refl _
  filter_permᴰ q (Permᴰ.cons {b = b} e p) = rw e (filter_cons q b _ _ (filter_permᴰ q p))
  filter_permᴰ q (Permᴰ.swap {a' = a'} {b' = b'} {l = l} e f) = rw (e, f) (filter_swap q b' a' l)
  filter_permᴰ q (Permᴰ.trans p r) = Perm.trans (filter_permᴰ q p) (filter_permᴰ q r)

  filter_perm :
      (q : A → Bool) {xs ys : List A} → Perm xs ys → Perm (filter_by q xs) (filter_by q ys)
  filter_perm q p = ∥∥₁_elim p ∥∥₁_prop (filter_permᴰ q)

  filter_filter :
      (q r : A → Bool) (xs : List A) → filter_by q (filter_by r xs) ≡ filter_by (λ a. r a && q a) xs
  filter_filter q r [] = refl
  filter_filter q r (x ∷ xs) = ground (arith, filter_filter q r xs)

  filter_all : (xs : List A) → filter_by (λ a. true) xs ≡ xs
  filter_all [] = refl
  filter_all (x ∷ xs) = ap (λ t. x ∷ t) (filter_all xs)

module _ {A : Type 0} (side_of : A → Side) (position_of : A → Option PositionSide) where
  abbrev pub blocked : Bool → Side → PositionSide → A → Bool
  blocked recent s p a = recent && matches s p (side_of a) (position_of a)

  erase_if-perm :
      (recent : Bool) (s : Side) (p : PositionSide) (xs ys : List A)
      → Perm xs ys
      → Perm
          (erase_if_too_recent side_of position_of recent s p xs)
          (filter_by (λ a. not (blocked recent s p a)) ys)
  unfolding erase_if_too_recent
  erase_if-perm true s p xs ys h =
      Perm.trans
        (swap_erase-perm (length xs) (λ a. matches s p (side_of a) (position_of a)) xs
          (omega arith))
        (filter_perm (λ a. not (matches s p (side_of a) (position_of a))) h)
  erase_if-perm false s p xs ys h = rw filter_all h

  -- An action stays exactly if none of the four groups that traded too recently is its own; those
  -- that stay are there as often as before.
  pub erase_recent-perm :
      (v : VenuePolicy) (now : ℕ) (times : List ℕ) (xs : List A)
      → let recent = λ (i : ℕ). too_recent v now (get_or times i 0) in
        Perm (erase_recent side_of position_of v now times xs) (
          filter_by
            (λ a.
              not (blocked (recent 0) buy long a)
              && (not (blocked (recent 1) sell long a)
                  && (not (blocked (recent 2) buy short a)
                      && not (blocked (recent 3) sell short a))))
            xs)
  unfolding erase_recent
  erase_recent-perm v now times xs =
      let recent = λ (i : ℕ). too_recent v now (get_or times i 0) in
      let p0 = erase_if-perm (recent 0) buy long xs xs (Perm.refl xs) in
      let p1 = erase_if-perm (recent 1) sell long _ _ p0 in
      let p2 = erase_if-perm (recent 2) buy short _ _ p1 in
      let p3 = erase_if-perm (recent 3) sell short _ _ p2 in
      rw (filter_filter, filter_filter, filter_filter) at p3
