-- ===== src/Prelude/Lists.antt =====
-- Arrays and vectors as lists, indexed by native numbers.
use Prim.Native.Nat.{ℕ, zero, suc, ◌+◌, ◌<◌}
use mathlib.Core.Path.{◌≡◌, refl, ap}
use mathlib.Core.Logic.{◌≢◌}
use mathlib.Core.Bool.{Bool}
use mathlib.Core.List.{List, [], ◌∷◌, ◌++◌}
use native.Mathlib.Omega.{arith}
use hft.Prelude.Tests.{if◌then◌else◌, ◌==◌}

module _ {ℓ} {A : Type ℓ} where
  abbrev pub length : List A → ℕ
  length [] = 0
  length (x ∷ xs) = suc (length xs)

  -- `v[i]` with the value that stands for an element out of range.
  abbrev pub get_or : List A → ℕ → A → A
  get_or [] i d = d
  get_or (x ∷ xs) zero d = x
  get_or (x ∷ xs) (suc i) d = get_or xs i d

  -- `v[i] = a`; out of range nothing changes.
  abbrev pub set : List A → ℕ → A → List A
  set [] i a = []
  set (x ∷ xs) zero a = a ∷ xs
  set (x ∷ xs) (suc i) a = x ∷ set xs i a

  abbrev pub replicate : ℕ → A → List A
  replicate zero a = []
  replicate (suc n) a = a ∷ replicate n a

  abbrev pub filter_by : (A → Bool) → List A → List A
  filter_by p [] = []
  filter_by p (x ∷ xs) = let rest = filter_by p xs in if p x then x ∷ rest else rest

  -- Every element has the property.
  abbrev pub All {κ} : (A → Type κ) → List A → Type κ
  All P [] = Unit
  All P (x ∷ xs) = P x × All P xs

module _ {ℓ} {A : Type ℓ} where
  pub length-append : (xs ys : List A) → length (xs ++ ys) ≡ length xs + length ys
  length-append [] ys = omega arith
  length-append (x ∷ xs) ys = omega (arith, length-append xs ys)

  pub length-set : (xs : List A) (i : ℕ) (a : A) → length (set xs i a) ≡ length xs
  length-set [] i a = refl
  length-set (x ∷ xs) zero a = refl
  length-set (x ∷ xs) (suc i) a = ap suc (length-set xs i a)

  pub get_or-set_self :
      (xs : List A) (i : ℕ) (a d : A) → i < length xs → get_or (set xs i a) i d ≡ a
  get_or-set_self [] i a d h = absurd (omega arith)
  get_or-set_self (x ∷ xs) zero a d h = refl
  get_or-set_self (x ∷ xs) (suc i) a d h = get_or-set_self xs i a d (omega arith)

  pub get_or-set_ne :
      (xs : List A) (i j : ℕ) (a d : A) → i ≢ j → get_or (set xs i a) j d ≡ get_or xs j d
  get_or-set_ne [] i j a d h = refl
  get_or-set_ne (x ∷ xs) zero zero a d h = absurd (h refl)
  get_or-set_ne (x ∷ xs) zero (suc j) a d h = refl
  get_or-set_ne (x ∷ xs) (suc i) zero a d h = refl
  get_or-set_ne (x ∷ xs) (suc i) (suc j) a d h = get_or-set_ne xs i j a d (λ e. h (ap suc e))

  -- The two laws at once, for the tactics.
  pub get_or-set :
      (xs : List A) (i j : ℕ) (a d : A)
      → i < length xs
      → get_or (set xs i a) j d ≡ (if i == j then a else get_or xs j d)
  get_or-set [] i j a d h = absurd (omega arith)
  get_or-set (x ∷ xs) zero zero a d h = refl
  get_or-set (x ∷ xs) zero (suc j) a d h = ground arith
  get_or-set (x ∷ xs) (suc i) zero a d h = ground arith
  get_or-set (x ∷ xs) (suc i) (suc j) a d h = ground (arith, get_or-set xs i j a d)

  pub get_or-replicate : (n i : ℕ) (a : A) → get_or (replicate n a) i a ≡ a
  get_or-replicate zero i a = refl
  get_or-replicate (suc n) zero a = refl
  get_or-replicate (suc n) (suc i) a = get_or-replicate n i a

  pub length-replicate : (n : ℕ) (a : A) → length (replicate n a) ≡ n
  length-replicate zero a = refl
  length-replicate (suc n) a = ap suc (length-replicate n a)

  pub All-append {κ} : (P : A → Type κ) (xs ys : List A) → All P xs → All P ys → All P (xs ++ ys)
  All-append P [] ys h k = k
  All-append P (x ∷ xs) ys h k = (h.0, All-append P xs ys h.1 k)
