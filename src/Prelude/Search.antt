-- ===== src/Prelude/Search.antt =====
-- `for (i = 0; i < n; ++i) if (p(i)) return i; return -1;`, with -1 as `none`.
use Prim.Native.Nat.{ℕ, zero, suc, ◌+◌, ◌≤◌, ◌<◌}
use mathlib.Core.Path.{◌≡◌}
use mathlib.Core.Bool.{Bool, true, false}
use mathlib.Core.Option.{Option, none, some}
use native.Mathlib.Omega.{arith}
use hft.Prelude.Tests.{Bool-cases}
use mathlib.Core.Logic.{inl, inr}

-- The loop from index `i` with `n` rounds left.
unfoldable pub first_from : (ℕ → Bool) → ℕ → ℕ → Option ℕ
first_from p i zero = none
first_from p i (suc n) = elim (p i) [ true ↦ some i | false ↦ first_from p (suc i) n ]

unfoldable pub first_index : (ℕ → Bool) → ℕ → Option ℕ
unfolding first_from
first_index p n = first_from p 0 n

pub first_from-some :
    (p : ℕ → Bool) (i n k : ℕ)
    → first_from p i n ≡ some k
    → (i ≤ k) × (k < i + n) × (p k ≡ true) × ((j : ℕ) → i ≤ j → j < k → p j ≡ false)
unfolding first_from
first_from-some p i zero k h = ground arith
first_from-some p i (suc n) k h = elim (Bool-cases (p i)) [
  | inl hit ↦
      let e : i ≡ k = ground arith in
      (omega arith, omega arith, ground arith, λ j lo hi. absurd (omega arith))
  | inr miss ↦
      let (lo, hi, hit, before) = first_from-some p (suc i) n k (ground arith) in
      (omega arith, omega arith, hit, λ j a b. skip j a b miss before)
]
  where
    skip :
        (j : ℕ)
        → i ≤ j
        → j < k
        → p i ≡ false
        → ((m : ℕ) → suc i ≤ m → m < k → p m ≡ false)
        → p j ≡ false
    skip j a b miss before = ground (arith, before j)

pub first_from-none :
    (p : ℕ → Bool) (i n j : ℕ) → first_from p i n ≡ none → i ≤ j → j < i + n → p j ≡ false
unfolding first_from
first_from-none p i zero j h lo hi = absurd (omega arith)
first_from-none p i (suc n) j h lo hi = ground (arith, first_from-none p (suc i) n j)

-- What is found is in range, passes the test, and is the first that does.
pub first_index-some :
    (p : ℕ → Bool) (n k : ℕ)
    → first_index p n ≡ some k
    → (k < n) × (p k ≡ true) × ((j : ℕ) → j < k → p j ≡ false)
unfolding first_index
first_index-some p n k h =
    let (lo, hi, hit, before) = first_from-some p 0 n k h in
    (omega arith, hit, λ j b. before j (omega arith) b)

-- If nothing is found nothing in range passes the test.
pub first_index-none : (p : ℕ → Bool) (n j : ℕ) → first_index p n ≡ none → j < n → p j ≡ false
unfolding first_index
first_index-none p n j h b = first_from-none p 0 n j h (omega arith) (omega arith)

-- `for (i = n - 1; i >= 0; --i) if (p(i)) return i; return -1;`
unfoldable pub last_index : (ℕ → Bool) → ℕ → Option ℕ
last_index p zero = none
last_index p (suc n) = elim (p n) [ true ↦ some n | false ↦ last_index p n ]

-- What is found is in range, passes the test, and is the last that does.
pub last_index-some :
    (p : ℕ → Bool) (n k : ℕ)
    → last_index p n ≡ some k
    → (k < n) × (p k ≡ true) × ((j : ℕ) → k < j → j < n → p j ≡ false)
unfolding last_index
last_index-some p zero k h = ground arith
last_index-some p (suc n) k h = elim (Bool-cases (p n)) [
  | inl hit ↦
      let e : n ≡ k = ground arith in (omega arith, ground arith, λ j lo hi. absurd (omega arith))
  | inr miss ↦
      let (lt, hit, after) = last_index-some p n k (ground arith) in
      (omega arith, hit, λ j lo hi. ground (arith, miss, after j))
]

pub last_index-none : (p : ℕ → Bool) (n j : ℕ) → last_index p n ≡ none → j < n → p j ≡ false
unfolding last_index
last_index-none p zero j h b = absurd (omega arith)
last_index-none p (suc n) j h b = ground (arith, last_index-none p n j)
