-- ===== src/Prelude/Int.antt =====
-- Signed integers over the native numbers: the C++ `int64_t`, where overflow is undefined.
-- `negsuc n` is -(n + 1). Division truncates toward zero, as in C++.
use Prim.Native.Nat.{ℕ, zero, suc, ◌+◌, ◌-◌, ◌*◌, ◌/◌, ◌%◌, ◌≤◌, ◌<◌, ◌^◌}
use mathlib.Core.Path.{◌≡◌, refl}
use mathlib.Core.Logic.{◌⊎◌, inl, inr}
use mathlib.Core.Bool.{Bool}
use native.Mathlib.Omega.{arith}
use hft.Prelude.Tests.{ltb, leb, ◌==◌, if◌then◌else◌}

pub data ℤ : Type 0 where
  pos : ℕ → ℤ
  negsuc : ℕ → ℤ

abbrev pub pos_part : ℤ → ℕ
pos_part (pos n) = n
pos_part (negsuc n) = 0

abbrev pub neg_part : ℤ → ℕ
neg_part (pos n) = 0
neg_part (negsuc n) = suc n

-- a - b of two numbers.
abbrev pub sub_ℕ : ℕ → ℕ → ℤ
sub_ℕ a b = if leb b a then pos (a - b) else negsuc (b - a - 1)

infixl 65 ◌+ℤ◌ ◌-ℤ◌
infixl 70 ◌*ℤ◌ ◌/ℤ◌
infix 50 ◌≤ℤ◌ ◌<ℤ◌
unfoldable pub ◌+ℤ◌ : ℤ → ℤ → ℤ
a +ℤ b = sub_ℕ (pos_part a + pos_part b) (neg_part a + neg_part b)

unfoldable pub ◌-ℤ◌ : ℤ → ℤ → ℤ
a -ℤ b = sub_ℕ (pos_part a + neg_part b) (neg_part a + pos_part b)

unfoldable pub ◌*ℤ◌ : ℤ → ℤ → ℤ
a *ℤ b =
    sub_ℕ (pos_part a * pos_part b + neg_part a * neg_part b)
      (pos_part a * neg_part b + neg_part a * pos_part b)

-- `std::abs`
unfoldable pub abs : ℤ → ℕ
abs a = pos_part a + neg_part a

-- `a / b`; a zero divisor, which traps in C++, gives 0 here.
unfoldable pub ◌/ℤ◌ : ℤ → ℤ → ℤ
pos a /ℤ pos b = pos (a / b)
pos a /ℤ negsuc b = sub_ℕ 0 (a / suc b)
negsuc a /ℤ pos b = sub_ℕ 0 (suc a / b)
negsuc a /ℤ negsuc b = pos (suc a / suc b)

abbrev pub ◌≤ℤ◌ : ℤ → ℤ → Type 0
a ≤ℤ b = pos_part a + neg_part b ≤ pos_part b + neg_part a

abbrev pub ◌<ℤ◌ : ℤ → ℤ → Type 0
a <ℤ b = pos_part a + neg_part b < pos_part b + neg_part a

abbrev pub ltb_ℤ : ℤ → ℤ → Bool
ltb_ℤ a b = ltb (pos_part a + neg_part b) (pos_part b + neg_part a)

abbrev pub leb_ℤ : ℤ → ℤ → Bool
leb_ℤ a b = leb (pos_part a + neg_part b) (pos_part b + neg_part a)

abbrev pub eqb_ℤ : ℤ → ℤ → Bool
eqb_ℤ a b = pos_part a + neg_part b == pos_part b + neg_part a

-- `static_cast<uint64_t>`
unfoldable pub to_u64 : ℤ → ℕ
to_u64 (pos n) = n % 2 ^ 64
to_u64 (negsuc n) = (2 ^ 64 - 1 - n % 2 ^ 64)

-- With these laws `omega` works with the operations shut, at any depth.
pub +ℤ_parts :
    (a b : ℤ)
    → pos_part (a +ℤ b) + neg_part a + neg_part b ≡ neg_part (a +ℤ b) + pos_part a + pos_part b
unfolding ◌+ℤ◌
+ℤ_parts a b = ground arith

pub -ℤ_parts :
    (a b : ℤ)
    → pos_part (a -ℤ b) + neg_part a + pos_part b ≡ neg_part (a -ℤ b) + pos_part a + neg_part b
unfolding ◌-ℤ◌
-ℤ_parts a b = ground arith

pub eq_of_parts : (a b : ℤ) → pos_part a + neg_part b ≡ pos_part b + neg_part a → a ≡ b
eq_of_parts a b h = ground arith

pub ruleset int_laws = (arith, +ℤ_parts, -ℤ_parts, eq_of_parts)

pub +ℤ-zero : (a : ℤ) → a +ℤ pos 0 ≡ a
+ℤ-zero a = omega int_laws

pub +ℤ_comm : (a b : ℤ) → a +ℤ b ≡ b +ℤ a
+ℤ_comm a b = omega int_laws

pub +ℤ_assoc : (a b c : ℤ) → a +ℤ b +ℤ c ≡ a +ℤ (b +ℤ c)
+ℤ_assoc a b c = omega int_laws

pub -ℤ_self : (a : ℤ) → a -ℤ a ≡ pos 0
-ℤ_self a = omega int_laws

pub one-*ℤ : (a : ℤ) → pos 1 *ℤ a ≡ a
unfolding ◌*ℤ◌
one-*ℤ a = ground arith

pub minus_one-*ℤ : (a : ℤ) → negsuc 0 *ℤ a ≡ pos 0 -ℤ a
unfolding ◌*ℤ◌ ◌-ℤ◌
minus_one-*ℤ a = ground arith

pub *ℤ_one : (a : ℤ) → a *ℤ pos 1 ≡ a
unfolding ◌*ℤ◌
*ℤ_one a = ground arith

pub *ℤ_minus_one : (a : ℤ) → a *ℤ negsuc 0 ≡ pos 0 -ℤ a
unfolding ◌*ℤ◌ ◌-ℤ◌
*ℤ_minus_one a = ground arith

quotients :
    (pos 7 /ℤ negsuc 1 ≡ negsuc 2)
    × (negsuc 6 /ℤ pos 2 ≡ negsuc 2)
    × (to_u64 (negsuc 0) ≡ 2 ^ 64 - 1)
unfolding ◌/ℤ◌ to_u64
quotients = (refl, refl, refl)

abbrev pub min_ℤ : ℤ → ℤ → ℤ
min_ℤ a b = if ltb_ℤ b a then b else a

-- The sign of a product.
pub *ℤ_neg :
    (a b : ℤ) → a *ℤ b <ℤ pos 0 → ((a <ℤ pos 0) × (pos 0 <ℤ b)) ⊎ ((pos 0 <ℤ a) × (b <ℤ pos 0))
unfolding ◌*ℤ◌
*ℤ_neg (pos a) (pos b) h = absurd (ground arith)
*ℤ_neg (pos zero) (negsuc b) h = absurd (ground arith)
*ℤ_neg (pos (suc a)) (negsuc b) h = inr (omega arith, omega arith)
*ℤ_neg (negsuc a) (pos zero) h = absurd (ground arith)
*ℤ_neg (negsuc a) (pos (suc b)) h = inl (omega arith, omega arith)
*ℤ_neg (negsuc a) (negsuc b) h = absurd (ground arith)

pub *ℤ_below : (a b : ℤ) → pos 0 ≤ℤ a *ℤ b → (b <ℤ pos 0 → a ≤ℤ pos 0) × (pos 0 <ℤ b → pos 0 ≤ℤ a)
unfolding ◌*ℤ◌
*ℤ_below (pos zero) b h = (λ _. omega arith, λ _. omega arith)
*ℤ_below (pos (suc a)) (pos b) h = (λ n. absurd (omega arith), λ _. omega arith)
*ℤ_below (pos (suc a)) (negsuc b) h = absurd (ground arith)
*ℤ_below (negsuc a) (pos zero) h = (λ _. omega arith, λ n. absurd (omega arith))
*ℤ_below (negsuc a) (pos (suc b)) h = absurd (ground arith)
*ℤ_below (negsuc a) (negsuc b) h = (λ _. omega arith, λ n. absurd (omega arith))

pub pos-+ℤ : (a b : ℕ) → pos a +ℤ pos b ≡ pos (a + b)
unfolding ◌+ℤ◌
pos-+ℤ a b = ground arith

pub pos--ℤ : (a b : ℕ) → b ≤ a → pos a -ℤ pos b ≡ pos (a - b)
unfolding ◌-ℤ◌
pos--ℤ a b h = ground arith

pub pos-*ℤ : (a b : ℕ) → pos a *ℤ pos b ≡ pos (a * b)
unfolding ◌*ℤ◌
pos-*ℤ a b = ground arith

pub pos-/ℤ : (a b : ℕ) → pos a /ℤ pos b ≡ pos (a / b)
unfolding ◌/ℤ◌
pos-/ℤ a b = refl
