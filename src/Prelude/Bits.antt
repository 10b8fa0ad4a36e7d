-- ===== src/Prelude/Bits.antt =====
-- Arrays as functions of the index, and 64-bit words as their bits, the lowest at 0. An array is read
-- and written in range only; where it is, is what a theorem says.
use Prim.Native.Nat.{ℕ}
use mathlib.Core.Path.{◌≡◌, refl}
use mathlib.Core.Logic.{◌≢◌}
use mathlib.Core.Bool.{Bool, false, not, ◌&&◌, ◌||◌}
use native.Mathlib.Omega.{arith}
use hft.Prelude.Tests.{◌==◌, ltb, ==_self, if◌then◌else◌}

-- `a[i] = x`
abbrev pub write {ℓ} : {A : Type ℓ} → (ℕ → A) → ℕ → A → ℕ → A
write a i x j = if i == j then x else a j

pub write_self {ℓ} : {A : Type ℓ} (a : ℕ → A) (i : ℕ) (x : A) → write a i x i ≡ x
write_self a i x = rw (==_self i) refl

pub write_ne {ℓ} : {A : Type ℓ} (a : ℕ → A) (i j : ℕ) (x : A) → i ≢ j → write a i x j ≡ a j
write_ne a i j x h = ground (arith, h)

abbrev pub Word : Type 0
Word = ℕ → Bool

-- `kBitsPerWord`
abbrev pub word_bits : ℕ
word_bits = 64

abbrev pub zero_word : Word
zero_word i = false

-- `1ULL << b`, `(1ULL << b) - 1`, and `~((1ULL << (b + 1)) - 1)`
abbrev pub one_bit : ℕ → Word
one_bit b i = b == i

abbrev pub bits_below : ℕ → Word
bits_below b i = ltb i b

abbrev pub bits_above : ℕ → Word
bits_above b i = ltb b i

abbrev pub and_word : Word → Word → Word
and_word v w i = v i && w i

abbrev pub or_word : Word → Word → Word
or_word v w i = v i || w i

abbrev pub not_word : Word → Word
not_word v i = not (v i)
