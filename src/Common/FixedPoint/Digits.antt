-- ===== src/Common/FixedPoint/Digits.antt =====
-- The loops of hft/common/fixed_point.hpp over digits: what is written is read again.
use hft.Prelude.{
  ℕ, zero, suc, ◌+◌, ◌-◌, ◌*◌, ◌/◌, ◌%◌, ◌<◌, ◌≤◌, ◌≡◌, refl, ap, ◌∙◌, inl, inr, Bool, true, false,
  List, ◌∷◌, ltb, leb, ◌==◌, arith, Bool-cases,
}
use hft.Common.FixedPoint.{
  zero_char, minus_char, dot_char, pow10, Scan, scan_char, scan, trim, count_digits, push_frac,
  push_int,
}

-- A state of the reader, in the integer part and in the fraction.
abbrev pub at_int : ℕ → Bool → Scan
at_int n minus = record {
  integer_part = n;
  frac_part = 0;
  frac_digits = 0;
  in_frac = false;
  negative = minus;
}

abbrev pub at_frac : ℕ → ℕ → ℕ → Bool → Scan
at_frac n f k minus = record {
  integer_part = n;
  frac_part = f;
  frac_digits = k;
  in_frac = true;
  negative = minus;
}

pub scan_int-digit :
    (n d : ℕ) (minus : Bool) (str : List ℕ)
    → d < 10
    → scan (at_int n minus) ((zero_char + d) ∷ str) ≡ scan (at_int (n * 10 + d) minus) str
unfolding scan scan_char
scan_int-digit n d minus str h = ap (λ s. scan s str) (one n d minus h)
  where
    one :
        (n d : ℕ) (minus : Bool)
        → d < 10
        → scan_char (at_int n minus) (zero_char + d) ≡ at_int (n * 10 + d) minus
    one n d minus h =
        let a : (zero_char + d == minus_char) ≡ false = ground arith in
        let b : (zero_char + d == dot_char) ≡ false = ground arith in
        let c : leb zero_char (zero_char + d) ≡ true = ground arith in
        let e : leb (zero_char + d) 57 ≡ true = ground arith in
        let f : zero_char + d - zero_char ≡ d = omega arith in rw (a, b, c, e, f) refl

pub scan_frac-digit :
    (n f k d : ℕ) (minus : Bool) (str : List ℕ)
    → d < 10
    → scan (at_frac n f k minus) ((zero_char + d) ∷ str)
      ≡ scan (at_frac n (f * 10 + d) (suc k) minus) str
unfolding scan scan_char
scan_frac-digit n f k d minus str h = ap (λ s. scan s str) (one n f k d minus h)
  where
    one :
        (n f k d : ℕ) (minus : Bool)
        → d < 10
        → scan_char (at_frac n f k minus) (zero_char + d) ≡ at_frac n (f * 10 + d) (suc k) minus
    one n f k d minus h =
        let a : (zero_char + d == minus_char) ≡ false = ground arith in
        let b : (zero_char + d == dot_char) ≡ false = ground arith in
        let c : leb zero_char (zero_char + d) ≡ true = ground arith in
        let e : leb (zero_char + d) 57 ≡ true = ground arith in
        let g : zero_char + d - zero_char ≡ d = omega arith in rw (a, b, c, e, g) refl

-- The digits of an integer part are read as the integer part.
pub scan-push_int :
    (fuel n : ℕ) (minus : Bool) (rest : List ℕ)
    → n < pow10 fuel
    → scan (at_int 0 minus) (push_int fuel n rest) ≡ scan (at_int n minus) rest
unfolding push_int pow10
scan-push_int zero n minus rest h = let z : n ≡ 0 = omega arith in rw z refl
scan-push_int (suc fuel) n minus rest h = elim (Bool-cases (ltb 0 n)) [
  | inr none_left ↦ let z : n ≡ 0 = ground (arith, none_left) in rw (none_left, z) refl
  | inl left ↦
      let whole : n / 10 * 10 + n % 10 ≡ n = omega arith in
      rw left (
        scan-push_int fuel (n / 10) minus ((zero_char + n % 10) ∷ rest) (omega arith)
        ∙ scan_int-digit (n / 10) (n % 10) minus rest (omega arith)
        ∙ ap (λ i. scan (at_int i minus) rest) whole)
]

-- The `k` digits of a fraction are read as the fraction and its number of digits.
pub scan-push_frac :
    (k n f a c : ℕ) (minus : Bool) (rest : List ℕ)
    → f < pow10 k
    → scan (at_frac n a c minus) (push_frac k f rest)
      ≡ scan (at_frac n (a * pow10 k + f) (c + k) minus) rest
unfolding push_frac pow10
scan-push_frac zero n f a c minus rest h =
    let z : a ≡ a * 1 + f = omega arith in
    let y : c ≡ c + 0 = omega arith in
    ap (λ i. scan (at_frac n i c minus) rest) z
    ∙ ap (λ i. scan (at_frac n (a * 1 + f) i minus) rest) y
scan-push_frac (suc k) n f a c minus rest h =
    let whole : (a * pow10 k + f / 10) * 10 + f % 10 ≡ a * (pow10 k * 10) + f = grind arith in
    let number : suc (c + k) ≡ c + suc k = omega arith in
    scan-push_frac k n (f / 10) a c minus ((zero_char + f % 10) ∷ rest) (omega arith)
    ∙ scan_frac-digit n (a * pow10 k + f / 10) (c + k) (f % 10) minus rest (omega arith)
    ∙ ap (λ i. scan (at_frac n i (suc (c + k)) minus) rest) whole
    ∙ ap (λ i. scan (at_frac n (a * (pow10 k * 10) + f) i minus) rest) number

pub pow10_positive : (n : ℕ) → 0 < pow10 n
unfolding pow10
pow10_positive zero = omega arith
pow10_positive (suc n) = let ih = pow10_positive n in omega arith

pub pow10_add : (k e : ℕ) → pow10 (k + e) ≡ pow10 k * pow10 e
unfolding pow10
pow10_add k zero =
    (let z : k + 0 ≡ k = omega arith in
      let y : pow10 k ≡ pow10 k * 1 = omega arith in ap pow10 z ∙ y)
pow10_add k (suc e) =
    (let ih = pow10_add k e in
      let z : k + suc e ≡ suc (k + e) = omega arith in
      let y : pow10 (k + e) * 10 ≡ pow10 k * (pow10 e * 10) = grind arith in ap pow10 z ∙ y)

-- Trimming takes away powers of 10.
pub record Trimmed (n f : ℕ) (p : ℕ × ℕ) : Type 0 where
  pub zeros : ℕ
  pub digits : p.0 + zeros ≡ n
  pub value : p.1 * pow10 zeros ≡ f
  pub small : p.1 < pow10 p.0

pub trim-Trimmed : (n f : ℕ) → f < pow10 n → Trimmed n f (trim n f)
unfolding trim pow10
trim-Trimmed zero f h = record { zeros = 0; digits = refl; value = omega arith; small = h }
trim-Trimmed (suc n) f h = elim (Bool-cases (f % 10 == 0)) [
  | inl e ↦
      let t = trim-Trimmed n (f / 10) (omega arith) in
      let whole : f / 10 * 10 ≡ f = (let z : f % 10 ≡ 0 = ground (arith, e) in omega arith) in
      rw e (record {
        zeros = suc t.zeros;
        digits = (let d = t.digits in omega arith);
        value = (let w = t.value in grind arith);
        small = t.small;
      })
  | inr e ↦ rw e (record { zeros = 0; digits = omega arith; value = omega arith; small = h })
]

-- The digits of a power of 10.
pub count_digits-pow10 : (fuel n : ℕ) → n ≤ fuel → count_digits fuel (pow10 n) ≡ n
unfolding count_digits pow10
count_digits-pow10 zero n h = omega arith
count_digits-pow10 (suc fuel) zero h = refl
count_digits-pow10 (suc fuel) (suc n) h =
    let p = pow10_positive n in
    let more : ltb 1 (pow10 n * 10) ≡ true =
      (let l : 1 < pow10 n * 10 = omega arith in ground (arith, l)) in
    let less : pow10 n * 10 / 10 ≡ pow10 n = omega arith in
    rw (more, less) (ap suc (count_digits-pow10 fuel n (omega arith)))
