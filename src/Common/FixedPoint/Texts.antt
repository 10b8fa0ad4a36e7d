-- ===== src/Common/FixedPoint/Texts.antt =====
-- The texts of hft/common/fixed_point.hpp: `string_to_fixed` reads what `to_string` writes, and
-- `to_string2` writes the same.
use hft.Prelude.{
  ℕ, zero, suc, ◌+◌, ◌-◌, ◌*◌, ◌^◌, some, ◌/◌, ◌%◌, ◌<◌, ◌≤◌, ◌≡◌, refl, sym, ap, ◌∙◌, inl, inr,
  Bool, true, false, List, [], ◌∷◌, ltb, leb, ◌==◌, if◌then◌else◌, arith, Bool-cases, length,
}
use native.Mathlib.Nat.{mul-div_cancel, mod-lt, mul-le-mul_left, mul-le-mul_right}
use mathlib.Core.Path.{subst}
use hft.Prelude.Int.{ℤ, pos, negsuc, abs, ltb_ℤ, ◌-ℤ◌}
use hft.Common.FixedPoint.{
  zero_char, pow10, no_overflow, scan_char, scan, fixed_of, string_to_fixed, trim, count_digits,
  push_int, take_bytes, max_digits, frac_text, text, to_string,
}
use hft.Common.FixedPoint.Digits.{
  at_int, at_frac, scan_int-digit, scan-push_int, scan-push_frac, pow10_positive, pow10_add,
  trim-Trimmed, count_digits-pow10,
}

take_all : (str : List ℕ) → take_bytes (length str) str ≡ str
take_all [] = refl
take_all (c ∷ str) = ap (λ s. c ∷ s) (take_all str)

-- A fraction's text is read as its `k` digits with the value `f`.
scan-frac_text :
    (scale n k f : ℕ) (minus : Bool)
    → f < pow10 k
    → fixed_of scale (scan (at_int n minus) (frac_text (k, f)))
      ≡ fixed_of scale (at_frac n f k minus)
unfolding scan scan_char pow10 no_overflow
scan-frac_text scale n zero f minus h = let z : f ≡ 0 = omega arith in rw z refl
scan-frac_text scale n (suc k) f minus h =
    let some_left : ltb 0 (suc k) ≡ true = ground arith in
    let x : 0 * pow10 (suc k) + f ≡ f = omega arith in
    let y : 0 + suc k ≡ suc k = omega arith in
    rw some_left (
      ap (λ s. fixed_of scale s)
        (scan-push_frac (suc k) n f 0 0 minus [] h
          ∙ ap (λ i. at_frac n i (0 + suc k) minus) x
          ∙ ap (λ i. at_frac n f i minus) y))

-- The value of a fraction whose zeros are cut.
frac_value : (d k e f r : ℕ) → k + e ≡ d → f * pow10 e ≡ r → f * pow10 d / pow10 k ≡ r
frac_value d k e f r h g =
    let p = pow10_positive k in
    let q : pow10 d ≡ pow10 k * pow10 e = sym (ap pow10 h) ∙ pow10_add k e in
    let whole : f * pow10 d ≡ f * pow10 e * pow10 k = grind arith in
    ap (λ x. x / pow10 k) whole ∙ mul-div_cancel (f * pow10 e) p ∙ g

abbrev int_text : ℕ → List ℕ → List ℕ
int_text n temp = if n == 0 then zero_char ∷ temp else push_int max_digits n temp

scan-int_text :
    (n : ℕ) (minus : Bool) (temp : List ℕ)
    → n < pow10 max_digits
    → scan (at_int 0 minus) (int_text n temp) ≡ scan (at_int n minus) temp
scan-int_text n minus temp h = elim (Bool-cases (n == 0)) [
  | inl e ↦
      let z : n ≡ 0 = ground (arith, e) in rw (e, z) (scan_int-digit 0 0 minus temp (omega arith))
  | inr e ↦ rw e (scan-push_int max_digits n minus temp h)
]

abbrev signed : Bool → ℕ → ℤ
signed minus n = if minus then pos 0 -ℤ pos n else pos n

int_part_small : (n p : ℕ) → 0 < p → n / p * p + n % p ≡ n → n < 2 ^ 63 → n / p < 2 ^ 63
int_part_small n p h whole bound = omega (arith, whole, mul-le-mul_left (n / p) h)

below_digits : (n : ℕ) → n < 2 ^ 63 → n < pow10 max_digits
unfolding pow10
below_digits n h = omega arith

-- A scan whose numbers are all small is the number that its parts make.
fixed_of-small :
    (scale n f k v : ℕ) (minus : Bool)
    → n * scale + f * scale / pow10 k ≡ v
    → v < 2 ^ 63
    → n < 2 ^ 63
    → f < 2 ^ 63
    → f * scale < 2 ^ 63
    → pow10 k < 2 ^ 63
    → fixed_of scale (at_frac n f k minus) ≡ some (signed minus v)
unfolding no_overflow
fixed_of-small scale n f k v minus e hv hn hf hfs hk =
    let a : ltb n (2 ^ 63) ≡ true = ground arith in
    let b : ltb f (2 ^ 63) ≡ true = ground arith in
    let c : ltb (pow10 k) (2 ^ 63) ≡ true = ground arith in
    let d : ltb (n * scale) (2 ^ 63) ≡ true = ground arith in
    let g : ltb (f * scale) (2 ^ 63) ≡ true = ground arith in
    let h : ltb v (2 ^ 63) ≡ true = ground arith in rw (a, b, c, d, g, e, h) refl

pow10-le : (k e : ℕ) → pow10 k ≤ pow10 (k + e)
pow10-le k e =
    let more : 1 ≤ pow10 e = pow10_positive e in
    rw (pow10_add k e) (omega (arith, mul-le-mul_left (pow10 k) more))

pow10_small : (d : ℕ) → d ≤ 9 → pow10 d ≤ 1000000000
pow10_small d h =
    let e : d + (9 - d) ≡ 9 = omega arith in
    let nine : pow10 9 ≡ 1000000000 = unfold pow10 in refl in
    let le = pow10-le d (9 - d) in subst (λ x. pow10 d ≤ x) (ap pow10 e ∙ nine) le

-- The product of the fraction and the scale.
frac_small :
    (d k e f r : ℕ)
    → d ≤ 9
    → k + e ≡ d
    → f * pow10 e ≡ r
    → r < pow10 d
    → (f < 2 ^ 63) × (f * pow10 d < 2 ^ 63) × (pow10 k < 2 ^ 63)
frac_small d k e f r h ke fr small =
    let top = pow10_small d h in
    let le : f ≤ f * pow10 e = omega (arith, mul-le-mul_left f (pow10_positive e)) in
    let f_le : f ≤ 1000000000 = omega arith in
    let prod = mul-le-mul_left f top in
    let prod' = mul-le-mul_right 1000000000 f_le in
    let k_le = pow10_small k (omega arith) in (omega arith, omega (arith, prod, prod'), omega arith)

read_back :
    (d n : ℕ) (minus : Bool)
    → d ≤ 9
    → n < 2 ^ 63
    → fixed_of (pow10 d) (
        scan (at_int 0 minus) (
          int_text
            (n / pow10 d)
            (frac_text (trim (count_digits max_digits (pow10 d)) (n % pow10 d)))))
      ≡ some (signed minus n)
read_back d n minus h bound =
    let positive = pow10_positive d in
    let below : n % pow10 d < pow10 d = mod-lt n positive in
    let t = trim-Trimmed d (n % pow10 d) below in
    let p = trim d (n % pow10 d) in
    let value = frac_value d p.0 t.zeros p.1 (n % pow10 d) t.digits t.value in
    let whole : n / pow10 d * pow10 d + n % pow10 d ≡ n = grind arith in
    let int_le : n / pow10 d < 2 ^ 63 = int_part_small n (pow10 d) positive whole bound in
    let f = frac_small d p.0 t.zeros p.1 (n % pow10 d) h t.digits t.value below in
    rw (count_digits-pow10 max_digits d (omega arith)) (
      ap (λ s. fixed_of (pow10 d) s)
        (scan-int_text (n / pow10 d) minus (frac_text p) (below_digits _ int_le))
      ∙ scan-frac_text (pow10 d) (n / pow10 d) p.0 p.1 minus t.small
      ∙ fixed_of-small (pow10 d) (n / pow10 d) p.1 p.0 n minus
          (ap (λ x. n / pow10 d * pow10 d + x) value ∙ whole) bound int_le f.0 f.1 f.2)

signs_back :
    (d : ℕ) (v : ℤ) → d ≤ 9 → abs v < 2 ^ 63 → string_to_fixed (pow10 d) (text (pow10 d) v) ≡ some v
unfolding text string_to_fixed scan scan_char abs ◌-ℤ◌
signs_back d (pos n) h small =
    let plus : ltb_ℤ (pos n) (pos 0) ≡ false = ground arith in
    let same : signed false (abs (pos n)) ≡ pos n = ground arith in
    rw plus (read_back d (abs (pos n)) false h small ∙ ap some same)
signs_back d (negsuc n) h small =
    let minus : ltb_ℤ (negsuc n) (pos 0) ≡ true = ground arith in
    let same : signed true (abs (negsuc n)) ≡ negsuc n = ground arith in
    rw minus (read_back d (abs (negsuc n)) true h small ∙ ap some same)

-- What is written is read again, and no 64-bit number overflows: at a scale of 10 ^ d with d at most
-- 9, for every value whose magnitude is below 2 ^ 63, if the buffer holds the text and the byte after
-- it.
pub string_to_fixed-to_string :
    (d buf_size : ℕ) (value : ℤ)
    → d ≤ 9
    → abs value < 2 ^ 63
    → length (text (pow10 d) value) < buf_size
    → string_to_fixed (pow10 d) (to_string (pow10 d) value buf_size) ≡ some value
unfolding to_string
string_to_fixed-to_string d buf_size value h small fits =
    let some_room : (buf_size == 0) ≡ false = ground (arith, fits) in
    let room : leb buf_size (length (text (pow10 d) value)) ≡ false = ground (arith, fits) in
    rw (some_room, room)
      (ap (λ s. string_to_fixed (pow10 d) s) (take_all (text (pow10 d) value))
        ∙ signs_back d value h small)
