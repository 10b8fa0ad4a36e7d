-- ===== src/Common/FixedPoint/Pairs.antt =====
-- `to_string2` of hft/common/fixed_point.hpp, two digits at a time by a table, against `to_string`.
use hft.Prelude.{
  ℕ, zero, suc, ◌+◌, ◌*◌, ◌/◌, ◌%◌, ◌<◌, ◌≡◌, refl, sym, ap, ◌∙◌, inl, inr, Bool, true, not, ◌&&◌,
  none, List, [], ◌∷◌, ltb, leb, ◌==◌, arith, Bool-cases, first_index, first_from, first_index-none,
}
use hft.Prelude.Int.{ℤ, abs}
use hft.Common.FixedPoint.{
  zero_char, dot_char, pow10, digits_lut, lut, push_frac, push_int, push_pair, push_frac2,
  push_last, push_int2, max_digits, trimmed, frac_text, frac_text2, text, text2, to_string,
  to_string2, with_sign,
}

-- The table has the two digits of each number below 100.
abbrev lut_fits : ℕ → Bool
lut_fits i = (lut (i * 2) == zero_char + i / 10) && (lut (i * 2 + 1) == zero_char + i % 10)

no_misfit : first_index (λ i. not (lut_fits i)) 100 ≡ none
unfolding first_index first_from digits_lut
no_misfit = refl

lut-digits :
    (i : ℕ) → i < 100 → (lut (i * 2) ≡ zero_char + i / 10) × (lut (i * 2 + 1) ≡ zero_char + i % 10)
lut-digits i h =
    let fits = first_index-none (λ j. not (lut_fits j)) 100 i no_misfit h in ground (arith, fits)

push_pair-digits :
    (n : ℕ) (temp : List ℕ)
    → push_pair n temp ≡ (zero_char + n / 10 % 10) ∷ (zero_char + n % 10) ∷ temp
push_pair-digits n temp =
    let (a, b) = lut-digits (n % 100) (omega arith) in
    let c : n % 100 / 10 ≡ n / 10 % 10 = omega arith in
    let e : n % 100 % 10 ≡ n % 10 = omega arith in
    let x : lut (n % 100 * 2) ≡ zero_char + n / 10 % 10 = a ∙ ap (λ i. zero_char + i) c in
    let y : lut (n % 100 * 2 + 1) ≡ zero_char + n % 10 = b ∙ ap (λ i. zero_char + i) e in
    ap (λ i. i ∷ lut (n % 100 * 2 + 1) ∷ temp) x ∙ ap (λ i. (zero_char + n / 10 % 10) ∷ i ∷ temp) y

hundred : (n : ℕ) → n / 100 ≡ n / 10 / 10
hundred n = omega arith

push_frac2-push_frac : (k f : ℕ) (temp : List ℕ) → push_frac2 k f temp ≡ push_frac k f temp
unfolding push_frac2 push_frac
push_frac2-push_frac zero f temp = refl
push_frac2-push_frac (suc zero) f temp = refl
push_frac2-push_frac (suc (suc k)) f temp =
    push_frac2-push_frac k (f / 100) (push_pair f temp)
    ∙ ap (λ t. push_frac k (f / 100) t) (push_pair-digits f temp)
    ∙ ap (λ i. push_frac k i ((zero_char + f / 10 % 10) ∷ (zero_char + f % 10) ∷ temp)) (hundred f)

push_int-step :
    (fuel n : ℕ) (temp : List ℕ)
    → 0 < n
    → push_int (suc fuel) n temp ≡ push_int fuel (n / 10) ((zero_char + n % 10) ∷ temp)
unfolding push_int
push_int-step fuel n temp h = let left : ltb 0 n ≡ true = ground (arith, h) in rw left refl

push_int-zero : (fuel : ℕ) (temp : List ℕ) → push_int fuel 0 temp ≡ temp
unfolding push_int
push_int-zero zero temp = refl
push_int-zero (suc fuel) temp = refl

push_int-pair :
    (fuel n : ℕ) (temp : List ℕ)
    → 9 < n
    → push_int (suc (suc fuel)) n temp ≡ push_int fuel (n / 100) (push_pair n temp)
push_int-pair fuel n temp h =
    push_int-step (suc fuel) n temp (omega arith)
    ∙ push_int-step fuel (n / 10) ((zero_char + n % 10) ∷ temp) (omega arith)
    ∙ ap (λ t. push_int fuel (n / 10 / 10) t) (sym (push_pair-digits n temp))
    ∙ ap (λ i. push_int fuel i (push_pair n temp)) (sym (hundred n))

-- What is left of an integer part below 100 is written in one or two digits.
push_last-push_int :
    (fuel n : ℕ) (temp : List ℕ)
    → 0 < n
    → n < 100
    → push_last n temp ≡ push_int (suc (suc fuel)) n temp
push_last-push_int fuel n temp h b = elim (Bool-cases (ltb n 10)) [
  | inl one ↦
      let z : n / 10 ≡ 0 = ground (arith, one) in
      let r : n % 10 ≡ n = ground (arith, one) in
      let short : push_last n temp ≡ (zero_char + n) ∷ temp = rw one refl in
      short
      ∙ sym (
          push_int-step (suc fuel) n temp h
          ∙ ap (λ i. push_int (suc fuel) i ((zero_char + n % 10) ∷ temp)) z
          ∙ push_int-zero (suc fuel) ((zero_char + n % 10) ∷ temp)
          ∙ ap (λ i. (zero_char + i) ∷ temp) r)
  | inr two ↦
      let z : n / 100 ≡ 0 = omega arith in
      let short : push_last n temp ≡ push_pair n temp = rw two refl in
      short
      ∙ sym (
          push_int-pair fuel n temp (ground (arith, two))
          ∙ ap (λ i. push_int fuel i (push_pair n temp)) z
          ∙ push_int-zero fuel (push_pair n temp))
]

unfoldable double : ℕ → ℕ
double zero = 0
double (suc n) = suc (suc (double n))

push_int2-push_int :
    (fuel n : ℕ) (temp : List ℕ)
    → 0 < n
    → n < pow10 (double (suc fuel))
    → push_int2 fuel n temp ≡ push_int (double (suc fuel)) n temp
unfolding push_int2 pow10 double
push_int2-push_int zero n temp h b = push_last-push_int 0 n temp h (omega arith)
push_int2-push_int (suc fuel) n temp h b = elim (Bool-cases (leb 100 n)) [
  | inr last ↦ rw last (push_last-push_int (double (suc fuel)) n temp h (ground (arith, last)))
  | inl more ↦ rw more (
      push_int2-push_int fuel (n / 100) (push_pair n temp) (ground (arith, more)) (omega arith)
      ∙ sym (push_int-pair (double (suc fuel)) n temp (ground (arith, more))))
]

frac_text2-frac_text : (p : ℕ × ℕ) → frac_text2 p ≡ frac_text p
frac_text2-frac_text p = elim (Bool-cases (ltb 0 p.0)) [
  | inl e ↦ rw e (ap (λ t. dot_char ∷ t) (push_frac2-push_frac p.0 p.1 []))
  | inr e ↦ rw e refl
]

text2-text :
    (scale : ℕ) (value : ℤ)
    → abs value / scale < pow10 max_digits
    → text2 scale value ≡ text scale value
unfolding text2 text double
text2-text scale value h = elim (Bool-cases (abs value / scale == 0)) [
  | inl e ↦
      rw e (ap (λ t. with_sign value (zero_char ∷ t)) (frac_text2-frac_text (trimmed scale value)))
  | inr e ↦ rw e (
      ap (λ t. with_sign value (push_int2 31 (abs value / scale) t))
        (frac_text2-frac_text (trimmed scale value))
      ∙ ap (λ t. with_sign value t)
          (push_int2-push_int 31 (abs value / scale) (frac_text (trimmed scale value))
            (ground (arith, e)) h))
]

-- The writer that takes two digits at a time from a table writes what the other one writes, into a
-- buffer of any size, for every value whose integer part has at most 64 digits.
pub to_string2-to_string :
    (scale buf_size : ℕ) (value : ℤ)
    → abs value / scale < pow10 max_digits
    → to_string2 scale value buf_size ≡ to_string scale value buf_size
unfolding to_string2 to_string
to_string2-to_string scale buf_size value h = rw (text2-text scale value h) refl
