-- ===== src/Tests/Numbers.antt =====
-- Texts of scaled integers on concrete values.
use hft.Prelude.{none, some, ◌^◌, ◌<◌, ◌/◌, ◌≡◌, refl, [], ◌∷◌, length, arith}
use hft.Prelude.Int.{ℤ, negsuc, abs}
use hft.Common.FixedPoint.{
  pow10, scan, scan_char, no_overflow, string_to_fixed, to_string, to_string2, text, max_digits,
  trim, count_digits, push_frac, push_int,
}
use hft.Common.FixedPoint.Texts.{string_to_fixed-to_string}
use hft.Common.FixedPoint.Pairs.{to_string2-to_string}

-- -12.5 at a scale of 100.
abbrev twelve_and_half : ℤ
twelve_and_half = negsuc 1249

twelve_and_half_text : to_string 100 twelve_and_half 32 ≡ 45 ∷ 49 ∷ 50 ∷ 46 ∷ 53 ∷ []
unfolding to_string text trim count_digits push_frac push_int abs
twelve_and_half_text = refl

few_digits : abs twelve_and_half / pow10 2 < pow10 max_digits
unfolding abs pow10
few_digits = omega arith

text_fits : length (text (pow10 2) twelve_and_half) < 32
unfolding text trim count_digits push_frac push_int abs pow10
text_fits = omega arith

small : abs twelve_and_half < 2 ^ 63
unfolding abs
small = omega arith

string_to_fixed-to_string_example :
    string_to_fixed (pow10 2) (to_string (pow10 2) twelve_and_half 32) ≡ some twelve_and_half
string_to_fixed-to_string_example =
    string_to_fixed-to_string 2 32 twelve_and_half (omega arith) small text_fits

-- At a scale of 10 ^ 10 the product of the fraction and the scale does not fit: 0.9999999999.
ten_digits_overflow :
    string_to_fixed (pow10 10) (48 ∷ 46 ∷ 57 ∷ 57 ∷ 57 ∷ 57 ∷ 57 ∷ 57 ∷ 57 ∷ 57 ∷ 57 ∷ 57 ∷ [])
    ≡ none
unfolding string_to_fixed scan scan_char no_overflow pow10
ten_digits_overflow = refl

to_string2-to_string_example :
    to_string2 (pow10 2) twelve_and_half 32 ≡ to_string (pow10 2) twelve_and_half 32
to_string2-to_string_example = to_string2-to_string (pow10 2) 32 twelve_and_half few_digits
