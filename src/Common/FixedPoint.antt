-- ===== src/Common/FixedPoint.antt =====
-- hft/common/fixed_point.hpp: decimal texts of scaled integers. A text is the list of its bytes, and
-- the temporary buffer, which is filled from the end of the text and read backwards, is that list, its
-- last byte first to be put there. The loops over an integer part run on as much fuel as the
-- temporary buffer has bytes. `string_to_fixed` gives nothing where an `int64_t`
-- overflows, which is undefined in the source; the writers only divide, and are exact.
pub mod Digits
pub mod Pairs
pub mod Texts
use hft.Prelude.{
  ℕ, zero, suc, ◌+◌, ◌-◌, ◌*◌, ◌/◌, ◌%◌, ◌^◌, Option, none, some, Bool, true, false, ◌&&◌, List, [],
  ◌∷◌, ltb, leb, ◌==◌, if◌then◌else◌, length, get_or,
}
use hft.Prelude.Int.{ℤ, pos, negsuc, abs, ltb_ℤ, ◌+ℤ◌, ◌-ℤ◌}

-- `'0'`, `'-'` and `'.'`
abbrev pub zero_char : ℕ
zero_char = 48

abbrev pub minus_char : ℕ
minus_char = 45

abbrev pub dot_char : ℕ
dot_char = 46

-- `for (i = 0; i < n; ++i) frac_scale *= kDecimalBase;`
unfoldable pub pow10 : ℕ → ℕ
pow10 zero = 1
pow10 (suc n) = pow10 n * 10

-- What `string_to_fixed` has read.
pub record Scan : Type 0 where
  pub integer_part : ℕ
  pub frac_part : ℕ
  pub frac_digits : ℕ
  pub in_frac : Bool
  pub negative : Bool

-- One round of its loop.
unfoldable pub scan_char : Scan → ℕ → Scan
scan_char s chr =
    if chr == minus_char
    then record s { negative = true }
    else if chr == dot_char
    then record s { in_frac = true }
    else if leb zero_char chr && leb chr 57
    then (if s.in_frac
        then record s {
          frac_part = s.frac_part * 10 + (chr - zero_char);
          frac_digits = suc s.frac_digits;
        }
        else record s { integer_part = s.integer_part * 10 + (chr - zero_char) })
    else s

unfoldable pub scan : Scan → List ℕ → Scan
scan s [] = s
scan s (chr ∷ str) = scan (scan_char s chr) str

abbrev pub start : Scan
start = record {
  integer_part = 0;
  frac_part = 0;
  frac_digits = 0;
  in_frac = false;
  negative = false;
}

abbrev pub in_int64 : ℕ → Bool
in_int64 n = ltb n (2 ^ 63)

-- Every number that the source computes stays below 2 ^ 63. What its loops add up to never gets
-- smaller, so the last values tell.
unfoldable pub no_overflow : ℕ → Scan → Bool
no_overflow scale s =
    in_int64 s.integer_part
    && in_int64 s.frac_part
    && in_int64 (pow10 s.frac_digits)
    && in_int64 (s.integer_part * scale)
    && in_int64 (s.frac_part * scale)
    && in_int64 (s.integer_part * scale + s.frac_part * scale / pow10 s.frac_digits)

-- `none` stands for an overflow of `int64_t`, which is undefined in the source.
abbrev pub fixed_of : ℕ → Scan → Option ℤ
fixed_of scale s =
    let result = s.integer_part * scale + s.frac_part * scale / pow10 s.frac_digits in
    if no_overflow scale s
    then some (if s.negative then pos 0 -ℤ pos result else pos result)
    else none

-- `string_to_fixed`
unfoldable pub string_to_fixed : ℕ → List ℕ → Option ℤ
string_to_fixed scale str = fixed_of scale (scan start str)

-- `while (temp_scale > 1) { temp_scale /= kDecimalBase; ++frac_digits; }`
unfoldable pub count_digits : ℕ → ℕ → ℕ
count_digits zero temp_scale = 0
count_digits (suc fuel) temp_scale =
    let rest = count_digits fuel (temp_scale / 10) in if ltb 1 temp_scale then suc rest else 0

-- The zeros at the end go: the digits that are left, and their number.
unfoldable pub trim : ℕ → ℕ → ℕ × ℕ
trim zero frac_part = (0, frac_part)
trim (suc n) frac_part =
    let rest = trim n (frac_part / 10) in if frac_part % 10 == 0 then rest else (suc n, frac_part)

-- `to_string`, digit by digit
unfoldable pub push_frac : ℕ → ℕ → List ℕ → List ℕ
push_frac zero frac_part temp = temp
push_frac (suc n) frac_part temp =
    push_frac n (frac_part / 10) ((zero_char + frac_part % 10) ∷ temp)

unfoldable pub push_int : ℕ → ℕ → List ℕ → List ℕ
push_int zero integer_part temp = temp
push_int (suc fuel) integer_part temp =
    let rest = push_int fuel (integer_part / 10) ((zero_char + integer_part % 10) ∷ temp) in
    if ltb 0 integer_part then rest else temp

-- `kDigitsLut`
unfoldable pub digits_lut : List ℕ
digits_lut =
    48 ∷ 48 ∷ 48 ∷ 49 ∷ 48 ∷ 50 ∷ 48 ∷ 51 ∷ 48 ∷ 52 ∷ 48 ∷ 53 ∷ 48 ∷ 54 ∷ 48 ∷ 55 ∷ 48 ∷ 56 ∷ 48
    ∷ 57 ∷ 49 ∷ 48 ∷ 49 ∷ 49 ∷ 49 ∷ 50 ∷ 49 ∷ 51 ∷ 49 ∷ 52 ∷ 49 ∷ 53 ∷ 49 ∷ 54 ∷ 49 ∷ 55 ∷ 49 ∷ 56
    ∷ 49 ∷ 57 ∷ 50 ∷ 48 ∷ 50 ∷ 49 ∷ 50 ∷ 50 ∷ 50 ∷ 51 ∷ 50 ∷ 52 ∷ 50 ∷ 53 ∷ 50 ∷ 54 ∷ 50 ∷ 55 ∷ 50
    ∷ 56 ∷ 50 ∷ 57 ∷ 51 ∷ 48 ∷ 51 ∷ 49 ∷ 51 ∷ 50 ∷ 51 ∷ 51 ∷ 51 ∷ 52 ∷ 51 ∷ 53 ∷ 51 ∷ 54 ∷ 51 ∷ 55
    ∷ 51 ∷ 56 ∷ 51 ∷ 57 ∷ 52 ∷ 48 ∷ 52 ∷ 49 ∷ 52 ∷ 50 ∷ 52 ∷ 51 ∷ 52 ∷ 52 ∷ 52 ∷ 53 ∷ 52 ∷ 54 ∷ 52
    ∷ 55 ∷ 52 ∷ 56 ∷ 52 ∷ 57 ∷ 53 ∷ 48 ∷ 53 ∷ 49 ∷ 53 ∷ 50 ∷ 53 ∷ 51 ∷ 53 ∷ 52 ∷ 53 ∷ 53 ∷ 53 ∷ 54
    ∷ 53 ∷ 55 ∷ 53 ∷ 56 ∷ 53 ∷ 57 ∷ 54 ∷ 48 ∷ 54 ∷ 49 ∷ 54 ∷ 50 ∷ 54 ∷ 51 ∷ 54 ∷ 52 ∷ 54 ∷ 53 ∷ 54
    ∷ 54 ∷ 54 ∷ 55 ∷ 54 ∷ 56 ∷ 54 ∷ 57 ∷ 55 ∷ 48 ∷ 55 ∷ 49 ∷ 55 ∷ 50 ∷ 55 ∷ 51 ∷ 55 ∷ 52 ∷ 55 ∷ 53
    ∷ 55 ∷ 54 ∷ 55 ∷ 55 ∷ 55 ∷ 56 ∷ 55 ∷ 57 ∷ 56 ∷ 48 ∷ 56 ∷ 49 ∷ 56 ∷ 50 ∷ 56 ∷ 51 ∷ 56 ∷ 52 ∷ 56
    ∷ 53 ∷ 56 ∷ 54 ∷ 56 ∷ 55 ∷ 56 ∷ 56 ∷ 56 ∷ 57 ∷ 57 ∷ 48 ∷ 57 ∷ 49 ∷ 57 ∷ 50 ∷ 57 ∷ 51 ∷ 57 ∷ 52
    ∷ 57 ∷ 53 ∷ 57 ∷ 54 ∷ 57 ∷ 55 ∷ 57 ∷ 56 ∷ 57 ∷ 57 ∷ []

abbrev pub lut : ℕ → ℕ
lut i = get_or digits_lut i 0

-- `to_string2`, two digits at a time
abbrev pub push_pair : ℕ → List ℕ → List ℕ
push_pair n temp = lut (n % 100 * 2) ∷ lut (n % 100 * 2 + 1) ∷ temp

unfoldable pub push_frac2 : ℕ → ℕ → List ℕ → List ℕ
push_frac2 zero frac_part temp = temp
push_frac2 (suc zero) frac_part temp = (zero_char + frac_part % 10) ∷ temp
push_frac2 (suc (suc n)) frac_part temp = push_frac2 n (frac_part / 100) (push_pair frac_part temp)

abbrev pub push_last : ℕ → List ℕ → List ℕ
push_last integer_part temp =
    if ltb integer_part 10 then (zero_char + integer_part) ∷ temp else push_pair integer_part temp

unfoldable pub push_int2 : ℕ → ℕ → List ℕ → List ℕ
push_int2 zero integer_part temp = push_last integer_part temp
push_int2 (suc fuel) integer_part temp =
    let rest = push_int2 fuel (integer_part / 100) (push_pair integer_part temp) in
    if leb 100 integer_part then rest else push_last integer_part temp

-- What both do around their loops: the sign, the point, and the part of the text that the buffer holds.
abbrev pub take_bytes : ℕ → List ℕ → List ℕ
take_bytes zero str = []
take_bytes (suc n) [] = []
take_bytes (suc n) (chr ∷ str) = chr ∷ take_bytes n str

abbrev pub with_sign : ℤ → List ℕ → List ℕ
with_sign value temp = if ltb_ℤ value (pos 0) then minus_char ∷ temp else temp

abbrev pub buffered : ℕ → List ℕ → List ℕ
buffered buf_size temp =
    if leb buf_size (length temp)
    then take_bytes (buf_size - 1) temp
    else take_bytes (length temp) temp

abbrev pub max_digits : ℕ
max_digits = 64

abbrev pub trimmed : ℕ → ℤ → ℕ × ℕ
trimmed scale value = trim (count_digits max_digits scale) (abs value % scale)

abbrev pub frac_text : ℕ × ℕ → List ℕ
frac_text p = if ltb 0 p.0 then dot_char ∷ push_frac p.0 p.1 [] else []

abbrev pub frac_text2 : ℕ × ℕ → List ℕ
frac_text2 p = if ltb 0 p.0 then dot_char ∷ push_frac2 p.0 p.1 [] else []

-- The text, before it is cut to the buffer.
unfoldable pub text : ℕ → ℤ → List ℕ
text scale value =
    let temp = frac_text (trimmed scale value) in
    let integer_part = abs value / scale in
    with_sign value
      (if integer_part == 0 then zero_char ∷ temp else push_int max_digits integer_part temp)

unfoldable pub text2 : ℕ → ℤ → List ℕ
text2 scale value =
    let temp = frac_text2 (trimmed scale value) in
    let integer_part = abs value / scale in
    with_sign value (if integer_part == 0 then zero_char ∷ temp else push_int2 31 integer_part temp)

-- `to_string`, and `to_string2`
unfoldable pub to_string : ℕ → ℤ → ℕ → List ℕ
to_string scale value buf_size = if buf_size == 0 then [] else buffered buf_size (text scale value)

unfoldable pub to_string2 : ℕ → ℤ → ℕ → List ℕ
to_string2 scale value buf_size =
    if buf_size == 0 then [] else buffered buf_size (text2 scale value)
