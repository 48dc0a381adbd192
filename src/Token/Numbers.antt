-- ===== src/Token/Numbers.antt =====
-- What `parse_int` makes of a decimal literal.
use brasa.Prelude.{
  ℕ, ◌+◌, ◌*◌, ◌-◌, ◌≤◌, ◌≡◌, refl, ap, ◌∙◌, true, false, some, [], ◌∷◌, ◌==◌, leb, if◌then◌else◌,
  length, decimal, value_from, value-decimal, arith,
}
use brasa.Prelude.Int.{pos}
use brasa.Int64.{checked, max_i64}
use brasa.Value.{Text}
use brasa.Time.Scan.{is_digit, all_digits}
use brasa.Time.Digits.{all_digits-decimal, length-decimal_pos}
use brasa.Token.{
  radix_value, from_str_radix, to_digit, or_overflow, parse_cleaned, parse_int, IntResult, ok, err,
  overflow, without_separators,
}

to_digit-is_digit : (c : ℕ) → is_digit c ≡ true → to_digit 10 c ≡ some (c - 48)
to_digit-is_digit c h = ground arith

radix_value-all_digits :
    (acc : ℕ) (ds : Text) → all_digits ds ≡ true → radix_value 10 acc ds ≡ some (value_from acc ds)
unfolding radix_value
radix_value-all_digits acc [] h = refl
radix_value-all_digits acc (d ∷ ds) h =
    let first : is_digit d ≡ true = ground arith in
    let others : all_digits ds ≡ true = ground arith in
    rw (to_digit-is_digit d first) (radix_value-all_digits (acc * 10 + (d - 48)) ds others)

abbrev int_of : ℕ → IntResult
int_of n = if leb n max_i64 then ok (pos n) else err overflow

or_overflow-checked : (n : ℕ) → or_overflow (checked (pos n)) ≡ int_of n
unfolding or_overflow checked
or_overflow-checked n = ground arith

from_str_radix-all_digits :
    (ds : Text)
    → 1 ≤ length ds
    → all_digits ds ≡ true
    → from_str_radix 10 ds ≡ checked (pos (value_from 0 ds))
unfolding from_str_radix
from_str_radix-all_digits [] l h = absurd (omega arith)
from_str_radix-all_digits (c ∷ []) l h = rw (radix_value-all_digits 0 (c ∷ []) h) refl
from_str_radix-all_digits (c ∷ d ∷ ds) l h =
    let minus : (c == b'-') ≡ false = ground arith in
    let plus : (c == b'+') ≡ false = ground arith in
    rw (minus, plus, radix_value-all_digits 0 (c ∷ d ∷ ds) h) refl

parse_cleaned-unprefixed :
    (c d : ℕ) (ds : Text)
    → (d == b'x') ≡ false
    → (d == b'b') ≡ false
    → parse_cleaned (c ∷ d ∷ ds) ≡ or_overflow (from_str_radix 10 (c ∷ d ∷ ds))
unfolding parse_cleaned
parse_cleaned-unprefixed c d ds hex binary = ground arith

parse_cleaned-all_digits :
    (ds : Text) → 1 ≤ length ds → all_digits ds ≡ true → parse_cleaned ds ≡ int_of (value_from 0 ds)
unfolding parse_cleaned
parse_cleaned-all_digits [] l h = absurd (omega arith)
parse_cleaned-all_digits (c ∷ []) l h =
    ap or_overflow (from_str_radix-all_digits (c ∷ []) l h)
    ∙ or_overflow-checked (value_from 0 (c ∷ []))
parse_cleaned-all_digits (c ∷ d ∷ ds) l h =
    let hex : (d == b'x') ≡ false = ground arith in
    let binary : (d == b'b') ≡ false = ground arith in
    parse_cleaned-unprefixed c d ds hex binary
    ∙ (ap or_overflow (from_str_radix-all_digits (c ∷ d ∷ ds) l h)
        ∙ or_overflow-checked (value_from 0 (c ∷ d ∷ ds)))

-- A literal that is the decimal rendering of a number once its `_` are dropped, wherever they stand, is
-- read as that number up to 2^63 - 1, and is an overflow beyond.
pub parse_int-decimal :
    (text : Text) (n : ℕ)
    → without_separators text ≡ decimal n
    → parse_int text ≡ (if leb n max_i64 then ok (pos n) else err overflow)
unfolding parse_int
parse_int-decimal text n e =
    ap parse_cleaned e
    ∙ (parse_cleaned-all_digits (decimal n) (length-decimal_pos n) (all_digits-decimal n)
        ∙ ap int_of (value-decimal n))
