-- ===== src/Token/Tests.antt =====
-- Literals and keywords.
use brasa.Prelude.{◌≡◌, refl, some, none, [], ◌∷◌, codes, decimal, digits, text_eq}
use brasa.Prelude.Int.{pos}
use brasa.Int64.{checked}
use brasa.Token.{
  keyword, find_keyword, catch_all_kw, parse_int, parse_cleaned, prefixed, from_str_radix,
  radix_value, or_overflow, ok, err, no_digits, overflow,
}
use brasa.Token.Numbers.{parse_int-decimal}
use brasa.Token.Escapes.{
  unescape_string_text_checked, unescape_from, escape_at, keep_char, decode_escape, len_utf8,
}

run_keyword : keyword (codes "catch!") ≡ some catch_all_kw
unfolding keyword find_keyword text_eq
run_keyword = refl

run_no_keyword : keyword (codes "iffy") ≡ none
unfolding keyword find_keyword text_eq
run_no_keyword = refl

run_hex : parse_int (codes "0xFF_AB") ≡ ok (pos 65451)
unfolding parse_int parse_cleaned prefixed from_str_radix radix_value or_overflow checked
run_hex = refl

run_binary : parse_int (codes "0b__") ≡ err no_digits
unfolding parse_int parse_cleaned prefixed
run_binary = refl

run_too_large : parse_int (codes "99999999999999999999") ≡ err overflow
unfolding parse_int parse_cleaned from_str_radix radix_value or_overflow checked
run_too_large = refl

run_unescape :
    unescape_string_text_checked (codes "a\\qb")
    ≡ (codes "aqb", record { offset = 1; escaped = b'q' } ∷ [])
unfolding unescape_string_text_checked unescape_from escape_at keep_char decode_escape len_utf8
run_unescape = refl

parse_int-decimal_example : parse_int (codes "1_000") ≡ ok (pos 1000)
unfolding decimal digits
parse_int-decimal_example = parse_int-decimal (codes "1_000") 1000 refl
