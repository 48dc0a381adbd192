-- ===== src/Time/Scan.antt =====
-- The cursor over a timestamp's bytes, and the parser of timestamps.
use brasa.Prelude.{
  ℕ, ◌+◌, ◌-◌, [], ◌∷◌, ◌++◌, Bool, true, false, not, ◌&&◌, ◌||◌, Option, none, some, leb, ltb,
  ◌==◌, if◌then◌else◌, length, take, drop, get_elem?, codes, decimal, value_from,
}
use brasa.Prelude.Int.{ℤ, pos, ◌+ℤ◌, ◌-ℤ◌, ◌*ℤ◌, ltb_ℤ}
use brasa.Int64.{checked_add, checked_sub, checked_mul}
use brasa.Value.{Text}
use brasa.Time.{Result, ok, err, ◌>>=◌, ok_or, reject, show, civil_days, time_of_day_millis}

pub record Scan : Type 0 where
  pub text : Text
  pub at : ℕ

abbrev pub Scanned : Type 0 → Type 0
Scanned A = Result (Scan × A)

abbrev pub is_digit : ℕ → Bool
is_digit c = leb b'0' c && leb c b'9'

abbrev pub all_digits : Text → Bool
all_digits [] = true
all_digits (c ∷ cs) = is_digit c && all_digits cs

-- The digits that a text starts with: the loop that moves the cursor over digits.
unfoldable pub leading_digits : Text → Text
leading_digits [] = []
leading_digits (c ∷ cs) = let rest = leading_digits cs in if is_digit c then c ∷ rest else []

unfoldable pub peek : Scan → Option ℕ
peek s = get_elem? s.text s.at

abbrev pub is_byte : ℕ → Option ℕ → Bool
is_byte b none = false
is_byte b (some c) = c == b

abbrev pub advance : ℕ → Scan → Scan
advance n s = record s { at = s.at + n }

unfoldable pub literal : ℕ → Text → Scan → Scanned (Unit {0})
unfolding peek
literal byte expected s =
    if is_byte byte (peek s)
    then ok (advance 1 s, tt)
    else err (reject s.text (codes "expected " ++ expected))

unfoldable pub fixed : ℕ → Text → Scan → Scanned ℤ
fixed count field s =
    let digits = take count (drop s.at s.text) in
    if not (leb (s.at + count) (length s.text))
    then err (reject s.text (codes "the " ++ (field ++ codes " is cut short")))
    else if not (all_digits digits)
    then err (
        reject s.text
          (codes "the " ++ (field ++ (codes " is not " ++ (decimal count ++ codes " digits")))))
    else ok (advance count s, pos (value_from 0 digits))

-- The checked sum over the digits of a year.
unfoldable pub year_value : ℤ → Text → Option ℤ
year_value year [] = some year
year_value year (c ∷ cs) = elim (checked_mul year (pos 10)) [
  | none ↦ none
  | some shifted ↦ elim (checked_add shifted (pos (c - b'0'))) [
    | none ↦ none
    | some next ↦ year_value next cs
  ]
]

abbrev pub max_year : ℕ
max_year = 999999999

unfoldable pub year : Scan → Scanned ℤ
unfolding peek leading_digits year_value
year s =
    let negative = is_byte b'-' (peek s) in
    let start = if negative then advance 1 s else s in
    let digits = leading_digits (drop start.at start.text) in
    if length digits == 0 || (not negative && ltb (length digits) 4)
    then err (reject s.text (codes "expected a four-digit year"))
    else (ok_or (year_value (pos 0) digits)
          (reject s.text (codes "the year is too large to represent"))
        >>= λ value.
            if ltb_ℤ (pos max_year) value
            then err (reject s.text (codes "the year is too far from the epoch to represent"))
            else ok (advance (length digits) start, if negative then pos 0 -ℤ value else value))

unfoldable pub date_time_separator : Scan → Scanned (Unit {0})
unfolding peek
date_time_separator s =
    if is_byte b'T' (peek s) || is_byte b't' (peek s)
    then ok (advance 1 s, tt)
    else err (reject s.text (codes "expected `T` between the date and the time"))

unfoldable pub fraction_millis : Scan → Scanned ℤ
unfolding peek leading_digits
fraction_millis s =
    let start = advance 1 s in
    let digits = leading_digits (drop start.at start.text) in
    if not (is_byte b'.' (peek s))
    then ok (s, pos 0)
    else if length digits == 0
    then err (reject s.text (codes "expected at least one fractional-second digit"))
    else ok (advance (length digits) start, pos (value_from 0 (take 3 (digits ++ codes "000"))))

abbrev no_offset : Text
no_offset =
    codes
      "expected a `Z` or a `+HH:MM` offset (a timestamp without an offset does not name an instant)"

-- `hours` and `minutes` behind the sign, of which `negative` is the `-`.
unfoldable pub signed_offset : Bool → Scan → Scanned ℤ
unfolding fixed literal
signed_offset negative s = fixed 2 (codes "offset hour") s >>= λ (s1, hours).
    literal b':' (codes "a `:` in the offset") s1 >>= λ (s2, _).
    fixed 2 (codes "offset minute") s2 >>= λ (s3, minutes).
    if ltb_ℤ (pos 23) hours
    then err (reject s.text (codes "offset hour " ++ (show hours ++ codes " is out of range")))
    else if ltb_ℤ (pos 59) minutes
    then err (reject s.text (codes "offset minute " ++ (show minutes ++ codes " is out of range")))
    else (let total = hours *ℤ pos 60 +ℤ minutes in
        ok (s3, if negative then pos 0 -ℤ total else total))

unfoldable pub offset_minutes : Scan → Scanned ℤ
unfolding peek signed_offset
offset_minutes s =
    if is_byte b'Z' (peek s) || is_byte b'z' (peek s)
    then ok (advance 1 s, pos 0)
    else if is_byte b'+' (peek s)
    then signed_offset false (advance 1 s)
    else if is_byte b'-' (peek s)
    then signed_offset true (advance 1 s)
    else err (reject s.text no_offset)

unfoldable pub end : Scan → Result (Unit {0})
end s =
    if s.at == length s.text
    then ok tt
    else err (reject s.text (codes "unexpected text after the offset"))

-- The instant of the fields, where it is in range.
unfoldable pub instant : ℤ → ℤ → ℤ → ℤ → Option ℤ
instant days time_of_day fraction offset = elim (checked_mul days (pos 86400000)) [
  | none ↦ none
  | some day_millis ↦ elim (checked_add day_millis time_of_day) [
    | none ↦ none
    | some millis ↦ elim (checked_add millis fraction) [
      | none ↦ none
      | some local ↦ checked_sub local (offset *ℤ pos 60000)
    ]
  ]
]

unfoldable pub parse_iso : Text → Result ℤ
parse_iso text = year (record { text = text; at = 0 }) >>= λ (s1, y).
    literal b'-' (codes "a `-` after the year") s1 >>= λ (s2, _).
    fixed 2 (codes "month") s2 >>= λ (s3, month).
    literal b'-' (codes "a `-` after the month") s3 >>= λ (s4, _).
    fixed 2 (codes "day") s4 >>= λ (s5, day). date_time_separator s5 >>= λ (s6, _).
    fixed 2 (codes "hour") s6 >>= λ (s7, hour).
    literal b':' (codes "a `:` after the hour") s7 >>= λ (s8, _).
    fixed 2 (codes "minute") s8 >>= λ (s9, minute).
    literal b':' (codes "a `:` after the minute") s9 >>= λ (s10, _).
    fixed 2 (codes "second") s10 >>= λ (s11, second). fraction_millis s11 >>= λ (s12, fraction).
    offset_minutes s12 >>= λ (s13, offset). end s13 >>= λ _. civil_days text y month day >>= λ days.
    time_of_day_millis text hour minute second >>= λ time_of_day.
    ok_or (instant days time_of_day fraction offset)
      (reject text (codes "the instant is too far from the epoch to represent"))
