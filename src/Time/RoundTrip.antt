-- ===== src/Time/RoundTrip.antt =====
-- What the parser of timestamps makes of a rendered timestamp.
use brasa.Prelude.{
  ℕ, suc, ◌+◌, ◌-◌, ◌*◌, ◌/◌, ◌%◌, ◌^◌, ◌≤◌, ◌<◌, ◌≡◌, refl, sym, ap, subst, ◌∙◌, [], ◌∷◌, ◌++◌,
  length, decimal, codes, arith, some, none,
}
use brasa.Prelude.Int.{
  ℤ, pos, negsuc, pos_part, neg_part, ◌+ℤ◌, ◌-ℤ◌, ◌*ℤ◌, ◌≤ℤ◌, div_euclid, rem_euclid, int_laws,
}
use brasa.Int64.{
  IsI64, checked, checked-IsI64, magnitude-le, checked_add, checked_sub, checked_mul, magnitude,
  tdiv, tmod,
}
use brasa.Value.{Text}
use brasa.Time.{
  Result, ok, err, ◌>>=◌, ok_or, reject, padded, iso_utc, civil_days, time_of_day_millis,
}
use brasa.Time.Scan.{fixed, year, fraction_millis, instant, max_year, parse_iso}
use brasa.Time.Digits.{
  zeros_before, all_digits-zeros_before, value_from-zeros_before, length-zeros_before,
  length-decimal, length-decimal_pos,
}
use brasa.Time.Reading.{
  Reads, Ends-bind, literal-Reads, date_time_separator-Reads, offset_minutes-Reads, end-Ends,
  fixed-Reads, year-Reads, year-Reads_negative, fraction_millis-Reads,
}
use brasa.Time.Civil.{civil_date, civil_days_of, civil_days-civil_from_days}

length-padded : (w n : ℕ) → n < 10 ^ suc w → length (padded (suc w) (pos n)) ≡ suc w
unfolding padded
length-padded w n h =
    omega (arith, length-zeros_before (suc w - length (decimal n)) n, length-decimal n w h)

two-Reads :
    (field rest : Text) (k : ℕ)
    → k < 100
    → Reads (fixed 2 field) (pos k) (padded 2 (pos k) ++ rest) rest
unfolding padded
two-Reads field rest k h =
    let zeros = 2 - length (decimal k) in
    subst (λ v. Reads (fixed 2 field) (pos v) (padded 2 (pos k) ++ rest) rest)
      (value_from-zeros_before zeros k)
      (fixed-Reads 2 field (padded 2 (pos k)) rest (length-padded 1 k (omega arith))
        (all_digits-zeros_before zeros k))

three-Reads :
    (k : ℕ)
    → k < 1000
    → Reads fraction_millis (pos k) (b'.' ∷ (padded 3 (pos k) ++ b'Z' ∷ [])) (b'Z' ∷ [])
unfolding padded
three-Reads k h =
    let zeros = 3 - length (decimal k) in
    subst (λ v. Reads fraction_millis (pos v) (b'.' ∷ (padded 3 (pos k) ++ b'Z' ∷ [])) (b'Z' ∷ []))
      (value_from-zeros_before zeros k)
      (fraction_millis-Reads (padded 3 (pos k)) [] b'Z' (all_digits-zeros_before zeros k)
        (length-padded 2 k (omega arith)) refl)

negated : (n : ℕ) → pos 0 -ℤ pos (suc n) ≡ negsuc n
unfolding ◌-ℤ◌
negated n = ground arith

year_text-Reads :
    (y : ℤ) (rest : Text)
    → magnitude y ≤ max_year
    → Reads year y (padded 4 y ++ b'-' ∷ rest) (b'-' ∷ rest)
unfolding padded
year_text-Reads (pos n) rest h =
    let zeros = 4 - length (decimal n) in
    let v = value_from-zeros_before zeros n in
    subst (λ v. Reads year (pos v) (padded 4 (pos n) ++ b'-' ∷ rest) (b'-' ∷ rest)) v
      (year-Reads (zeros_before zeros n) rest b'-' (all_digits-zeros_before zeros n)
        (omega (arith, length-zeros_before zeros n)) (omega arith) refl)
year_text-Reads (negsuc n) rest h =
    let zeros = 4 - 1 - length (decimal (suc n)) in
    let v = value_from-zeros_before zeros (suc n) in
    subst (λ v. Reads year v (padded 4 (negsuc n) ++ b'-' ∷ rest) (b'-' ∷ rest))
      (ap (λ k. pos 0 -ℤ pos k) v ∙ negated n)
      (year-Reads_negative (zeros_before zeros (suc n)) rest b'-'
        (all_digits-zeros_before zeros (suc n))
        (omega (arith, length-zeros_before zeros (suc n), length-decimal_pos (suc n))) (omega arith)
        refl)

-- The text of the fields of a timestamp.
abbrev stamp : ℤ → ℕ → ℕ → ℕ → ℕ → ℕ → ℕ → Text
stamp y month day hour minute second millis =
    padded 4 y
    ++ (b'-'
        ∷ (padded 2 (pos month)
            ++ (b'-'
                ∷ (padded 2 (pos day)
                    ++ (b'T'
                        ∷ (padded 2 (pos hour)
                            ++ (b':'
                                ∷ (padded 2 (pos minute)
                                    ++ (b':'
                                        ∷ (padded 2 (pos second)
                                            ++ (b'.'
                                                ∷ (padded 3 (pos millis) ++ b'Z' ∷ []))))))))))))

abbrev too_far : Text
too_far = codes "the instant is too far from the epoch to represent"

-- The part of the parser behind its scanner.
abbrev convert : Text → ℤ → ℤ → ℤ → ℤ → ℤ → ℤ → ℤ → ℤ → Result ℤ
convert text y month day hour minute second fraction offset =
    civil_days text y month day >>= λ days.
    time_of_day_millis text hour minute second >>= λ time_of_day.
    ok_or (instant days time_of_day fraction offset) (reject text too_far)

parse_iso-stamp :
    (y : ℤ) (month day hour minute second millis : ℕ)
    → magnitude y ≤ max_year
    → month < 100
    → day < 100
    → hour < 100
    → minute < 100
    → second < 100
    → millis < 1000
    → let text = stamp y month day hour minute second millis in
      parse_iso text
      ≡ convert text y
          (pos month)
          (pos day)
          (pos hour)
          (pos minute)
          (pos second)
          (pos millis)
          (pos 0)
unfolding parse_iso
parse_iso-stamp y month day hour minute second millis hy hm hd hh hi hs hf =
    (Ends-bind _ (year_text-Reads y _ hy) (
        Ends-bind _ (literal-Reads b'-' _ _) (
          Ends-bind _ (two-Reads _ _ month hm) (
            Ends-bind _ (literal-Reads b'-' _ _) (
              Ends-bind _ (two-Reads _ _ day hd) (
                Ends-bind _ (date_time_separator-Reads _) (
                  Ends-bind _ (two-Reads _ _ hour hh) (
                    Ends-bind _ (literal-Reads b':' _ _) (
                      Ends-bind _ (two-Reads _ _ minute hi) (
                        Ends-bind _ (literal-Reads b':' _ _) (
                          Ends-bind _ (two-Reads _ _ second hs) (
                            Ends-bind _ (three-Reads millis hf) (
                              Ends-bind _ (offset_minutes-Reads []) (record {
                                run = λ front.
                                    ap
                                      (λ z. z >>= λ _.
                                        convert (stamp y month day hour minute second millis) y
                                          (pos month) (pos day) (pos hour) (pos minute) (pos second)
                                          (pos millis) (pos 0))
                                      (end-Ends.run front);
                              })))))))))))))).run
      []

-- The day of an instant and the milliseconds in it.
record InDay (n : ℤ) : Type 0 where
  left : ℕ
  rest : rem_euclid n 86400000 ≡ pos left
  below : left < 86400000
  sum : div_euclid n 86400000 *ℤ pos 86400000 +ℤ pos left ≡ n
  near : magnitude (div_euclid n 86400000) * 86400000 ≤ magnitude n + 86400000

in_day : (n : ℤ) → InDay n
unfolding div_euclid rem_euclid ◌*ℤ◌ ◌+ℤ◌
in_day (pos k) = record {
  left = k % 86400000;
  rest = refl;
  below = omega arith;
  sum = ground arith;
  near = omega arith;
}
in_day (negsuc k) = record {
  left = 86399999 - k % 86400000;
  rest = refl;
  below = omega arith;
  sum = ground arith;
  near = omega arith;
}

abbrev millis_of : ℕ → ℕ
millis_of r = r / 3600000 * 3600000 + r % 3600000 / 60000 * 60000 + r % 60000 / 1000 * 1000

time_of_day-ok :
    (text : Text) (r : ℕ)
    → r < 86400000
    → time_of_day_millis text
        (pos (r / 3600000))
        (pos (r % 3600000 / 60000))
        (pos (r % 60000 / 1000))
      ≡ ok (pos (millis_of r))
unfolding time_of_day_millis ◌+ℤ◌ ◌*ℤ◌
time_of_day-ok text r h = ground arith

iso_utc-stamp :
    (n : ℤ)
    → let d = civil_date (div_euclid n 86400000) in
      let r = (in_day n).left in
      iso_utc n
      ≡ stamp d.year d.month d.day (r / 3600000) (r % 3600000 / 60000) (r % 60000 / 1000) (r % 1000)
unfolding iso_utc tdiv tmod
iso_utc-stamp n = rw (civil_date (div_euclid n 86400000)).civil (rw (in_day n).rest refl)

-- A rendered timestamp is read as the instant of its day and its time of day.
parse_iso-instant :
    (n : ℤ)
    → IsI64 n
    → let r = (in_day n).left in
      parse_iso (iso_utc n)
      ≡ ok_or
          (instant (div_euclid n 86400000) (pos (millis_of r)) (pos (r % 1000)) (pos 0))
          (reject (iso_utc n) too_far)
parse_iso-instant n v =
    let day = in_day n in
    let r = day.left in
    let days = div_euclid n 86400000 in
    let d = civil_date days in
    let text = iso_utc n in
    let below = day.below in
    let near = day.near in
    let far = d.near in
    let bounded = magnitude-le n v in
    let fields =
      parse_iso-stamp d.year d.month d.day (r / 3600000) (r % 3600000 / 60000) (r % 60000 / 1000)
        (r % 1000) (omega arith) d.month_small d.day_small (omega arith) (omega arith) (omega arith)
        (omega arith) in
    let dated : civil_days text d.year (pos d.month) (pos d.day) ≡ ok days =
      ap (civil_days_of text) (sym d.civil) ∙ civil_days-civil_from_days text days in
    subst
      (λ t.
        parse_iso t
        ≡ convert t d.year (pos d.month) (pos d.day) (pos (r / 3600000)) (pos (r % 3600000 / 60000))
            (pos (r % 60000 / 1000)) (pos (r % 1000)) (pos 0))
      (sym (iso_utc-stamp n)) fields
    ∙ (ap
          (λ z. z >>= λ e.
            time_of_day_millis text (pos (r / 3600000)) (pos (r % 3600000 / 60000))
              (pos (r % 60000 / 1000))
            >>= λ t. ok_or (instant e t (pos (r % 1000)) (pos 0)) (reject text too_far))
          dated
        ∙ ap (λ z. z >>= λ t. ok_or (instant days t (pos (r % 1000)) (pos 0)) (reject text too_far))
            (time_of_day-ok text r below))

-- The first instant of a day of which every instant is in range.
abbrev pub first_day : ℤ
first_day = negsuc 9223372036828799999

-- A partial sum towards `n`.
between :
    (x : ℤ) (a b : ℕ) (n : ℤ) → IsI64 x → IsI64 n → x +ℤ pos a +ℤ pos b ≡ n → IsI64 (x +ℤ pos a)
unfolding ◌+ℤ◌
between (pos k) a b n u v e = ground arith
between (negsuc k) a b n u v e = ground arith

no_millis : (pos_part (pos 0 *ℤ pos 60000) ≡ 0) × (neg_part (pos 0 *ℤ pos 60000) ≡ 0)
unfolding ◌*ℤ◌
no_millis = (refl, refl)

no_offset : (n : ℤ) → IsI64 n → checked (n -ℤ pos 0 *ℤ pos 60000) ≡ some n
no_offset n v =
    let nothing : n -ℤ pos 0 *ℤ pos 60000 ≡ n = (let zero_offset = no_millis in omega int_laws) in
    ap checked nothing ∙ checked-IsI64 n v

int_parts : {a b : ℤ} → a ≡ b → (pos_part a ≡ pos_part b) × (neg_part a ≡ neg_part b)
int_parts e = (ap pos_part e, ap neg_part e)

instant-ok :
    (d n : ℤ) (a b r : ℕ)
    → a + b ≡ r
    → IsI64 n
    → IsI64 (d *ℤ pos 86400000)
    → d *ℤ pos 86400000 +ℤ pos r ≡ n
    → instant d (pos a) (pos b) (pos 0) ≡ some n
unfolding instant checked_mul checked_add checked_sub
instant-ok d n a b r e v w s =
    let start = d *ℤ pos 86400000 in
    let known = int_parts s in
    let total : start +ℤ pos a +ℤ pos b ≡ n = omega int_laws in
    let middle : IsI64 (start +ℤ pos a) = between start a b n w v total in
    rw (checked-IsI64 start w, instant)
      (rw (checked-IsI64 (start +ℤ pos a) middle, instant)
        (rw total (rw (checked-IsI64 n v, instant) (no_offset n v))))

day_in_range : (n : ℤ) → IsI64 n → first_day ≤ℤ n → IsI64 (div_euclid n 86400000 *ℤ pos 86400000)
unfolding div_euclid ◌*ℤ◌
day_in_range (pos k) v h = ground arith
day_in_range (negsuc k) v h = ground arith

day_out_of_range :
    (n : ℤ) → n +ℤ pos 1 ≤ℤ first_day → checked (div_euclid n 86400000 *ℤ pos 86400000) ≡ none
unfolding div_euclid ◌*ℤ◌ ◌+ℤ◌ checked
day_out_of_range (pos k) h = absurd (ground arith)
day_out_of_range (negsuc k) h = ground arith

-- From the first whole day that 64 bits can number, a rendered timestamp is read back unchanged.
pub parse_iso-iso_utc : (n : ℤ) → IsI64 n → first_day ≤ℤ n → parse_iso (iso_utc n) ≡ ok n
parse_iso-iso_utc n v h =
    let day = in_day n in
    let r = day.left in
    let whole =
      instant-ok (div_euclid n 86400000) n (millis_of r) (r % 1000) r (omega arith) v
        (day_in_range n v h) day.sum in
    parse_iso-instant n v ∙ ap (λ o. ok_or o (reject (iso_utc n) too_far)) whole

-- Before that day every rendered timestamp is refused as too far from the epoch.
pub parse_iso-iso_utc_before :
    (n : ℤ)
    → IsI64 n
    → n +ℤ pos 1 ≤ℤ first_day
    → parse_iso (iso_utc n)
      ≡ err (reject (iso_utc n) (codes "the instant is too far from the epoch to represent"))
unfolding instant checked_mul
parse_iso-iso_utc_before n v h = parse_iso-instant n v ∙ rw (day_out_of_range n h, instant) refl
