-- ===== src/Time/Civil.antt =====
-- The civil date of a day exists, and its day is that day.
use brasa.Prelude.{
  ℕ, ◌+◌, ◌-◌, ◌*◌, ◌≤◌, ◌<◌, ◌≡◌, refl, sym, ap, ◌∙◌, arith, inl, inr, Bool-cases, Bool, true,
  false, ltb, ◌&&◌, if◌then◌else◌,
}
use brasa.Prelude.Int.{ℤ, pos, negsuc, pos_part, neg_part, ◌+ℤ◌, ◌-ℤ◌, ◌*ℤ◌, leb_ℤ, ltb_ℤ, int_laws}
use brasa.Int64.{tdiv, magnitude}
use brasa.Time.{floor_by, civil_from_days, is_leap, days_of, civil_days, Result, ok}
use brasa.Value.{Text}
use brasa.Time.Calendar.{
  year_of, year_start, day_of_year, month_from_march, month_of, month_start, day_of, year_of_bounds,
  year_of_leap, month_bounds, in_era, floor_400, leap_in_era, day_exists,
}

-- The civil date of the day `d` of the era `e`.
abbrev civil_of : ℤ → ℕ → ℤ × ℤ × ℤ
civil_of e d =
    let year = pos (year_of d) +ℤ e *ℤ pos 400 in
    let m = month_from_march (day_of_year d) in
    (if ltb m 10 then year else year +ℤ pos 1, pos (month_of m), pos (day_of (day_of_year d)))

era_day :
    (days e : ℤ) (d : ℕ)
    → days +ℤ pos 719468 ≡ e *ℤ pos 146097 +ℤ pos d
    → days +ℤ pos 719468 -ℤ e *ℤ pos 146097 ≡ pos d
era_day days e d h = omega (int_laws, ap pos_part h, ap neg_part h)

year_in_ℤ :
    (d : ℕ)
    → d < 146097
    → tdiv
        (pos d -ℤ tdiv (pos d) (pos 1460) +ℤ tdiv (pos d) (pos 36524) -ℤ tdiv (pos d) (pos 146096))
        (pos 365)
      ≡ pos (year_of d)
unfolding tdiv ◌+ℤ◌ ◌-ℤ◌
year_in_ℤ d h = ground arith

day_in_ℤ :
    (d y : ℕ)
    → year_start y ≤ d
    → pos d -ℤ (pos 365 *ℤ pos y +ℤ tdiv (pos y) (pos 4) -ℤ tdiv (pos y) (pos 100))
      ≡ pos (d - year_start y)
unfolding tdiv ◌+ℤ◌ ◌-ℤ◌ ◌*ℤ◌
day_in_ℤ d y h = ground arith

month_in_ℤ : (w : ℕ) → tdiv (pos 5 *ℤ pos w +ℤ pos 2) (pos 153) ≡ pos (month_from_march w)
unfolding tdiv ◌+ℤ◌ ◌*ℤ◌
month_in_ℤ w = ground arith

month_day_in_ℤ :
    (w m : ℕ)
    → month_start m ≤ w
    → pos w -ℤ tdiv (pos 153 *ℤ pos m +ℤ pos 2) (pos 5) +ℤ pos 1 ≡ pos (w - month_start m + 1)
unfolding tdiv ◌+ℤ◌ ◌-ℤ◌ ◌*ℤ◌
month_day_in_ℤ w m h = ground arith

month_number_in_ℤ :
    (m : ℕ) → (if ltb_ℤ (pos m) (pos 10) then pos m +ℤ pos 3 else pos m -ℤ pos 9) ≡ pos (month_of m)
unfolding ◌+ℤ◌ ◌-ℤ◌
month_number_in_ℤ m = ground arith

-- January and February belong to the next year.
late_year :
    (m : ℕ) (year month day : ℤ)
    → m < 12
    → ◌≡◌ {A = ℤ × ℤ × ℤ}
        (if leb_ℤ (pos (month_of m)) (pos 2) then year +ℤ pos 1 else year, month, day)
        (if ltb m 10 then year else year +ℤ pos 1, month, day)
late_year m year month day h = ground arith

civil_from_days-civil_of :
    (days e : ℤ) (d : ℕ)
    → d < 146097
    → days +ℤ pos 719468 ≡ e *ℤ pos 146097 +ℤ pos d
    → floor_by 146097 (days +ℤ pos 719468) ≡ e
    → civil_from_days days ≡ civil_of e d
unfolding civil_from_days
civil_from_days-civil_of days e d below sum floor =
    let y = year_of d in
    let w = day_of_year d in
    let m = month_from_march w in
    let inside = year_of_bounds d below in
    let months = month_bounds w (omega arith) in
    rw floor (
      rw (era_day days e d sum) (
        rw (year_in_ℤ d below) (
          rw (day_in_ℤ d y inside.1) (
            rw (month_in_ℤ w) (
              rw (month_number_in_ℤ m) (
                rw (month_day_in_ℤ w m months.1)
                  (late_year m (pos y +ℤ e *ℤ pos 400) _ _ months.0)))))))

-- The year that `days_of` counts from March.
shifted_year :
    (m : ℕ) (year : ℤ)
    → m < 12
    → (if ltb m 10 then year else year +ℤ pos 1)
        -ℤ (if leb_ℤ (pos (month_of m)) (pos 2) then pos 1 else pos 0)
      ≡ year
shifted_year m year h = elim (Bool-cases (ltb m 10)) [
  | inl early ↦
      let later : leb_ℤ (pos (month_of m)) (pos 2) ≡ false = ground arith in
      rw later (rw early (omega int_laws))
  | inr late ↦
      let sooner : leb_ℤ (pos (month_of m)) (pos 2) ≡ true = ground arith in
      rw sooner (rw late (omega int_laws))
]

years_of_era : (e : ℤ) (y : ℕ) → pos y +ℤ e *ℤ pos 400 -ℤ e *ℤ pos 400 ≡ pos y
years_of_era e y = omega int_laws

month_back_in_ℤ :
    (m : ℕ)
    → m < 12
    → (if ltb_ℤ (pos 2) (pos (month_of m))
        then pos (month_of m) -ℤ pos 3
        else pos (month_of m) +ℤ pos 9)
      ≡ pos m
unfolding ◌+ℤ◌ ◌-ℤ◌
month_back_in_ℤ m h = ground arith

day_back_in_ℤ :
    (w m : ℕ)
    → month_start m ≤ w
    → tdiv (pos 153 *ℤ pos m +ℤ pos 2) (pos 5) +ℤ pos (w - month_start m + 1) -ℤ pos 1 ≡ pos w
unfolding tdiv ◌+ℤ◌ ◌-ℤ◌ ◌*ℤ◌
day_back_in_ℤ w m h = ground arith

era_day_back_in_ℤ :
    (d y : ℕ)
    → year_start y ≤ d
    → pos y *ℤ pos 365 +ℤ tdiv (pos y) (pos 4) -ℤ tdiv (pos y) (pos 100) +ℤ pos (d - year_start y)
      ≡ pos d
unfolding tdiv ◌+ℤ◌ ◌-ℤ◌ ◌*ℤ◌
era_day_back_in_ℤ d y h = ground arith

abbrev pub civil_days_of : Text → ℤ × ℤ × ℤ → Result ℤ
civil_days_of text (year, month, day) = civil_days text year month day

-- A date as a triple.
abbrev pub days_of_date : ℤ × ℤ × ℤ → ℤ
days_of_date (year, month, day) = days_of year month day

days_of-civil_of :
    (e : ℤ) (d : ℕ)
    → d < 146097
    → days_of_date (civil_of e d) ≡ e *ℤ pos 146097 +ℤ pos d -ℤ pos 719468
unfolding days_of
days_of-civil_of e d below =
    let y = year_of d in
    let w = day_of_year d in
    let m = month_from_march w in
    let inside = year_of_bounds d below in
    let months = month_bounds w (omega arith) in
    rw (shifted_year m (pos y +ℤ e *ℤ pos 400) months.0) (
      rw (floor_400 e y inside.0) (
        rw (years_of_era e y) (
          rw (month_back_in_ℤ m months.0)
            (rw (day_back_in_ℤ w m months.1) (rw (era_day_back_in_ℤ d y inside.1) refl)))))

last_day_leap : (e : ℤ) (d : ℕ) → d < 146097 → day_of_year d ≡ 365 → is_leap (civil_of e d).0 ≡ true
last_day_leap e d below last =
    let y = year_of d in
    let inside = year_of_bounds d below in
    let late : ltb (month_from_march (day_of_year d)) 10 ≡ false = ground arith in
    rw late (leap_in_era e y inside.0 ∙ year_of_leap d below (omega arith))

civil_days-civil_of :
    (text : Text) (e : ℤ) (d : ℕ)
    → d < 146097
    → civil_days_of text (civil_of e d) ≡ ok (days_of_date (civil_of e d))
unfolding civil_days
civil_days-civil_of text e d below =
    let w = day_of_year d in
    let m = month_from_march w in
    let inside = year_of_bounds d below in
    let months = month_bounds w (omega arith) in
    let some_month : leb_ℤ (pos 1) (pos (month_of m)) && leb_ℤ (pos (month_of m)) (pos 12) ≡ true =
      ground arith in
    let first : ltb_ℤ (pos (day_of w)) (pos 1) ≡ false = ground arith in
    let exists = day_exists w (civil_of e d).0 (omega arith) (last_day_leap e d below) in
    rw some_month (rw first (rw exists refl))

-- The civil date of a day exists, and its day is that day.
pub civil_days-civil_from_days :
    (text : Text) (days : ℤ) → civil_days_of text (civil_from_days days) ≡ ok days
civil_days-civil_from_days text days =
    let z = in_era (days +ℤ pos 719468) in
    rw (civil_from_days-civil_of days z.era z.day z.below z.sum z.floor) (
      civil_days-civil_of text z.era z.day z.below
      ∙ ap ok (
          days_of-civil_of z.era z.day z.below
          ∙ (ap (λ t. t -ℤ pos 719468) (sym z.sum) ∙ omega int_laws)))

-- The date of a day in numbers: two digits are enough for its month and its day.
pub record IsDate (days : ℤ) : Type 0 where
  pub year : ℤ
  pub month : ℕ
  pub day : ℕ
  pub civil : civil_from_days days ≡ (year, pos month, pos day)
  pub month_small : month < 100
  pub day_small : day < 100
  pub near : magnitude year * 365 ≤ magnitude days + 1100000

magnitude-+ℤ : (a b : ℤ) → magnitude (a +ℤ b) ≤ magnitude a + magnitude b
unfolding ◌+ℤ◌
magnitude-+ℤ a b = ground arith

magnitude--ℤ : (a b : ℤ) → magnitude (a -ℤ b) ≤ magnitude a + magnitude b
unfolding ◌-ℤ◌
magnitude--ℤ a b = ground arith

magnitude-*ℤ : (e : ℤ) (k : ℕ) → magnitude (e *ℤ pos k) ≤ magnitude e * k
unfolding ◌*ℤ◌
magnitude-*ℤ (pos n) k = ground arith
magnitude-*ℤ (negsuc n) k = ground arith

magnitude_era : (e : ℤ) → magnitude e * 146097 ≤ magnitude (e *ℤ pos 146097)
unfolding ◌*ℤ◌
magnitude_era (pos n) = ground arith
magnitude_era (negsuc n) = ground arith

year_near :
    (days e : ℤ) (d y : ℕ)
    → d < 146097
    → y < 400
    → days +ℤ pos 719468 ≡ e *ℤ pos 146097 +ℤ pos d
    → (early : Bool)
    → magnitude (if early then pos y +ℤ e *ℤ pos 400 else pos y +ℤ e *ℤ pos 400 +ℤ pos 1) * 365
      ≤ magnitude days + 1100000
year_near days e d y h k s early =
    let back : e *ℤ pos 146097 ≡ days +ℤ pos 719468 -ℤ pos d =
      omega (int_laws, ap pos_part s, ap neg_part s) in
    let far = ap magnitude back in
    let eras = magnitude_era e in
    let sum = magnitude-+ℤ days (pos 719468) in
    let difference = magnitude--ℤ (days +ℤ pos 719468) (pos d) in
    let years = magnitude-*ℤ e 400 in
    let plain = magnitude-+ℤ (pos y) (e *ℤ pos 400) in
    let next = magnitude-+ℤ (pos y +ℤ e *ℤ pos 400) (pos 1) in
    let bound : (magnitude e * 400 + 400) * 365 ≤ magnitude days + 1100000 = omega arith in
    ground arith

pub civil_date : (days : ℤ) → IsDate days
civil_date days =
    let z = in_era (days +ℤ pos 719468) in
    let d = z.day in
    let w = day_of_year d in
    let inside = year_of_bounds d z.below in
    let months = month_bounds w (omega arith) in
    record {
      year = (civil_of z.era d).0;
      month = month_of (month_from_march w);
      day = day_of w;
      civil = civil_from_days-civil_of days z.era d z.below z.sum z.floor;
      month_small = ground arith;
      day_small = omega arith;
      near =
          year_near days z.era d (year_of d) z.below inside.0 z.sum (ltb (month_from_march w) 10);
    }
