-- ===== src/Time/Calendar.antt =====
-- The arithmetic of the calendar, within an era of 400 years and across eras.
use brasa.Prelude.{
  ℕ, ◌+◌, ◌-◌, ◌*◌, ◌/◌, ◌%◌, ◌≤◌, ◌<◌, ◌≡◌, refl, arith, ◌⊎◌, inl, inr, Bool, true, false, ltb,
  ◌==◌, ◌&&◌, ◌||◌, not, if◌then◌else◌,
}
use brasa.Prelude.Int.{ℤ, pos, negsuc, ◌+ℤ◌, ◌-ℤ◌, ◌*ℤ◌, ltb_ℤ, eqb_ℤ}
use brasa.Int64.{tdiv, tmod, magnitude}
use brasa.Time.{floor_by, is_leap, days_in_month}

-- The year, the day of the year, the month from March on and the day of a day of an era.
abbrev pub year_of : ℕ → ℕ
year_of d = (d - d / 1460 + d / 36524 - d / 146096) / 365

abbrev pub year_start : ℕ → ℕ
year_start y = 365 * y + y / 4 - y / 100

abbrev pub day_of_year : ℕ → ℕ
day_of_year d = d - year_start (year_of d)

abbrev pub month_from_march : ℕ → ℕ
month_from_march w = (5 * w + 2) / 153

abbrev pub month_of : ℕ → ℕ
month_of m = if ltb m 10 then m + 3 else m - 9

abbrev pub month_start : ℕ → ℕ
month_start m = (153 * m + 2) / 5

abbrev pub day_of : ℕ → ℕ
day_of w = w - month_start (month_from_march w) + 1

-- March 1st starts a year, so its last day is February 29th, where there is one.
abbrev pub ends_leap : ℕ → Bool
ends_leap y = ((y + 1) % 4 == 0) && (not ((y + 1) % 100 == 0) || ((y + 1) % 400 == 0))

pub year_of_bounds :
    (d : ℕ)
    → d < 146097
    → (year_of d < 400) × (year_start (year_of d) ≤ d) × (d ≤ year_start (year_of d) + 365)
year_of_bounds d h = omega arith

pub year_of_leap :
    (d : ℕ) → d < 146097 → d ≡ year_start (year_of d) + 365 → ends_leap (year_of d) ≡ true
year_of_leap d h e = ground arith

pub month_bounds :
    (w : ℕ) → w ≤ 365 → (month_from_march w < 12) × (month_start (month_from_march w) ≤ w)
month_bounds w h = omega arith

-- The era and the day in it of a day.
pub record InEra (k : ℕ) (z : ℤ) : Type 0 where
  pub era : ℤ
  pub day : ℕ
  pub below : day < k
  pub sum : z ≡ era *ℤ pos k +ℤ pos day
  pub floor : floor_by k z ≡ era

pub in_era : (z : ℤ) → InEra 146097 z
unfolding floor_by tdiv ◌+ℤ◌ ◌*ℤ◌ ◌-ℤ◌
in_era (pos n) = record {
  era = pos (n / 146097);
  day = n % 146097;
  below = omega arith;
  sum = ground arith;
  floor = ground arith;
}
in_era (negsuc n) = record {
  era = negsuc (n / 146097);
  day = 146096 - n % 146097;
  below = omega arith;
  sum = ground arith;
  floor = ground arith;
}

pub floor_400 : (e : ℤ) (y : ℕ) → y < 400 → floor_by 400 (pos y +ℤ e *ℤ pos 400) ≡ e
unfolding floor_by tdiv ◌+ℤ◌ ◌*ℤ◌ ◌-ℤ◌
floor_400 (pos n) y h = ground arith
floor_400 (negsuc n) y h = ground arith

pub tmod_zero : (x : ℤ) (k : ℕ) → eqb_ℤ (tmod x (pos k)) (pos 0) ≡ (magnitude x % k == 0)
unfolding tmod
tmod_zero (pos n) k = ground arith
tmod_zero (negsuc n) k = ground arith

-- A year's number modulo the length of an era, by its year of the era.
abbrev pub InEraYear : ℕ → ℕ → Type 0
InEraYear m y = ((n : ℕ) × (m ≡ 400 * n + y + 1)) ⊎ ((n : ℕ) × (m + y + 1 ≡ 400 * n))

pub magnitude_in_era :
    (e : ℤ) (y : ℕ) → y < 400 → InEraYear (magnitude (pos y +ℤ e *ℤ pos 400 +ℤ pos 1)) y
unfolding ◌+ℤ◌ ◌*ℤ◌
magnitude_in_era (pos n) y h = inl (n, ground arith)
magnitude_in_era (negsuc n) y h = inr (n + 1, ground arith)

pub ends_leap_by :
    (m y : ℕ)
    → InEraYear m y
    → ((m % 4 == 0) && (not (m % 100 == 0) || (m % 400 == 0))) ≡ ends_leap y
ends_leap_by m y (inl (n, e)) =
    let a : (m % 4 == 0) ≡ ((y + 1) % 4 == 0) = ground arith in
    let b : (m % 100 == 0) ≡ ((y + 1) % 100 == 0) = ground arith in
    let c : (m % 400 == 0) ≡ ((y + 1) % 400 == 0) = ground arith in rw a (rw b (rw c refl))
ends_leap_by m y (inr (n, e)) =
    let a : (m % 4 == 0) ≡ ((y + 1) % 4 == 0) = ground arith in
    let b : (m % 100 == 0) ≡ ((y + 1) % 100 == 0) = ground arith in
    let c : (m % 400 == 0) ≡ ((y + 1) % 400 == 0) = ground arith in rw a (rw b (rw c refl))

pub leap_in_era : (e : ℤ) (y : ℕ) → y < 400 → is_leap (pos y +ℤ e *ℤ pos 400 +ℤ pos 1) ≡ ends_leap y
unfolding is_leap
leap_in_era e y h =
    let x = pos y +ℤ e *ℤ pos 400 +ℤ pos 1 in
    rw (tmod_zero x 4) (
      rw (tmod_zero x 100)
        (rw (tmod_zero x 400) (ends_leap_by (magnitude x) y (magnitude_in_era e y h))))

pub day_exists :
    (w : ℕ) (year : ℤ)
    → w ≤ 365
    → (w ≡ 365 → is_leap year ≡ true)
    → ltb_ℤ (days_in_month year (pos (month_of (month_from_march w)))) (pos (day_of w)) ≡ false
unfolding days_in_month
day_exists w year h leap = ground arith
