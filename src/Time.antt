-- ===== src/Time.antt =====
-- crates/brasa_runtime/src/time_glue.rs: a timestamp in milliseconds since the epoch as ISO-8601 text,
-- and back. A text is its bytes. Every sum and product of the calendar stays far inside 64 bits, so
-- the arithmetic is exact, except where the source checks it. An error carries the timestamp and the
-- detail that its message quotes.
pub mod Scan
pub mod Calendar
pub mod Civil
pub mod Digits
pub mod Reading
pub mod RoundTrip
mod Tests
use brasa.Prelude.{
  ℕ, zero, suc, ◌+◌, ◌-◌, ◌*◌, ◌/◌, ◌%◌, List, [], ◌∷◌, ◌++◌, Bool, true, false, not, ◌&&◌, ◌||◌,
  Option, none, some, leb, ltb, ◌==◌, if◌then◌else◌, length, take, drop, replicate, get_elem?,
  codes, decimal,
}
use brasa.Prelude.Int.{
  ℤ, pos, negsuc, ◌+ℤ◌, ◌-ℤ◌, ◌*ℤ◌, ltb_ℤ, leb_ℤ, eqb_ℤ, div_euclid, rem_euclid,
}
use brasa.Int64.{tdiv, tmod, checked_add, checked_sub, checked_mul}
use brasa.Value.{Text}

pub record TimeError : Type 0 where
  pub name : Text
  pub text : Text
  pub detail : Text

pub data Result (A : Type 0) : Type 0 where
  ok : A → Result A
  err : TimeError → Result A

infixl 5 ◌>>=◌ ◌>>◌
abbrev pub ◌>>=◌ : {A B : Type 0} → Result A → (A → Result B) → Result B
ok a >>= f = f a
err e >>= f = err e

abbrev pub ◌>>◌ : {B : Type 0} → Result (Unit {0}) → Result B → Result B
m >> k = m >>= λ _. k

abbrev pub ok_or : {A : Type 0} → Option A → TimeError → Result A
ok_or (some a) e = ok a
ok_or none e = err e

unfoldable pub reject : Text → Text → TimeError
reject text detail = record { name = codes "time.ParseError"; text = text; detail = detail }

-- A number in a message.
abbrev pub show : ℤ → Text
show (pos n) = decimal n
show (negsuc n) = b'-' ∷ decimal (suc n)

-- The calendar.

-- `if x >= 0 { x } else { x - (k - 1) } / k`
unfoldable pub floor_by : ℕ → ℤ → ℤ
floor_by k x = tdiv (if leb_ℤ (pos 0) x then x else x -ℤ pos (k - 1)) (pos k)

unfoldable pub civil_from_days : ℤ → ℤ × ℤ × ℤ
civil_from_days days =
    let z = days +ℤ pos 719468 in
    let era = floor_by 146097 z in
    let doe = z -ℤ era *ℤ pos 146097 in
    let yoe =
      tdiv (doe -ℤ tdiv doe (pos 1460) +ℤ tdiv doe (pos 36524) -ℤ tdiv doe (pos 146096))
        (pos 365) in
    let year = yoe +ℤ era *ℤ pos 400 in
    let doy = doe -ℤ (pos 365 *ℤ yoe +ℤ tdiv yoe (pos 4) -ℤ tdiv yoe (pos 100)) in
    let mp = tdiv (pos 5 *ℤ doy +ℤ pos 2) (pos 153) in
    let day = doy -ℤ tdiv (pos 153 *ℤ mp +ℤ pos 2) (pos 5) +ℤ pos 1 in
    let month = if ltb_ℤ mp (pos 10) then mp +ℤ pos 3 else mp -ℤ pos 9 in
    (if leb_ℤ month (pos 2) then year +ℤ pos 1 else year, month, day)

unfoldable pub is_leap : ℤ → Bool
is_leap year =
    eqb_ℤ (tmod year (pos 4)) (pos 0)
    && (not (eqb_ℤ (tmod year (pos 100)) (pos 0)) || eqb_ℤ (tmod year (pos 400)) (pos 0))

abbrev is_any : ℤ → List ℕ → Bool
is_any month [] = false
is_any month (m ∷ ms) = eqb_ℤ month (pos m) || is_any month ms

unfoldable pub days_in_month : ℤ → ℤ → ℤ
days_in_month year month =
    if is_any month (1 ∷ 3 ∷ 5 ∷ 7 ∷ 8 ∷ 10 ∷ 12 ∷ [])
    then pos 31
    else if is_any month (4 ∷ 6 ∷ 9 ∷ 11 ∷ [])
    then pos 30
    else if is_leap year
    then pos 29
    else pos 28

-- The days since the epoch of a date that exists.
unfoldable pub days_of : ℤ → ℤ → ℤ → ℤ
days_of year month day =
    let shifted = year -ℤ (if leb_ℤ month (pos 2) then pos 1 else pos 0) in
    let era = floor_by 400 shifted in
    let yoe = shifted -ℤ era *ℤ pos 400 in
    let mp = if ltb_ℤ (pos 2) month then month -ℤ pos 3 else month +ℤ pos 9 in
    let doy = tdiv (pos 153 *ℤ mp +ℤ pos 2) (pos 5) +ℤ day -ℤ pos 1 in
    let doe = yoe *ℤ pos 365 +ℤ tdiv yoe (pos 4) -ℤ tdiv yoe (pos 100) +ℤ doy in
    era *ℤ pos 146097 +ℤ doe -ℤ pos 719468

unfoldable pub civil_days : Text → ℤ → ℤ → ℤ → Result ℤ
civil_days text year month day =
    if not (leb_ℤ (pos 1) month && leb_ℤ month (pos 12))
    then err (reject text (codes "month " ++ (show month ++ codes " is out of range")))
    else if ltb_ℤ day (pos 1) || ltb_ℤ (days_in_month year month) day
    then err (
        reject text (
          codes "day "
          ++ (show day
              ++ (codes " does not exist in month "
                  ++ (show month ++ (codes " of year " ++ show year))))))
    else ok (days_of year month day)

unfoldable pub time_of_day_millis : Text → ℤ → ℤ → ℤ → Result ℤ
time_of_day_millis text hour minute second =
    if ltb_ℤ (pos 23) hour
    then err (reject text (codes "hour " ++ (show hour ++ codes " is out of range")))
    else if ltb_ℤ (pos 59) minute
    then err (reject text (codes "minute " ++ (show minute ++ codes " is out of range")))
    else if ltb_ℤ (pos 59) second
    then err (
        reject text (
          codes "second "
          ++ (show second ++ codes " is out of range (leap seconds have no epoch timestamp)")))
    else ok (hour *ℤ pos 3600000 +ℤ minute *ℤ pos 60000 +ℤ second *ℤ pos 1000)

-- Rendering. `{n:0w}` pads behind the sign, which counts as one of the `w` columns.
unfoldable pub padded : ℕ → ℤ → Text
padded w (pos n) = replicate (w - length (decimal n)) b'0' ++ decimal n
padded w (negsuc n) = b'-' ∷ (replicate (w - 1 - length (decimal (suc n))) b'0' ++ decimal (suc n))

unfoldable pub iso_utc : ℤ → Text
iso_utc epoch_millis =
    let days = div_euclid epoch_millis 86400000 in
    let ms_of_day = rem_euclid epoch_millis 86400000 in
    let (year, month, day) = civil_from_days days in
    let hour = tdiv ms_of_day (pos 3600000) in
    let minute = tdiv (tmod ms_of_day (pos 3600000)) (pos 60000) in
    let second = tdiv (tmod ms_of_day (pos 60000)) (pos 1000) in
    let millis = tmod ms_of_day (pos 1000) in
    padded 4 year
    ++ (b'-'
        ∷ (padded 2 month
            ++ (b'-'
                ∷ (padded 2 day
                    ++ (b'T'
                        ∷ (padded 2 hour
                            ++ (b':'
                                ∷ (padded 2 minute
                                    ++ (b':'
                                        ∷ (padded 2 second
                                            ++ (b'.' ∷ (padded 3 millis ++ b'Z' ∷ []))))))))))))
