-- ===== src/Time/Reading.antt =====
-- What each step of the scanner makes of the text behind its cursor.
use brasa.Prelude.{
  ℕ, ◌+◌, ◌-◌, ◌*◌, ◌≤◌, ◌≡◌, refl, ap, subst, codes, ◌∙◌, [], ◌∷◌, ◌++◌, true, false, leb, ltb,
  ◌==◌, length, length-append, take, drop, take-append, drop-append, get_elem?-append_head,
  value_from, arith, some,
}
use mathlib.Core.List.{append_assoc}
use brasa.Prelude.Int.{pos, ◌+ℤ◌, ◌-ℤ◌, ◌*ℤ◌, ltb_ℤ}
use brasa.Int64.{checked, checked-IsI64, checked_add, checked_mul, max_i64}
use brasa.Value.{Text}
use brasa.Time.{Result, ok, ◌>>=◌}
use brasa.Time.Scan.{
  Scan, Scanned, advance, peek, is_byte, is_digit, all_digits, literal, fixed, year, year_value,
  max_year, date_time_separator, fraction_millis, offset_minutes, end,
}
use brasa.Time.Digits.{leading_digits-append}

-- The cursor between `front` and `rest`.
abbrev pub cursor : Text → Text → Scan
cursor front rest = record { text = front ++ rest; at = length front }

-- In front of `r`, the step answers `a` and stands in front of `r'`.
pub record Reads {A : Type 0} (step : Scan → Scanned A) (a : A) (r r' : Text) : Type 0 where
  pub run : (front : Text) → (front' : Text) × (step (cursor front r) ≡ ok (cursor front' r', a))

-- In front of `r`, `k` ends with `v`.
pub record Ends {B : Type 0} (k : Scan → Result B) (v : Result B) (r : Text) : Type 0 where
  pub run : (front : Text) → k (cursor front r) ≡ v

pub Ends-bind :
    {A B : Type 0} {step : Scan → Scanned A} {a : A} {r r' : Text} {v : Result B}
    (next : Scan × A → Result B)
    → Reads step a r r'
    → Ends (λ s. next (s, a)) v r'
    → Ends (λ s. step s >>= next) v r
Ends-bind next d e = record {
  run = λ front. let (front', same) = d.run front in ap (λ z. z >>= next) same ∙ e.run front';
}

-- Moving over `xs`.
pub advance-cursor :
    (front xs rest : Text)
    → advance (length xs) (cursor front (xs ++ rest)) ≡ cursor (front ++ xs) rest
advance-cursor front xs rest = rw (length-append front xs) (rw (append_assoc front xs rest) refl)

pub peek-cursor : (front rest : Text) (c : ℕ) → peek (cursor front (c ∷ rest)) ≡ some c
unfolding peek
peek-cursor front rest c = get_elem?-append_head front rest c

is_byte_self : (b : ℕ) → is_byte b (some b) ≡ true
is_byte_self b = ground arith

pub literal-Reads : (b : ℕ) (expected rest : Text) → Reads (literal b expected) tt (b ∷ rest) rest
unfolding literal
literal-Reads b expected rest = record {
  run = λ front. (
    front ++ b ∷ [],
    rw (peek-cursor front rest b)
        (rw (is_byte_self b) (ap (λ s. ok (s, tt)) (advance-cursor front (b ∷ []) rest))),
  );
}

pub date_time_separator-Reads : (rest : Text) → Reads date_time_separator tt (b'T' ∷ rest) rest
unfolding date_time_separator
date_time_separator-Reads rest = record {
  run = λ front. (
    front ++ b'T' ∷ [],
    rw (peek-cursor front rest b'T') (ap (λ s. ok (s, tt)) (advance-cursor front (b'T' ∷ []) rest)),
  );
}

pub offset_minutes-Reads : (rest : Text) → Reads offset_minutes (pos 0) (b'Z' ∷ rest) rest
unfolding offset_minutes
offset_minutes-Reads rest = record {
  run = λ front. (
    front ++ b'Z' ∷ [],
    rw (peek-cursor front rest b'Z')
        (ap (λ s. ok (s, pos 0)) (advance-cursor front (b'Z' ∷ []) rest)),
  );
}

pub end-Ends : Ends end (ok tt) []
unfolding end
end-Ends = record { run = λ front. ground (arith, length-append front []) }

drop_front : (front ds rest : Text) → drop (length front) (front ++ (ds ++ rest)) ≡ ds ++ rest
drop_front front ds rest = drop-append front (ds ++ rest)

pub fixed-Reads :
    (count : ℕ) (field ds rest : Text)
    → length ds ≡ count
    → all_digits ds ≡ true
    → Reads (fixed count field) (pos (value_from 0 ds)) (ds ++ rest) rest
unfolding fixed
fixed-Reads count field ds rest e h = record {
  run = λ front.
      let fits : leb (length front + length ds) (length (front ++ (ds ++ rest))) ≡ true =
        ground (arith, length-append front (ds ++ rest), length-append ds rest) in
      (
        front ++ ds,
        rw (← e) (
            rw fits (
              rw (drop_front front ds rest) (
                rw (take-append ds rest) (
                  rw h (ap (λ s. ok (s, pos (value_from 0 ds))) (advance-cursor front ds rest)))))),
      );
}

value_from_ge : (a : ℕ) (ds : Text) → a ≤ value_from a ds
value_from_ge a [] = omega arith
value_from_ge a (d ∷ ds) = omega (arith, value_from_ge (a * 10 + (d - b'0')) ds)

checked_mul-fits : (a b : ℕ) → a * b ≤ max_i64 → checked_mul (pos a) (pos b) ≡ some (pos (a * b))
unfolding checked_mul ◌*ℤ◌
checked_mul-fits a b h =
    let product : pos a *ℤ pos b ≡ pos (a * b) = ground arith in
    ap checked product ∙ checked-IsI64 (pos (a * b)) (h, omega arith)

checked_add-fits : (a b : ℕ) → a + b ≤ max_i64 → checked_add (pos a) (pos b) ≡ some (pos (a + b))
unfolding checked_add ◌+ℤ◌
checked_add-fits a b h =
    let sum : pos a +ℤ pos b ≡ pos (a + b) = ground arith in
    ap checked sum ∙ checked-IsI64 (pos (a + b)) (h, omega arith)

year_value_fits :
    (a : ℕ) (ds : Text)
    → value_from a ds ≤ max_i64
    → year_value (pos a) ds ≡ some (pos (value_from a ds))
unfolding year_value
year_value_fits a [] h = refl
year_value_fits a (d ∷ ds) h =
    let grows = value_from_ge (a * 10 + (d - b'0')) ds in
    let product = checked_mul-fits a 10 (omega arith) in
    let sum = checked_add-fits (a * 10) (d - b'0') (omega arith) in
    rw (product, year_value) (rw (sum, year_value) (year_value_fits (a * 10 + (d - b'0')) ds h))

-- A year of four digits or more, before a byte that is no digit.
pub year-Reads :
    (ds rest : Text) (c : ℕ)
    → all_digits ds ≡ true
    → 4 ≤ length ds
    → value_from 0 ds ≤ max_year
    → is_digit c ≡ false
    → Reads year (pos (value_from 0 ds)) (ds ++ c ∷ rest) (c ∷ rest)
unfolding year
year-Reads [] rest c h four small n = absurd (omega arith)
year-Reads (d ∷ ds) rest c h four small n = record {
  run = λ front.
      let positive : is_byte b'-' (some d) ≡ false = ground arith in
      let some_digits : (length (d ∷ ds) == 0) ≡ false = ground arith in
      let enough : ltb (length (d ∷ ds)) 4 ≡ false = ground arith in
      let near : ltb_ℤ (pos max_year) (pos (value_from 0 (d ∷ ds))) ≡ false = ground arith in
      (
        front ++ d ∷ ds,
        rw (peek-cursor front (ds ++ c ∷ rest) d) (
            rw positive (
              rw (drop-append front ((d ∷ ds) ++ c ∷ rest)) (
                rw (leading_digits-append (d ∷ ds) rest c h n) (
                  rw (some_digits, enough)
                    (rw (year_value_fits 0 (d ∷ ds) (omega arith)) (
                      rw near (
                        ap (λ s. ok (s, pos (value_from 0 (d ∷ ds))))
                          (advance-cursor front (d ∷ ds) (c ∷ rest))))))))),
      );
}

-- Over one byte, then over `ds`.
advance_over :
    (front ds rest : Text) (b : ℕ)
    → advance (length ds) (advance 1 (cursor front (b ∷ (ds ++ rest))))
      ≡ cursor ((front ++ b ∷ []) ++ ds) rest
advance_over front ds rest b =
    ap (advance (length ds)) (advance-cursor front (b ∷ []) (ds ++ rest))
    ∙ advance-cursor (front ++ b ∷ []) ds rest

drop_over : (front rest : Text) (b : ℕ) → drop (length front + 1) (front ++ b ∷ rest) ≡ rest
drop_over front rest b =
    let one = ap (λ s. drop s.at s.text) (advance-cursor front (b ∷ []) rest) in
    one ∙ drop-append (front ++ b ∷ []) rest

-- A year behind a `-`, which may have fewer digits.
pub year-Reads_negative :
    (ds rest : Text) (c : ℕ)
    → all_digits ds ≡ true
    → 1 ≤ length ds
    → value_from 0 ds ≤ max_year
    → is_digit c ≡ false
    → Reads year (pos 0 -ℤ pos (value_from 0 ds)) (b'-' ∷ (ds ++ c ∷ rest)) (c ∷ rest)
unfolding year
year-Reads_negative ds rest c h one small n = record {
  run = λ front.
      let some_digits : (length ds == 0) ≡ false = ground arith in
      let near : ltb_ℤ (pos max_year) (pos (value_from 0 ds)) ≡ false = ground arith in
      let front' = front ++ b'-' ∷ [] in
      (
        front' ++ ds,
        rw (peek-cursor front (ds ++ c ∷ rest) b'-') (
            rw (drop_over front (ds ++ c ∷ rest) b'-') (
              rw (leading_digits-append ds rest c h n) (
                rw some_digits (
                  rw (year_value_fits 0 ds (omega arith)) (
                    rw near (
                      ap (λ s. ok (s, pos 0 -ℤ pos (value_from 0 ds)))
                        (advance_over front ds (c ∷ rest) b'-'))))))),
      );
}

-- A fraction of three digits, before a byte that is no digit.
pub fraction_millis-Reads :
    (ds rest : Text) (c : ℕ)
    → all_digits ds ≡ true
    → length ds ≡ 3
    → is_digit c ≡ false
    → Reads fraction_millis (pos (value_from 0 ds)) (b'.' ∷ (ds ++ c ∷ rest)) (c ∷ rest)
unfolding fraction_millis
fraction_millis-Reads ds rest c h three n = record {
  run = λ front.
      let front' = front ++ b'.' ∷ [] in
      let some_digits : (length ds == 0) ≡ false = ground arith in
      let whole : take 3 (ds ++ codes "000") ≡ ds =
        subst (λ k. take k (ds ++ codes "000") ≡ ds) three (take-append ds (codes "000")) in
      (
        front' ++ ds,
        rw (peek-cursor front (ds ++ c ∷ rest) b'.') (
            rw (drop_over front (ds ++ c ∷ rest) b'.') (
              rw (leading_digits-append ds rest c h n) (
                rw some_digits (
                  rw whole (
                    ap (λ s. ok (s, pos (value_from 0 ds)))
                      (advance_over front ds (c ∷ rest) b'.')))))),
      );
}
