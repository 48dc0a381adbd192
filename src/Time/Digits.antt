-- ===== src/Time/Digits.antt =====
-- Numbers padded with zeros, as digits.
use brasa.Prelude.{
  ℕ, zero, suc, ◌+◌, ◌/◌, ◌%◌, ◌^◌, ◌≤◌, ◌<◌, ◌≡◌, refl, ap, ◌∙◌, [], ◌∷◌, ◌++◌, true, false,
  length, length-append, replicate, length-replicate, digits, decimal, value_from, value-decimal,
  arith,
}
use brasa.Value.{Text}
use brasa.Time.Scan.{is_digit, all_digits, leading_digits}

all_digits-append :
    (xs ys : Text) → all_digits xs ≡ true → all_digits ys ≡ true → all_digits (xs ++ ys) ≡ true
all_digits-append [] ys h k = k
all_digits-append (x ∷ xs) ys h k = ground (arith, all_digits-append xs ys)

all_digits-digits : (fuel n : ℕ) → all_digits (digits fuel n) ≡ true
unfolding digits
all_digits-digits zero n = refl
all_digits-digits (suc fuel) n =
    let last : all_digits ((48 + n % 10) ∷ []) ≡ true = ground arith in
    let more =
      all_digits-append (digits fuel (n / 10)) ((48 + n % 10) ∷ [])
        (all_digits-digits fuel (n / 10)) last in
    ground arith

pub all_digits-decimal : (n : ℕ) → all_digits (decimal n) ≡ true
unfolding decimal
all_digits-decimal n = all_digits-digits (suc n) n

all_digits-replicate : (k : ℕ) → all_digits (replicate k b'0') ≡ true
all_digits-replicate zero = refl
all_digits-replicate (suc k) = all_digits-replicate k

value_from-replicate : (k : ℕ) (ds : Text) → value_from 0 (replicate k b'0' ++ ds) ≡ value_from 0 ds
value_from-replicate zero ds = refl
value_from-replicate (suc k) ds = value_from-replicate k ds

-- `decimal n` behind `k` zeros.
abbrev pub zeros_before : ℕ → ℕ → Text
zeros_before k n = replicate k b'0' ++ decimal n

pub all_digits-zeros_before : (k n : ℕ) → all_digits (zeros_before k n) ≡ true
all_digits-zeros_before k n =
    all_digits-append (replicate k b'0') (decimal n) (all_digits-replicate k) (all_digits-decimal n)

pub value_from-zeros_before : (k n : ℕ) → value_from 0 (zeros_before k n) ≡ n
value_from-zeros_before k n = value_from-replicate k (decimal n) ∙ value-decimal n

pub length-decimal_pos : (n : ℕ) → 1 ≤ length (decimal n)
unfolding decimal digits
length-decimal_pos n = ground (arith, length-append (digits n (n / 10)) ((48 + n % 10) ∷ []))

length-digits : (fuel n k : ℕ) → n < 10 ^ suc k → length (digits fuel n) ≤ suc k
unfolding digits
length-digits zero n k h = omega arith
length-digits (suc fuel) n zero h = ground arith
length-digits (suc fuel) n (suc k) h =
    let rest = length-digits fuel (n / 10) k (omega arith) in
    ground (arith, length-append (digits fuel (n / 10)) ((48 + n % 10) ∷ []))

pub length-decimal : (n k : ℕ) → n < 10 ^ suc k → length (decimal n) ≤ suc k
unfolding decimal
length-decimal n k h = length-digits (suc n) n k h

pub length-zeros_before : (k n : ℕ) → length (zeros_before k n) ≡ k + length (decimal n)
length-zeros_before k n =
    omega (arith, length-append (replicate k b'0') (decimal n), length-replicate {A = ℕ} k b'0')

-- The digits in front of a byte that is none.
pub leading_digits-append :
    (ds rest : Text) (c : ℕ)
    → all_digits ds ≡ true
    → is_digit c ≡ false
    → leading_digits (ds ++ c ∷ rest) ≡ ds
unfolding leading_digits
leading_digits-append [] rest c h n = ground arith
leading_digits-append (d ∷ ds) rest c h n =
    let first : is_digit d ≡ true = ground arith in
    let others : all_digits ds ≡ true = ground arith in
    rw first (ap (λ z. d ∷ z) (leading_digits-append ds rest c others n))
