-- ===== src/Int64.antt =====
-- The checked arithmetic of Rust's `i64`: an integer in the range of 64 bits, or no result.
use native.Mathlib.Nat.{div-add-mod', mod-lt}
use brasa.Prelude.{
  ℕ, zero, suc, ◌<◌, ◌/◌, ◌%◌, ◌+◌, ◌*◌, Bool, false, ◌==◌, ◌>>=◌, ◌-◌, ◌^◌, ◌≤◌, ◌≡◌, Option, none,
  some, leb, ◌&&◌, if◌then◌else◌, arith,
}
use brasa.Prelude.Int.{◌-ℤ◌, ◌*ℤ◌, sub_ℕ, ℤ, pos, pos_part, neg_part, ◌+ℤ◌, negsuc}

abbrev pub max_i64 : ℕ
max_i64 = 2 ^ 63 - 1

abbrev pub IsI64 : ℤ → Type 0
IsI64 a = (pos_part a ≤ max_i64) × (neg_part a ≤ 2 ^ 63)

-- The exact result, where it is in range.
unfoldable pub checked : ℤ → Option ℤ
checked a = if leb (pos_part a) max_i64 && leb (neg_part a) (2 ^ 63) then some a else none

unfoldable pub checked_add : ℤ → ℤ → Option ℤ
unfolding checked
checked_add a b = checked (a +ℤ b)

pub checked-some : (a b : ℤ) → checked a ≡ some b → (a ≡ b) × IsI64 b
unfolding checked
checked-some a b e = ground arith

pub checked_add-some : (a b c : ℤ) → checked_add a b ≡ some c → (a +ℤ b ≡ c) × IsI64 c
unfolding checked_add
checked_add-some a b c e = checked-some (a +ℤ b) c e

-- Only the largest int has no successor.
pub checked_add-one_none : (a : ℤ) → IsI64 a → checked_add a (pos 1) ≡ none → a ≡ pos max_i64
unfolding checked_add checked ◌+ℤ◌
checked_add-one_none (pos n) v e = ground arith
checked_add-one_none (negsuc n) v e = ground arith

abbrev pub is_zero : ℤ → Bool
is_zero (pos n) = n == 0
is_zero (negsuc n) = false

unfoldable pub checked_sub : ℤ → ℤ → Option ℤ
unfolding checked
checked_sub a b = checked (a -ℤ b)

unfoldable pub checked_mul : ℤ → ℤ → Option ℤ
unfolding checked
checked_mul a b = checked (a *ℤ b)

-- The quotient rounds toward zero, and the remainder has the sign of the dividend.
unfoldable pub tdiv : ℤ → ℤ → ℤ
tdiv (pos m) (pos n) = pos (m / n)
tdiv (pos m) (negsuc n) = sub_ℕ 0 (m / suc n)
tdiv (negsuc m) (pos n) = sub_ℕ 0 (suc m / n)
tdiv (negsuc m) (negsuc n) = pos (suc m / suc n)

unfoldable pub tmod : ℤ → ℤ → ℤ
tmod (pos m) (pos n) = pos (m % n)
tmod (pos m) (negsuc n) = pos (m % suc n)
tmod (negsuc m) (pos n) = sub_ℕ 0 (suc m % n)
tmod (negsuc m) (negsuc n) = sub_ℕ 0 (suc m % suc n)

-- No result for a zero divisor or a quotient out of range, for the remainder too.
unfoldable pub checked_div : ℤ → ℤ → Option ℤ
unfolding checked
checked_div a b = if is_zero b then none else checked (tdiv a b)

unfoldable pub checked_rem : ℤ → ℤ → Option ℤ
unfolding checked
checked_rem a b = if is_zero b then none else (checked (tdiv a b) >>= λ q. checked (tmod a b))

abbrev pub magnitude : ℤ → ℕ
magnitude a = pos_part a + neg_part a

-- A product and a remainder of numbers with signs add up as the numbers do.
div_sum : (m n : ℕ) → 0 < n → (m / n * n + m % n ≡ m) × (m % n < n)
div_sum m n h = (div-add-mod' m n, mod-lt m h)

pub tdiv-tmod :
    (a b : ℤ)
    → 0 < magnitude b
    → (a ≡ tdiv a b *ℤ b +ℤ tmod a b) × (magnitude (tmod a b) < magnitude b)
unfolding tdiv tmod ◌*ℤ◌ ◌+ℤ◌
tdiv-tmod (pos m) (pos n) h = let law = div_sum m n (omega arith) in ground arith
tdiv-tmod (pos m) (negsuc n) h = let law = div_sum m (suc n) (omega arith) in ground arith
tdiv-tmod (negsuc m) (pos n) h = let law = div_sum (suc m) n (omega arith) in ground arith
tdiv-tmod (negsuc m) (negsuc n) h = let law = div_sum (suc m) (suc n) (omega arith) in ground arith

abbrev pub min_i64 : ℤ
min_i64 = negsuc max_i64

-- A divisor of two or more at least halves a number.
div_small : (m n : ℕ) → 1 < n → m / n * 2 ≤ m
div_small m zero h = absurd (omega arith)
div_small m (suc zero) h = absurd (omega arith)
div_small m (suc (suc k)) h = let law = div_sum m (suc (suc k)) (omega arith) in omega arith

div_one : (m : ℕ) → m / 1 ≡ m
div_one m = omega arith

-- Only the quotient of the smallest int by -1 is out of range.
pub checked_div-none :
    (a b : ℤ)
    → IsI64 a
    → IsI64 b
    → 0 < magnitude b
    → checked_div a b ≡ none
    → (a ≡ min_i64) × (b ≡ negsuc 0)
unfolding checked_div checked tdiv
checked_div-none (pos m) (pos zero) u v h e = absurd (omega arith)
checked_div-none (pos m) (pos (suc zero)) u v h e = absurd (ground arith)
checked_div-none (pos m) (pos (suc (suc k))) u v h e =
    let small = div_small m (suc (suc k)) (omega arith) in absurd (ground arith)
checked_div-none (pos m) (negsuc zero) u v h e = absurd (ground arith)
checked_div-none (pos m) (negsuc (suc k)) u v h e =
    let small = div_small m (suc (suc k)) (omega arith) in absurd (ground arith)
checked_div-none (negsuc m) (pos zero) u v h e = absurd (omega arith)
checked_div-none (negsuc m) (pos (suc zero)) u v h e = absurd (ground arith)
checked_div-none (negsuc m) (pos (suc (suc k))) u v h e =
    let small = div_small (suc m) (suc (suc k)) (omega arith) in absurd (ground arith)
checked_div-none (negsuc m) (negsuc zero) u v h e = ground arith
checked_div-none (negsuc m) (negsuc (suc k)) u v h e =
    let small = div_small (suc m) (suc (suc k)) (omega arith) in absurd (ground arith)

pub checked-IsI64 : (a : ℤ) → IsI64 a → checked a ≡ some a
unfolding checked
checked-IsI64 a v = ground arith

pub magnitude-le : (b : ℤ) → IsI64 b → magnitude b ≤ 2 ^ 63
magnitude-le (pos n) v = omega arith
magnitude-le (negsuc n) v = omega arith
