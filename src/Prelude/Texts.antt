-- ===== src/Prelude/Texts.antt =====
-- Texts as their bytes: the literals of the source, and the decimal rendering of a number.
use Prim.Native.Nat.{ℕ, zero, suc, ◌+◌, ◌*◌, ◌-◌, ◌/◌, ◌%◌, ◌<◌}
use mathlib.Core.Bool.{Bool, true, false, ◌&&◌}
use Prim.Native.Char.{code}
use Prim.Native.String.{String}
use mathlib.Core.Path.{◌≡◌, refl, ap, ◌∙◌}
use mathlib.Core.Logic.{inl, inr}
use mathlib.Core.List.{List, [], ◌∷◌, ◌++◌}
use native.Mathlib.Omega.{arith}
use brasa.Prelude.Tests.{◌==◌, if◌then◌else◌, Bool-cases}

-- The bytes of a literal, which is ASCII.
abbrev pub codes : String → List ℕ
codes String.[] = []
codes (String.◌∷◌ c s) = code c ∷ codes s

-- The digits of `n` for a fuel of `n` and one more.
unfoldable pub digits : ℕ → ℕ → List ℕ
digits zero n = []
digits (suc fuel) n =
    let rest = digits fuel (n / 10) in
    if n / 10 == 0 then (48 + n % 10) ∷ [] else rest ++ (48 + n % 10) ∷ []

unfoldable pub decimal : ℕ → List ℕ
unfolding digits
decimal n = digits (suc n) n

-- The value of digits behind those of `v`.
abbrev pub value_from : ℕ → List ℕ → ℕ
value_from v [] = v
value_from v (c ∷ cs) = value_from (v * 10 + (c - 48)) cs

value_from-append :
    (v : ℕ) (xs : List ℕ) (c : ℕ) → value_from v (xs ++ c ∷ []) ≡ value_from v xs * 10 + (c - 48)
value_from-append v [] c = refl
value_from-append v (x ∷ xs) c = value_from-append (v * 10 + (x - 48)) xs c

digits-last : (fuel n : ℕ) → (n / 10 == 0) ≡ true → digits (suc fuel) n ≡ (48 + n % 10) ∷ []
unfolding digits
digits-last fuel n e = rw e refl

digits-more :
    (fuel n : ℕ)
    → (n / 10 == 0) ≡ false
    → digits (suc fuel) n ≡ digits fuel (n / 10) ++ (48 + n % 10) ∷ []
unfolding digits
digits-more fuel n e = rw e refl

value-digits : (fuel n : ℕ) → n < fuel → value_from 0 (digits fuel n) ≡ n
value-digits zero n h = absurd (omega arith)
value-digits (suc fuel) n h = elim (Bool-cases (n / 10 == 0)) [
  | inl e ↦ ap (value_from 0) (digits-last fuel n e) ∙ ground arith
  | inr e ↦
      ap (value_from 0) (digits-more fuel n e)
      ∙ (value_from-append 0 (digits fuel (n / 10)) (48 + n % 10)
          ∙ (ap (λ v. v * 10 + (48 + n % 10 - 48)) (value-digits fuel (n / 10) (ground arith))
              ∙ omega arith))
]

-- The rendering of a number reads back as the number.
pub value-decimal : (n : ℕ) → value_from 0 (decimal n) ≡ n
unfolding decimal
value-decimal n = value-digits (suc n) n (omega arith)

-- The equality of two texts.
unfoldable pub text_eq : List ℕ → List ℕ → Bool
text_eq [] [] = true
text_eq [] (y ∷ ys) = false
text_eq (x ∷ xs) [] = false
text_eq (x ∷ xs) (y ∷ ys) = x == y && text_eq xs ys

pub text_eq_refl : (xs : List ℕ) → text_eq xs xs ≡ true
unfolding text_eq
text_eq_refl [] = refl
text_eq_refl (x ∷ xs) = ground (arith, text_eq_refl xs)

pub eq_of_text_eq : (xs ys : List ℕ) → text_eq xs ys ≡ true → xs ≡ ys
unfolding text_eq
eq_of_text_eq [] [] e = refl
eq_of_text_eq [] (y ∷ ys) e = cc
eq_of_text_eq (x ∷ xs) [] e = cc
eq_of_text_eq (x ∷ xs) (y ∷ ys) e =
    let first : x ≡ y = ground arith in let others = eq_of_text_eq xs ys (ground arith) in cc
