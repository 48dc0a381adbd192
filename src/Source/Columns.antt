-- ===== src/Source/Columns.antt =====
-- The column of a text of whole scalars, and of one that is cut inside of a scalar.
use brasa.Prelude.{
  ℕ, zero, suc, ◌+◌, ◌/◌, ◌%◌, ◌≤◌, ◌<◌, ◌≡◌, refl, ap, ◌∙◌, List, [], ◌∷◌, ◌++◌, none, some, false,
  ltb, if◌then◌else◌, if-cases, ◌==◌, length, take, All, arith,
}
use brasa.Source.{unicode_column}
use brasa.Source.Utf8.{chars, one_more}
use brasa.Source.Scalars.{IsScalar, encode_scalar, utf8, chars_more, chars-utf8}

chars-lead : (b : ℕ) → 128 ≤ b → chars (b ∷ []) ≡ none
unfolding chars
chars-lead b h = ground arith

chars-lead_two : (b c : ℕ) → 224 ≤ b → chars (b ∷ c ∷ []) ≡ none
unfolding chars
chars-lead_two b c h = ground arith

chars-lead_three : (b c d : ℕ) → 240 ≤ b → chars (b ∷ c ∷ d ∷ []) ≡ none
unfolding chars
chars-lead_three b c d h = ground arith

abbrev Broken : ℕ → List ℕ → Type 0
Broken k xs = 0 < k → k < length xs → chars (take k xs) ≡ none

-- A scalar that is cut short is no valid text.
chars-take_encode_scalar : (c k : ℕ) → Broken k (encode_scalar c)
chars-take_encode_scalar c k =
    if-cases (Broken k) (ltb c 128) (λ e some_of cut. absurd (omega arith))
      λ e.
        if-cases (Broken k) (ltb c 2048) (λ f. two k)
          λ f. if-cases (Broken k) (ltb c 65536) (λ g. three k) λ g. four k
  where
    two : (k : ℕ) → Broken k ((192 + c / 64) ∷ (128 + c % 64) ∷ [])
    two zero some_of cut = absurd (omega arith)
    two (suc zero) some_of cut = chars-lead (192 + c / 64) (omega arith)
    two (suc (suc k)) some_of cut = absurd (omega arith)

    three : (k : ℕ) → Broken k ((224 + c / 4096) ∷ (128 + c / 64 % 64) ∷ (128 + c % 64) ∷ [])
    three zero some_of cut = absurd (omega arith)
    three (suc zero) some_of cut = chars-lead (224 + c / 4096) (omega arith)
    three (suc (suc zero)) some_of cut =
        chars-lead_two (224 + c / 4096) (128 + c / 64 % 64) (omega arith)
    three (suc (suc (suc k))) some_of cut = absurd (omega arith)

    four :
        (k : ℕ)
        → Broken k
            ((240 + c / 262144) ∷ (128 + c / 4096 % 64) ∷ (128 + c / 64 % 64) ∷ (128 + c % 64) ∷ [])
    four zero some_of cut = absurd (omega arith)
    four (suc zero) some_of cut = chars-lead (240 + c / 262144) (omega arith)
    four (suc (suc zero)) some_of cut =
        chars-lead_two (240 + c / 262144) (128 + c / 4096 % 64) (omega arith)
    four (suc (suc (suc zero))) some_of cut =
        chars-lead_three (240 + c / 262144) (128 + c / 4096 % 64) (128 + c / 64 % 64) (omega arith)
    four (suc (suc (suc (suc k)))) some_of cut = absurd (omega arith)

chars-nothing : chars [] ≡ some 0
unfolding chars
chars-nothing = refl

chars_more-some : (n : ℕ) → chars_more n (some 0) ≡ some n
chars_more-some zero = refl
chars_more-some (suc n) = ap one_more (chars_more-some n)

chars_more-none : (n : ℕ) → chars_more n none ≡ none
chars_more-none zero = refl
chars_more-none (suc n) = ap one_more (chars_more-none n)

unicode_column-some : (xs : List ℕ) (n : ℕ) → chars xs ≡ some n → unicode_column xs ≡ n
unfolding unicode_column
unicode_column-some xs n e = rw (unicode_column, e) refl

unicode_column-none : (xs : List ℕ) → chars xs ≡ none → unicode_column xs ≡ length xs
unfolding unicode_column
unicode_column-none xs e = rw (unicode_column, e) refl

-- A text of whole scalars and the first `k` bytes of another one.
pub unicode_column-utf8 :
    (cs : List ℕ) (c k : ℕ)
    → All IsScalar cs
    → k < length (encode_scalar c)
    → unicode_column (utf8 cs ++ take k (encode_scalar c))
      ≡ (if k == 0 then length cs else length (utf8 cs ++ take k (encode_scalar c)))
unicode_column-utf8 cs c zero valid cut = unicode_column-some (utf8 cs ++ []) (length cs) (
    chars-utf8 cs valid []
    ∙ (ap (chars_more (length cs)) chars-nothing ∙ chars_more-some (length cs)))
unicode_column-utf8 cs c (suc k) valid cut =
    let cut_short : (suc k == 0) ≡ false = ground arith in
    rw cut_short (
      unicode_column-none (utf8 cs ++ take (suc k) (encode_scalar c)) (
        chars-utf8 cs valid (take (suc k) (encode_scalar c))
        ∙ (ap (chars_more (length cs)) (chars-take_encode_scalar c (suc k) (omega arith) cut)
            ∙ chars_more-none (length cs))))
