-- ===== src/Lexer/Literals.antt =====
-- A displayed string as the text of a literal: `escape_str` (crates/brasa_vm/src/display.rs) against
-- the lexer's `scan_string_segment` and the unescaping of a literal's text.
use brasa.Prelude.{
  ℕ, zero, suc, ◌+◌, ◌≤◌, ◌<◌, ◌≡◌, ◌≢◌, refl, sym, ap, ◌∙◌, Bool, false, ◌&&◌, ◌||◌, [], ◌∷◌, ◌++◌,
  ◌==◌, ℕ_discrete, length, drop, All, arith, length-append, drop-append,
}
use mathlib.Core.List.{append_assoc}
use brasa.Value.{Text}
use brasa.Token.Escapes.{
  unescape_string_text_checked, escape_str, escape_one, escape_one-plain,
  unescape_string_text_checked-escape_str,
}
use brasa.Token.Displayed.{IsOnOneLine, escape_str-IsOnOneLine}
use brasa.Lexer.{skip, quote, look, closes, escaped, starts_with, scan_from, scan_string_segment}

-- An interpolation starts in the string.
abbrev pub has_interp : Text → Bool
has_interp [] = false
has_interp (c ∷ []) = false
has_interp (c ∷ d ∷ cs) = ((c == b'#') && (d == b'{')) || has_interp (d ∷ cs)

-- An ASCII character that the literal's escapes can write.
abbrev pub IsWritable : ℕ → Type 0
IsWritable c = (c < 128) × (c ≢ 13)

drop_nil : (n : ℕ) → drop {A = ℕ} n [] ≡ []
drop_nil zero = refl
drop_nil (suc n) = refl

drop-drop : (n i : ℕ) (xs : Text) → drop n (drop i xs) ≡ drop (i + n) xs
drop-drop n zero xs = ap (λ k. drop k xs) (omega arith)
drop-drop n (suc i) [] = drop_nil n ∙ sym (drop_nil (suc i + n))
drop-drop n (suc i) (x ∷ xs) =
    let more : suc (i + n) ≡ suc i + n = omega arith in
    drop-drop n i xs ∙ ap (λ k. drop k (x ∷ xs)) more

-- A round of the scan that skips.
scan_from-skip :
    (fuel : ℕ) (whole : Text) (i n c : ℕ) (more : Text)
    → drop i whole ≡ c ∷ more
    → look false c more ≡ skip n
    → scan_from (suc fuel) whole false i ≡ scan_from fuel whole false (i + n)
unfolding scan_from
scan_from-skip fuel whole i n c more e s = rw (scan_from, e, s) refl

-- What the scan does over one displayed character.
abbrev Crosses : ℕ → Text → Type 0
Crosses c more =
    (fuel : ℕ) (whole : Text) (i : ℕ)
    → drop i whole ≡ escape_one c ++ more
    → scan_from (suc fuel) whole false i ≡ scan_from fuel whole false (i + length (escape_one c))

look-escape : (c : ℕ) (more : Text) → c < 128 → look false b'\\' (c ∷ more) ≡ skip 2
unfolding look escaped
look-escape c more h = ground arith

look-plain :
    (c : ℕ) (more : Text)
    → c < 128
    → c ≢ b'"'
    → c ≢ b'\\'
    → c ≢ 10
    → ((c == b'#') && starts_with more (b'{' ∷ [])) ≡ false
    → look false c more ≡ skip 1
unfolding look starts_with closes
look-plain c more h bare backslash newline interp = ground arith

-- The first byte of what is displayed is a brace only where the string's is one.
starts-brace :
    (c : ℕ) (cs rest : Text)
    → has_interp (c ∷ cs) ≡ false
    → ((c == b'#') && starts_with (escape_str cs ++ b'"' ∷ rest) (b'{' ∷ [])) ≡ false
unfolding starts_with escape_str escape_one
starts-brace c [] rest h = ground arith
starts-brace c (d ∷ cs) rest h = ground arith

escaped-Crosses : (c d : ℕ) (more : Text) → d < 128 → escape_one c ≡ b'\\' ∷ d ∷ [] → Crosses c more
escaped-Crosses c d more small e fuel whole i here =
    scan_from-skip fuel whole i 2 b'\\' (d ∷ more) (here ∙ ap (λ z. z ++ more) e)
      (look-escape d more small)
    ∙ ap (λ n. scan_from fuel whole false (i + n)) (sym (ap length e))

plain-Crosses :
    (c : ℕ) (more : Text) → escape_one c ≡ c ∷ [] → look false c more ≡ skip 1 → Crosses c more
plain-Crosses c more e s fuel whole i here =
    scan_from-skip fuel whole i 1 c more (here ∙ ap (λ z. z ++ more) e) s
    ∙ ap (λ n. scan_from fuel whole false (i + n)) (sym (ap length e))

-- The scan crosses one displayed character in one round.
scan_from-escape_one :
    (c : ℕ) (cs rest : Text)
    → IsWritable c
    → has_interp (c ∷ cs) ≡ false
    → Crosses c (escape_str cs ++ b'"' ∷ rest)
unfolding escape_one
scan_from-escape_one c cs rest (small, no_cr) h = elim (ℕ_discrete c b'"') [
  | yes e ↦ escaped-Crosses c b'"' more (omega arith) (ap escape_one e)
  | no bare ↦ elim (ℕ_discrete c b'\\') [
    | yes e ↦ escaped-Crosses c b'\\' more (omega arith) (ap escape_one e)
    | no backslash ↦ elim (ℕ_discrete c 10) [
      | yes e ↦ escaped-Crosses c b'n' more (omega arith) (ap escape_one e)
      | no newline ↦ elim (ℕ_discrete c 9) [
        | yes e ↦ escaped-Crosses c b't' more (omega arith) (ap escape_one e)
        | no tab ↦
            plain-Crosses c more (escape_one-plain c no_cr bare backslash newline tab)
              (look-plain c more small bare backslash newline (starts-brace c cs rest h))
      ]
    ]
  ]
]
  where
    more : Text
    more = escape_str cs ++ b'"' ∷ rest

scan_from-quote :
    (fuel : ℕ) (whole : Text) (i : ℕ) (rest : Text)
    → drop i whole ≡ b'"' ∷ rest
    → scan_from (suc fuel) whole false i ≡ (i, quote)
unfolding scan_from look closes
scan_from-quote fuel whole i rest e = rw (scan_from, e) refl

has_interp-tail : (c : ℕ) (cs : Text) → has_interp (c ∷ cs) ≡ false → has_interp cs ≡ false
has_interp-tail c [] h = refl
has_interp-tail c (d ∷ cs) h = ground arith

-- From the offset where the displayed text starts, on a round for each of its characters and one more.
scan_from-escape_str :
    (s rest : Text)
    → All IsWritable s
    → has_interp s ≡ false
    → (fuel : ℕ) (whole : Text) (i : ℕ) → length s < fuel
    → drop i whole ≡ escape_str s ++ b'"' ∷ rest
    → scan_from fuel whole false i ≡ (i + length (escape_str s), quote)
unfolding escape_str
scan_from-escape_str [] rest valid h zero whole i enough e = absurd (omega arith)
scan_from-escape_str [] rest valid h (suc fuel) whole i enough e =
    let same : i ≡ i + 0 = omega arith in
    scan_from-quote fuel whole i rest e ∙ ap (λ n. (n, quote)) same
scan_from-escape_str (c ∷ cs) rest valid h zero whole i enough e = absurd (omega arith)
scan_from-escape_str (c ∷ cs) rest (first, others) h (suc fuel) whole i enough e =
    let size = length (escape_one c) in
    let here : drop i whole ≡ escape_one c ++ (escape_str cs ++ b'"' ∷ rest) =
      e ∙ append_assoc (escape_one c) (escape_str cs) (b'"' ∷ rest) in
    let there : drop (i + size) whole ≡ escape_str cs ++ b'"' ∷ rest =
      sym (drop-drop size i whole)
      ∙ (ap (drop size) here ∙ drop-append (escape_one c) (escape_str cs ++ b'"' ∷ rest)) in
    let sizes : i + size + length (escape_str cs) ≡ i + length (escape_one c ++ escape_str cs) =
      omega (arith, length-append (escape_one c) (escape_str cs)) in
    scan_from-escape_one c cs rest first h fuel whole i here
    ∙ (scan_from-escape_str cs rest others (has_interp-tail c cs h) fuel whole (i + size)
          (omega arith) there
        ∙ ap (λ n. (n, quote)) sizes)

length-escape_one : (c : ℕ) → 1 ≤ length (escape_one c)
unfolding escape_one
length-escape_one c = ground arith

length-escape_str : (s : Text) → length s ≤ length (escape_str s)
unfolding escape_str escape_one
length-escape_str [] = omega arith
length-escape_str (c ∷ cs) =
    omega (
      arith,
      length-append (escape_one c) (escape_str cs),
      length-escape_one c,
      length-escape_str cs,
    )

no_cr_of : (s : Text) → All IsWritable s → All (λ c. c ≢ 13) s
no_cr_of [] valid = tt
no_cr_of (c ∷ cs) ((small, no_cr), others) = (no_cr, no_cr_of cs others)

-- An ASCII string without carriage returns and without an interpolation's start `#{`, displayed
-- between quotes, is the text of a literal: the lexer's scan of a cooked string stops exactly at the
-- quote behind it, no tab or line break stands in it, and it is unescaped to the string, with no
-- unknown escape reported.
pub scan_string_segment-escape_str :
    (s rest : Text)
    → All IsWritable s
    → has_interp s ≡ false
    → (scan_string_segment (escape_str s ++ b'"' ∷ rest) false ≡ (length (escape_str s), quote))
      × All IsOnOneLine (escape_str s)
      × (unescape_string_text_checked (escape_str s) ≡ (s, []))
unfolding scan_string_segment
scan_string_segment-escape_str s rest valid h = (
  scan_from-escape_str s rest valid h (length whole) whole 0 enough refl
      ∙ ap (λ n. (n, quote)) start,
  escape_str-IsOnOneLine s,
  unescape_string_text_checked-escape_str s (no_cr_of s valid),
)
  where
    whole : Text
    whole = escape_str s ++ b'"' ∷ rest

    start : 0 + length (escape_str s) ≡ length (escape_str s)
    start = omega arith

    enough : length s < length whole
    enough = omega (arith, length-escape_str s, length-append (escape_str s) (b'"' ∷ rest))
