-- ===== src/Lexer/Segments.antt =====
-- Where the scan of a string's text stops.
use brasa.Prelude.{
  ℕ, zero, suc, ◌+◌, ◌-◌, ◌≤◌, ◌<◌, ◌≡◌, ◌⊎◌, inl, inr, refl, sym, ap, subst, ◌∙◌, Bool, true,
  false, not, ◌&&◌, [], ◌∷◌, ◌==◌, if◌then◌else◌, if-cases, ==_iff, length, drop, codes, arith,
}
use brasa.Value.{Text}
use brasa.Lexer.{
  starts_with, StringSegmentEnd, quote, interp, unterminated_newline, unterminated_eof, width,
  Scanned, skip, stop, runs_off, closes, escaped, look, scan_from, scan_string_segment,
  scan_char_from, scan_malformed_char_literal,
}

abbrev pub closing : Bool → Text
closing true = codes "\"\"\""
closing false = codes "\""

-- What a text starts with where a segment ends.
abbrev pub AtEnd : Bool → StringSegmentEnd → Text → Type 0
AtEnd raw quote text = starts_with text (closing raw) ≡ true
AtEnd raw interp text = starts_with text (codes "#{") ≡ true
AtEnd raw unterminated_newline text = (raw ≡ false) × (starts_with text (10 ∷ []) ≡ true)
AtEnd raw unterminated_eof text = ⊥

-- A backslash that escapes what follows.
abbrev IsEscape : Bool → Text → Type 0
IsEscape raw text = (raw ≡ false) × (more : Text) × (text ≡ b'\\' ∷ more)

-- The offsets that the scan passes: over a character where no segment ends, or over an escape.
pub data Passes (raw : Bool) (text : Text) : ℕ → Type 0 where
  start : Passes raw text 0
  over :
      {i : ℕ}
      → Passes raw text i
      → (c : ℕ) (more : Text) → drop i text ≡ c ∷ more
      → ((end : StringSegmentEnd) → ¬ AtEnd raw end (c ∷ more))
      → ¬ IsEscape raw (c ∷ more)
      → Passes raw text (i + width c)
  escape :
      {i : ℕ}
      → Passes raw text i
      → (c other : ℕ) (more : Text) → raw ≡ false
      → drop i text ≡ b'\\' ∷ other ∷ more
      → Passes raw text (i + (1 + width other))

-- The scan stops at the first end, or behind the text where it passes none.
abbrev pub Finds : Bool → Text → ℕ × StringSegmentEnd → Type 0
Finds raw text (n, unterminated_eof) =
    (n ≡ length text)
    × (i : ℕ) × Passes raw text i
    × ((length text ≤ i) ⊎ ((raw ≡ false) × (drop i text ≡ b'\\' ∷ [])))
Finds raw text (n, end) = Passes raw text n × AtEnd raw end (drop n text)

width_pos : (c : ℕ) → 1 ≤ width c
width_pos c = ground arith

length_of_drop-[] : (xs : Text) (i : ℕ) → drop i xs ≡ [] → length xs ≤ i
length_of_drop-[] [] i e = omega arith
length_of_drop-[] (x ∷ xs) zero e = cc
length_of_drop-[] (x ∷ xs) (suc i) e = omega (arith, length_of_drop-[] xs i e)

-- What `look` answers, in terms of the text at the character.
abbrev Sound : Bool → ℕ → Text → Scanned → Type 0
Sound raw c more (skip n) =
    ((n ≡ width c)
      × ((end : StringSegmentEnd) → ¬ AtEnd raw end (c ∷ more))
      × ¬ IsEscape raw (c ∷ more))
    ⊎ ((other : ℕ) × (rest : Text) × (raw ≡ false)
        × (c ∷ more ≡ b'\\' ∷ other ∷ rest)
        × (n ≡ 1 + width other))
Sound raw c more (stop end) = AtEnd raw end (c ∷ more)
Sound raw c more runs_off = (raw ≡ false) × (c ∷ more ≡ b'\\' ∷ [])

escaped-Sound : (more : Text) → Sound false b'\\' more (escaped 1 more)
unfolding escaped
escaped-Sound [] = (refl, refl)
escaped-Sound (other ∷ rest) = inr (other, rest, refl, refl, refl)

-- Where none of the tests of `look` holds, no segment ends.
none-AtEnd :
    (raw : Bool) (c : ℕ) (more : Text)
    → (not raw && (c == 10)) ≡ false
    → ((c == b'"') && closes raw (c ∷ more)) ≡ false
    → ((c == b'#') && starts_with (c ∷ more) (codes "#{")) ≡ false
    → (end : StringSegmentEnd) → ¬ AtEnd raw end (c ∷ more)
unfolding closes starts_with
none-AtEnd true c more newline quotes interps quote h = ground arith
none-AtEnd false c more newline quotes interps quote h = ground arith
none-AtEnd raw c more newline quotes interps interp h = ground arith
none-AtEnd true c more newline quotes interps unterminated_newline h = cc
none-AtEnd false c more newline quotes interps unterminated_newline h = ground arith
none-AtEnd raw c more newline quotes interps unterminated_eof h = h

look-Sound : (raw : Bool) (c : ℕ) (more : Text) → Sound raw c more (look raw c more)
unfolding look starts_with closes
look-Sound true c more =
    if-cases (Sound true c more) ((c == b'"') && closes true (c ∷ more)) (λ e. ground arith)
      λ no_quote.
        if-cases (Sound true c more) ((c == b'#') && starts_with (c ∷ more) (codes "#{"))
          (λ e. ground arith)
          λ no_interp. inl (refl, none-AtEnd true c more refl no_quote no_interp, λ h. cc)
look-Sound false c more =
    if-cases (Sound false c more) (c == b'\\')
      (λ e.
        subst (λ b. Sound false b more (escaped (width b) (drop (width b) (b ∷ more))))
          (sym ((==_iff c b'\\').0 e)) (escaped-Sound more))
      λ no_escape.
        if-cases (Sound false c more) (c == 10) (λ e. (refl, ground arith))
          λ no_newline.
            if-cases (Sound false c more) ((c == b'"') && closes false (c ∷ more))
              (λ e. ground arith)
              λ no_quote.
                if-cases (Sound false c more) ((c == b'#') && starts_with (c ∷ more) (codes "#{"))
                  (λ e. ground arith)
                  λ no_interp. inl (
                    refl,
                    none-AtEnd false c more no_newline no_quote no_interp,
                    λ (_, m, e). let same : c ≡ b'\\' = cc in ground arith,
                  )

-- The loop behind an offset that the scan passes, once on this fuel it finds the end from later ones.
module _ (fuel : ℕ) (rest : Text) (raw : Bool) (i : ℕ) (passed : Passes raw rest i)
    (later : (j : ℕ) → Passes raw rest j → i < j → Finds raw rest (scan_from fuel rest raw j)) where
  on_end : (end : StringSegmentEnd) → AtEnd raw end (drop i rest) → Finds raw rest (i, end)
  on_end quote h = (passed, h)
  on_end interp h = (passed, h)
  on_end unterminated_newline h = (passed, h)
  on_end unterminated_eof h = absurd h

  on_look :
      (c : ℕ) (more : Text) (r : Scanned)
      → drop i rest ≡ c ∷ more
      → Sound raw c more r
      → Finds raw rest (elim r [
        | skip n ↦ scan_from fuel rest raw (i + n)
        | stop end ↦ (i, end)
        | runs_off ↦ (length rest, unterminated_eof)
      ])
  on_look c more (skip n) e (inl (size, no_end, no_escape)) =
      subst (λ n. Finds raw rest (scan_from fuel rest raw (i + n))) (sym size)
        (later (i + width c) (over passed c more e no_end no_escape) (omega (arith, width_pos c)))
  on_look c more (skip n) e (inr (other, after, cooked, text, size)) =
      subst (λ n. Finds raw rest (scan_from fuel rest raw (i + n))) (sym size)
        (later (i + (1 + width other)) (escape passed c other after cooked (e ∙ text))
          (omega arith))
  on_look c more (stop end) e h = on_end end (subst (AtEnd raw end) (sym e) h)
  on_look c more runs_off e (cooked, text) = (refl, i, passed, inr (cooked, e ∙ text))

  on_rest :
      (text : Text)
      → drop i rest ≡ text
      → Finds raw rest (elim text [
        | [] ↦ (length rest, unterminated_eof)
        | c ∷ more ↦ elim (look raw c more) [
          | skip n ↦ scan_from fuel rest raw (i + n)
          | stop end ↦ (i, end)
          | runs_off ↦ (length rest, unterminated_eof)
        ]
      ])
  on_rest [] e = (refl, i, passed, inl (length_of_drop-[] rest i e))
  on_rest (c ∷ more) e = on_look c more (look raw c more) e (look-Sound raw c more)

-- From an offset that the scan passes, on enough fuel.
scan_from-Finds :
    (fuel : ℕ) (rest : Text) (raw : Bool) (i : ℕ)
    → Passes raw rest i
    → length rest ≤ i + fuel
    → Finds raw rest (scan_from fuel rest raw i)
unfolding scan_from
scan_from-Finds zero rest raw i passed enough = (refl, i, passed, inl (omega arith))
scan_from-Finds (suc fuel) rest raw i passed enough =
    on_rest fuel rest raw i passed (λ j p more. scan_from-Finds fuel rest raw j p (omega arith))
      (drop i rest) refl

-- The scan of a string's text stops at the first offset, among those that it passes, where the closing
-- quote, an interpolation or, outside of a raw string, the end of the line stands: it passes every
-- character at which none of these stands, and outside of a raw string each backslash with the
-- character behind it. Where it passes none, its length is that of the whole rest.
pub scan_string_segment-Finds :
    (rest : Text) (raw : Bool) → Finds raw rest (scan_string_segment rest raw)
unfolding scan_string_segment
scan_string_segment-Finds rest raw = scan_from-Finds (length rest) rest raw 0 start (omega arith)

length-starts_with :
    (text prefix : Text) → starts_with text prefix ≡ true → length prefix ≤ length text
unfolding starts_with
length-starts_with text [] h = omega arith
length-starts_with [] (p ∷ ps) h = cc
length-starts_with (c ∷ cs) (p ∷ ps) h =
    let rest : starts_with cs ps ≡ true = ground arith in
    omega (arith, length-starts_with cs ps rest)

pub length-drop : (n : ℕ) (xs : Text) → length (drop n xs) ≡ length xs - n
length-drop zero xs = omega arith
length-drop (suc n) [] = omega arith
length-drop (suc n) (x ∷ xs) = omega (arith, length-drop n xs)

-- The bytes of what closes a segment.
abbrev pub end_len : Bool → StringSegmentEnd → ℕ
end_len raw quote = if raw then 3 else 1
end_len raw interp = 2
end_len raw end = 0

Finds-within :
    (raw : Bool) (text : Text) (n : ℕ) (end : StringSegmentEnd)
    → Finds raw text (n, end)
    → n + end_len raw end ≤ length text
Finds-within true text n quote (p, h) =
    omega (arith, length-starts_with (drop n text) (closing true) h, length-drop n text)
Finds-within false text n quote (p, h) =
    omega (arith, length-starts_with (drop n text) (closing false) h, length-drop n text)
Finds-within raw text n interp (p, h) =
    omega (arith, length-starts_with (drop n text) (codes "#{") h, length-drop n text)
Finds-within raw text n unterminated_newline (p, (_, h)) =
    omega (arith, length-starts_with (drop n text) (10 ∷ []) h, length-drop n text)
Finds-within raw text n unterminated_eof (e, i, p, h) = omega arith

-- A segment and what closes it lie in the text.
pub scan_string_segment-within :
    (rest : Text) (raw : Bool)
    → let (n, end) = scan_string_segment rest raw in n + end_len raw end ≤ length rest
scan_string_segment-within rest raw =
    let (n, end) = scan_string_segment rest raw in
    Finds-within raw rest n end (scan_string_segment-Finds rest raw)

abbrev CharFits : Text → ℕ × Bool → Type 0
CharFits rest (n, closed) = n + (if closed then 1 else 0) ≤ length rest

char_on_rest :
    (rest : Text) (i : ℕ) (later : ℕ → ℕ × Bool)
    → ((j : ℕ) → CharFits rest (later j))
    → (text : Text) → drop i rest ≡ text
    → CharFits rest (elim text [
      | [] ↦ (length rest, false)
      | c ∷ more ↦
          if c == 39 then (i, true) else if c == 10 then (i, false) else later (i + width c)
    ])
char_on_rest rest i later fits [] e = omega arith
char_on_rest rest i later fits (c ∷ more) e =
    let here : i + 1 ≤ length rest = omega (arith, ap length e, length-drop i rest) in
    if-cases (CharFits rest) (c == 39) (λ _. here)
      λ _. if-cases (CharFits rest) (c == 10) (λ _. omega arith) λ _. fits (i + width c)

scan_char_from-within :
    (fuel : ℕ) (rest : Text) (i : ℕ) → CharFits rest (scan_char_from fuel rest i)
unfolding scan_char_from
scan_char_from-within zero rest i = omega arith
scan_char_from-within (suc fuel) rest i =
    char_on_rest rest i (scan_char_from fuel rest) (scan_char_from-within fuel rest) (drop i rest)
      refl

-- A malformed character and its closing quote lie in the text.
pub scan_malformed_char_literal-within :
    (rest : Text)
    → let (n, closed) = scan_malformed_char_literal rest in
      n + (if closed then 1 else 0) ≤ length rest
unfolding scan_malformed_char_literal
scan_malformed_char_literal-within rest = scan_char_from-within (length rest) rest 0
