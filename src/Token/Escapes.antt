-- ===== src/Token/Escapes.antt =====
-- The escapes of string literals (crates/brasa_token/src/lib.rs) and the rendering of a string as a
-- literal (crates/brasa_vm/src/display.rs). A text is the list of its characters here, an offset counts
-- bytes.
use brasa.Prelude.{
  ℕ, ℕ_discrete, sym, subst, ◌+◌, ◌%◌, ◌^◌, ◌≡◌, ◌≢◌, refl, ap, ◌∙◌, true, false, Option, some,
  none, List, [], ◌∷◌, ◌++◌, ◌==◌, ltb, if◌then◌else◌, All, arith,
}
use brasa.Value.{Text}

pub record UnknownEscape : Type 0 where
  pub offset : ℕ
  pub escaped : ℕ

unfoldable pub decode_escape : ℕ → Option ℕ
decode_escape c =
    if c == b'n'
    then some 10
    else if c == b't'
    then some 9
    else if c == b'"'
    then some b'"'
    else if c == b'\\'
    then some b'\\'
    else if c == b'#'
    then some b'#'
    else none

unfoldable pub len_utf8 : ℕ → ℕ
len_utf8 c = if ltb c 128 then 1 else if ltb c 2048 then 2 else if ltb c 65536 then 3 else 4

abbrev pub Unescaped : Type 0
Unescaped = Text × List UnknownEscape

unfoldable pub keep_char : ℕ → Unescaped → Unescaped
keep_char c (out, unknown) = (c ∷ out, unknown)

-- An escape at `offset`, in front of what the rest gives.
unfoldable pub escape_at : ℕ → ℕ → Unescaped → Unescaped
unfolding decode_escape keep_char
escape_at offset other (out, unknown) = elim (decode_escape other) [
  | some decoded ↦ (decoded ∷ out, unknown)
  | none ↦ (other ∷ out, record { offset = offset % 2 ^ 32; escaped = other } ∷ unknown)
]

unfoldable pub unescape_from : ℕ → Text → Unescaped
unfolding escape_at keep_char len_utf8
unescape_from offset [] = ([], [])
unescape_from offset (c ∷ []) = elim (c == b'\\') [
  | true ↦ ([], record { offset = offset % 2 ^ 32; escaped = b'\\' } ∷ [])
  | false ↦ (c ∷ [], [])
]
unescape_from offset (c ∷ other ∷ rest) = elim (c == b'\\') [
  | true ↦ escape_at offset other (unescape_from (offset + len_utf8 c + len_utf8 other) rest)
  | false ↦ keep_char c (unescape_from (offset + len_utf8 c) (other ∷ rest))
]

unfoldable pub unescape_string_text_checked : Text → Unescaped
unfolding unescape_from
unescape_string_text_checked text = unescape_from 0 text

unfoldable pub escape_one : ℕ → Text
escape_one c =
    if c == b'"'
    then b'\\' ∷ b'"' ∷ []
    else if c == b'\\'
    then b'\\' ∷ b'\\' ∷ []
    else if c == 10
    then b'\\' ∷ b'n' ∷ []
    else if c == 9
    then b'\\' ∷ b't' ∷ []
    else if c == 13
    then b'\\' ∷ b'r' ∷ []
    else c ∷ []

unfoldable pub escape_str : Text → Text
unfolding escape_one
escape_str [] = []
escape_str (c ∷ cs) = escape_one c ++ escape_str cs

unescape_from-plain :
    (offset c : ℕ) (text : Text)
    → (c == b'\\') ≡ false
    → unescape_from offset (c ∷ text) ≡ keep_char c (unescape_from (offset + len_utf8 c) text)
unfolding unescape_from keep_char
unescape_from-plain offset c [] e = rw (e, unescape_from) refl
unescape_from-plain offset c (d ∷ ds) e = rw (e, unescape_from) refl

-- Any other character is displayed as it is.
pub escape_one-plain :
    (c : ℕ) → c ≢ 13 → c ≢ b'"' → c ≢ b'\\' → c ≢ 10 → c ≢ 9 → escape_one c ≡ c ∷ []
unfolding escape_one
escape_one-plain c a b d e f = ground arith

abbrev Reads : ℕ → Text → ℕ → Type 0
Reads offset text c =
    (next : ℕ) × (unescape_from offset (escape_one c ++ text)
      ≡ keep_char c (unescape_from next text))

-- Reading one escaped character gives it back.
unescape_from-escape_one : (c : ℕ) → c ≢ 13 → (offset : ℕ) (text : Text) → Reads offset text c
unfolding unescape_from keep_char escape_one escape_at decode_escape
unescape_from-escape_one c n offset text = elim (ℕ_discrete c b'"') [
  | yes e ↦ subst (Reads offset text) (sym e) (offset + 1 + 1, refl)
  | no quote ↦ elim (ℕ_discrete c b'\\') [
    | yes e ↦ subst (Reads offset text) (sym e) (offset + 1 + 1, refl)
    | no backslash ↦ elim (ℕ_discrete c 10) [
      | yes e ↦ subst (Reads offset text) (sym e) (offset + 1 + 1, refl)
      | no newline ↦ elim (ℕ_discrete c 9) [
        | yes e ↦ subst (Reads offset text) (sym e) (offset + 1 + 1, refl)
        | no tab ↦ (
          offset + len_utf8 c,
          let as_is : escape_one c ≡ c ∷ [] = escape_one-plain c n quote backslash newline tab in
              ap (λ z. unescape_from offset (z ++ text)) as_is
              ∙ unescape_from-plain offset c text (ground arith),
        )
      ]
    ]
  ]
]

unescape_from-escape_str :
    (s : Text) → All (λ c. c ≢ 13) s → (offset : ℕ) → unescape_from offset (escape_str s) ≡ (s, [])
unfolding unescape_from escape_str keep_char
unescape_from-escape_str [] plain offset = refl
unescape_from-escape_str (c ∷ cs) (first, others) offset =
    let (next, e) = unescape_from-escape_one c first offset (escape_str cs) in
    e ∙ ap (keep_char c) (unescape_from-escape_str cs others next)

pub unescape_string_text_checked-escape_str :
    (s : Text) → All (λ c. c ≢ 13) s → unescape_string_text_checked (escape_str s) ≡ (s, [])
unfolding unescape_string_text_checked
unescape_string_text_checked-escape_str s plain = unescape_from-escape_str s plain 0
