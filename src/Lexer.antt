-- ===== src/Lexer.antt =====
-- crates/brasa_lexer/src/lib.rs: the tokens outside of strings, and the hand-written scans inside of
-- strings and malformed characters. A text is the list of its bytes; the character at a byte is as wide
-- as that byte, the first of its UTF-8 encoding, says.
pub mod Driver
pub mod Segments
pub mod Order
pub mod Rounds
pub mod Ends
pub mod Errors
pub mod Literals
mod Tests
use brasa.Prelude.{
  ℕ, zero, suc, ◌+◌, ◌-◌, Bool, true, false, not, ◌&&◌, ◌||◌, Option, some, none, List, [], ◌∷◌,
  ◌==◌, ltb, leb, if◌then◌else◌, length, take, drop, codes, text_eq,
}
use brasa.Bytecode.{Span}
use brasa.Value.{Text}
use brasa.Token.{TokenKind, keyword}

pub data Main : Type 0 where
  ident type_ident int float char newline comment raw_quote quote star_star plus minus : Main
  star slash percent eq_eq not_eq lt_eq lt gt_eq gt and_and or_or bang plus_eq minus_eq : Main
  star_eq slash_eq percent_eq eq pipe_gt pipe question_dot question_question dot_dot_eq : Main
  dot_dot dot fat_arrow arrow colon_colon colon l_paren r_paren l_bracket r_bracket : Main
  l_brace r_brace comma : Main

-- The kinds that the driver handles itself are unreachable here.
unfoldable pub simple_kind : Main → Option TokenKind
simple_kind int = some TokenKind.int
simple_kind float = some TokenKind.float
simple_kind char = some TokenKind.char
simple_kind star_star = some TokenKind.star_star
simple_kind plus = some TokenKind.plus
simple_kind minus = some TokenKind.minus
simple_kind star = some TokenKind.star
simple_kind slash = some TokenKind.slash
simple_kind percent = some TokenKind.percent
simple_kind eq_eq = some TokenKind.eq_eq
simple_kind not_eq = some TokenKind.not_eq
simple_kind lt_eq = some TokenKind.lt_eq
simple_kind lt = some TokenKind.lt
simple_kind gt_eq = some TokenKind.gt_eq
simple_kind gt = some TokenKind.gt
simple_kind and_and = some TokenKind.and_and
simple_kind or_or = some TokenKind.or_or
simple_kind bang = some TokenKind.bang
simple_kind plus_eq = some TokenKind.plus_eq
simple_kind minus_eq = some TokenKind.minus_eq
simple_kind star_eq = some TokenKind.star_eq
simple_kind slash_eq = some TokenKind.slash_eq
simple_kind percent_eq = some TokenKind.percent_eq
simple_kind eq = some TokenKind.eq
simple_kind pipe_gt = some TokenKind.pipe_gt
simple_kind pipe = some TokenKind.pipe
simple_kind question_dot = some TokenKind.question_dot
simple_kind question_question = some TokenKind.question_question
simple_kind dot_dot_eq = some TokenKind.dot_dot_eq
simple_kind dot_dot = some TokenKind.dot_dot
simple_kind dot = some TokenKind.dot
simple_kind fat_arrow = some TokenKind.fat_arrow
simple_kind arrow = some TokenKind.arrow
simple_kind colon_colon = some TokenKind.colon_colon
simple_kind colon = some TokenKind.colon
simple_kind l_paren = some TokenKind.l_paren
simple_kind r_paren = some TokenKind.r_paren
simple_kind l_bracket = some TokenKind.l_bracket
simple_kind r_bracket = some TokenKind.r_bracket
simple_kind l_brace = some TokenKind.l_brace
simple_kind r_brace = some TokenKind.r_brace
simple_kind comma = some TokenKind.comma
simple_kind main = none

unfoldable pub starts_with : Text → Text → Bool
starts_with text [] = true
starts_with [] (p ∷ ps) = false
starts_with (c ∷ cs) (p ∷ ps) = (c == p) && starts_with cs ps

abbrev pub slice : Text → ℕ → ℕ → Text
slice text start end = take (end - start) (drop start text)

unfoldable pub absorbs_suffix : Text → Bool
unfolding starts_with
absorbs_suffix after =
    (starts_with after (codes "?") && not (starts_with (drop 1 after) (codes ".")))
    || (starts_with after (codes "!") && not (starts_with (drop 1 after) (codes "=")))

abbrev pub keyword_or_ident : Option TokenKind → TokenKind
keyword_or_ident (some kind) = kind
keyword_or_ident none = TokenKind.ident

unfoldable pub classify_ident : Text → Span → TokenKind × ℕ
unfolding absorbs_suffix keyword text_eq
classify_ident source span =
    let extra = if absorbs_suffix (drop span.end source) then 1 else 0 in
    if text_eq (slice source span.start span.end) (codes "_")
    then (TokenKind.underscore, 0)
    else (keyword_or_ident (keyword (slice source span.start (span.end + extra))), extra)

pub data StringSegmentEnd : Type 0 where
  quote interp unterminated_newline unterminated_eof : StringSegmentEnd

-- `len_utf8` of the character that starts with this byte.
abbrev pub width : ℕ → ℕ
width c = if ltb c 128 then 1 else if ltb c 224 then 2 else if ltb c 240 then 3 else 4

-- What the loop does at a character `c` in front of `rest`.
pub data Scanned : Type 0 where
  skip : ℕ → Scanned
  stop : StringSegmentEnd → Scanned
  runs_off : Scanned

unfoldable pub closes : Bool → Text → Bool
unfolding starts_with
closes true text = starts_with text (codes "\"\"\"")
closes false text = true

-- The width of a character and of the one that its backslash escapes, if there is one.
unfoldable pub escaped : ℕ → Text → Scanned
escaped clen [] = runs_off
escaped clen (other ∷ more) = skip (clen + width other)

unfoldable pub look : Bool → ℕ → Text → Scanned
unfolding starts_with closes escaped
look raw c rest =
    if not raw && (c == b'\\')
    then escaped (width c) (drop (width c) (c ∷ rest))
    else if not raw && (c == 10)
    then stop unterminated_newline
    else if (c == b'"') && closes raw (c ∷ rest)
    then stop quote
    else if (c == b'#') && starts_with (c ∷ rest) (codes "#{")
    then stop interp
    else skip (width c)

-- The loop at offset `i`, on a fuel of a round for each byte, which is enough since it moves on.
unfoldable pub scan_from : ℕ → Text → Bool → ℕ → ℕ × StringSegmentEnd
unfolding look
scan_from zero rest raw i = (length rest, unterminated_eof)
scan_from (suc fuel) rest raw i = elim (drop i rest) [
  | [] ↦ (length rest, unterminated_eof)
  | c ∷ more ↦ elim (look raw c more) [
    | skip n ↦ scan_from fuel rest raw (i + n)
    | stop end ↦ (i, end)
    | runs_off ↦ (length rest, unterminated_eof)
  ]
]

unfoldable pub scan_string_segment : Text → Bool → ℕ × StringSegmentEnd
unfolding scan_from
scan_string_segment rest raw = scan_from (length rest) rest raw 0

unfoldable pub scan_char_from : ℕ → Text → ℕ → ℕ × Bool
scan_char_from zero rest i = (length rest, false)
scan_char_from (suc fuel) rest i = elim (drop i rest) [
  | [] ↦ (length rest, false)
  | c ∷ more ↦
      let later = scan_char_from fuel rest (i + width c) in
      if c == 39 then (i, true) else if c == 10 then (i, false) else later
]

unfoldable pub scan_malformed_char_literal : Text → ℕ × Bool
unfolding scan_char_from
scan_malformed_char_literal rest = scan_char_from (length rest) rest 0

pub data Mode : Type 0 where
  main_top : Mode
  main_interp : ℕ → Mode
  str : Bool → Mode
