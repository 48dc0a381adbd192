-- ===== src/Token.antt =====
-- crates/brasa_token/src/lib.rs: the token kinds, the keywords and the values of number literals. A
-- text is the list of its bytes.
pub mod Escapes
pub mod Displayed
mod Numbers
mod Tests
use brasa.Prelude.{
  ℕ, zero, suc, ◌+◌, ◌*◌, ◌-◌, ◌≤◌, ◌<◌, Bool, true, false, not, ◌&&◌, ◌||◌, Option, some, none,
  ◌>>=◌, List, [], ◌∷◌, ◌==◌, ltb, leb, if◌then◌else◌, codes, text_eq,
}
use brasa.Prelude.Int.{ℤ, pos, sub_ℕ}
use brasa.Int64.{checked}
use brasa.Bytecode.{Span}
use brasa.Value.{Text}

-- The keywords carry `_kw`, as `SelfKw` does in the source.
pub data TokenKind : Type 0 where
  def_kw do_kw end_kw if_kw then_kw elsif_kw else_kw while_kw for_kw in_kw match_kw enum_kw :
      TokenKind
  struct_kw interface_kw import_kw pub_kw let_kw mut_kw return_kw break_kw continue_kw throw_kw :
      TokenKind
  throws_kw catch_kw catch_all_kw never_kw true_kw false_kw self_kw unit_kw and_kw or_kw not_kw :
      TokenKind
  spawn_kw test_kw : TokenKind
  plus minus star slash percent star_star eq_eq not_eq lt lt_eq gt gt_eq and_and or_or bang eq :
      TokenKind
  plus_eq minus_eq star_eq slash_eq percent_eq pipe_gt question_dot question_question dot_dot :
      TokenKind
  dot_dot_eq fat_arrow arrow colon_colon : TokenKind
  l_paren r_paren l_bracket r_bracket l_brace r_brace comma colon dot pipe underscore : TokenKind
  int float char string_start raw_string_start string_text interp_start interp_end string_end :
      TokenKind
  ident type_ident newline eof error : TokenKind

pub record Token : Type 0 where
  pub kind : TokenKind
  pub span : Span

abbrev pub keywords : List (Text × TokenKind)
keywords =
    (codes "def", def_kw)
    ∷ (codes "do", do_kw)
    ∷ (codes "end", end_kw)
    ∷ (codes "if", if_kw)
    ∷ (codes "then", then_kw)
    ∷ (codes "elsif", elsif_kw)
    ∷ (codes "else", else_kw)
    ∷ (codes "while", while_kw)
    ∷ (codes "for", for_kw)
    ∷ (codes "in", in_kw)
    ∷ (codes "match", match_kw)
    ∷ (codes "enum", enum_kw)
    ∷ (codes "struct", struct_kw)
    ∷ (codes "interface", interface_kw)
    ∷ (codes "import", import_kw)
    ∷ (codes "pub", pub_kw)
    ∷ (codes "let", let_kw)
    ∷ (codes "mut", mut_kw)
    ∷ (codes "return", return_kw)
    ∷ (codes "break", break_kw)
    ∷ (codes "continue", continue_kw)
    ∷ (codes "throw", throw_kw)
    ∷ (codes "throws", throws_kw)
    ∷ (codes "catch", catch_kw)
    ∷ (codes "catch!", catch_all_kw)
    ∷ (codes "never", never_kw)
    ∷ (codes "true", true_kw)
    ∷ (codes "false", false_kw)
    ∷ (codes "self", self_kw)
    ∷ (codes "unit", unit_kw)
    ∷ (codes "and", and_kw)
    ∷ (codes "or", or_kw)
    ∷ (codes "not", not_kw)
    ∷ (codes "spawn", spawn_kw)
    ∷ (codes "test", test_kw)
    ∷ []

unfoldable pub find_keyword : List (Text × TokenKind) → Text → Option TokenKind
find_keyword [] text = none
find_keyword ((word, kind) ∷ rest) text =
    if text_eq word text then some kind else find_keyword rest text

unfoldable pub keyword : Text → Option TokenKind
unfolding find_keyword
keyword text = find_keyword keywords text

pub data IntParseError : Type 0 where
  no_digits overflow : IntParseError

pub data IntResult : Type 0 where
  ok : ℤ → IntResult
  err : IntParseError → IntResult

-- `char::to_digit` below 16.
abbrev pub to_digit : ℕ → ℕ → Option ℕ
to_digit radix c =
    let value =
      if leb 48 c && leb c 57
      then c - 48
      else if leb 97 c && leb c 102
      then c - 87
      else if leb 65 c && leb c 70
      then c - 55
      else radix in
    if ltb value radix then some value else none

-- The number behind the digits of `acc`, in any size.
unfoldable pub radix_value : ℕ → ℕ → Text → Option ℕ
radix_value radix acc [] = some acc
radix_value radix acc (c ∷ cs) = do d ← to_digit radix c; radix_value radix (acc * radix + d) cs

-- `i64::from_str_radix`, where each way to fail is none: a sign is allowed, no digit is an error.
unfoldable pub from_str_radix : ℕ → Text → Option ℤ
unfolding radix_value checked
from_str_radix radix [] = none
from_str_radix radix (c ∷ []) = do n ← radix_value radix 0 (c ∷ []); checked (pos n)
from_str_radix radix (c ∷ d ∷ ds) =
    if c == b'-'
    then (do n ← radix_value radix 0 (d ∷ ds); checked (sub_ℕ 0 n))
    else if c == b'+'
    then (do n ← radix_value radix 0 (d ∷ ds); checked (pos n))
    else (do n ← radix_value radix 0 (c ∷ d ∷ ds); checked (pos n))

abbrev pub without_separators : Text → Text
without_separators [] = []
without_separators (c ∷ cs) = if c == b'_' then without_separators cs else c ∷ without_separators cs

-- The error of `from_str_radix` is replaced, whatever it is.
unfoldable pub or_overflow : Option ℤ → IntResult
or_overflow none = err overflow
or_overflow (some n) = ok n

unfoldable pub prefixed : ℕ → Text → IntResult
unfolding from_str_radix or_overflow
prefixed radix [] = err no_digits
prefixed radix (c ∷ cs) = or_overflow (from_str_radix radix (c ∷ cs))

unfoldable pub parse_cleaned : Text → IntResult
unfolding from_str_radix or_overflow prefixed
parse_cleaned (c ∷ d ∷ rest) =
    if c == b'0' && d == b'x'
    then prefixed 16 rest
    else if c == b'0' && d == b'b'
    then prefixed 2 rest
    else or_overflow (from_str_radix 10 (c ∷ d ∷ rest))
parse_cleaned text = or_overflow (from_str_radix 10 text)

unfoldable pub parse_int : Text → IntResult
unfolding parse_cleaned
parse_int text = parse_cleaned (without_separators text)
