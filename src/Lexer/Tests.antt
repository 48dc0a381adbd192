-- ===== src/Lexer/Tests.antt =====
-- A scan over a matcher that takes one byte at a time.
use brasa.Prelude.{
  ℕ, ◌≤◌, ◌+◌, ◌≡◌, refl, false, ◌&&◌, Option, some, none, List, [], ◌∷◌, ◌++◌, ◌==◌, leb,
  if◌then◌else◌, length, codes, map, text_eq, arith, subst, eq_of_some, suc, All,
}
use brasa.Value.{Text}
use brasa.Token.{TokenKind, Token, keyword, find_keyword}
use brasa.Lexer.{
  Main, simple_kind, classify_ident, absorbs_suffix, starts_with, scan_string_segment, scan_from,
  look, closes, escaped, scan_malformed_char_literal, scan_char_from, main_top, StringSegmentEnd,
}
use brasa.Lexer.Segments.{Finds, scan_string_segment-Finds}
use brasa.Lexer.Literals.{scan_string_segment-escape_str}
use brasa.Token.Displayed.{IsOnOneLine}
use brasa.Token.Escapes.{escape_str, unescape_string_text_checked}
use brasa.Lexer.Order.{InOrder}
use brasa.Lexer.Ends.{lex_all-InOrder}
use brasa.Lexer.Errors.{Reports, lex_all-Reports}
use brasa.Lexer.Driver.{
  Match, IsMatcher, Lexing, as_u32, bom_len, content, emit, fail, opened, close_brace, span_at,
  malformed_char, on_match, at_end, main_step, close_segment, string_text, string_step, step, run,
  finish, lex_all,
}

abbrev byte_kind : ℕ → Option Main
byte_kind c =
    if c == b'"'
    then some Main.quote
    else if c == b'{'
    then some Main.l_brace
    else if c == b'}'
    then some Main.r_brace
    else if leb b'a' c && leb c b'z'
    then some Main.ident
    else none

abbrev one_byte : Text → Option Match
one_byte [] = none
one_byte (c ∷ cs) = some (record { skipped = 0; len = 1; kind = byte_kind c })

one_byte-IsMatcher : IsMatcher one_byte
one_byte-IsMatcher = record { nonempty = one_byte-nonempty; within = one_byte-within }
  where
    one_byte-nonempty : (rest : Text) (m : Match) → one_byte rest ≡ some m → 1 ≤ m.len
    one_byte-nonempty [] m e = cc
    one_byte-nonempty (c ∷ cs) m e = subst (λ m. 1 ≤ m.len) (eq_of_some e) (omega arith)

    one_byte-within :
        (rest : Text) (m : Match) → one_byte rest ≡ some m → m.skipped + m.len ≤ length rest
    one_byte-within [] m e = cc
    one_byte-within (c ∷ cs) m e =
        subst (λ m. m.skipped + m.len ≤ suc (length cs)) (eq_of_some e) (omega arith)

abbrev kinds_of : Option Lexing → List TokenKind
kinds_of none = []
kinds_of (some s) = map (λ t. t.kind) s.tokens

run_lex_all :
    kinds_of (lex_all one_byte (codes "a\"b#{{c}}d\"'x'") 0)
    ≡ TokenKind.ident ∷ TokenKind.string_start ∷ TokenKind.string_text ∷ TokenKind.interp_start
      ∷ TokenKind.l_brace ∷ TokenKind.ident ∷ TokenKind.r_brace ∷ TokenKind.interp_end
      ∷ TokenKind.string_text ∷ TokenKind.string_end ∷ TokenKind.error ∷ TokenKind.eof ∷ []
unfolding keyword find_keyword simple_kind classify_ident absorbs_suffix starts_with
    scan_string_segment scan_from look closes escaped scan_malformed_char_literal scan_char_from
    as_u32 bom_len content emit fail opened close_brace span_at malformed_char on_match at_end
    main_step close_segment string_text string_step step run finish lex_all text_eq
run_lex_all = refl

abbrev unterminated : Text
unterminated = codes "\"a"

abbrev token : TokenKind → ℕ → ℕ → Token
token kind start end = record { kind = kind; span = record { start = start; end = end; file = 0 } }

abbrev scanned : Lexing
scanned = record {
  at = 2;
  modes = main_top ∷ [];
  tokens =
      token TokenKind.string_start 0 1
      ∷ token TokenKind.string_text 1 2
      ∷ token TokenKind.error 2 2
      ∷ token TokenKind.eof 2 2
      ∷ [];
  errors =
      record {
        message = codes "unterminated string literal";
        code = codes "L002";
        span = record { start = 2; end = 2; file = 0 };
      }
      ∷ [];
  comments = [];
}

run_unterminated : lex_all one_byte unterminated 0 ≡ some scanned
unfolding keyword find_keyword simple_kind classify_ident absorbs_suffix starts_with
    scan_string_segment scan_from look closes escaped scan_malformed_char_literal scan_char_from
    as_u32 bom_len content emit fail opened close_brace span_at malformed_char on_match at_end
    main_step close_segment string_text string_step step run finish lex_all text_eq
run_unterminated = refl

lex_all-InOrder_example :
    (s : Lexing) × (before : List Token) × (lex_all one_byte unterminated 0 ≡ some s)
    × (s.tokens ≡ before ++ token TokenKind.eof 2 2 ∷ [])
    × InOrder (bom_len unterminated) 2 s.tokens
lex_all-InOrder_example = lex_all-InOrder one_byte unterminated 0 (omega arith) one_byte-IsMatcher

lex_all-Reports_example : Reports scanned
lex_all-Reports_example = lex_all-Reports one_byte unterminated 0 scanned run_unterminated

scan_string_segment-Finds_example :
    Finds false (codes "a\\\"b#{c}\"") (scan_string_segment (codes "a\\\"b#{c}\"") false)
scan_string_segment-Finds_example = scan_string_segment-Finds (codes "a\\\"b#{c}\"") false

scan_string_segment-escape_str_example :
    (scan_string_segment (escape_str (codes "a\"\\\n") ++ b'"' ∷ codes "}") false
      ≡ (length (escape_str (codes "a\"\\\n")), StringSegmentEnd.quote))
    × All IsOnOneLine (escape_str (codes "a\"\\\n"))
    × (unescape_string_text_checked (escape_str (codes "a\"\\\n")) ≡ (codes "a\"\\\n", []))
scan_string_segment-escape_str_example =
    scan_string_segment-escape_str (codes "a\"\\\n") (codes "}")
      (
        (omega arith, λ e. omega arith),
        (
          (omega arith, λ e. omega arith),
          ((omega arith, λ e. omega arith), ((omega arith, λ e. omega arith), tt)),
        ),
      )
      refl
