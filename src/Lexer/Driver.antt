-- ===== src/Lexer/Driver.antt =====
-- crates/brasa_lexer/src/lib.rs: the driver `lex_all`. The matcher that `logos` generates from the
-- grammar of `Main` is the parameter `next`: what it finds in the rest of the text, after the white
-- space that it skips.
use brasa.Prelude.{
  ℕ, zero, suc, ◌+◌, ◌*◌, ◌%◌, ◌^◌, ◌≤◌, ◌≡◌, Bool, true, false, Option, some, none, List, [], ◌∷◌,
  ◌++◌, ltb, if◌then◌else◌, length, take, drop, codes, text_eq,
}
use brasa.Bytecode.{Span}
use brasa.Value.{Text}
use brasa.Token.{TokenKind, Token}
use brasa.Lexer.{
  Main, simple_kind, slice, classify_ident, StringSegmentEnd, scan_string_segment,
  scan_malformed_char_literal, Mode, main_top, main_interp, str,
}

pub record LexError : Type 0 where
  pub message : Text
  pub code : Text
  pub span : Span

-- A match of `len` bytes behind `skipped` ones; no kind stands for `Err(())`.
pub record Match : Type 0 where
  pub skipped : ℕ
  pub len : ℕ
  pub kind : Option Main

-- A match is not empty and lies in the text.
pub record IsMatcher (next : Text → Option Match) : Type 0 where
  pub nonempty : (rest : Text) (m : Match) → next rest ≡ some m → 1 ≤ m.len
  pub within : (rest : Text) (m : Match) → next rest ≡ some m → m.skipped + m.len ≤ length rest

-- `at` is the end of the lexer's span, an offset into the content; the innermost mode is first.
pub record Lexing : Type 0 where
  pub at : ℕ
  pub modes : List Mode
  pub tokens : List Token
  pub errors : List LexError
  pub comments : List Span

pub data Outcome : Type 0 where
  more ends : Lexing → Outcome
  panics : Outcome

unfoldable pub as_u32 : ℕ → ℕ
as_u32 n = n % 2 ^ 32

unfoldable pub bom_len : Text → ℕ
bom_len source = if text_eq (take 3 source) (239 ∷ 187 ∷ 191 ∷ []) then 3 else 0

unfoldable pub content : Text → Text
unfolding bom_len
content source = drop (bom_len source) source

unfoldable pub emit : TokenKind → Span → Lexing → Lexing
emit kind span s = record s { tokens = s.tokens ++ record { kind = kind; span = span } ∷ [] }

-- A lexical error and the `Error` token at its place.
unfoldable pub fail : Text → Text → Span → Lexing → Lexing
unfolding emit
fail message code span s =
    emit TokenKind.error span (record s {
      errors = s.errors ++ record { message = message; code = code; span = span } ∷ [];
    })

abbrev bump : ℕ → Lexing → Lexing
bump n s = record s { at = s.at + n }

abbrev push_mode : Mode → Lexing → Lexing
push_mode mode s = record s { modes = mode ∷ s.modes }

abbrev pop_mode : Lexing → Lexing
pop_mode s = record s { modes = drop 1 s.modes }

unfoldable pub opened : List Mode → List Mode
unfolding as_u32
opened (main_interp depth ∷ modes) = main_interp (as_u32 (depth + 1)) ∷ modes
opened modes = modes

unfoldable pub close_brace : Span → List Mode → Lexing → Lexing
unfolding emit
close_brace span (main_interp zero ∷ modes) s =
    emit TokenKind.interp_end span (record s { modes = modes })
close_brace span (main_interp (suc depth) ∷ modes) s =
    emit TokenKind.r_brace span (record s { modes = main_interp depth ∷ modes })
close_brace span modes s = emit TokenKind.r_brace span s

abbrev pub start_lexing : Lexing
start_lexing = record { at = 0; modes = main_top ∷ []; tokens = []; errors = []; comments = [] }

module _ (next : Text → Option Match) (source : Text) (file : ℕ) where
  unfoldable pub span_at : ℕ → ℕ → Span
  unfolding as_u32 bom_len
  span_at start end = record {
    start = as_u32 (as_u32 start + bom_len source);
    end = as_u32 (as_u32 end + bom_len source);
    file = file;
  }

  -- A character literal that starts at `start` and does not end as one; its quote is behind `s.at`.
  unfoldable pub malformed_char : ℕ → Lexing → Lexing
  unfolding span_at fail scan_malformed_char_literal content
  malformed_char start s =
      let (len, closed) = scan_malformed_char_literal (drop s.at (content source)) in
      let consumed = len + (if closed then 1 else 0) in
      fail (codes "malformed character literal") (codes "L004") (span_at start (s.at + consumed))
        (bump consumed s)

  -- `s.at` is the end of the match, `span` its place in the source.
  unfoldable pub on_match : ℕ → Span → Option Main → Lexing → Outcome
  unfolding classify_ident as_u32 emit simple_kind opened close_brace fail malformed_char content
  on_match start span (some Main.ident) s =
      let (kind, extra) = classify_ident source span in
      more (emit kind (record span { end = as_u32 (span.end + extra) }) (bump extra s))
  on_match start span (some Main.type_ident) s = more (emit TokenKind.type_ident span s)
  on_match start span (some Main.comment) s = more (record s { comments = s.comments ++ span ∷ [] })
  on_match start span (some Main.newline) s = more (emit TokenKind.newline span s)
  on_match start span (some Main.raw_quote) s =
      more (push_mode (str true) (emit TokenKind.raw_string_start span s))
  on_match start span (some Main.quote) s =
      more (push_mode (str false) (emit TokenKind.string_start span s))
  on_match start span (some Main.l_brace) s =
      more (emit TokenKind.l_brace span (record s { modes = opened s.modes }))
  on_match start span (some Main.r_brace) s = more (close_brace span s.modes s)
  on_match start span (some main) s = elim (simple_kind main) [
    | some kind ↦ more (emit kind span s)
    | none ↦ panics
  ]
  on_match start span none s =
      let text = slice (content source) start s.at in
      if text_eq text (codes "'")
      then more (malformed_char start s)
      else more (fail (codes "unexpected character `" ++ (text ++ codes "`")) (codes "L001") span s)

  -- The text is at its end.
  unfoldable pub at_end : Mode → Lexing → Lexing
  unfolding span_at fail content
  at_end (main_interp depth) s =
      let pos = length (content source) in
      fail (codes "unterminated interpolation") (codes "L003") (span_at pos pos) s
  at_end mode s = s

  unfoldable pub main_step : Mode → Lexing → Outcome
  unfolding on_match at_end span_at content
  main_step mode s = elim (next (drop s.at (content source))) [
    | none ↦ ends (at_end mode s)
    | some m ↦
        let start = s.at + m.skipped in
        let end = start + m.len in on_match start (span_at start end) m.kind (record s { at = end })
  ]

  -- `s.at` is behind the text of the segment.
  unfoldable pub close_segment : Bool → StringSegmentEnd → Lexing → Lexing
  unfolding span_at emit fail
  close_segment raw StringSegmentEnd.quote s =
      let qlen = if raw then 3 else 1 in
      pop_mode (emit TokenKind.string_end (span_at s.at (s.at + qlen)) (bump qlen s))
  close_segment raw StringSegmentEnd.interp s =
      push_mode (main_interp 0) (emit TokenKind.interp_start (span_at s.at (s.at + 2)) (bump 2 s))
  close_segment raw end s =
      pop_mode (fail (codes "unterminated string literal") (codes "L002") (span_at s.at s.at) s)

  unfoldable pub string_text : ℕ → Lexing → Lexing
  unfolding span_at emit
  string_text len s =
      if ltb 0 len then emit TokenKind.string_text (span_at s.at (s.at + len)) (bump len s) else s

  unfoldable pub string_step : Bool → Lexing → Outcome
  unfolding scan_string_segment close_segment string_text content
  string_step raw s =
      let (len, end) = scan_string_segment (drop s.at (content source)) raw in
      more (close_segment raw end (string_text len s))

  -- One round of the loop.
  unfoldable pub step : List Mode → Lexing → Outcome
  unfolding string_step main_step
  step [] s = panics
  step (str raw ∷ modes) s = string_step raw s
  step (mode ∷ modes) s = main_step mode s

  -- The loop, where none stands for a panic and for the end of the fuel.
  unfoldable pub run : ℕ → Lexing → Option Lexing
  unfolding step
  run zero s = none
  run (suc fuel) s = elim (step s.modes s) [
    | more s' ↦ run fuel s'
    | ends s' ↦ some s'
    | panics ↦ none
  ]

  -- `Eof` behind what the loop leaves.
  unfoldable pub finish : Lexing → Lexing
  unfolding span_at emit content
  finish s = let eof = length (content source) in emit TokenKind.eof (span_at eof eof) s

  -- A round takes a byte or closes a mode, so two rounds for each byte and two more are enough.
  unfoldable pub lex_all : Option Lexing
  unfolding run finish content
  lex_all = elim (run (2 * length (content source) + 2) start_lexing) [
    | none ↦ none
    | some s ↦ some (finish s)
  ]

  unfoldable pub lex : Option (List Token × List LexError)
  unfolding lex_all
  lex = elim lex_all [ none ↦ none | some s ↦ some (s.tokens, s.errors) ]

  unfoldable pub comment_spans : Option (List Span)
  unfolding lex_all
  comment_spans = elim lex_all [ none ↦ none | some s ↦ some s.comments ]
