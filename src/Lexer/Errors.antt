-- ===== src/Lexer/Errors.antt =====
-- The `Error` tokens and the errors that the driver reports.
use brasa.Prelude.{
  ℕ, subst, eq_of_some, ◌*◌, zero, suc, ◌+◌, ◌≡◌, refl, sym, ap, ◌∙◌, Bool, true, false, Option,
  some, none, List, [], ◌∷◌, ◌++◌, map, drop, if◌then◌else◌, if-cases, text_eq, codes, arith, not,
  ◌&&◌, length, ltb,
}
use brasa.Bytecode.{Span}
use brasa.Value.{Text}
use brasa.Token.{TokenKind, Token, keyword, find_keyword, keywords}
use brasa.Lexer.{
  Main, simple_kind, slice, classify_ident, keyword_or_ident, absorbs_suffix, StringSegmentEnd,
  scan_string_segment, scan_malformed_char_literal, Mode, main_top, main_interp, str,
}
use brasa.Lexer.Driver.{
  Match, LexError, Lexing, Outcome, more, ends, panics, content, emit, fail, close_brace, span_at,
  malformed_char, on_match, at_end, main_step, close_segment, string_text, string_step, step, run,
  start_lexing, finish, lex_all,
}

abbrev is_error : TokenKind → Bool
is_error TokenKind.error = true
is_error kind = false

abbrev pub error_spans : List Token → List Span
error_spans [] = []
error_spans (t ∷ ts) = let rest = error_spans ts in if is_error t.kind then t.span ∷ rest else rest

-- Each error has its token, and each `Error` token its error, in order and at the same place.
abbrev pub Reports : Lexing → Type 0
Reports s = error_spans s.tokens ≡ map (λ e. e.span) s.errors

error_spans-quiet :
    (ts : List Token) (kind : TokenKind) (span : Span)
    → is_error kind ≡ false
    → error_spans (ts ++ record { kind = kind; span = span } ∷ []) ≡ error_spans ts
error_spans-quiet [] kind span q = rw q refl
error_spans-quiet (t ∷ ts) kind span q =
    ap (λ rest. if is_error t.kind then t.span ∷ rest else rest) (error_spans-quiet ts kind span q)

error_spans-error :
    (ts : List Token) (span : Span)
    → error_spans (ts ++ record { kind = TokenKind.error; span = span } ∷ [])
      ≡ error_spans ts ++ span ∷ []
error_spans-error [] span = refl
error_spans-error (t ∷ ts) span =
    ap (λ rest. if is_error t.kind then t.span ∷ rest else rest) (error_spans-error ts span)
    ∙ if-cases
        (λ z.
          (if is_error t.kind
            then t.span ∷ (error_spans ts ++ span ∷ [])
            else error_spans ts ++ span ∷ [])
          ≡ z ++ span ∷ [])
        (is_error t.kind) (λ e. rw e refl) (λ e. rw e refl)

map-push :
    (es : List LexError) (e : LexError)
    → map (λ e. e.span) (es ++ e ∷ []) ≡ map (λ e. e.span) es ++ e.span ∷ []
map-push [] e = refl
map-push (x ∷ es) e = ap (λ z. x.span ∷ z) (map-push es e)

emit-Reports :
    (kind : TokenKind) (span : Span) (s : Lexing)
    → is_error kind ≡ false
    → Reports s
    → Reports (emit kind span s)
unfolding emit
emit-Reports kind span s q h = error_spans-quiet s.tokens kind span q ∙ h

fail-Reports :
    (message code : Text) (span : Span) (s : Lexing)
    → Reports s
    → Reports (fail message code span s)
unfolding fail emit
fail-Reports message code span s h =
    error_spans-error s.tokens span
    ∙ (ap (λ z. z ++ span ∷ []) h
        ∙ sym (map-push s.errors (record { message = message; code = code; span = span })))

abbrev all_quiet : List (Text × TokenKind) → Bool
all_quiet [] = true
all_quiet (entry ∷ rest) = not (is_error entry.1) && all_quiet rest

find_keyword-quiet :
    (table : List (Text × TokenKind)) (text : Text)
    → all_quiet table ≡ true
    → is_error (keyword_or_ident (find_keyword table text)) ≡ false
unfolding find_keyword
find_keyword-quiet [] text h = refl
find_keyword-quiet ((word, kind) ∷ rest) text h =
    if-cases (λ o. is_error (keyword_or_ident o) ≡ false) (text_eq word text) (λ _. ground arith)
      (λ _. find_keyword-quiet rest text (ground arith))

keyword-quiet : (text : Text) → is_error (keyword_or_ident (keyword text)) ≡ false
unfolding keyword
keyword-quiet text = find_keyword-quiet keywords text refl

classify_ident-quiet :
    (source : Text) (span : Span) → is_error (classify_ident source span).0 ≡ false
unfolding classify_ident
classify_ident-quiet source span =
    if-cases {A = TokenKind × ℕ} (λ r. is_error r.0 ≡ false)
      (text_eq (slice source span.start span.end) (codes "_")) (λ _. refl)
      (λ _. keyword-quiet (
        slice source span.start
          (span.end + (if absorbs_suffix (drop span.end source) then 1 else 0))))

module _ (next : Text → Option Match) (source : Text) (file : ℕ) where
  -- What a round leaves.
  abbrev Kept : Outcome → Type 0
  Kept (more s) = Reports s
  Kept (ends s) = Reports s
  Kept panics = Unit

  malformed_char-Reports :
      (start : ℕ) (s : Lexing) → Reports s → Reports (malformed_char next source file start s)
  unfolding malformed_char
  malformed_char-Reports start s h =
      let (len, closed) = scan_malformed_char_literal (drop s.at (content source)) in
      fail-Reports _ _ (span_at next source file start (s.at + (len + (if closed then 1 else 0)))) s
        h

  close_brace-Reports :
      (span : Span) (modes : List Mode) (s : Lexing)
      → Reports s
      → Reports (close_brace span modes s)
  unfolding close_brace
  close_brace-Reports span (main_interp zero ∷ modes) s h =
      emit-Reports TokenKind.interp_end span s refl h
  close_brace-Reports span (main_interp (suc depth) ∷ modes) s h =
      emit-Reports TokenKind.r_brace span s refl h
  close_brace-Reports span modes s h = emit-Reports TokenKind.r_brace span s refl h

  on_match-Kept :
      (start : ℕ) (span : Span) (kind : Option Main) (s : Lexing)
      → Reports s
      → Kept (on_match next source file start span kind s)
  unfolding on_match simple_kind
  on_match-Kept start span (some Main.ident) s h =
      emit-Reports (classify_ident source span).0 _ s (classify_ident-quiet source span) h
  on_match-Kept start span (some Main.comment) s h = h
  on_match-Kept start span (some Main.r_brace) s h = close_brace-Reports span s.modes s h
  on_match-Kept start span (some main) s h = emit-Reports _ span s refl h
  on_match-Kept start span none s h =
      if-cases Kept (text_eq (slice (content source) start s.at) (codes "'"))
        (λ _. malformed_char-Reports start s h) (λ _. fail-Reports _ _ span s h)

  at_end-Reports : (mode : Mode) (s : Lexing) → Reports s → Reports (at_end next source file mode s)
  unfolding at_end
  at_end-Reports (main_interp depth) s h = fail-Reports _ _ _ s h
  at_end-Reports main_top s h = h
  at_end-Reports (str raw) s h = h

  main_step-Kept : (mode : Mode) (s : Lexing) → Reports s → Kept (main_step next source file mode s)
  unfolding main_step
  main_step-Kept mode s h =
      elim (next (drop s.at (content source)))
        as (λ o. Kept (elim o [
          | none ↦ ends (at_end next source file mode s)
          | some m ↦
              let start = s.at + m.skipped in
              let end = start + m.len in
              on_match next source file start (span_at next source file start end) m.kind
                (record s { at = end })
        ])) [ none ↦ at_end-Reports mode s h | some m ↦ on_match-Kept _ _ m.kind _ h ]

  close_segment-Reports :
      (raw : Bool) (end : StringSegmentEnd) (s : Lexing)
      → Reports s
      → Reports (close_segment next source file raw end s)
  unfolding close_segment
  close_segment-Reports raw StringSegmentEnd.quote s h =
      emit-Reports TokenKind.string_end _ s refl h
  close_segment-Reports raw StringSegmentEnd.interp s h =
      emit-Reports TokenKind.interp_start _ s refl h
  close_segment-Reports raw end s h = fail-Reports _ _ _ s h

  string_text-Reports :
      (len : ℕ) (s : Lexing) → Reports s → Reports (string_text next source file len s)
  unfolding string_text
  string_text-Reports len s h =
      if-cases Reports (ltb 0 len) (λ _. emit-Reports TokenKind.string_text _ s refl h) (λ _. h)

  step-Kept : (modes : List Mode) (s : Lexing) → Reports s → Kept (step next source file modes s)
  unfolding step string_step
  step-Kept [] s h = tt
  step-Kept (str raw ∷ modes) s h =
      let (len, end) = scan_string_segment (drop s.at (content source)) raw in
      close_segment-Reports raw end (string_text next source file len s)
        (string_text-Reports len s h)
  step-Kept (mode ∷ modes) s h = main_step-Kept mode s h

  run-Reports :
      (fuel : ℕ) (s s' : Lexing) → Reports s → run next source file fuel s ≡ some s' → Reports s'
  unfolding run
  run-Reports zero s s' h e = cc
  run-Reports (suc fuel) s s' h e =
      after (step next source file s.modes s) (step-Kept s.modes s h) e
        (λ s2 h2 e2. run-Reports fuel s2 s' h2 e2)
    where
      after :
          (o : Outcome)
          → Kept o
          → (elim o [ more s2 ↦ run next source file fuel s2 | ends s2 ↦ some s2 | panics ↦ none ])
            ≡ some s'
          → ((s2 : Lexing) → Reports s2 → run next source file fuel s2 ≡ some s' → Reports s')
          → Reports s'
      after (more s2) k e later = later s2 k e
      after (ends s2) k e later = subst Reports (eq_of_some e) k
      after panics k e later = cc

  -- The `Error` tokens of a scan stand at the places of the errors that it reports, in the same order:
  -- no error is without a token, and no such token without an error.
  pub lex_all-Reports : (s : Lexing) → lex_all next source file ≡ some s → Reports s
  unfolding lex_all finish
  lex_all-Reports s e = at_finish (run next source file _ start_lexing) refl e
    where
      at_finish :
          (o : Option Lexing)
          → run next source file (2 * length (content source) + 2) start_lexing ≡ o
          → (elim o [ none ↦ none | some s2 ↦ some (finish next source file s2) ]) ≡ some s
          → Reports s
      at_finish none r e = cc
      at_finish (some s2) r e = subst Reports (eq_of_some e) (
          emit-Reports TokenKind.eof _ s2 refl
            (run-Reports (2 * length (content source) + 2) start_lexing s2 refl r))
