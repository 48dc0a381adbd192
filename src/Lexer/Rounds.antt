-- ===== src/Lexer/Rounds.antt =====
-- A round of the driver on what `logos` matches: it takes a byte, and leaves the tokens in order.
use brasa.Prelude.{
  ℕ, zero, suc, ◌+◌, ◌-◌, ◌*◌, ◌^◌, ◌≤◌, ◌<◌, ◌≡◌, refl, ap, true, false, Option, some, none, List,
  [], ◌∷◌, length, drop, if◌then◌else◌, if-cases, text_eq, codes, arith,
}
use brasa.Bytecode.{Span}
use brasa.Value.{Text}
use brasa.Token.{TokenKind}
use brasa.Lexer.{
  Main, simple_kind, slice, classify_ident, absorbs_suffix, starts_with,
  scan_malformed_char_literal, Mode, main_top, main_interp, str,
}
use brasa.Lexer.Segments.{length-drop, scan_malformed_char_literal-within}
use brasa.Lexer.Order.{
  InOrder, InOrder-later, InOrder-push, as_u32-small, length-content, span_at-exact,
}
use brasa.Lexer.Driver.{
  Match, Lexing, Outcome, more, ends, panics, as_u32, bom_len, content, emit, fail, opened,
  close_brace, span_at, malformed_char, on_match,
}

-- The outermost mode is the top level.
abbrev pub HasBase : List Mode → Type 0
HasBase [] = ⊥
HasBase (main_top ∷ modes) = modes ≡ []
HasBase (main_interp depth ∷ modes) = HasBase modes
HasBase (str raw ∷ modes) = HasBase modes

HasBase-opened : (modes : List Mode) → HasBase modes → HasBase (opened modes)
unfolding opened
HasBase-opened [] h = h
HasBase-opened (main_top ∷ modes) h = h
HasBase-opened (main_interp depth ∷ modes) h = h
HasBase-opened (str raw ∷ modes) h = h

length-opened : (modes : List Mode) → length (opened modes) ≡ length modes
unfolding opened
length-opened [] = refl
length-opened (main_top ∷ modes) = refl
length-opened (main_interp depth ∷ modes) = refl
length-opened (str raw ∷ modes) = refl

absorbs_suffix-nonempty : (after : Text) → (if absorbs_suffix after then 1 else 0) ≤ length after
unfolding absorbs_suffix starts_with
absorbs_suffix-nonempty [] = omega arith
absorbs_suffix-nonempty (c ∷ cs) =
    if-cases (λ n. n ≤ suc (length cs)) (absorbs_suffix (c ∷ cs)) (λ e. omega arith)
      (λ e. omega arith)

-- A suffix that an identifier absorbs lies in the source.
classify_ident-within :
    (source : Text) (span : Span)
    → span.end ≤ length source
    → span.end + (classify_ident source span).1 ≤ length source
unfolding classify_ident
classify_ident-within source span h =
    if-cases {A = TokenKind × ℕ} (λ r. span.end + r.1 ≤ length source)
      (text_eq (slice source span.start span.end) (codes "_")) (λ _. omega arith)
      (λ _.
        omega (arith, absorbs_suffix-nonempty (drop span.end source), length-drop span.end source))

module _ (next : Text → Option Match) (source : Text) (file : ℕ)
    (small : length source < 2 ^ 32) where
  abbrev pub size : ℕ
  size = length (content source)

  abbrev pub bom : ℕ
  bom = bom_len source

  abbrev pub Good : Lexing → Type 0
  Good s = (s.at ≤ size) × HasBase s.modes × InOrder bom (s.at + bom) s.tokens

  abbrev pub measure : Lexing → ℕ
  measure s = 2 * (size - s.at) + length s.modes

  abbrev pub Steps : Lexing → Outcome → Type 0
  Steps s (more s') = Good s' × (measure s' < measure s)
  Steps s (ends s') = InOrder bom (size + bom) s'.tokens
  Steps s panics = ⊥

  emit-Good :
      (kind : TokenKind) (span : Span) (mid : ℕ) (s : Lexing)
      → HasBase s.modes
      → s.at ≤ size
      → InOrder bom mid s.tokens
      → mid ≤ span.start
      → span.start ≤ span.end
      → span.end ≤ s.at + bom
      → Good (emit kind span s)
  unfolding emit
  emit-Good kind span mid s base inside order a b c = (
    inside,
    base,
    InOrder-push bom mid (s.at + bom) s.tokens (record { kind = kind; span = span }) order a b c,
  )

  -- A match of the text from `start` to `s.at`, behind what the lexing `s0` has read.
  abbrev Matched : Lexing → ℕ → Span → Lexing → Type 0
  Matched s0 start span s =
      (s0.at ≤ start)
      × (start < s.at)
      × (s.at ≤ size)
      × HasBase s.modes
      × (length s.modes ≤ length s0.modes)
      × InOrder bom (s0.at + bom) s.tokens
      × (span.start ≡ start + bom)
      × (span.end ≡ s.at + bom)

  -- A token for the whole match, and at most one mode more.
  whole-Steps :
      (s0 s : Lexing) (start : ℕ) (span : Span) (kind : TokenKind) (modes : List Mode)
      → Matched s0 start span s
      → HasBase modes
      → length modes ≤ suc (length s.modes)
      → Steps s0 (more (emit kind span (record s { modes = modes })))
  unfolding emit
  whole-Steps s0 s start span kind modes (a, b, c, base, d, order, e, f) base' longer = (
    emit-Good kind span (s0.at + bom) (record s { modes = modes }) base' c order (omega arith)
        (omega arith) (omega arith),
    omega arith,
  )

  close_brace-Steps :
      (s0 s : Lexing) (start : ℕ) (span : Span) (modes : List Mode)
      → Matched s0 start span s
      → HasBase modes
      → length modes ≤ length s.modes
      → Steps s0 (more (close_brace span modes s))
  unfolding close_brace
  close_brace-Steps s0 s start span (main_interp zero ∷ modes) m base longer =
      whole-Steps s0 s start span TokenKind.interp_end modes m base (omega arith)
  close_brace-Steps s0 s start span (main_interp (suc depth) ∷ modes) m base longer =
      whole-Steps s0 s start span TokenKind.r_brace (main_interp depth ∷ modes) m base (omega arith)
  close_brace-Steps s0 s start span modes m base longer =
      whole-Steps s0 s start span TokenKind.r_brace s.modes m (m.3) (omega arith)

  -- A token from `start` to where the lexer goes on.
  pub placed-Good :
      (kind : TokenKind) (start mid : ℕ) (s : Lexing)
      → HasBase s.modes
      → s.at ≤ size
      → InOrder bom (mid + bom) s.tokens
      → mid ≤ start
      → start ≤ s.at
      → Good (emit kind (span_at next source file start s.at) s)
  placed-Good kind start mid s base inside order a b =
      let place = span_at-exact next source file start s.at small b inside in
      let first = ap (λ p. p.start) place in
      let last = ap (λ p. p.end) place in
      emit-Good kind (span_at next source file start s.at) (mid + bom) s base inside order
        (omega (arith, first)) (omega (arith, first, last)) (omega (arith, last))

  malformed_char-Steps :
      (s0 s : Lexing) (start : ℕ) (span : Span)
      → Matched s0 start span s
      → Steps s0 (more (malformed_char next source file start s))
  unfolding malformed_char fail emit
  malformed_char-Steps s0 s start span (a, b, c, base, d, order, e, f) =
      let fits = scan_malformed_char_literal-within (drop s.at (content source)) in
      let rest = length-drop s.at (content source) in
      let (len, closed) = scan_malformed_char_literal (drop s.at (content source)) in
      let behind : Lexing = record s { at = s.at + (len + (if closed then 1 else 0)) } in
      (
        placed-Good TokenKind.error start s0.at behind base (omega (arith, fits, rest)) order a
            (omega arith),
        omega arith,
      )

  ident-Steps :
      (s0 s : Lexing) (start : ℕ) (span : Span) (kind : TokenKind) (extra : ℕ)
      → Matched s0 start span s
      → span.end + extra ≤ length source
      → Steps s0 (
          more (
            emit kind
              (record span { end = as_u32 (span.end + extra) })
              (record s { at = s.at + extra })))
  unfolding emit
  ident-Steps s0 s start span kind extra (a, b, c, base, d, order, e, f) fits =
      let whole = length-content source in
      let last = as_u32-small (span.end + extra) (omega arith) in
      (
        emit-Good kind (record span { end = as_u32 (span.end + extra) }) (s0.at + bom)
            (record s { at = s.at + extra }) base (omega arith) order (omega arith)
            (omega (arith, last)) (omega (arith, last)),
        omega arith,
      )

  ident_fits :
      (s0 s : Lexing) (start : ℕ) (span : Span)
      → Matched s0 start span s
      → span.end + (classify_ident source span).1 ≤ length source
  ident_fits s0 s start span (a, b, c, base, d, order, e, f) =
      classify_ident-within source span (omega (arith, length-content source))

  pub on_match-Steps :
      (s0 s : Lexing) (start : ℕ) (span : Span) (kind : Option Main)
      → Matched s0 start span s
      → Steps s0 (on_match next source file start span kind s)
  unfolding on_match fail simple_kind
  on_match-Steps s0 s start span (some Main.ident) m =
      ident-Steps s0 s start span (classify_ident source span).0 (classify_ident source span).1 m
        (ident_fits s0 s start span m)
  on_match-Steps s0 s start span (some Main.comment) (a, b, c, base, d, order, e, f) = (
    (c, base, InOrder-later bom (s0.at + bom) (s.at + bom) s.tokens order (omega arith)),
    omega arith,
  )
  on_match-Steps s0 s start span (some Main.raw_quote) m =
      whole-Steps s0 s start span TokenKind.raw_string_start (str true ∷ s.modes) m m.3
        (omega arith)
  on_match-Steps s0 s start span (some Main.quote) m =
      whole-Steps s0 s start span TokenKind.string_start (str false ∷ s.modes) m m.3 (omega arith)
  on_match-Steps s0 s start span (some Main.l_brace) m =
      whole-Steps s0 s start span TokenKind.l_brace (opened s.modes) m (HasBase-opened s.modes m.3)
        (omega (arith, length-opened s.modes))
  on_match-Steps s0 s start span (some Main.r_brace) m =
      close_brace-Steps s0 s start span s.modes m m.3 (omega arith)
  on_match-Steps s0 s start span (some main) m =
      whole-Steps s0 s start span _ s.modes m m.3 (omega arith)
  on_match-Steps s0 s start span none m =
      if-cases (Steps s0) (text_eq (slice (content source) start s.at) (codes "'"))
        (λ _. malformed_char-Steps s0 s start span m)
        (λ _. whole-Steps s0 s start span TokenKind.error s.modes m m.3 (omega arith))
