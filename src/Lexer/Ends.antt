-- ===== src/Lexer/Ends.antt =====
-- The driver ends: a round takes a byte or closes a mode, and leaves the tokens in order.
use brasa.Prelude.{
  ℕ, zero, suc, ◌+◌, ◌*◌, ◌^◌, ◌≤◌, ◌<◌, ◌≡◌, refl, sym, ap, subst, ◌∙◌, Bool, Option, some, none,
  List, [], ◌∷◌, ◌++◌, length, drop, ltb, if◌then◌else◌, if-cases, arith,
}
use brasa.Value.{Text}
use brasa.Token.{TokenKind, Token}
use brasa.Lexer.{StringSegmentEnd, scan_string_segment, Mode, main_top, main_interp, str}
use brasa.Lexer.Segments.{length-drop, end_len, scan_string_segment-within}
use brasa.Lexer.Order.{InOrder, InOrder-later, InOrder-push, length-content, span_at-exact}
use brasa.Lexer.Driver.{
  Match, IsMatcher, Lexing, Outcome, more, ends, panics, bom_len, content, emit, fail, span_at,
  on_match, at_end, main_step, close_segment, string_text, string_step, step, run, start_lexing,
  finish, lex_all,
}
use brasa.Lexer.Rounds
use brasa.Lexer.Rounds.{HasBase}

module _ (next : Text → Option Match) (source : Text) (file : ℕ)
    (small : length source < 2 ^ 32) where
  abbrev size : ℕ
  size = Rounds.size next source file small

  abbrev bom : ℕ
  bom = Rounds.bom next source file small

  abbrev Good : Lexing → Type 0
  Good = Rounds.Good next source file small

  abbrev measure : Lexing → ℕ
  measure = Rounds.measure next source file small

  abbrev Steps : Lexing → Outcome → Type 0
  Steps = Rounds.Steps next source file small

  at_end-InOrder :
      (mode : Mode) (s : Lexing)
      → Good s
      → InOrder bom (size + bom) (at_end next source file mode s).tokens
  unfolding at_end fail
  at_end-InOrder (main_interp depth) s (a, base, order) =
      (Rounds.placed-Good next source file small TokenKind.error size s.at (record s { at = size })
        base (omega arith) order a (omega arith)).2
  at_end-InOrder main_top s (a, base, order) =
      InOrder-later bom (s.at + bom) (size + bom) s.tokens order (omega arith)
  at_end-InOrder (str raw) s (a, base, order) =
      InOrder-later bom (s.at + bom) (size + bom) s.tokens order (omega arith)

  main_step-Steps :
      IsMatcher next
      → (mode : Mode) (s : Lexing) → Good s
      → Steps s (main_step next source file mode s)
  unfolding main_step
  main_step-Steps law mode s good = on_next (next (drop s.at (content source))) refl
    where
      on_next :
          (o : Option Match)
          → next (drop s.at (content source)) ≡ o
          → Steps s (elim o [
            | none ↦ ends (at_end next source file mode s)
            | some m ↦
                let start = s.at + m.skipped in
                let end = start + m.len in
                on_match next source file start
                  (span_at next source file start end)
                  m.kind
                  (record s { at = end })
          ])
      on_next none e = at_end-InOrder mode s good
      on_next (some m) e =
          let start = s.at + m.skipped in
          let end = start + m.len in
          let more_than : 1 ≤ m.len = law.nonempty _ m e in
          let inside : end ≤ size =
            omega (arith, law.within _ m e, length-drop s.at (content source), good.0) in
          let place = span_at-exact next source file start end small (omega arith) inside in
          Rounds.on_match-Steps next source file small s (record s { at = end }) start
            (span_at next source file start end) m.kind
            (
              omega arith,
              omega arith,
              inside,
              good.1,
              omega arith,
              good.2,
              ap (λ p. p.start) place,
              ap (λ p. p.end) place,
            )

  string_text-Good :
      (len : ℕ) (s : Lexing)
      → Good s
      → s.at + len ≤ size
      → let s' = string_text next source file len s in
        Good s' × (s'.at ≡ s.at + len) × (s'.modes ≡ s.modes)
  unfolding string_text emit
  string_text-Good len s (a, base, order) inside =
      if-cases (λ s'. Good s' × (s'.at ≡ s.at + len) × (s'.modes ≡ s.modes)) (ltb 0 len)
        (λ e. (
          Rounds.placed-Good next source file small TokenKind.string_text s.at s.at
              (record s { at = s.at + len }) base inside order (omega arith) (omega arith),
          refl,
          refl,
        ))
        (λ e. ((a, base, order), ground arith, refl))

  close_segment-Steps :
      (raw : Bool) (end : StringSegmentEnd) (s0 s : Lexing)
      → Good s
      → HasBase (drop 1 s.modes)
      → s0.at ≤ s.at
      → s.at + end_len raw end ≤ size
      → length (drop 1 s.modes) < length s0.modes
      → length s.modes ≤ length s0.modes
      → Steps s0 (more (close_segment next source file raw end s))
  unfolding close_segment fail emit
  close_segment-Steps raw StringSegmentEnd.quote s0 s (a, base, order) base' from inside fewer
        same =
      let qlen : ℕ = if raw then 3 else 1 in
      (
        Rounds.placed-Good next source file small TokenKind.string_end s.at s.at
            (record s { at = s.at + qlen; modes = drop 1 s.modes }) base' inside order (omega arith)
            (omega arith),
        omega arith,
      )
  close_segment-Steps raw StringSegmentEnd.interp s0 s (a, base, order) base' from inside fewer
        same =
      (
        Rounds.placed-Good next source file small TokenKind.interp_start s.at s.at
            (record s { at = s.at + 2; modes = main_interp 0 ∷ s.modes }) base inside order
            (omega arith) (omega arith),
        omega arith,
      )
  close_segment-Steps raw end s0 s (a, base, order) base' from inside fewer same = (
    Rounds.placed-Good next source file small TokenKind.error s.at s.at
        (record s { modes = drop 1 s.modes }) base' a order (omega arith) (omega arith),
    omega arith,
  )

  string_step-Steps :
      (raw : Bool) (modes : List Mode) (s : Lexing)
      → s.modes ≡ str raw ∷ modes
      → Good s
      → Steps s (string_step next source file raw s)
  unfolding string_step
  string_step-Steps raw modes s e good =
      let rest = drop s.at (content source) in
      let (len, end) = scan_string_segment rest raw in
      let fits = scan_string_segment-within rest raw in
      let room = length-drop s.at (content source) in
      let (good', moved, kept) = string_text-Good len s good (omega (arith, fits, room, good.0)) in
      let popped : drop 1 (string_text next source file len s).modes ≡ modes =
        ap (drop 1) (kept ∙ e) in
      let below : HasBase modes = subst HasBase e good.1 in
      close_segment-Steps raw end s (string_text next source file len s) good'
        (subst HasBase (sym popped) below) (omega (arith, moved))
        (omega (arith, fits, room, good.0, moved)) (omega (arith, ap length popped, ap length e))
        (omega (arith, ap length kept))

  step-Steps :
      IsMatcher next
      → (modes : List Mode) (s : Lexing) → s.modes ≡ modes
      → Good s
      → Steps s (step next source file modes s)
  unfolding step
  step-Steps law [] s e good = subst HasBase e good.1
  step-Steps law (str raw ∷ modes) s e good = string_step-Steps raw modes s e good
  step-Steps law (mode ∷ modes) s e good = main_step-Steps law mode s good

  run-Ends :
      IsMatcher next
      → (fuel : ℕ) (s : Lexing) → Good s
      → measure s < fuel
      → (s' : Lexing) × (run next source file fuel s ≡ some s') × InOrder bom (size + bom) s'.tokens
  unfolding run
  run-Ends law zero s good enough = absurd (omega arith)
  run-Ends law (suc fuel) s good enough =
      after (step next source file s.modes s) (step-Steps law s.modes s refl good)
        (λ s' good' less. run-Ends law fuel s' good' less)
    where
      after :
          (o : Outcome)
          → Steps s o
          → ((s' : Lexing)
              → Good s'
              → measure s' < fuel
              → (s2 : Lexing) × (run next source file fuel s' ≡ some s2)
                × InOrder bom (size + bom) s2.tokens)
          → (s2 : Lexing) × ((elim o [
            | more s' ↦ run next source file fuel s'
            | ends s' ↦ some s'
            | panics ↦ none
          ])
              ≡ some s2)
            × InOrder bom (size + bom) s2.tokens
      after (more s') (good', less) later = later s' good' (omega arith)
      after (ends s') order later = (s', refl, order)
      after panics h later = absurd h

  -- Over a matcher that finds no empty match and none beyond the text, and for a source of less than
  -- 2^32 bytes, the scan ends without a panic. Its tokens stand one behind the other between the byte
  -- order mark and the end of the source, and the last of them is `Eof` at that end.
  pub lex_all-InOrder :
      IsMatcher next
      → (s : Lexing) × (before : List Token) × (lex_all next source file ≡ some s)
        × (s.tokens
            ≡ before
              ++ record {
                kind = TokenKind.eof;
                span = record { start = length source; end = length source; file = file };
              }
                ∷ [])
        × InOrder (bom_len source) (length source) s.tokens
  unfolding lex_all finish emit
  lex_all-InOrder law =
      let (s, e, order) =
        run-Ends law (2 * size + 2) start_lexing (omega arith, refl, omega arith) (omega arith) in
      let whole = length-content source in
      let place = span_at-exact next source file size size small (omega arith) (omega arith) in
      let first = ap (λ p. p.start) place in
      let last = ap (λ p. p.end) place in
      let full : size + bom ≡ length source = omega (arith, whole) in
      let there : span_at next source file size size
          ≡ record { start = length source; end = length source; file = file } =
        cc in
      (
        finish next source file s,
        s.tokens,
        ap (λ o. elim o [ none ↦ none | some s ↦ some (finish next source file s) ]) e,
        ap (λ p. s.tokens ++ record { kind = TokenKind.eof; span = p } ∷ []) there,
        InOrder-push bom (size + bom) (length source) s.tokens
            (record { kind = TokenKind.eof; span = span_at next source file size size }) order
            (omega (arith, first)) (omega (arith, first, last)) (omega (arith, last, full)),
      )
