-- ===== src/Token/Displayed.antt =====
-- The characters that a displayed string (crates/brasa_vm/src/display.rs) shows.
use brasa.Prelude.{ℕ, ◌≢◌, [], ◌∷◌, ◌++◌, ◌==◌, if-cases, All, arith}
use brasa.Value.{Text}
use brasa.Token.Escapes.{escape_str, escape_one}

-- No line break or tab.
abbrev pub IsOnOneLine : ℕ → Type 0
IsOnOneLine c = (c ≢ 9) × (c ≢ 10)

All-append : (xs ys : Text) → All IsOnOneLine xs → All IsOnOneLine ys → All IsOnOneLine (xs ++ ys)
All-append [] ys h k = k
All-append (x ∷ xs) ys (first, others) k = (first, All-append xs ys others k)

escape_one-IsOnOneLine : (c : ℕ) → All IsOnOneLine (escape_one c)
unfolding escape_one
escape_one-IsOnOneLine c =
    if-cases (All IsOnOneLine) (c == b'"') (λ e. shown b'"' (λ k. omega arith) (λ k. omega arith))
      λ e.
        if-cases (All IsOnOneLine) (c == b'\\')
          (λ f. shown b'\\' (λ k. omega arith) (λ k. omega arith))
          λ f.
            if-cases (All IsOnOneLine) (c == 10)
              (λ g. shown b'n' (λ k. omega arith) (λ k. omega arith))
              λ g.
                if-cases (All IsOnOneLine) (c == 9)
                  (λ h. shown b't' (λ k. omega arith) (λ k. omega arith))
                  λ h.
                    if-cases (All IsOnOneLine) (c == 13)
                      (λ j. shown b'r' (λ k. omega arith) (λ k. omega arith))
                      λ j. ((λ k. ground arith, λ k. ground arith), tt)
  where
    shown : (d : ℕ) → d ≢ 9 → d ≢ 10 → All IsOnOneLine (b'\\' ∷ d ∷ [])
    shown d h k = ((λ e. omega arith, λ e. omega arith), ((h, k), tt))

pub escape_str-IsOnOneLine : (s : Text) → All IsOnOneLine (escape_str s)
unfolding escape_str
escape_str-IsOnOneLine [] = tt
escape_str-IsOnOneLine (c ∷ cs) =
    All-append (escape_one c) (escape_str cs) (escape_one-IsOnOneLine c) (escape_str-IsOnOneLine cs)
