-- ===== src/Source/Scalars.antt =====
-- Valid UTF-8 as the encoding of its scalars, against which the count of a text's characters is
-- measured.
use brasa.Prelude.{
  ℕ, zero, suc, ◌+◌, ◌/◌, ◌%◌, ◌≤◌, ◌<◌, ◌≡◌, ◌⊎◌, refl, ap, ◌∙◌, List, [], ◌∷◌, ◌++◌, Option, true,
  false, ltb, if◌then◌else◌, if-cases, ltb→lt, length, All, arith,
}
use mathlib.Core.List.{append_assoc}
use brasa.Source.Utf8.{chars, one_more, starts_three, starts_four, is_tail, within}

-- A code point that is no surrogate.
abbrev pub IsScalar : ℕ → Type 0
IsScalar c = (c < 55296) ⊎ ((57344 ≤ c) × (c < 1114112))

abbrev pub encode_scalar : ℕ → List ℕ
encode_scalar c =
    if ltb c 128
    then c ∷ []
    else if ltb c 2048
    then (192 + c / 64) ∷ (128 + c % 64) ∷ []
    else if ltb c 65536
    then (224 + c / 4096) ∷ (128 + c / 64 % 64) ∷ (128 + c % 64) ∷ []
    else (240 + c / 262144) ∷ (128 + c / 4096 % 64) ∷ (128 + c / 64 % 64) ∷ (128 + c % 64) ∷ []

abbrev pub utf8 : List ℕ → List ℕ
utf8 [] = []
utf8 (c ∷ cs) = encode_scalar c ++ utf8 cs

-- The scalars behind `n` others.
abbrev pub chars_more : ℕ → Option ℕ → Option ℕ
chars_more zero o = o
chars_more (suc n) o = one_more (chars_more n o)

chars-one : (b : ℕ) (bytes : List ℕ) → b < 128 → chars (b ∷ bytes) ≡ one_more (chars bytes)
unfolding chars
chars-one b [] h = ground arith
chars-one b (c ∷ []) h = ground arith
chars-one b (c ∷ d ∷ []) h = ground arith
chars-one b (c ∷ d ∷ e ∷ bytes) h = ground arith

chars-two :
    (b c : ℕ) (bytes : List ℕ)
    → 194 ≤ b
    → b ≤ 223
    → 128 ≤ c
    → c ≤ 191
    → chars (b ∷ c ∷ bytes) ≡ one_more (chars bytes)
unfolding chars
chars-two b c [] h i j k = ground arith
chars-two b c (d ∷ []) h i j k = ground arith
chars-two b c (d ∷ e ∷ bytes) h i j k = ground arith

chars-three :
    (b c d : ℕ) (bytes : List ℕ)
    → starts_three b c ≡ true
    → 224 ≤ b
    → is_tail d ≡ true
    → chars (b ∷ c ∷ d ∷ bytes) ≡ one_more (chars bytes)
unfolding chars
chars-three b c d [] s h t = ground arith
chars-three b c d (e ∷ bytes) s h t = ground arith

chars-four :
    (b c d e : ℕ) (bytes : List ℕ)
    → starts_four b c ≡ true
    → 240 ≤ b
    → is_tail d ≡ true
    → is_tail e ≡ true
    → chars (b ∷ c ∷ d ∷ e ∷ bytes) ≡ one_more (chars bytes)
unfolding chars
chars-four b c d e bytes s h t u =
    let one : ltb b 128 ≡ false = ground arith in
    let two : within 194 223 b ≡ false = ground arith in
    let three : starts_three b c ≡ false = ground arith in rw (one, two, three, s, t, u) refl

is_tail_of : (b : ℕ) → 128 ≤ b → b ≤ 191 → is_tail b ≡ true
is_tail_of b h k = ground arith

starts_three_of :
    (b c : ℕ)
    → 224 ≤ b
    → b ≤ 239
    → 128 ≤ c
    → c ≤ 191
    → (b ≡ 224 → 160 ≤ c)
    → (b ≡ 237 → c ≤ 159)
    → starts_three b c ≡ true
starts_three_of b c h i j k low high = ground arith

starts_four_of :
    (b c : ℕ)
    → 240 ≤ b
    → b ≤ 244
    → 128 ≤ c
    → c ≤ 191
    → (b ≡ 240 → 144 ≤ c)
    → (b ≡ 244 → c ≤ 143)
    → starts_four b c ≡ true
starts_four_of b c h i j k low high = ground arith

chars-encode_scalar :
    (c : ℕ)
    → IsScalar c
    → (bytes : List ℕ) → chars (encode_scalar c ++ bytes) ≡ one_more (chars bytes)
chars-encode_scalar c s bytes =
    if-cases Counts (ltb c 128) (λ e. chars-one c bytes (ltb→lt c 128 e))
      λ e.
        let wide : 128 ≤ c = ground arith in
        if-cases Counts (ltb c 2048)
          (λ f.
            let below = ltb→lt c 2048 f in
            chars-two (192 + c / 64) (128 + c % 64) bytes (omega arith) (omega arith) (omega arith)
              (omega arith))
          λ f.
            let wider : 2048 ≤ c = ground arith in
            if-cases Counts (ltb c 65536)
              (λ g.
                let below = ltb→lt c 65536 g in
                chars-three (224 + c / 4096) (128 + c / 64 % 64) (128 + c % 64) bytes
                  (starts_three_of (224 + c / 4096) (128 + c / 64 % 64) (omega arith) (omega arith)
                    (omega arith) (omega arith) (λ low. omega arith) (λ high. omega arith))
                  (omega arith) (is_tail_of (128 + c % 64) (omega arith) (omega arith)))
              λ g.
                let widest : 65536 ≤ c = ground arith in
                chars-four (240 + c / 262144) (128 + c / 4096 % 64) (128 + c / 64 % 64)
                  (128 + c % 64) bytes
                  (starts_four_of (240 + c / 262144) (128 + c / 4096 % 64) (omega arith)
                    (omega arith) (omega arith) (omega arith) (λ low. omega arith)
                    (λ high. omega arith))
                  (omega arith) (is_tail_of (128 + c / 64 % 64) (omega arith) (omega arith))
                  (is_tail_of (128 + c % 64) (omega arith) (omega arith))
  where
    Counts : List ℕ → Type 0
    Counts xs = chars (xs ++ bytes) ≡ one_more (chars bytes)

-- The scalars count, and behind them what the rest counts.
pub chars-utf8 :
    (cs : List ℕ)
    → All IsScalar cs
    → (bytes : List ℕ) → chars (utf8 cs ++ bytes) ≡ chars_more (length cs) (chars bytes)
chars-utf8 [] valid bytes = refl
chars-utf8 (c ∷ cs) (s, valid) bytes =
    ap chars (append_assoc (encode_scalar c) (utf8 cs) bytes)
    ∙ (chars-encode_scalar c s (utf8 cs ++ bytes) ∙ ap one_more (chars-utf8 cs valid bytes))
