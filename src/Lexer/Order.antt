-- ===== src/Lexer/Order.antt =====
-- The places of the tokens: in order, apart from each other and in the source.
use brasa.Prelude.{
  ℕ, zero, suc, ◌+◌, ◌^◌, ◌≤◌, ◌<◌, ◌≡◌, ap, ◌∙◌, Option, List, [], ◌∷◌, ◌++◌, length, take,
  if-cases, text_eq, eq_of_text_eq, arith,
}
use brasa.Value.{Text}
use brasa.Token.{Token}
use brasa.Lexer.Segments.{length-drop}
use brasa.Lexer.Driver.{Match, as_u32, bom_len, content, span_at}

-- Tokens one behind the other between two offsets.
abbrev pub InOrder : ℕ → ℕ → List Token → Type 0
InOrder lo hi [] = lo ≤ hi
InOrder lo hi (t ∷ ts) =
    (lo ≤ t.span.start) × (t.span.start ≤ t.span.end) × InOrder t.span.end hi ts

pub InOrder-later :
    (lo hi hi' : ℕ) (ts : List Token) → InOrder lo hi ts → hi ≤ hi' → InOrder lo hi' ts
InOrder-later lo hi hi' [] h more = omega arith
InOrder-later lo hi hi' (t ∷ ts) (a, b, c) more = (a, b, InOrder-later t.span.end hi hi' ts c more)

pub InOrder-push :
    (lo mid hi : ℕ) (ts : List Token) (t : Token)
    → InOrder lo mid ts
    → mid ≤ t.span.start
    → t.span.start ≤ t.span.end
    → t.span.end ≤ hi
    → InOrder lo hi (ts ++ t ∷ [])
InOrder-push lo mid hi [] t h a b c = (omega arith, b, c)
InOrder-push lo mid hi (u ∷ us) t (p, q, r) a b c =
    (p, q, InOrder-push u.span.end mid hi us t r a b c)

pub as_u32-small : (n : ℕ) → n < 2 ^ 32 → as_u32 n ≡ n
unfolding as_u32
as_u32-small n h = omega arith

length-take : (n : ℕ) (xs : Text) → length (take n xs) ≤ length xs
length-take zero xs = omega arith
length-take (suc n) [] = omega arith
length-take (suc n) (x ∷ xs) = omega (arith, length-take n xs)

pub bom_len-within : (source : Text) → bom_len source ≤ length source
unfolding bom_len
bom_len-within source =
    if-cases (λ n. n ≤ length source) (text_eq (take 3 source) (239 ∷ 187 ∷ 191 ∷ []))
      (λ e. omega (
        arith,
        ap length (eq_of_text_eq (take 3 source) (239 ∷ 187 ∷ 191 ∷ []) e),
        length-take 3 source,
      ))
      (λ e. omega arith)

pub length-content : (source : Text) → bom_len source + length (content source) ≡ length source
unfolding content
length-content source = omega (arith, length-drop (bom_len source) source, bom_len-within source)

exact :
    (source : Text) (n : ℕ)
    → length source < 2 ^ 32
    → n ≤ length (content source)
    → as_u32 (as_u32 n + bom_len source) ≡ n + bom_len source
exact source n small inside =
    let whole = length-content source in
    ap (λ k. as_u32 (k + bom_len source)) (as_u32-small n (omega arith))
    ∙ as_u32-small (n + bom_len source) (omega arith)

-- In a source of less than 2^32 bytes no offset wraps around.
pub span_at-exact :
    (next : Text → Option Match) (source : Text) (file start end : ℕ)
    → length source < 2 ^ 32
    → start ≤ end
    → end ≤ length (content source)
    → span_at next source file start end
      ≡ record { start = start + bom_len source; end = end + bom_len source; file = file }
unfolding span_at
span_at-exact next source file start end small order inside =
    let first = exact source start small (omega arith) in
    let last = exact source end small inside in cc
