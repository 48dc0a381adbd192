-- ===== src/Bundle/Trailer.antt =====
-- The record behind a payload that is appended to an executable.
use brasa.Prelude.{
  ℕ, zero, suc, ◌+◌, ◌*◌, ◌/◌, ◌%◌, ◌^◌, ◌<◌, ◌≡◌, ◌↔◌, refl, sym, ap, subst, ◌∙◌, List, [], ◌∷◌,
  ◌++◌, All, some, length, take, drop, arith, text_eq, eq_of_text_eq, Bool-cases, inl, inr,
}
use brasa.Bundle.{Bytes, to_le_bytes, from_le_bytes, trailer_magic, trailer, payload_len}
use brasa.Bundle.Codec.{from_le_bytes-to_le_bytes}

abbrev pub IsByte : ℕ → Type 0
IsByte b = b < 256

to_le_bytes-from_le_bytes :
    (bs : Bytes) → All IsByte bs → to_le_bytes (length bs) (from_le_bytes bs) ≡ bs
unfolding to_le_bytes from_le_bytes
to_le_bytes-from_le_bytes [] v = refl
to_le_bytes-from_le_bytes (b ∷ bs) (v, vs) =
    let rest = from_le_bytes bs in
    let low : (b + 256 * rest) % 256 ≡ b = omega arith in
    let high : (b + 256 * rest) / 256 ≡ rest = omega arith in
    rw low (rw high (ap (λ z. b ∷ z) (to_le_bytes-from_le_bytes bs vs)))

split_at : {A : Type 0} (n : ℕ) (xs : List A) → take n xs ++ drop n xs ≡ xs
split_at zero xs = refl
split_at (suc n) [] = refl
split_at (suc n) (x ∷ xs) = ap (λ z. x ∷ z) (split_at n xs)

All-drop : {A : Type 0} (P : A → Type 0) (n : ℕ) (xs : List A) → All P xs → All P (drop n xs)
All-drop P zero xs v = v
All-drop P (suc n) [] v = v
All-drop P (suc n) (x ∷ xs) (v, vs) = All-drop P n xs vs

length-drop : {A : Type 0} (n m : ℕ) (xs : List A) → length xs ≡ n + m → length (drop n xs) ≡ m
length-drop zero m xs e = omega arith
length-drop (suc n) m [] e = absurd (omega arith)
length-drop (suc n) m (x ∷ xs) e = length-drop n m xs (omega arith)

magic_of_payload_len :
    (bytes : Bytes) (n : ℕ)
    → payload_len bytes ≡ some n
    → (take 8 bytes ≡ trailer_magic) × (from_le_bytes (drop 8 bytes) ≡ n)
unfolding payload_len
magic_of_payload_len bytes n e = elim (Bool-cases (text_eq (take 8 bytes) trailer_magic)) [
  | inl same ↦ (eq_of_text_eq (take 8 bytes) trailer_magic same, ground arith)
  | inr differs ↦ absurd (ground arith)
]

payload_len-of_trailer : (n : ℕ) → n < 2 ^ 64 → payload_len (trailer n) ≡ some n
unfolding payload_len trailer text_eq
payload_len-of_trailer n h = ap some (from_le_bytes-to_le_bytes 8 n h)

-- Of sixteen bytes exactly the trailer of a payload length is read as that length.
pub payload_len-trailer :
    (bytes : Bytes) (n : ℕ)
    → length bytes ≡ 16
    → All IsByte bytes
    → n < 2 ^ 64
    → (payload_len bytes ≡ some n) ↔ (bytes ≡ trailer n)
unfolding payload_len trailer
payload_len-trailer bytes n l v h = (
  (λ e.
      let (magic, value) = magic_of_payload_len bytes n e in
      let tail = drop 8 bytes in
      let back : to_le_bytes 8 n ≡ tail =
        ap (to_le_bytes 8) (sym value)
        ∙ subst (λ w. to_le_bytes w (from_le_bytes tail) ≡ tail) (length-drop 8 8 bytes l)
            (to_le_bytes-from_le_bytes tail (All-drop IsByte 8 bytes v)) in
      sym (split_at 8 bytes)
      ∙ (ap (λ z. z ++ tail) magic ∙ ap (λ z. trailer_magic ++ z) (sym back))),
  (λ e. ap payload_len e ∙ payload_len-of_trailer n h),
)
