-- ===== src/Uri/RoundTrip.antt =====
-- A path written as an address and read back.
use brasa.Prelude.{
  ℕ, ◌/◌, ◌%◌, ◌<◌, ◌≡◌, refl, ap, ◌∙◌, Bool, true, false, ◌||◌, Option, some, [], ◌∷◌, ◌++◌, ◌==◌,
  if-cases, codes, All, arith,
}
use brasa.Value.{Text}
use brasa.Source.Utf8.{chars}
use brasa.Lexer.{starts_with}
use brasa.Token.{to_digit}
use brasa.Uri.{
  hex_byte, escape_byte, decoded, is_plain, hex_digit, encode_byte, percent_encode, percent_decode,
  or_replaced, path_of_rest, to_path, from_path,
}

to_digit-hex_digit : (n : ℕ) → n < 16 → to_digit 16 (hex_digit n) ≡ some n
to_digit-hex_digit n h = ground arith

hex_byte-hex_digit : (c : ℕ) → c < 256 → hex_byte (hex_digit (c / 16)) (hex_digit (c % 16)) ≡ some c
unfolding hex_byte
hex_byte-hex_digit c h =
    let sign : (hex_digit (c / 16) == b'+') ≡ false = ground arith in
    rw (sign, to_digit-hex_digit (c / 16) (omega arith), to_digit-hex_digit (c % 16) (omega arith))
      (ap some (omega arith))

decoded-plain : (c : ℕ) (text : Text) → (c == b'%') ≡ false → decoded (c ∷ text) ≡ c ∷ decoded text
unfolding decoded escape_byte
decoded-plain c [] e = refl
decoded-plain c (d ∷ []) e = refl
decoded-plain c (d ∷ x ∷ rest) e = rw (e, decoded) refl

decoded-escape :
    (d e byte : ℕ) (text : Text)
    → hex_byte d e ≡ some byte
    → decoded (b'%' ∷ d ∷ e ∷ text) ≡ byte ∷ decoded text
unfolding decoded escape_byte
decoded-escape d e byte text h = rw (h, decoded) refl

plain_no_escape : (c : ℕ) → is_plain c ≡ true → (c == b'%') ≡ false
plain_no_escape c h = ground arith

decoded-encode_byte :
    (c : ℕ) (text : Text) → c < 256 → decoded (encode_byte c ++ text) ≡ c ∷ decoded text
unfolding encode_byte
decoded-encode_byte c text h =
    if-cases {A = Text} (λ t. decoded (t ++ text) ≡ c ∷ decoded text) (is_plain c)
      (λ e. decoded-plain c text (plain_no_escape c e))
      (λ e.
        decoded-escape (hex_digit (c / 16)) (hex_digit (c % 16)) c text (hex_byte-hex_digit c h))

append_assoc : (xs ys zs : Text) → (xs ++ ys) ++ zs ≡ xs ++ (ys ++ zs)
append_assoc [] ys zs = refl
append_assoc (x ∷ xs) ys zs = ap (λ z. x ∷ z) (append_assoc xs ys zs)

pub decoded-percent_encode :
    (path : Text) → All (λ c. c < 256) path → decoded (percent_encode path) ≡ path
unfolding percent_encode decoded
decoded-percent_encode [] h = refl
decoded-percent_encode (c ∷ cs) (first, others) =
    decoded-encode_byte c (percent_encode cs) first
    ∙ ap (λ z. c ∷ z) (decoded-percent_encode cs others)

-- The bytes that an encoded path has.
abbrev is_address : ℕ → Bool
is_address c = (c == b'%') || is_plain c

-- A parser that takes each address of a file whose path has only such bytes, and keeps its text.
abbrev pub Accepts : (Text → Option Text) → Type 0
Accepts parse =
    (path : Text)
    → All (λ c. is_address c ≡ true) path
    → parse (codes "file:///" ++ path) ≡ some (codes "file:///" ++ path)

hex_digit-is_plain : (n : ℕ) → n < 16 → is_address (hex_digit n) ≡ true
hex_digit-is_plain n h = ground arith

All-append : (P : ℕ → Type 0) (xs ys : Text) → All P xs → All P ys → All P (xs ++ ys)
All-append P [] ys h k = k
All-append P (x ∷ xs) ys (first, others) k = (first, All-append P xs ys others k)

encode_byte-is_address : (c : ℕ) → c < 256 → All (λ b. is_address b ≡ true) (encode_byte c)
unfolding encode_byte
encode_byte-is_address c h =
    if-cases {A = Text} (All (λ b. is_address b ≡ true)) (is_plain c) (λ e. (ground arith, tt))
      (λ e. (
        refl,
        (
          hex_digit-is_plain (c / 16) (omega arith),
          (hex_digit-is_plain (c % 16) (omega arith), tt),
        ),
      ))

percent_encode-is_address :
    (path : Text) → All (λ c. c < 256) path → All (λ b. is_address b ≡ true) (percent_encode path)
unfolding percent_encode
percent_encode-is_address [] h = tt
percent_encode-is_address (c ∷ cs) (first, others) =
    All-append (λ b. is_address b ≡ true) (encode_byte c) (percent_encode cs)
      (encode_byte-is_address c first) (percent_encode-is_address cs others)

-- Over a parser that takes an address whose path has only plain bytes and `%`, and keeps its text, each
-- absolute path of valid UTF-8 has an address, and that address names the path.
pub to_path-from_path :
    (parse : Text → Option Text) (replaced : Text → Text) (rest : Text) (n : ℕ)
    → Accepts parse
    → All (λ c. c < 256) rest
    → chars (b'/' ∷ rest) ≡ some n
    → (uri : Text) × (from_path parse (b'/' ∷ rest) ≡ some uri)
      × (to_path replaced uri ≡ some (b'/' ∷ rest))
unfolding from_path to_path path_of_rest percent_decode or_replaced starts_with percent_encode
    encode_byte
to_path-from_path parse replaced rest n accepts bytes text =
    let back : decoded (percent_encode (b'/' ∷ rest)) ≡ b'/' ∷ rest =
      decoded-percent_encode (b'/' ∷ rest) (omega arith, bytes) in
    (
      codes "file:///" ++ percent_encode rest,
      rw text (accepts (percent_encode rest) (percent_encode-is_address rest bytes)),
      ap some (
          ap (λ t. or_replaced replaced t (chars t)) back
          ∙ ap (or_replaced replaced (b'/' ∷ rest)) text),
    )
