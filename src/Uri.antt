-- ===== src/Uri.antt =====
-- crates/brasa_lsp/src/uri.rs: paths as `file:` addresses. The parser of addresses is the parameter `parse`,
-- with the text of an address, and `replaced` what `from_utf8_lossy` makes of bytes that are no UTF-8.
pub mod RoundTrip
mod Tests
use brasa.Prelude.{
  ℕ, zero, suc, ◌+◌, ◌*◌, ◌-◌, ◌/◌, ◌%◌, Bool, true, false, ◌&&◌, ◌||◌, Option, some, none, ◌>>=◌,
  List, [], ◌∷◌, ◌++◌, ◌==◌, leb, ltb, if◌then◌else◌, codes, drop, length,
}
use brasa.Value.{Text}
use brasa.Source.Utf8.{chars}
use brasa.Lexer.{starts_with}
use brasa.Token.{to_digit}

-- `u8::from_str_radix` on two bytes, which also takes a sign before one digit.
unfoldable pub hex_byte : ℕ → ℕ → Option ℕ
hex_byte d e =
    if d == b'+'
    then to_digit 16 e
    else (do high ← to_digit 16 d; low ← to_digit 16 e; some (16 * high + low))

unfoldable pub escape_byte : ℕ → ℕ → ℕ → Option ℕ
unfolding hex_byte
escape_byte c d e = if c == b'%' then hex_byte d e else none

-- The bytes that the loop collects.
unfoldable pub decoded : Text → Text
unfolding escape_byte
decoded [] = []
decoded (c ∷ []) = c ∷ []
decoded (c ∷ d ∷ []) = c ∷ d ∷ []
decoded (c ∷ d ∷ e ∷ rest) = elim (escape_byte c d e) [
  | some byte ↦ byte ∷ decoded rest
  | none ↦ c ∷ decoded (d ∷ e ∷ rest)
]

abbrev pub is_plain : ℕ → Bool
is_plain c =
    (leb b'A' c && leb c b'Z')
    || ((leb b'a' c && leb c b'z')
        || ((leb b'0' c && leb c b'9')
            || ((c == b'-') || ((c == b'.') || ((c == b'_') || ((c == b'~') || (c == b'/')))))))

abbrev pub hex_digit : ℕ → ℕ
hex_digit n = if ltb n 10 then 48 + n else 55 + n

unfoldable pub encode_byte : ℕ → Text
encode_byte c = if is_plain c then c ∷ [] else b'%' ∷ hex_digit (c / 16) ∷ hex_digit (c % 16) ∷ []

unfoldable pub percent_encode : Text → Text
unfolding encode_byte
percent_encode [] = []
percent_encode (c ∷ cs) = encode_byte c ++ percent_encode cs

unfoldable pub or_replaced : (Text → Text) → Text → Option ℕ → Text
or_replaced replaced bytes (some n) = bytes
or_replaced replaced bytes none = replaced bytes

unfoldable pub percent_decode : (Text → Text) → Text → Text
unfolding decoded or_replaced
percent_decode replaced text = or_replaced replaced (decoded text) (chars (decoded text))

-- What is behind the scheme, where the authority is empty.
unfoldable pub path_of_rest : (Text → Text) → Text → Option Text
unfolding percent_decode
path_of_rest replaced [] = none
path_of_rest replaced (c ∷ rest) =
    if c == b'/' then some (percent_decode replaced (c ∷ rest)) else none

unfoldable pub to_path : (Text → Text) → Text → Option Text
unfolding path_of_rest
to_path replaced text =
    if starts_with text (codes "file://") then path_of_rest replaced (drop 7 text) else none

abbrev pub is_absolute : Text → Bool
is_absolute [] = false
is_absolute (c ∷ rest) = c == b'/'

abbrev is_text : Option ℕ → Bool
is_text none = false
is_text (some n) = true

-- A path is its bytes, and the result the text of the address that `parse` accepts.
unfoldable pub from_path : (Text → Option Text) → Text → Option Text
unfolding percent_encode
from_path parse path =
    if is_absolute path && is_text (chars path)
    then parse (codes "file://" ++ percent_encode path)
    else none
