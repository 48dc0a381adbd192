-- ===== src/Uri/Tests.antt =====
-- A path with a space, and escapes that are none.
use brasa.Prelude.{◌≡◌, refl, some, [], ◌∷◌, ◌++◌, codes, arith}
use brasa.Value.{Text}
use brasa.Source.Utf8.{chars}
use brasa.Uri.{hex_byte, escape_byte, decoded, percent_encode, encode_byte, from_path, to_path}
use brasa.Uri.RoundTrip.{to_path-from_path}

run_encode : percent_encode (codes "/tmp/my file") ≡ codes "/tmp/my%20file"
unfolding percent_encode encode_byte
run_encode = refl

run_no_escape : decoded (codes "/50%zz") ≡ codes "/50%zz"
unfolding decoded escape_byte hex_byte
run_no_escape = refl

-- A sign in front of one digit is taken for two digits.
run_signed_escape : decoded (codes "/a%+f") ≡ codes "/a" ++ 15 ∷ []
unfolding decoded escape_byte hex_byte
run_signed_escape = refl

to_path-from_path_example :
    (uri : Text) × (from_path (λ text. some text) (codes "/a b") ≡ some uri)
    × (to_path (λ text. text) uri ≡ some (codes "/a b"))
unfolding chars
to_path-from_path_example =
    to_path-from_path (λ text. some text) (λ text. text) (codes "a b") 4 (λ path h. refl)
      (omega arith, (omega arith, (omega arith, tt))) refl
