-- ===== src/Bundle/Tests.antt =====
-- A program of two modules, the second of which imports the first, as a payload.
use brasa.Prelude.{ℕ, ◌≡◌, refl, [], ◌∷◌, ◌++◌, All, codes, arith, some, ◌↔◌, text_eq}
use brasa.Source.Utf8.{chars}
use brasa.Bundle.{
  Bytes, Bundle, BundledModule, ok, err, truncated, encode, decode, put_len, put_str, put_u32,
  put_imports, put_module, put_modules, to_le_bytes, from_le_bytes, take_bytes, read_u32,
  read_string, read_imports, read_module, read_modules, read_header, read_bundle, validate,
  modules_in_range, targets_in_range, payload_len, trailer, payload_magic,
}
use brasa.Bundle.Payload.{FitsModule, IsString}
use brasa.Bundle.Reading.{IsConsistent, decode-encode, decode-truncated, decode-IsConsistent}
use brasa.Bundle.Trailer.{IsByte, payload_len-trailer}

abbrev util : BundledModule
util = record { path = codes "u"; name = codes "u"; source = []; imports = [] }

abbrev main : BundledModule
main = record { path = codes "m"; name = codes "m"; source = codes "u"; imports = (0, 0) ∷ [] }

abbrev program : Bundle
program = record { modules = util ∷ main ∷ []; entry = 1 }

abbrev payload : Bytes
payload =
    payload_magic
    ++ (1 ∷ 0 ∷ 0 ∷ 0 ∷ 1 ∷ 0 ∷ 0 ∷ 0 ∷ 2 ∷ 0 ∷ 0 ∷ 0 ∷ 1 ∷ 0 ∷ 0 ∷ 0 ∷ 117 ∷ 1 ∷ 0 ∷ 0 ∷ 0 ∷ 117
        ∷ 0 ∷ 0 ∷ 0 ∷ 0 ∷ 0 ∷ 0 ∷ 0 ∷ 0 ∷ [])
    ++ (1 ∷ 0 ∷ 0 ∷ 0 ∷ 109 ∷ 1 ∷ 0 ∷ 0 ∷ 0 ∷ 109 ∷ 1 ∷ 0 ∷ 0 ∷ 0 ∷ 117 ∷ 1 ∷ 0 ∷ 0 ∷ 0 ∷ 0 ∷ 0 ∷ 0
        ∷ 0 ∷ 0 ∷ 0 ∷ 0 ∷ 0 ∷ [])

run_encode : encode program ≡ ok payload
unfolding encode put_len put_u32 put_str put_imports put_module put_modules to_le_bytes
run_encode = refl

run_decode : decode payload ≡ ok program
unfolding decode read_header read_bundle read_modules read_module read_string read_u32 take_bytes
    from_le_bytes read_imports validate modules_in_range targets_in_range text_eq chars
run_decode = refl

run_truncated : decode (payload_magic ++ 1 ∷ 0 ∷ []) ≡ err truncated
unfolding decode read_header read_u32 take_bytes text_eq
run_truncated = refl

one_char : (c : ℕ) → chars (c ∷ []) ≡ some 1 → IsString (c ∷ [])
one_char c e = record { scalars = 1; utf8 = e; short = omega arith }

is_u : chars (codes "u") ≡ some 1
unfolding chars
is_u = refl

is_m : chars (codes "m") ≡ some 1
unfolding chars
is_m = refl

no_text : IsString []
unfolding chars
no_text = record { scalars = 0; utf8 = refl; short = omega arith }

util-FitsModule : FitsModule util
util-FitsModule = record {
  path = one_char 117 is_u;
  name = one_char 117 is_u;
  source = no_text;
  edges = omega arith;
  imports = tt;
}

main-FitsModule : FitsModule main
main-FitsModule = record {
  path = one_char 109 is_m;
  name = one_char 109 is_m;
  source = one_char 117 is_u;
  edges = omega arith;
  imports = ((omega arith, omega arith), tt);
}

program-IsConsistent : IsConsistent program
program-IsConsistent = record {
  size = omega arith;
  entry = omega arith;
  targets = (tt, ((omega arith, tt), tt));
}

decode-encode_example : (p : Bytes) × (encode program ≡ ok p) × (decode (p ++ 7 ∷ []) ≡ ok program)
decode-encode_example =
    decode-encode program (7 ∷ []) program-IsConsistent (util-FitsModule, (main-FitsModule, tt))

decode-truncated_example : decode payload_magic ≡ err truncated
decode-truncated_example =
    decode-truncated program payload payload_magic program-IsConsistent
      (util-FitsModule, (main-FitsModule, tt)) run_encode (1, _, refl)

decode-IsConsistent_example : IsConsistent program
decode-IsConsistent_example = decode-IsConsistent payload program run_decode

abbrev record_of_258 : Bytes
record_of_258 = codes "BRASABND" ++ 2 ∷ 1 ∷ 0 ∷ 0 ∷ 0 ∷ 0 ∷ 0 ∷ 0 ∷ []

record_of_258-bytes : All IsByte record_of_258
record_of_258-bytes = (
  omega arith,
  (
    omega arith,
    (
      omega arith,
      (
        omega arith,
        (
          omega arith,
          (
            omega arith,
            (
              omega arith,
              (
                omega arith,
                (
                  omega arith,
                  (
                    omega arith,
                    (
                      omega arith,
                      (omega arith, (omega arith, (omega arith, (omega arith, (omega arith, tt))))),
                    ),
                  ),
                ),
              ),
            ),
          ),
        ),
      ),
    ),
  ),
)

payload_len-trailer_example : (payload_len record_of_258 ≡ some 258) ↔ (record_of_258 ≡ trailer 258)
payload_len-trailer_example =
    payload_len-trailer record_of_258 258 refl record_of_258-bytes (omega arith)
