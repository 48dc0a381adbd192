-- ===== src/Bundle.antt =====
-- crates/brasa_module/src/bundle.rs: a resolved program as one payload of bytes, and back. A string is
-- its UTF-8 bytes, and so is a path, which the source writes with `to_string_lossy` (it is then UTF-8). The positions of a slice are below 2 ^ 63, so an end that overflows
-- is one behind the bytes, the same error.
pub mod Codec
pub mod Payload
pub mod Writing
pub mod Reading
pub mod Trailer
mod Tests
use brasa.Prelude.{
  ℕ, zero, suc, ◌+◌, ◌-◌, ◌*◌, ◌/◌, ◌%◌, ◌^◌, List, [], ◌∷◌, ◌++◌, Bool, true, false, Option, none,
  some, leb, ltb, ◌&&◌, ◌==◌, if◌then◌else◌, length, take, drop, codes, text_eq,
}
use brasa.Source.Utf8.{chars}

abbrev pub Bytes : Type 0
Bytes = List ℕ

pub data BundleError : Type 0 where
  too_large truncated not_a_payload not_utf8 inconsistent : BundleError
  unsupported_version : ℕ → BundleError

pub data Result (A : Type 0) : Type 0 where
  ok : A → Result A
  err : BundleError → Result A

infixl 5 ◌>>=◌ ◌>>◌
abbrev pub ◌>>=◌ : {A B : Type 0} → Result A → (A → Result B) → Result B
ok a >>= f = f a
err e >>= f = err e

abbrev pub ◌>>◌ : {B : Type 0} → Result (Unit {0}) → Result B → Result B
m >> k = m >>= λ _. k

abbrev pub guard : Bool → BundleError → Result (Unit {0})
guard true e = ok tt
guard false e = err e

abbrev pub payload_magic : Bytes
payload_magic = codes "BRASAPKG"

abbrev pub payload_version : ℕ
payload_version = 1

abbrev pub trailer_magic : Bytes
trailer_magic = codes "BRASABND"

abbrev pub max_u32 : ℕ
max_u32 = 2 ^ 32 - 1

-- An import is a position among the file imports and the module it names.
pub record BundledModule : Type 0 where
  pub path : Bytes
  pub name : Bytes
  pub source : Bytes
  pub imports : List (ℕ × ℕ)

pub record Bundle : Type 0 where
  pub modules : List BundledModule
  pub entry : ℕ

unfoldable pub to_le_bytes : ℕ → ℕ → Bytes
to_le_bytes zero v = []
to_le_bytes (suc width) v = v % 256 ∷ to_le_bytes width (v / 256)

unfoldable pub from_le_bytes : Bytes → ℕ
from_le_bytes [] = 0
from_le_bytes (b ∷ bs) = b + 256 * from_le_bytes bs

-- Writing.
unfoldable pub put_u32 : Bytes → ℕ → Bytes
put_u32 out value = out ++ to_le_bytes 4 value

unfoldable pub put_len : Bytes → ℕ → Result Bytes
put_len out len = if leb len max_u32 then ok (put_u32 out len) else err too_large

unfoldable pub put_str : Bytes → Bytes → Result Bytes
put_str out value = do out' ← put_len out (length value); ok (out' ++ value)

unfoldable pub put_imports : Bytes → List (ℕ × ℕ) → Bytes
put_imports out [] = out
put_imports out ((position, target) ∷ edges) =
    put_imports (put_u32 (put_u32 out position) target) edges

unfoldable pub put_module : Bytes → BundledModule → Result Bytes
put_module out m = do
  o1 ← put_str out m.path
  o2 ← put_str o1 m.name
  o3 ← put_str o2 m.source
  o4 ← put_len o3 (length m.imports)
  ok (put_imports o4 m.imports)

unfoldable pub put_modules : Bytes → List BundledModule → Result Bytes
put_modules out [] = ok out
put_modules out (m ∷ ms) = do o1 ← put_module out m; put_modules o1 ms

unfoldable pub encode : Bundle → Result Bytes
encode bundle = do
  out ←
      put_len (put_u32 (put_u32 payload_magic payload_version) bundle.entry) (length bundle.modules)
  put_modules out bundle.modules

-- Reading.
pub record Reader : Type 0 where
  pub bytes : Bytes
  pub at : ℕ

unfoldable pub take_bytes : ℕ → Reader → Result (Reader × Bytes)
take_bytes len r =
    let end = r.at + len in
    if leb end (length r.bytes)
    then ok (record r { at = end }, take len (drop r.at r.bytes))
    else err truncated

unfoldable pub read_u32 : Reader → Result (Reader × ℕ)
read_u32 r = do (r', raw) ← take_bytes 4 r; ok (r', from_le_bytes raw)

abbrev pub from_utf8 : Bytes → Option ℕ → Result Bytes
from_utf8 raw none = err not_utf8
from_utf8 raw (some n) = ok raw

unfoldable pub read_string : Reader → Result (Reader × Bytes)
read_string r = do
  (r1, len) ← read_u32 r
  (r2, raw) ← take_bytes len r1
  text ← from_utf8 raw (chars raw)
  ok (r2, text)

unfoldable pub read_imports : ℕ → Reader → Result (Reader × List (ℕ × ℕ))
read_imports zero r = ok (r, [])
read_imports (suc edges) r = do
  (r1, position) ← read_u32 r
  (r2, target) ← read_u32 r1
  (r3, imports) ← read_imports edges r2
  ok (r3, (position, target) ∷ imports)

unfoldable pub read_module : Reader → Result (Reader × BundledModule)
read_module r = do
  (r1, path) ← read_string r
  (r2, name) ← read_string r1
  (r3, source) ← read_string r2
  (r4, edges) ← read_u32 r3
  (r5, imports) ← read_imports edges r4
  ok (r5, record { path = path; name = name; source = source; imports = imports })

unfoldable pub read_modules : ℕ → Reader → Result (Reader × List BundledModule)
read_modules zero r = ok (r, [])
read_modules (suc count) r = do
  (r1, m) ← read_module r
  (r2, ms) ← read_modules count r1
  ok (r2, m ∷ ms)

unfoldable pub targets_in_range : ℕ → List (ℕ × ℕ) → Bool
targets_in_range count [] = true
targets_in_range count (edge ∷ edges) = ltb edge.1 count && targets_in_range count edges

unfoldable pub modules_in_range : ℕ → List BundledModule → Bool
modules_in_range count [] = true
modules_in_range count (m ∷ ms) = targets_in_range count m.imports && modules_in_range count ms

unfoldable pub validate : Bundle → Result (Unit {0})
validate bundle = do
  guard (leb (length bundle.modules) max_u32) too_large
  guard (ltb bundle.entry (length bundle.modules)) inconsistent
  guard (modules_in_range (length bundle.modules) bundle.modules) inconsistent

-- The magic of a payload and its version.
unfoldable pub read_header : Reader → Result (Reader × Unit {0})
read_header r = do
  (r1, magic) ← take_bytes (length payload_magic) r
  guard (text_eq magic payload_magic) not_a_payload
  (r2, version) ← read_u32 r1
  guard (version == payload_version) (unsupported_version version)
  ok (r2, tt)

-- The fields of a bundle behind the header.
unfoldable pub read_bundle : Reader → Result (Reader × Bundle)
read_bundle r = do
  (r1, entry) ← read_u32 r
  (r2, count) ← read_u32 r1
  (r3, modules) ← read_modules count r2
  ok (r3, record { modules = modules; entry = entry })

unfoldable pub decode : Bytes → Result Bundle
decode bytes = do
  (r1, header) ← read_header (record { bytes = bytes; at = 0 })
  (r2, bundle) ← read_bundle r1
  validate bundle
  ok bundle

unfoldable pub trailer : ℕ → Bytes
trailer payload = trailer_magic ++ to_le_bytes 8 payload

unfoldable pub payload_len : Bytes → Option ℕ
payload_len bytes =
    if text_eq (take 8 bytes) trailer_magic then some (from_le_bytes (drop 8 bytes)) else none
