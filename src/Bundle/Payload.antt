-- ===== src/Bundle/Payload.antt =====
-- The bytes of a payload, field by field, and that the writer produces them and the reader takes them.
use brasa.Prelude.{ℕ, ◌^◌, ◌≤◌, ◌<◌, ◌≡◌, ap, ◌∙◌, List, [], ◌∷◌, ◌++◌, All, some, length, arith}
use brasa.Source.Utf8.{chars}
use brasa.Bundle.{
  Bytes, ok, ◌>>=◌, BundledModule, max_u32, to_le_bytes, from_utf8, take_bytes, read_string,
  read_imports, read_module, read_modules,
}
use brasa.Bundle.Codec.{
  Decodes, Decodes-seq, Decodes-last, Decodes-pure, between, take_bytes-Decodes, read_u32-Decodes,
}

-- A string is valid UTF-8 and its length fits in 32 bits.
pub record IsString (bytes : Bytes) : Type 0 where
  pub scalars : ℕ
  pub utf8 : chars bytes ≡ some scalars
  pub short : length bytes ≤ max_u32

abbrev pub IsImport : ℕ × ℕ → Type 0
IsImport edge = (edge.0 ≤ max_u32) × (edge.1 ≤ max_u32)

pub record FitsModule (m : BundledModule) : Type 0 where
  pub path : IsString m.path
  pub name : IsString m.name
  pub source : IsString m.source
  pub edges : length m.imports ≤ max_u32
  pub imports : All IsImport m.imports

abbrev pub string_bytes : Bytes → Bytes
string_bytes s = to_le_bytes 4 (length s) ++ s

abbrev pub imports_bytes : List (ℕ × ℕ) → Bytes
imports_bytes [] = []
imports_bytes (edge ∷ edges) = to_le_bytes 4 edge.0 ++ (to_le_bytes 4 edge.1 ++ imports_bytes edges)

abbrev pub module_bytes : BundledModule → Bytes
module_bytes m =
    string_bytes m.path
    ++ (string_bytes m.name
        ++ (string_bytes m.source ++ (to_le_bytes 4 (length m.imports) ++ imports_bytes m.imports)))

abbrev pub modules_bytes : List BundledModule → Bytes
modules_bytes [] = []
modules_bytes (m ∷ ms) = module_bytes m ++ modules_bytes ms

pub u32_lt : (v : ℕ) → v ≤ max_u32 → v < 2 ^ 32
u32_lt v h = omega arith

string_text :
    (s : Bytes)
    → IsString s
    → Decodes
        (λ r. take_bytes (length s) r >>= λ p. from_utf8 p.1 (chars p.1) >>= λ text. ok (p.0, text))
        s
        s
string_text s v = record {
  reads = λ front rest.
      ap (λ z. z >>= λ p. from_utf8 p.1 (chars p.1) >>= λ text. ok (p.0, text))
        ((take_bytes-Decodes s).reads front rest)
      ∙ ap (λ c. from_utf8 s c >>= λ text. ok (between (front ++ s) rest, text)) v.utf8;
  cuts = λ front part cut.
      ap (λ z. z >>= λ p. from_utf8 p.1 (chars p.1) >>= λ text. ok (p.0, text))
        ((take_bytes-Decodes s).cuts front part cut);
}

read_string-Decodes : (s : Bytes) → IsString s → Decodes read_string (string_bytes s) s
unfolding read_string
read_string-Decodes s v =
    Decodes-seq _ (read_u32-Decodes (length s) (u32_lt _ v.short)) (string_text s v)

read_imports-Decodes :
    (es : List (ℕ × ℕ)) → All IsImport es → Decodes (read_imports (length es)) (imports_bytes es) es
unfolding read_imports
read_imports-Decodes [] v = Decodes-pure []
read_imports-Decodes (e ∷ es) (v, vs) = Decodes-seq _ (read_u32-Decodes e.0 (u32_lt _ v.0)) (
    Decodes-seq _ (read_u32-Decodes e.1 (u32_lt _ v.1))
      (Decodes-last (λ rest. e ∷ rest) (read_imports-Decodes es vs)))

read_module-Decodes : (m : BundledModule) → FitsModule m → Decodes read_module (module_bytes m) m
unfolding read_module
read_module-Decodes m v = Decodes-seq _ (read_string-Decodes m.path v.path) (
    Decodes-seq _ (read_string-Decodes m.name v.name) (
      Decodes-seq _ (read_string-Decodes m.source v.source) (
        Decodes-seq _ (read_u32-Decodes (length m.imports) (u32_lt _ v.edges)) (
          Decodes-last (λ imports. record m { imports = imports })
            (read_imports-Decodes m.imports v.imports)))))

pub read_modules-Decodes :
    (ms : List BundledModule)
    → All FitsModule ms
    → Decodes (read_modules (length ms)) (modules_bytes ms) ms
unfolding read_modules
read_modules-Decodes [] v = Decodes-pure []
read_modules-Decodes (m ∷ ms) (v, vs) =
    Decodes-seq _ (read_module-Decodes m v)
      (Decodes-last (λ rest. m ∷ rest) (read_modules-Decodes ms vs))
