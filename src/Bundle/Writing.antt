-- ===== src/Bundle/Writing.antt =====
-- The writer appends the bytes of each field, where the lengths fit in 32 bits.
use brasa.Prelude.{
  ℕ, ◌≤◌, ◌≡◌, refl, sym, ap, ◌∙◌, List, [], ◌∷◌, ◌++◌, All, length, arith, leb, true,
}
use mathlib.Core.List.{append_assoc, append-nil}
use brasa.Bundle.{
  Bytes, Result, ok, ◌>>=◌, Bundle, BundledModule, max_u32, to_le_bytes, put_u32, put_len, put_str,
  put_imports, put_module, put_modules, encode, payload_magic, payload_version,
}
use brasa.Bundle.Payload.{
  IsString, FitsModule, string_bytes, imports_bytes, module_bytes, modules_bytes,
}

put_len-fits : (out : Bytes) (n : ℕ) → n ≤ max_u32 → put_len out n ≡ ok (out ++ to_le_bytes 4 n)
unfolding put_len put_u32
put_len-fits out n h = let small : leb n max_u32 ≡ true = ground arith in rw small refl

put_str-fits : (out s : Bytes) → IsString s → put_str out s ≡ ok (out ++ string_bytes s)
unfolding put_str
put_str-fits out s v =
    ap (λ z. z >>= λ o. ok (o ++ s)) (put_len-fits out (length s) v.short)
    ∙ ap ok (append_assoc out (to_le_bytes 4 (length s)) s)

put_imports-appends :
    (es : List (ℕ × ℕ)) (out : Bytes) → put_imports out es ≡ out ++ imports_bytes es
unfolding put_imports put_u32
put_imports-appends [] out = sym (append-nil out)
put_imports-appends (e ∷ es) out =
    put_imports-appends es ((out ++ to_le_bytes 4 e.0) ++ to_le_bytes 4 e.1)
    ∙ (append_assoc (out ++ to_le_bytes 4 e.0) (to_le_bytes 4 e.1) (imports_bytes es)
        ∙ append_assoc out (to_le_bytes 4 e.0) (to_le_bytes 4 e.1 ++ imports_bytes es))

-- A writer that appends `bs`, then one that appends `cs`.
then_appends :
    (out bs cs : Bytes) {first : Result Bytes} {next : Bytes → Result Bytes}
    → first ≡ ok (out ++ bs)
    → ((o : Bytes) → next o ≡ ok (o ++ cs))
    → (first >>= next) ≡ ok (out ++ (bs ++ cs))
then_appends out bs cs {next = next} d e =
    ap (λ z. z >>= next) d ∙ (e (out ++ bs) ∙ ap ok (append_assoc out bs cs))

put_module-fits :
    (out : Bytes) (m : BundledModule) → FitsModule m → put_module out m ≡ ok (out ++ module_bytes m)
unfolding put_module
put_module-fits out m v =
    then_appends out (string_bytes m.path) _ (put_str-fits out m.path v.path) (λ o1.
      then_appends o1 (string_bytes m.name) _ (put_str-fits o1 m.name v.name) (λ o2.
        then_appends o2 (string_bytes m.source) _ (put_str-fits o2 m.source v.source) (λ o3.
          then_appends o3 (to_le_bytes 4 (length m.imports)) _
            (put_len-fits o3 (length m.imports) v.edges)
            (λ o4. ap ok (put_imports-appends m.imports o4)))))

put_modules-fits :
    (out : Bytes) (ms : List BundledModule)
    → All FitsModule ms
    → put_modules out ms ≡ ok (out ++ modules_bytes ms)
unfolding put_modules
put_modules-fits out [] v = ap ok (sym (append-nil out))
put_modules-fits out (m ∷ ms) (v, vs) =
    then_appends out (module_bytes m) (modules_bytes ms) (put_module-fits out m v)
      (λ o. put_modules-fits o ms vs)

abbrev pub header_bytes : Bytes
header_bytes = payload_magic ++ to_le_bytes 4 payload_version

abbrev pub graph_bytes : Bundle → Bytes
graph_bytes b =
    to_le_bytes 4 b.entry ++ (to_le_bytes 4 (length b.modules) ++ modules_bytes b.modules)

pub encode-fits :
    (b : Bundle)
    → length b.modules ≤ max_u32
    → All FitsModule b.modules
    → encode b ≡ ok (header_bytes ++ graph_bytes b)
unfolding encode put_u32
encode-fits b h v =
    let entry = to_le_bytes 4 b.entry in
    then_appends (header_bytes ++ entry) (to_le_bytes 4 (length b.modules))
      (modules_bytes b.modules) (put_len-fits (header_bytes ++ entry) (length b.modules) h)
      (λ o. put_modules-fits o b.modules v)
    ∙ ap ok (
        append_assoc header_bytes entry
          (to_le_bytes 4 (length b.modules) ++ modules_bytes b.modules))
