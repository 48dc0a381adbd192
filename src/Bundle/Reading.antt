-- ===== src/Bundle/Reading.antt =====
-- What the decoder accepts, and that it reads what the encoder wrote.
use brasa.Prelude.{
  ℕ, ◌^◌, ◌≤◌, ◌<◌, ◌≡◌, ◌≢◌, refl, sym, ap, subst, ◌∙◌, List, [], ◌∷◌, ◌++◌, All, true, false,
  ◌==◌, length, arith, text_eq,
}
use mathlib.Core.List.{append_assoc}
use brasa.Bundle.{
  Bytes, Result, ok, err, truncated, ◌>>=◌, ◌>>◌, guard, not_a_payload, unsupported_version, Reader,
  Bundle, BundledModule, max_u32, to_le_bytes, payload_magic, payload_version, encode, decode,
  validate, read_u32, read_header, read_bundle, targets_in_range, modules_in_range,
}
use brasa.Bundle.Codec.{
  IsCut, eq_of_ok, Decodes, Decodes-seq, Decodes-last, between, take_bytes-Decodes,
  read_u32-Decodes, >>=-assoc, ok-of_bind,
}
use brasa.Bundle.Payload.{FitsModule, u32_lt, read_modules-Decodes}
use brasa.Bundle.Writing.{header_bytes, graph_bytes, encode-fits}

-- Every index of the graph is one of a module.
pub record IsConsistent (b : Bundle) : Type 0 where
  pub size : length b.modules ≤ max_u32
  pub entry : b.entry < length b.modules
  pub targets : All (λ m. All (λ edge. edge.1 < length b.modules) m.imports) b.modules

targets_in_range-All :
    (n : ℕ) (es : List (ℕ × ℕ)) → targets_in_range n es ≡ true → All (λ edge. edge.1 < n) es
unfolding targets_in_range
targets_in_range-All n [] h = tt
targets_in_range-All n (e ∷ es) h = (ground arith, targets_in_range-All n es (ground arith))

All-targets_in_range :
    (n : ℕ) (es : List (ℕ × ℕ)) → All (λ edge. edge.1 < n) es → targets_in_range n es ≡ true
unfolding targets_in_range
All-targets_in_range n [] h = refl
All-targets_in_range n (e ∷ es) (h, hs) = ground (arith, All-targets_in_range n es hs)

modules_in_range-All :
    (n : ℕ) (ms : List BundledModule)
    → modules_in_range n ms ≡ true
    → All (λ m. All (λ edge. edge.1 < n) m.imports) ms
unfolding modules_in_range
modules_in_range-All n [] h = tt
modules_in_range-All n (m ∷ ms) h =
    (targets_in_range-All n m.imports (ground arith), modules_in_range-All n ms (ground arith))

All-modules_in_range :
    (n : ℕ) (ms : List BundledModule)
    → All (λ m. All (λ edge. edge.1 < n) m.imports) ms
    → modules_in_range n ms ≡ true
unfolding modules_in_range
All-modules_in_range n [] h = refl
All-modules_in_range n (m ∷ ms) (h, hs) =
    ground (arith, All-targets_in_range n m.imports h, All-modules_in_range n ms hs)

validate-IsConsistent : (b : Bundle) → validate b ≡ ok tt → IsConsistent b
unfolding validate
validate-IsConsistent b h = record {
  size = ground arith;
  entry = ground arith;
  targets = modules_in_range-All (length b.modules) b.modules (ground arith);
}

IsConsistent-validate : (b : Bundle) → IsConsistent b → validate b ≡ ok tt
unfolding validate
IsConsistent-validate b v =
    let size = v.size in
    let entry = v.entry in
    let all = All-modules_in_range (length b.modules) b.modules v.targets in ground arith

-- A header with the magic is taken where its version is this one.
read_header-version :
    (v : ℕ) (front rest : Bytes)
    → v < 2 ^ 32
    → read_header (between front ((payload_magic ++ to_le_bytes 4 v) ++ rest)) ≡ (
        guard (v == payload_version) (unsupported_version v)
        >> ok (between (front ++ (payload_magic ++ to_le_bytes 4 v)) rest, tt))
unfolding read_header text_eq
read_header-version v front rest h =
    let version = to_le_bytes 4 v in
    ap
      (λ z. z >>= λ p.
        guard (text_eq p.1 payload_magic) not_a_payload
        >> (read_u32 p.0 >>= λ q.
            guard (q.1 == payload_version) (unsupported_version q.1) >> ok (q.0, tt)))
      ((take_bytes-Decodes payload_magic).reads front (version ++ rest))
    ∙ (ap (λ z. z >>= λ q. guard (q.1 == payload_version) (unsupported_version q.1) >> ok (q.0, tt))
          ((read_u32-Decodes v h).reads (front ++ payload_magic) rest)
        ∙ ap (λ z. guard (v == payload_version) (unsupported_version v) >> ok (between z rest, tt))
            (append_assoc front payload_magic version))

this_version :
    Decodes
      (λ r. read_u32 r >>= λ q.
        guard (q.1 == payload_version) (unsupported_version q.1) >> ok (q.0, tt))
      (to_le_bytes 4 payload_version)
      tt
this_version =
    let number = read_u32-Decodes payload_version (omega arith) in
    record {
      reads = λ front rest.
          ap
            (λ z.
              z >>= λ q. guard (q.1 == payload_version) (unsupported_version q.1) >> ok (q.0, tt))
            (number.reads front rest);
      cuts = λ front part cut.
          ap
            (λ z.
              z >>= λ q. guard (q.1 == payload_version) (unsupported_version q.1) >> ok (q.0, tt))
            (number.cuts front part cut);
    }

read_header-Decodes : Decodes read_header header_bytes tt
unfolding read_header text_eq
read_header-Decodes = Decodes-seq _ (take_bytes-Decodes payload_magic) this_version

read_bundle-Decodes :
    (b : Bundle) → IsConsistent b → All FitsModule b.modules → Decodes read_bundle (graph_bytes b) b
unfolding read_bundle
read_bundle-Decodes b v fits =
    let size = v.size in
    let entry = v.entry in
    Decodes-seq _ (read_u32-Decodes b.entry (u32_lt _ (omega arith))) (
      Decodes-seq _ (read_u32-Decodes (length b.modules) (u32_lt _ v.size)) (
        Decodes-last (λ modules. record b { modules = modules })
          (read_modules-Decodes b.modules fits)))

abbrev accepted : Reader × Bundle → Result Bundle
accepted p = validate p.1 >> ok p.1

abbrev behind_header : Reader × Unit {0} → Result Bundle
behind_header p = read_bundle p.0 >>= accepted

read_payload-Decodes :
    (b : Bundle)
    → IsConsistent b
    → All FitsModule b.modules
    → Decodes (λ r. read_header r >>= λ p. read_bundle p.0) (header_bytes ++ graph_bytes b) b
read_payload-Decodes b v fits =
    Decodes-seq (λ p. read_bundle p.0) read_header-Decodes (read_bundle-Decodes b v fits)

-- A consistent program whose strings and lists fit in 32-bit lengths is written, and its payload
-- reads back as the program, whatever bytes follow the payload.
pub decode-encode :
    (b : Bundle) (extra : Bytes)
    → IsConsistent b
    → All FitsModule b.modules
    → (payload : Bytes) × (encode b ≡ ok payload) × (decode (payload ++ extra) ≡ ok b)
unfolding decode
decode-encode b extra v fits =
    let payload = header_bytes ++ graph_bytes b in
    let whole = (read_payload-Decodes b v fits).reads [] extra in
    let finish = ap (λ z. z >>= accepted) whole in
    let valid = ap (λ z. z >> ok b) (IsConsistent-validate b v) in
    (
      payload,
      encode-fits b v.size fits,
      sym (>>=-assoc (read_header (between [] (payload ++ extra))) (λ p. read_bundle p.0) accepted)
          ∙ (finish ∙ valid),
    )

-- Of a payload that a consistent program was written to, every cut is refused as truncated.
pub decode-truncated :
    (b : Bundle) (payload part : Bytes)
    → IsConsistent b
    → All FitsModule b.modules
    → encode b ≡ ok payload
    → IsCut part payload
    → decode part ≡ err truncated
unfolding decode
decode-truncated b payload part v fits e cut =
    let same : header_bytes ++ graph_bytes b ≡ payload =
      eq_of_ok (sym (encode-fits b v.size fits) ∙ e) in
    let refused =
      (read_payload-Decodes b v fits).cuts [] part (subst (IsCut part) (sym same) cut) in
    sym (>>=-assoc (read_header (between [] part)) (λ p. read_bundle p.0) accepted)
    ∙ ap (λ z. z >>= accepted) refused

-- What the decoder answers is consistent: its entry and every import name a module.
pub decode-IsConsistent : (bytes : Bytes) (b : Bundle) → decode bytes ≡ ok b → IsConsistent b
unfolding decode
decode-IsConsistent bytes b e =
    let (header, e1, h1) = ok-of_bind (read_header (between [] bytes)) behind_header b e in
    let (read, e2, h2) = ok-of_bind (read_bundle header.0) accepted b h1 in
    let (u, e3, h3) = ok-of_bind (validate read.1) (λ _. ok read.1) b h2 in
    let same : read.1 ≡ b = cc in validate-IsConsistent b (ap validate (sym same) ∙ e3)

-- A payload of another version is refused with that version.
pub decode-other_version :
    (v : ℕ) (rest : Bytes)
    → v < 2 ^ 32
    → v ≢ payload_version
    → decode ((payload_magic ++ to_le_bytes 4 v) ++ rest) ≡ err (unsupported_version v)
unfolding decode
decode-other_version v rest h n =
    let differs : (v == payload_version) ≡ false = ground arith in
    ap (λ z. z >>= behind_header) (read_header-version v [] rest h) ∙ rw differs refl
