-- ===== src/Bundle/Codec.antt =====
-- What a reader of the payload makes of the bytes of one field, and how readers go in sequence.
use brasa.Prelude.{
  ℕ, zero, suc, ◌+◌, ◌/◌, ◌^◌, ◌<◌, ◌≡◌, refl, sym, ap, subst, ◌∙◌, [], ◌∷◌, ◌++◌, true, false, ◌⊎◌,
  inl, inr, leb, length, length-append, take, take-append, drop-append, arith,
}
use mathlib.Core.List.{append_assoc, append-nil}
use brasa.Bundle.{
  Bytes, Result, ok, err, truncated, ◌>>=◌, Reader, to_le_bytes, from_le_bytes, take_bytes,
  read_u32,
}

pub length-to_le_bytes : (width v : ℕ) → length (to_le_bytes width v) ≡ width
unfolding to_le_bytes
length-to_le_bytes zero v = refl
length-to_le_bytes (suc width) v = ap suc (length-to_le_bytes width (v / 256))

-- A number that fits in `width` bytes reads back as itself.
pub from_le_bytes-to_le_bytes :
    (width v : ℕ) → v < 256 ^ width → from_le_bytes (to_le_bytes width v) ≡ v
unfolding to_le_bytes from_le_bytes
from_le_bytes-to_le_bytes zero v h = omega arith
from_le_bytes-to_le_bytes (suc width) v h =
    omega (arith, from_le_bytes-to_le_bytes width (v / 256) (omega arith))

-- The reader that stands between `front` and `rest`.
abbrev pub between : Bytes → Bytes → Reader
between front rest = record { bytes = front ++ rest; at = length front }

-- A part of `bytes` from their start that is not all of them.
abbrev pub IsCut : Bytes → Bytes → Type 0
IsCut part bytes = (c : ℕ) × (cs : Bytes) × (bytes ≡ part ++ c ∷ cs)

not-IsCut_nil : {A : Type 0} (p : Bytes) → IsCut p [] → A
not-IsCut_nil p (c, cs, e) =
    let sizes = ap length e in absurd (omega (arith, length-append p (c ∷ cs)))

IsCut-append :
    (bs cs p : Bytes) → IsCut p (bs ++ cs) → IsCut p bs ⊎ ((q : Bytes) × (p ≡ bs ++ q) × IsCut q cs)
IsCut-append [] cs p cut = inr (p, refl, cut)
IsCut-append (x ∷ bs) cs [] cut = inl (x, bs, refl)
IsCut-append (x ∷ bs) cs (y ∷ p) (c, ds, e) =
    let same : x ≡ y = cc in
    let tails : bs ++ cs ≡ p ++ c ∷ ds = cc in
    elim (IsCut-append bs cs p (c, ds, tails)) [
      | inl (c', ds', e') ↦ inl (c', ds', cc)
      | inr (q, e', cut) ↦ inr (q, cc, cut)
    ]

-- Wherever it stands before `bytes`, `read` takes them and answers `a`; before a cut of them it fails.
pub record Decodes {A : Type 0} (read : Reader → Result (Reader × A)) (bytes : Bytes) (a : A)
    : Type 0 where
  pub reads :
      (front rest : Bytes)
      → read (between front (bytes ++ rest)) ≡ ok (between (front ++ bytes) rest, a)
  pub cuts : (front part : Bytes) → IsCut part bytes → read (between front part) ≡ err truncated

pub Decodes-seq :
    {A B : Type 0} {read : Reader → Result (Reader × A)} {bs cs : Bytes} {a : A} {b : B}
    (next : Reader × A → Result (Reader × B))
    → Decodes read bs a
    → Decodes (λ r. next (r, a)) cs b
    → Decodes (λ r. read r >>= next) (bs ++ cs) b
Decodes-seq {read = read} {bs = bs} {cs = cs} {b = b} next d e = record {
  reads = λ front rest.
      ap (λ z. read (between front z) >>= next) (append_assoc bs cs rest)
      ∙ (ap (λ z. z >>= next) (d.reads front (cs ++ rest))
          ∙ (e.reads (front ++ bs) rest
              ∙ ap (λ z. ok (between z rest, b)) (append_assoc front bs cs)));
  cuts = λ front part cut. elim (IsCut-append bs cs part cut) [
    | inl k ↦ ap (λ z. z >>= next) (d.cuts front part k)
    | inr (q, same, k) ↦
        ap (λ z. read (between front z) >>= next) same
        ∙ (ap (λ z. z >>= next) (d.reads front q) ∙ e.cuts (front ++ bs) q k)
  ];
}

pub Decodes-last :
    {A B : Type 0} {read : Reader → Result (Reader × A)} {bs : Bytes} {a : A} (f : A → B)
    → Decodes read bs a
    → Decodes (λ r. read r >>= λ p. ok (p.0, f p.1)) bs (f a)
Decodes-last f d = record {
  reads = λ front rest. ap (λ z. z >>= λ p. ok (p.0, f p.1)) (d.reads front rest);
  cuts = λ front part cut. ap (λ z. z >>= λ p. ok (p.0, f p.1)) (d.cuts front part cut);
}

pub Decodes-pure : {A : Type 0} (a : A) → Decodes (λ r. ok (r, a)) [] a
Decodes-pure a = record {
  reads = λ front rest. ap (λ z. ok (between z rest, a)) (sym (append-nil front));
  cuts = λ front part cut. not-IsCut_nil part cut;
}

fits :
    (front bytes rest : Bytes)
    → leb (length front + length bytes) (length (front ++ (bytes ++ rest))) ≡ true
fits front bytes rest =
    ground (arith, length-append front (bytes ++ rest), length-append bytes rest)

takes :
    (bytes front rest : Bytes)
    → take_bytes (length bytes) (between front (bytes ++ rest))
      ≡ ok (between (front ++ bytes) rest, bytes)
unfolding take_bytes
takes bytes front rest =
    let stands : between (front ++ bytes) rest
        ≡ record { bytes = front ++ (bytes ++ rest); at = length front + length bytes } =
      rw (length-append front bytes) (rw (append_assoc front bytes rest) refl) in
    let piece =
      ap (take (length bytes)) (drop-append front (bytes ++ rest)) ∙ take-append bytes rest in
    rw (fits front bytes rest) (rw stands (rw piece refl))

short :
    (bytes front part : Bytes)
    → IsCut part bytes
    → take_bytes (length bytes) (between front part) ≡ err truncated
unfolding take_bytes
short bytes front part (c, cs, e) =
    let sizes = ap length e in
    let over : leb (length front + length bytes) (length (front ++ part)) ≡ false =
      ground (arith, length-append part (c ∷ cs), length-append front part) in
    rw over refl

pub take_bytes-Decodes : (bytes : Bytes) → Decodes (take_bytes (length bytes)) bytes bytes
take_bytes-Decodes bytes = record { reads = takes bytes; cuts = short bytes }

pub read_u32-Decodes : (v : ℕ) → v < 2 ^ 32 → Decodes read_u32 (to_le_bytes 4 v) v
unfolding read_u32
read_u32-Decodes v h =
    let four : length (to_le_bytes 4 v) ≡ 4 = length-to_le_bytes 4 v in
    let d : Decodes (take_bytes 4) (to_le_bytes 4 v) (to_le_bytes 4 v) =
      subst (λ n. Decodes (take_bytes n) (to_le_bytes 4 v) (to_le_bytes 4 v)) four
        (take_bytes-Decodes (to_le_bytes 4 v)) in
    subst (Decodes read_u32 (to_le_bytes 4 v)) (from_le_bytes-to_le_bytes 4 v h)
      (Decodes-last from_le_bytes d)

pub >>=-assoc :
    {A B C : Type 0} (m : Result A) (f : A → Result B) (g : B → Result C)
    → ((m >>= f) >>= g) ≡ (m >>= λ a. f a >>= g)
>>=-assoc (ok a) f g = refl
>>=-assoc (err e) f g = refl

-- Inversion of a successful bind.
pub ok-of_bind :
    {A B : Type 0} (m : Result A) (f : A → Result B) (b : B)
    → (m >>= f) ≡ ok b
    → (a : A) × (m ≡ ok a) × (f a ≡ ok b)
ok-of_bind (ok a) f b e = (a, refl, e)
ok-of_bind (err x) f b e = cc

pub eq_of_ok : {A : Type 0} {a b : A} → ok a ≡ ok b → a ≡ b
eq_of_ok e = cc
