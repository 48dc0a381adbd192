-- ===== src/Exhaust/Covers.antt =====
-- The smaller matrices of one column: what they cover, the whole matrix covers, and a specialized
-- matrix has fewer constructors.
use brasa.Prelude.{
  ℕ, zero, suc, ◌+◌, ◌≤◌, ◌<◌, ◌≡◌, refl, sym, ap, subst, List, [], ◌∷◌, ◌++◌, true, some, length,
  ◌>>=◌, >>=-eq-some, arith, Bool-cases, inl, inr, Elem, head, tail, eq_of_some,
}
use brasa.Exhaust.{
  Ctor, Pat, Pats, wild, ctor, nil, cons, append, wilds, ctor_eq, ctor_eq_iff, spread, specialize,
  heads, head_of, has_head, Universe,
}
use brasa.Exhaust.Specialize.{
  con, Vals, and, both, Matches, matches_wild, matches_ctor, MatchesAll, matches_cons, Covers,
  HasTypes, Fits, FitsAll, fits_cons, RowsFit, FitsAll-append, FitsAll-wilds, split-MatchesAll,
  args-FitsAll,
}

-- The constructors of a pattern, of a row and of a matrix.
unfoldable mutual
  pub pat_size : Pat → ℕ
  pat_size wild = 0
  pat_size (ctor c ps) = suc (row_size ps)

  pub row_size : Pats → ℕ
  row_size nil = 0
  row_size (cons p ps) = pat_size p + row_size ps

abbrev pub matrix_size : List Pats → ℕ
matrix_size [] = 0
matrix_size (row ∷ matrix) = row_size row + matrix_size matrix

row_size-append : (ps qs : Pats) → row_size (append ps qs) ≡ row_size ps + row_size qs
unfolding row_size
row_size-append nil qs = omega arith
row_size-append (cons p ps) qs = omega (arith, row_size-append ps qs)

row_size-wilds : (n : ℕ) → row_size (wilds n) ≡ 0
unfolding row_size pat_size
row_size-wilds zero = refl
row_size-wilds (suc n) = omega (arith, row_size-wilds n)

heads-cons :
    (p : Pat) (rest : Pats) (matrix : List Pats) (hs : List Ctor)
    → heads (cons p rest ∷ matrix) ≡ some hs
    → (hs' : List Ctor) × (heads matrix ≡ some hs') × (head_of p hs' ≡ hs)
unfolding heads
heads-cons p rest matrix hs e =
    let (hs', f, g) = >>=-eq-some (heads matrix) (λ h. some (head_of p h)) e in
    (hs', f, eq_of_some g)

pub Covers-tail :
    {row : Pats} {matrix : List Pats} {vs : Vals} → Covers matrix vs → Covers (row ∷ matrix) vs
Covers-tail (r, e, m) = (r, tail e, m)

pub Covers-cons :
    {row row' : Pats} {matrix rows : List Pats} {vs vs' : Vals}
    → (MatchesAll row' vs' → MatchesAll row vs)
    → (Covers rows vs' → Covers matrix vs)
    → Covers (row' ∷ rows) vs'
    → Covers (row ∷ matrix) vs
Covers-cons {row} f g (r, head, m) = (row, head, f m)
Covers-cons f g (r, tail e, m) = Covers-tail (g (r, e, m))

module _ {ℓ} {Ty : Type ℓ} (u : Universe Ty) where
  -- What the specialized matrix `rows` of `matrix` is good for.
  pub record Specializes (matrix rows : List Pats) (c : Ctor) (fields tys : List Ty) : Type ℓ where
    pub fits : RowsFit u rows (fields ++ tys)
    pub covered :
        (args ws : Vals)
        → HasTypes u args fields
        → Covers rows (both args ws)
        → Covers matrix (and (con c args) ws)
    pub no_more : matrix_size rows ≤ matrix_size matrix
    pub fewer :
        (hs : List Ctor)
        → heads matrix ≡ some hs
        → has_head c hs ≡ true
        → matrix_size rows < matrix_size matrix

  pub no_empty_row : {ty : Ty} {tys : List Ty} → FitsAll u nil (ty ∷ tys) → ⊥
  no_empty_row f = elim f [ ]

  module _ (ty : Ty) (tys : List Ty) (cs : List (Ctor × List Ty)) (c : Ctor) (fields : List Ty)
      (known : u.constructor_universe ty ≡ some cs) (listed : Elem (c, fields) cs) where
    spread-Specializes :
        (p : Pat) (rest : Pats) (matrix rows : List Pats)
        → Fits u p ty
        → FitsAll u rest tys
        → Specializes matrix rows c fields tys
        → Specializes (cons p rest ∷ matrix) (spread p rest c (length fields) rows) c fields tys
    unfolding spread row_size pat_size
    spread-Specializes wild rest matrix rows f g s = record {
      fits = (FitsAll-append u (FitsAll-wilds u fields) g, s.fits);
      covered = λ args ws h.
          Covers-cons
            (λ m.
              matches_cons matches_wild (split-MatchesAll u fields (FitsAll-wilds u fields) h m).1)
            (s.covered args ws h);
      no_more = omega (
        arith,
        s.no_more,
        row_size-append (wilds (length fields)) rest,
        row_size-wilds (length fields),
      );
      fewer = λ hs e t.
          let (hs', f', same) = heads-cons wild rest matrix hs e in
          omega (
            arith,
            s.fewer hs' f' (subst (λ l. has_head c l ≡ true) (sym same) t),
            row_size-append (wilds (length fields)) rest,
            row_size-wilds (length fields),
          );
    }
    spread-Specializes (ctor h args) rest matrix rows f g s = elim (Bool-cases (ctor_eq h c)) [
      | inl t ↦
          let same : h ≡ c = (ctor_eq_iff h c).0 t in
          let f' : FitsAll u args fields =
            args-FitsAll u ty cs c fields args known listed
              (subst (λ k. Fits u (ctor k args) ty) same f) in
          rw t (record {
            fits = (FitsAll-append u f' g, s.fits);
            covered = λ vs ws k.
                Covers-cons
                  (λ m.
                    let (a, b) = split-MatchesAll u fields f' k m in
                    matches_cons
                      (subst (λ j. Matches (ctor j args) (con c vs)) (sym same) (matches_ctor a)) b)
                  (s.covered vs ws k);
            no_more = omega (arith, s.no_more, row_size-append args rest);
            fewer = λ hs e k. omega (arith, s.no_more, row_size-append args rest);
          })
      | inr n ↦ rw n (record {
        fits = s.fits;
        covered = λ vs ws k m. Covers-tail (s.covered vs ws k m);
        no_more = omega (arith, s.no_more);
        fewer = λ hs e k. omega (arith, s.no_more);
      })
    ]

    pub specialize-Specializes :
        (matrix : List Pats)
        → RowsFit u matrix (ty ∷ tys)
        → (rows : List Pats) × (specialize matrix c (length fields) ≡ some rows)
          × Specializes matrix rows c fields tys
    unfolding specialize heads has_head
    specialize-Specializes [] f = (
      [],
      refl,
      record {
        fits = tt;
        covered = λ args ws h k. absurd (nothing k.1);
        no_more = omega arith;
        fewer = λ hs e t. absurd (no_heads hs e t);
      },
    )
      where
        nothing : {r : Pats} → Elem r [] → ⊥
        nothing e = elim e [ ]

        no_heads : (hs : List Ctor) → heads [] ≡ some hs → has_head c hs ≡ true → ⊥
        no_heads [] e t = cc
        no_heads (h ∷ hs) e t = cc
    specialize-Specializes (nil ∷ matrix) (f, fs) = absurd (no_empty_row f)
    specialize-Specializes (cons p rest ∷ matrix) (fits_cons f g, fs) =
        let (rows, e, s) = specialize-Specializes matrix fs in
        (
          spread p rest c (length fields) rows,
          ap (λ o. o >>= λ r. some (spread p rest c (length fields) r)) e,
          spread-Specializes p rest matrix rows f g s,
        )
