-- ===== src/Exhaust/Defaults.antt =====
-- The default matrix and the heads of a matrix whose rows fit their column types.
use brasa.Prelude.{◌≤◌, ◌≡◌, refl, ap, List, [], ◌∷◌, some, ◌>>=◌, arith, Elem}
use brasa.Exhaust.{
  Ctor, Pats, wild, ctor, nil, cons, heads, head_of, drop_head, default_matrix, Universe,
}
use brasa.Exhaust.Specialize.{
  Val, Vals, and, matches_wild, matches_cons, Covers, fits_cons, RowsFit,
}
use brasa.Exhaust.Covers.{row_size, pat_size, matrix_size, Covers-tail, Covers-cons, no_empty_row}

module _ {ℓ} {Ty : Type ℓ} (u : Universe Ty) where
  pub heads-some :
      (ty : Ty) (tys : List Ty) (matrix : List Pats)
      → RowsFit u matrix (ty ∷ tys)
      → (hs : List Ctor) × (heads matrix ≡ some hs)
  unfolding heads
  heads-some ty tys [] f = ([], refl)
  heads-some ty tys (nil ∷ matrix) (f, fs) = absurd (no_empty_row u f)
  heads-some ty tys (cons p rest ∷ matrix) (f, fs) =
      let (hs, e) = heads-some ty tys matrix fs in
      (head_of p hs, ap (λ o. o >>= λ h. some (head_of p h)) e)

  -- The default matrix: what it covers, the matrix covers behind any value.
  pub record Defaults (matrix rows : List Pats) (tys : List Ty) : Type ℓ where
    pub fits : RowsFit u rows tys
    pub covered : (v : Val) (ws : Vals) → Covers rows ws → Covers matrix (and v ws)
    pub no_more : matrix_size rows ≤ matrix_size matrix

  pub default_matrix-Defaults :
      (ty : Ty) (tys : List Ty) (matrix : List Pats)
      → RowsFit u matrix (ty ∷ tys)
      → (rows : List Pats) × (default_matrix matrix ≡ some rows) × Defaults matrix rows tys
  unfolding default_matrix row_size pat_size
  default_matrix-Defaults ty tys [] f = (
    [],
    refl,
    record { fits = tt; covered = λ v ws k. absurd (nothing k.1); no_more = omega arith },
  )
    where
      nothing : {r : Pats} → Elem r [] → ⊥
      nothing e = elim e [ ]
  default_matrix-Defaults ty tys (nil ∷ matrix) (f, fs) = absurd (no_empty_row u f)
  default_matrix-Defaults ty tys (cons wild rest ∷ matrix) (fits_cons f g, fs) =
      let (rows, e, d) = default_matrix-Defaults ty tys matrix fs in
      (
        rest ∷ rows,
        ap (λ o. o >>= λ r. some (drop_head wild rest r)) e,
        record {
          fits = (g, d.fits);
          covered = λ v ws. Covers-cons (λ m. matches_cons matches_wild m) (d.covered v ws);
          no_more = omega (arith, d.no_more);
        },
      )
  default_matrix-Defaults ty tys (cons (ctor c args) rest ∷ matrix) (fits_cons f g, fs) =
      let (rows, e, d) = default_matrix-Defaults ty tys matrix fs in
      (
        rows,
        ap (λ o. o >>= λ r. some (drop_head (ctor c args) rest r)) e,
        record {
          fits = d.fits;
          covered = λ v ws k. Covers-tail (d.covered v ws k);
          no_more = omega (arith, d.no_more);
        },
      )
