-- ===== src/Exhaust/Ends.antt =====
-- The check of a matrix ends, and where it counts no witness every value is matched.
use brasa.Prelude.{
  ℕ, zero, suc, ◌*◌, ◌≤◌, ◌<◌, ◌≡◌, refl, sym, subst, ◌∙◌, List, [], ◌∷◌, ◌++◌, true, false, Option,
  none, some, length, min, ◌>>=◌, arith, Bool-cases, Option-cases, inl, inr, Elem, head, tail,
  eq_of_some,
}
use brasa.Exhaust.{
  Ctor, Pats, nil, cons, heads, default_matrix, has_head, Universe, Answer, is_complete,
  complete_in, missing, head_witnesses, witnesses_complete, join_missing, no_columns, column,
  witnesses, add_rows, saturating_add, max_u64,
}
use brasa.Exhaust.Specialize.{
  Val, con, Vals, end, and, both, MatchesAll, matches_nil, Covers, con_type, open_type, HasTypes,
  and_types, HasTypes-both, FitsAll, RowsFit,
}
use brasa.Exhaust.Defaults.{heads-some, default_matrix-Defaults}
use brasa.Exhaust.Covers.{matrix_size, specialize-Specializes}

-- A product that saturates at 0 has a factor 0.
eq_zero_of_mul : (n k : ℕ) → 0 < k → min (n * k) max_u64 ≡ 0 → n ≡ 0
eq_zero_of_mul zero k h e = refl
eq_zero_of_mul (suc n) (suc k) h e = grind arith
eq_zero_of_mul (suc n) zero h e = absurd (omega arith)

module _ {ℓ} {Ty : Type ℓ} (u : Universe Ty) where
  -- The check answers, and a count of 0 means that every row of values is matched.
  abbrev pub Decides : List Ty → List Pats → Option Answer → Type ℓ
  Decides tys matrix o =
      (answer : Answer) × (o ≡ some answer)
      × (answer.1 ≡ 0 → (vs : Vals) → HasTypes u vs tys → Covers matrix vs)

  complete-has_head :
      (hs : List Ctor) (cs : List (Ctor × List Ty)) (x : Ctor × List Ty)
      → is_complete u hs cs ≡ true
      → Elem x cs
      → has_head x.0 hs ≡ true
  unfolding is_complete
  complete-has_head hs [] x e m = elim m [ ]
  complete-has_head hs (y ∷ cs) x e head = ground arith
  complete-has_head hs (y ∷ cs) x e (tail m) =
      let rest : is_complete u hs cs ≡ true = ground arith in complete-has_head hs cs x rest m

  length-missing :
      (hs : List Ctor) (cs : List (Ctor × List Ty))
      → is_complete u hs cs ≡ false
      → 0 < length (missing u hs cs)
  unfolding is_complete missing
  length-missing hs [] e = cc
  length-missing hs ((c, fields) ∷ cs) e = elim (Bool-cases (has_head c hs)) [
    | inl t ↦
        let rest : is_complete u hs cs ≡ false = ground arith in rw t (length-missing hs cs rest)
    | inr f ↦ rw f (omega arith)
  ]

  -- An incomplete column has a head for its witnesses.
  some_head :
      (hs : List Ctor) (o : Option (List (Ctor × List Ty)))
      → complete_in u hs o ≡ false
      → 0 < length (head_witnesses u hs o)
  unfolding head_witnesses
  some_head hs none e = omega arith
  some_head hs (some cs) e = length-missing hs cs e

  open_complete : (hs : List Ctor) → complete_in u hs none ≡ true → ⊥
  open_complete hs e = cc

  module _ (ty : Ty) (tys : List Ty) (matrix : List Pats) (fits : RowsFit u matrix (ty ∷ tys))
      (deeper : List Ty → List Pats → Option Answer)
      (ih : (fields : List Ty) (rows : List Pats)
        → matrix_size rows < matrix_size matrix
        → RowsFit u rows (fields ++ tys)
        → Decides (fields ++ tys) rows (deeper (fields ++ tys) rows)) where
    abbrev CoversCtor : Ctor × List Ty → Type ℓ
    CoversCtor x =
        (args ws : Vals)
        → HasTypes u args x.1
        → HasTypes u ws tys
        → Covers matrix (and (con x.0 args) ws)

    CoversCtor-cons :
        (y : Ctor × List Ty) (cs : List (Ctor × List Ty))
        → CoversCtor y
        → ((x : Ctor × List Ty) → Elem x cs → CoversCtor x)
        → (x : Ctor × List Ty) → Elem x (y ∷ cs)
        → CoversCtor x
    CoversCtor-cons y cs f g x head = f
    CoversCtor-cons y cs f g x (tail m) = g x m

    -- The loop over the constructors `cs` of a complete column.
    witnesses_complete-Decides :
        (whole : List (Ctor × List Ty)) (hs : List Ctor)
        → u.constructor_universe ty ≡ some whole
        → heads matrix ≡ some hs
        → (cs : List (Ctor × List Ty))
        → ((x : Ctor × List Ty) → Elem x cs → Elem x whole × (has_head x.0 hs ≡ true))
        → (so_far : Answer)
        → (answer : Answer) × (witnesses_complete u deeper matrix tys cs so_far ≡ some answer)
          × (answer.1 ≡ 0 → (so_far.1 ≡ 0) × ((x : Ctor × List Ty) → Elem x cs → CoversCtor x))
    unfolding witnesses_complete
    witnesses_complete-Decides whole hs known at [] inside so_far =
        (so_far, refl, λ e. (e, λ x m. elim m [ ]))
    witnesses_complete-Decides whole hs known at ((c, fields) ∷ cs) inside so_far =
        let (listed, used) = inside (c, fields) head in
        let (rows, e, s) =
          specialize-Specializes u ty tys whole c fields known listed matrix fits in
        let (sub, f, sound) = ih fields rows (s.fewer hs at used) s.fits in
        let (answer, g, rest) =
          witnesses_complete-Decides whole hs known at cs (λ x m. inside x (tail m))
            (add_rows c (length fields) so_far.0 sub.0, saturating_add so_far.1 sub.1) in
        (
          answer,
          rw (e, f) g,
          λ z.
              let (sum, others) = rest z in
              (
                omega (arith, sum),
                CoversCtor-cons (c, fields) cs
                    (λ args ws h k.
                      s.covered args ws h
                        (sound (omega (arith, sum)) (both args ws) (HasTypes-both u h k)))
                    others,
              ),
        )

    -- A value of a type with constructors is one of them with its fields.
    Covers-ctors :
        (whole : List (Ctor × List Ty))
        → u.constructor_universe ty ≡ some whole
        → ((x : Ctor × List Ty) → Elem x whole → CoversCtor x)
        → (vs : Vals) → HasTypes u vs (ty ∷ tys)
        → Covers matrix vs
    Covers-ctors whole known each end h = elim h [ ]
    Covers-ctors whole known each (and v ws) (and_types (con_type cs fields e m h) k) =
        let same : cs ≡ whole = eq_of_some (sym e ∙ known) in
        each (_, fields) (subst (Elem (_, fields)) same m) _ ws h k
    Covers-ctors whole known each (and v ws) (and_types (open_type e) k) =
        absurd (apart (sym e ∙ known))
      where
        apart : ◌≡◌ {A = Option (List (Ctor × List Ty))} none (some whole) → ⊥
        apart q = cc

    Covers-default :
        ((v : Val) (ws : Vals) → HasTypes u ws tys → Covers matrix (and v ws))
        → (vs : Vals) → HasTypes u vs (ty ∷ tys)
        → Covers matrix vs
    Covers-default each end h = elim h [ ]
    Covers-default each (and v ws) (and_types h k) = each v ws k

    module _ (rest : List Pats → Option Answer)
        (ih_rest : (rows : List Pats)
          → matrix_size rows ≤ matrix_size matrix
          → RowsFit u rows tys
          → Decides tys rows (rest rows)) where
      incomplete-Decides :
          (hs : List Ctor)
          → complete_in u hs (u.constructor_universe ty) ≡ false
          → Decides (ty ∷ tys) matrix (
              default_matrix matrix >>= λ rows. rest rows >>= λ sub.
              some (join_missing (head_witnesses u hs (u.constructor_universe ty)) sub))
      unfolding join_missing
      incomplete-Decides hs e =
          let (rows, f, d) = default_matrix-Defaults u ty tys matrix fits in
          let (sub, g, sound) = ih_rest rows d.no_more d.fits in
          (
            join_missing (head_witnesses u hs (u.constructor_universe ty)) sub,
            rw (f, g) refl,
            λ z.
                let none_left =
                  eq_zero_of_mul sub.1 (length (head_witnesses u hs (u.constructor_universe ty)))
                    (some_head hs (u.constructor_universe ty) e) z in
                Covers-default (λ v ws k. d.covered v ws (sound none_left ws k)),
          )

      column-Decides : Decides (ty ∷ tys) matrix (column u deeper rest ty tys matrix)
      unfolding column
      column-Decides =
          let (hs, at) = heads-some u ty tys matrix fits in
          elim (Bool-cases (complete_in u hs (u.constructor_universe ty))) [
            | inr f ↦
                let (answer, e, sound) = incomplete-Decides hs f in (answer, rw (at, f) e, sound)
            | inl t ↦ elim (Option-cases (u.constructor_universe ty)) [
              | inl n ↦ absurd (open_complete hs (subst (λ o. complete_in u hs o ≡ true) n t))
              | inr (cs, known) ↦
                  let full = subst (λ o. complete_in u hs o ≡ true) known t in
                  let (answer, e, sound) =
                    witnesses_complete-Decides cs hs known at cs
                      (λ x m. (m, complete-has_head hs cs x full m)) ([], 0) in
                  (answer, rw (at, known, full) e, λ z. Covers-ctors cs known (sound z).1)
            ]
          ]

  empty_row : (row : Pats) (vs : Vals) → FitsAll u row [] → HasTypes u vs [] → MatchesAll row vs
  empty_row nil end f h = matches_nil
  empty_row nil (and v vs) f h = elim h [ ]
  empty_row (cons p row) vs f h = elim f [ ]

  no_columns_sound :
      (matrix : List Pats)
      → RowsFit u matrix []
      → (no_columns matrix).1 ≡ 0
      → (vs : Vals) → HasTypes u vs []
      → Covers matrix vs
  unfolding no_columns
  no_columns_sound [] f z vs h = absurd (omega arith)
  no_columns_sound (row ∷ matrix) (f, fs) z vs h = (row, head, empty_row row vs f h)

  -- With a fuel of the number of constructors in the matrix, the check of a matrix whose rows fit
  -- their column types ends without a panic; where it counts no witness, every row of values of
  -- those types is matched by a row of the matrix.
  pub witnesses-Decides :
      (fuel : ℕ) (tys : List Ty) (matrix : List Pats)
      → matrix_size matrix ≤ fuel
      → RowsFit u matrix tys
      → Decides tys matrix (witnesses u fuel tys matrix)
  unfolding witnesses
  witnesses-Decides fuel [] matrix h f = (no_columns matrix, refl, no_columns_sound matrix f)
  witnesses-Decides zero (ty ∷ tys) matrix h f =
      column-Decides ty tys matrix f (λ ts m. none) (λ fields rows less g. absurd (omega arith))
        (λ rows. witnesses u zero tys rows)
        (λ rows le g. witnesses-Decides zero tys rows (omega arith) g)
  witnesses-Decides (suc fuel) (ty ∷ tys) matrix h f =
      column-Decides ty tys matrix f (witnesses u fuel)
        (λ fields rows less g. witnesses-Decides fuel (fields ++ tys) rows (omega arith) g)
        (λ rows. witnesses u (suc fuel) tys rows)
        (λ rows le g. witnesses-Decides (suc fuel) tys rows (omega arith) g)
