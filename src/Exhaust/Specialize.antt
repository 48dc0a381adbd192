-- ===== src/Exhaust/Specialize.antt =====
-- What patterns match, and what the two smaller matrices say of it.
use brasa.Prelude.{
  ℕ, ◌≡◌, sym, subst, ◌∙◌, List, [], ◌∷◌, ◌++◌, Option, none, some, length, Elem, All, eq_of_some,
}
use brasa.Exhaust.{Ctor, opaque_lit, Pat, Pats, wild, ctor, nil, cons, append, wilds, Universe}

mutual
  -- A value is a constructor with its fields, or a value of an open type.
  pub data Val : Type 0 where
    con : Ctor → Vals → Val
    other : ℕ → Val

  pub data Vals : Type 0 where
    end : Vals
    and : Val → Vals → Vals

abbrev pub both : Vals → Vals → Vals
both end ws = ws
both (and v vs) ws = and v (both vs ws)

mutual
  -- A literal of an open type has no rule: the matrix forgets which literal it was.
  pub data Matches : Pat → Val → Type 0 where
    matches_wild : {v : Val} → Matches wild v
    matches_ctor :
        {c : Ctor} {ps : Pats} {vs : Vals} → MatchesAll ps vs → Matches (ctor c ps) (con c vs)

  pub data MatchesAll : Pats → Vals → Type 0 where
    matches_nil : MatchesAll nil end
    matches_cons :
        {p : Pat} {ps : Pats} {v : Val} {vs : Vals}
        → Matches p v
        → MatchesAll ps vs
        → MatchesAll (cons p ps) (and v vs)

-- Some row of the matrix matches.
abbrev pub Covers : List Pats → Vals → Type 0
Covers matrix vs = (row : Pats) × Elem row matrix × MatchesAll row vs

module _ {ℓ} {Ty : Type ℓ} (u : Universe Ty) where
  mutual
    pub data HasType : Val → Ty → Type ℓ where
      con_type :
          {c : Ctor} {vs : Vals} {ty : Ty} (cs : List (Ctor × List Ty)) (fields : List Ty)
          → u.constructor_universe ty ≡ some cs
          → Elem (c, fields) cs
          → HasTypes vs fields
          → HasType (con c vs) ty
      open_type : {v : Val} {ty : Ty} → u.constructor_universe ty ≡ none → HasType v ty

    pub data HasTypes : Vals → List Ty → Type ℓ where
      end_types : HasTypes end []
      and_types :
          {v : Val} {vs : Vals} {ty : Ty} {tys : List Ty}
          → HasType v ty
          → HasTypes vs tys
          → HasTypes (and v vs) (ty ∷ tys)

  mutual
    -- The patterns that lowering gives for a type.
    pub data Fits : Pat → Ty → Type ℓ where
      fits_wild : {ty : Ty} → Fits wild ty
      fits_ctor :
          {c : Ctor} {ps : Pats} {ty : Ty} (cs : List (Ctor × List Ty)) (fields : List Ty)
          → u.constructor_universe ty ≡ some cs
          → Elem (c, fields) cs
          → FitsAll ps fields
          → Fits (ctor c ps) ty
      fits_lit : {ty : Ty} → u.constructor_universe ty ≡ none → Fits (ctor opaque_lit nil) ty

    pub data FitsAll : Pats → List Ty → Type ℓ where
      fits_nil : FitsAll nil []
      fits_cons :
          {p : Pat} {ps : Pats} {ty : Ty} {tys : List Ty}
          → Fits p ty
          → FitsAll ps tys
          → FitsAll (cons p ps) (ty ∷ tys)

  abbrev pub RowsFit : List Pats → List Ty → Type ℓ
  RowsFit matrix tys = All (λ row. FitsAll row tys) matrix

  pub FitsAll-append :
      {ps qs : Pats} {ts us : List Ty}
      → FitsAll ps ts
      → FitsAll qs us
      → FitsAll (append ps qs) (ts ++ us)
  FitsAll-append fits_nil g = g
  FitsAll-append (fits_cons f fs) g = fits_cons f (FitsAll-append fs g)

  pub FitsAll-wilds : (ts : List Ty) → FitsAll (wilds (length ts)) ts
  FitsAll-wilds [] = fits_nil
  FitsAll-wilds (t ∷ ts) = fits_cons fits_wild (FitsAll-wilds ts)

  pub HasTypes-both :
      {vs ws : Vals} {ts us : List Ty}
      → HasTypes vs ts
      → HasTypes ws us
      → HasTypes (both vs ws) (ts ++ us)
  HasTypes-both end_types h = h
  HasTypes-both (and_types t ts) h = and_types t (HasTypes-both ts h)

  -- A spread row matches just if its two parts do.
  pub split-MatchesAll :
      {ps qs : Pats} {vs ws : Vals} (ts : List Ty)
      → FitsAll ps ts
      → HasTypes vs ts
      → MatchesAll (append ps qs) (both vs ws)
      → MatchesAll ps vs × MatchesAll qs ws
  split-MatchesAll [] fits_nil end_types m = (matches_nil, m)
  split-MatchesAll (t ∷ ts) (fits_cons f fs) (and_types h hs) (matches_cons m ms) =
      let (a, b) = split-MatchesAll ts fs hs ms in (matches_cons m a, b)

  pub args-FitsAll :
      (ty : Ty) (cs : List (Ctor × List Ty)) (c : Ctor) (fields : List Ty) (ps : Pats)
      → u.constructor_universe ty ≡ some cs
      → Elem (c, fields) cs
      → Fits (ctor c ps) ty
      → FitsAll ps fields
  args-FitsAll ty cs c fields ps known listed (fits_ctor cs' fields' e m f) =
      let same : cs' ≡ cs = eq_of_some (sym e ∙ known) in
      let shape : fields' ≡ fields =
        u.one_shape ty cs c fields' fields known (subst (Elem (c, fields')) same m) listed in
      subst (FitsAll ps) shape f
  args-FitsAll ty cs c fields ps known listed (fits_lit e) = absurd (apart (sym e ∙ known))
    where
      apart : ◌≡◌ {A = Option (List (Ctor × List Ty))} none (some cs) → ⊥
      apart q = cc
