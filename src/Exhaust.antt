-- ===== src/Exhaust.antt =====
-- crates/brasa_typeck/src/exhaust.rs: match exhaustiveness by Maranget's matrices of patterns. A row is
-- its own list of patterns, a witness row too. The types of columns come in through their constructor
-- sets, the interface `Universe`. `none` is a panic, an index into an empty row.
pub mod Specialize
pub mod Covers
pub mod Defaults
pub mod Ends
mod Tests
use brasa.Prelude.{
  ℕ, zero, suc, ◌+◌, ◌*◌, ◌-◌, ◌^◌, ◌≡◌, ◌↔◌, refl, List, [], ◌∷◌, ◌++◌, Bool, true, false, not,
  Option, none, some, ltb, min, if◌then◌else◌, length, ◌>>=◌, ◌&&◌, ◌||◌, Elem, ℕ_discrete,
}

pub data Ctor : Type 0 where
  bool : Bool → Ctor
  option_some option_none : Ctor
  variant : ℕ → ℕ → Ctor
  tuple opaque_lit : Ctor

unfoldable pub ctor_discrete : Discrete Ctor
ctor_discrete = hlevel ℕ_discrete

-- The derived `PartialEq` of `Ctor`.
unfoldable pub ctor_eq : Ctor → Ctor → Bool
ctor_eq a b = elim (ctor_discrete a b) [ yes _ ↦ true | no _ ↦ false ]

pub ctor_eq_iff : (a b : Ctor) → (ctor_eq a b ≡ true) ↔ (a ≡ b)
unfolding ctor_eq
ctor_eq_iff a b =
    elim (ctor_discrete a b) as (λ d. ((elim d [ yes _ ↦ true | no _ ↦ false ]) ≡ true) ↔ (a ≡ b)) [
      | yes p ↦ (λ _. p, λ _. refl)
      | no n ↦ (λ e. cc, λ p. absurd (n p))
    ]

mutual
  pub data Pat : Type 0 where
    wild : Pat
    ctor : Ctor → Pats → Pat

  -- `Vec<Pat>`
  pub data Pats : Type 0 where
    nil : Pats
    cons : Pat → Pats → Pats

abbrev pub append : Pats → Pats → Pats
append nil qs = qs
append (cons p ps) qs = cons p (append ps qs)

-- `vec![Pat::Wild; n]`
abbrev pub wilds : ℕ → Pats
wilds zero = nil
wilds (suc n) = cons wild (wilds n)

-- `row.split_at(n)`; a witness row has at least `n` columns.
abbrev pub front : ℕ → Pats → Pats
front zero ps = nil
front (suc n) nil = nil
front (suc n) (cons p ps) = cons p (front n ps)

abbrev pub back : ℕ → Pats → Pats
back zero ps = ps
back (suc n) nil = nil
back (suc n) (cons p ps) = back n ps

-- A row of the matrix, spread for the constructor `c` of `arity` fields.
unfoldable pub spread : Pat → Pats → Ctor → ℕ → List Pats → List Pats
spread wild rest c arity rows = append (wilds arity) rest ∷ rows
spread (ctor head args) rest c arity rows = if ctor_eq head c then append args rest ∷ rows else rows

unfoldable pub specialize : List Pats → Ctor → ℕ → Option (List Pats)
unfolding spread
specialize [] c arity = some []
specialize (nil ∷ matrix) c arity = none
specialize (cons p rest ∷ matrix) c arity = do
  rows ← specialize matrix c arity
  some (spread p rest c arity rows)

-- The head constructors of the rows.
abbrev pub head_of : Pat → List Ctor → List Ctor
head_of wild hs = hs
head_of (ctor c args) hs = c ∷ hs

unfoldable pub heads : List Pats → Option (List Ctor)
heads [] = some []
heads (nil ∷ matrix) = none
heads (cons p rest ∷ matrix) = do hs ← heads matrix; some (head_of p hs)

-- The rows with a wildcard in front, without it.
abbrev pub drop_head : Pat → Pats → List Pats → List Pats
drop_head wild rest rows = rest ∷ rows
drop_head (ctor c args) rest rows = rows

unfoldable pub default_matrix : List Pats → Option (List Pats)
default_matrix [] = some []
default_matrix (nil ∷ matrix) = none
default_matrix (cons p rest ∷ matrix) = do
  rows ← default_matrix matrix
  some (drop_head p rest rows)

unfoldable pub has_head : Ctor → List Ctor → Bool
has_head c [] = false
has_head c (h ∷ hs) = ctor_eq h c || has_head c hs

-- Saturating arithmetic on `u64`.
abbrev pub max_u64 : ℕ
max_u64 = 2 ^ 64 - 1

abbrev pub saturating_add : ℕ → ℕ → ℕ
saturating_add a b = min (a + b) max_u64

abbrev pub saturating_mul : ℕ → ℕ → ℕ
saturating_mul a b = min (a * b) max_u64

abbrev pub max_witnesses : ℕ
max_witnesses = 3

abbrev pub Answer : Type 0
Answer = List Pats × ℕ

-- Up to `max_witnesses` rows, the head constructor put back on each of the new ones.
unfoldable pub add_rows : Ctor → ℕ → List Pats → List Pats → List Pats
add_rows c arity witnesses [] = witnesses
add_rows c arity witnesses (row ∷ rows) =
    let more =
      add_rows c arity (witnesses ++ cons (ctor c (front arity row)) (back arity row) ∷ []) rows in
    if ltb (length witnesses) max_witnesses then more else witnesses

unfoldable pub prefix_rows : Pat → List Pats → List Pats → List Pats
prefix_rows head witnesses [] = witnesses
prefix_rows head witnesses (row ∷ rows) =
    let more = prefix_rows head (witnesses ++ cons head row ∷ []) rows in
    if ltb (length witnesses) max_witnesses then more else witnesses

unfoldable pub cross_rows : List Pat → List Pats → List Pats → List Pats
cross_rows [] witnesses rows = witnesses
cross_rows (head ∷ heads) witnesses rows = cross_rows heads (prefix_rows head witnesses rows) rows

unfoldable pub join_missing : List Pat → Answer → Answer
join_missing hs sub = (cross_rows hs [] sub.0, saturating_mul sub.1 (length hs))

unfoldable pub no_columns : List Pats → Answer
no_columns [] = (nil ∷ [], 1)
no_columns (row ∷ matrix) = ([], 0)

-- The finite constructor set of a column type with each constructor's field types; `none` for an
-- open type. A constructor has one list of field types.
pub record Universe {ℓ} (Ty : Type ℓ) : Type ℓ where
  pub constructor_universe : Ty → Option (List (Ctor × List Ty))
  pub one_shape :
      (ty : Ty) (cs : List (Ctor × List Ty)) (c : Ctor) (fields fields' : List Ty)
      → constructor_universe ty ≡ some cs
      → Elem (c, fields) cs
      → Elem (c, fields') cs
      → fields ≡ fields'

module _ {ℓ} {Ty : Type ℓ} (u : Universe Ty) where
  unfoldable pub is_complete : List Ctor → List (Ctor × List Ty) → Bool
  is_complete hs [] = true
  is_complete hs ((c, fields) ∷ cs) = has_head c hs && is_complete hs cs

  abbrev pub complete_in : List Ctor → Option (List (Ctor × List Ty)) → Bool
  complete_in hs none = false
  complete_in hs (some cs) = is_complete hs cs

  -- The heads of the witnesses of an incomplete column: the constructors that no row names.
  unfoldable pub missing : List Ctor → List (Ctor × List Ty) → List Pat
  missing hs [] = []
  missing hs ((c, fields) ∷ cs) =
      if has_head c hs then missing hs cs else ctor c (wilds (length fields)) ∷ missing hs cs

  unfoldable pub head_witnesses : List Ctor → Option (List (Ctor × List Ty)) → List Pat
  head_witnesses hs none = wild ∷ []
  head_witnesses hs (some cs) = missing hs cs

  -- The loop of `witnesses_complete`; `recur` is the recursive call.
  unfoldable pub witnesses_complete :
      (List Ty → List Pats → Option Answer)
      → List Pats
      → List Ty
      → List (Ctor × List Ty)
      → Answer
      → Option Answer
  witnesses_complete recur matrix rest_tys [] so_far = some so_far
  witnesses_complete recur matrix rest_tys ((c, fields) ∷ cs) so_far = do
    rows ← specialize matrix c (length fields)
    sub ← recur (fields ++ rest_tys) rows
    witnesses_complete recur matrix rest_tys cs
        (add_rows c (length fields) so_far.0 sub.0, saturating_add so_far.1 sub.1)

  -- A column of type `ty`: `deeper` and `rest` are the recursive calls on a column's fields and on
  -- the other columns.
  unfoldable pub column :
      (List Ty → List Pats → Option Answer)
      → (List Pats → Option Answer)
      → Ty
      → List Ty
      → List Pats
      → Option Answer
  column deeper rest ty tys matrix = do
    hs ← heads matrix
    let universe = u.constructor_universe ty
    let complete = universe >>= λ cs. witnesses_complete deeper matrix tys cs ([], 0)
    let incomplete = default_matrix matrix >>= λ rows.
        rest rows >>= λ sub. some (join_missing (head_witnesses hs universe) sub)
    if complete_in hs universe then complete else incomplete

  -- `fuel` bounds the constructors in the matrix, one of which each complete column uses up.
  unfoldable pub witnesses : ℕ → List Ty → List Pats → Option Answer
  unfolding column
  witnesses fuel [] matrix = some (no_columns matrix)
  witnesses zero (ty ∷ tys) matrix =
      column (λ ts m. none) (λ rows. witnesses zero tys rows) ty tys matrix
  witnesses (suc fuel) (ty ∷ tys) matrix =
      column (witnesses fuel) (λ rows. witnesses (suc fuel) tys rows) ty tys matrix
