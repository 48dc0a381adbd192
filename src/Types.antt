-- ===== src/Types.antt =====
-- crates/brasa_typeck/src/types.rs: the checker's types, their unification and the substitution of
-- generic parameters. A definition is its number; `Box` and `Vec` hold their types.
pub mod Known
pub mod Joins
pub mod Least
pub mod Commute
pub mod Display
mod Tests
use brasa.Prelude.{ℕ, Bool, true, false, Option, none, some, ◌>>=◌, ◌==◌, if◌then◌else◌, ℕ_discrete}

-- The item or the method of a struct that declares a generic parameter.
pub data DefRef : Type 0 where
  item : ℕ → DefRef
  method : ℕ → ℕ → DefRef

mutual
  pub data Ty : Type 0 where
    int float bool string char unit never unknown range : Ty
    vector : Ty → Ty
    map : Ty → Ty → Ty
    set option : Ty → Ty
    tuple : Tys → Ty
    fn : Tys → Ty → Ty
    struct enum : ℕ → Tys → Ty
    generic : DefRef → ℕ → Ty
    proc_output http_response cli_args walk stat : Ty
    common : Tys → Ty
    native_error proc_non_zero_exit json concurrent_scope : Ty
    task : Ty → Ty

  pub data Tys : Type 0 where
    nil : Tys
    cons : Ty → Tys → Tys

unfoldable pub def_ref_discrete : Discrete DefRef
unfolding ℕ_discrete
def_ref_discrete = hlevel ℕ_discrete

unfoldable pub ty_discrete : Discrete Ty
unfolding ℕ_discrete def_ref_discrete
ty_discrete = hlevel (ℕ_discrete, def_ref_discrete)

-- The derived `PartialEq`, with the type that both are.
unfoldable pub same : Ty → Ty → Option Ty
same a b = elim (ty_discrete a b) [ yes _ ↦ some a | no _ ↦ none ]

-- The last arms of `unify`, for an `a` that is neither `unknown` nor `never`.
unfoldable pub unify_flat : Ty → Ty → Option Ty
unify_flat a unknown = some a
unify_flat a never = some a
unify_flat a b = same a b

-- `unify_all` is the `zip` of two lists of one length; at two lengths there is no type.
unfoldable mutual
  pub unify : Ty → Ty → Option Ty
  unify unknown b = some b
  unify never unknown = some never
  unify never b = some b
  unify (vector x) (vector y) = do z ← unify x y; some (vector z)
  unify (set x) (set y) = do z ← unify x y; some (set z)
  unify (task x) (task y) = do z ← unify x y; some (task z)
  unify (option x) (option y) = do z ← unify x y; some (option z)
  unify (map k v) (map l w) = do key ← unify k l; value ← unify v w; some (map key value)
  unify (tuple xs) (tuple ys) = do zs ← unify_all xs ys; some (tuple zs)
  unify (fn ps r) (fn qs s) = do params ← unify_all ps qs; ret ← unify r s; some (fn params ret)
  unify (struct i xs) (struct j ys) =
      let args = unify_all xs ys in if i == j then (do zs ← args; some (struct i zs)) else none
  unify (enum i xs) (enum j ys) =
      let args = unify_all xs ys in if i == j then (do zs ← args; some (enum i zs)) else none
  unify a b = unify_flat a b

  pub unify_all : Tys → Tys → Option Tys
  unify_all nil nil = some nil
  unify_all (cons x xs) (cons y ys) = do z ← unify x y; zs ← unify_all xs ys; some (cons z zs)
  unify_all nil (cons y ys) = none
  unify_all (cons x xs) nil = none

-- The map from generic parameters to types.
abbrev pub Solution : Type 0
Solution = DefRef → ℕ → Option Ty

abbrev or_generic : DefRef → ℕ → Option Ty → Ty
or_generic owner index none = generic owner index
or_generic owner index (some ty) = ty

unfoldable mutual
  pub substitute : Solution → Ty → Ty
  substitute σ (generic owner index) = or_generic owner index (σ owner index)
  substitute σ (vector x) = vector (substitute σ x)
  substitute σ (set x) = set (substitute σ x)
  substitute σ (task x) = task (substitute σ x)
  substitute σ (option x) = option (substitute σ x)
  substitute σ (map k v) = map (substitute σ k) (substitute σ v)
  substitute σ (tuple xs) = tuple (substitute_all σ xs)
  substitute σ (fn ps r) = fn (substitute_all σ ps) (substitute σ r)
  substitute σ (struct i xs) = struct i (substitute_all σ xs)
  substitute σ (enum i xs) = enum i (substitute_all σ xs)
  substitute σ ty = ty

  pub substitute_all : Solution → Tys → Tys
  substitute_all σ nil = nil
  substitute_all σ (cons x xs) = cons (substitute σ x) (substitute_all σ xs)
