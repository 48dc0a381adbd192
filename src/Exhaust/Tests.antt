-- ===== src/Exhaust/Tests.antt =====
-- Matches on an option of bools, with the constructor sets of `bool`, `Option` and an open type.
use brasa.Prelude.{
  ◌≡◌, refl, sym, subst, ◌∙◌, eq_of_some, List, [], ◌∷◌, Bool, true, false, Option, none, some,
  arith, head, tail, All, All-Elem,
}
use brasa.Exhaust.{
  Ctor, bool, option_some, option_none, Pat, Pats, ctor, nil, cons, ctor_eq, ctor_discrete, spread,
  specialize, heads, default_matrix, has_head, Universe, is_complete, missing, head_witnesses,
  witnesses_complete, join_missing, no_columns, column, witnesses, add_rows, prefix_rows,
  cross_rows,
}
use brasa.Exhaust.Specialize.{fits_ctor, fits_nil, fits_cons, RowsFit}
use brasa.Exhaust.Covers.{row_size, pat_size}
use brasa.Exhaust.Ends.{Decides, witnesses-Decides}

data Ty : Type 0 where
  int_type bool_type : Ty
  option_type : Ty → Ty

abbrev shape : Ty → Ctor → List Ty
shape (option_type t) option_some = t ∷ []
shape _ _ = []

abbrev sets : Ty → Option (List (Ctor × List Ty))
sets int_type = none
sets bool_type = some ((bool true, []) ∷ (bool false, []) ∷ [])
sets (option_type t) = some ((option_some, t ∷ []) ∷ (option_none, []) ∷ [])

shaped :
    (ty : Ty) (cs : List (Ctor × List Ty)) → sets ty ≡ some cs → All (λ x. x.1 ≡ shape ty x.0) cs
shaped int_type cs e = cc
shaped bool_type cs e =
    subst (All (λ x. x.1 ≡ shape bool_type x.0)) (eq_of_some e) (refl, (refl, tt))
shaped (option_type t) cs e =
    subst (All (λ x. x.1 ≡ shape (option_type t) x.0)) (eq_of_some e) (refl, (refl, tt))

abbrev types : Universe Ty
types = record {
  constructor_universe = sets;
  one_shape = λ ty cs c fields fields' known m m'.
      All-Elem (λ x. x.1 ≡ shape ty x.0) m (shaped ty cs known)
      ∙ sym (All-Elem (λ x. x.1 ≡ shape ty x.0) m' (shaped ty cs known));
}

abbrev some_of : Pat → Pats
some_of p = cons (ctor option_some (cons p nil)) nil

abbrev no_value : Pats
no_value = cons (ctor option_none nil) nil

abbrev truth : Bool → Pat
truth b = ctor (bool b) nil

abbrev full : List Pats
full = some_of (truth true) ∷ some_of (truth false) ∷ no_value ∷ []

abbrev columns : List Ty
columns = option_type bool_type ∷ []

run_full : witnesses types 5 columns full ≡ some ([], 0)
unfolding witnesses column heads is_complete has_head ctor_eq ctor_discrete witnesses_complete
    specialize spread no_columns add_rows
run_full = refl

-- `Some(false)` is missing.
run_partial :
    witnesses types 3 columns (some_of (truth true) ∷ no_value ∷ [])
    ≡ some (some_of (truth false) ∷ [], 1)
unfolding witnesses column heads is_complete has_head ctor_eq ctor_discrete witnesses_complete
    specialize spread no_columns add_rows default_matrix join_missing head_witnesses missing
    cross_rows prefix_rows
run_partial = refl

truth-Fits : (b : Bool) → RowsFit types (cons (truth b) nil ∷ []) (bool_type ∷ [])
truth-Fits true = (fits_cons (fits_ctor _ [] refl head fits_nil) fits_nil, tt)
truth-Fits false = (fits_cons (fits_ctor _ [] refl (tail head) fits_nil) fits_nil, tt)

full-RowsFit : RowsFit types full columns
full-RowsFit = (
  fits_cons (fits_ctor _ (bool_type ∷ []) refl head (truth-Fits true).0) fits_nil,
  (
    fits_cons (fits_ctor _ (bool_type ∷ []) refl head (truth-Fits false).0) fits_nil,
    (fits_cons (fits_ctor _ [] refl (tail head) fits_nil) fits_nil, tt),
  ),
)

witnesses-Decides_example : Decides types columns full (witnesses types 5 columns full)
unfolding row_size pat_size
witnesses-Decides_example = witnesses-Decides types 5 columns full (omega arith) full-RowsFit
