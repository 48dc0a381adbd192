-- ===== src/Types/Tests.antt =====
-- Types unified and instantiated.
use brasa.Prelude.{zero, ◌≡◌, refl, some, none}
use brasa.Types.{
  item, Ty, int, float, bool, unknown, never, vector, option, tuple, fn, generic, nil, cons, unify,
  unify_all, unify_flat, same, substitute, substitute_all, ty_discrete, Solution,
}
use brasa.Types.{method, struct}
use brasa.Types.Display.{
  Hir, struct_def, top_let, display, display_all, item_name, generic_name, join,
}
use brasa.Prelude.{[], ◌∷◌, codes}
use brasa.Types.Joins.{Joins}
use brasa.Types.Least.{unify-Joins}
use brasa.Types.Commute.{unify_comm}

abbrev partly_known : Ty
partly_known = tuple (cons (vector unknown) (cons never nil))

abbrev other_part : Ty
other_part = tuple (cons (vector bool) (cons (option int) nil))

run_unify : unify partly_known other_part ≡ some other_part
unfolding unify unify_all
run_unify = refl

run_apart : unify (vector int) (vector float) ≡ none
unfolding unify unify_flat same ty_discrete
run_apart = refl

run_lengths : unify (tuple (cons int nil)) (tuple (cons int (cons int nil))) ≡ none
unfolding unify unify_all unify_flat same ty_discrete
run_lengths = refl

abbrev solution : Solution
solution (item i) zero = some bool
solution owner index = none

run_substitute :
    substitute solution (fn (cons (generic (item 3) 0) nil) (generic (item 3) 1))
    ≡ fn (cons bool nil) (generic (item 3) 1)
unfolding substitute substitute_all
run_substitute = refl

unify-Joins_example : Joins partly_known other_part (unify partly_known other_part)
unify-Joins_example = unify-Joins partly_known other_part

unify_comm_example : unify partly_known other_part ≡ unify other_part partly_known
unify_comm_example = unify_comm partly_known other_part

abbrev hir : Hir
hir =
    struct_def (codes "Pair") (codes "A" ∷ codes "B" ∷ []) ((codes "C" ∷ []) ∷ [])
    ∷ top_let (codes "x")
    ∷ []

run_display :
    display hir
      (fn (cons (struct 0 (cons int (cons (vector bool) nil))) nil) (generic (method 0 0) 0))
    ≡ some (codes "(Pair<int, Vector<bool>>) -> C")
unfolding display display_all item_name generic_name join
run_display = refl

run_no_generic : display hir (option (generic (item 1) 0)) ≡ some (codes "Option<<generic>>")
unfolding display generic_name
run_no_generic = refl
