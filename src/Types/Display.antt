-- ===== src/Types/Display.antt =====
-- The rendering of types in diagnostics. Of the items of a module only what it reads is modelled: their
-- names, their generic parameters and those of a struct's methods. An item out of range is none.
use brasa.Prelude.{ℕ, Option, some, none, ◌>>=◌, List, [], ◌∷◌, ◌++◌, get_elem?, codes}
use brasa.Value.{Text}
use brasa.Types.{
  DefRef, item, method, Ty, Tys, int, float, bool, string, char, unit, never, unknown, range,
  vector, map, set, option, tuple, fn, struct, enum, generic, proc_output, http_response, cli_args,
  walk, stat, common, native_error, proc_non_zero_exit, json, concurrent_scope, task, nil, cons,
}

pub data Item : Type 0 where
  func_def enum_def interface_def : Text → List Text → Item
  struct_def : Text → List Text → List (List Text) → Item
  top_let test_def : Text → Item
  import stmt : Item

abbrev pub Hir : Type 0
Hir = List Item

abbrev declared_name : Item → Text
declared_name (func_def name generics) = name
declared_name (struct_def name generics methods) = name
declared_name (enum_def name generics) = name
declared_name (interface_def name generics) = name
declared_name (top_let name) = name
declared_name (test_def name) = name
declared_name other = codes "<item>"

unfoldable pub item_name : Hir → ℕ → Option Text
item_name hir ix = do found ← get_elem? hir ix; some (declared_name found)

abbrev item_generics : Item → List Text
item_generics (func_def name generics) = generics
item_generics (struct_def name generics methods) = generics
item_generics (enum_def name generics) = generics
item_generics (interface_def name generics) = generics
item_generics other = []

abbrev method_generics : ℕ → Item → List Text
method_generics index (struct_def name generics methods) = elim (get_elem? methods index) [
  | some found ↦ found
  | none ↦ []
]
method_generics index other = []

abbrev declared_generics : Hir → DefRef → Option (List Text)
declared_generics hir (item ix) = do found ← get_elem? hir ix; some (item_generics found)
declared_generics hir (method owner index) = do
  found ← get_elem? hir owner
  some (method_generics index found)

-- Without a list of generics there is no name either, as with one that is too short.
unfoldable pub generic_name : Hir → DefRef → ℕ → Option Text
generic_name hir owner index = do
  generics ← declared_generics hir owner
  some (elim (get_elem? generics index) [ some name ↦ name | none ↦ codes "<generic>" ])

unfoldable pub join : Text → List Text → Text
join separator [] = []
join separator (part ∷ []) = part
join separator (part ∷ next ∷ parts) = part ++ (separator ++ join separator (next ∷ parts))

abbrev wrapped : Text → Text → Text
wrapped front inner = front ++ (codes "<" ++ (inner ++ codes ">"))

abbrev nominal : Text → List Text → Text
nominal name [] = name
nominal name (part ∷ parts) = wrapped name (join (codes ", ") (part ∷ parts))

unfoldable mutual
  unfolding item_name generic_name join

  pub display : Hir → Ty → Option Text
  display hir int = some (codes "int")
  display hir float = some (codes "float")
  display hir bool = some (codes "bool")
  display hir string = some (codes "string")
  display hir char = some (codes "char")
  display hir unit = some (codes "unit")
  display hir never = some (codes "never")
  display hir unknown = some (codes "unknown")
  display hir range = some (codes "Range")
  display hir (vector elem) = do inner ← display hir elem; some (wrapped (codes "Vector") inner)
  display hir (map key value) = do
    k ← display hir key
    v ← display hir value
    some (wrapped (codes "Map") (k ++ (codes ", " ++ v)))
  display hir (set elem) = do inner ← display hir elem; some (wrapped (codes "Set") inner)
  display hir (option elem) = do inner ← display hir elem; some (wrapped (codes "Option") inner)
  display hir (tuple elems) = do
    parts ← display_all hir elems
    some (codes "(" ++ (join (codes ", ") parts ++ codes ")"))
  display hir (fn params ret) = do
    parts ← display_all hir params
    result ← display hir ret
    some (codes "(" ++ (join (codes ", ") parts ++ (codes ") -> " ++ result)))
  display hir (struct ix args) = do
    name ← item_name hir ix
    parts ← display_all hir args
    some (nominal name parts)
  display hir (enum ix args) = do
    name ← item_name hir ix
    parts ← display_all hir args
    some (nominal name parts)
  display hir (generic owner index) = generic_name hir owner index
  display hir proc_output = some (codes "Output")
  display hir http_response = some (codes "Response")
  display hir cli_args = some (codes "Args")
  display hir walk = some (codes "Walk")
  display hir stat = some (codes "Stat")
  display hir (common alts) = do parts ← display_all hir alts; some (join (codes " | ") parts)
  display hir native_error = some (codes "NativeError")
  display hir proc_non_zero_exit = some (codes "NonZeroExit")
  display hir json = some (codes "Json")
  display hir concurrent_scope = some (codes "Scope")
  display hir (task elem) = do inner ← display hir elem; some (wrapped (codes "Task") inner)

  pub display_all : Hir → Tys → Option (List Text)
  display_all hir nil = some []
  display_all hir (cons ty rest) = do
    part ← display hir ty
    parts ← display_all hir rest
    some (part ∷ parts)
