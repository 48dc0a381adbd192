-- ===== src/Depth.antt =====
-- crates/brasa_codegen/src/depth.rs: the operand depths of a finished chunk, as a release build computes
-- them. An index out of bounds is none; a change of depth is a signed number.
pub mod Paths
pub mod Visits
pub mod Drains
pub mod Seeds
pub mod Finds
pub mod Tests
use brasa.Prelude.{
  ℕ, zero, suc, ◌+◌, ◌*◌, ◌-◌, ◌%◌, ◌^◌, ◌≡◌, Bool, true, false, not, ◌&&◌, ◌||◌, Option, some,
  none, ◌>>=◌, List, [], ◌∷◌, map, max, min, ltb, leb, if◌then◌else◌, length, get_elem?, set,
  replicate,
}
use brasa.Prelude.Int.{ℤ, pos, pos_part, sub_ℕ, ◌+ℤ◌}
use brasa.Value.{Text}
use brasa.Bytecode.{Op, CodeIx, Handler}

pub record StructShape : Type 0 where
  pub name : Text
  pub fields : List Text
  pub methods : List ℕ
  pub to_string : Option ℕ

abbrev max_u32 : ℕ
max_u32 = 2 ^ 32 - 1

abbrev max_u16 : ℕ
max_u16 = 2 ^ 16 - 1

-- Below zero a depth is clamped to zero, beyond 32 bits to the largest.
unfoldable pub apply : ℕ → ℤ → ℕ
unfolding ◌+ℤ◌
apply depth delta = min (pos_part (pos depth +ℤ delta)) max_u32

unfoldable field_effect : Option StructShape → Option ℤ
field_effect none = none
field_effect (some shape) = some (sub_ℕ 1 (min (length shape.fields) (2 ^ 31 - 1)))

-- No effect where the source does not get: at a branch, at an end and at a missing struct.
unfoldable pub net_effect : List StructShape → Op → Option ℤ
unfolding field_effect
net_effect structs (Op.const x) = some (pos 1)
net_effect structs Op.load_unit = some (pos 1)
net_effect structs Op.load_true = some (pos 1)
net_effect structs Op.load_false = some (pos 1)
net_effect structs Op.load_none = some (pos 1)
net_effect structs Op.dup = some (pos 1)
net_effect structs (Op.load_local x) = some (pos 1)
net_effect structs (Op.load_binding x) = some (pos 1)
net_effect structs (Op.load_global x) = some (pos 1)
net_effect structs (Op.load_func x) = some (pos 1)
net_effect structs Op.caught_value = some (pos 1)
net_effect structs Op.caught_detail = some (pos 1)
net_effect structs Op.pop = some (sub_ℕ 0 1)
net_effect structs (Op.store_local x) = some (sub_ℕ 0 1)
net_effect structs (Op.make_binding x) = some (sub_ℕ 0 1)
net_effect structs (Op.store_binding x) = some (sub_ℕ 0 1)
net_effect structs (Op.store_global x) = some (sub_ℕ 0 1)
net_effect structs Op.add_int = some (sub_ℕ 0 1)
net_effect structs Op.sub_int = some (sub_ℕ 0 1)
net_effect structs Op.mul_int = some (sub_ℕ 0 1)
net_effect structs Op.div_int = some (sub_ℕ 0 1)
net_effect structs Op.rem_int = some (sub_ℕ 0 1)
net_effect structs Op.pow_int = some (sub_ℕ 0 1)
net_effect structs Op.add_float = some (sub_ℕ 0 1)
net_effect structs Op.sub_float = some (sub_ℕ 0 1)
net_effect structs Op.mul_float = some (sub_ℕ 0 1)
net_effect structs Op.div_float = some (sub_ℕ 0 1)
net_effect structs Op.rem_float = some (sub_ℕ 0 1)
net_effect structs Op.pow_float = some (sub_ℕ 0 1)
net_effect structs Op.concat = some (sub_ℕ 0 1)
net_effect structs Op.eq = some (sub_ℕ 0 1)
net_effect structs Op.lt = some (sub_ℕ 0 1)
net_effect structs Op.le = some (sub_ℕ 0 1)
net_effect structs Op.gt = some (sub_ℕ 0 1)
net_effect structs Op.ge = some (sub_ℕ 0 1)
net_effect structs Op.eq_int = some (sub_ℕ 0 1)
net_effect structs Op.eq_float = some (sub_ℕ 0 1)
net_effect structs Op.eq_bool = some (sub_ℕ 0 1)
net_effect structs Op.lt_int = some (sub_ℕ 0 1)
net_effect structs Op.le_int = some (sub_ℕ 0 1)
net_effect structs Op.gt_int = some (sub_ℕ 0 1)
net_effect structs Op.ge_int = some (sub_ℕ 0 1)
net_effect structs Op.lt_float = some (sub_ℕ 0 1)
net_effect structs Op.le_float = some (sub_ℕ 0 1)
net_effect structs Op.gt_float = some (sub_ℕ 0 1)
net_effect structs Op.ge_float = some (sub_ℕ 0 1)
net_effect structs Op.get_index = some (sub_ℕ 0 1)
net_effect structs (Op.make_range x) = some (sub_ℕ 0 1)
net_effect structs Op.neg_int = some (pos 0)
net_effect structs Op.neg_float = some (pos 0)
net_effect structs Op.not = some (pos 0)
net_effect structs Op.wrap_some = some (pos 0)
net_effect structs Op.wrap_some_dynamic = some (pos 0)
net_effect structs Op.unwrap_some = some (pos 0)
net_effect structs (Op.tuple_field x) = some (pos 0)
net_effect structs (Op.enum_field x) = some (pos 0)
net_effect structs (Op.get_field x) = some (pos 0)
net_effect structs (Op.bind_method x) = some (pos 0)
net_effect structs (Op.bind_method_dyn x) = some (pos 0)
net_effect structs (Op.bind_builtin x) = some (pos 0)
net_effect structs Op.to_string = some (pos 0)
net_effect structs Op.iter_new = some (pos 0)
net_effect structs Op.make_set_from_vector = some (pos 0)
net_effect structs (Op.set_field x) = some (sub_ℕ 0 2)
net_effect structs Op.set_index = some (sub_ℕ 0 3)
net_effect structs (Op.call f argc) = some (sub_ℕ 1 argc)
net_effect structs (Op.call_value argc) = some (sub_ℕ 0 argc)
net_effect structs (Op.call_builtin builtin argc) = some (sub_ℕ 1 argc)
net_effect structs (Op.call_method_dyn method argc) = some (sub_ℕ 1 argc)
net_effect structs (Op.make_vector n) = some (sub_ℕ 1 n)
net_effect structs (Op.make_tuple n) = some (sub_ℕ 1 n)
net_effect structs (Op.make_map n) = some (sub_ℕ 1 (2 * n))
net_effect structs (Op.make_struct s) = field_effect (get_elem? structs s)
net_effect structs (Op.make_enum item variant argc) = some (sub_ℕ 1 argc)
net_effect structs (Op.make_closure f captures) = some (sub_ℕ 1 captures)
net_effect structs branch = none

-- The change where an instruction falls through, and the target with the change where it branches.
abbrev pub Successors : Type 0
Successors = Option ℤ × Option (CodeIx × ℤ)

abbrev falls : ℤ → Successors
falls delta = (some delta, none)

unfoldable pub transition : List StructShape → Op → Option Successors
unfolding net_effect
transition structs (Op.jump target) = some (none, some (target, pos 0))
transition structs (Op.jump_if_false target) = some (some (sub_ℕ 0 1), some (target, sub_ℕ 0 1))
transition structs (Op.jump_if_false_or_pop target) = some (some (sub_ℕ 0 1), some (target, pos 0))
transition structs (Op.jump_if_true_or_pop target) = some (some (sub_ℕ 0 1), some (target, pos 0))
transition structs (Op.jump_if_variant_ne variant target) =
    some (some (pos 0), some (target, pos 0))
transition structs (Op.jump_if_none target) = some (some (pos 0), some (target, pos 0))
transition structs (Op.jump_if_panic target) = some (some (pos 0), some (target, pos 0))
transition structs (Op.jump_if_tag_ne tag target) = some (some (pos 0), some (target, pos 0))
transition structs (Op.iter_next target) = some (some (pos 1), some (target, sub_ℕ 0 1))
transition structs Op.ret = some (none, none)
transition structs Op.throw = some (none, none)
transition structs Op.rethrow = some (none, none)
transition structs op = do delta ← net_effect structs op; some (falls delta)

-- The depths found so far, the largest one, and the instructions to visit with their depths, the next
-- one first.
pub record Pass : Type 0 where
  pub depths : List (Option ℕ)
  pub max : ℕ
  pub work : List (CodeIx × ℕ)

unfoldable pub push_work : CodeIx → ℕ → Pass → Pass
push_work ix depth p = record p { max = max p.max depth; work = (ix, depth) ∷ p.work }

unfoldable pub push_branch : ℕ → Option (CodeIx × ℤ) → Pass → Pass
unfolding push_work apply
push_branch depth none p = p
push_branch depth (some (target, delta)) p = push_work target (apply depth delta) p

unfoldable pub push_fall : CodeIx → ℕ → Option ℤ → Pass → Pass
unfolding push_work apply
push_fall ix depth none p = p
push_fall ix depth (some delta) p = push_work (ix + 1) (apply depth delta) p

-- One instruction taken from the work, which `p` is without.
unfoldable pub visit : List StructShape → List Op → CodeIx → ℕ → Pass → Option Pass
unfolding transition push_branch push_fall
visit structs code ix depth p = elim (get_elem? code ix) [
  | none ↦ some p
  | some op ↦ elim (get_elem? p.depths ix) [
    | none ↦ none
    | some found ↦ elim found [
      | some existing ↦ some p
      | none ↦ do
        (fall, branch) ← transition structs op
        some (
            push_fall ix depth fall (
              push_branch depth branch
                (record p { depths = set p.depths ix (some depth); max = max p.max depth })))
    ]
  ]
]

-- The inner loop, until no work is left.
unfoldable pub drain : ℕ → List StructShape → List Op → Pass → Option Pass
unfolding visit
drain zero structs code p = none
drain (suc fuel) structs code p = elim p.work [
  | [] ↦ some p
  | item ∷ rest ↦
      visit structs code item.0 item.1 (record p { work = rest }) >>= drain fuel structs code
]

-- A handler and whether it is seeded.
abbrev pub Seeded : Type 0
Seeded = Handler × Bool

-- The new handler and pass, and whether there was progress.
unfoldable pub seed_one : Seeded → Pass → Option (Seeded × Pass × Bool)
unfolding push_work
seed_one (h, true) p = some ((h, true), p, false)
seed_one (h, false) p = elim (get_elem? p.depths h.start) [
  | none ↦ none
  | some found ↦ elim found [
    | none ↦ some ((h, false), p, false)
    | some depth ↦ some (
      (record h { depth = min depth max_u16 }, true),
      push_work h.target ((depth + 1) % 2 ^ 32) p,
      true,
    )
  ]
]

unfoldable pub seed : List Seeded → Pass → Option (List Seeded × Pass × Bool)
unfolding seed_one
seed [] p = some ([], p, false)
seed (h ∷ hs) p = do
  (h', p1, here) ← seed_one h p
  (hs', p2, later) ← seed hs p1
  some (h' ∷ hs', p2, here || later)

abbrev pub is_empty : List (CodeIx × ℕ) → Bool
is_empty [] = true
is_empty (item ∷ work) = false

-- The outer loop. A visit takes an item from the work, and leaves at most two for an instruction that
-- it visits once: the inner loop has fuel for these.
unfoldable pub rounds :
    ℕ → List StructShape → List Op → List Seeded → Pass → Option (List Seeded × Pass)
unfolding drain seed
rounds zero structs code hs p = none
rounds (suc fuel) structs code hs p = do
  p1 ← drain (2 * length code + length p.work + 1) structs code p
  (hs', p2, progressed) ← seed hs p1
  elim (not progressed && is_empty p2.work) [
    | true ↦ some (hs', p2)
    | false ↦ rounds fuel structs code hs' p2
  ]

pub data Needed : Type 0 where
  ok err : ℕ → Needed

abbrev pub start_pass : List Op → Pass
start_pass code = record { depths = replicate (length code) none; max = 0; work = (0, 0) ∷ [] }

-- The handlers with their depths, and the depth that a frame has to reserve. A round seeds a handler or
-- is the last.
unfoldable pub finalize : List Op → List Handler → List StructShape → Option (List Handler × Needed)
unfolding rounds
finalize code handlers structs = do
  (hs, p) ←
      rounds (length handlers + 1) structs code (map (λ h. (h, false)) handlers) (start_pass code)
  some (map (λ h. h.0) hs, if leb p.max max_u16 then ok p.max else err p.max)
