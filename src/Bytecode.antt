-- ===== src/Bytecode.antt =====
-- crates/brasa_bytecode/src/op.rs, chunk.rs and module.rs: the instruction set, a function's code
-- with its span and handler tables, and the function table. An id is its number. `none` is a panic.
pub mod Jumps
pub mod Handlers
pub mod Constants
mod Tests
use brasa.Prelude.{
  ℕ, suc, ◌+◌, ◌^◌, List, [], ◌∷◌, ◌++◌, Bool, true, false, Option, none, some, ltb, leb,
  if◌then◌else◌, length, set, get_elem?, ◌>>=◌, ◌&&◌,
}
use brasa.Value.{Text}

abbrev pub CodeIx : Type 0
CodeIx = ℕ

pub data Op : Type 0 where
  const : ℕ → Op
  load_unit load_true load_false load_none : Op
  pop dup : Op
  load_local store_local make_binding load_binding store_binding : ℕ → Op
  load_global store_global : ℕ → Op
  load_func : ℕ → Op
  add_int sub_int mul_int div_int rem_int pow_int neg_int : Op
  add_float sub_float mul_float div_float rem_float pow_float neg_float : Op
  concat not : Op
  eq lt le gt ge : Op
  eq_int eq_float eq_bool lt_int le_int gt_int ge_int : Op
  lt_float le_float gt_float ge_float : Op
  jump jump_if_false jump_if_false_or_pop jump_if_true_or_pop : CodeIx → Op
  jump_if_variant_ne : ℕ → CodeIx → Op
  jump_if_none : CodeIx → Op
  wrap_some wrap_some_dynamic unwrap_some : Op
  tuple_field enum_field get_field set_field : ℕ → Op
  get_index set_index : Op
  call : ℕ → ℕ → Op
  call_value : ℕ → Op
  call_builtin call_method_dyn : ℕ → ℕ → Op
  bind_method_dyn bind_method bind_builtin : ℕ → Op
  ret : Op
  make_vector make_map make_tuple : ℕ → Op
  make_set_from_vector : Op
  make_struct : ℕ → Op
  make_enum : ℕ → ℕ → ℕ → Op
  make_closure : ℕ → ℕ → Op
  make_range : Bool → Op
  to_string iter_new : Op
  iter_next : CodeIx → Op
  throw : Op
  jump_if_panic : CodeIx → Op
  jump_if_tag_ne : ℕ → CodeIx → Op
  caught_value caught_detail rethrow : Op

-- A `Span` of brasa_source: a byte range in a file.
pub record Span : Type 0 where
  pub start : ℕ
  pub end : ℕ
  pub file : ℕ

pub record Handler : Type 0 where
  pub start : CodeIx
  pub end : CodeIx
  pub target : CodeIx
  pub depth : ℕ

unfoldable pub covers : Handler → CodeIx → Bool
covers h ix = leb h.start ix && ltb ix h.end

pub record Chunk : Type 0 where
  pub code : List Op
  pub spans : List Span
  pub handlers : List Handler

unfoldable pub new : Chunk
new = record { code = []; spans = []; handlers = [] }

-- `push`: the new instruction's index, which has to fit into 32 bits.
unfoldable pub push : Chunk → Op → Span → Option (Chunk × CodeIx)
push c op span =
    if ltb (length c.code) (2 ^ 32)
    then some (record c { code = c.code ++ op ∷ []; spans = c.spans ++ span ∷ [] }, length c.code)
    else none

-- The instruction with its jump target replaced; `none` for an instruction that is no jump.
unfoldable pub retarget : Op → CodeIx → Option Op
retarget (Op.jump t) target = some (Op.jump target)
retarget (Op.jump_if_false t) target = some (Op.jump_if_false target)
retarget (Op.jump_if_false_or_pop t) target = some (Op.jump_if_false_or_pop target)
retarget (Op.jump_if_true_or_pop t) target = some (Op.jump_if_true_or_pop target)
retarget (Op.jump_if_variant_ne variant t) target = some (Op.jump_if_variant_ne variant target)
retarget (Op.jump_if_none t) target = some (Op.jump_if_none target)
retarget (Op.iter_next t) target = some (Op.iter_next target)
retarget (Op.jump_if_panic t) target = some (Op.jump_if_panic target)
retarget (Op.jump_if_tag_ne tag t) target = some (Op.jump_if_tag_ne tag target)
retarget other target = none

unfoldable pub patch_jump : Chunk → CodeIx → CodeIx → Option Chunk
patch_jump c at target = do
  op ← get_elem? c.code at
  op' ← retarget op target
  some (record c { code = set c.code at op' })

unfoldable pub push_handler : Chunk → Handler → Chunk
push_handler c handler = record c { handlers = c.handlers ++ handler ∷ [] }

unfoldable pub first_covering : CodeIx → List Handler → Option Handler
first_covering ix [] = none
first_covering ix (h ∷ hs) = if covers h ix then some h else first_covering ix hs

unfoldable pub handler_for : Chunk → CodeIx → Option Handler
handler_for c ix = first_covering ix c.handlers

unfoldable pub span_at : Chunk → CodeIx → Option Span
span_at c ix = get_elem? c.spans ix

pub record Function : Type 0 where
  pub name : Text
  pub arity : ℕ
  pub captures : ℕ
  pub locals : ℕ
  pub max_stack : ℕ
  pub chunk : Chunk
