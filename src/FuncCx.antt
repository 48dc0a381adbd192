-- ===== src/FuncCx.antt =====
-- crates/brasa_codegen/src/func.rs: the state while one function is compiled, with the parts of the module's
-- state that it changes, the constant pool and the reports. The locals that are shared with a closure and
-- the registry of builtins are parameters.
pub mod Slots
pub mod Finish
mod Tests
use brasa.Prelude.{
  ℕ, zero, suc, ◌+◌, ◌-◌, ◌^◌, Bool, true, false, Option, some, none, ◌>>=◌, List, [], ◌∷◌, ◌++◌,
  ◌==◌, leb, ltb, max, min, if◌then◌else◌, length, codes, decimal,
}
use brasa.Value.{Text}
use brasa.Bytecode.{Op, CodeIx, Span, Handler, Chunk, Function, push, patch_jump, push_handler}
use brasa.Bytecode
use brasa.Bytecode.Constants.{Constant, ConstPool, insert_const}
use brasa.Depth.{StructShape, finalize, Needed, ok, err}

pub data FnKind : Type 0 where
  toplevel lambda : FnKind
  func : Bool → FnKind

pub record LoopCx : Type 0 where
  pub head : CodeIx
  pub break_jumps : List CodeIx
  pub pops_iterator_on_break : Bool

pub record Report : Type 0 where
  pub code : Text
  pub message : Text
  pub label : Text
  pub span : Span

-- The slot of a local, the last one inserted.
abbrev pub SlotMap : Type 0
SlotMap = List (ℕ × ℕ)

unfoldable pub slot_for : ℕ → SlotMap → Option ℕ
slot_for local [] = none
slot_for local ((l, slot) ∷ slots) = if l == local then some slot else slot_for local slots

pub record FuncCx : Type 0 where
  pub kind : FnKind
  pub chunk : Chunk
  pub handlers : List Handler
  pub slots : SlotMap
  pub next_slot : ℕ
  pub slots_exhausted : Bool
  pub self_slot : Option ℕ
  pub loops : List LoopCx
  pub pool : ConstPool
  pub diagnostics : List Report

unfoldable pub new_func : FnKind → ConstPool → List Report → FuncCx
unfolding Bytecode.new
new_func kind pool diagnostics = record {
  kind = kind;
  chunk = Bytecode.new;
  handlers = [];
  slots = [];
  next_slot = 0;
  slots_exhausted = false;
  self_slot = none;
  loops = [];
  pool = pool;
  diagnostics = diagnostics;
}

unfoldable pub emit : Op → Span → FuncCx → Option (FuncCx × CodeIx)
emit op span f = do (chunk, ix) ← push f.chunk op span; some (record f { chunk = chunk }, ix)

unfoldable pub patch : CodeIx → CodeIx → FuncCx → Option FuncCx
patch at target f = do chunk ← patch_jump f.chunk at target; some (record f { chunk = chunk })

unfoldable pub here : FuncCx → Option CodeIx
here f = let at = length f.chunk.code in if ltb at (2 ^ 32) then some at else none

abbrev max_slot : ℕ
max_slot = 2 ^ 16 - 1

unfoldable pub assign_slot : ℕ → ℕ → FuncCx → FuncCx
assign_slot local slot f = record f {
  slots = (local, slot) ∷ f.slots;
  next_slot = max f.next_slot (min (slot + 1) max_slot);
}

unfoldable pub alloc_slot : FuncCx → FuncCx × ℕ
alloc_slot f = (
  if ltb f.next_slot max_slot
      then record f { next_slot = f.next_slot + 1 }
      else record f { slots_exhausted = true },
  f.next_slot,
)

abbrev found_or_alloc : ℕ → FuncCx → Option ℕ → FuncCx × ℕ
found_or_alloc local f (some slot) = (f, slot)
found_or_alloc local f none =
    let (f', slot) = alloc_slot f in (record f' { slots = (local, slot) ∷ f'.slots }, slot)

unfoldable pub slot_of : ℕ → FuncCx → FuncCx × ℕ
unfolding slot_for alloc_slot
slot_of local f = found_or_alloc local f (slot_for local f.slots)

unfoldable pub reserve_slot_floor : ℕ → FuncCx → FuncCx
reserve_slot_floor floor f = record f { next_slot = max f.next_slot floor }

module _ (is_shared : ℕ → Bool) where
  unfoldable pub bind_local : ℕ → Span → FuncCx → Option (FuncCx × CodeIx)
  unfolding slot_of emit
  bind_local local span f =
      let (f', slot) = slot_of local f in
      emit (if is_shared local then Op.make_binding slot else Op.store_local slot) span f'

  unfoldable pub load_local : ℕ → Span → FuncCx → Option (FuncCx × CodeIx)
  unfolding slot_of emit
  load_local local span f =
      let (f', slot) = slot_of local f in
      emit (if is_shared local then Op.load_binding slot else Op.load_local slot) span f'

  unfoldable pub store_local : ℕ → Span → FuncCx → Option (FuncCx × CodeIx)
  unfolding slot_of emit
  store_local local span f =
      let (f', slot) = slot_of local f in
      emit (if is_shared local then Op.store_binding slot else Op.store_local slot) span f'

  unfoldable pub bind_shared_param : ℕ → Span → FuncCx → Option FuncCx
  unfolding slot_of emit
  bind_shared_param local span f = do
    let (f0, slot) = slot_of local f
    (f1, ix) ← emit (Op.load_local slot) span f0
    (f2, jx) ← emit (Op.make_binding slot) span f1
    some f2

  unfoldable pub bind_shared_params : List ℕ → Span → FuncCx → Option FuncCx
  unfolding bind_shared_param
  bind_shared_params [] span f = some f
  bind_shared_params (local ∷ locals) span f =
      (if is_shared local then bind_shared_param local span f else some f)
      >>= bind_shared_params locals span

unfoldable pub capture_local : ℕ → Span → FuncCx → Option (FuncCx × CodeIx)
unfolding slot_of emit
capture_local local span f = let (f', slot) = slot_of local f in emit (Op.load_local slot) span f'

unfoldable pub emit_const : Constant → Span → FuncCx → Option (FuncCx × CodeIx)
unfolding emit
emit_const constant span f = do
  (pool, id) ← insert_const f.pool constant
  emit (Op.const id) span (record f { pool = pool })

-- `builtin_id` is the registry of builtins.
module _ (builtin_id : Text → Option ℕ) where
  unfoldable pub emit_raise : Text → Text → Span → FuncCx → Option FuncCx
  unfolding emit_const emit
  emit_raise builtin message span f = do
    id ← builtin_id builtin
    (f1, ix) ← emit_const (Constant.str message) span f
    (f2, jx) ← emit (Op.call_builtin id 1) span f1
    some f2

  unfoldable pub load_self : Span → FuncCx → Option FuncCx
  unfolding emit_raise emit
  load_self span f = elim f.self_slot [
    | some slot ↦ do (f', ix) ← emit (Op.load_local slot) span f; some f'
    | none ↦ emit_raise (codes "<fatal>") (codes "brasa: `self` outside a method") span f
  ]

abbrev report : Text → Text → Text → Span → List Report → List Report
report code message label span reports =
    reports ++ record { code = code; message = message; label = label; span = span } ∷ []

unfoldable pub quoted : Text → Text
quoted name = codes "`" ++ (name ++ codes "`")

unfoldable pub too_many_slots : Text → Span → List Report → List Report
unfolding quoted
too_many_slots name span reports =
    report (codes "C005")
      (quoted name ++ (codes " needs more than " ++ (decimal max_slot ++ codes " local slots")))
      (codes "too many local bindings") span reports

unfoldable pub too_complex : Text → ℕ → Span → List Report → List Report
unfolding quoted
too_complex name needed span reports =
    report (codes "C006")
      (quoted name
        ++ (codes " needs "
            ++ (decimal needed
                ++ (codes " operand-stack slots, but the limit is " ++ decimal max_slot))))
      (codes "expression too complex") span reports

abbrev push_handlers : Chunk → List Handler → Chunk
push_handlers chunk [] = chunk
push_handlers chunk (h ∷ hs) = push_handlers (push_handler chunk h) hs

-- The operand stack and what is reported of it.
unfoldable pub max_stack_of : Text → Span → List Report → Needed → ℕ × List Report
unfolding too_complex
max_stack_of name span reports (ok n) = (n, reports)
max_stack_of name span reports (err needed) = (max_slot, too_complex name needed span reports)

abbrev pub Depths : Type 0
Depths = List Handler × (ℕ × List Report)

-- The pass runs while nothing is reported.
unfoldable pub depths_of : List StructShape → Text → Span → FuncCx → List Report → Option Depths
unfolding finalize max_stack_of
depths_of structs name span f [] = do
  (handlers, needed) ← finalize f.chunk.code f.handlers structs
  some (handlers, max_stack_of name span [] needed)
depths_of structs name span f reports = some (f.handlers, (0, reports))

unfoldable pub finish :
    List StructShape → Text → ℕ → ℕ → Span → FuncCx → Option (Function × List Report)
unfolding depths_of too_many_slots push_handler
finish structs name arity captures span f = do
  let reports = if f.slots_exhausted then too_many_slots name span f.diagnostics else f.diagnostics
  (handlers, (max_stack, reported)) ← depths_of structs name span f reports
  some (
    record {
      name = name;
      arity = arity;
      captures = captures;
      locals = f.next_slot;
      max_stack = max_stack;
      chunk = push_handlers f.chunk handlers;
    },
    reported,
  )
