-- ===== src/Heap/Mark.antt =====
-- The marking half of `collect`: `visit`, the two scans, and the worklist loop over `pending`, whose
-- top is its head. `none` is an index out of bounds, one of the source's `unreachable!`s, or fuel
-- that ran out.
use brasa.Prelude.{
  ℕ, zero, suc, ◌+◌, List, [], ◌∷◌, true, false, Option, none, some, if◌then◌else◌, length, set,
  get_elem?, replicate, ◌>>=◌,
}
use brasa.Value.{
  Value, GcRef, Handle, Node, TaskState, Caught, IterState, tuple_node, some_node, enum_node,
  walk_node, closure_node, bound_method_node, bound_builtin_node, caught_node, iter_node,
}
use brasa.Heap.{HeapCell, MarkState, Pending, cell, shared}
use brasa.Heap.Invariant.{contains}

-- The arena cell that a value of an arena kind refers to.
unfoldable pub cell_of : Value → Option GcRef
cell_of (Value.vector r) = some r
cell_of (Value.map r) = some r
cell_of (Value.set r) = some r
cell_of (Value.struct r) = some r
cell_of (Value.binding r) = some r
cell_of (Value.concurrent_scope r) = some r
cell_of (Value.task r) = some r
cell_of _ = none

-- The address of a shared immutable node that has edges.
unfoldable pub shared_address : Value → Option Handle
shared_address (Value.tuple a) = some a
shared_address (Value.option_some a) = some a
shared_address (Value.enum a) = some a
shared_address (Value.walk a) = some a
shared_address (Value.closure a) = some a
shared_address (Value.bound_method a) = some a
shared_address (Value.bound_builtin a) = some a
shared_address (Value.caught a) = some a
shared_address (Value.iter a) = some a
shared_address _ = none

unfoldable pub begin : ℕ → MarkState
begin slots = record { marked = replicate slots false; visited = []; pending = [] }

unfoldable pub visit_cell : MarkState → GcRef → Option MarkState
visit_cell m r = do
  seen ← get_elem? m.marked r
  some (if seen then m else record m { marked = set m.marked r true; pending = cell r ∷ m.pending })

unfoldable pub visit_shared : MarkState → Handle → MarkState
visit_shared m a =
    if contains m.visited a
    then m
    else record m { visited = a ∷ m.visited; pending = shared a ∷ m.pending }

unfoldable pub visit : MarkState → Value → Option MarkState
unfolding cell_of shared_address visit_cell visit_shared
visit m value = elim (cell_of value) [
  | some r ↦ visit_cell m r
  | none ↦ elim (shared_address value) [ some a ↦ some (visit_shared m a) | none ↦ some m ]
]

unfoldable pub visit_all : MarkState → List Value → Option MarkState
visit_all m [] = some m
visit_all m (v ∷ vs) = do m' ← visit m v; visit_all m' vs

unfoldable pub visit_entries : MarkState → List (Value × Value) → Option MarkState
visit_entries m [] = some m
visit_entries m ((key, value) ∷ es) = do m₁ ← visit m key; m₂ ← visit m₁ value; visit_entries m₂ es

unfoldable pub scan_task : MarkState → TaskState → Option MarkState
scan_task m (TaskState.pending block scope) = do
  m' ← visit m block
  visit m' (Value.concurrent_scope scope)
scan_task m TaskState.running = some m
scan_task m (TaskState.done value) = visit m value
scan_task m (TaskState.failed error observed order) = visit m error

unfoldable pub scan_content : MarkState → HeapCell → Option MarkState
unfolding scan_task
scan_content m (HeapCell.vector items) = visit_all m items
scan_content m (HeapCell.set_cell items) = visit_all m items.items
scan_content m (HeapCell.map entries) = visit_entries m entries.entries
scan_content m (HeapCell.struct s) = visit_all m s.fields
scan_content m (HeapCell.binding value) = visit m value
scan_content m (HeapCell.scope state) = visit_all m state.tasks
scan_content m (HeapCell.task state) = scan_task m state
scan_content m HeapCell.free = none

unfoldable pub scan_cell : List HeapCell → MarkState → GcRef → Option MarkState
unfolding scan_content
scan_cell cells m r = do c ← get_elem? cells r; scan_content m c

unfoldable pub scan_caught : MarkState → Caught → Option MarkState
scan_caught m (Caught.error inner) = visit m inner
scan_caught m (Caught.panic _) = some m

unfoldable pub scan_iter : MarkState → IterState → Option MarkState
scan_iter m (IterState.items_iter items ix) = visit_all m items
scan_iter m (IterState.range_iter next hi inclusive done) = some m

unfoldable pub scan_node : MarkState → Node → Option MarkState
unfolding scan_caught scan_iter
scan_node m (tuple_node items) = visit_all m items
scan_node m (some_node inner) = visit m inner
scan_node m (enum_node e) = visit_all m e.fields
scan_node m (walk_node w) = do m' ← visit m w.paths; visit m' w.unreadable
scan_node m (closure_node c) = visit_all m c.captures
scan_node m (bound_method_node b) = visit m b.recv
scan_node m (bound_builtin_node b) = visit m b.recv
scan_node m (caught_node c) = scan_caught m c
scan_node m (iter_node i) = scan_iter m i

unfoldable pub scan_shared : List Node → MarkState → Handle → Option MarkState
unfolding scan_node
scan_shared nodes m a = do n ← get_elem? nodes a; scan_node m n

unfoldable pub scan_pending : List HeapCell → List Node → MarkState → Pending → Option MarkState
unfolding scan_cell scan_shared
scan_pending cells nodes m (cell r) = scan_cell cells m r
scan_pending cells nodes m (shared a) = scan_shared nodes m a

-- One round of the loop, for the item that has been popped.
unfoldable pub mark_step :
    List HeapCell → List Node → Pending → List Pending → MarkState → Option MarkState
unfolding scan_pending
mark_step cells nodes item rest m = scan_pending cells nodes (record m { pending = rest }) item

-- `while let Some(item) = mark.pending.pop()`
unfoldable pub mark_loop : ℕ → List HeapCell → List Node → MarkState → Option MarkState
mark_loop zero cells nodes m = elim m.pending [ [] ↦ some m | _ ∷ _ ↦ none ]
mark_loop (suc fuel) cells nodes m = elim m.pending [
  | [] ↦ some m
  | item ∷ rest ↦ mark_step cells nodes item rest m >>= mark_loop fuel cells nodes
]

-- Every slot is marked once and every node visited once, so that many rounds are enough.
abbrev pub mark_fuel : List HeapCell → List Node → ℕ
mark_fuel cells nodes = length cells + length nodes

-- The marking of `collect`: the roots, then the worklist.
unfoldable pub mark_from : List HeapCell → List Node → List Value → Option MarkState
mark_from cells nodes roots = do
  m ← visit_all (begin (length cells)) roots
  mark_loop (mark_fuel cells nodes) cells nodes m
