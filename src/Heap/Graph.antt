-- ===== src/Heap/Graph.antt =====
-- What a value keeps alive, said without the worklist: the graph of arena cells and shared nodes,
-- and what can be reached in it from the roots.
use brasa.Prelude.{
  List, [], ◌∷◌, false, Option, none, some, ◌≡◌, refl, get_elem?, ◌>>=◌, >>=-some, sym, Elem,
}
use brasa.Value.{
  Value, Node, TaskState, Caught, IterState, tuple_node, some_node, enum_node, walk_node,
  closure_node, bound_method_node, bound_builtin_node, caught_node, iter_node,
}
use brasa.Heap.{HeapCell, Pending, cell, shared, is_free, MarkState}
use brasa.Heap.Mark.{
  visit, visit_all, visit_entries, visit_cell, visit_shared, scan_content, scan_node, scan_pending,
  scan_task, scan_cell, scan_shared,
}

-- The cell or node that a value refers to.
abbrev pub target_of : Value → Option Pending
target_of (Value.vector r) = some (cell r)
target_of (Value.map r) = some (cell r)
target_of (Value.set r) = some (cell r)
target_of (Value.struct r) = some (cell r)
target_of (Value.binding r) = some (cell r)
target_of (Value.concurrent_scope r) = some (cell r)
target_of (Value.task r) = some (cell r)
target_of (Value.tuple a) = some (shared a)
target_of (Value.option_some a) = some (shared a)
target_of (Value.enum a) = some (shared a)
target_of (Value.walk a) = some (shared a)
target_of (Value.closure a) = some (shared a)
target_of (Value.bound_method a) = some (shared a)
target_of (Value.bound_builtin a) = some (shared a)
target_of (Value.caught a) = some (shared a)
target_of (Value.iter a) = some (shared a)
target_of _ = none

abbrev pub entry_values : List (Value × Value) → List Value
entry_values [] = []
entry_values ((key, value) ∷ es) = key ∷ value ∷ entry_values es

abbrev pub task_values : TaskState → List Value
task_values (TaskState.pending block scope) = block ∷ Value.concurrent_scope scope ∷ []
task_values TaskState.running = []
task_values (TaskState.done value) = value ∷ []
task_values (TaskState.failed error observed order) = error ∷ []

-- `values_of`: the values that one arena cell holds.
abbrev pub values_of : HeapCell → List Value
values_of (HeapCell.vector items) = items
values_of (HeapCell.set_cell items) = items.items
values_of (HeapCell.map entries) = entry_values entries.entries
values_of (HeapCell.struct s) = s.fields
values_of (HeapCell.binding value) = value ∷ []
values_of (HeapCell.scope state) = state.tasks
values_of (HeapCell.task state) = task_values state
values_of HeapCell.free = []

abbrev pub caught_values : Caught → List Value
caught_values (Caught.error inner) = inner ∷ []
caught_values (Caught.panic _) = []

abbrev pub iter_values : IterState → List Value
iter_values (IterState.items_iter items ix) = items
iter_values (IterState.range_iter next hi inclusive done) = []

abbrev pub node_values : Node → List Value
node_values (tuple_node items) = items
node_values (some_node inner) = inner ∷ []
node_values (enum_node e) = e.fields
node_values (walk_node w) = w.paths ∷ w.unreadable ∷ []
node_values (closure_node c) = c.captures
node_values (bound_method_node b) = b.recv ∷ []
node_values (bound_builtin_node b) = b.recv ∷ []
node_values (caught_node c) = caught_values c
node_values (iter_node i) = iter_values i

module _ (cells : List HeapCell) (nodes : List Node) where
  abbrev pub contents : Pending → List Value
  contents (cell r) = elim (get_elem? cells r) [ none ↦ [] | some c ↦ values_of c ]
  contents (shared a) = elim (get_elem? nodes a) [ none ↦ [] | some n ↦ node_values n ]

  -- A cell in the arena that is no hole, or a node that is there.
  abbrev pub IsLive : Pending → Type 0
  IsLive (cell r) = (c : HeapCell) × (get_elem? cells r ≡ some c) × (is_free c ≡ false)
  IsLive (shared a) = (n : Node) × (get_elem? nodes a ≡ some n)

  pub data Reach (roots : List Value) : Pending → Type 0 where
    root : {v : Value} {t : Pending} → Elem v roots → target_of v ≡ some t → Reach roots t
    step :
        {u : Pending} {v : Value} {t : Pending}
        → Reach roots u
        → Elem v (contents u)
        → target_of v ≡ some t
        → Reach roots t

abbrev pub visit_target : MarkState → Option Pending → Option MarkState
visit_target m none = some m
visit_target m (some (cell r)) = visit_cell m r
visit_target m (some (shared a)) = some (visit_shared m a)

-- `visit` looks at nothing but the target.
pub visit-target : (m : MarkState) (v : Value) → visit m v ≡ visit_target m (target_of v)
unfolding visit
visit-target m (Value.vector r) = refl
visit-target m v = refl

visit_entries-all :
    (m : MarkState) (es : List (Value × Value)) → visit_entries m es ≡ visit_all m (entry_values es)
unfolding visit_entries visit_all
visit_entries-all m [] = refl
visit_entries-all m ((key, value) ∷ es) =
    λ i. visit m key >>= λ m₁. visit m₁ value >>= λ m₂. visit_entries-all m₂ es i

visit-one : (m : MarkState) (v : Value) → visit m v ≡ visit_all m (v ∷ [])
unfolding visit_all
visit-one m v = sym (>>=-some (visit m v))

visit-two :
    (m : MarkState) (v w : Value) → (visit m v >>= λ m'. visit m' w) ≡ visit_all m (v ∷ w ∷ [])
unfolding visit_all
visit-two m v w = λ i. visit m v >>= λ m'. visit-one m' w i

scan_task-all : (m : MarkState) (s : TaskState) → scan_task m s ≡ visit_all m (task_values s)
unfolding scan_task visit_all
scan_task-all m (TaskState.pending block scope) = visit-two m block (Value.concurrent_scope scope)
scan_task-all m TaskState.running = refl
scan_task-all m (TaskState.done value) = visit-one m value
scan_task-all m (TaskState.failed error observed order) = visit-one m error

-- Each scan visits the values that the cell or node holds.
scan_content-all :
    (m : MarkState) (c : HeapCell)
    → is_free c ≡ false
    → scan_content m c ≡ visit_all m (values_of c)
unfolding scan_content
scan_content-all m (HeapCell.vector items) f = refl
scan_content-all m (HeapCell.set_cell items) f = refl
scan_content-all m (HeapCell.map entries) f = visit_entries-all m entries.entries
scan_content-all m (HeapCell.struct s) f = refl
scan_content-all m (HeapCell.binding value) f = visit-one m value
scan_content-all m (HeapCell.scope state) f = refl
scan_content-all m (HeapCell.task state) f = scan_task-all m state
scan_content-all m HeapCell.free f = cc

scan_node-all : (m : MarkState) (n : Node) → scan_node m n ≡ visit_all m (node_values n)
unfolding scan_node visit_all
scan_node-all m (tuple_node items) = refl
scan_node-all m (some_node inner) = visit-one m inner
scan_node-all m (enum_node e) = refl
scan_node-all m (walk_node w) = visit-two m w.paths w.unreadable
scan_node-all m (closure_node c) = refl
scan_node-all m (bound_method_node b) = visit-one m b.recv
scan_node-all m (bound_builtin_node b) = visit-one m b.recv
scan_node-all m (caught_node (Caught.error inner)) = visit-one m inner
scan_node-all m (caught_node (Caught.panic p)) = refl
scan_node-all m (iter_node (IterState.items_iter items ix)) = refl
scan_node-all m (iter_node (IterState.range_iter next hi inclusive done)) = refl

-- A live item of the worklist is scanned by visiting what it holds.
pub scan_pending-all :
    (cells : List HeapCell) (nodes : List Node) (m : MarkState) (item : Pending)
    → IsLive cells nodes item
    → scan_pending cells nodes m item ≡ visit_all m (contents cells nodes item)
unfolding scan_pending scan_cell scan_shared
scan_pending-all cells nodes m (cell r) (c, at, f) = rw (at, contents) (scan_content-all m c f)
scan_pending-all cells nodes m (shared a) (n, at) = rw (at, contents) (scan_node-all m n)
