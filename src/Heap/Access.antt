-- ===== src/Heap/Access.antt =====
-- The allocators of each kind, the accessors with their kind check, and the length-changing edits,
-- which charge the change of a container's slots.
use brasa.Prelude.{ℕ, ◌*◌, List, [], false, Option, none, some, length, set, get_elem?, ◌>>=◌}
use brasa.Table.Map.{OrderedMap}
use brasa.Table.Set.{OrderedSet}
use brasa.Value.{Value, GcRef, ScopeState, TaskState, StructValue}
use brasa.Heap.{Heap, HeapCell, Layout, alloc, recharge}

abbrev as_vector : HeapCell → Option (List Value)
as_vector (HeapCell.vector items) = some items
as_vector _ = none

abbrev as_map : HeapCell → Option (OrderedMap Value)
as_map (HeapCell.map entries) = some entries
as_map _ = none

abbrev as_set : HeapCell → Option (OrderedSet Value)
as_set (HeapCell.set_cell items) = some items
as_set _ = none

abbrev as_struct : HeapCell → Option StructValue
as_struct (HeapCell.struct s) = some s
as_struct _ = none

abbrev as_binding : HeapCell → Option Value
as_binding (HeapCell.binding v) = some v
as_binding _ = none

abbrev as_scope : HeapCell → Option ScopeState
as_scope (HeapCell.scope s) = some s
as_scope _ = none

abbrev as_task : HeapCell → Option TaskState
as_task (HeapCell.task s) = some s
as_task _ = none

unfoldable pub vector_of : Heap → GcRef → Option (List Value)
vector_of h r = get_elem? h.cells r >>= as_vector

unfoldable pub map_of : Heap → GcRef → Option (OrderedMap Value)
map_of h r = get_elem? h.cells r >>= as_map

unfoldable pub set_of : Heap → GcRef → Option (OrderedSet Value)
set_of h r = get_elem? h.cells r >>= as_set

unfoldable pub struct_of : Heap → GcRef → Option StructValue
struct_of h r = get_elem? h.cells r >>= as_struct

unfoldable pub binding_of : Heap → GcRef → Option Value
binding_of h r = get_elem? h.cells r >>= as_binding

unfoldable pub scope_of : Heap → GcRef → Option ScopeState
scope_of h r = get_elem? h.cells r >>= as_scope

unfoldable pub task_of : Heap → GcRef → Option TaskState
task_of h r = get_elem? h.cells r >>= as_task

module _ (layout : Layout) where
  unfoldable pub alloc_vector : Heap → List Value → Option (Heap × Value)
  alloc_vector h items = do
    (h', r) ← alloc layout h (HeapCell.vector items)
    some (h', Value.vector r)

  unfoldable pub alloc_map : Heap → OrderedMap Value → Option (Heap × Value)
  alloc_map h entries = do (h', r) ← alloc layout h (HeapCell.map entries); some (h', Value.map r)

  unfoldable pub alloc_set : Heap → OrderedSet Value → Option (Heap × Value)
  alloc_set h items = do (h', r) ← alloc layout h (HeapCell.set_cell items); some (h', Value.set r)

  unfoldable pub alloc_struct : Heap → ℕ → List Value → Option (Heap × Value)
  alloc_struct h shape fields = do
    (h', r) ← alloc layout h (HeapCell.struct (record { shape = shape; fields = fields }))
    some (h', Value.struct r)

  unfoldable pub alloc_binding : Heap → Value → Option (Heap × Value)
  alloc_binding h value = do
    (h', r) ← alloc layout h (HeapCell.binding value)
    some (h', Value.binding r)

  unfoldable pub alloc_scope : Heap → Option (Heap × Value)
  alloc_scope h = do
    (h', r) ← alloc layout h (HeapCell.scope (record { tasks = []; exited = false }))
    some (h', Value.concurrent_scope r)

  unfoldable pub alloc_task : Heap → TaskState → Option (Heap × Value)
  alloc_task h state = do (h', r) ← alloc layout h (HeapCell.task state); some (h', Value.task r)

  -- A cell's new content, and the charge for the slots that it gained or lost.
  unfoldable pub rewrite : Heap → GcRef → HeapCell → ℕ → ℕ → Heap
  rewrite h r c before_slots after_slots =
      recharge layout (record h { cells = set h.cells r c }) before_slots after_slots

  unfoldable pub edit_vector {ℓ} :
      {R : Type ℓ} → Heap → GcRef → (List Value → List Value × R) → Option (Heap × R)
  unfolding rewrite vector_of
  edit_vector h r edit = do
    items ← vector_of h r
    let edited = edit items
    some (rewrite h r (HeapCell.vector edited.0) (length items) (length edited.0), edited.1)

  unfoldable pub edit_map {ℓ} :
      {R : Type ℓ} → Heap → GcRef → (OrderedMap Value → OrderedMap Value × R) → Option (Heap × R)
  unfolding rewrite map_of
  edit_map h r edit = do
    entries ← map_of h r
    let edited = edit entries
    some (
      rewrite h r (HeapCell.map edited.0) (2 * length entries.entries)
          (2 * length edited.0.entries),
      edited.1,
    )

  unfoldable pub edit_scope {ℓ} :
      {R : Type ℓ} → Heap → GcRef → (ScopeState → ScopeState × R) → Option (Heap × R)
  unfolding rewrite scope_of
  edit_scope h r edit = do
    state ← scope_of h r
    let edited = edit state
    some (
      rewrite h r (HeapCell.scope edited.0) (length state.tasks) (length edited.0.tasks),
      edited.1,
    )

  unfoldable pub edit_set {ℓ} :
      {R : Type ℓ} → Heap → GcRef → (OrderedSet Value → OrderedSet Value × R) → Option (Heap × R)
  unfolding rewrite set_of
  edit_set h r edit = do
    items ← set_of h r
    let edited = edit items
    some (
      rewrite h r (HeapCell.set_cell edited.0) (length items.items) (length edited.0.items),
      edited.1,
    )
