-- ===== src/Heap.antt =====
-- crates/brasa_vm/src/heap.rs: the mark-and-sweep arena of the cycle-capable kinds. A `RefCell` is
-- its content; a method on `&mut self` or on a `Cell` returns the new heap. `none` is a panic: an
-- index out of bounds, a kind mismatch, or more than 2^32 slots. The free list's top is its head.
pub mod Access
pub mod Invariant
pub mod Accounting
pub mod Edits
pub mod Mark
pub mod Graph
pub mod Visit
pub mod Marking
pub mod Loop
pub mod Collect
pub mod Sweeping
pub mod Collecting
pub mod Census
pub mod Interner
mod Tests
use brasa.Prelude.{
  ℕ, suc, ◌+◌, ◌*◌, ◌-◌, ◌/◌, ◌^◌, List, [], ◌∷◌, ◌++◌, Bool, true, false, Option, none, some, ltb,
  leb, if◌then◌else◌, length, set, get_elem?, max, min, ◌>>=◌, ◌&&◌,
}
use brasa.Table.Map.{OrderedMap}
use brasa.Table.Set.{OrderedSet}
use brasa.Value.{Value, GcRef, ScopeState, TaskState, StructValue}
use brasa.Value

pub data HeapCell : Type 0 where
  vector : List Value → HeapCell
  map : OrderedMap Value → HeapCell
  set_cell : OrderedSet Value → HeapCell
  struct : StructValue → HeapCell
  binding : Value → HeapCell
  scope : ScopeState → HeapCell
  task : TaskState → HeapCell
  free : HeapCell

-- One entry of the marking worklist. A shared node is owned there by its handle.
pub data Pending : Type 0 where
  cell : GcRef → Pending
  shared : ℕ → Pending

-- `visited` is a set of addresses.
pub record MarkState : Type 0 where
  pub marked : List Bool
  pub visited : List ℕ
  pub pending : List Pending

pub record HeapStats : Type 0 where
  pub allocations : ℕ
  pub collections : ℕ
  pub live : ℕ

pub record Heap : Type 0 where
  pub cells : List HeapCell
  pub free_list : List ℕ
  pub mark : MarkState
  pub threshold_bytes : ℕ
  pub floor_bytes : ℕ
  pub live_bytes : ℕ
  pub peak_bytes : ℕ
  pub since_collection_bytes : ℕ
  pub mark_floor_bytes : ℕ
  pub stats : HeapStats

abbrev pub default_mark : MarkState
default_mark = record { marked = []; visited = []; pending = [] }

unfoldable pub new : ℕ → Heap
new budget_bytes = record {
  cells = [];
  free_list = [];
  mark = default_mark;
  threshold_bytes = budget_bytes;
  floor_bytes = budget_bytes;
  live_bytes = 0;
  peak_bytes = 0;
  since_collection_bytes = 0;
  mark_floor_bytes = budget_bytes;
  stats = record { allocations = 0; collections = 0; live = 0 };
}

-- The sizes of a value slot and of an arena cell, which the compiler of the program fixes.
pub record Layout : Type 0 where
  pub slot_bytes : ℕ
  pub head_bytes : ℕ

unfoldable pub cell_slots : HeapCell → ℕ
cell_slots (vector items) = length items
cell_slots (set_cell items) = length items.items
cell_slots (map entries) = 2 * length entries.entries
cell_slots (struct s) = length s.fields
cell_slots (binding _) = 1
cell_slots (scope state) = length state.tasks
cell_slots (task _) = 1
cell_slots free = 0

abbrev pub is_free : HeapCell → Bool
is_free free = true
is_free _ = false

-- `charge`: newly retained bytes count as live and as allocation pressure.
unfoldable pub charge : Heap → ℕ → Heap
charge h bytes = record h {
  live_bytes = h.live_bytes + bytes;
  peak_bytes = max h.peak_bytes (h.live_bytes + bytes);
  since_collection_bytes = h.since_collection_bytes + bytes;
}

unfoldable pub should_collect : Heap → Bool
should_collect h =
    leb h.threshold_bytes h.live_bytes && leb h.mark_floor_bytes h.since_collection_bytes

abbrev pub growth_factor : ℕ
growth_factor = 2

abbrev pub mark_amortization : ℕ
mark_amortization = 4

unfoldable pub relax_mark_floor : Heap → Heap
relax_mark_floor h = record h {
  mark_floor_bytes = min h.mark_floor_bytes (max (h.live_bytes / mark_amortization) h.floor_bytes);
}

module _ (layout : Layout) where
  unfoldable pub cell_bytes : HeapCell → ℕ
  unfolding cell_slots
  cell_bytes free = 0
  cell_bytes c = layout.head_bytes + cell_slots c * layout.slot_bytes

  -- `recharge`: growth is an allocation, shrinking only releases live bytes.
  unfoldable pub recharge : Heap → ℕ → ℕ → Heap
  unfolding charge
  recharge h before_slots after_slots =
      if leb before_slots after_slots
      then charge h ((after_slots - before_slots) * layout.slot_bytes)
      else record h { live_bytes = h.live_bytes - (before_slots - after_slots) * layout.slot_bytes }

  -- The count that `alloc` does before it takes a slot.
  unfoldable pub count_alloc : Heap → HeapCell → Heap
  unfolding charge cell_bytes
  count_alloc h c =
      charge
        (record h {
          stats = record {
            allocations = h.stats.allocations + 1;
            collections = h.stats.collections;
            live = h.stats.live + 1;
          };
        })
        (cell_bytes c)

  -- The slot: the last freed one if there is one, a new one at the end otherwise.
  unfoldable pub place : List ℕ → Heap → HeapCell → Option (Heap × GcRef)
  place (ix ∷ rest) h c =
      if ltb ix (length h.cells)
      then some (record h { cells = set h.cells ix c; free_list = rest }, ix)
      else none
  place [] h c =
      if ltb (length h.cells) (2 ^ 32)
      then some (record h { cells = h.cells ++ c ∷ [] }, length h.cells)
      else none

  unfoldable pub alloc : Heap → HeapCell → Option (Heap × GcRef)
  unfolding count_alloc place
  alloc h c = place h.free_list (count_alloc h c) c
