-- ===== src/Heap/Tests.antt =====
-- Runs of the arena on a small heap: a vector that holds a closure, which captures a binding cell,
-- and a vector that nothing refers to.
use brasa.Prelude.{
  ℕ, zero, suc, get_elem?, ◌≡◌, refl, subst, eq_of_some, List, [], ◌∷◌, ◌++◌, none, some, arith,
  All, All-Elem, true, false, ◌↔◌, length, codes, ◌+◌,
}
use mathlib.Core.Option
use brasa.Prelude.Int.{pos}
use brasa.Value.{Value, Node, closure_node, GcRef}
use brasa.Heap.{
  Heap, HeapCell, Layout, Pending, cell, shared, MarkState, alloc, cell_bytes, cell_slots,
  default_mark, is_free,
}
use brasa.Heap.Access.{edit_vector}
use brasa.Heap.Accounting.{Allocates, alloc-Allocates}
use brasa.Heap.Edits.{Edits, edit_vector-Edits}
use brasa.Heap.Invariant.{IsValid}
use brasa.Heap.Graph.{Reach, root, step, IsLive, contents, target_of}
use brasa.Heap.Mark.{
  mark_from, mark_loop, mark_step, scan_pending, scan_cell, scan_content, scan_shared, scan_node,
  scan_caught, scan_iter, scan_task, visit, visit_all, visit_entries, visit_cell, visit_shared,
  cell_of, shared_address, begin,
}
use brasa.Heap.Visit.{is_marked}
use brasa.Heap.Loop.{mark_from-Reach}
use brasa.Heap.Collect.{collect, sweep_from, sweep_slot, sweep_cell, start_sweep, finish}
use brasa.Heap.Census.{
  census, tally, named, free_slots, arena_slots, total_count, census-free_slots,
}
use brasa.Prelude.{text_eq}
use brasa.Heap.Interner.{Interner, Interns, IsShared, intern, find_text, intern-Interns}
use brasa.Heap.Collecting.{Collects, NoDangling, collect-Collects}

abbrev layout : Layout
layout = record { slot_bytes = 24; head_bytes = 48 }

abbrev cells : List HeapCell
cells =
    HeapCell.vector (Value.closure 0 ∷ [])
    ∷ HeapCell.vector (Value.vector 0 ∷ Value.unit ∷ [])
    ∷ HeapCell.binding (Value.int (pos 7))
    ∷ []

abbrev nodes : List Node
nodes = closure_node (record { func = 1; captures = Value.binding 2 ∷ [] }) ∷ []

abbrev roots : List Value
roots = Value.vector 0 ∷ Value.unit ∷ []

abbrev heap : Heap
heap = record {
  cells = cells;
  free_list = [];
  mark = default_mark;
  threshold_bytes = 100;
  floor_bytes = 100;
  live_bytes = 240;
  peak_bytes = 300;
  since_collection_bytes = 240;
  mark_floor_bytes = 100;
  stats = record { allocations = 3; collections = 0; live = 3 };
}

heap-IsValid : IsValid layout heap
unfolding cell_bytes cell_slots
heap-IsValid = record {
  slotted = record { slots = refl; holes = no_hole; once = tt; counted = refl };
  accounted = refl;
  peak = omega arith;
}
  where
    no_hole : (i : ℕ) → false ≡ (elim (get_elem? cells i) [ none ↦ false | some c ↦ is_free c ])
    no_hole zero = refl
    no_hole (suc zero) = refl
    no_hole (suc (suc zero)) = refl
    no_hole (suc (suc (suc i))) = refl

abbrev HasLiveTarget : Value → Type 0
HasLiveTarget v = (t : Pending) → target_of v ≡ some t → IsLive cells nodes t

vector_live : HasLiveTarget (Value.vector 0)
vector_live t e =
    subst (IsLive cells nodes) (eq_of_some e) (HeapCell.vector (Value.closure 0 ∷ []), refl, refl)

contents_live : (u : Pending) → All HasLiveTarget (contents cells nodes u)
contents_live (cell zero) = (
  λ t e.
      subst (IsLive cells nodes) (eq_of_some e)
        (closure_node (record { func = 1; captures = Value.binding 2 ∷ [] }), refl),
  tt,
)
contents_live (cell (suc zero)) = (vector_live, (λ t e. cc, tt))
contents_live (cell (suc (suc zero))) = (λ t e. cc, tt)
contents_live (cell (suc (suc (suc i)))) = tt
contents_live (shared zero) = (
  λ t e.
      subst (IsLive cells nodes) (eq_of_some e) (HeapCell.binding (Value.int (pos 7)), refl, refl),
  tt,
)
contents_live (shared (suc a)) = tt

no_dangling : NoDangling cells nodes roots
no_dangling t (root h e) = All-Elem HasLiveTarget h (vector_live, (λ t e. cc, tt)) t e
no_dangling t (step {u} r h e) = All-Elem HasLiveTarget h (contents_live u) t e

abbrev view : Heap → List HeapCell × List ℕ × ℕ
view h = (h.cells, h.free_list, h.live_bytes)

-- The vector and the binding stay, through the closure; the other vector is a hole.
run_collect :
    Option.map view (collect layout nodes roots heap)
    ≡ some (
      HeapCell.vector (Value.closure 0 ∷ [])
          ∷ HeapCell.free
          ∷ HeapCell.binding (Value.int (pos 7))
          ∷ [],
      1 ∷ [],
      144,
    )
unfolding collect mark_from mark_loop mark_step scan_pending scan_cell scan_content scan_shared
    scan_node scan_caught scan_iter scan_task visit visit_all visit_entries visit_cell visit_shared
    cell_of shared_address begin sweep_from sweep_slot sweep_cell start_sweep finish cell_bytes
    cell_slots
run_collect = refl

alloc-Allocates_example :
    (h' : Heap) × (r : GcRef) × (alloc layout heap (HeapCell.vector []) ≡ some (h', r))
    × Allocates layout heap (HeapCell.vector []) h' r
alloc-Allocates_example =
    alloc-Allocates layout heap (HeapCell.vector []) heap-IsValid refl (omega arith)

abbrev push_unit : List Value → List Value × ℕ
push_unit items = (items ++ Value.unit ∷ [], length items)

edit_vector-Edits_example :
    (h' : Heap) × (edit_vector layout heap 0 push_unit ≡ some (h', 1))
    × Edits layout heap 0 (HeapCell.vector (Value.closure 0 ∷ Value.unit ∷ [])) h'
edit_vector-Edits_example =
    edit_vector-Edits layout heap 0 heap-IsValid push_unit (Value.closure 0 ∷ []) refl

mark_from-Reach_example :
    (m : MarkState) × (mark_from cells nodes roots ≡ some m)
    × (length m.marked ≡ 3)
    × ((t : Pending) → (is_marked m t ≡ true) ↔ Reach cells nodes roots t)
mark_from-Reach_example = mark_from-Reach cells nodes roots no_dangling

collect-Collects_example :
    (h' : Heap) × (collect layout nodes roots heap ≡ some h') × Collects layout nodes roots heap h'
collect-Collects_example = collect-Collects layout nodes roots heap heap-IsValid no_dangling

-- A vector, a vector and a binding.
run_census : census heap ≡ (codes "Vector", 2) ∷ (codes "binding", 1) ∷ []
unfolding census tally named
run_census = refl

census-free_slots_example :
    (total_count (census heap) ≡ 3)
    × (free_slots heap.cells ≡ 0)
    × (total_count (census heap) + free_slots heap.cells ≡ arena_slots heap)
census-free_slots_example = census-free_slots layout heap heap-IsValid

abbrev strings : Interner
strings = record { table = [] ∷ codes "b" ∷ []; hits = 0 }

strings-IsShared : IsShared strings.table
strings-IsShared zero zero t e f = refl
strings-IsShared zero (suc zero) t e f = cc
strings-IsShared zero (suc (suc b)) t e f = cc
strings-IsShared (suc zero) zero t e f = cc
strings-IsShared (suc zero) (suc zero) t e f = refl
strings-IsShared (suc zero) (suc (suc b)) t e f = cc
strings-IsShared (suc (suc a)) b t e f = cc

run_intern : intern strings (codes "b") ≡ (record strings { hits = 1 }, 1)
unfolding intern find_text text_eq
run_intern = refl

intern-Interns_example :
    Interns strings (codes "c") (intern strings (codes "c")).0 (intern strings (codes "c")).1
intern-Interns_example = intern-Interns strings (codes "c") strings-IsShared
