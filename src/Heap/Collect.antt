-- ===== src/Heap/Collect.antt =====
-- `collect`: mark from the roots, sweep every unmarked cell, and set the next budget.
use brasa.Prelude.{
  ℕ, zero, suc, ◌+◌, ◌*◌, ◌-◌, ◌/◌, List, ◌∷◌, Bool, Option, some, if◌then◌else◌, length, set,
  get_elem?, max, ◌>>=◌,
}
use brasa.Value.{Value, Node}
use brasa.Heap.{
  Heap, HeapCell, MarkState, Layout, is_free, cell_bytes, growth_factor, mark_amortization,
}
use brasa.Heap.Mark.{mark_from}

-- What the sweeping loop changes: the cells, the free list, the live count and the live bytes.
pub record Sweep : Type 0 where
  pub cells : List HeapCell
  pub free_list : List ℕ
  pub live : ℕ
  pub live_bytes : ℕ

module _ (layout : Layout) where
  -- The body of the loop, at the slot `ix` that holds `c`.
  unfoldable pub sweep_cell : Bool → ℕ → HeapCell → Sweep → Sweep
  sweep_cell marked ix c s =
      if marked
      then record s { live_bytes = s.live_bytes + cell_bytes layout c }
      else (if is_free c then s else record s {
        cells = set s.cells ix HeapCell.free;
        free_list = ix ∷ s.free_list;
        live = s.live - 1;
      })

  unfoldable pub sweep_slot : List Bool → ℕ → Sweep → Option Sweep
  sweep_slot marked ix s = do
    c ← get_elem? s.cells ix
    b ← get_elem? marked ix
    some (sweep_cell b ix c s)

  -- `n` more slots from `ix` on.
  unfoldable pub sweep_from : List Bool → ℕ → ℕ → Sweep → Option Sweep
  sweep_from marked zero ix s = some s
  sweep_from marked (suc n) ix s = do s' ← sweep_slot marked ix s; sweep_from marked n (suc ix) s'

  unfoldable pub start_sweep : Heap → Sweep
  start_sweep h = record {
    cells = h.cells;
    free_list = h.free_list;
    live = h.stats.live;
    live_bytes = 0;
  }

  -- The heap after the sweep `s` of a collection from `root_count` roots.
  unfoldable pub finish : Heap → MarkState → ℕ → Sweep → Heap
  finish h m root_count s = record h {
    cells = s.cells;
    free_list = s.free_list;
    mark = m;
    threshold_bytes = max (s.live_bytes * growth_factor) h.floor_bytes;
    live_bytes = s.live_bytes;
    since_collection_bytes = 0;
    mark_floor_bytes =
        max ((root_count * layout.slot_bytes + s.live_bytes) / mark_amortization) h.floor_bytes;
    stats = record {
      allocations = h.stats.allocations;
      collections = h.stats.collections + 1;
      live = s.live;
    };
  }

  unfoldable pub collect : List Node → List Value → Heap → Option Heap
  collect nodes roots h = do
    m ← mark_from h.cells nodes roots
    s ← sweep_from m.marked (length h.cells) 0 (start_sweep h)
    some (finish h m (length roots) s)
