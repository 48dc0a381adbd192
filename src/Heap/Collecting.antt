-- ===== src/Heap/Collecting.antt =====
-- A collection: what is reachable stays as it is, everything else becomes a hole, and the books,
-- the byte totals and the next budget are right.
use brasa.Prelude.{
  ℕ, ◌<◌, ◌≡◌, refl, ap, sym, subst, ◌∙◌, List, [], Bool, true, false, Option, none, some, length,
  set, get_elem?, arith, Bool-cases, get_elem?_of_lt, lt_of_get_elem?, Elem, inl, inr,
}
use brasa.Value.{Value, Node}
use brasa.Heap.{Heap, HeapCell, Layout, Pending, cell, shared, MarkState, should_collect}
use brasa.Heap.Collect.{Sweep, start_sweep, finish, collect}
use brasa.Heap.Graph.{Reach, root, step, IsLive, contents, values_of}
use brasa.Heap.Invariant.{IsValid, total_bytes}
use brasa.Heap.Loop.{mark_from-Reach}
use brasa.Heap.Visit.{is_marked, get_or_of_get_elem?}
use brasa.Heap.Sweeping.{SweepInv, sweep_from-Inv, take-length}

-- Every cell and node that the roots reach is there.
abbrev pub NoDangling : List HeapCell → List Node → List Value → Type 0
NoDangling cells nodes roots = (t : Pending) → Reach cells nodes roots t → IsLive cells nodes t

module _ (layout : Layout) (nodes : List Node) (roots : List Value) where
  pub record Collects (h h' : Heap) : Type 0 where
    pub valid : IsValid layout h'
    pub survives :
        (r : ℕ) → Reach h.cells nodes roots (cell r) → get_elem? h'.cells r ≡ get_elem? h.cells r
    pub reclaimed :
        (r : ℕ)
        → r < length h.cells
        → ¬ Reach h.cells nodes roots (cell r)
        → get_elem? h'.cells r ≡ some HeapCell.free
    pub no_dangling : NoDangling h'.cells nodes roots
    pub same_slots : length h'.cells ≡ length h.cells
    pub disarmed : 0 < h.floor_bytes → should_collect h' ≡ false

  contents_kept :
      (cells cells' : List HeapCell)
      → ((r : ℕ) → Reach cells nodes roots (cell r) → get_elem? cells' r ≡ get_elem? cells r)
      → (t : Pending) → Reach cells nodes roots t
      → contents cells' nodes t ≡ contents cells nodes t
  contents_kept cells cells' same (cell r) h =
      ap (λ (o : Option HeapCell). elim o [ none ↦ [] | some c ↦ values_of c ]) (same r h)
  contents_kept cells cells' same (shared a) h = refl

  -- What the new heap's roots reach, the old heap's reached.
  Reach-back :
      (cells cells' : List HeapCell)
      → ((r : ℕ) → Reach cells nodes roots (cell r) → get_elem? cells' r ≡ get_elem? cells r)
      → (t : Pending) → Reach cells' nodes roots t
      → Reach cells nodes roots t
  Reach-back cells cells' same t (root h e) = root h e
  Reach-back cells cells' same t (step {u} {v} r h e) =
      let back = Reach-back cells cells' same u r in
      step back (subst (Elem v) (contents_kept cells cells' same u back) h) e

  module _ (h : Heap) (v : IsValid layout h) (live : NoDangling h.cells nodes roots) where
    start-SweepInv :
        (marked : List Bool) (size : length marked ≡ length h.cells)
        → SweepInv layout marked h.cells size 0 (start_sweep layout h)
    unfolding start_sweep
    start-SweepInv marked size = record {
      slotted = v.slotted;
      same_size = refl;
      past = λ i b c lt e f. elim lt [ ];
      ahead = λ i h. refl;
      bytes = refl;
      no_more = omega arith;
    }

    swept-Collects :
        (m : MarkState) (s : Sweep) (size : length m.marked ≡ length h.cells)
        → ((t : Pending)
            → (is_marked m t ≡ true → Reach h.cells nodes roots t)
              × (Reach h.cells nodes roots t → is_marked m t ≡ true))
        → SweepInv layout m.marked h.cells size (length h.cells) s
        → Collects h (finish layout h m (length roots) s)
    unfolding finish should_collect
    swept-Collects m s size marks w = record {
      valid = record {
        slotted = w.slotted;
        accounted = whole;
        peak = omega (arith, whole, w.no_more, v.accounted, v.peak);
      };
      survives = survives;
      reclaimed = reclaimed;
      no_dangling = λ t r. live_after t (Reach-back h.cells s.cells survives t r);
      same_slots = w.same_size;
      disarmed = λ pos. disarmed pos;
    }
      where
        whole : s.live_bytes ≡ total_bytes layout s.cells
        whole =
            w.bytes
            ∙ ap (total_bytes layout) (take-length s.cells (length h.cells) (sym w.same_size))

        survives :
            (r : ℕ) → Reach h.cells nodes roots (cell r) → get_elem? s.cells r ≡ get_elem? h.cells r
        survives r reached =
            let (c, at, f) = live (cell r) reached in
            let lt = lt_of_get_elem? h.cells r at in
            let (b, bit) = get_elem?_of_lt m.marked r (omega arith) in
            let eb : b ≡ true =
              sym (get_or_of_get_elem? m.marked r false bit) ∙ (marks (cell r)).1 reached in
            w.past r true c lt (bit ∙ ap some eb) at ∙ sym at

        live_after : (t : Pending) → Reach h.cells nodes roots t → IsLive s.cells nodes t
        live_after (cell r) reached =
            let (c, at, f) = live (cell r) reached in (c, survives r reached ∙ at, f)
        live_after (shared a) reached = live (shared a) reached

        reclaimed :
            (r : ℕ)
            → r < length h.cells
            → ¬ Reach h.cells nodes roots (cell r)
            → get_elem? s.cells r ≡ some HeapCell.free
        reclaimed r lt lost =
            let (c, at) = get_elem?_of_lt h.cells r lt in
            let (b, bit) = get_elem?_of_lt m.marked r (omega arith) in
            elim (Bool-cases b) [
              | inl set ↦
                  absurd
                    (lost ((marks (cell r)).0 (get_or_of_get_elem? m.marked r false bit ∙ set)))
              | inr clear ↦ w.past r false c lt (bit ∙ ap some clear) at
            ]

        disarmed : 0 < h.floor_bytes → should_collect (finish layout h m (length roots) s) ≡ false
        disarmed pos = ground arith

    -- Where every cell and node that the roots reach is there, a collection of a valid heap ends: the
    -- reached cells stay as they are, every other slot is a hole, nothing that the roots reach
    -- dangles, the heap is valid, and the next collection is not due at once if the floor is positive.
    pub collect-Collects : (h' : Heap) × (collect layout nodes roots h ≡ some h') × Collects h h'
    unfolding collect
    collect-Collects =
        let (m, e, size, marks) = mark_from-Reach h.cells nodes roots live in
        let (s, f, w) =
          sweep_from-Inv layout m.marked h.cells size (length h.cells) 0 (start_sweep layout h)
            (omega arith) (start-SweepInv m.marked size) in
        (finish layout h m (length roots) s, rw (e, f) refl, swept-Collects m s size marks w)
