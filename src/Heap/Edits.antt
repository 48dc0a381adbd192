-- ===== src/Heap/Edits.antt =====
-- The length-changing edits of a vector, map, set or scope cell: each writes the edited content to
-- its cell alone, and charges exactly the change of the cell's bytes.
use brasa.Prelude.{
  ℕ, zero, suc, ◌+◌, ◌*◌, ◌≤◌, ◌<◌, ◌≡◌, ◌≢◌, refl, sym, List, [], ◌∷◌, false, some, leb, length,
  set, get_elem?, arith, Bool-cases, length-set, get_elem?-set_self, get_elem?-set_ne,
  lt_of_get_elem?, inl, inr,
}
use brasa.Value.{Value, GcRef, ScopeState}
use brasa.Table.Set.{OrderedSet}
use brasa.Table.Map.{OrderedMap}
use brasa.Heap.{Heap, HeapCell, Layout, is_free, cell_bytes, cell_slots, recharge}
use brasa.Heap.Access.{rewrite, edit_vector, edit_map, edit_set, edit_scope}
use brasa.Heap.Invariant.{total_bytes, IsValid, total_bytes-set, count_live-set, is_hole-set}
use brasa.Heap.Accounting.{recharge_bytes}

module _ (layout : Layout) where
  recharge_keeps :
      (h : Heap) (before after : ℕ)
      → ((recharge layout h before after).cells ≡ h.cells)
        × ((recharge layout h before after).free_list ≡ h.free_list)
        × ((recharge layout h before after).stats ≡ h.stats)
  unfolding recharge
  recharge_keeps h before after = elim (Bool-cases (leb before after)) [
    | inl t ↦ rw t (refl, refl, refl)
    | inr f ↦ rw f (refl, refl, refl)
  ]

  recharge_peak :
      (h : Heap) (before after : ℕ)
      → h.live_bytes ≤ h.peak_bytes
      → (recharge layout h before after).live_bytes ≤ (recharge layout h before after).peak_bytes
  unfolding recharge
  recharge_peak h before after p = elim (Bool-cases (leb before after)) [
    | inl t ↦ rw t (omega arith)
    | inr f ↦ rw f (omega arith)
  ]

  bytes_of_slots :
      (c : HeapCell)
      → is_free c ≡ false
      → cell_bytes layout c ≡ layout.head_bytes + cell_slots c * layout.slot_bytes
  unfolding cell_bytes
  bytes_of_slots HeapCell.free f = cc
  bytes_of_slots (HeapCell.vector x) f = refl
  bytes_of_slots (HeapCell.map x) f = refl
  bytes_of_slots (HeapCell.set_cell x) f = refl
  bytes_of_slots (HeapCell.struct x) f = refl
  bytes_of_slots (HeapCell.binding x) f = refl
  bytes_of_slots (HeapCell.scope x) f = refl
  bytes_of_slots (HeapCell.task x) f = refl

  bytes-le-total :
      (cs : List HeapCell) (i : ℕ) (c : HeapCell)
      → get_elem? cs i ≡ some c
      → cell_bytes layout c ≤ total_bytes layout cs
  bytes-le-total [] i c e = cc
  bytes-le-total (d ∷ cs) zero c e = let same : d ≡ c = ground arith in rw same (omega arith)
  bytes-le-total (d ∷ cs) (suc i) c e = omega (arith, bytes-le-total cs i c e)

  -- What an edit of the cell at `r` from `old` to `c` does to the heap.
  pub record Edits (h : Heap) (r : GcRef) (c : HeapCell) (h' : Heap) : Type 0 where
    pub valid : IsValid layout h'
    pub written : get_elem? h'.cells r ≡ some c
    pub kept : (i : ℕ) → i ≢ r → get_elem? h'.cells i ≡ get_elem? h.cells i
    pub stats : h'.stats ≡ h.stats

  pub rewrite-Edits :
      (h : Heap) (r : GcRef) (old c : HeapCell)
      → IsValid layout h
      → get_elem? h.cells r ≡ some old
      → is_free old ≡ false
      → is_free c ≡ false
      → Edits h r c (rewrite layout h r c (cell_slots old) (cell_slots c))
  unfolding rewrite
  rewrite-Edits h r old c v at live live' = record {
    valid = record {
      slotted =
          rw (keeps.0, keeps.1, keeps.2)
            (record {
              slots = omega (arith, v.slots, length-set h.cells r c);
              holes = λ i. ground (arith, v.holes i, is_hole-set h.cells r i c lt);
              once = v.once;
              counted = ground (arith, v.counted, count_live-set h.cells r old c at);
            });
      accounted = rw keeps.0 (
          omega (
            arith,
            recharge_bytes layout h₁ (cell_slots old) (cell_slots c) fits,
            total_bytes-set layout h.cells r old c at,
            bytes_of_slots old live,
            bytes_of_slots c live',
            v.accounted,
          ));
      peak = recharge_peak h₁ (cell_slots old) (cell_slots c) v.peak;
    };
    written = rw keeps.0 (get_elem?-set_self h.cells r c lt);
    kept = λ i n. rw keeps.0 (get_elem?-set_ne h.cells c (λ q. n (sym q)));
    stats = keeps.2;
  }
    where
      h₁ : Heap
      h₁ = record h { cells = set h.cells r c }

      keeps :
          ((recharge layout h₁ (cell_slots old) (cell_slots c)).cells ≡ set h.cells r c)
          × ((recharge layout h₁ (cell_slots old) (cell_slots c)).free_list ≡ h.free_list)
          × ((recharge layout h₁ (cell_slots old) (cell_slots c)).stats ≡ h.stats)
      keeps = recharge_keeps h₁ (cell_slots old) (cell_slots c)

      lt : r < length h.cells
      lt = lt_of_get_elem? h.cells r at

      fits : cell_slots old * layout.slot_bytes ≤ h.live_bytes
      fits = omega (arith, bytes-le-total h.cells r old at, bytes_of_slots old live, v.accounted)

  module _ {ℓ} {R : Type ℓ} (h : Heap) (r : GcRef) (v : IsValid layout h) where
    -- On a valid heap an edit of a vector cell writes the edited elements to that cell alone, answers
    -- the edit's result, and keeps the free list, the live count and the byte totals right.
    pub edit_vector-Edits :
        (edit : List Value → List Value × R) (items : List Value)
        → get_elem? h.cells r ≡ some (HeapCell.vector items)
        → (h' : Heap) × (edit_vector layout h r edit ≡ some (h', (edit items).1))
          × Edits h r (HeapCell.vector (edit items).0) h'
    unfolding edit_vector cell_slots
    edit_vector-Edits edit items at = (
      rewrite layout h r (HeapCell.vector (edit items).0) (length items) (length (edit items).0),
      rw at,
      rewrite-Edits h r (HeapCell.vector items) (HeapCell.vector (edit items).0) v at refl refl,
    )

    pub edit_map-Edits :
        (edit : OrderedMap Value → OrderedMap Value × R) (entries : OrderedMap Value)
        → get_elem? h.cells r ≡ some (HeapCell.map entries)
        → (h' : Heap) × (edit_map layout h r edit ≡ some (h', (edit entries).1))
          × Edits h r (HeapCell.map (edit entries).0) h'
    unfolding edit_map cell_slots
    edit_map-Edits edit entries at = (
      rewrite layout h r (HeapCell.map (edit entries).0) (2 * length entries.entries)
          (2 * length (edit entries).0.entries),
      rw at,
      rewrite-Edits h r (HeapCell.map entries) (HeapCell.map (edit entries).0) v at refl refl,
    )

    pub edit_set-Edits :
        (edit : OrderedSet Value → OrderedSet Value × R) (items : OrderedSet Value)
        → get_elem? h.cells r ≡ some (HeapCell.set_cell items)
        → (h' : Heap) × (edit_set layout h r edit ≡ some (h', (edit items).1))
          × Edits h r (HeapCell.set_cell (edit items).0) h'
    unfolding edit_set cell_slots
    edit_set-Edits edit items at = (
      rewrite layout h r (HeapCell.set_cell (edit items).0) (length items.items)
          (length (edit items).0.items),
      rw at,
      rewrite-Edits h r (HeapCell.set_cell items) (HeapCell.set_cell (edit items).0) v at refl refl,
    )

    pub edit_scope-Edits :
        (edit : ScopeState → ScopeState × R) (state : ScopeState)
        → get_elem? h.cells r ≡ some (HeapCell.scope state)
        → (h' : Heap) × (edit_scope layout h r edit ≡ some (h', (edit state).1))
          × Edits h r (HeapCell.scope (edit state).0) h'
    unfolding edit_scope cell_slots
    edit_scope-Edits edit state at = (
      rewrite layout h r (HeapCell.scope (edit state).0) (length state.tasks)
          (length (edit state).0.tasks),
      rw at,
      rewrite-Edits h r (HeapCell.scope state) (HeapCell.scope (edit state).0) v at refl refl,
    )
