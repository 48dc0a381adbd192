-- ===== src/Heap/Accounting.antt =====
-- Allocation and the length-changing edits keep the arena's books.
use brasa.Prelude.{
  ℕ, zero, suc, ◌+◌, ◌*◌, ◌-◌, ◌≤◌, ◌<◌, ◌^◌, ◌≡◌, ◌≢◌, refl, ap, sym, subst, ◌∙◌, List, [], ◌∷◌,
  ◌++◌, true, false, some, leb, length, set, get_elem?, arith, Bool-cases, length-set,
  length-append, get_elem?_of_lt, get_elem?-set_self, get_elem?-set_ne, get_elem?-push, inl, inr,
  lt→ltb, leb→le, ◌⊎◌,
}
use brasa.Value.{GcRef}
use brasa.Heap.{
  Heap, HeapCell, Layout, is_free, cell_bytes, charge, recharge, count_alloc, alloc, new,
}
use brasa.Heap.Invariant.{
  is_hole, IsSlotted, IsValid, total_bytes-set, count_live-set, total_bytes-push, count_live-push,
  is_hole-set, is_hole-push, lt_of_hole,
}

pub new-IsValid : (layout : Layout) (budget : ℕ) → IsValid layout (new budget)
unfolding new
new-IsValid layout budget = record {
  slotted = record { slots = refl; holes = λ i. refl; once = tt; counted = refl };
  accounted = refl;
  peak = omega arith;
}

module _ (cells : List HeapCell) (c : HeapCell) (live : ℕ) (f : is_free c ≡ false) where
  top-lt : (ix : ℕ) (rest : List ℕ) → IsSlotted cells (ix ∷ rest) live → ix < length cells
  top-lt ix rest v = lt_of_hole cells ix (ground (arith, v.holes ix))

  pub reuse-IsSlotted :
      (ix : ℕ) (rest : List ℕ)
      → IsSlotted cells (ix ∷ rest) live
      → IsSlotted (set cells ix c) rest (live + 1)
  reuse-IsSlotted ix rest v =
      let lt = top-lt ix rest v in
      let (old, at) = get_elem?_of_lt cells ix lt in
      record {
        slots = omega (arith, v.slots, length-set cells ix c);
        holes = λ i. ground (arith, v.holes i, v.once.0, is_hole-set cells ix i c lt);
        once = v.once.1;
        counted = ground (arith, v.counted, v.holes ix, count_live-set cells ix old c at);
      }

  pub grow-IsSlotted : IsSlotted cells [] live → IsSlotted (cells ++ c ∷ []) [] (live + 1)
  grow-IsSlotted v = record {
    slots = omega (arith, v.slots, length-append cells (c ∷ []));
    holes = λ i. v.holes i ∙ sym (is_hole-push cells c i f);
    once = tt;
    counted = ground (arith, v.counted, count_live-push cells c);
  }

sub_mul : (a b s : ℕ) → a ≤ b → (b - a) * s + a * s ≡ b * s
sub_mul a b s h = grind arith

get_elem?-push_ne {ℓ} :
    {A : Type ℓ} (xs : List A) (x : A) (i : ℕ)
    → i ≢ length xs
    → get_elem? (xs ++ x ∷ []) i ≡ get_elem? xs i
get_elem?-push_ne [] x zero h = absurd (h refl)
get_elem?-push_ne [] x (suc i) h = refl
get_elem?-push_ne (y ∷ xs) x zero h = refl
get_elem?-push_ne (y ∷ xs) x (suc i) h = get_elem?-push_ne xs x i (λ e. h (ap suc e))

pub cell_bytes_of_free :
    (layout : Layout) (c : HeapCell) → is_free c ≡ true → cell_bytes layout c ≡ 0
unfolding cell_bytes
cell_bytes_of_free layout HeapCell.free e = refl
cell_bytes_of_free layout (HeapCell.vector x) e = cc
cell_bytes_of_free layout (HeapCell.map x) e = cc
cell_bytes_of_free layout (HeapCell.set_cell x) e = cc
cell_bytes_of_free layout (HeapCell.struct x) e = cc
cell_bytes_of_free layout (HeapCell.binding x) e = cc
cell_bytes_of_free layout (HeapCell.scope x) e = cc
cell_bytes_of_free layout (HeapCell.task x) e = cc

module _ (layout : Layout) where
  -- What an allocation of `c` that answers `r` does to the heap.
  pub record Allocates (h : Heap) (c : HeapCell) (h' : Heap) (r : GcRef) : Type 0 where
    pub valid : IsValid layout h'
    pub placed : get_elem? h'.cells r ≡ some c
    pub kept : (i : ℕ) → i ≢ r → get_elem? h'.cells i ≡ get_elem? h.cells i
    pub fresh : (is_hole h.cells r ≡ true) ⊎ ((r ≡ length h.cells) × (h.free_list ≡ []))

  module _ (h : Heap) (c : HeapCell) (v : IsValid layout h) (f : is_free c ≡ false) where
    reuse_slot :
        (ix : ℕ) (rest : List ℕ)
        → h.free_list ≡ ix ∷ rest
        → (h' : Heap) × (alloc layout h c ≡ some (h', ix)) × Allocates h c h' ix
    unfolding alloc charge
    reuse_slot ix rest e =
        let w : IsSlotted h.cells (ix ∷ rest) h.stats.live =
          subst (λ l. IsSlotted h.cells l h.stats.live) e v.slotted in
        let hole : is_hole h.cells ix ≡ true = ground (arith, w.holes ix) in
        let lt = lt_of_hole h.cells ix hole in
        let (old, at) = get_elem?_of_lt h.cells ix lt in
        (
          record (count_alloc layout h c) { cells = set h.cells ix c; free_list = rest },
          rw (e, lt→ltb _ _ lt),
          record {
            valid = record {
              slotted = reuse-IsSlotted h.cells c h.stats.live f ix rest w;
              accounted = omega (
                arith,
                v.accounted,
                total_bytes-set layout h.cells ix old c at,
                cell_bytes_of_free layout old (ground arith),
              );
              peak = omega arith;
            };
            placed = get_elem?-set_self h.cells ix c lt;
            kept = λ i n. get_elem?-set_ne h.cells c (λ q. n (sym q));
            fresh = inl hole;
          },
        )

    grow_slot :
        h.free_list ≡ []
        → length h.cells < 2 ^ 32
        → (h' : Heap) × (alloc layout h c ≡ some (h', length h.cells))
          × Allocates h c h' (length h.cells)
    unfolding alloc charge
    grow_slot e lt =
        let w : IsSlotted h.cells [] h.stats.live =
          subst (λ l. IsSlotted h.cells l h.stats.live) e v.slotted in
        (
          record (count_alloc layout h c) { cells = h.cells ++ c ∷ []; free_list = [] },
          rw (e, lt→ltb _ _ lt),
          record {
            valid = record {
              slotted = grow-IsSlotted h.cells c h.stats.live f w;
              accounted = omega (arith, v.accounted, total_bytes-push layout h.cells c);
              peak = omega arith;
            };
            placed = get_elem?-push h.cells c;
            kept = λ i n. get_elem?-push_ne h.cells c i n;
            fresh = inr (refl, e);
          },
        )

    -- On a valid heap of less than 2^32 slots an allocation of a cell that is no hole hands out a
    -- hole, or a new slot at the end where no hole is left; the slot holds the cell, the other slots
    -- stay as they are, and the heap is valid.
    pub alloc-Allocates :
        length h.cells < 2 ^ 32
        → (h' : Heap) × (r : GcRef) × (alloc layout h c ≡ some (h', r)) × Allocates h c h' r
    alloc-Allocates lt = go h.free_list refl
      where
        go :
            (l : List ℕ)
            → h.free_list ≡ l
            → (h' : Heap) × (r : GcRef) × (alloc layout h c ≡ some (h', r)) × Allocates h c h' r
        go [] e = let (h', eq, a) = grow_slot e lt in (h', length h.cells, eq, a)
        go (ix ∷ rest) e = let (h', eq, a) = reuse_slot ix rest e in (h', ix, eq, a)

  -- The charge of an edit is the change of the edited cell's bytes.
  pub recharge_bytes :
      (h : Heap) (before after : ℕ)
      → before * layout.slot_bytes ≤ h.live_bytes
      → (recharge layout h before after).live_bytes + before * layout.slot_bytes
        ≡ h.live_bytes + after * layout.slot_bytes
  unfolding recharge
  recharge_bytes h before after fits = elim (Bool-cases (leb before after)) [
    | inl t ↦ rw t (omega (arith, sub_mul before after layout.slot_bytes (leb→le _ _ t)))
    | inr g ↦ rw g (omega (arith, sub_mul after before layout.slot_bytes (ground arith)))
  ]
