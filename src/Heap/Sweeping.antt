-- ===== src/Heap/Sweeping.antt =====
-- The sweeping loop: it turns exactly the unmarked cells into holes and keeps the books.
use brasa.Prelude.{
  ℕ, zero, suc, ◌+◌, ◌-◌, ◌≤◌, ◌<◌, ◌≡◌, refl, ap, sym, subst, ◌∙◌, List, [], ◌∷◌, Bool, true,
  false, some, if◌then◌else◌, length, set, get_elem?, take, ltb, ltb→lt, eq_of_some, arith,
  Bool-cases, length-set, get_elem?_of_lt, lt_of_get_elem?, get_elem?-set_self, get_elem?-set_ne,
  inl, inr,
}
use brasa.Heap.Accounting.{cell_bytes_of_free}
use brasa.Heap.{HeapCell, Layout, is_free, cell_bytes}
use brasa.Heap.Collect.{Sweep, sweep_cell, sweep_slot, sweep_from}
use brasa.Heap.Invariant.{total_bytes, IsSlotted, count_live-set, total_bytes-set, is_hole-set}

-- What the sweep leaves at a slot.
abbrev pub swept : Bool → HeapCell → HeapCell
swept marked c = if marked then c else HeapCell.free

-- A cell that is no hole becomes one.
free-IsSlotted :
    (cells : List HeapCell) (free_list : List ℕ) (live ix : ℕ) (c : HeapCell)
    → get_elem? cells ix ≡ some c
    → is_free c ≡ false
    → IsSlotted cells free_list live
    → IsSlotted (set cells ix HeapCell.free) (ix ∷ free_list) (live - 1)
free-IsSlotted cells free_list live ix c at f v = record {
  slots = ground (arith, v.slots, length-set cells ix HeapCell.free, some_live);
  holes = λ i. ground (arith, v.holes i, is_hole-set cells ix i HeapCell.free lt);
  once = (v.holes ix ∙ ground arith, v.once);
  counted = ground (arith, v.counted, count_live-set cells ix c HeapCell.free at);
}
  where
    lt : ix < length cells
    lt = lt_of_get_elem? cells ix at

    some_live : 0 < live
    some_live = ground (arith, v.counted, count_live-set cells ix c HeapCell.free at)

total_bytes-take :
    (layout : Layout) (cs : List HeapCell) (ix : ℕ) (c : HeapCell)
    → get_elem? cs ix ≡ some c
    → total_bytes layout (take (suc ix) cs) ≡ total_bytes layout (take ix cs) + cell_bytes layout c
total_bytes-take layout [] ix c e = cc
total_bytes-take layout (d ∷ cs) zero c e = let same : d ≡ c = ground arith in rw same (omega arith)
total_bytes-take layout (d ∷ cs) (suc ix) c e = omega (arith, total_bytes-take layout cs ix c e)

take-set : (cs : List HeapCell) (ix : ℕ) (c : HeapCell) → take ix (set cs ix c) ≡ take ix cs
take-set [] ix c = refl
take-set (d ∷ cs) zero c = refl
take-set (d ∷ cs) (suc ix) c = ap (◌∷◌ d) (take-set cs ix c)

pub take-length : (cs : List HeapCell) (n : ℕ) → n ≡ length cs → take n cs ≡ cs
take-length [] zero e = refl
take-length [] (suc n) e = refl
take-length (d ∷ cs) zero e = absurd (omega arith)
take-length (d ∷ cs) (suc n) e = ap (◌∷◌ d) (take-length cs n (omega arith))

eq_free : (c : HeapCell) → is_free c ≡ true → c ≡ HeapCell.free
eq_free HeapCell.free f = refl
eq_free (HeapCell.vector x) f = cc
eq_free (HeapCell.map x) f = cc
eq_free (HeapCell.set_cell x) f = cc
eq_free (HeapCell.struct x) f = cc
eq_free (HeapCell.binding x) f = cc
eq_free (HeapCell.scope x) f = cc
eq_free (HeapCell.task x) f = cc

module _ (layout : Layout) (marked : List Bool) (old : List HeapCell)
    (size : length marked ≡ length old) where
  -- The state before the slot `ix`: the slots below are swept, the others untouched.
  pub record SweepInv (ix : ℕ) (s : Sweep) : Type 0 where
    pub slotted : IsSlotted s.cells s.free_list s.live
    pub same_size : length s.cells ≡ length old
    pub past :
        (i : ℕ) (b : Bool) (c : HeapCell)
        → i < ix
        → get_elem? marked i ≡ some b
        → get_elem? old i ≡ some c
        → get_elem? s.cells i ≡ some (swept b c)
    pub ahead : (i : ℕ) → ix ≤ i → get_elem? s.cells i ≡ get_elem? old i
    pub bytes : s.live_bytes ≡ total_bytes layout (take ix s.cells)
    pub no_more : total_bytes layout s.cells ≤ total_bytes layout old

  module _ (ix : ℕ) (s : Sweep) (c : HeapCell) (at : get_elem? s.cells ix ≡ some c)
      (v : SweepInv ix s) where
    past_next :
        (cells' : List HeapCell) (b : Bool)
        → get_elem? marked ix ≡ some b
        → ((i : ℕ) → i < ix → get_elem? cells' i ≡ get_elem? s.cells i)
        → get_elem? cells' ix ≡ some (swept b c)
        → (i : ℕ) (b' : Bool) (c' : HeapCell) → i < suc ix
        → get_elem? marked i ≡ some b'
        → get_elem? old i ≡ some c'
        → get_elem? cells' i ≡ some (swept b' c')
    past_next cells' b bit below here i b' c' lt e f = elim (Bool-cases (ltb i ix)) [
      | inl less ↦ below i (ltb→lt _ _ less) ∙ v.past i b' c' (ltb→lt _ _ less) e f
      | inr not ↦
          let same : ix ≡ i = ground arith in
          let eb : b ≡ b' = eq_of_some (sym bit ∙ (ap (get_elem? marked) same ∙ e)) in
          let ec : c ≡ c' =
            eq_of_some (sym at ∙ (v.ahead ix (omega arith) ∙ (ap (get_elem? old) same ∙ f))) in
          sym (ap (get_elem? cells') same) ∙ (here ∙ cc)
    ]

    keep-Inv :
        get_elem? marked ix ≡ some true
        → SweepInv (suc ix) (record s { live_bytes = s.live_bytes + cell_bytes layout c })
    keep-Inv bit = record {
      slotted = v.slotted;
      same_size = v.same_size;
      past = past_next s.cells true bit (λ i h. refl) at;
      ahead = λ i h. v.ahead i (omega arith);
      bytes = omega (arith, v.bytes, total_bytes-take layout s.cells ix c at);
      no_more = v.no_more;
    }

    hole-Inv : get_elem? marked ix ≡ some false → is_free c ≡ true → SweepInv (suc ix) s
    hole-Inv bit f = record {
      slotted = v.slotted;
      same_size = v.same_size;
      past = past_next s.cells false bit (λ i h. refl) (at ∙ ap some (eq_free c f));
      ahead = λ i h. v.ahead i (omega arith);
      bytes =
          omega (
            arith,
            v.bytes,
            total_bytes-take layout s.cells ix c at,
            cell_bytes_of_free layout c f,
          );
      no_more = v.no_more;
    }

    free-Inv :
        get_elem? marked ix ≡ some false
        → is_free c ≡ false
        → SweepInv (suc ix) (record s {
          cells = set s.cells ix HeapCell.free;
          free_list = ix ∷ s.free_list;
          live = s.live - 1;
        })
    free-Inv bit f = record {
      slotted = free-IsSlotted s.cells s.free_list s.live ix c at f v.slotted;
      same_size = length-set s.cells ix HeapCell.free ∙ v.same_size;
      past =
          past_next (set s.cells ix HeapCell.free) false bit
            (λ i h. get_elem?-set_ne s.cells HeapCell.free (λ q. absurd (omega arith))) here;
      ahead = λ i h.
          get_elem?-set_ne s.cells HeapCell.free (λ q. absurd (omega arith))
          ∙ v.ahead i (omega arith);
      bytes = omega (
        arith,
        v.bytes,
        total_bytes-take layout (set s.cells ix HeapCell.free) ix HeapCell.free here,
        ap (total_bytes layout) (take-set s.cells ix HeapCell.free),
        cell_bytes_of_free layout HeapCell.free refl,
      );
      no_more = omega (
        arith,
        v.no_more,
        total_bytes-set layout s.cells ix c HeapCell.free at,
        cell_bytes_of_free layout HeapCell.free refl,
      );
    }
      where
        here : get_elem? (set s.cells ix HeapCell.free) ix ≡ some HeapCell.free
        here = get_elem?-set_self s.cells ix HeapCell.free (lt_of_get_elem? s.cells ix at)

  sweep_cell-Inv :
      (ix : ℕ) (s : Sweep) (b : Bool) (c : HeapCell)
      → get_elem? s.cells ix ≡ some c
      → get_elem? marked ix ≡ some b
      → SweepInv ix s
      → SweepInv (suc ix) (sweep_cell layout b ix c s)
  unfolding sweep_cell
  sweep_cell-Inv ix s true c at bit v = keep-Inv ix s c at v bit
  sweep_cell-Inv ix s false c at bit v = elim (Bool-cases (is_free c)) [
    | inl f ↦ rw f (hole-Inv ix s c at v bit f)
    | inr f ↦ rw f (free-Inv ix s c at v bit f)
  ]

  -- The loop runs to the end of the arena.
  pub sweep_from-Inv :
      (n ix : ℕ) (s : Sweep)
      → n + ix ≡ length old
      → SweepInv ix s
      → (s' : Sweep) × (sweep_from layout marked n ix s ≡ some s') × SweepInv (length old) s'
  unfolding sweep_from sweep_slot
  sweep_from-Inv zero ix s e v = (s, refl, subst (λ k. SweepInv k s) (e' e) v)
    where
      e' : 0 + ix ≡ length old → ix ≡ length old
      e' h = omega arith
  sweep_from-Inv (suc n) ix s e v =
      let (c, at) = get_elem?_of_lt s.cells ix (omega (arith, v.same_size)) in
      let (b, bit) = get_elem?_of_lt marked ix (omega arith) in
      let (s', eq, w) =
        sweep_from-Inv n (suc ix) (sweep_cell layout b ix c s) (omega arith)
          (sweep_cell-Inv ix s b c at bit v) in
      (s', rw (at, bit) eq, w)
