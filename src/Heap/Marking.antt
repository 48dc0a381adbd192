-- ===== src/Heap/Marking.antt =====
-- The worklist loop ends, never panics, and marks exactly what can be reached from the roots.
use brasa.Prelude.{
  ℕ, ◌<◌, ◌≡◌, refl, subst, ◌∙◌, List, [], ◌∷◌, Bool, true, false, Option, none, some, length, set,
  get_elem?, get_elem?-set_self, arith, Bool-cases, get_elem?_of_lt, lt_of_get_elem?, inl, inr,
  Elem, head, tail, All,
}
use brasa.Value.{Value, Node}
use brasa.Heap.{HeapCell, Pending, cell, shared, MarkState}
use brasa.Heap.Mark.{visit, visit_all, visit_cell, visit_shared}
use brasa.Heap.Graph.{target_of, visit_target, visit-target, Reach, IsLive}
use brasa.Heap.Visit.{
  is_marked, IsMarkedValue, Visits, Visits-refl, Visits-trans, mark_new_cell, mark_new_node,
  get_or_of_get_elem?,
}
use brasa.Heap.Invariant.{contains}

module _ (cells : List HeapCell) (nodes : List Node) (roots : List Value)
    (live : (t : Pending) → Reach cells nodes roots t → IsLive cells nodes t) where
  abbrev pub Reached : Pending → Type 0
  Reached = Reach cells nodes roots

  abbrev pub Step : MarkState → MarkState → Type 0
  Step = Visits Reached (length nodes)

  -- A value all of whose targets can be reached.
  abbrev pub IsReachedValue : Value → Type 0
  IsReachedValue v = (t : Pending) → target_of v ≡ some t → Reached t

  visit_cell-Visits :
      (m : MarkState) (r : ℕ)
      → length m.marked ≡ length cells
      → Reached (cell r)
      → (m' : MarkState) × (visit_cell m r ≡ some m') × Step m m' × (is_marked m' (cell r) ≡ true)
  unfolding visit_cell
  visit_cell-Visits m r size reached = let (b, at) = get_elem?_of_lt m.marked r lt in go b at
    where
      lt : r < length m.marked
      lt = let (c, at, f) = live (cell r) reached in omega (arith, lt_of_get_elem? cells r at)

      go :
          (b : Bool)
          → get_elem? m.marked r ≡ some b
          → (m' : MarkState) × (visit_cell m r ≡ some m')
            × Step m m'
            × (is_marked m' (cell r) ≡ true)
      go true at =
          (m, rw at, Visits-refl Reached (length nodes) m, get_or_of_get_elem? m.marked r false at)
      go false at =
          let next = mark_new_cell Reached (length nodes) m r reached at lt in
          (
            record m { marked = set m.marked r true; pending = cell r ∷ m.pending },
            rw at,
            next,
            get_or_of_get_elem? (set m.marked r true) r false
                (get_elem?-set_self m.marked r true lt),
          )

  visit_shared-Visits :
      (m : MarkState) (a : ℕ)
      → Reached (shared a)
      → Step m (visit_shared m a) × (is_marked (visit_shared m a) (shared a) ≡ true)
  unfolding visit_shared
  visit_shared-Visits m a reached = elim (Bool-cases (contains m.visited a)) [
    | inl old ↦ rw old (Visits-refl Reached (length nodes) m, old)
    | inr new ↦ rw new (
      mark_new_node Reached (length nodes) m a reached new
          (lt_of_get_elem? nodes a (live (shared a) reached).1),
      ground arith,
    )
  ]

  visit-Visits :
      (m : MarkState) (v : Value)
      → length m.marked ≡ length cells
      → IsReachedValue v
      → (m' : MarkState) × (visit m v ≡ some m') × Step m m' × IsMarkedValue m' v
  visit-Visits m v size reached = rw (visit-target m v) (go (target_of v) refl)
    where
      go :
          (o : Option Pending)
          → target_of v ≡ o
          → (m' : MarkState) × (visit_target m o ≡ some m') × Step m m' × IsMarkedValue m' v
      go none e = (m, refl, Visits-refl Reached (length nodes) m, λ t h. cc)
      go (some (cell r)) e =
          let (m', eq, w, marked) = visit_cell-Visits m r size (reached (cell r) e) in
          (m', eq, w, λ t h. let q : cell r ≡ t = cc in subst (λ u. is_marked m' u ≡ true) q marked)
      go (some (shared a)) e =
          let (w, marked) = visit_shared-Visits m a (reached (shared a) e) in
          (
            visit_shared m a,
            refl,
            w,
            λ t h.
                let q : shared a ≡ t = cc in
                subst (λ u. is_marked (visit_shared m a) u ≡ true) q marked,
          )

  pub visit_all-Visits :
      (m : MarkState) (vs : List Value)
      → length m.marked ≡ length cells
      → ((v : Value) → Elem v vs → IsReachedValue v)
      → (m' : MarkState) × (visit_all m vs ≡ some m') × Step m m' × All (IsMarkedValue m') vs
  unfolding visit_all
  visit_all-Visits m [] size reached = (m, refl, Visits-refl Reached (length nodes) m, tt)
  visit_all-Visits m (v ∷ vs) size reached =
      let (m₁, e₁, w₁, marked) = visit-Visits m v size (reached v head) in
      let (m₂, e₂, w₂, rest) =
        visit_all-Visits m₁ vs (w₁.size ∙ size) (λ u h. reached u (tail h)) in
      (
        m₂,
        rw e₁ e₂,
        Visits-trans Reached (length nodes) m m₁ m₂ w₁ w₂,
        (λ t h. w₂.grows t (marked t h), rest),
      )
