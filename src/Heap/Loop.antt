-- ===== src/Heap/Loop.antt =====
-- The worklist loop: its invariant, that its fuel is enough, and what is marked when it ends.
use brasa.Prelude.{
  ℕ, zero, suc, ◌+◌, ◌≤◌, ◌≡◌, refl, ap, sym, subst, ◌∙◌, List, [], ◌∷◌, true, false, Option, some,
  length, replicate, length-replicate, ◌>>=◌, arith, inl, inr, ◌⊎◌, Elem, head, tail, All, All-imp,
  All-Elem, ◌↔◌,
}
use brasa.Value.{Value, Node}
use brasa.Heap.{HeapCell, Pending, cell, shared, MarkState}
use brasa.Heap.Mark.{mark_step, mark_loop, mark_fuel, mark_from, begin}
use brasa.Heap.Graph.{Reach, root, step, IsLive, contents, scan_pending-all}
use brasa.Heap.Visit.{is_marked, IsMarkedValue, count_unmarked, unseen, work_left, Visits}
use brasa.Heap.Marking.{visit_all-Visits}

count_unmarked-replicate : (n : ℕ) → count_unmarked (replicate n false) ≡ n
count_unmarked-replicate zero = refl
count_unmarked-replicate (suc n) = omega (arith, count_unmarked-replicate n)

unseen-nil : (k : ℕ) → unseen k [] ≡ k
unseen-nil zero = refl
unseen-nil (suc k) = omega (arith, unseen-nil k)

unmarked : (n : ℕ) (t : Pending) → is_marked (begin n) t ≡ true → ⊥
unfolding begin
unmarked zero (cell i) h = cc
unmarked (suc n) (cell zero) h = cc
unmarked (suc n) (cell (suc i)) h = unmarked n (cell i) h
unmarked n (shared a) h = cc

module _ (cells : List HeapCell) (nodes : List Node) (roots : List Value) where
  abbrev pub Scanned : MarkState → Pending → Type 0
  Scanned m t = All (IsMarkedValue m) (contents cells nodes t)

  -- Marked items are reached; each is queued, held back in `extra`, or scanned.
  pub record Inv (extra : List Pending) (m : MarkState) : Type 0 where
    pub size : length m.marked ≡ length cells
    pub sound : (t : Pending) → is_marked m t ≡ true → Reach cells nodes roots t
    pub queued : (t : Pending) → Elem t m.pending → is_marked m t ≡ true
    pub grey :
        (t : Pending) → is_marked m t ≡ true → Elem t extra ⊎ (Elem t m.pending ⊎ Scanned m t)

  Visits-Inv :
      (extra : List Pending) (m m' : MarkState)
      → Inv extra m
      → Visits (Reach cells nodes roots) (length nodes) m m'
      → Inv extra m'
  Visits-Inv extra m m' v w = record {
    size = w.size ∙ v.size;
    sound = λ t h. elim (w.added t h) [ inl old ↦ v.sound t old | inr new ↦ new.1 ];
    queued = λ t h. elim (w.queued t h) [ inl q ↦ w.grows t (v.queued t q) | inr e ↦ e ];
    grey = λ t h. elim (w.added t h) [
      | inr new ↦ inr (inl new.0)
      | inl old ↦ elim (v.grey t old) [
        | inl x ↦ inl x
        | inr (inl q) ↦ inr (inl (w.keeps t q))
        | inr (inr s) ↦
            inr (inr (All-imp (contents cells nodes t) (λ u h t' e. w.grows t' (h t' e)) s))
      ]
    ];
  }

  pop-Inv :
      (m : MarkState) (item : Pending) (rest : List Pending)
      → m.pending ≡ item ∷ rest
      → Inv [] m
      → Inv (item ∷ []) (record m { pending = rest })
  pop-Inv m item rest e v = record {
    size = v.size;
    sound = v.sound;
    queued = λ t h. v.queued t (subst (Elem t) (sym e) (tail h));
    grey = λ t h. elim (v.grey t h) [
      | inl x ↦ inl (tail x)
      | inr (inl q) ↦ split t (subst (Elem t) e q)
      | inr (inr s) ↦ inr (inr s)
    ];
  }
    where
      split :
          (t : Pending)
          → Elem t (item ∷ rest)
          → Elem t (item ∷ []) ⊎ (Elem t rest ⊎ Scanned (record m { pending = rest }) t)
      split t head = inl head
      split t (tail h) = inr (inl h)

  Scanned-Inv : (m : MarkState) (item : Pending) → Inv (item ∷ []) m → Scanned m item → Inv [] m
  Scanned-Inv m item v s = record {
    size = v.size;
    sound = v.sound;
    queued = v.queued;
    grey = λ t h. elim (v.grey t h) [ inl x ↦ inr (inr (here t x)) | inr y ↦ inr y ];
  }
    where
      here : (t : Pending) → Elem t (item ∷ []) → Scanned m t
      here t head = s
      here t (tail h) = elim h [ ]

  mark_loop-cons :
      (fuel : ℕ) (m : MarkState) (item : Pending) (rest : List Pending)
      → m.pending ≡ item ∷ rest
      → mark_loop (suc fuel) cells nodes m
        ≡ (mark_step cells nodes item rest m >>= mark_loop fuel cells nodes)
  unfolding mark_loop
  mark_loop-cons fuel m item rest e =
      subst
        (λ l.
          (elim l [
            | [] ↦ some m
            | i ∷ r ↦ mark_step cells nodes i r m >>= mark_loop fuel cells nodes
          ])
          ≡ (mark_step cells nodes item rest m >>= mark_loop fuel cells nodes))
        (sym e) refl

  module _ (live : (t : Pending) → Reach cells nodes roots t → IsLive cells nodes t) where
    -- What a run of the loop with enough fuel gives.
    abbrev Ends : MarkState → Option MarkState → Type 0
    Ends m result =
        (m' : MarkState) × (result ≡ some m')
        × Inv [] m'
        × (m'.pending ≡ [])
        × ((t : Pending) → is_marked m t ≡ true → is_marked m' t ≡ true)

    mark_step-Inv :
        (m : MarkState) (item : Pending) (rest : List Pending)
        → m.pending ≡ item ∷ rest
        → Inv [] m
        → (m' : MarkState) × (mark_step cells nodes item rest m ≡ some m')
          × Inv [] m'
          × (work_left (length nodes) m' + 1 ≡ work_left (length nodes) m)
          × ((t : Pending) → is_marked m t ≡ true → is_marked m' t ≡ true)
    unfolding mark_step
    mark_step-Inv m item rest e v =
        let reached : Reach cells nodes roots item =
          v.sound item (v.queued item (subst (Elem item) (sym e) head)) in
        let popped = pop-Inv m item rest e v in
        let (m', eq, w, marked) =
          visit_all-Visits cells nodes roots live (record m { pending = rest })
            (contents cells nodes item) v.size (λ u h t g. step reached h g) in
        (
          m',
          scan_pending-all cells nodes (record m { pending = rest }) item (live item reached) ∙ eq,
          Scanned-Inv m' item (Visits-Inv (item ∷ []) (record m { pending = rest }) m' popped w)
              marked,
          omega (arith, w.work, ap length e),
          w.grows,
        )

    mark_loop-Ends :
        (fuel : ℕ) (m : MarkState) (l : List Pending)
        → m.pending ≡ l
        → work_left (length nodes) m ≤ fuel
        → Inv [] m
        → Ends m (mark_loop fuel cells nodes m)
    unfolding mark_loop
    mark_loop-Ends zero m [] e h v = (m, rw e, v, e, λ t h. h)
    mark_loop-Ends (suc fuel) m [] e h v = (m, rw e, v, e, λ t h. h)
    mark_loop-Ends zero m (item ∷ rest) e h v = absurd (omega (arith, ap length e))
    mark_loop-Ends (suc fuel) m (item ∷ rest) e h v =
        let (m₁, e₁, v₁, less, grows₁) = mark_step-Inv m item rest e v in
        let (m₂, e₂, v₂, done, grows₂) = mark_loop-Ends fuel m₁ m₁.pending refl (omega arith) v₁ in
        (
          m₂,
          mark_loop-cons fuel m item rest e ∙ (ap (λ o. o >>= mark_loop fuel cells nodes) e₁ ∙ e₂),
          v₂,
          done,
          λ t g. grows₂ t (grows₁ t g),
        )

    enough :
        (m : MarkState)
        → Visits (Reach cells nodes roots) (length nodes) (begin (length cells)) m
        → work_left (length nodes) m ≤ mark_fuel cells nodes
    unfolding begin
    enough m w =
        omega (arith, w.work, count_unmarked-replicate (length cells), unseen-nil (length nodes))

    -- With nothing queued the marked items are closed under the edges.
    complete :
        (m : MarkState)
        → Inv [] m
        → m.pending ≡ []
        → All (IsMarkedValue m) roots
        → (t : Pending) → Reach cells nodes roots t
        → is_marked m t ≡ true
    complete m v done marked t (root h e) = All-Elem (IsMarkedValue m) h marked t e
    complete m v done marked t (step {u} r h e) = elim (v.grey u (complete m v done marked u r)) [
      | inl x ↦ elim x [ ]
      | inr (inl q) ↦ absurd (none_queued u (subst (Elem u) done q))
      | inr (inr s) ↦ All-Elem (IsMarkedValue m) h s t e
    ]
      where
        none_queued : (u : Pending) → Elem u [] → ⊥
        none_queued u h = elim h [ ]

    begin-Inv : Inv [] (begin (length cells))
    unfolding begin
    begin-Inv = record {
      size = length-replicate (length cells) false;
      sound = λ t h. absurd (unmarked (length cells) t h);
      queued = λ t h. elim h [ ];
      grey = λ t h. absurd (unmarked (length cells) t h);
    }

    -- Where every cell and node that the roots reach is there, marking ends within its fuel without
    -- a panic, and marks exactly the cells and nodes that the roots reach.
    pub mark_from-Reach :
        (m : MarkState) × (mark_from cells nodes roots ≡ some m)
        × (length m.marked ≡ length cells)
        × ((t : Pending) → (is_marked m t ≡ true) ↔ Reach cells nodes roots t)
    unfolding mark_from
    mark_from-Reach =
        let (m₁, e₁, w, marked) =
          visit_all-Visits cells nodes roots live (begin (length cells)) roots begin-Inv.size
            (λ v h t e. root h e) in
        let (m₂, e₂, v₂, done, grows) =
          mark_loop-Ends (mark_fuel cells nodes) m₁ m₁.pending refl (enough m₁ w)
            (Visits-Inv [] (begin (length cells)) m₁ begin-Inv w) in
        (
          m₂,
          ap (λ o. o >>= mark_loop (mark_fuel cells nodes) cells nodes) e₁ ∙ e₂,
          v₂.size,
          λ t. (
            v₂.sound t,
            complete m₂ v₂ done (All-imp roots (λ u h t' e. grows t' (h t' e)) marked) t,
          ),
        )
