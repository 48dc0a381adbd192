-- ===== src/Heap/Visit.antt =====
-- One visit: what it marks, what it queues, and that the work left does not grow.
use brasa.Prelude.{
  ℕ, zero, suc, ◌+◌, ◌≤◌, ◌<◌, ◌≡◌, refl, subst, ◌∙◌, List, [], ◌∷◌, Bool, true, false, some,
  if◌then◌else◌, length, set, get_elem?, get_or, ◌==◌, ◌||◌, arith, Bool-cases, length-set, inl,
  inr, ◌⊎◌, Elem, head, tail,
}
use brasa.Value.{Value}
use brasa.Heap.{Pending, cell, shared, MarkState}
use brasa.Heap.Graph.{target_of}
use brasa.Heap.Invariant.{contains}

abbrev pub is_marked : MarkState → Pending → Bool
is_marked m (cell r) = get_or m.marked r false
is_marked m (shared a) = contains m.visited a

abbrev pub IsMarkedValue : MarkState → Value → Type 0
IsMarkedValue m v = (t : Pending) → target_of v ≡ some t → is_marked m t ≡ true

abbrev pub count_unmarked : List Bool → ℕ
count_unmarked [] = 0
count_unmarked (b ∷ bs) = (if b then 0 else 1) + count_unmarked bs

abbrev pub unseen : ℕ → List ℕ → ℕ
unseen zero visited = 0
unseen (suc k) visited = (if contains visited k then 0 else 1) + unseen k visited

-- Slots and nodes that can still be queued, and items that are.
abbrev pub work_left : ℕ → MarkState → ℕ
work_left k m = count_unmarked m.marked + unseen k m.visited + length m.pending

pub get_or_of_get_elem? {ℓ} :
    {A : Type ℓ} (xs : List A) (i : ℕ) (d : A) {x : A} → get_elem? xs i ≡ some x → get_or xs i d ≡ x
get_or_of_get_elem? [] i d e = cc
get_or_of_get_elem? (y ∷ xs) zero d e = ground arith
get_or_of_get_elem? (y ∷ xs) (suc i) d e = get_or_of_get_elem? xs i d e

get_or-set :
    (bs : List Bool) (i j : ℕ)
    → i < length bs
    → get_or (set bs i true) j false ≡ (i == j || get_or bs j false)
get_or-set [] i j h = elim h [ ]
get_or-set (b ∷ bs) zero zero h = ground arith
get_or-set (b ∷ bs) zero (suc j) h = ground arith
get_or-set (b ∷ bs) (suc i) zero h = ground arith
get_or-set (b ∷ bs) (suc i) (suc j) h = ground (arith, get_or-set bs i j)

count_unmarked-set :
    (bs : List Bool) (i : ℕ)
    → get_elem? bs i ≡ some false
    → count_unmarked (set bs i true) + 1 ≡ count_unmarked bs
count_unmarked-set [] i e = cc
count_unmarked-set (b ∷ bs) zero e = ground arith
count_unmarked-set (b ∷ bs) (suc i) e = omega (arith, count_unmarked-set bs i e)

unseen_above : (k a : ℕ) (visited : List ℕ) → k ≤ a → unseen k (a ∷ visited) ≡ unseen k visited
unseen_above zero a visited h = refl
unseen_above (suc k) a visited h = ground (arith, unseen_above k a visited (omega arith))

unseen-cons :
    (k a : ℕ) (visited : List ℕ)
    → a < k
    → contains visited a ≡ false
    → unseen k (a ∷ visited) + 1 ≡ unseen k visited
unseen-cons zero a visited h e = elim h [ ]
unseen-cons (suc k) a visited h e = elim (Bool-cases (a == k)) [
  | inl same ↦ ground (arith, unseen_above k a visited)
  | inr other ↦ ground (arith, unseen-cons k a visited)
]

module _ (Good : Pending → Type 0) (k : ℕ) where
  -- What visiting good targets does to the marks and the queue.
  pub record Visits (m m' : MarkState) : Type 0 where
    pub size : length m'.marked ≡ length m.marked
    pub grows : (t : Pending) → is_marked m t ≡ true → is_marked m' t ≡ true
    pub keeps : (t : Pending) → Elem t m.pending → Elem t m'.pending
    pub added :
        (t : Pending)
        → is_marked m' t ≡ true
        → (is_marked m t ≡ true) ⊎ (Elem t m'.pending × Good t)
    pub queued : (t : Pending) → Elem t m'.pending → Elem t m.pending ⊎ (is_marked m' t ≡ true)
    pub work : work_left k m' ≡ work_left k m

  pub Visits-refl : (m : MarkState) → Visits m m
  Visits-refl m = record {
    size = refl;
    grows = λ t h. h;
    keeps = λ t h. h;
    added = λ t h. inl h;
    queued = λ t h. inl h;
    work = refl;
  }

  pub Visits-trans : (m₁ m₂ m₃ : MarkState) → Visits m₁ m₂ → Visits m₂ m₃ → Visits m₁ m₃
  Visits-trans m₁ m₂ m₃ v w = record {
    size = w.size ∙ v.size;
    grows = λ t h. w.grows t (v.grows t h);
    keeps = λ t h. w.keeps t (v.keeps t h);
    added = λ t h. elim (w.added t h) [
      | inl old ↦ elim (v.added t old) [ inl older ↦ inl older | inr (q, g) ↦ inr (w.keeps t q, g) ]
      | inr new ↦ inr new
    ];
    queued = λ t h. elim (w.queued t h) [
      | inl q ↦ elim (v.queued t q) [ inl q' ↦ inl q' | inr e ↦ inr (w.grows t e) ]
      | inr e ↦ inr e
    ];
    work = w.work ∙ v.work;
  }

  -- A new slot is marked and queued.
  pub mark_new_cell :
      (m : MarkState) (r : ℕ)
      → Good (cell r)
      → get_elem? m.marked r ≡ some false
      → r < length m.marked
      → Visits m (record m { marked = set m.marked r true; pending = cell r ∷ m.pending })
  mark_new_cell m r good new lt = record {
    size = length-set m.marked r true;
    grows = grows;
    keeps = λ t h. tail h;
    added = added;
    queued = queued;
    work = omega (arith, count_unmarked-set m.marked r new);
  }
    where
      m' : MarkState
      m' = record m { marked = set m.marked r true; pending = cell r ∷ m.pending }

      grows : (t : Pending) → is_marked m t ≡ true → is_marked m' t ≡ true
      grows (cell i) h = ground (arith, get_or-set m.marked r i lt)
      grows (shared a) h = h

      added :
          (t : Pending)
          → is_marked m' t ≡ true
          → (is_marked m t ≡ true) ⊎ (Elem t m'.pending × Good t)
      added (cell i) h = elim (Bool-cases (r == i)) [
        | inl same ↦
            let e : r ≡ i = ground arith in
            inr (subst (λ j. Elem (cell j) m'.pending) e head, subst (λ j. Good (cell j)) e good)
        | inr other ↦ inl (ground (arith, get_or-set m.marked r i lt))
      ]
      added (shared a) h = inl h

      queued : (t : Pending) → Elem t m'.pending → Elem t m.pending ⊎ (is_marked m' t ≡ true)
      queued t head = inr (ground (arith, get_or-set m.marked r r lt))
      queued t (tail h) = inl h

  pub mark_new_node :
      (m : MarkState) (a : ℕ)
      → Good (shared a)
      → contains m.visited a ≡ false
      → a < k
      → Visits m (record m { visited = a ∷ m.visited; pending = shared a ∷ m.pending })
  mark_new_node m a good new lt = record {
    size = refl;
    grows = grows;
    keeps = λ t h. tail h;
    added = added;
    queued = queued;
    work = omega (arith, unseen-cons k a m.visited lt new);
  }
    where
      m' : MarkState
      m' = record m { visited = a ∷ m.visited; pending = shared a ∷ m.pending }

      grows : (t : Pending) → is_marked m t ≡ true → is_marked m' t ≡ true
      grows (cell i) h = h
      grows (shared b) h = ground arith

      added :
          (t : Pending)
          → is_marked m' t ≡ true
          → (is_marked m t ≡ true) ⊎ (Elem t m'.pending × Good t)
      added (cell i) h = inl h
      added (shared b) h = elim (Bool-cases (a == b)) [
        | inl same ↦
            let e : a ≡ b = ground arith in
            inr
              (subst (λ j. Elem (shared j) m'.pending) e head, subst (λ j. Good (shared j)) e good)
        | inr other ↦ inl (ground arith)
      ]

      queued : (t : Pending) → Elem t m'.pending → Elem t m.pending ⊎ (is_marked m' t ≡ true)
      queued t head = inr (ground arith)
      queued t (tail h) = inl h
