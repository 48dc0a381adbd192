-- ===== src/Heap/Census.antt =====
-- The heap view of the debugger: the live slots by kind, and the free slots.
use brasa.Prelude.{
  ℕ, zero, suc, ◌+◌, ◌<◌, ◌≡◌, refl, List, [], ◌∷◌, Option, none, some, if◌then◌else◌, length,
  codes, ltb, arith, Bool-cases, inl, inr,
}
use brasa.Value.{Text}
use brasa.Heap.{Heap, HeapCell, Layout, is_free}
use brasa.Heap.Invariant.{IsValid, count_live, one_live}

-- Where `counts` counts a cell.
abbrev kind_of : HeapCell → Option ℕ
kind_of (HeapCell.vector _) = some 0
kind_of (HeapCell.map _) = some 1
kind_of (HeapCell.set_cell _) = some 2
kind_of (HeapCell.struct _) = some 3
kind_of (HeapCell.binding _) = some 4
kind_of (HeapCell.scope _) = some 5
kind_of (HeapCell.task _) = some 6
kind_of HeapCell.free = none

-- `counts[k] += 1`
abbrev bump : ℕ → List ℕ → List ℕ
bump k [] = []
bump zero (n ∷ ns) = suc n ∷ ns
bump (suc k) (n ∷ ns) = n ∷ bump k ns

abbrev count_cell : Option ℕ → List ℕ → List ℕ
count_cell none counts = counts
count_cell (some k) counts = bump k counts

unfoldable pub tally : List ℕ → List HeapCell → List ℕ
tally counts [] = counts
tally counts (c ∷ cells) = tally (count_cell (kind_of c) counts) cells

-- The kinds with their counts, those that count nothing left out.
unfoldable pub named : List Text → List ℕ → List (Text × ℕ)
named [] counts = []
named (kind ∷ kinds) [] = []
named (kind ∷ kinds) (n ∷ counts) =
    if ltb 0 n then (kind, n) ∷ named kinds counts else named kinds counts

abbrev pub kinds : List Text
kinds =
    codes "Vector"
    ∷ codes "Map"
    ∷ codes "Set"
    ∷ codes "struct"
    ∷ codes "binding"
    ∷ codes "scope"
    ∷ codes "task"
    ∷ []

unfoldable pub census : Heap → List (Text × ℕ)
census h = named kinds (tally (0 ∷ 0 ∷ 0 ∷ 0 ∷ 0 ∷ 0 ∷ 0 ∷ []) h.cells)

unfoldable pub free_slots : List HeapCell → ℕ
free_slots [] = 0
free_slots (c ∷ cells) = if is_free c then suc (free_slots cells) else free_slots cells

unfoldable pub arena_slots : Heap → ℕ
arena_slots h = length h.cells

abbrev pub total_count : List (Text × ℕ) → ℕ
total_count [] = 0
total_count ((kind, n) ∷ entries) = n + total_count entries

abbrev sum : List ℕ → ℕ
sum [] = 0
sum (n ∷ ns) = n + sum ns

sum-bump :
    (k : ℕ) (counts : List ℕ)
    → k < length counts
    → (sum (bump k counts) ≡ suc (sum counts)) × (length (bump k counts) ≡ length counts)
sum-bump k [] h = absurd (omega arith)
sum-bump zero (n ∷ ns) h = (omega arith, refl)
sum-bump (suc k) (n ∷ ns) h = let (a, b) = sum-bump k ns (omega arith) in (omega arith, omega arith)

sum-count_cell :
    (c : HeapCell) (counts : List ℕ)
    → length counts ≡ 7
    → (sum (count_cell (kind_of c) counts) ≡ sum counts + one_live c)
      × (length (count_cell (kind_of c) counts) ≡ 7)
sum-count_cell (HeapCell.vector _) counts h =
    let (a, b) = sum-bump 0 counts (omega arith) in (omega arith, omega arith)
sum-count_cell (HeapCell.map _) counts h =
    let (a, b) = sum-bump 1 counts (omega arith) in (omega arith, omega arith)
sum-count_cell (HeapCell.set_cell _) counts h =
    let (a, b) = sum-bump 2 counts (omega arith) in (omega arith, omega arith)
sum-count_cell (HeapCell.struct _) counts h =
    let (a, b) = sum-bump 3 counts (omega arith) in (omega arith, omega arith)
sum-count_cell (HeapCell.binding _) counts h =
    let (a, b) = sum-bump 4 counts (omega arith) in (omega arith, omega arith)
sum-count_cell (HeapCell.scope _) counts h =
    let (a, b) = sum-bump 5 counts (omega arith) in (omega arith, omega arith)
sum-count_cell (HeapCell.task _) counts h =
    let (a, b) = sum-bump 6 counts (omega arith) in (omega arith, omega arith)
sum-count_cell HeapCell.free counts h = (omega arith, h)

sum-tally :
    (cells : List HeapCell) (counts : List ℕ)
    → length counts ≡ 7
    → (sum (tally counts cells) ≡ sum counts + count_live cells) × (length (tally counts cells) ≡ 7)
unfolding tally
sum-tally [] counts h = (omega arith, h)
sum-tally (c ∷ cells) counts h =
    let (a, b) = sum-count_cell c counts h in
    let (d, e) = sum-tally cells (count_cell (kind_of c) counts) b in (omega arith, e)

total_count-named :
    (names : List Text) (counts : List ℕ)
    → length counts ≡ length names
    → total_count (named names counts) ≡ sum counts
unfolding named
total_count-named [] [] h = refl
total_count-named [] (n ∷ ns) h = absurd (omega arith)
total_count-named (x ∷ names) [] h = absurd (omega arith)
total_count-named (x ∷ names) (n ∷ ns) h =
    let rest = total_count-named names ns (omega arith) in
    elim (Bool-cases (ltb 0 n)) [
      | inl t ↦ rw t (omega (arith, rest))
      | inr f ↦ let none_here : n ≡ 0 = ground arith in rw f (omega (arith, rest, none_here))
    ]

free_slots-count_live : (cells : List HeapCell) → free_slots cells + count_live cells ≡ length cells
unfolding free_slots
free_slots-count_live [] = refl
free_slots-count_live (c ∷ cells) = elim (Bool-cases (is_free c)) [
  | inl t ↦ rw t (omega (arith, free_slots-count_live cells))
  | inr f ↦ rw f (omega (arith, free_slots-count_live cells))
]

-- On a valid heap the kinds of the census add up to the live count, the free slots are as many as the
-- free list has entries, and both together are all the slots of the arena.
pub census-free_slots :
    (layout : Layout) (h : Heap)
    → IsValid layout h
    → (total_count (census h) ≡ h.stats.live)
      × (free_slots h.cells ≡ length h.free_list)
      × (total_count (census h) + free_slots h.cells ≡ arena_slots h)
unfolding census arena_slots
census-free_slots layout h v =
    let (counted, seven) = sum-tally h.cells (0 ∷ 0 ∷ 0 ∷ 0 ∷ 0 ∷ 0 ∷ 0 ∷ []) refl in
    let all = total_count-named kinds (tally (0 ∷ 0 ∷ 0 ∷ 0 ∷ 0 ∷ 0 ∷ 0 ∷ []) h.cells) seven in
    let split = free_slots-count_live h.cells in
    (omega (arith, v.counted), omega (arith, v.counted, v.slots), omega (arith, v.counted, v.slots))
