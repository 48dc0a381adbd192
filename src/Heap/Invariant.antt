-- ===== src/Heap/Invariant.antt =====
-- The arena's books: the free list names exactly the holes, each once, the live count is the number
-- of cells that are no hole, and the live bytes are the bytes of those cells.
use brasa.Prelude.{
  ℕ, zero, suc, ◌+◌, ◌≤◌, ◌<◌, ◌≡◌, refl, List, [], ◌∷◌, ◌++◌, Bool, true, false, none, some,
  if◌then◌else◌, length, set, get_elem?, ◌||◌, ◌==◌, arith,
}
use brasa.Heap.{Heap, HeapCell, Layout, is_free, cell_bytes}

abbrev pub contains : List ℕ → ℕ → Bool
contains [] i = false
contains (x ∷ xs) i = x == i || contains xs i

abbrev pub IsDistinct : List ℕ → Type 0
IsDistinct [] = Unit
IsDistinct (x ∷ xs) = (contains xs x ≡ false) × IsDistinct xs

abbrev pub is_hole : List HeapCell → ℕ → Bool
is_hole cells i = elim (get_elem? cells i) [ none ↦ false | some c ↦ is_free c ]

abbrev pub one_live : HeapCell → ℕ
one_live c = if is_free c then 0 else 1

abbrev pub count_live : List HeapCell → ℕ
count_live [] = 0
count_live (c ∷ cs) = one_live c + count_live cs

abbrev pub total_bytes : Layout → List HeapCell → ℕ
total_bytes layout [] = 0
total_bytes layout (c ∷ cs) = cell_bytes layout c + total_bytes layout cs

pub record IsSlotted (cells : List HeapCell) (free_list : List ℕ) (live : ℕ) : Type 0 where
  pub slots : length cells ≡ live + length free_list
  pub holes : (i : ℕ) → contains free_list i ≡ is_hole cells i
  pub once : IsDistinct free_list
  pub counted : live ≡ count_live cells

pub record IsValid (layout : Layout) (h : Heap) : Type 0 where
  pub slotted : IsSlotted h.cells h.free_list h.stats.live
  pub open slotted use *
  pub accounted : h.live_bytes ≡ total_bytes layout h.cells
  pub peak : h.live_bytes ≤ h.peak_bytes

pub total_bytes-set :
    (layout : Layout) (cs : List HeapCell) (i : ℕ) (old new : HeapCell)
    → get_elem? cs i ≡ some old
    → total_bytes layout (set cs i new) + cell_bytes layout old
      ≡ total_bytes layout cs + cell_bytes layout new
total_bytes-set layout [] i old new e = cc
total_bytes-set layout (c ∷ cs) zero old new e = ground arith
total_bytes-set layout (c ∷ cs) (suc i) old new e =
    omega (arith, total_bytes-set layout cs i old new e)

pub count_live-set :
    (cs : List HeapCell) (i : ℕ) (old new : HeapCell)
    → get_elem? cs i ≡ some old
    → count_live (set cs i new) + one_live old ≡ count_live cs + one_live new
count_live-set [] i old new e = cc
count_live-set (c ∷ cs) zero old new e = ground arith
count_live-set (c ∷ cs) (suc i) old new e = omega (arith, count_live-set cs i old new e)

pub total_bytes-push :
    (layout : Layout) (cs : List HeapCell) (c : HeapCell)
    → total_bytes layout (cs ++ c ∷ []) ≡ total_bytes layout cs + cell_bytes layout c
total_bytes-push layout [] c = omega arith
total_bytes-push layout (d ∷ cs) c = omega (arith, total_bytes-push layout cs c)

pub count_live-push :
    (cs : List HeapCell) (c : HeapCell) → count_live (cs ++ c ∷ []) ≡ count_live cs + one_live c
count_live-push [] c = omega arith
count_live-push (d ∷ cs) c = omega (arith, count_live-push cs c)

pub is_hole-set :
    (cs : List HeapCell) (i j : ℕ) (c : HeapCell)
    → i < length cs
    → is_hole (set cs i c) j ≡ (if i == j then is_free c else is_hole cs j)
is_hole-set [] i j c h = elim h [ ]
is_hole-set (d ∷ cs) zero zero c h = ground arith
is_hole-set (d ∷ cs) zero (suc j) c h = ground arith
is_hole-set (d ∷ cs) (suc i) zero c h = ground arith
is_hole-set (d ∷ cs) (suc i) (suc j) c h = ground (arith, is_hole-set cs i j c)

pub is_hole-push :
    (cs : List HeapCell) (c : HeapCell) (j : ℕ)
    → is_free c ≡ false
    → is_hole (cs ++ c ∷ []) j ≡ is_hole cs j
is_hole-push [] c zero f = f
is_hole-push [] c (suc j) f = refl
is_hole-push (d ∷ cs) c zero f = refl
is_hole-push (d ∷ cs) c (suc j) f = is_hole-push cs c j f

-- A hole is a slot of the arena.
pub lt_of_hole : (cs : List HeapCell) (i : ℕ) → is_hole cs i ≡ true → i < length cs
lt_of_hole [] i e = cc
lt_of_hole (c ∷ cs) zero e = omega arith
lt_of_hole (c ∷ cs) (suc i) e = omega (arith, lt_of_hole cs i e)
