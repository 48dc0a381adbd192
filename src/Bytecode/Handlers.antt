-- ===== src/Bytecode/Handlers.antt =====
-- The handler table: a lookup takes the first entry that covers the faulting instruction, and where
-- inner entries come before the ones around them that is the innermost one.
use brasa.Prelude.{
  ◌≤◌, ◌<◌, ◌≡◌, List, [], ◌∷◌, true, false, Option, none, some, arith, Bool-cases, inl, inr, Elem,
  head, tail, All, All-Elem, ◌⊎◌,
}
use brasa.Bytecode.{CodeIx, Handler, Chunk, covers, first_covering, handler_for}

abbrev pub Covers : Handler → CodeIx → Type 0
Covers h ix = (h.start ≤ ix) × (ix < h.end)

pub covers_iff :
    (h : Handler) (ix : CodeIx)
    → (covers h ix ≡ true → Covers h ix) × (Covers h ix → covers h ix ≡ true)
unfolding covers
covers_iff h ix = (λ e. (ground arith, ground arith), λ c. ground (arith, c.0, c.1))

-- `g` is around `h`, or the two have no instruction in common.
abbrev pub IsAround : Handler → Handler → Type 0
IsAround h g = ((g.start ≤ h.start) × (h.end ≤ g.end)) ⊎ ((h.end ≤ g.start) ⊎ (g.end ≤ h.start))

-- Innermost first: whatever follows an entry is around it or apart from it.
abbrev pub IsNested : List Handler → Type 0
IsNested [] = Unit
IsNested (h ∷ hs) = All (IsAround h) hs × IsNested hs

-- The lookup finds `h`, which covers `ix` and lies within every entry that covers `ix`.
abbrev pub IsInnermost : List Handler → CodeIx → Handler → Type 0
IsInnermost hs ix h =
    Elem h hs
    × Covers h ix
    × ((g : Handler) → Elem g hs → Covers g ix → (g.start ≤ h.start) × (h.end ≤ g.end))

around :
    (h g : Handler) (ix : CodeIx)
    → IsAround h g
    → Covers h ix
    → Covers g ix
    → (g.start ≤ h.start) × (h.end ≤ g.end)
around h g ix a c d = elim a [
  | inl w ↦ w
  | inr (inl x) ↦ absurd (omega (arith, x, c.0, c.1, d.0, d.1))
  | inr (inr x) ↦ absurd (omega (arith, x, c.0, c.1, d.0, d.1))
]

within :
    (h : Handler) (hs : List Handler) (ix : CodeIx)
    → All (IsAround h) hs
    → Covers h ix
    → (g : Handler) → Elem g (h ∷ hs)
    → Covers g ix
    → (g.start ≤ h.start) × (h.end ≤ g.end)
within h hs ix a c g head d = (omega arith, omega arith)
within h hs ix a c g (tail e) d = around h g ix (All-Elem (IsAround h) e a) c d

-- What a lookup of `ix` has to answer.
abbrev pub Finds : List Handler → CodeIx → Option Handler → Type 0
Finds hs ix none = (g : Handler) → Elem g hs → ¬ Covers g ix
Finds hs ix (some h) = IsInnermost hs ix h

-- An entry that does not cover `ix` makes no difference.
behind :
    (g : Handler) (hs : List Handler) (ix : CodeIx)
    → covers g ix ≡ false
    → (k : Handler) → Elem k (g ∷ hs)
    → Covers k ix
    → Elem k hs
behind g hs ix f k head d = let t = (covers_iff g ix).1 d in cc
behind g hs ix f k (tail e) d = e

skip :
    (g : Handler) (hs : List Handler) (ix : CodeIx)
    → covers g ix ≡ false
    → (o : Option Handler) → Finds hs ix o
    → Finds (g ∷ hs) ix o
skip g hs ix f none absent = λ k e d. absent k (behind g hs ix f k e d) d
skip g hs ix f (some h) (m, c, w) = (tail m, c, λ k e d. w k (behind g hs ix f k e d) d)

first_covering-Finds :
    (ix : CodeIx) (hs : List Handler) → IsNested hs → Finds hs ix (first_covering ix hs)
unfolding first_covering
first_covering-Finds ix [] n = λ g e. elim e [ ]
first_covering-Finds ix (g ∷ hs) n = elim (Bool-cases (covers g ix)) [
  | inl t ↦ rw t (head, (covers_iff g ix).0 t, within g hs ix n.0 ((covers_iff g ix).0 t))
  | inr f ↦ rw f (skip g hs ix f (first_covering ix hs) (first_covering-Finds ix hs n.1))
]

-- Where the table lists inner entries before the ones around them, `handler_for` answers the
-- innermost entry that covers the instruction, and `none` only if no entry covers it.
pub handler_for-Finds :
    (c : Chunk) (ix : CodeIx) → IsNested c.handlers → Finds c.handlers ix (handler_for c ix)
unfolding handler_for
handler_for-Finds c ix n = first_covering-Finds ix c.handlers n
