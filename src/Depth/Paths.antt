-- ===== src/Depth/Paths.antt =====
-- The instructions that can run and the depths that a generator gives them, without the worklist; and
-- what holds of the worklist while it runs.
use brasa.Prelude.{
  ℕ, ap, ◌+◌, ◌^◌, ◌≤◌, ◌<◌, ◌≡◌, ◌⊎◌, inl, inr, sym, subst, Option, some, List, ◌∷◌, length,
  get_elem?, All, Elem, head, tail, arith,
}
use brasa.Prelude.Int.{ℤ, pos, pos_part, ◌+ℤ◌}
use brasa.Bytecode.{Op, CodeIx}
use brasa.Depth.{StructShape, apply, transition, Pass, push_work}

-- One instruction behind another, with the change of depth.
pub data Next (structs : List StructShape) (code : List Op) (ix : CodeIx)
    : ℤ → CodeIx → Type 0 where
  by_fall :
      {op : Op} {delta : ℤ} {branch : Option (CodeIx × ℤ)}
      → get_elem? code ix ≡ some op
      → transition structs op ≡ some (some delta, branch)
      → Next structs code ix delta (ix + 1)
  by_branch :
      {op : Op} {delta : ℤ} {fall : Option ℤ} {target : CodeIx}
      → get_elem? code ix ≡ some op
      → transition structs op ≡ some (fall, some (target, delta))
      → Next structs code ix delta target

-- The instructions that can run: the first, those behind one that can run, and the target of a handler
-- whose first covered instruction can run.
pub data Reach (structs : List StructShape) (code : List Op) (Catches : CodeIx → CodeIx → Type 0)
    : CodeIx → Type 0 where
  entry : Reach structs code Catches 0
  follow :
      {ix : CodeIx} {delta : ℤ} {target : CodeIx}
      → Reach structs code Catches ix
      → Next structs code ix delta target
      → Reach structs code Catches target
  caught :
      {ix target : CodeIx}
      → Reach structs code Catches ix
      → Catches ix target
      → Reach structs code Catches target

-- Depths that fit: nothing at the start, changed as each instruction that can run says, one more at the
-- target of a handler than at its start, and of 32 bits.
pub record Fits (structs : List StructShape) (code : List Op) (Catches : CodeIx → CodeIx → Type 0)
    (depth_at : CodeIx → ℕ) : Type 0 where
  pub at_entry : depth_at 0 ≡ 0
  pub along :
      (ix : CodeIx) (delta : ℤ) (target : CodeIx)
      → Reach structs code Catches ix
      → Next structs code ix delta target
      → pos (depth_at ix) +ℤ delta ≡ pos (depth_at target)
  pub at_handler :
      (ix target : CodeIx)
      → Reach structs code Catches ix
      → Catches ix target
      → depth_at target ≡ depth_at ix + 1
  pub bounded : (ix : CodeIx) → depth_at ix < 2 ^ 32

pub apply-exact : (d e : ℕ) (delta : ℤ) → pos d +ℤ delta ≡ pos e → e < 2 ^ 32 → apply d delta ≡ e
unfolding apply
apply-exact d e delta same small = ground (arith, ap pos_part same)

module _ (structs : List StructShape) (code : List Op) (Catches : CodeIx → CodeIx → Type 0)
    (depth_at : CodeIx → ℕ) where
  abbrev Runs : CodeIx → Type 0
  Runs = Reach structs code Catches

  -- An instruction that is out of range, has its depth or waits for it.
  abbrev pub Done : Pass → CodeIx → Type 0
  Done p t =
      (depth_at t ≤ p.max)
      × ((length code ≤ t)
          ⊎ ((get_elem? p.depths t ≡ some (some (depth_at t))) ⊎ Elem (t, depth_at t) p.work))

  -- The depths that are known and those that wait are those of instructions that can run.
  pub record Sound (p : Pass) : Type 0 where
    pub sized : length p.depths ≡ length code
    pub known : (ix d : ℕ) → get_elem? p.depths ix ≡ some (some d) → Runs ix × (d ≡ depth_at ix)
    pub waiting : All (λ item. Runs item.0 × (item.1 ≡ depth_at item.0)) p.work

  -- What follows an instruction with a depth is done.
  abbrev pub Closed : Pass → Type 0
  Closed p =
      (ix d : ℕ)
      → get_elem? p.depths ix ≡ some (some d)
      → (delta : ℤ) (t : CodeIx) → Next structs code ix delta t
      → Done p t

  abbrev pub Carries : Pass → Pass → Type 0
  Carries p q = (t : CodeIx) → Done p t → Done q t

  pub push_work-Sound :
      (t d : ℕ) (p : Pass) → Runs t → d ≡ depth_at t → Sound p → Sound (push_work t d p)
  unfolding push_work
  push_work-Sound t d p runs e s = record {
    sized = s.sized;
    known = s.known;
    waiting = ((runs, e), s.waiting);
  }

  pub push_work-Carries : (t d : ℕ) (p : Pass) → Carries p (push_work t d p)
  unfolding push_work
  push_work-Carries t d p u (low, inl out) = (omega arith, inl out)
  push_work-Carries t d p u (low, inr (inl known)) = (omega arith, inr (inl known))
  push_work-Carries t d p u (low, inr (inr waits)) = (omega arith, inr (inr (tail waits)))

  pub push_work-Done : (t d : ℕ) (p : Pass) → d ≡ depth_at t → Done (push_work t d p) t
  unfolding push_work
  push_work-Done t d p e = (
    omega (arith, e),
    inr (inr (subst (λ x. Elem (t, depth_at t) ((t, x) ∷ p.work)) (sym e) head)),
  )
