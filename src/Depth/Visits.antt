-- ===== src/Depth/Visits.antt =====
-- Visiting an instruction keeps what holds of the worklist, and uses something up.
use brasa.Prelude.{
  ℕ, ap, zero, suc, ◌+◌, ◌*◌, ◌≤◌, ◌≡◌, ◌⊎◌, inl, inr, refl, sym, subst, ◌∙◌, Option, some, none,
  eq_of_some, List, [], ◌∷◌, length, get_elem?, set, Elem, head, tail, arith,
}
use brasa.Prelude.Int.{ℤ}
use brasa.Bytecode.{Op, CodeIx}
use brasa.Depth.{
  StructShape, apply, transition, Pass, push_work, push_branch, push_fall, Successors,
}
use brasa.Depth.Paths
use brasa.Depth.Paths.{Next, by_fall, by_branch, Reach, follow, Fits, apply-exact}

pub Elem-cons : {A : Type 0} {a x : A} {xs : List A} → Elem a (x ∷ xs) → (a ≡ x) ⊎ Elem a xs
Elem-cons head = inl refl
Elem-cons (tail h) = inr h

-- The instructions without a depth.
abbrev pub fresh : List (Option ℕ) → ℕ
fresh [] = 0
fresh (none ∷ ds) = suc (fresh ds)
fresh (some d ∷ ds) = fresh ds

pub fresh-set :
    (ds : List (Option ℕ)) (ix d : ℕ)
    → get_elem? ds ix ≡ some none
    → suc (fresh (set ds ix (some d))) ≡ fresh ds
fresh-set [] ix d e = cc
fresh-set (none ∷ ds) zero d e = refl
fresh-set (some x ∷ ds) zero d e = cc
fresh-set (none ∷ ds) (suc ix) d e = ap suc (fresh-set ds ix d e)
fresh-set (some x ∷ ds) (suc ix) d e = fresh-set ds ix d e

pub fresh-length : (ds : List (Option ℕ)) → fresh ds ≤ length ds
fresh-length [] = omega arith
fresh-length (none ∷ ds) = omega (arith, fresh-length ds)
fresh-length (some d ∷ ds) = omega (arith, fresh-length ds)

module _ (structs : List StructShape) (code : List Op) (Catches : CodeIx → CodeIx → Type 0)
    (depth_at : CodeIx → ℕ) (fits : Fits structs code Catches depth_at) where
  abbrev Runs : CodeIx → Type 0
  Runs = Reach structs code Catches

  abbrev Done : Pass → CodeIx → Type 0
  Done = Paths.Done structs code Catches depth_at

  abbrev Sound : Pass → Type 0
  Sound = Paths.Sound structs code Catches depth_at

  abbrev Closed : Pass → Type 0
  Closed = Paths.Closed structs code Catches depth_at

  abbrev Carries : Pass → Pass → Type 0
  Carries = Paths.Carries structs code Catches depth_at

  abbrev pub measure : Pass → ℕ
  measure p = 2 * fresh p.depths + length p.work

  -- The same pass with more work, where the instruction is done.
  abbrev Pushed : Pass → Pass → Type 0
  Pushed p q = Sound q × Carries p q × (q.depths ≡ p.depths) × (length q.work ≤ suc (length p.work))

  module _ (ix : CodeIx) (runs : Runs ix) where
    Next-apply :
        (d t : ℕ) (delta : ℤ)
        → d ≡ depth_at ix
        → Next structs code ix delta t
        → apply d delta ≡ depth_at t
    Next-apply d t delta e next =
        ap (λ k. apply k delta) e
        ∙ apply-exact (depth_at ix) (depth_at t) delta (fits.along ix delta t runs next)
            (fits.bounded t)

    push-Pushed :
        (d t : ℕ) (delta : ℤ) (p : Pass)
        → d ≡ depth_at ix
        → Next structs code ix delta t
        → Sound p
        → Pushed p (push_work t (apply d delta) p) × Done (push_work t (apply d delta) p) t
    unfolding push_work
    push-Pushed d t delta p e next sound =
        let same = Next-apply d t delta e next in
        (
          (
            Paths.push_work-Sound structs code Catches depth_at t (apply d delta) p
                (follow runs next) same sound,
            Paths.push_work-Carries structs code Catches depth_at t (apply d delta) p,
            refl,
            omega arith,
          ),
          Paths.push_work-Done structs code Catches depth_at t (apply d delta) p same,
        )

    push_branch-Pushed :
        (d : ℕ) (branch : Option (CodeIx × ℤ)) (p : Pass)
        → d ≡ depth_at ix
        → ((t : CodeIx) (delta : ℤ) → branch ≡ some (t, delta) → Next structs code ix delta t)
        → Sound p
        → Pushed p (push_branch d branch p)
          × ((t : CodeIx) (delta : ℤ) → branch ≡ some (t, delta) → Done (push_branch d branch p) t)
    unfolding push_branch
    push_branch-Pushed d none p e next sound =
        ((sound, (λ t h. h), refl, omega arith), λ t delta b. cc)
    push_branch-Pushed d (some (target, delta)) p e next sound =
        let (pushed, done) = push-Pushed d target delta p e (next target delta refl) sound in
        (
          pushed,
          λ t delta' b.
              subst (Done (push_work target (apply d delta) p)) (ap (λ x. x.0) (eq_of_some b)) done,
        )

    push_fall-Pushed :
        (d : ℕ) (fall : Option ℤ) (p : Pass)
        → d ≡ depth_at ix
        → ((delta : ℤ) → fall ≡ some delta → Next structs code ix delta (ix + 1))
        → Sound p
        → Pushed p (push_fall ix d fall p)
          × ((delta : ℤ) → fall ≡ some delta → Done (push_fall ix d fall p) (ix + 1))
    unfolding push_fall
    push_fall-Pushed d none p e next sound = ((sound, (λ t h. h), refl, omega arith), λ delta b. cc)
    push_fall-Pushed d (some delta) p e next sound =
        let (pushed, done) = push-Pushed d (ix + 1) delta p e (next delta refl) sound in
        (pushed, λ delta' b. done)

    -- What a visit adds behind the instruction, where `q` knows what `p` does and the instruction.
    pub expand-Closed :
        (d : ℕ) (op : Op) (fall : Option ℤ) (branch : Option (CodeIx × ℤ)) (p q : Pass)
        → d ≡ depth_at ix
        → get_elem? code ix ≡ some op
        → transition structs op ≡ some (fall, branch)
        → Closed p
        → Carries p q
        → Sound q
        → ((i e : ℕ)
            → get_elem? q.depths i ≡ some (some e)
            → (i ≡ ix) ⊎ (get_elem? p.depths i ≡ some (some e)))
        → let r = push_fall ix d fall (push_branch d branch q) in
          Sound r
          × Closed r
          × Carries p r
          × (r.depths ≡ q.depths)
          × (length r.work ≤ 2 + length q.work)
    expand-Closed d op fall branch p q e at_ix step closed carries sound split =
        let b =
          push_branch-Pushed d branch q e
            (λ t delta w.
              by_branch at_ix (subst (λ x. transition structs op ≡ some (fall, x)) w step))
            sound in
        let f =
          push_fall-Pushed d fall (push_branch d branch q) e
            (λ delta w.
              by_fall at_ix (subst (λ x. transition structs op ≡ some (x, branch)) w step))
            b.0.0 in
        let all : Carries p (push_fall ix d fall (push_branch d branch q)) =
          λ t h. f.0.1 t (b.0.1 t (carries t h)) in
        let kept = f.0.2 ∙ b.0.2 in
        (f.0.0, after kept all b.1 f.1 f.0.1, all, kept, omega (arith, f.0.3, b.0.3))
      where
        same_op :
            (op' : Op) (s : Successors)
            → get_elem? code ix ≡ some op'
            → transition structs op' ≡ some s
            → s ≡ (fall, branch)
        same_op op' s at' step' =
            let ops : op' ≡ op = eq_of_some (sym at' ∙ at_ix) in
            eq_of_some (sym step' ∙ (ap (transition structs) ops ∙ step))

        behind :
            ((t : CodeIx) (delta : ℤ) → branch ≡ some (t, delta) → Done (push_branch d branch q) t)
            → ((delta : ℤ)
                → fall ≡ some delta
                → Done (push_fall ix d fall (push_branch d branch q)) (ix + 1))
            → Carries (push_branch d branch q) (push_fall ix d fall (push_branch d branch q))
            → (delta : ℤ) (t : CodeIx) → Next structs code ix delta t
            → Done (push_fall ix d fall (push_branch d branch q)) t
        behind bs fs on delta t (by_fall {op = op'} {branch = branch'} at' step') =
            fs delta (sym (ap (λ x. x.0) (same_op op' (some delta, branch') at' step')))
        behind bs fs on delta t (by_branch {op = op'} {fall = fall'} at' step') =
            on t (bs t delta (sym (ap (λ x. x.1) (same_op op' (fall', some (t, delta)) at' step'))))

        after :
            (push_fall ix d fall (push_branch d branch q)).depths ≡ q.depths
            → Carries p (push_fall ix d fall (push_branch d branch q))
            → ((t : CodeIx) (delta : ℤ)
                → branch ≡ some (t, delta)
                → Done (push_branch d branch q) t)
            → ((delta : ℤ)
                → fall ≡ some delta
                → Done (push_fall ix d fall (push_branch d branch q)) (ix + 1))
            → Carries (push_branch d branch q) (push_fall ix d fall (push_branch d branch q))
            → Closed (push_fall ix d fall (push_branch d branch q))
        after kept all bs fs on i known_d known delta t next =
            elim (split i known_d (subst (λ ds. get_elem? ds i ≡ some (some known_d)) kept known)) [
              | inl here ↦
                  behind bs fs on delta t (subst (λ i. Next structs code i delta t) here next)
              | inr there ↦ all t (closed i known_d there delta t next)
            ]
