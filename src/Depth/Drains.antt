-- ===== src/Depth/Drains.antt =====
-- The inner loop of the depth pass ends with no work left, and every instruction done that was.
use brasa.Prelude.{
  ℕ, ap, zero, suc, ◌≤◌, ◌<◌, ◌≡◌, ◌⊎◌, inl, inr, refl, sym, subst, ◌∙◌, Option, some, none, ◌>>=◌,
  eq_of_some, List, [], ◌∷◌, length, get_elem?, set, length-set, get_elem?-set_self,
  get_elem?-set_ne, All, Elem, max, arith, ℕ_discrete, get_elem?_of_lt, lt_of_get_elem?,
}
use brasa.Bytecode.{Op, CodeIx}
use brasa.Depth.{StructShape, transition, Pass, push_branch, push_fall, visit, drain, Successors}
use brasa.Depth.Paths
use brasa.Depth.Paths.{Reach, Fits}
use brasa.Depth.Visits
use brasa.Depth.Visits.{Elem-cons, fresh, fresh-set}

pub lt_of_none : (code : List Op) (ix : ℕ) → get_elem? code ix ≡ none → length code ≤ ix
lt_of_none [] ix e = omega arith
lt_of_none (op ∷ code) zero e = cc
lt_of_none (op ∷ code) (suc ix) e = omega (arith, lt_of_none code ix e)

module _ (structs : List StructShape) (code : List Op) (Catches : CodeIx → CodeIx → Type 0)
    (depth_at : CodeIx → ℕ) (fits : Fits structs code Catches depth_at)
    (shapes : (ix : CodeIx) (op : Op)
      → get_elem? code ix ≡ some op
      → (s : Successors) × (transition structs op ≡ some s)) where
  abbrev Runs : CodeIx → Type 0
  Runs = Reach structs code Catches

  abbrev Done : Pass → CodeIx → Type 0
  Done = Paths.Done structs code Catches depth_at

  abbrev pub Sound : Pass → Type 0
  Sound = Paths.Sound structs code Catches depth_at

  abbrev pub Closed : Pass → Type 0
  Closed = Paths.Closed structs code Catches depth_at

  abbrev pub Carries : Pass → Pass → Type 0
  Carries = Paths.Carries structs code Catches depth_at

  abbrev measure : Pass → ℕ
  measure = Visits.measure structs code Catches depth_at fits

  abbrev Visited : Pass → Pass → Type 0
  Visited p q = Sound q × Closed q × Carries p q × (measure q < measure p)

  -- An instruction with its depth in front of the work.
  module _ (ix d : ℕ) (p : Pass) (rest : List (CodeIx × ℕ)) (front : p.work ≡ (ix, d) ∷ rest)
      (sound : Sound p) (closed : Closed p) where
    abbrev popped : Pass
    popped = record p { work = rest }

    abbrev marked : Pass
    marked = record popped { depths = set p.depths ix (some d); max = max p.max d }

    first : Runs ix × (d ≡ depth_at ix)
    first = (subst (All (λ item. Runs item.0 × (item.1 ≡ depth_at item.0))) front sound.waiting).0

    others : All (λ item. Runs item.0 × (item.1 ≡ depth_at item.0)) rest
    others = (subst (All (λ item. Runs item.0 × (item.1 ≡ depth_at item.0))) front sound.waiting).1

    -- An instruction that needs no visit.
    popped-Visited :
        ((length code ≤ ix) ⊎ (get_elem? p.depths ix ≡ some (some (depth_at ix))))
        → Visited p popped
    popped-Visited settled = (
      record { sized = sound.sized; known = sound.known; waiting = others },
      (λ i e k delta t n. carries t (closed i e k delta t n)),
      carries,
      omega (arith, ap length front),
    )
      where
        carries : Carries p popped
        carries t (low, inl out) = (low, inl out)
        carries t (low, inr (inl known)) = (low, inr (inl known))
        carries t (low, inr (inr waits)) =
            elim (Elem-cons (subst (Elem (t, depth_at t)) front waits)) [
              | inr later ↦ (low, inr (inr later))
              | inl now ↦ (
                low,
                subst
                    (λ i.
                      (length code ≤ i)
                      ⊎ ((get_elem? p.depths i ≡ some (some (depth_at i)))
                          ⊎ Elem (i, depth_at i) rest))
                    (sym (ap (λ x. x.0) now))
                    (elim settled [ inl out ↦ inl out | inr known ↦ inr (inl known) ]),
              )
            ]

    module _ (unknown : get_elem? p.depths ix ≡ some none) where
      at_ix : get_elem? marked.depths ix ≡ some (some d)
      at_ix = get_elem?-set_self p.depths ix (some d) (lt_of_get_elem? p.depths ix unknown)

      -- What is known behind a mark is the marked one or was known.
      split :
          (i e : ℕ)
          → get_elem? marked.depths i ≡ some (some e)
          → (i ≡ ix) ⊎ (get_elem? p.depths i ≡ some (some e))
      split i e k = elim (ℕ_discrete ix i) [
        | yes same ↦ inl (sym same)
        | no other ↦ inr (sym (get_elem?-set_ne p.depths (some d) other) ∙ k)
      ]

      marked-known :
          (i e : ℕ) → get_elem? marked.depths i ≡ some (some e) → Runs i × (e ≡ depth_at i)
      marked-known i e k = elim (split i e k) [
        | inr before ↦ sound.known i e before
        | inl here ↦
            let same : e ≡ d =
              eq_of_some (eq_of_some (sym k ∙ (ap (get_elem? marked.depths) here ∙ at_ix))) in
            (subst Runs (sym here) first.0, same ∙ (first.1 ∙ ap depth_at (sym here)))
      ]

      marked-Sound : Sound marked
      marked-Sound = record {
        sized = length-set p.depths ix (some d) ∙ sound.sized;
        known = marked-known;
        waiting = others;
      }

      marked-Carries : Carries p marked
      marked-Carries t (low, inl out) = (omega arith, inl out)
      marked-Carries t (low, inr (inl known)) = (
        omega arith,
        inr (
            inl (elim (ℕ_discrete ix t) [
              | yes same ↦ cc
              | no other ↦ get_elem?-set_ne p.depths (some d) other ∙ known
            ])),
      )
      marked-Carries t (low, inr (inr waits)) =
          elim (Elem-cons (subst (Elem (t, depth_at t)) front waits)) [
            | inr later ↦ (omega arith, inr (inr later))
            | inl now ↦
                let same : t ≡ ix = ap (λ x. x.0) now in
                let depth : depth_at t ≡ d = ap (λ x. x.1) now in
                (
                  omega arith,
                  inr (
                      inl (
                        ap (get_elem? marked.depths) same
                        ∙ (at_ix ∙ ap (λ k. some (some k)) (sym depth)))),
                )
          ]

    unfoldable expanded : Successors → Pass
    expanded (fall, branch) = push_fall ix d fall (push_branch d branch marked)

    expanded-Visited :
        (op : Op) (s : Successors)
        → get_elem? p.depths ix ≡ some none
        → get_elem? code ix ≡ some op
        → transition structs op ≡ some s
        → Visited p (expanded s)
    unfolding expanded
    expanded-Visited op (fall, branch) unknown at_op step =
        let (s, c, carries, kept, more) =
          Visits.expand-Closed structs code Catches depth_at fits ix first.0 d op fall branch p
            marked first.1 at_op step closed (marked-Carries unknown) (marked-Sound unknown)
            (split unknown) in
        (
          s,
          c,
          carries,
          omega (arith, ap fresh kept, more, fresh-set p.depths ix d unknown, ap length front),
        )

    visit-Visited : (q : Pass) × (visit structs code ix d popped ≡ some q) × Visited p q
    unfolding visit expanded
    visit-Visited = on_code (get_elem? code ix) refl
      where
        on_depth :
            (op : Op) (f : Option (Option ℕ))
            → get_elem? code ix ≡ some op
            → get_elem? p.depths ix ≡ f
            → (q : Pass) × ((elim f [
              | none ↦ none
              | some found ↦ elim found [
                | some existing ↦ some popped
                | none ↦ (transition structs op >>= λ s. some (expanded s))
              ]
            ])
                ≡ some q)
              × Visited p q
        on_depth op none at_op k =
            let (v, there) =
              get_elem?_of_lt p.depths ix
                (omega (arith, lt_of_get_elem? code ix at_op, sound.sized)) in
            cc
        on_depth op (some (some e)) at_op k = (
          popped,
          refl,
          popped-Visited (inr (k ∙ ap (λ x. some (some x)) (sound.known ix e k).1)),
        )
        on_depth op (some none) at_op k =
            let (s, step) = shapes ix op at_op in
            (
              expanded s,
              ap (λ o. o >>= λ s. some (expanded s)) step,
              expanded-Visited op s k at_op step,
            )

        on_code :
            (c : Option Op)
            → get_elem? code ix ≡ c
            → (q : Pass) × ((elim c [
              | none ↦ some popped
              | some op ↦ elim (get_elem? p.depths ix) [
                | none ↦ none
                | some found ↦ elim found [
                  | some existing ↦ some popped
                  | none ↦ (transition structs op >>= λ s. some (expanded s))
                ]
              ]
            ])
                ≡ some q)
              × Visited p q
        on_code none e = (popped, refl, popped-Visited (inl (lt_of_none code ix e)))
        on_code (some op) e = on_depth op (get_elem? p.depths ix) e refl

  -- On enough fuel, the inner loop leaves no work, and done what was.
  pub drain-Carries :
      (fuel : ℕ) (p : Pass)
      → Sound p
      → Closed p
      → measure p < fuel
      → (q : Pass) × (drain fuel structs code p ≡ some q)
        × Sound q
        × Closed q
        × Carries p q
        × (q.work ≡ [])
  unfolding drain
  drain-Carries zero p sound closed enough = absurd (omega arith)
  drain-Carries (suc fuel) p sound closed enough =
      on_work p.work refl (λ q s c less. drain-Carries fuel q s c less)
    where
      Result : Pass → Option Pass → Type 0
      Result p o = (q : Pass) × (o ≡ some q) × Sound q × Closed q × Carries p q × (q.work ≡ [])

      on_work :
          (work : List (CodeIx × ℕ))
          → p.work ≡ work
          → ((q : Pass)
              → Sound q
              → Closed q
              → measure q < fuel
              → Result q (drain fuel structs code q))
          → Result p (elim work [
            | [] ↦ some p
            | item ∷ rest ↦
                visit structs code item.0 item.1 (record p { work = rest })
                >>= drain fuel structs code
          ])
      on_work [] e later = (p, refl, sound, closed, (λ t h. h), e)
      on_work ((ix, d) ∷ rest) e later =
          let (q, step, (s, c, carries, less)) = visit-Visited ix d p rest e sound closed in
          let (r, ends, s', c', carries', empty) = later q s c (omega arith) in
          (
            r,
            ap (λ o. o >>= drain fuel structs code) step ∙ ends,
            s',
            c',
            (λ t h. carries' t (carries t h)),
            empty,
          )
