-- ===== src/Depth/Seeds.antt =====
-- Seeding the handlers whose first instruction has its depth.
use brasa.Prelude.{
  ℕ, ap, suc, ◌+◌, ◌-◌, ◌%◌, ◌^◌, ◌≤◌, ◌<◌, ◌≡◌, refl, subst, ◌∙◌, Bool, true, false, ◌||◌, Option,
  some, none, ◌>>=◌, List, [], ◌∷◌, length, get_elem?, All, All-imp, min, if◌then◌else◌, arith,
  get_elem?_of_lt,
}
use brasa.Bytecode.{Op, CodeIx, Handler}
use brasa.Depth.{StructShape, Pass, push_work, Seeded, seed_one, seed}
use brasa.Depth.Paths
use brasa.Depth.Paths.{Reach, caught, Fits}

-- The handlers that are not seeded.
abbrev pub pending : List Seeded → ℕ
pending [] = 0
pending ((h, true) ∷ hs) = pending hs
pending ((h, false) ∷ hs) = suc (pending hs)

-- A handler apart from its depth.
abbrev pub place : Handler → Handler
place h = record h { depth = 0 }

abbrev pub places : List Seeded → List Handler
places [] = []
places (h ∷ hs) = place h.0 ∷ places hs

pending-cons : (h : Seeded) (hs : List Seeded) → pending (h ∷ hs) ≡ pending (h ∷ []) + pending hs
pending-cons (h, true) hs = omega arith
pending-cons (h, false) hs = omega arith

either : (a b : Bool) → (if a || b then 1 else 0) ≤ (if a then 1 else 0) + (if b then 1 else 0)
either true b = ground arith
either false b = ground arith

neither : (a b : Bool) → (a || b) ≡ false → (a ≡ false) × (b ≡ false)
neither true b e = cc
neither false b e = (refl, e)

module _ (structs : List StructShape) (code : List Op) (Catches : CodeIx → CodeIx → Type 0)
    (depth_at : CodeIx → ℕ) (fits : Fits structs code Catches depth_at) where
  abbrev Done : Pass → CodeIx → Type 0
  Done = Paths.Done structs code Catches depth_at

  abbrev Sound : Pass → Type 0
  Sound = Paths.Sound structs code Catches depth_at

  abbrev Closed : Pass → Type 0
  Closed = Paths.Closed structs code Catches depth_at

  abbrev Carries : Pass → Pass → Type 0
  Carries = Paths.Carries structs code Catches depth_at

  -- A handler that is seeded has its depth, and its target is done.
  abbrev pub HeldOne : Pass → Seeded → Type 0
  HeldOne p (h, seeded) =
      Catches h.start h.target
      × (h.start < length code)
      × (seeded ≡ true → (h.depth ≡ min (depth_at h.start) (2 ^ 16 - 1)) × Done p h.target)

  abbrev pub QuietOne : Pass → Seeded → Type 0
  QuietOne p (h, seeded) = seeded ≡ false → get_elem? p.depths h.start ≡ some none

  pub HeldOne-Carries :
      (p q : Pass) → Carries p q → (hs : List Seeded) → All (HeldOne p) hs → All (HeldOne q) hs
  HeldOne-Carries p q carries hs held =
      All-imp hs
        (λ (h, seeded) (c, inside, ok). (c, inside, λ e. ((ok e).0, carries h.target (ok e).1)))
        held

  -- Seeding keeps what is known of the pass, and its depths.
  abbrev Kept : Pass → Pass → Type 0
  Kept p q = Sound q × Carries p q × (q.depths ≡ p.depths)

  abbrev SeedsOne : Pass → Seeded → Option (Seeded × Pass × Bool) → Type 0
  SeedsOne p h o =
      (h' : Seeded) × (q : Pass) × (here : Bool) × (o ≡ some (h', q, here))
      × Kept p q
      × HeldOne q h'
      × (place h'.0 ≡ place h.0)
      × (pending (h' ∷ []) + (if here then 1 else 0) ≤ pending (h ∷ []))
      × (here ≡ false → (q ≡ p) × QuietOne p h')

  seed_one-Held : (h : Seeded) (p : Pass) → Sound p → HeldOne p h → SeedsOne p h (seed_one h p)
  unfolding seed_one push_work
  seed_one-Held (h, true) p sound held = (
    (h, true),
    p,
    false,
    refl,
    (sound, (λ t d. d), refl),
    held,
    refl,
    omega arith,
    λ e. (refl, λ f. cc),
  )
  seed_one-Held (h, false) p sound (catches, inside, ok) =
      on_depth (get_elem? p.depths h.start) refl
    where
      on_depth :
          (f : Option (Option ℕ))
          → get_elem? p.depths h.start ≡ f
          → SeedsOne p
              (h, false)
              (elim f [
                | none ↦ none
                | some found ↦ elim found [
                  | none ↦ some ((h, false), p, false)
                  | some depth ↦ some (
                    (record h { depth = min depth (2 ^ 16 - 1) }, true),
                    push_work h.target ((depth + 1) % 2 ^ 32) p,
                    true,
                  )
                ]
              ])
      on_depth none k =
          let (v, there) = get_elem?_of_lt p.depths h.start (omega (arith, sound.sized)) in cc
      on_depth (some none) k = (
        (h, false),
        p,
        false,
        refl,
        (sound, (λ t d. d), refl),
        (catches, inside, ok),
        refl,
        omega arith,
        λ e. (refl, λ f. k),
      )
      on_depth (some (some depth)) k =
          let (runs, exact) = sound.known h.start depth k in
          let up = fits.at_handler h.start h.target runs catches in
          let next : (depth + 1) % 2 ^ 32 ≡ depth_at h.target =
            omega (arith, exact, up, fits.bounded h.target) in
          let kept =
            Paths.push_work-Sound structs code Catches depth_at h.target ((depth + 1) % 2 ^ 32) p
              (caught runs catches) next sound in
          let carries =
            Paths.push_work-Carries structs code Catches depth_at h.target ((depth + 1) % 2 ^ 32)
              p in
          let done =
            Paths.push_work-Done structs code Catches depth_at h.target ((depth + 1) % 2 ^ 32) p
              next in
          (
            (record h { depth = min depth (2 ^ 16 - 1) }, true),
            push_work h.target ((depth + 1) % 2 ^ 32) p,
            true,
            refl,
            (kept, carries, refl),
            (catches, inside, λ e. (ap (λ d. min d (2 ^ 16 - 1)) exact, done)),
            refl,
            omega arith,
            λ e. cc,
          )

  pub seed-Held :
      (hs : List Seeded) (p : Pass)
      → Sound p
      → All (HeldOne p) hs
      → (hs' : List Seeded) × (q : Pass) × (progressed : Bool) × (seed hs p
          ≡ some (hs', q, progressed))
        × Kept p q
        × All (HeldOne q) hs'
        × (places hs' ≡ places hs)
        × (pending hs' + (if progressed then 1 else 0) ≤ pending hs)
        × (progressed ≡ false → (q ≡ p) × All (QuietOne p) hs')
  unfolding seed
  seed-Held [] p sound held =
      ([], p, false, refl, (sound, (λ t d. d), refl), tt, refl, omega arith, λ e. (refl, tt))
  seed-Held (h ∷ hs) p sound (one, held) =
      let (h', p1, here, e1, (s1, c1, d1), one', place1, fewer1, quiet1) =
        seed_one-Held h p sound one in
      let (hs', p2, later, e2, (s2, c2, d2), held', places2, fewer2, quiet2) =
        seed-Held hs p1 s1 (HeldOne-Carries p p1 c1 hs held) in
      (
        h' ∷ hs',
        p2,
        here || later,
        ap (λ o. o >>= λ x. seed hs x.1 >>= λ y. some (x.0 ∷ y.0, y.1, x.2 || y.2)) e1
            ∙ ap (λ o. o >>= λ y. some (h' ∷ y.0, y.1, here || y.2)) e2,
        (s2, (λ t d. c2 t (c1 t d)), d2 ∙ d1),
        ((HeldOne-Carries p1 p2 c2 (h' ∷ []) (one', tt)).0, held'),
        cc,
        omega (arith, pending-cons h hs, pending-cons h' hs', either here later, fewer1, fewer2),
        λ e.
            let (here_not, later_not) = neither here later e in
            let (same1, quiet_one) = quiet1 here_not in
            let (same2, quiet_rest) = quiet2 later_not in
            (same2 ∙ same1, (quiet_one, subst (λ p. All (QuietOne p) hs') same1 quiet_rest)),
      )
