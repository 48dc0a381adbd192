-- ===== src/Depth/Finds.antt =====
-- The depth pass ends, and its depths are those that fit the code.
use brasa.Prelude.{
  ℕ, ap, zero, suc, ◌+◌, ◌*◌, ◌-◌, ◌^◌, ◌≤◌, ◌<◌, ◌≡◌, inl, inr, refl, sym, subst, ◌∙◌, Bool, true,
  false, not, ◌&&◌, Option, some, none, ◌>>=◌, List, [], ◌∷◌, map, length, get_elem?,
  lt_of_get_elem?, All, All-Elem, Elem, head, tail, if◌then◌else◌, if-cases, leb, leb→le, arith,
  replicate, length-replicate,
}
use brasa.Bytecode.{Op, CodeIx, Handler}
use brasa.Depth.{
  StructShape, Pass, Seeded, Successors, transition, seed, is_empty, rounds, Needed, ok, err,
  start_pass, finalize,
}
use brasa.Depth.Paths
use brasa.Depth.Paths.{Reach, entry, follow, caught, Fits, by_fall, by_branch}
use brasa.Depth.Visits.{fresh-length}
use brasa.Depth.Drains
use brasa.Depth.Seeds
use brasa.Depth.Seeds.{pending, place, places}

Elem-map : {A B : Type 0} (f : A → B) {a : A} {xs : List A} → Elem a xs → Elem (f a) (map f xs)
Elem-map f head = head
Elem-map f (tail h) = tail (Elem-map f h)

Elem-places :
    {h : Handler} (hs : List Seeded)
    → Elem h (places hs)
    → (s : Seeded) × Elem s hs × (place s.0 ≡ h)
Elem-places [] m = elim m [ ]
Elem-places (s ∷ hs) head = (s, head, refl)
Elem-places (s ∷ hs) (tail m) = let (t, there, e) = Elem-places hs m in (t, tail there, e)

module _ (structs : List StructShape) (code : List Op) (Catches : CodeIx → CodeIx → Type 0)
    (depth_at : CodeIx → ℕ) (fits : Fits structs code Catches depth_at)
    (shapes : (ix : CodeIx) (op : Op)
      → get_elem? code ix ≡ some op
      → (s : Successors) × (transition structs op ≡ some s)) where
  abbrev Runs : CodeIx → Type 0
  Runs = Reach structs code Catches

  abbrev Done : Pass → CodeIx → Type 0
  Done = Paths.Done structs code Catches depth_at

  abbrev Sound : Pass → Type 0
  Sound = Paths.Sound structs code Catches depth_at

  abbrev Closed : Pass → Type 0
  Closed = Paths.Closed structs code Catches depth_at

  abbrev Held : Pass → List Seeded → Type 0
  Held p hs = All (Seeds.HeldOne structs code Catches depth_at fits p) hs

  abbrev Quiet : Pass → List Seeded → Type 0
  Quiet p hs = All (Seeds.QuietOne structs code Catches depth_at fits p) hs

  -- Where no work and no handler is left, all that can run is done.
  module _ (hs : List Seeded) (p : Pass) (empty : p.work ≡ []) (closed : Closed p)
      (held : Held p hs) (quiet : Quiet p hs)
      (covers : (s t : CodeIx)
        → Catches s t
        → (h : Seeded) × Elem h hs × (h.0.start ≡ s) × (h.0.target ≡ t)) where
    settled :
        (ix : CodeIx)
        → ix < length code
        → Done p ix
        → get_elem? p.depths ix ≡ some (some (depth_at ix))
    settled ix inside (low, inl out) = absurd (omega arith)
    settled ix inside (low, inr (inl known)) = known
    settled ix inside (low, inr (inr waits)) = elim (subst (Elem (ix, depth_at ix)) empty waits) [ ]

    caught-Done : (h : Seeded) → Elem h hs → Done p h.0.start → Done p h.0.target
    caught-Done (h, true) there done =
        let (c, inside, good) =
          All-Elem (Seeds.HeldOne structs code Catches depth_at fits p) there held in
        (good refl).1
    caught-Done (h, false) there done =
        let (c, inside, good) =
          All-Elem (Seeds.HeldOne structs code Catches depth_at fits p) there held in
        let unknown =
          (All-Elem (Seeds.QuietOne structs code Catches depth_at fits p) there quiet) refl in
        let known = settled h.start inside done in absurd cc

    follow-Done :
        (ix : CodeIx) (delta : _) (t : CodeIx)
        → Paths.Next structs code ix delta t
        → Done p ix
        → Done p t
    follow-Done ix delta t (by_fall at step) done =
        closed ix (depth_at ix) (settled ix (lt_of_get_elem? code ix at) done) delta t
          (by_fall at step)
    follow-Done ix delta t (by_branch at step) done =
        closed ix (depth_at ix) (settled ix (lt_of_get_elem? code ix at) done) delta t
          (by_branch at step)

    all-Done : Done p 0 → (t : CodeIx) → Runs t → Done p t
    all-Done first t entry = first
    all-Done first t (follow {ix = ix} {delta = delta} runs next) =
        follow-Done ix delta t next (all-Done first ix runs)
    all-Done first t (caught {ix = ix} runs c) =
        let (h, there, e, f) = covers ix t c in
        subst (Done p) f (caught-Done h there (subst (Done p) (sym e) (all-Done first ix runs)))

  -- What the outer loop gives, from the handlers `hs`.
  abbrev Ended : List Seeded → Option (List Seeded × Pass) → Type 0
  Ended hs o =
      (hs' : List Seeded) × (q : Pass) × (o ≡ some (hs', q))
      × (q.work ≡ [])
      × Sound q
      × Closed q
      × Held q hs'
      × Quiet q hs'
      × Done q 0
      × (places hs' ≡ places hs)

  -- The end of a round, where a handler was seeded or none can be.
  on_progress :
      (fuel : ℕ) (hs hs' : List Seeded) (q : Pass) (progressed : Bool)
      → Sound q
      → Closed q
      → Held q hs'
      → places hs' ≡ places hs
      → Done q 0
      → pending hs' + (if progressed then 1 else 0) ≤ fuel
      → (progressed ≡ false → (q.work ≡ []) × Quiet q hs')
      → (pending hs' < fuel → Ended hs' (rounds fuel structs code hs' q))
      → Ended hs (elim (not progressed && is_empty q.work) [
        | true ↦ some (hs', q)
        | false ↦ rounds fuel structs code hs' q
      ])
  on_progress fuel hs hs' q true sound closed held same first enough quiet later =
      let (hs2, q2, e, w, s, c, h, n, f, moved) = later (omega arith) in
      (hs2, q2, e, w, s, c, h, n, f, moved ∙ same)
  on_progress fuel hs hs' q false sound closed held same first enough quiet later =
      let (empty, all_quiet) = quiet refl in
      (
        hs',
        q,
        ap
            (λ w. elim (is_empty w) [
              | true ↦ some (hs', q)
              | false ↦ rounds fuel structs code hs' q
            ])
            empty,
        empty,
        sound,
        closed,
        held,
        all_quiet,
        first,
        same,
      )

  abbrev after_seed : ℕ → List Seeded × Pass × Bool → Option (List Seeded × Pass)
  after_seed fuel x = elim (not x.2 && is_empty x.1.work) [
    | true ↦ some (x.0, x.1)
    | false ↦ rounds fuel structs code x.0 x.1
  ]

  rounds-Ended :
      (fuel : ℕ) (hs : List Seeded) (p : Pass)
      → Sound p
      → Closed p
      → Held p hs
      → Done p 0
      → pending hs < fuel
      → Ended hs (rounds fuel structs code hs p)
  unfolding rounds
  rounds-Ended zero hs p sound closed held first enough = absurd (omega arith)
  rounds-Ended (suc fuel) hs p sound closed held first enough =
      let (p1, e1, s1, c1, carries1, empty) =
        Drains.drain-Carries structs code Catches depth_at fits shapes
          (2 * length code + length p.work + 1) p sound closed
          (omega (arith, fresh-length p.depths, sound.sized)) in
      let held1 = Seeds.HeldOne-Carries structs code Catches depth_at fits p p1 carries1 hs held in
      let (hs', p2, progressed, e2, (s2, carries2, d2), held2, places2, fewer, quiet) =
        Seeds.seed-Held structs code Catches depth_at fits hs p1 s1 held1 in
      let c2 : Closed p2 = λ i d k delta t n.
        carries2 t (c1 i d (subst (λ ds. get_elem? ds i ≡ some (some d)) d2 k) delta t n) in
      let path =
        ap (λ o. o >>= λ p1. (seed hs p1 >>= after_seed fuel)) e1
        ∙ ap (λ o. o >>= after_seed fuel) e2 in
      subst (Ended hs) (sym path) (
        on_progress fuel hs hs' p2 progressed s2 c2 held2 places2 (carries2 0 (carries1 0 first))
          (omega arith)
          (λ e. (
            ap (λ q. q.work) (quiet e).0 ∙ empty,
            subst (λ q. Quiet q hs') (sym (quiet e).0) (quiet e).1,
          ))
          (λ less. rounds-Ended fuel hs' p2 s2 c2 held2 (carries2 0 (carries1 0 first)) less))

abbrev pub Caught : List Handler → CodeIx → CodeIx → Type 0
Caught handlers s t = (h : Handler) × Elem h handlers × (h.start ≡ s) × (h.target ≡ t)

abbrev unseeded : List Handler → List Seeded
unseeded handlers = map (λ h. (h, false)) handlers

places-unseeded : (handlers : List Handler) → places (unseeded handlers) ≡ map place handlers
places-unseeded [] = refl
places-unseeded (h ∷ hs) = ap (λ z. place h ∷ z) (places-unseeded hs)

pending-unseeded : (handlers : List Handler) → pending (unseeded handlers) ≡ length handlers
pending-unseeded [] = refl
pending-unseeded (h ∷ hs) = ap suc (pending-unseeded hs)

All-unseeded :
    (P : Seeded → Type 0) (handlers : List Handler)
    → ((h : Handler) → Elem h handlers → P (h, false))
    → All P (unseeded handlers)
All-unseeded P [] f = tt
All-unseeded P (h ∷ hs) f = (f h head, All-unseeded P hs (λ g m. f g (tail m)))

map-places : (hs : List Seeded) → map place (map (λ h. h.0) hs) ≡ places hs
map-places [] = refl
map-places (h ∷ hs) = ap (λ z. place h.0 ∷ z) (map-places hs)

get_elem?-replicate :
    (n ix : ℕ) {d : ℕ} → get_elem? {A = Option ℕ} (replicate n none) ix ≡ some (some d) → ⊥
get_elem?-replicate zero ix e = cc
get_elem?-replicate (suc n) zero e = cc
get_elem?-replicate (suc n) (suc ix) e = get_elem?-replicate n ix e

-- What `finalize` returns, for depths that fit.
abbrev pub Finds :
    List StructShape → List Op → List Handler → (CodeIx → ℕ) → List Handler × Needed → Type 0
Finds structs code handlers depth_at (hs, r) =
    (map place hs ≡ map place handlers)
    × ((n : ℕ)
        → r ≡ ok n
        → ((ix : CodeIx) → Reach structs code (Caught handlers) ix → depth_at ix ≤ n)
          × ((h : Handler)
              → Elem h hs
              → Reach structs code (Caught handlers) h.start
              → h.depth ≡ depth_at h.start))

Elem-unmap :
    {A B : Type 0} (f : A → B) {b : B} (xs : List A)
    → Elem b (map f xs)
    → (a : A) × Elem a xs × (f a ≡ b)
Elem-unmap f [] m = elim m [ ]
Elem-unmap f (x ∷ xs) head = (x, head, refl)
Elem-unmap f (x ∷ xs) (tail m) = let (a, there, e) = Elem-unmap f xs m in (a, tail there, e)

answer-ok :
    (m n : ℕ) → (if leb m (2 ^ 16 - 1) then ok m else err m) ≡ ok n → (m ≡ n) × (m ≤ 2 ^ 16 - 1)
answer-ok m n =
    if-cases (λ r. r ≡ ok n → (m ≡ n) × (m ≤ 2 ^ 16 - 1)) (leb m (2 ^ 16 - 1))
      (λ e w. (cc, leb→le m (2 ^ 16 - 1) e)) (λ e w. cc)

module _ (structs : List StructShape) (code : List Op) (handlers : List Handler)
    (depth_at : CodeIx → ℕ)
    (shapes : (ix : CodeIx) (op : Op)
      → get_elem? code ix ≡ some op
      → (s : Successors) × (transition structs op ≡ some s))
    (fits : Fits structs code (Caught handlers) depth_at) (hs : List Seeded) (q : Pass)
    (empty : q.work ≡ []) (closed : Paths.Closed structs code (Caught handlers) depth_at q)
    (held : Held structs code (Caught handlers) depth_at fits shapes q hs)
    (quiet : Quiet structs code (Caught handlers) depth_at fits shapes q hs)
    (first : Paths.Done structs code (Caught handlers) depth_at q 0)
    (same : places hs ≡ map place handlers) where
  covers :
      (s t : CodeIx)
      → Caught handlers s t
      → (h : Seeded) × Elem h hs × (h.0.start ≡ s) × (h.0.target ≡ t)
  covers s t (h, m, e, f) =
      let (g, there, p) = Elem-places hs (subst (Elem (place h)) (sym same) (Elem-map place m)) in
      (g, there, ap (λ h. h.start) p ∙ e, ap (λ h. h.target) p ∙ f)

  done :
      (t : CodeIx)
      → Reach structs code (Caught handlers) t
      → Paths.Done structs code (Caught handlers) depth_at q t
  done =
      all-Done structs code (Caught handlers) depth_at fits shapes hs q empty closed held quiet
        covers first

  handler_depth :
      (g : Seeded)
      → Elem g hs
      → q.max ≤ 2 ^ 16 - 1
      → Reach structs code (Caught handlers) g.0.start
      → g.0.depth ≡ depth_at g.0.start
  handler_depth (h, true) there small runs =
      let (c, inside, good) =
        All-Elem (Seeds.HeldOne structs code (Caught handlers) depth_at fits q) there held in
      omega (arith, (good refl).0, (done h.start runs).0)
  handler_depth (h, false) there small runs =
      let (c, inside, good) =
        All-Elem (Seeds.HeldOne structs code (Caught handlers) depth_at fits q) there held in
      let unknown =
        (All-Elem (Seeds.QuietOne structs code (Caught handlers) depth_at fits q) there quiet)
          refl in
      let known =
        settled structs code (Caught handlers) depth_at fits shapes hs q empty closed held quiet
          covers h.start inside (done h.start runs) in
      absurd cc

  answer-Finds :
      Finds structs code handlers depth_at
        (map (λ h. h.0) hs, if leb q.max (2 ^ 16 - 1) then ok q.max else err q.max)
  answer-Finds = (
    map-places hs ∙ same,
    λ n e.
        let (exact, small) = answer-ok q.max n e in
        (
          (λ ix runs. omega (arith, exact, (done ix runs).0)),
          λ h m runs.
              let (g, there, p) = Elem-unmap {A = Seeded} (λ h. h.0) hs m in
              subst (λ h. h.depth ≡ depth_at h.start) p
                (handler_depth g there small
                  (subst (λ h. Reach structs code (Caught handlers) h.start) (sym p) runs)),
        ),
  )

-- Take code in which each instruction's effect is known (each struct that it makes has a shape), handlers
-- that start in it, and depths that fit: nothing at the start, changed along every step that can run as
-- the instruction says, one more at a handler's target than at its start, and below 2^32. Then the pass
-- ends, it changes nothing of a handler but its depth, and where it answers that a frame reserves `n`,
-- every instruction that can run has a depth of at most `n`, and every handler whose start can run has
-- the depth of that start.
pub finalize-Finds :
    (structs : List StructShape) (code : List Op) (handlers : List Handler) (depth_at : CodeIx → ℕ)
    → ((ix : CodeIx) (op : Op)
        → get_elem? code ix ≡ some op
        → (s : Successors) × (transition structs op ≡ some s))
    → ((h : Handler) → Elem h handlers → h.start < length code)
    → Fits structs code (Caught handlers) depth_at
    → (r : List Handler × Needed) × (finalize code handlers structs ≡ some r)
      × Finds structs code handlers depth_at r
unfolding finalize
finalize-Finds structs code handlers depth_at shapes starts fits =
    let p = start_pass code in
    let sound : Paths.Sound structs code (Caught handlers) depth_at p = record {
      sized = length-replicate {A = Option ℕ} (length code) none;
      known = λ ix d k. absurd (get_elem?-replicate (length code) ix k);
      waiting = ((entry, sym fits.at_entry), tt);
    } in
    let (hs, q, e, empty, s, c, held, quiet, first, same) =
      rounds-Ended structs code (Caught handlers) depth_at fits shapes (length handlers + 1)
        (unseeded handlers) p sound
        (λ ix d k delta t n. absurd (get_elem?-replicate (length code) ix k))
        (All-unseeded _ handlers (λ h m. ((h, m, refl, refl), starts h m, λ e. cc)))
        (
          omega (arith, fits.at_entry),
          inr (
              inr
                (subst (λ x. Elem {A = CodeIx × ℕ} (0, x) ((0, 0) ∷ [])) (sym fits.at_entry) head)),
        )
        (omega (arith, pending-unseeded handlers)) in
    let answer : List Handler × Needed =
      (map (λ h. h.0) hs, if leb q.max (2 ^ 16 - 1) then ok q.max else err q.max) in
    (
      answer,
      ap
          (λ o. o >>= λ x.
            some (map (λ h. h.0) x.0, if leb x.1.max (2 ^ 16 - 1) then ok x.1.max else err x.1.max))
          e,
      answer-Finds structs code handlers depth_at shapes fits hs q empty c held quiet first
          (same ∙ places-unseeded handlers),
    )
