-- ===== src/Types/Joins.antt =====
-- Unification finds the least type that says what both types say, and fails only where there is none.
use brasa.Prelude.{◌≡◌, ◌≢◌, ◌<◌, sym, ap, subst, ◌∙◌, Option, some, none, arith, ◌>>=◌}
use brasa.Types.{Ty, never, unknown, same, unify_flat, ty_discrete}
use brasa.Types.Known.{Below, Below-refl, head, Below-head, IsFlat, Below-IsFlat}

-- `r` is the least type above `a` and `b`, or none where no type is above both.
abbrev pub JoinsIn : {C : Type 0} → (C → C → Type 0) → C → C → Option C → Type 0
JoinsIn R a b (some c) = R a c × R b c × ((d : _) → R a d → R b d → R c d)
JoinsIn R a b none = (d : _) → R a d → ¬ R b d

abbrev pub Joins : Ty → Ty → Option Ty → Type 0
Joins = JoinsIn Below

-- Where two types say more than `never`, and no type is above both unless they are equal.
same-Joins : (a b : Ty) → ((d : Ty) → Below a d → Below b d → a ≡ b) → Joins a b (same a b)
unfolding same
same-Joins a b clash =
    elim (ty_discrete a b) as (λ d. Joins a b (elim d [ yes _ ↦ some a | no _ ↦ none ])) [
      | yes e ↦ (Below-refl a, subst (λ x. Below x a) e (Below-refl a), λ d h k. h)
      | no n ↦ λ d h k. n (clash d h k)
    ]

pub flat-unknown : (a : Ty) → Joins a unknown (some a)
unfolding Below
flat-unknown a = (Below-refl a, tt, λ d h k. h)

pub flat-never : (a : Ty) → a ≢ unknown → Joins a never (some a)
unfolding Below
flat-never a n = (Below-refl a, n, λ d h k. h)

abbrev pub Clash : Ty → Ty → Type 0
Clash a b = 1 < head b → (d : Ty) → Below a d → Below b d → a ≡ b

pub unify_flat-Joins : (a b : Ty) → a ≢ unknown → Clash a b → Joins a b (unify_flat a b)
unfolding unify_flat head
unify_flat-Joins a unknown n clash = flat-unknown a
unify_flat-Joins a never n clash = flat-never a n
unify_flat-Joins a b n clash = same-Joins a b (clash (omega arith))

pub heads-Clash : (a b : Ty) → 1 < head a → head a ≢ head b → Clash a b
heads-Clash a b more n more' d h k =
    absurd (n (Below-head a d h more ∙ sym (Below-head b d k more')))

pub flat-Clash : (a b : Ty) → IsFlat a → Clash a b
unfolding IsFlat
flat-Clash a b flat more d h k =
    let same_d : a ≡ d = Below-IsFlat a d h flat in
    let flat_b : IsFlat b = Below-head b d k more ∙ (ap head (sym same_d) ∙ flat) in
    same_d ∙ sym (Below-IsFlat b d k flat_b)

-- A constructor with one part, a type or a list of types.
module _ {C : Type 0} (R : C → C → Type 0) (k : C → Ty)
    (enter : (x : C) (b : Ty) → Below (k x) b → (y : C) × (b ≡ k y) × R x y)
    (leave : (x y : C) → R x y → Below (k x) (k y))
    (injective : (x y : C) → k x ≡ k y → x ≡ y) where
  pub lift-Joins :
      (x y : C) (r : Option C) → JoinsIn R x y r → Joins (k x) (k y) (r >>= λ z. some (k z))
  lift-Joins x y (some z) (a, b, least) = (
    leave x z a,
    leave y z b,
    λ d h i.
        let (d1, e1, r1) = enter x d h in
        let (d2, e2, r2) = enter y d i in
        let back = injective d2 d1 (sym e2 ∙ e1) in
        subst (Below (k z)) (sym e1) (leave z d1 (least d1 r1 (subst (R y) back r2))),
  )
  lift-Joins x y none apart = λ d h i.
      let (d1, e1, r1) = enter x d h in
      let (d2, e2, r2) = enter y d i in
      let back = injective d2 d1 (sym e2 ∙ e1) in apart d1 r1 (subst (R y) back r2)

-- A constructor with two parts.
module _ {C : Type 0} (R : C → C → Type 0) (k : C → Ty → Ty)
    (enter : (x : C) (u b : Ty)
      → Below (k x u) b
      → (y : C) × (v : Ty) × (b ≡ k y v) × R x y × Below u v)
    (leave : (x y : C) (u v : Ty) → R x y → Below u v → Below (k x u) (k y v))
    (injective : (x y : C) (u v : Ty) → k x u ≡ k y v → (x ≡ y) × (u ≡ v)) where
  pub lift2-Joins :
      (x y : C) (u v : Ty) (r : Option C) (s : Option Ty)
      → JoinsIn R x y r
      → Joins u v s
      → Joins (k x u) (k y v) (r >>= λ z. s >>= λ w. some (k z w))
  lift2-Joins x y u v (some z) (some w) (a, b, least) (a', b', least') = (
    leave x z u w a a',
    leave y z v w b b',
    λ d h i.
        let (d1, t1, e1, r1, s1) = enter x u d h in
        let (d2, t2, e2, r2, s2) = enter y v d i in
        let back = injective d2 d1 t2 t1 (sym e2 ∙ e1) in
        subst (Below (k z w)) (sym e1) (
          leave z d1 w t1 (least d1 r1 (subst (R y) back.0 r2))
            (least' t1 s1 (subst (Below v) back.1 s2))),
  )
  lift2-Joins x y u v (some z) none j apart = λ d h i.
      let (d1, t1, e1, r1, s1) = enter x u d h in
      let (d2, t2, e2, r2, s2) = enter y v d i in
      let back = injective d2 d1 t2 t1 (sym e2 ∙ e1) in apart t1 s1 (subst (Below v) back.1 s2)
  lift2-Joins x y u v none s apart j = λ d h i.
      let (d1, t1, e1, r1, s1) = enter x u d h in
      let (d2, t2, e2, r2, s2) = enter y v d i in
      let back = injective d2 d1 t2 t1 (sym e2 ∙ e1) in apart d1 r1 (subst (R y) back.0 r2)
