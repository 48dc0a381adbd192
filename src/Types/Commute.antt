-- ===== src/Types/Commute.antt =====
-- The order of the two types that are unified does not matter: two types that say at least what the
-- other says are equal, so that there is one least type.
use brasa.Prelude.{◌≡◌, ◌≢◌, refl, sym, ap, subst, Option, some, none, arith}
use brasa.Types.{
  Ty, Tys, unknown, never, vector, map, set, option, tuple, fn, struct, enum, task, nil, cons,
  unify,
}
use brasa.Types.Known.{Below, BelowAll, head, Below-head}
use brasa.Types.Least.{unify-Joins}
use brasa.Types.Joins.{Joins}

Below-unknown : (b : Ty) → Below b unknown → b ≡ unknown
unfolding head Below
Below-unknown unknown k = refl
Below-unknown never k = absurd (k refl)
Below-unknown b k = absurd (omega (arith, Below-head b unknown k))

Below-never : (b : Ty) → b ≢ unknown → Below b never → never ≡ b
unfolding head Below
Below-never unknown n k = absurd (n refl)
Below-never never n k = refl
Below-never b n k = absurd (omega (arith, Below-head b never k))

mutual
  unfolding Below BelowAll head

  Below-antisym : (a b : Ty) → Below a b → Below b a → a ≡ b
  Below-antisym unknown b h k = sym (Below-unknown b k)
  Below-antisym never b h k = Below-never b h k
  Below-antisym (vector x) (vector y) (z, e, r) (w, p, s) =
      ap vector (Below-antisym x y (subst (Below x) (cc) r) (subst (Below y) (cc) s))
  Below-antisym (set x) (set y) (z, e, r) (w, p, s) =
      ap set (Below-antisym x y (subst (Below x) (cc) r) (subst (Below y) (cc) s))
  Below-antisym (task x) (task y) (z, e, r) (w, p, s) =
      ap task (Below-antisym x y (subst (Below x) (cc) r) (subst (Below y) (cc) s))
  Below-antisym (option x) (option y) (z, e, r) (w, p, s) =
      ap option (Below-antisym x y (subst (Below x) (cc) r) (subst (Below y) (cc) s))
  Below-antisym (tuple x) (tuple y) (z, e, r) (w, p, s) =
      ap tuple (BelowAll-antisym x y (subst (BelowAll x) (cc) r) (subst (BelowAll y) (cc) s))
  Below-antisym (struct i x) (struct j y) (z, e, r) (w, p, s) =
      let parts : x ≡ y =
        BelowAll-antisym x y (subst (BelowAll x) (cc) r) (subst (BelowAll y) (cc) s) in
      cc
  Below-antisym (enum i x) (enum j y) (z, e, r) (w, p, s) =
      let parts : x ≡ y =
        BelowAll-antisym x y (subst (BelowAll x) (cc) r) (subst (BelowAll y) (cc) s) in
      cc
  Below-antisym (map k v) (map l w) (l', w', e, r, s) (k', v', p, r', s') =
      let keys : k ≡ l = Below-antisym k l (subst (Below k) (cc) r) (subst (Below l) (cc) r') in
      let values : v ≡ w = Below-antisym v w (subst (Below v) (cc) s) (subst (Below w) (cc) s') in
      cc
  Below-antisym (fn k v) (fn l w) (l', w', e, r, s) (k', v', p, r', s') =
      let params : k ≡ l =
        BelowAll-antisym k l (subst (BelowAll k) (cc) r) (subst (BelowAll l) (cc) r') in
      let rets : v ≡ w = Below-antisym v w (subst (Below v) (cc) s) (subst (Below w) (cc) s') in cc
  Below-antisym (vector x) b h e = absurd (omega (arith, Below-head (vector x) b h))
  Below-antisym (set x) b h e = absurd (omega (arith, Below-head (set x) b h))
  Below-antisym (task x) b h e = absurd (omega (arith, Below-head (task x) b h))
  Below-antisym (option x) b h e = absurd (omega (arith, Below-head (option x) b h))
  Below-antisym (map k v) b h e = absurd (omega (arith, Below-head (map k v) b h))
  Below-antisym (tuple xs) b h e = absurd (omega (arith, Below-head (tuple xs) b h))
  Below-antisym (fn ps r) b h e = absurd (omega (arith, Below-head (fn ps r) b h))
  Below-antisym (struct i xs) b h e = absurd (omega (arith, Below-head (struct i xs) b h))
  Below-antisym (enum i xs) b h e = absurd (omega (arith, Below-head (enum i xs) b h))
  Below-antisym a b h k = h

  BelowAll-antisym : (xs ys : Tys) → BelowAll xs ys → BelowAll ys xs → xs ≡ ys
  BelowAll-antisym nil ys h k = sym h
  BelowAll-antisym (cons x xs) nil h k = k
  BelowAll-antisym (cons x xs) (cons y ys) (y', ys', e, r, s) (x', xs', p, r', s') =
      let heads : x ≡ y = Below-antisym x y (subst (Below x) (cc) r) (subst (Below y) (cc) r') in
      let tails : xs ≡ ys =
        BelowAll-antisym xs ys (subst (BelowAll xs) (cc) s) (subst (BelowAll ys) (cc) s') in
      cc

join_unique : (a b : Ty) (r s : Option Ty) → Joins a b r → Joins b a s → r ≡ s
join_unique a b none none h k = refl
join_unique a b (some c) none (p, q, _) k = absurd (k c q p)
join_unique a b none (some d) h (p, q, _) = absurd (h d q p)
join_unique a b (some c) (some d) (p, q, least) (p', q', least') =
    ap some (Below-antisym c d (least d q' p') (least' c q p))

-- The order of the two types that are unified matters neither to the result nor to whether there is one.
pub unify_comm : (a b : Ty) → unify a b ≡ unify b a
unify_comm a b = join_unique a b (unify a b) (unify b a) (unify-Joins a b) (unify-Joins b a)
