-- ===== src/Types/Known.antt =====
-- When a type says at least what another says: `unknown` says nothing, `never` next to nothing, and a
-- composite type what its parts say.
use brasa.Prelude.{ℕ, ◌≡◌, ◌≢◌, ◌<◌, refl, sym, ap, arith}
use brasa.Types.{
  Ty, Tys, never, unknown, vector, map, set, option, tuple, fn, struct, enum, task, nil, cons,
}

unfoldable mutual
  pub Below : Ty → Ty → Type 0
  Below unknown b = Unit
  Below never b = b ≢ unknown
  Below (vector x) b = (y : Ty) × (b ≡ vector y) × Below x y
  Below (set x) b = (y : Ty) × (b ≡ set y) × Below x y
  Below (task x) b = (y : Ty) × (b ≡ task y) × Below x y
  Below (option x) b = (y : Ty) × (b ≡ option y) × Below x y
  Below (map k v) b = (l w : Ty) × (b ≡ map l w) × Below k l × Below v w
  Below (tuple xs) b = (ys : Tys) × (b ≡ tuple ys) × BelowAll xs ys
  Below (fn ps r) b = (qs : Tys) × (s : Ty) × (b ≡ fn qs s) × BelowAll ps qs × Below r s
  Below (struct i xs) b = (ys : Tys) × (b ≡ struct i ys) × BelowAll xs ys
  Below (enum i xs) b = (ys : Tys) × (b ≡ enum i ys) × BelowAll xs ys
  Below a b = a ≡ b

  pub BelowAll : Tys → Tys → Type 0
  BelowAll nil ys = ys ≡ nil
  BelowAll (cons x xs) zs = (y : Ty) × (ys : Tys) × (zs ≡ cons y ys) × Below x y × BelowAll xs ys

mutual
  unfolding Below BelowAll

  pub Below-refl : (a : Ty) → Below a a
  Below-refl unknown = tt
  Below-refl never = λ e. cc
  Below-refl (vector x) = (x, refl, Below-refl x)
  Below-refl (set x) = (x, refl, Below-refl x)
  Below-refl (task x) = (x, refl, Below-refl x)
  Below-refl (option x) = (x, refl, Below-refl x)
  Below-refl (map k v) = (k, v, refl, Below-refl k, Below-refl v)
  Below-refl (tuple xs) = (xs, refl, BelowAll-refl xs)
  Below-refl (fn ps r) = (ps, r, refl, BelowAll-refl ps, Below-refl r)
  Below-refl (struct i xs) = (xs, refl, BelowAll-refl xs)
  Below-refl (enum i xs) = (xs, refl, BelowAll-refl xs)
  Below-refl _ = refl

  pub BelowAll-refl : (xs : Tys) → BelowAll xs xs
  BelowAll-refl nil = refl
  BelowAll-refl (cons x xs) = (x, xs, refl, Below-refl x, BelowAll-refl xs)

-- What stands for the outermost constructor.
unfoldable pub head : Ty → ℕ
head unknown = 0
head never = 1
head (vector x) = 2
head (set x) = 3
head (task x) = 4
head (option x) = 5
head (map k v) = 6
head (tuple xs) = 7
head (fn ps r) = 8
head (struct i xs) = 9
head (enum i xs) = 10
head _ = 11

-- A type with no parts, or with parts that are compared whole.
unfoldable pub IsFlat : Ty → Type 0
IsFlat a = head a ≡ 11

pub Below-head : (b d : Ty) → Below b d → 1 < head b → head b ≡ head d
unfolding Below head
Below-head unknown d h k = absurd (omega arith)
Below-head never d h k = absurd (omega arith)
Below-head (vector x) d h k = sym (ap head h.1)
Below-head (set x) d h k = sym (ap head h.1)
Below-head (task x) d h k = sym (ap head h.1)
Below-head (option x) d h k = sym (ap head h.1)
Below-head (map l w) d h k = sym (ap head h.2)
Below-head (tuple xs) d h k = sym (ap head h.1)
Below-head (fn ps r) d h k = sym (ap head h.2)
Below-head (struct i xs) d h k = sym (ap head h.1)
Below-head (enum i xs) d h k = sym (ap head h.1)
Below-head _ d h k = ap head h

-- A flat type says as much only as itself.
pub Below-IsFlat : (b d : Ty) → Below b d → IsFlat b → b ≡ d
unfolding Below IsFlat head
Below-IsFlat unknown d h k = absurd (omega arith)
Below-IsFlat never d h k = absurd (omega arith)
Below-IsFlat (vector x) d h k = absurd (omega arith)
Below-IsFlat (set x) d h k = absurd (omega arith)
Below-IsFlat (task x) d h k = absurd (omega arith)
Below-IsFlat (option x) d h k = absurd (omega arith)
Below-IsFlat (map l w) d h k = absurd (omega arith)
Below-IsFlat (tuple xs) d h k = absurd (omega arith)
Below-IsFlat (fn ps r) d h k = absurd (omega arith)
Below-IsFlat (struct i xs) d h k = absurd (omega arith)
Below-IsFlat (enum i xs) d h k = absurd (omega arith)
Below-IsFlat _ d h k = h
