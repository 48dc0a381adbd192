-- ===== src/Types/Least.antt =====
-- `unify` finds the least type that says what both its types say, and fails only where there is none:
-- each arm, then the recursion over both types.
use brasa.Prelude.{
  ℕ, ◌≡◌, ◌≢◌, ◌<◌, refl, ap, subst, Bool, true, false, Option, some, none, arith, ◌>>=◌, ◌==◌,
  if◌then◌else◌, ==_iff, ◌↔◌,
}
use brasa.Types.{
  Ty, Tys, never, unknown, vector, map, set, option, tuple, fn, struct, enum, task, nil, cons,
  unify_flat, unify, unify_all,
}
use brasa.Types.Known.{Below, BelowAll, Below-refl, head, IsFlat}
use brasa.Types.Joins.{
  JoinsIn, Joins, unify_flat-Joins, heads-Clash, flat-Clash, lift-Joins, lift2-Joins,
}

abbrev JoinsAll : Tys → Tys → Option Tys → Type 0
JoinsAll = JoinsIn BelowAll

vector-Joins :
    (x y : Ty) (r : Option Ty)
    → Joins x y r
    → Joins (vector x) (vector y) (r >>= λ z. some (vector z))
unfolding Below
vector-Joins = lift-Joins Below vector (λ x b h. h) (λ x y h. (y, refl, h)) (λ x y e. cc)

set-Joins :
    (x y : Ty) (r : Option Ty) → Joins x y r → Joins (set x) (set y) (r >>= λ z. some (set z))
unfolding Below
set-Joins = lift-Joins Below set (λ x b h. h) (λ x y h. (y, refl, h)) (λ x y e. cc)

task-Joins :
    (x y : Ty) (r : Option Ty) → Joins x y r → Joins (task x) (task y) (r >>= λ z. some (task z))
unfolding Below
task-Joins = lift-Joins Below task (λ x b h. h) (λ x y h. (y, refl, h)) (λ x y e. cc)

option-Joins :
    (x y : Ty) (r : Option Ty)
    → Joins x y r
    → Joins (option x) (option y) (r >>= λ z. some (option z))
unfolding Below
option-Joins = lift-Joins Below option (λ x b h. h) (λ x y h. (y, refl, h)) (λ x y e. cc)

tuple-Joins :
    (x y : Tys) (r : Option Tys)
    → JoinsAll x y r
    → Joins (tuple x) (tuple y) (r >>= λ z. some (tuple z))
unfolding Below
tuple-Joins = lift-Joins BelowAll tuple (λ x b h. h) (λ x y h. (y, refl, h)) (λ x y e. cc)

struct-Joins :
    (i : ℕ) (xs ys : Tys) (r : Option Tys)
    → JoinsAll xs ys r
    → Joins (struct i xs) (struct i ys) (r >>= λ zs. some (struct i zs))
unfolding Below
struct-Joins i = lift-Joins BelowAll (struct i) (λ x b h. h) (λ x y h. (y, refl, h)) (λ x y e. cc)

-- Two types that are declared in different places have no type above both.
structs-Joins :
    (i j : ℕ) (xs ys : Tys) (r : Option Tys) (t : Bool)
    → ((t ≡ true) ↔ (i ≡ j))
    → JoinsAll xs ys r
    → Joins (struct i xs) (struct j ys) (if t then (r >>= λ zs. some (struct i zs)) else none)
unfolding Below
structs-Joins i j xs ys r true e h =
    subst (λ k. Joins (struct i xs) (struct k ys) (r >>= λ zs. some (struct i zs))) (e.0 refl)
      (struct-Joins i xs ys r h)
structs-Joins i j xs ys r false e h = λ d (us, p, _) (vs, q, _).
    let same_place : i ≡ j = cc in let equal : false ≡ true = e.1 same_place in absurd cc

enum-Joins :
    (i : ℕ) (xs ys : Tys) (r : Option Tys)
    → JoinsAll xs ys r
    → Joins (enum i xs) (enum i ys) (r >>= λ zs. some (enum i zs))
unfolding Below
enum-Joins i = lift-Joins BelowAll (enum i) (λ x b h. h) (λ x y h. (y, refl, h)) (λ x y e. cc)

-- Two types that are declared in different places have no type above both.
enums-Joins :
    (i j : ℕ) (xs ys : Tys) (r : Option Tys) (t : Bool)
    → ((t ≡ true) ↔ (i ≡ j))
    → JoinsAll xs ys r
    → Joins (enum i xs) (enum j ys) (if t then (r >>= λ zs. some (enum i zs)) else none)
unfolding Below
enums-Joins i j xs ys r true e h =
    subst (λ k. Joins (enum i xs) (enum k ys) (r >>= λ zs. some (enum i zs))) (e.0 refl)
      (enum-Joins i xs ys r h)
enums-Joins i j xs ys r false e h = λ d (us, p, _) (vs, q, _).
    let same_place : i ≡ j = cc in let equal : false ≡ true = e.1 same_place in absurd cc

map-Joins :
    (k l v w : Ty) (r s : Option Ty)
    → Joins k l r
    → Joins v w s
    → Joins (map k v) (map l w) (r >>= λ key. s >>= λ value. some (map key value))
unfolding Below
map-Joins =
    lift2-Joins Below map (λ x u b h. h) (λ x y u v h i. (y, v, refl, h, i)) (λ x y u v e. (cc, cc))

fn-Joins :
    (ps qs : Tys) (a b : Ty) (r : Option Tys) (s : Option Ty)
    → JoinsAll ps qs r
    → Joins a b s
    → Joins (fn ps a) (fn qs b) (r >>= λ params. s >>= λ ret. some (fn params ret))
unfolding Below
fn-Joins =
    lift2-Joins BelowAll fn (λ x u b h. h) (λ x y u v h i. (y, v, refl, h, i))
      (λ x y u v e. (cc, cc))

nil-Joins : JoinsAll nil nil (some nil)
unfolding BelowAll
nil-Joins = (refl, refl, λ d h k. h)

cons-Joins :
    (x y : Ty) (xs ys : Tys) (r : Option Ty) (s : Option Tys)
    → Joins x y r
    → JoinsAll xs ys s
    → JoinsAll (cons x xs) (cons y ys) (r >>= λ z. s >>= λ zs. some (cons z zs))
unfolding BelowAll
cons-Joins x y xs ys (some z) (some zs) (a, b, least) (a', b', least') = (
  (z, zs, refl, a, a'),
  (z, zs, refl, b, b'),
  λ d (d1, t1, e1, r1, s1) (d2, t2, e2, r2, s2).
      let heads : d2 ≡ d1 = cc in
      let tails : t2 ≡ t1 = cc in
      (
        d1,
        t1,
        e1,
        least d1 r1 (subst (Below y) heads r2),
        least' t1 s1 (subst (BelowAll ys) tails s2),
      ),
)
cons-Joins x y xs ys (some z) none j apart = λ d (d1, t1, e1, r1, s1) (d2, t2, e2, r2, s2).
    let tails : t2 ≡ t1 = cc in apart t1 s1 (subst (BelowAll ys) tails s2)
cons-Joins x y xs ys none s apart j = λ d (d1, t1, e1, r1, s1) (d2, t2, e2, r2, s2).
    let heads : d2 ≡ d1 = cc in apart d1 r1 (subst (Below y) heads r2)

nil_cons-Joins : (y : Ty) (ys : Tys) → JoinsAll nil (cons y ys) none
unfolding BelowAll
nil_cons-Joins y ys d e (d2, t2, e2, r2, s2) = absurd cc

cons_nil-Joins : (x : Ty) (xs : Tys) → JoinsAll (cons x xs) nil none
unfolding BelowAll
cons_nil-Joins x xs d (d1, t1, e1, r1, s1) e = absurd cc

unknown-Joins : (b : Ty) → Joins unknown b (some b)
unfolding Below
unknown-Joins b = (tt, Below-refl b, λ d h k. k)

never_unknown-Joins : Joins never unknown (some never)
unfolding Below
never_unknown-Joins = (λ e. cc, tt, λ d h k. h)

never-Joins : (b : Ty) → b ≢ unknown → Joins never b (some b)
unfolding Below
never-Joins b n = (n, Below-refl b, λ d h k. k)

apart-Joins : (a b : Ty) → 1 < head a → head a ≢ head b → Joins a b (unify_flat a b)
unfolding head
apart-Joins a b more n =
    unify_flat-Joins a b (λ e. omega (arith, ap head e)) (heads-Clash a b more n)

mutual
  unfolding unify unify_all head IsFlat

  joins : (a b : Ty) → Joins a b (unify a b)
  joins unknown b = unknown-Joins b
  joins never unknown = never_unknown-Joins
  joins never b = never-Joins b (λ e. cc)
  joins (vector x) (vector y) = vector-Joins x y (unify x y) (joins x y)
  joins (set x) (set y) = set-Joins x y (unify x y) (joins x y)
  joins (task x) (task y) = task-Joins x y (unify x y) (joins x y)
  joins (option x) (option y) = option-Joins x y (unify x y) (joins x y)
  joins (map k v) (map l w) = map-Joins k l v w (unify k l) (unify v w) (joins k l) (joins v w)
  joins (tuple xs) (tuple ys) = tuple-Joins xs ys (unify_all xs ys) (joins_all xs ys)
  joins (fn ps r) (fn qs s) =
      fn-Joins ps qs r s (unify_all ps qs) (unify r s) (joins_all ps qs) (joins r s)
  joins (struct i xs) (struct j ys) =
      structs-Joins i j xs ys (unify_all xs ys) (i == j) (==_iff i j) (joins_all xs ys)
  joins (enum i xs) (enum j ys) =
      enums-Joins i j xs ys (unify_all xs ys) (i == j) (==_iff i j) (joins_all xs ys)
  joins (vector x) b = apart-Joins (vector x) b (omega arith) (λ e. omega arith)
  joins (set x) b = apart-Joins (set x) b (omega arith) (λ e. omega arith)
  joins (task x) b = apart-Joins (task x) b (omega arith) (λ e. omega arith)
  joins (option x) b = apart-Joins (option x) b (omega arith) (λ e. omega arith)
  joins (map k v) b = apart-Joins (map k v) b (omega arith) (λ e. omega arith)
  joins (tuple xs) b = apart-Joins (tuple xs) b (omega arith) (λ e. omega arith)
  joins (fn ps r) b = apart-Joins (fn ps r) b (omega arith) (λ e. omega arith)
  joins (struct i xs) b = apart-Joins (struct i xs) b (omega arith) (λ e. omega arith)
  joins (enum i xs) b = apart-Joins (enum i xs) b (omega arith) (λ e. omega arith)
  joins a b = unify_flat-Joins a b (λ e. cc) (flat-Clash a b refl)

  joins_all : (xs ys : Tys) → JoinsAll xs ys (unify_all xs ys)
  joins_all nil nil = nil-Joins
  joins_all (cons x xs) (cons y ys) =
      cons-Joins x y xs ys (unify x y) (unify_all xs ys) (joins x y) (joins_all xs ys)
  joins_all nil (cons y ys) = nil_cons-Joins y ys
  joins_all (cons x xs) nil = cons_nil-Joins x xs

-- What `unify` returns for two types is the least type above both, where each type is above itself,
-- above `unknown` and, unless it is `unknown`, above `never`, and a composite type is above those of
-- the same constructor, with the same declaration and as many parts, whose parts are below its own;
-- where `unify` returns none, no type is above both.
pub unify-Joins : (a b : Ty) → Joins a b (unify a b)
unify-Joins = joins
