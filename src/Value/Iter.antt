-- ===== src/Value/Iter.antt =====
-- The loop iterators of `iter_new` and `iter_next`: a range counts up lazily and stops at its end or
-- at the largest int, a snapshot runs through its items. `none` is the end.
use brasa.Prelude.{
  ℕ, zero, suc, ◌+◌, ◌-◌, ◌≤◌, ◌<◌, ◌≡◌, refl, sym, ap, subst, ◌∙◌, List, [], ◌∷◌, Bool, true,
  false, Option, none, some, eq_of_some, length, get_elem?, drop, if◌then◌else◌, arith, Bool-cases,
  Option-cases, inl, inr, not,
}
use brasa.Prelude.Int.{ℤ, pos, ltb_ℤ, pos_part, neg_part, ◌+ℤ◌, +ℤ_parts}
use brasa.Int64.{checked_add, checked_add-some, checked_add-one_none, IsI64, max_i64}
use brasa.Value.{Value, IterState, range_iter, items_iter}

-- `*next <= *hi` or `*next < *hi`
unfoldable pub in_range : ℤ → ℤ → Bool → Bool
in_range next hi true = not (ltb_ℤ hi next)
in_range next hi false = ltb_ℤ next hi

-- The range once `current` is handed out.
unfoldable pub advance : ℤ → ℤ → Bool → Option ℤ → IterState
advance current hi inclusive (some n) = range_iter n hi inclusive false
advance current hi inclusive none = range_iter current hi inclusive true

abbrev taken : List Value → ℕ → Option Value → IterState × Option Value
taken items ix (some item) = (items_iter items (suc ix), some item)
taken items ix none = (items_iter items ix, none)

unfoldable pub next : IterState → IterState × Option Value
next (range_iter current hi inclusive true) = (range_iter current hi inclusive true, none)
next (range_iter current hi inclusive false) =
    if in_range current hi inclusive
    then (advance current hi inclusive (checked_add current (pos 1)), some (Value.int current))
    else (range_iter current hi inclusive false, none)
next (items_iter items ix) = taken items ix (get_elem? items ix)

abbrev seen : Option Value → List Value → List Value
seen none rest = []
seen (some item) rest = item ∷ rest

-- What a loop of at most `fuel` rounds sees.
unfoldable pub drain : ℕ → IterState → List Value
drain zero it = []
drain (suc fuel) it = seen (next it).1 (drain fuel (next it).0)

-- The number of ints in a range, and `n` ints from `lo` on.
abbrev pub size : ℤ → ℤ → Bool → ℕ
size lo hi inclusive =
    pos_part hi + neg_part lo + (if inclusive then 1 else 0) - (pos_part lo + neg_part hi)

abbrev pub ints_from : ℤ → ℕ → List Value
ints_from lo zero = []
ints_from lo (suc n) = Value.int lo ∷ ints_from (lo +ℤ pos 1) n

in_range-size :
    (lo hi : ℤ) (inclusive : Bool)
    → (in_range lo hi inclusive ≡ true → 0 < size lo hi inclusive)
      × (in_range lo hi inclusive ≡ false → size lo hi inclusive ≡ 0)
unfolding in_range
in_range-size lo hi true = (λ e. ground arith, λ e. ground arith)
in_range-size lo hi false = (λ e. ground arith, λ e. ground arith)

size-next :
    (lo hi : ℤ) (inclusive : Bool)
    → 0 < size lo hi inclusive
    → suc (size (lo +ℤ pos 1) hi inclusive) ≡ size lo hi inclusive
size-next lo hi inclusive h = omega (arith, +ℤ_parts lo (pos 1))

drain-done :
    (fuel : ℕ) (lo hi : ℤ) (inclusive : Bool) → drain fuel (range_iter lo hi inclusive true) ≡ []
unfolding drain next
drain-done zero lo hi inclusive = refl
drain-done (suc fuel) lo hi inclusive = refl

-- A loop over a range of ints sees each of them once, in order, and then ends, also where the range
-- ends at the largest int.
pub drain-ints_from :
    (fuel : ℕ) (lo hi : ℤ) (inclusive : Bool)
    → IsI64 lo
    → IsI64 hi
    → size lo hi inclusive < fuel
    → drain fuel (range_iter lo hi inclusive false) ≡ ints_from lo (size lo hi inclusive)
unfolding drain next advance
drain-ints_from zero lo hi inclusive v w h = absurd (omega arith)
drain-ints_from (suc fuel) lo hi inclusive v w h = elim (Bool-cases (in_range lo hi inclusive)) [
  | inr f ↦ rw (f, (in_range-size lo hi inclusive).1 f) refl
  | inl t ↦
      let some_left = (in_range-size lo hi inclusive).0 t in
      elim (Option-cases (checked_add lo (pos 1))) [
        | inl n ↦
            let top : lo ≡ pos max_i64 = checked_add-one_none lo v n in
            let last : size lo hi inclusive ≡ 1 =
              ground (arith, ap pos_part top, ap neg_part top, w.0, some_left) in
            rw (t, n, last) (ap (◌∷◌ (Value.int lo)) (drain-done fuel lo hi inclusive))
        | inr (c, s) ↦
            let (same, v') = checked_add-some lo (pos 1) c s in
            let less = size-next lo hi inclusive some_left in
            rw (t, s, ← same, ← less)
              (ap (◌∷◌ (Value.int lo)) (
                drain-ints_from fuel (lo +ℤ pos 1) hi inclusive (subst IsI64 (sym same) v') w
                  (omega arith)))
      ]
]

drop_beyond : (items : List Value) (ix : ℕ) → length items ≤ ix → drop ix items ≡ []
drop_beyond [] zero h = refl
drop_beyond [] (suc ix) h = refl
drop_beyond (x ∷ items) zero h = absurd (omega arith)
drop_beyond (x ∷ items) (suc ix) h = drop_beyond items ix (omega arith)

drop-get_elem? :
    (items : List Value) (ix : ℕ) (item : Value)
    → get_elem? items ix ≡ some item
    → drop ix items ≡ item ∷ drop (suc ix) items
drop-get_elem? [] ix item e = cc
drop-get_elem? (x ∷ items) zero item e = ap (λ y. y ∷ items) (eq_of_some e)
drop-get_elem? (x ∷ items) (suc ix) item e = drop-get_elem? items ix item e

drop-none : (items : List Value) (ix : ℕ) → get_elem? items ix ≡ none → drop ix items ≡ []
drop-none [] ix e = drop_beyond [] ix (omega arith)
drop-none (x ∷ items) zero e = cc
drop-none (x ∷ items) (suc ix) e = drop-none items ix e

-- A loop over a snapshot sees its items from the index on, in order.
pub drain-drop :
    (fuel : ℕ) (items : List Value) (ix : ℕ)
    → length items < fuel + ix
    → drain fuel (items_iter items ix) ≡ drop ix items
unfolding drain next
drain-drop zero items ix h = sym (drop_beyond items ix (omega arith))
drain-drop (suc fuel) items ix h = elim (Option-cases (get_elem? items ix)) [
  | inl n ↦ rw n (sym (drop-none items ix n))
  | inr (item, s) ↦ rw s (
      ap (◌∷◌ item) (drain-drop fuel items (suc ix) (omega arith))
      ∙ sym (drop-get_elem? items ix item s))
]
