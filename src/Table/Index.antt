-- ===== src/Table/Index.antt =====
-- The position index, and what it answers for a list of keys: a key's projection is found at the
-- position of the first key that projects to it.
use brasa.Prelude.{
  ℕ, zero, suc, ◌-◌, ◌≡◌, refl, subst, inl, inr, Bool, true, false, Option, none, some, List, [],
  ◌∷◌, ◌++◌, arith, ltb, if◌then◌else◌, Bool-cases, Option-cases, length, get_elem?,
}
use mathlib.Core.Option
use brasa.Table.{HashKey, key_eq, key_eq_iff}

abbrev pub KeyIndex : Type 0
KeyIndex = List (HashKey × ℕ)

-- `HashMap::get`
unfoldable pub find : HashKey → KeyIndex → Option ℕ
find h [] = none
find h ((j, p) ∷ m) = if key_eq j h then some p else find h m

-- `HashMap::insert`
unfoldable pub put : HashKey → ℕ → KeyIndex → KeyIndex
put h p [] = (h, p) ∷ []
put h p ((j, q) ∷ m) = if key_eq j h then (h, p) ∷ m else (j, q) ∷ put h p m

-- `HashMap::remove`
unfoldable pub delete : HashKey → KeyIndex → KeyIndex
delete h [] = []
delete h ((j, q) ∷ m) = let rest = delete h m in if key_eq j h then rest else (j, q) ∷ rest

-- The repair after the element at `ix` has left the ordered `Vec`.
abbrev pub shifted : ℕ → ℕ → ℕ
shifted ix p = if ltb ix p then p - 1 else p

unfoldable pub shift : ℕ → KeyIndex → KeyIndex
shift ix [] = []
shift ix ((j, p) ∷ m) = (j, shifted ix p) ∷ shift ix m

pub key_eq_refl : (h : HashKey) → key_eq h h ≡ true
key_eq_refl h = (key_eq_iff h h).1 refl

pub find-put :
    (h j : HashKey) (p : ℕ) (m : KeyIndex)
    → find j (put h p m) ≡ (if key_eq h j then some p else find j m)
unfolding find put
find-put h j p [] = refl
find-put h j p ((i, q) ∷ m) =
    ground (arith, key_eq_iff h j, key_eq_iff i h, key_eq_iff i j, find-put h j p m)

pub find-delete :
    (h j : HashKey) (m : KeyIndex) → find j (delete h m) ≡ (if key_eq h j then none else find j m)
unfolding find delete
find-delete h j [] = ground arith
find-delete h j ((i, q) ∷ m) =
    ground (arith, key_eq_iff h j, key_eq_iff i h, key_eq_iff i j, find-delete h j m)

pub find-shift :
    (ix : ℕ) (j : HashKey) (m : KeyIndex) → find j (shift ix m) ≡ Option.map (shifted ix) (find j m)
unfolding find shift
find-shift ix j [] = refl
find-shift ix j ((i, q) ∷ m) = elim (Bool-cases (key_eq i j)) [
  | inl e ↦ rw e
  | inr e ↦ rw e (find-shift ix j m)
]

-- `Vec::remove`, the removal of one position.
unfoldable pub erase_at {ℓ} : {A : Type ℓ} → ℕ → List A → List A
erase_at i [] = []
erase_at zero (x ∷ xs) = xs
erase_at (suc i) (x ∷ xs) = x ∷ erase_at i xs

-- `iter().position(..)`
unfoldable pub scan {ℓ} : {A : Type ℓ} → (A → Bool) → List A → Option ℕ
scan test [] = none
scan test (x ∷ xs) = if test x then some 0 else Option.map suc (scan test xs)

abbrev pub or_else : Option ℕ → Option ℕ → Option ℕ
or_else (some p) q = some p
or_else none q = q

module _ {ℓ} {A : Type ℓ} (test : A → Bool) where
  pub scan-push :
      (xs : List A) (x : A)
      → scan test (xs ++ x ∷ [])
        ≡ or_else (scan test xs) (if test x then some (length xs) else none)
  unfolding scan
  scan-push [] x = ground arith
  scan-push (y ∷ xs) x = ground (arith, scan-push xs x)

  -- The scan finds a position of the list whose element passes the test.
  pub scan_sound :
      (xs : List A) (p : ℕ)
      → scan test xs ≡ some p
      → (a : A) × (get_elem? xs p ≡ some a) × (test a ≡ true)
  unfolding scan
  scan_sound [] p e = cc
  scan_sound (x ∷ xs) p e = elim (Bool-cases (test x)) [
    | inl t ↦ let z : p ≡ 0 = ground arith in (x, rw z refl, t)
    | inr f ↦ elim (Option-cases (scan test xs)) [
      | inl n ↦ absurd (ground arith)
      | inr (q, s) ↦
          let (a, at, t) = scan_sound xs q s in let z : p ≡ suc q = ground arith in (a, rw z at, t)
    ]
  ]

  -- An element that fails the test leaves without changing what is found, but for the shift.
  pub scan-erase_at :
      (xs : List A) (ix : ℕ) (x : A)
      → get_elem? xs ix ≡ some x
      → test x ≡ false
      → scan test (erase_at ix xs) ≡ Option.map (shifted ix) (scan test xs)
  unfolding scan erase_at
  scan-erase_at [] ix x e f = cc
  scan-erase_at (y ∷ xs) zero x e f =
      let same : y ≡ x = ground arith in
      elim (Option-cases (scan test xs)) [ inl n ↦ ground arith | inr (q, s) ↦ ground arith ]
  scan-erase_at (y ∷ xs) (suc ix) x e f = elim (Option-cases (scan test xs)) [
    | inl n ↦ ground (arith, scan-erase_at xs ix x)
    | inr (q, s) ↦ ground (arith, scan-erase_at xs ix x)
  ]

  pub scan-cons_none :
      (x : A) (xs : List A) → scan test (x ∷ xs) ≡ none → (test x ≡ false) × (scan test xs ≡ none)
  unfolding scan
  scan-cons_none x xs e = elim (Bool-cases (test x)) [
    | inl t ↦ absurd (ground arith)
    | inr f ↦ elim (Option-cases (scan test xs)) [
      | inl n ↦ (f, n)
      | inr (q, s) ↦ absurd (ground arith)
    ]
  ]

  pub scan-push_none :
      (xs : List A) (x : A) → scan test xs ≡ none → test x ≡ false → scan test (xs ++ x ∷ []) ≡ none
  scan-push_none xs x n f = rw (scan-push xs x, n, f)

  pub scan-cons_of_none :
      (x : A) (xs : List A) → test x ≡ false → scan test xs ≡ none → scan test (x ∷ xs) ≡ none
  unfolding scan
  scan-cons_of_none x xs f n = rw (f, n)

  -- Where the scan finds nothing, every element fails the test.
  pub scan_complete :
      (xs : List A) (p : ℕ) (a : A) → get_elem? xs p ≡ some a → scan test xs ≡ none → test a ≡ false
  scan_complete [] p a e n = cc
  scan_complete (x ∷ xs) zero a e n =
      let same : x ≡ a = ground arith in subst (λ y. test y ≡ false) same (scan-cons_none x xs n).0
  scan_complete (x ∷ xs) (suc p) a e n = scan_complete xs p a e (scan-cons_none x xs n).1

  pub scan-erase_at-none :
      (xs : List A) (ix : ℕ) → scan test xs ≡ none → scan test (erase_at ix xs) ≡ none
  unfolding erase_at
  scan-erase_at-none [] ix n = n
  scan-erase_at-none (x ∷ xs) zero n = (scan-cons_none x xs n).1
  scan-erase_at-none (x ∷ xs) (suc ix) n =
      scan-cons_of_none x (erase_at ix xs) (scan-cons_none x xs n).0
        (scan-erase_at-none xs ix (scan-cons_none x xs n).1)
