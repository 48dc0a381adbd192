-- ===== src/Table/Changes.antt =====
-- The index after a key is pushed and after one is removed.
use brasa.Prelude.{
  ℕ, zero, suc, ◌+◌, ◌-◌, ◌≡◌, refl, ap, sym, subst, ◌∙◌, inl, inr, false, Option, none, some, List,
  [], ◌∷◌, ◌++◌, arith, Bool-cases, Option-cases, length, get_elem?,
}
use mathlib.Core.List.{append-nil}
use brasa.Table.{HashKey, key_eq, key_eq_iff}
use brasa.Table.Index.{
  KeyIndex, find, put, delete, shift, erase_at, scan, scan-push, scan-push_none, scan-cons_none,
  scan-cons_of_none, scan-erase_at-none, scan_complete, scan-erase_at, find-put, find-delete,
  find-shift, key_eq_refl,
}
use brasa.Table.Keys.{projects_to, first_at, count_unprojectable, IsDistinct, IsIndexed}

append_cons {ℓ} :
    {A : Type ℓ} (xs : List A) (y : A) (ys : List A) → (xs ++ y ∷ []) ++ ys ≡ xs ++ y ∷ ys
append_cons [] y ys = refl
append_cons (x ∷ xs) y ys = ap (◌∷◌ x) (append_cons xs y ys)

length-snoc {ℓ} : {A : Type ℓ} (xs : List A) (y : A) → length (xs ++ y ∷ []) ≡ suc (length xs)
length-snoc [] y = refl
length-snoc (x ∷ xs) y = ap suc (length-snoc xs y)

get_elem?-middle {ℓ} :
    {A : Type ℓ} (xs : List A) (y : A) (ys : List A) → get_elem? (xs ++ y ∷ ys) (length xs) ≡ some y
get_elem?-middle [] y ys = refl
get_elem?-middle (x ∷ xs) y ys = get_elem?-middle xs y ys

module _ {ℓ} {V : Type ℓ} (hash_key : V → Option HashKey) where
  -- The index and the count after a key has been pushed at the position `len`.
  unfoldable pub push_key : V → ℕ → KeyIndex → ℕ → KeyIndex × ℕ
  push_key key len index n = elim (hash_key key) [
    | some hashed ↦ (put hashed len index, n)
    | none ↦ (index, n + 1)
  ]

  count-push :
      (keys : List V) (key : V)
      → count_unprojectable hash_key (keys ++ key ∷ [])
        ≡ count_unprojectable hash_key keys + count_unprojectable hash_key (key ∷ [])
  count-push [] key = ground arith
  count-push (k ∷ keys) key = elim (Option-cases (hash_key k)) [
    | inl e ↦ ground (arith, count-push keys key)
    | inr (h, e) ↦ ground (arith, count-push keys key)
  ]

  -- A fresh key projects to no stored key's projection.
  not_projects_to :
      (k : V) (keys : List V) (key : V) (h : HashKey)
      → ((j : HashKey) → hash_key key ≡ some j → first_at hash_key j (k ∷ keys) ≡ none)
      → hash_key k ≡ some h
      → projects_to hash_key h key ≡ false
  not_projects_to k keys key h fresh e = elim (Option-cases (hash_key key)) [
    | inl n ↦ ground arith
    | inr (j, s) ↦ elim (Bool-cases (key_eq j h)) [
      | inr f ↦ ground arith
      | inl t ↦ ground (
        arith,
        key_eq_iff j h,
        key_eq_refl j,
        (scan-cons_none (projects_to hash_key j) k keys (fresh j s)).0,
      )
    ]
  ]

  IsDistinct-push :
      (keys : List V) (key : V)
      → ((h : HashKey) → hash_key key ≡ some h → first_at hash_key h keys ≡ none)
      → IsDistinct hash_key keys
      → IsDistinct hash_key (keys ++ key ∷ [])
  unfolding scan
  IsDistinct-push [] key fresh d = (λ h e. refl, tt)
  IsDistinct-push (k ∷ keys) key fresh d = (
    λ h e.
        scan-push_none (projects_to hash_key h) keys key (d.0 h e)
          (not_projects_to k keys key h fresh e),
    IsDistinct-push keys key (λ h e. (scan-cons_none (projects_to hash_key h) k keys (fresh h e)).1)
        d.1,
  )

  pub push_key-IsIndexed :
      (keys : List V) (key : V) (index : KeyIndex) (n : ℕ)
      → ((h : HashKey) → hash_key key ≡ some h → first_at hash_key h keys ≡ none)
      → IsIndexed hash_key keys index n
      → IsIndexed hash_key
          (keys ++ key ∷ [])
          (push_key key (length keys) index n).0
          (push_key key (length keys) index n).1
  unfolding push_key
  push_key-IsIndexed keys key index n fresh v = elim (Option-cases (hash_key key)) [
    | inl e ↦ record {
      indexed = λ h. ground (arith, v.indexed h, scan-push (projects_to hash_key h) keys key);
      counted = ground (arith, v.counted, count-push keys key);
      distinct = IsDistinct-push keys key fresh v.distinct;
    }
    | inr (j, e) ↦ record {
      indexed = λ h. ground (
        arith,
        v.indexed h,
        find-put j h (length keys) index,
        scan-push (projects_to hash_key h) keys key,
        key_eq_iff j h,
        fresh j e,
      );
      counted = ground (arith, v.counted, count-push keys key);
      distinct = IsDistinct-push keys key fresh v.distinct;
    }
  ]

  -- The index and the count after the key `removed` has been taken out at the position `ix`.
  unfoldable pub remove_key : V → ℕ → KeyIndex → ℕ → KeyIndex × ℕ
  remove_key removed ix index n = elim (hash_key removed) [
    | some hashed ↦ (shift ix (delete hashed index), n)
    | none ↦ (shift ix index, n - 1)
  ]

  count-erase_at :
      (keys : List V) (ix : ℕ) (removed : V)
      → get_elem? keys ix ≡ some removed
      → count_unprojectable hash_key keys
        ≡ count_unprojectable hash_key (erase_at ix keys)
          + count_unprojectable hash_key (removed ∷ [])
  unfolding erase_at
  count-erase_at [] ix removed e = cc
  count-erase_at (k ∷ keys) zero removed e =
      let same : k ≡ removed = ground arith in rw same (ground arith)
  count-erase_at (k ∷ keys) (suc ix) removed e = elim (Option-cases (hash_key k)) [
    | inl n ↦ ground (arith, count-erase_at keys ix removed e)
    | inr (h, s) ↦ ground (arith, count-erase_at keys ix removed e)
  ]

  -- A stored key before the removed one projects elsewhere.
  apart :
      (k : V) (keys : List V) (ix : ℕ) (removed : V) (h : HashKey)
      → get_elem? keys ix ≡ some removed
      → hash_key removed ≡ some h
      → ((j : HashKey) → hash_key k ≡ some j → first_at hash_key j keys ≡ none)
      → projects_to hash_key h k ≡ false
  apart k keys ix removed h at s fresh = elim (Option-cases (hash_key k)) [
    | inl n ↦ ground arith
    | inr (j, e) ↦ elim (Bool-cases (key_eq j h)) [
      | inr f ↦ ground arith
      | inl t ↦ ground (
        arith,
        key_eq_iff j h,
        key_eq_refl h,
        scan_complete (projects_to hash_key j) keys ix removed at (fresh j e),
      )
    ]
  ]

  -- The removed key's projection is found no more.
  first_at-erase_at_self :
      (keys : List V) (ix : ℕ) (removed : V) (h : HashKey)
      → get_elem? keys ix ≡ some removed
      → hash_key removed ≡ some h
      → IsDistinct hash_key keys
      → first_at hash_key h (erase_at ix keys) ≡ none
  unfolding erase_at
  first_at-erase_at_self [] ix removed h e s d = cc
  first_at-erase_at_self (k ∷ keys) zero removed h e s d =
      d.0 h (let same : k ≡ removed = ground arith in rw same s)
  first_at-erase_at_self (k ∷ keys) (suc ix) removed h e s d =
      scan-cons_of_none (projects_to hash_key h) k (erase_at ix keys)
        (apart k keys ix removed h e s d.0) (first_at-erase_at_self keys ix removed h e s d.1)

  IsDistinct-erase_at :
      (keys : List V) (ix : ℕ) (removed : V)
      → get_elem? keys ix ≡ some removed
      → IsDistinct hash_key keys
      → IsDistinct hash_key (erase_at ix keys)
  unfolding erase_at
  IsDistinct-erase_at [] ix removed e d = tt
  IsDistinct-erase_at (k ∷ keys) zero removed e d = d.1
  IsDistinct-erase_at (k ∷ keys) (suc ix) removed e d = (
    λ h s. scan-erase_at-none (projects_to hash_key h) keys ix (d.0 h s),
    IsDistinct-erase_at keys ix removed e d.1,
  )

  pub remove_key-IsIndexed :
      (keys : List V) (ix : ℕ) (removed : V) (index : KeyIndex) (n : ℕ)
      → get_elem? keys ix ≡ some removed
      → IsIndexed hash_key keys index n
      → IsIndexed hash_key
          (erase_at ix keys)
          (remove_key removed ix index n).0
          (remove_key removed ix index n).1
  unfolding remove_key
  remove_key-IsIndexed keys ix removed index n at v = elim (Option-cases (hash_key removed)) [
    | inl e ↦ record {
      indexed = λ h. ground (
        arith,
        v.indexed h,
        find-shift ix h index,
        scan-erase_at (projects_to hash_key h) keys ix removed at,
      );
      counted = ground (arith, v.counted, count-erase_at keys ix removed at);
      distinct = IsDistinct-erase_at keys ix removed at v.distinct;
    }
    | inr (j, e) ↦ record {
      indexed = λ h. ground (
        arith,
        v.indexed h,
        find-shift ix h (delete j index),
        find-delete j h index,
        key_eq_iff j h,
        scan-erase_at (projects_to hash_key h) keys ix removed at,
        first_at-erase_at_self keys ix removed j at e v.distinct,
      );
      counted = ground (arith, v.counted, count-erase_at keys ix removed at);
      distinct = IsDistinct-erase_at keys ix removed at v.distinct;
    }
  ]

  -- The loop of `from_distinct_entries` over the keys from `len` on.
  unfoldable pub index_keys : List V → ℕ → KeyIndex → ℕ → KeyIndex × ℕ
  unfolding push_key
  index_keys [] len index n = (index, n)
  index_keys (k ∷ ks) len index n =
      let (index', n') = push_key k len index n in index_keys ks (suc len) index' n'

  -- In a list of distinct keys no earlier key shares a later key's projection.
  first_at_before :
      (before : List V) (k : V) (after : List V) (h : HashKey)
      → IsDistinct hash_key (before ++ k ∷ after)
      → hash_key k ≡ some h
      → first_at hash_key h before ≡ none
  unfolding scan
  first_at_before [] k after h d e = refl
  first_at_before (b ∷ before) k after h d e =
      scan-cons_of_none (projects_to hash_key h) b before
        (apart b (before ++ k ∷ after) (length before) k h (get_elem?-middle before k after) e d.0)
        (first_at_before before k after h d.1 e)

  pub index_keys-IsIndexed :
      (before keys : List V) (len : ℕ) (index : KeyIndex) (n : ℕ)
      → len ≡ length before
      → IsDistinct hash_key (before ++ keys)
      → IsIndexed hash_key before index n
      → IsIndexed hash_key
          (before ++ keys)
          (index_keys keys len index n).0
          (index_keys keys len index n).1
  unfolding index_keys
  index_keys-IsIndexed before [] len index n e d v = rw append-nil v
  index_keys-IsIndexed before (k ∷ keys) len index n e d v =
      subst
        (λ l.
          IsIndexed hash_key l (index_keys (k ∷ keys) len index n).0
            (index_keys (k ∷ keys) len index n).1)
        (append_cons before k keys)
        (index_keys-IsIndexed (before ++ k ∷ []) keys (suc len) (push_key k len index n).0
          (push_key k len index n).1 (ap suc e ∙ sym (length-snoc before k))
          (subst (IsDistinct hash_key) (sym (append_cons before k keys)) d)
          (rw e (push_key-IsIndexed before k index n (λ h. first_at_before before k keys h d) v)))

  pub IsIndexed-nil : IsIndexed hash_key [] [] 0
  unfolding find scan
  IsIndexed-nil = record { indexed = λ h. refl; counted = refl; distinct = tt }
