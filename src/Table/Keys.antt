-- ===== src/Table/Keys.antt =====
-- The part that `OrderedMap` and `OrderedSet` share: the lookup of a key's position, and the
-- invariant that ties the index to the list of stored keys.
use brasa.Prelude.{
  ℕ, suc, ◌≡◌, ap, ◌∙◌, inl, inr, Bool, true, false, Option, none, some, List, [], ◌∷◌, arith, ◌==◌,
  if◌then◌else◌, Bool-cases, Option-cases,
}
use mathlib.Core.Path.{fun_ext}
use brasa.Table.{HashKey, key_eq, key_eq_iff}
use brasa.Table.Index.{KeyIndex, find, scan, key_eq_refl}

module _ {ℓ} {V : Type ℓ} (hash_key : V → Option HashKey) where
  -- `position`: through the index when no stored key fails to project and the key projects,
  -- otherwise by the linear scan.
  unfoldable pub position : KeyIndex → ℕ → (V → V → Bool) → V → List V → Option ℕ
  position index unprojectable eq key keys =
      let by_scan = scan (λ k. eq k key) keys in
      if unprojectable == 0
      then (elim (hash_key key) [ some h ↦ find h index | none ↦ by_scan ])
      else by_scan

  -- What the trait `HashKeyed` asks of the projection and the backend's `value_eq`.
  pub record IsLawful (eq : V → V → Bool) : Type ℓ where
    pub same_key : (a b : V) → eq a b ≡ true → hash_key a ≡ hash_key b
    pub eq_of_key :
        (a b : V) (h : HashKey) → hash_key a ≡ some h → hash_key b ≡ some h → eq a b ≡ true

  abbrev pub projects_to : HashKey → V → Bool
  projects_to h k = elim (hash_key k) [ none ↦ false | some j ↦ key_eq j h ]

  -- The position of the first key that projects to `h`.
  abbrev pub first_at : HashKey → List V → Option ℕ
  first_at h keys = scan (projects_to h) keys

  abbrev pub count_unprojectable : List V → ℕ
  count_unprojectable [] = 0
  count_unprojectable (k ∷ ks) =
      let rest = count_unprojectable ks in elim (hash_key k) [ none ↦ suc rest | some _ ↦ rest ]

  -- No two keys project to the same hash key.
  abbrev pub IsDistinct : List V → Type 0
  IsDistinct [] = Unit
  IsDistinct (k ∷ ks) = ((h : HashKey) → hash_key k ≡ some h → first_at h ks ≡ none) × IsDistinct ks

  pub record IsIndexed (keys : List V) (index : KeyIndex) (unprojectable : ℕ) : Type 0 where
    pub indexed : (h : HashKey) → find h index ≡ first_at h keys
    pub counted : unprojectable ≡ count_unprojectable keys
    pub distinct : IsDistinct keys

  projects_to-eq :
      (eq : V → V → Bool) (law : IsLawful eq) (key : V) (h : HashKey)
      → hash_key key ≡ some h
      → (k : V) → projects_to h k ≡ eq k key
  projects_to-eq eq law key h e k = elim (Option-cases (hash_key k)) [
    | inl n ↦ elim (Bool-cases (eq k key)) [
      | inl t ↦ cc (law.same_key k key t)
      | inr f ↦ ground arith
    ]
    | inr (j, s) ↦ elim (Bool-cases (eq k key)) [
      | inl t ↦ ground (arith, law.same_key k key t, key_eq_refl h)
      | inr f ↦ ground (arith, law.eq_of_key k key h, key_eq_iff j h)
    ]
  ]

  -- The lookup through the index is the linear scan.
  pub position-scan :
      (eq : V → V → Bool) (law : IsLawful eq) (keys : List V) (index : KeyIndex) (n : ℕ) (key : V)
      → IsIndexed keys index n
      → position index n eq key keys ≡ scan (λ k. eq k key) keys
  unfolding position
  position-scan eq law keys index n key v = elim (Bool-cases (n == 0)) [
    | inl z ↦ elim (Option-cases (hash_key key)) [
      | inl e ↦ rw (z, e)
      | inr (h, e) ↦
          rw (z, e, v.indexed h) (ap (λ t. scan t keys) (fun_ext (projects_to-eq eq law key h e)))
    ]
    | inr nz ↦ rw nz
  ]

  -- A key that the scan misses has a projection that no stored key has.
  pub first_at_of_absent :
      (eq : V → V → Bool) (law : IsLawful eq) (keys : List V) (key : V) (h : HashKey)
      → scan (λ k. eq k key) keys ≡ none
      → hash_key key ≡ some h
      → first_at h keys ≡ none
  first_at_of_absent eq law keys key h miss e =
      ap (λ t. scan t keys) (fun_ext (projects_to-eq eq law key h e)) ∙ miss
