-- ===== src/Table/Set.antt =====
-- `OrderedSet`: its operations, and that each is the operation on the plain list of elements that
-- a linear scan would give.
use brasa.Prelude.{
  ℕ, ◌≡◌, refl, inl, inr, Bool, true, false, Option, none, some, List, [], ◌∷◌, ◌++◌, arith,
  if◌then◌else◌, Option-cases, length, get_elem?, ◌>>=◌, ◌||◌, is_some,
}
use brasa.Table.{HashKey}
use brasa.Table.Index.{KeyIndex, erase_at, scan, scan_sound}
use brasa.Table.Keys.{position, IsLawful, IsIndexed, IsDistinct, position-scan, first_at_of_absent}
use brasa.Table.Changes.{
  push_key, remove_key, index_keys, push_key-IsIndexed, remove_key-IsIndexed, index_keys-IsIndexed,
  IsIndexed-nil,
}

pub record OrderedSet {ℓ} (V : Type ℓ) : Type ℓ where
  pub items : List V
  pub index : KeyIndex
  pub unprojectable : ℕ

module _ {ℓ} {V : Type ℓ} (hash_key : V → Option HashKey) where
  unfoldable pub from_distinct_items : List V → OrderedSet V
  from_distinct_items items =
      let (index, n) = index_keys hash_key items 0 [] 0 in
      record { items = items; index = index; unprojectable = n }

  unfoldable pub position_of : OrderedSet V → (V → V → Bool) → V → Option ℕ
  position_of s eq value = position hash_key s.index s.unprojectable eq value s.items

  unfoldable pub contains : OrderedSet V → (V → V → Bool) → V → Bool
  contains s eq value = is_some (position_of s eq value)

  -- `add` once the value's position is known.
  unfoldable pub add_at : OrderedSet V → V → Option ℕ → OrderedSet V
  add_at s value (some _) = s
  add_at s value none =
      let pushed = push_key hash_key value (length s.items) s.index s.unprojectable in
      record { items = s.items ++ value ∷ []; index = pushed.0; unprojectable = pushed.1 }

  unfoldable pub add : OrderedSet V → (V → V → Bool) → V → OrderedSet V
  add s eq value = add_at s value (position_of s eq value)

  unfoldable pub remove_at : OrderedSet V → ℕ → Option (OrderedSet V)
  unfolding erase_at
  remove_at s ix = do
    removed ← get_elem? s.items ix
    let repaired = remove_key hash_key removed ix s.index s.unprojectable
    some (record { items = erase_at ix s.items; index = repaired.0; unprojectable = repaired.1 })

  -- `some` of the set that is left answers `true`, and `none` answers `false`.
  unfoldable pub remove : OrderedSet V → (V → V → Bool) → V → Option (OrderedSet V)
  remove s eq value = position_of s eq value >>= remove_at s

  pub record IsValid (s : OrderedSet V) : Type 0 where
    pub right : IsIndexed hash_key s.items s.index s.unprojectable

-- The plain list of elements, searched from the front.
module _ {ℓ} {V : Type ℓ} (eq : V → V → Bool) where
  abbrev pub has : V → List V → Bool
  has value [] = false
  has value (x ∷ xs) = eq x value || has value xs

  abbrev pub include : V → List V → List V
  include value xs = if has value xs then xs else xs ++ value ∷ []

  abbrev pub exclude : V → List V → List V
  exclude value [] = []
  exclude value (x ∷ xs) = if eq x value then xs else x ∷ exclude value xs

abbrev is_item {ℓ} : {V : Type ℓ} → (V → V → Bool) → V → V → Bool
is_item eq value x = eq x value

module _ {ℓ} {V : Type ℓ} (eq : V → V → Bool) (value : V) where
  is_some-scan : (xs : List V) → is_some (scan (is_item eq value) xs) ≡ has eq value xs
  unfolding scan
  is_some-scan [] = refl
  is_some-scan (x ∷ xs) = elim (Option-cases (scan (is_item eq value) xs)) [
    | inl n ↦ ground (arith, is_some-scan xs)
    | inr (q, s) ↦ ground (arith, is_some-scan xs)
  ]

  erase_at-scan :
      (xs : List V) (p : ℕ)
      → scan (is_item eq value) xs ≡ some p
      → erase_at p xs ≡ exclude eq value xs
  unfolding scan erase_at
  erase_at-scan [] p e = cc
  erase_at-scan (x ∷ xs) p e = elim (Option-cases (scan (is_item eq value) xs)) [
    | inl n ↦ ground arith
    | inr (q, s) ↦ ground (arith, erase_at-scan xs q s)
  ]

module _ {ℓ} {V : Type ℓ} (hash_key : V → Option HashKey) (eq : V → V → Bool) where
  abbrev pub Removes : OrderedSet V → V → Bool → Type ℓ
  Removes s value false = remove hash_key s eq value ≡ none
  Removes s value true =
      (s' : OrderedSet V) × (remove hash_key s eq value ≡ some s')
      × (s'.items ≡ exclude eq value s.items)
      × IsValid hash_key s'

module _ {ℓ} {V : Type ℓ} (hash_key : V → Option HashKey) where
  removed_at : OrderedSet V → ℕ → V → OrderedSet V
  removed_at s ix x = record {
    items = erase_at ix s.items;
    index = (remove_key hash_key x ix s.index s.unprojectable).0;
    unprojectable = (remove_key hash_key x ix s.index s.unprojectable).1;
  }

module _ {ℓ} {V : Type ℓ} (hash_key : V → Option HashKey) (eq : V → V → Bool)
    (law : IsLawful hash_key eq) where
  position_of-scan :
      (s : OrderedSet V) (value : V)
      → IsValid hash_key s
      → position_of hash_key s eq value ≡ scan (is_item eq value) s.items
  unfolding position_of
  position_of-scan s value v =
      position-scan hash_key eq law s.items s.index s.unprojectable value v.right

  -- `contains` is membership in the plain list of elements.
  pub contains-has :
      (s : OrderedSet V) (value : V)
      → IsValid hash_key s
      → contains hash_key s eq value ≡ has eq value s.items
  unfolding contains
  contains-has s value v = rw (position_of-scan s value v) (is_some-scan eq value s.items)

  -- Where the projection agrees with the equality and the index is right, `add` appends a value that
  -- no element equals, changes no items otherwise, and leaves a right index.
  pub add-include :
      (s : OrderedSet V) (value : V)
      → IsValid hash_key s
      → ((add hash_key s eq value).items ≡ include eq value s.items)
        × IsValid hash_key (add hash_key s eq value)
  unfolding add add_at
  add-include s value v = elim (Option-cases (scan (is_item eq value) s.items)) [
    | inl n ↦
        rw (position_of-scan s value v, n, ← is_some-scan eq value s.items, n)
          (
            refl,
            record {
              right =
                  push_key-IsIndexed hash_key s.items value s.index s.unprojectable
                    (λ h e. first_at_of_absent hash_key eq law s.items value h n e) v.right;
            },
          )
    | inr (q, f) ↦ rw (position_of-scan s value v, f, ← is_some-scan eq value s.items, f) (refl, v)
  ]

  -- `remove` answers whether an element was equal, takes it out and repairs the index.
  pub remove-Removes :
      (s : OrderedSet V) (value : V)
      → IsValid hash_key s
      → Removes hash_key eq s value (has eq value s.items)
  unfolding remove remove_at removed_at
  remove-Removes s value v = elim (Option-cases (scan (is_item eq value) s.items)) [
    | inl n ↦ rw (← is_some-scan eq value s.items, n) (rw (position_of-scan s value v, n))
    | inr (q, f) ↦
        let (x, at, same) = scan_sound (is_item eq value) s.items q f in
        rw (← is_some-scan eq value s.items, f)
          (
            removed_at hash_key s q x,
            rw (position_of-scan s value v, f, at),
            erase_at-scan eq value s.items q f,
            record {
              right = remove_key-IsIndexed hash_key s.items q x s.index s.unprojectable at v.right;
            },
          )
  ]

module _ {ℓ} {V : Type ℓ} (hash_key : V → Option HashKey) where
  pub from_distinct_items-IsValid :
      (items : List V)
      → IsDistinct hash_key items
      → IsValid hash_key (from_distinct_items hash_key items)
  unfolding from_distinct_items
  from_distinct_items-IsValid items d = record {
    right = index_keys-IsIndexed hash_key [] items 0 [] 0 refl d (IsIndexed-nil hash_key);
  }
