-- ===== src/Table/Map/Refines.antt =====
-- Each operation of `OrderedMap` keeps the index right, and acts on the entries as the linear scan
-- over the plain list does.
use brasa.Prelude.{
  ℕ, zero, suc, ◌≡◌, refl, ap, sym, ◌∙◌, inl, inr, Bool, Option, none, some, List, [], ◌∷◌, ◌++◌,
  arith, Option-cases, get_elem?, length-map, ◌>>=◌,
}
use mathlib.Core.List.{map-append}
use brasa.Table.{HashKey}
use brasa.Table.Index.{erase_at, scan, scan_sound}
use brasa.Table.Keys.{IsLawful, IsIndexed, IsDistinct, position-scan, first_at_of_absent}
use brasa.Table.Changes.{
  remove_key, push_key-IsIndexed, remove_key-IsIndexed, index_keys-IsIndexed, IsIndexed-nil,
}
use brasa.Table.Map.{
  OrderedMap, keys, set_value, position_of, get, insert_at, insert, from_distinct_entries,
  remove_at, remove, lookup, upsert, drop_key,
}

module _ {ℓ} {V : Type ℓ} (hash_key : V → Option HashKey) where
  -- The index answers for the keys of the entries.
  pub record IsValid (m : OrderedMap V) : Type 0 where
    pub right : IsIndexed hash_key (keys m.entries) m.index m.unprojectable

abbrev is_key {ℓ} : {V : Type ℓ} → (V → V → Bool) → V → V → Bool
is_key eq key k = eq k key

module _ {ℓ} {V : Type ℓ} (eq : V → V → Bool) (key : V) where
  read_at-scan :
      (es : List (V × V))
      → (scan (is_key eq key) (keys es) >>= λ ix. get_elem? es ix >>= λ e. some e.1)
        ≡ lookup eq key es
  unfolding scan
  read_at-scan [] = refl
  read_at-scan ((k, v) ∷ es) = elim (Option-cases (scan (is_key eq key) (keys es))) [
    | inl n ↦ ground (arith, read_at-scan es)
    | inr (q, s) ↦ ground (arith, read_at-scan es)
  ]

  write_at-scan :
      (es : List (V × V)) (value : V)
      → (elim (scan (is_key eq key) (keys es)) [
        | some ix ↦ set_value es ix value
        | none ↦ es ++ (key, value) ∷ []
      ])
        ≡ upsert eq key value es
  unfolding scan set_value
  write_at-scan [] value = refl
  write_at-scan ((k, v) ∷ es) value = elim (Option-cases (scan (is_key eq key) (keys es))) [
    | inl n ↦ ground (arith, write_at-scan es value)
    | inr (q, s) ↦ ground (arith, write_at-scan es value)
  ]

  erase_at-scan :
      (es : List (V × V)) (p : ℕ)
      → scan (is_key eq key) (keys es) ≡ some p
      → erase_at p es ≡ drop_key eq key es
  unfolding scan erase_at
  erase_at-scan [] p e = cc
  erase_at-scan ((k, v) ∷ es) p e = elim (Option-cases (scan (is_key eq key) (keys es))) [
    | inl n ↦ ground arith
    | inr (q, s) ↦ ground (arith, erase_at-scan es q s)
  ]

  drop_key_absent :
      (es : List (V × V)) → scan (is_key eq key) (keys es) ≡ none → drop_key eq key es ≡ es
  unfolding scan
  drop_key_absent [] e = refl
  drop_key_absent ((k, v) ∷ es) e = elim (Option-cases (scan (is_key eq key) (keys es))) [
    | inl n ↦ ground (arith, drop_key_absent es n)
    | inr (q, s) ↦ ground arith
  ]

keys-set_value {ℓ} :
    {V : Type ℓ} (es : List (V × V)) (ix : ℕ) (value : V) → keys (set_value es ix value) ≡ keys es
unfolding set_value
keys-set_value [] ix value = refl
keys-set_value ((k, v) ∷ es) zero value = refl
keys-set_value ((k, v) ∷ es) (suc ix) value = ap (◌∷◌ k) (keys-set_value es ix value)

keys-erase_at {ℓ} :
    {V : Type ℓ} (es : List (V × V)) (ix : ℕ) → keys (erase_at ix es) ≡ erase_at ix (keys es)
unfolding erase_at
keys-erase_at [] ix = refl
keys-erase_at ((k, v) ∷ es) zero = refl
keys-erase_at ((k, v) ∷ es) (suc ix) = ap (◌∷◌ k) (keys-erase_at es ix)

get_elem?-keys {ℓ} :
    {V : Type ℓ} (es : List (V × V)) (ix : ℕ) {k : V}
    → get_elem? (keys es) ix ≡ some k
    → (v : V) × (get_elem? es ix ≡ some (k, v))
get_elem?-keys [] ix h = cc
get_elem?-keys ((j, v) ∷ es) zero h = (v, ground arith)
get_elem?-keys ((j, v) ∷ es) (suc ix) h = get_elem?-keys es ix h

module _ {ℓ} {V : Type ℓ} (hash_key : V → Option HashKey) (eq : V → V → Bool) where
  -- What `remove` does where the plain list finds a value, and where it finds none.
  abbrev pub Removes : OrderedMap V → V → Option V → Type ℓ
  Removes m key none = remove hash_key m eq key ≡ none
  Removes m key (some value) =
      (m' : OrderedMap V) × (remove hash_key m eq key ≡ some (value, m'))
      × (m'.entries ≡ drop_key eq key m.entries)
      × IsValid hash_key m'

module _ {ℓ} {V : Type ℓ} (hash_key : V → Option HashKey) where
  removed_at : OrderedMap V → ℕ → V → V → OrderedMap V
  removed_at m ix k value = record {
    entries = erase_at ix m.entries;
    index = (remove_key hash_key k ix m.index m.unprojectable).0;
    unprojectable = (remove_key hash_key k ix m.index m.unprojectable).1;
  }

module _ {ℓ} {V : Type ℓ} (hash_key : V → Option HashKey) (eq : V → V → Bool)
    (law : IsLawful hash_key eq) where
  -- Behind a right index the position of a key is where the linear scan finds it.
  position_of-scan :
      (m : OrderedMap V) (key : V)
      → IsValid hash_key m
      → position_of hash_key m eq key ≡ scan (is_key eq key) (keys m.entries)
  unfolding position_of
  position_of-scan m key v =
      position-scan hash_key eq law (keys m.entries) m.index m.unprojectable key v.right

  -- Where the projection agrees with the equality and the index is right, `get` answers the value of
  -- the first entry whose key is equal, and `none` where there is none.
  pub get-lookup :
      (m : OrderedMap V) (key : V)
      → IsValid hash_key m
      → get hash_key m eq key ≡ lookup eq key m.entries
  unfolding get
  get-lookup m key v = rw (position_of-scan m key v) (read_at-scan eq key m.entries)

  -- Where the projection agrees with the equality and the index is right, `insert` replaces the
  -- value of the first equal key in its place, and appends the entry where there is none.
  pub insert-upsert :
      (m : OrderedMap V) (key value : V)
      → IsValid hash_key m
      → (insert hash_key m eq key value).entries ≡ upsert eq key value m.entries
  unfolding insert insert_at
  insert-upsert m key value v = elim (Option-cases (scan (is_key eq key) (keys m.entries))) [
    | inl n ↦ rw (position_of-scan m key v, n) (rw n at (write_at-scan eq key m.entries value))
    | inr (q, s) ↦ rw (position_of-scan m key v, s) (rw s at (write_at-scan eq key m.entries value))
  ]

  -- `insert` keeps the index and the count of the unprojectable keys right.
  pub insert-IsValid :
      (m : OrderedMap V) (key value : V)
      → IsValid hash_key m
      → IsValid hash_key (insert hash_key m eq key value)
  unfolding insert insert_at
  insert-IsValid m key value v = elim (Option-cases (scan (is_key eq key) (keys m.entries))) [
    | inl n ↦
        rw (position_of-scan m key v, n)
          (record {
            right =
                rw (map-append, ← length-map m.entries (λ e. e.0))
                  (push_key-IsIndexed hash_key (keys m.entries) key m.index m.unprojectable
                    (λ h e. first_at_of_absent hash_key eq law (keys m.entries) key h n e) v.right);
          })
    | inr (q, s) ↦
        rw (position_of-scan m key v, s)
          (record { right = rw (keys-set_value m.entries q value) v.right })
  ]

  -- Where the projection agrees with the equality and the index is right, `remove` answers the value
  -- of the first equal key, takes that entry out and leaves a right index; `none` where there is none.
  pub remove-Removes :
      (m : OrderedMap V) (key : V)
      → IsValid hash_key m
      → Removes hash_key eq m key (lookup eq key m.entries)
  unfolding remove remove_at removed_at
  remove-Removes m key v = elim (Option-cases (scan (is_key eq key) (keys m.entries))) [
    | inl n ↦ rw (← read_at-scan eq key m.entries, n) (rw (position_of-scan m key v, n))
    | inr (q, s) ↦
        let (k, at, same) = scan_sound (is_key eq key) (keys m.entries) q s in
        let (value, here) = get_elem?-keys m.entries q at in
        let found : lookup eq key m.entries ≡ some value =
          sym (read_at-scan eq key m.entries) ∙ rw (s, here) in
        rw found (
          removed_at hash_key m q k value,
          rw (position_of-scan m key v, s, here),
          erase_at-scan eq key m.entries q s,
          record {
            right = rw (keys-erase_at m.entries q) (
                remove_key-IsIndexed hash_key (keys m.entries) q k m.index m.unprojectable at
                  v.right);
          },
        )
  ]

module _ {ℓ} {V : Type ℓ} (hash_key : V → Option HashKey) where
  -- Entries with distinct keys make a map whose index is right.
  pub from_distinct_entries-IsValid :
      (entries : List (V × V))
      → IsDistinct hash_key (keys entries)
      → IsValid hash_key (from_distinct_entries hash_key entries)
  unfolding from_distinct_entries
  from_distinct_entries-IsValid entries d = record {
    right = index_keys-IsIndexed hash_key [] (keys entries) 0 [] 0 refl d (IsIndexed-nil hash_key);
  }
