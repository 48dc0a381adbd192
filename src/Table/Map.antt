-- ===== src/Table/Map.antt =====
-- `OrderedMap`: its operations, and that each is the operation on the plain list of entries that
-- a linear scan would give.
pub mod Refines
pub mod Read
use brasa.Prelude.{
  ℕ, zero, suc, ◌+◌, ◌-◌, ◌<◌, ◌≤◌, ◌≡◌, ◌≢◌, refl, ap, sym, ◌∙◌, inl, inr, Bool, true, false,
  Option, none, some, List, [], ◌∷◌, ◌++◌, map, arith, ltb, ◌==◌, if◌then◌else◌, Bool-cases,
  Option-cases, length, get_elem?, All, length-map, ◌>>=◌, is_some,
}
use mathlib.Core.Option
use mathlib.Core.List.{map-append, append_assoc, append-nil}
use brasa.Table.{HashKey, key_eq, key_eq_iff}
use brasa.Table.Index.{KeyIndex, erase_at, scan, scan_sound}
use brasa.Table.Keys.{
  position, IsLawful, IsIndexed, IsDistinct, first_at, position-scan, first_at_of_absent,
}
use brasa.Table.Changes.{push_key, remove_key, index_keys, push_key-IsIndexed, remove_key-IsIndexed}

pub record OrderedMap {ℓ} (V : Type ℓ) : Type ℓ where
  pub entries : List (V × V)
  pub index : KeyIndex
  pub unprojectable : ℕ

abbrev pub keys {ℓ} : {V : Type ℓ} → List (V × V) → List V
keys entries = map (λ e. e.0) entries

-- `self.entries[ix].1 = value`
unfoldable pub set_value {ℓ} : {V : Type ℓ} → List (V × V) → ℕ → V → List (V × V)
set_value [] ix value = []
set_value ((k, v) ∷ es) zero value = (k, value) ∷ es
set_value ((k, v) ∷ es) (suc ix) value = (k, v) ∷ set_value es ix value

pub new {ℓ} : {V : Type ℓ} → OrderedMap V
new = record { entries = []; index = []; unprojectable = 0 }

module _ {ℓ} {V : Type ℓ} (hash_key : V → Option HashKey) where
  unfoldable pub from_distinct_entries : List (V × V) → OrderedMap V
  from_distinct_entries entries =
      let (index, n) = index_keys hash_key (keys entries) 0 [] 0 in
      record { entries = entries; index = index; unprojectable = n }

  unfoldable pub position_of : OrderedMap V → (V → V → Bool) → V → Option ℕ
  position_of m eq key = position hash_key m.index m.unprojectable eq key (keys m.entries)

  unfoldable pub get : OrderedMap V → (V → V → Bool) → V → Option V
  get m eq key = do ix ← position_of m eq key; e ← get_elem? m.entries ix; some e.1

  unfoldable pub contains_key : OrderedMap V → (V → V → Bool) → V → Bool
  contains_key m eq key = is_some (position_of m eq key)

  -- `insert` once the key's position is known.
  unfoldable pub insert_at : OrderedMap V → V → V → Option ℕ → OrderedMap V
  unfolding set_value
  insert_at m key value (some ix) = record m { entries = set_value m.entries ix value }
  insert_at m key value none =
      let pushed = push_key hash_key key (length m.entries) m.index m.unprojectable in
      record {
        entries = m.entries ++ (key, value) ∷ [];
        index = pushed.0;
        unprojectable = pushed.1;
      }

  unfoldable pub insert : OrderedMap V → (V → V → Bool) → V → V → OrderedMap V
  insert m eq key value = insert_at m key value (position_of m eq key)

  -- The part of `remove` behind `position(key, eq)?`.
  unfoldable pub remove_at : OrderedMap V → ℕ → Option (V × OrderedMap V)
  unfolding erase_at
  remove_at m ix = do
    removed ← get_elem? m.entries ix
    let repaired = remove_key hash_key removed.0 ix m.index m.unprojectable
    some (
      removed.1,
      record { entries = erase_at ix m.entries; index = repaired.0; unprojectable = repaired.1 },
    )

  -- The removed value and the map that is left; `none` leaves the map as it was.
  unfoldable pub remove : OrderedMap V → (V → V → Bool) → V → Option (V × OrderedMap V)
  remove m eq key = position_of m eq key >>= remove_at m

-- The plain list of entries, searched from the front: what the language promises of a `Map`.
module _ {ℓ} {V : Type ℓ} (eq : V → V → Bool) where
  abbrev pub lookup : V → List (V × V) → Option V
  lookup key [] = none
  lookup key ((k, v) ∷ es) = if eq k key then some v else lookup key es

  -- An existing key keeps its place and its spelling; a new one goes to the end.
  abbrev pub upsert : V → V → List (V × V) → List (V × V)
  upsert key value [] = (key, value) ∷ []
  upsert key value ((k, v) ∷ es) =
      if eq k key then (k, value) ∷ es else (k, v) ∷ upsert key value es

  abbrev pub drop_key : V → List (V × V) → List (V × V)
  drop_key key [] = []
  drop_key key ((k, v) ∷ es) = if eq k key then es else (k, v) ∷ drop_key key es
