-- ===== src/Table/Map/Read.antt =====
-- What a lookup answers after an insertion, where `eq` is an equality of keys.
use brasa.Prelude.{◌≡◌, refl, Bool, true, Option, some, List, [], ◌∷◌, arith, if◌then◌else◌}
use brasa.Table.{HashKey}
use brasa.Table.Keys.{IsLawful}
use brasa.Table.Map.{OrderedMap, get, insert, lookup, upsert}
use brasa.Table.Map.Refines.{IsValid, get-lookup, insert-upsert, insert-IsValid}

-- What makes `eq` an equality of keys. It need not be reflexive: a float NaN equals no value.
pub record IsPartialEquivalence {ℓ} {V : Type ℓ} (eq : V → V → Bool) : Type ℓ where
  pub symmetric : (a b : V) → eq a b ≡ true → eq b a ≡ true
  pub transitive : (a b c : V) → eq a b ≡ true → eq b c ≡ true → eq a c ≡ true

lookup-upsert {ℓ} :
    {V : Type ℓ} (eq : V → V → Bool) (e : IsPartialEquivalence eq) (key other value : V)
    (es : List (V × V))
    → lookup eq other (upsert eq key value es)
      ≡ (if eq key other then some value else lookup eq other es)
lookup-upsert eq e key other value [] = refl
lookup-upsert eq e key other value ((k, v) ∷ es) = ground (
  arith,
  e.symmetric k key,
  e.symmetric key other,
  e.transitive k other key,
  e.transitive k key other,
  e.transitive key k other,
  lookup-upsert eq e key other value es,
)

module _ {ℓ} {V : Type ℓ} (hash_key : V → Option HashKey) (eq : V → V → Bool)
    (law : IsLawful hash_key eq) where
  -- Where the keys' equality is symmetric and transitive, and values of one hash key are equal and
  -- equal values have the hash key, as the trait of hashed keys asks, an `insert` into a map with a
  -- right index makes every key that the inserted one equals read the new value, and leaves what
  -- every other key reads as it was. The equality need not be reflexive: a value inserted
  -- under a key that equals nothing, such as a NaN, is read under no key.
  pub get-insert :
      (e : IsPartialEquivalence eq) (m : OrderedMap V) (key other value : V)
      → IsValid hash_key m
      → get hash_key (insert hash_key m eq key value) eq other
        ≡ (if eq key other then some value else get hash_key m eq other)
  get-insert e m key other value v =
      rw
        (
          get-lookup hash_key eq law (insert hash_key m eq key value) other
              (insert-IsValid hash_key eq law m key value v),
          insert-upsert hash_key eq law m key value v,
          get-lookup hash_key eq law m other v,
        )
        (lookup-upsert eq e key other value m.entries)
