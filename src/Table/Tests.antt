-- ===== src/Table/Tests.antt =====
-- Runs of the tables over small keys: a number below 10 projects, any other does not.
use brasa.Prelude.{ℕ, ◌≡◌, refl, Option, none, some, List, [], ◌∷◌, arith, ltb, ◌==◌, if◌then◌else◌}
use brasa.Prelude.Int.{pos}
use brasa.Table.{HashKey, key_eq, key_eq_iff, HashKey-discrete}
use brasa.Table.Index.{find, put, scan}
use brasa.Table.Keys.{IsLawful, position}
use brasa.Table.Changes.{index_keys}
use brasa.Table.Map.{
  OrderedMap, get, insert_at, insert, position_of, from_distinct_entries, lookup, upsert,
}
use brasa.Table.Map.Refines.{
  IsValid, Removes, get-lookup, insert-upsert, remove-Removes, from_distinct_entries-IsValid,
}
use brasa.Table.Map.Read.{IsPartialEquivalence, get-insert}
use brasa.Table.Set.{
  OrderedSet, from_distinct_items, from_distinct_items-IsValid, add-include, add, include,
}
use brasa.Table.Set as OrderedSet

abbrev small_key : ℕ → Option HashKey
small_key v = if ltb v 10 then some (HashKey.int (pos v)) else none

small_key-IsLawful : IsLawful small_key (λ a b. a == b)
small_key-IsLawful = record {
  same_key = λ a b e. ground arith;
  eq_of_key = λ a b h e f. ground arith;
}

equal-IsPartialEquivalence : IsPartialEquivalence {V = ℕ} (λ a b. a == b)
equal-IsPartialEquivalence = record {
  symmetric = λ a b e. ground arith;
  transitive = λ a b c e f. ground arith;
}

abbrev pairs : List (ℕ × ℕ)
pairs = (3, 30) ∷ (12, 40) ∷ (5, 50) ∷ []

sample : OrderedMap ℕ
sample = from_distinct_entries small_key pairs

sample-IsValid : IsValid small_key sample
unfolding sample scan
sample-IsValid =
    from_distinct_entries-IsValid small_key pairs
      (λ h e. ground (arith, key_eq_iff (HashKey.int (pos 5)) h), (λ h e. cc, (λ h e. refl, tt)))

-- An existing key keeps its place; the key 12 does not project, and is found by the scan.
run_map : (insert small_key sample (λ a b. a == b) 3 31).entries ≡ (3, 31) ∷ (12, 40) ∷ (5, 50) ∷ []
unfolding insert insert_at position_of position sample from_distinct_entries index_keys put find
    scan key_eq HashKey-discrete
run_map = refl

run_get : get small_key sample (λ a b. a == b) 12 ≡ some 40
unfolding get position_of position sample from_distinct_entries index_keys put find scan key_eq
    HashKey-discrete
run_get = refl

get-lookup_example :
    get small_key sample (λ a b. a == b) 5 ≡ lookup (λ a b. a == b) 5 sample.entries
get-lookup_example = get-lookup small_key (λ a b. a == b) small_key-IsLawful sample 5 sample-IsValid

insert-upsert_example :
    (insert small_key sample (λ a b. a == b) 7 70).entries
    ≡ upsert (λ a b. a == b) 7 70 sample.entries
insert-upsert_example =
    insert-upsert small_key (λ a b. a == b) small_key-IsLawful sample 7 70 sample-IsValid

remove-Removes_example :
    Removes small_key (λ a b. a == b) sample 12 (lookup (λ a b. a == b) 12 sample.entries)
remove-Removes_example =
    remove-Removes small_key (λ a b. a == b) small_key-IsLawful sample 12 sample-IsValid

get-insert_example :
    get small_key (insert small_key sample (λ a b. a == b) 7 70) (λ a b. a == b) 5
    ≡ (if 7 == 5 then some 70 else get small_key sample (λ a b. a == b) 5)
get-insert_example =
    get-insert small_key (λ a b. a == b) small_key-IsLawful equal-IsPartialEquivalence sample 7 5 70
      sample-IsValid

few : OrderedSet ℕ
few = from_distinct_items small_key (3 ∷ 12 ∷ [])

few-IsValid : OrderedSet.IsValid small_key few
unfolding few scan
few-IsValid = from_distinct_items-IsValid small_key (3 ∷ 12 ∷ []) (λ h e. refl, (λ h e. cc, tt))

add-include_example :
    ((add small_key few (λ a b. a == b) 12).items ≡ include (λ a b. a == b) 12 few.items)
    × OrderedSet.IsValid small_key (add small_key few (λ a b. a == b) 12)
add-include_example = add-include small_key (λ a b. a == b) small_key-IsLawful few 12 few-IsValid
