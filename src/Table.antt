-- ===== src/Table.antt =====
-- crates/brasa_runtime/src/table.rs: the insertion-ordered map and set behind a language `Map` and
-- `Set`. The entries are the source of truth; the index takes a key's projection to its position.
-- A `HashMap<HashKey, usize>` is an association list with one pair for each key (`put` keeps it so),
-- read by the derived equality of `HashKey`. A string key is its content.
pub mod Index
pub mod Keys
pub mod Changes
pub mod Map
pub mod Set
mod Tests
use brasa.Prelude.{ℕ, ◌≡◌, refl, ◌↔◌, List, Bool, true, false, ℕ_discrete}
use brasa.Prelude.Int.{ℤ}

mutual
  pub data HashKey : Type 0 where
    int : ℤ → HashKey
    str : List ℕ → HashKey
    char : ℕ → HashKey
    bool : Bool → HashKey
    tuple : HashKeys → HashKey

  -- `Box<[HashKey]>`
  pub data HashKeys : Type 0 where
    nil : HashKeys
    cons : HashKey → HashKeys → HashKeys

pub HashKey-discrete : Discrete HashKey
HashKey-discrete = hlevel ℕ_discrete

-- The derived `PartialEq` of `HashKey`.
pub key_eq : HashKey → HashKey → Bool
key_eq a b = elim (HashKey-discrete a b) [ yes _ ↦ true | no _ ↦ false ]

pub key_eq_iff : (a b : HashKey) → (key_eq a b ≡ true) ↔ (a ≡ b)
unfolding key_eq
key_eq_iff a b =
    elim (HashKey-discrete a b)
      as (λ d. ((elim d [ yes _ ↦ true | no _ ↦ false ]) ≡ true) ↔ (a ≡ b)) [
        | yes p ↦ (λ _. p, λ _. refl)
        | no n ↦ (λ e. cc, λ e. absurd (n e))
      ]
