-- ===== src/Bytecode/Constants.antt =====
-- crates/brasa_bytecode/src/constant.rs: the interned, append-only pool of a module's constants. A
-- float is its bit pattern. A `HashMap` is an association list, searched by the derived equality.
use brasa.Prelude.{
  ℕ, ◌^◌, ◌<◌, ◌≡◌, ◌↔◌, refl, sym, ap, ◌∙◌, List, [], ◌∷◌, ◌++◌, Bool, true, false, Option, none,
  some, ltb, lt→ltb, if◌then◌else◌, length, get_elem?, arith, Bool-cases, Option-cases, inl, inr,
  ℕ_discrete, get_elem?-push, get_elem?-snoc, get_elem?-append_left, lt_of_get_elem?,
}
use brasa.Prelude.Int.{ℤ}
use brasa.Value.{Text}

pub data Constant : Type 0 where
  int : ℤ → Constant
  float : ℕ → Constant
  str : Text → Constant
  char : ℕ → Constant

pub data ConstKey : Type 0 where
  int_key : ℤ → ConstKey
  float_bits : ℕ → ConstKey
  str_key : Text → ConstKey
  char_key : ℕ → ConstKey

unfoldable pub key_of : Constant → ConstKey
key_of (Constant.int v) = int_key v
key_of (Constant.float v) = float_bits v
key_of (Constant.str v) = str_key v
key_of (Constant.char v) = char_key v

unfoldable pub const_key_discrete : Discrete ConstKey
const_key_discrete = hlevel ℕ_discrete

-- The derived `PartialEq` of `ConstKey`.
unfoldable pub const_key_eq : ConstKey → ConstKey → Bool
const_key_eq a b = elim (const_key_discrete a b) [ yes _ ↦ true | no _ ↦ false ]

pub const_key_eq_iff : (a b : ConstKey) → (const_key_eq a b ≡ true) ↔ (a ≡ b)
unfolding const_key_eq
const_key_eq_iff a b =
    elim (const_key_discrete a b)
      as (λ d. ((elim d [ yes _ ↦ true | no _ ↦ false ]) ≡ true) ↔ (a ≡ b)) [
        | yes p ↦ (λ _. p, λ _. refl)
        | no n ↦ (λ e. cc, λ p. absurd (n p))
      ]

abbrev pub ConstIndex : Type 0
ConstIndex = List (ConstKey × ℕ)

unfoldable pub find_const : ConstKey → ConstIndex → Option ℕ
find_const key [] = none
find_const key ((k, id) ∷ index) = if const_key_eq k key then some id else find_const key index

pub record ConstPool : Type 0 where
  pub items : List Constant
  pub index : ConstIndex

unfoldable pub empty_pool : ConstPool
empty_pool = record { items = []; index = [] }

-- The insertion of a constant without an entry; an id has 32 bits.
unfoldable pub append_const : ConstPool → Constant → Option (ConstPool × ℕ)
append_const pool constant =
    if ltb (length pool.items) (2 ^ 32)
    then some (
      record {
        items = pool.items ++ constant ∷ [];
        index = (key_of constant, length pool.items) ∷ pool.index;
      },
      length pool.items,
    )
    else none

abbrev pub found_or_new : ConstPool → Constant → Option ℕ → Option (ConstPool × ℕ)
found_or_new pool constant (some id) = some (pool, id)
found_or_new pool constant none = append_const pool constant

unfoldable pub insert_const : ConstPool → Constant → Option (ConstPool × ℕ)
insert_const pool constant = found_or_new pool constant (find_const (key_of constant) pool.index)

unfoldable pub get_const : ConstPool → ℕ → Option Constant
get_const pool id = get_elem? pool.items id

-- The index takes exactly the key of each item to that item's id.
pub record IsInterned (pool : ConstPool) : Type 0 where
  pub indexed :
      (key : ConstKey) (id : ℕ)
      → find_const key pool.index ≡ some id
      → (c : Constant) × (get_elem? pool.items id ≡ some c) × (key_of c ≡ key)
  pub unique :
      (c : Constant) (id : ℕ)
      → get_elem? pool.items id ≡ some c
      → find_const (key_of c) pool.index ≡ some id

pub empty_pool-IsInterned : IsInterned empty_pool
unfolding empty_pool find_const
empty_pool-IsInterned = record { indexed = λ key id e. cc; unique = λ c id e. cc }

abbrev constant_of : ConstKey → Constant
constant_of (int_key v) = Constant.int v
constant_of (float_bits v) = Constant.float v
constant_of (str_key v) = Constant.str v
constant_of (char_key v) = Constant.char v

constant_of-key_of : (c : Constant) → constant_of (key_of c) ≡ c
unfolding key_of
constant_of-key_of (Constant.int v) = refl
constant_of-key_of (Constant.float v) = refl
constant_of-key_of (Constant.str v) = refl
constant_of-key_of (Constant.char v) = refl

key_of-injective : (a b : Constant) → key_of a ≡ key_of b → a ≡ b
key_of-injective a b e = sym (constant_of-key_of a) ∙ (ap constant_of e ∙ constant_of-key_of b)

pub record Interns (pool : ConstPool) (constant : Constant) (pool' : ConstPool) (id : ℕ)
    : Type 0 where
  pub interned : IsInterned pool'
  pub reads : get_const pool' id ≡ some constant
  pub kept : (i : ℕ) → i < length pool.items → get_const pool' i ≡ get_const pool i

module _ (pool : ConstPool) (constant : Constant) (v : IsInterned pool) where
  append-IsInterned :
      find_const (key_of constant) pool.index ≡ none
      → IsInterned (record {
        items = pool.items ++ constant ∷ [];
        index = (key_of constant, length pool.items) ∷ pool.index;
      })
  unfolding find_const
  append-IsInterned absent = record {
    indexed = λ key id e. elim (Bool-cases (const_key_eq (key_of constant) key)) [
      | inl t ↦
          let here : length pool.items ≡ id = ground arith in
          (
            constant,
            ap (get_elem? (pool.items ++ constant ∷ [])) (sym here)
                ∙ get_elem?-push pool.items constant,
            (const_key_eq_iff (key_of constant) key).0 t,
          )
      | inr f ↦
          let older : find_const key pool.index ≡ some id = ground arith in
          let (c, at, same) = v.indexed key id older in
          (
            c,
            get_elem?-append_left pool.items (constant ∷ []) id (lt_of_get_elem? pool.items id at)
                ∙ at,
            same,
          )
    ];
    unique = λ c id at. elim (get_elem?-snoc pool.items constant c id at) [
      | inr (here, same) ↦
          let t = (const_key_eq_iff (key_of constant) (key_of c)).1 (ap key_of same) in
          rw t (ap some (sym here))
      | inl (lt, old) ↦
          let found = v.unique c id old in
          elim (Bool-cases (const_key_eq (key_of constant) (key_of c))) [
            | inr f ↦ rw f found
            | inl t ↦
                let same = (const_key_eq_iff (key_of constant) (key_of c)).0 t in
                absurd (missing (sym (ap (λ k. find_const k pool.index) same) ∙ absent) found)
          ]
    ];
  }
    where
      missing : {o : Option ℕ} {id : ℕ} → o ≡ none → o ≡ some id → ⊥
      missing e f = cc

  -- On an interned pool with room, an insertion answers an id that reads the constant back, keeps
  -- every earlier id, and leaves the pool interned.
  pub insert_const-Interns :
      length pool.items < 2 ^ 32
      → (pool' : ConstPool) × (id : ℕ) × (insert_const pool constant ≡ some (pool', id))
        × Interns pool constant pool' id
  unfolding insert_const append_const get_const
  insert_const-Interns small = elim (Option-cases (find_const (key_of constant) pool.index)) [
    | inr (id, found) ↦
        let (c, at, same) = v.indexed (key_of constant) id found in
        (
          pool,
          id,
          rw found refl,
          record {
            interned = v;
            reads = at ∙ ap some (key_of-injective c constant same);
            kept = λ i lt. refl;
          },
        )
    | inl absent ↦ (
      record {
        items = pool.items ++ constant ∷ [];
        index = (key_of constant, length pool.items) ∷ pool.index;
      },
      length pool.items,
      rw (absent, lt→ltb _ _ small) refl,
      record {
        interned = append-IsInterned absent;
        reads = get_elem?-push pool.items constant;
        kept = λ i lt. get_elem?-append_left pool.items (constant ∷ []) i lt;
      },
    )
  ]

-- In an interned pool a constant has one id.
pub insert_const-same :
    (pool : ConstPool) (constant : Constant) (id : ℕ)
    → IsInterned pool
    → get_const pool id ≡ some constant
    → insert_const pool constant ≡ some (pool, id)
unfolding insert_const get_const
insert_const-same pool constant id v at = rw (v.unique constant id at) refl
