-- ===== src/Bytecode/Tests.antt =====
-- The handler tables and jumps of a small chunk.
use brasa.Prelude.{
  ◌^◌, ℕ_discrete, ℕ, subst, sym, ap, eq_of_some, ◌≡◌, refl, [], ◌∷◌, some, arith, inl,
}
use brasa.Bytecode.{
  Op, Span, Handler, Chunk, retarget, patch_jump, covers, first_covering, handler_for,
}
use brasa.Bytecode.Jumps.{Patches, patch_jump-Patches}
use brasa.Bytecode.Constants.{
  ConstPool, Constant, Interns, IsInterned, insert_const, empty_pool, empty_pool-IsInterned,
  insert_const-Interns, find_const, key_of, const_key_eq, append_const, const_key_discrete,
}
use brasa.Bytecode.Handlers.{Finds, IsNested, handler_for-Finds}

abbrev here : Span
here = record { start = 0; end = 1; file = 0 }

abbrev inner : Handler
inner = record { start = 2; end = 5; target = 8; depth = 1 }

abbrev outer : Handler
outer = record { start = 0; end = 7; target = 9; depth = 0 }

abbrev chunk : Chunk
chunk = record {
  code = Op.jump_if_tag_ne 4 0 ∷ Op.load_unit ∷ [];
  spans = here ∷ here ∷ [];
  handlers = inner ∷ outer ∷ [];
}

chunk-IsNested : IsNested chunk.handlers
chunk-IsNested = ((inl (omega arith, omega arith), tt), (tt, tt))

run_inner : handler_for chunk 3 ≡ some inner
unfolding handler_for first_covering covers
run_inner = refl

run_exclusive_end : handler_for chunk 5 ≡ some outer
unfolding handler_for first_covering covers
run_exclusive_end = refl

run_patch :
    patch_jump chunk 0 7 ≡ some (record chunk { code = Op.jump_if_tag_ne 4 7 ∷ Op.load_unit ∷ [] })
unfolding patch_jump retarget
run_patch = refl

handler_for-Finds_example : Finds chunk.handlers 3 (handler_for chunk 3)
handler_for-Finds_example = handler_for-Finds chunk 3 chunk-IsNested

patch_jump-Patches_example : (c' : Chunk) × (patch_jump chunk 0 7 ≡ some c') × Patches chunk 0 7 c'
patch_jump-Patches_example = patch_jump-Patches chunk 0 7 (Op.jump_if_tag_ne 4 0) 0 refl refl

-- A pool with two constants, each inserted once more.
abbrev pool : ConstPool
pool = record {
  items = Constant.char 120 ∷ Constant.float 0 ∷ [];
  index = (key_of (Constant.float 0), 1) ∷ (key_of (Constant.char 120), 0) ∷ [];
}

run_insert :
    insert_const pool (Constant.float (2 ^ 63))
    ≡ some (
      record {
        items = Constant.char 120 ∷ Constant.float 0 ∷ Constant.float (2 ^ 63) ∷ [];
        index = (key_of (Constant.float (2 ^ 63)), 2) ∷ pool.index;
      },
      2,
    )
unfolding insert_const find_const key_of const_key_eq append_const const_key_discrete ℕ_discrete
run_insert = refl

insert_const-Interns_example :
    (pool' : ConstPool) × (id : ℕ) × (insert_const empty_pool (Constant.char 120)
      ≡ some (pool', id))
    × Interns empty_pool (Constant.char 120) pool' id
unfolding empty_pool
insert_const-Interns_example =
    insert_const-Interns empty_pool (Constant.char 120) empty_pool-IsInterned (omega arith)

one_const : ConstPool
one_const = record { items = Constant.char 120 ∷ []; index = (key_of (Constant.char 120), 0) ∷ [] }

one_const-IsInterned : IsInterned one_const
unfolding one_const append_const insert_const empty_pool find_const
one_const-IsInterned =
    let (pool', id, e, i) =
      insert_const-Interns empty_pool (Constant.char 120) empty_pool-IsInterned (omega arith) in
    subst IsInterned (sym (ap (λ p. p.0) (eq_of_some e))) i.interned
