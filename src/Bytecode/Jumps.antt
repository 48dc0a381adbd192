-- ===== src/Bytecode/Jumps.antt =====
-- Emitting code: an index that `push` answered names its instruction and its span for good, and a
-- jump that is patched differs in its target only.
use brasa.Prelude.{
  ◌^◌, ◌<◌, ◌≡◌, ◌≢◌, refl, sym, subst, ap, ◌∙◌, [], ◌∷◌, ◌++◌, Option, none, some, lt→ltb, length,
  set, get_elem?, ◌>>=◌, arith, Option-cases, inl, inr, length-append, length-set, get_elem?-push,
  get_elem?-append_left, get_elem?-set_self, get_elem?-set_ne, lt_of_get_elem?, eq_of_some,
}
use brasa.Bytecode.{CodeIx, Op, Span, Chunk, push, retarget, patch_jump, span_at}

-- Every instruction has its span.
abbrev pub IsPaired : Chunk → Type 0
IsPaired c = length c.code ≡ length c.spans

-- The target of a jump, and the instruction with its target struck out.
abbrev pub target_of : Op → Option CodeIx
target_of (Op.jump t) = some t
target_of (Op.jump_if_false t) = some t
target_of (Op.jump_if_false_or_pop t) = some t
target_of (Op.jump_if_true_or_pop t) = some t
target_of (Op.jump_if_variant_ne variant t) = some t
target_of (Op.jump_if_none t) = some t
target_of (Op.iter_next t) = some t
target_of (Op.jump_if_panic t) = some t
target_of (Op.jump_if_tag_ne tag t) = some t
target_of _ = none

abbrev pub erased : Op → Op
erased (Op.jump t) = Op.jump 0
erased (Op.jump_if_false t) = Op.jump_if_false 0
erased (Op.jump_if_false_or_pop t) = Op.jump_if_false_or_pop 0
erased (Op.jump_if_true_or_pop t) = Op.jump_if_true_or_pop 0
erased (Op.jump_if_variant_ne variant t) = Op.jump_if_variant_ne variant 0
erased (Op.jump_if_none t) = Op.jump_if_none 0
erased (Op.iter_next t) = Op.iter_next 0
erased (Op.jump_if_panic t) = Op.jump_if_panic 0
erased (Op.jump_if_tag_ne tag t) = Op.jump_if_tag_ne tag 0
erased op = op

pub record Pushes (c : Chunk) (op : Op) (span : Span) (c' : Chunk) (ix : CodeIx) : Type 0 where
  pub paired : IsPaired c'
  pub emitted : get_elem? c'.code ix ≡ some op
  pub located : span_at c' ix ≡ some span
  pub kept : (i : CodeIx) → i < length c.code → get_elem? c'.code i ≡ get_elem? c.code i
  pub spans_kept : (i : CodeIx) → i < length c.code → span_at c' i ≡ span_at c i
  pub handlers_kept : c'.handlers ≡ c.handlers

-- Below 2^32 instructions `push` answers an index that reads the instruction and its span back, and
-- what was emitted before, the handlers included, stays as it is.
pub push-Pushes :
    (c : Chunk) (op : Op) (span : Span)
    → IsPaired c
    → length c.code < 2 ^ 32
    → (c' : Chunk) × (ix : CodeIx) × (push c op span ≡ some (c', ix)) × Pushes c op span c' ix
unfolding push span_at
push-Pushes c op span v small = (
  record c { code = c.code ++ op ∷ []; spans = c.spans ++ span ∷ [] },
  length c.code,
  rw (lt→ltb _ _ small) refl,
  record {
    paired = omega (arith, v, length-append c.code (op ∷ []), length-append c.spans (span ∷ []));
    emitted = get_elem?-push c.code op;
    located = ap (get_elem? (c.spans ++ span ∷ [])) v ∙ get_elem?-push c.spans span;
    kept = λ i lt. get_elem?-append_left c.code (op ∷ []) i lt;
    spans_kept = λ i lt. get_elem?-append_left c.spans (span ∷ []) i (omega (arith, v));
    handlers_kept = refl;
  },
)

read_as :
    {target : CodeIx} (op : Op) {new : Op} (op' : Op)
    → (target_of new ≡ some target) × (erased new ≡ erased op)
    → some new ≡ some op'
    → (target_of op' ≡ some target) × (erased op' ≡ erased op)
read_as {target} op op' facts e =
    subst (λ o. (target_of o ≡ some target) × (erased o ≡ erased op)) (eq_of_some e) facts

retarget-target_of :
    (op : Op) (target : CodeIx)
    → (op' : Op) → retarget op target ≡ some op'
    → (target_of op' ≡ some target) × (erased op' ≡ erased op)
unfolding retarget
retarget-target_of (Op.jump t) target op' e = read_as (Op.jump t) op' (refl, refl) e
retarget-target_of (Op.jump_if_false t) target op' e =
    read_as (Op.jump_if_false t) op' (refl, refl) e
retarget-target_of (Op.jump_if_false_or_pop t) target op' e =
    read_as (Op.jump_if_false_or_pop t) op' (refl, refl) e
retarget-target_of (Op.jump_if_true_or_pop t) target op' e =
    read_as (Op.jump_if_true_or_pop t) op' (refl, refl) e
retarget-target_of (Op.jump_if_variant_ne variant t) target op' e =
    read_as (Op.jump_if_variant_ne variant t) op' (refl, refl) e
retarget-target_of (Op.jump_if_none t) target op' e = read_as (Op.jump_if_none t) op' (refl, refl) e
retarget-target_of (Op.iter_next t) target op' e = read_as (Op.iter_next t) op' (refl, refl) e
retarget-target_of (Op.jump_if_panic t) target op' e =
    read_as (Op.jump_if_panic t) op' (refl, refl) e
retarget-target_of (Op.jump_if_tag_ne tag t) target op' e =
    read_as (Op.jump_if_tag_ne tag t) op' (refl, refl) e
retarget-target_of op target op' e = cc

retargets :
    (op : Op) (t target : CodeIx)
    → target_of op ≡ some t
    → (op' : Op) × (retarget op target ≡ some op')
unfolding retarget
retargets (Op.jump t) s target e = (Op.jump target, refl)
retargets (Op.jump_if_false t) s target e = (Op.jump_if_false target, refl)
retargets (Op.jump_if_false_or_pop t) s target e = (Op.jump_if_false_or_pop target, refl)
retargets (Op.jump_if_true_or_pop t) s target e = (Op.jump_if_true_or_pop target, refl)
retargets (Op.jump_if_variant_ne variant t) s target e =
    (Op.jump_if_variant_ne variant target, refl)
retargets (Op.jump_if_none t) s target e = (Op.jump_if_none target, refl)
retargets (Op.iter_next t) s target e = (Op.iter_next target, refl)
retargets (Op.jump_if_panic t) s target e = (Op.jump_if_panic target, refl)
retargets (Op.jump_if_tag_ne tag t) s target e = (Op.jump_if_tag_ne tag target, refl)
retargets op s target e = cc

retargets_none : (op : Op) (target : CodeIx) → target_of op ≡ none → retarget op target ≡ none
unfolding retarget
retargets_none (Op.jump t) target e = cc
retargets_none (Op.jump_if_false t) target e = cc
retargets_none (Op.jump_if_false_or_pop t) target e = cc
retargets_none (Op.jump_if_true_or_pop t) target e = cc
retargets_none (Op.jump_if_variant_ne variant t) target e = cc
retargets_none (Op.jump_if_none t) target e = cc
retargets_none (Op.iter_next t) target e = cc
retargets_none (Op.jump_if_panic t) target e = cc
retargets_none (Op.jump_if_tag_ne tag t) target e = cc
retargets_none op target e = refl

pub record Patches (c : Chunk) (at target : CodeIx) (c' : Chunk) : Type 0 where
  pub patched :
      (op op' : Op)
      → get_elem? c.code at ≡ some op
      → get_elem? c'.code at ≡ some op'
      → (target_of op' ≡ some target) × (erased op' ≡ erased op)
  pub kept : (i : CodeIx) → i ≢ at → get_elem? c'.code i ≡ get_elem? c.code i
  pub same_size : length c'.code ≡ length c.code
  pub tables : (c'.spans ≡ c.spans) × (c'.handlers ≡ c.handlers)

-- Patching a jump that is there gives it the new target and changes nothing else: the kind of the
-- jump and its other operands, the other instructions, the spans and the handlers stay.
pub patch_jump-Patches :
    (c : Chunk) (at target : CodeIx) (op : Op) (t : CodeIx)
    → get_elem? c.code at ≡ some op
    → target_of op ≡ some t
    → (c' : Chunk) × (patch_jump c at target ≡ some c') × Patches c at target c'
unfolding patch_jump
patch_jump-Patches c at target op t here jumps =
    let (op', e) = retargets op t target jumps in
    (
      record c { code = set c.code at op' },
      rw (here, e) refl,
      record {
        patched = λ old new f g.
            let same : op ≡ old = eq_of_some (sym here ∙ f) in
            let same' : op' ≡ new =
              eq_of_some
                (sym (get_elem?-set_self c.code at op' (lt_of_get_elem? c.code at here)) ∙ g) in
            rw (← same, ← same') (retarget-target_of op target op' e);
        kept = λ i n. get_elem?-set_ne c.code op' (λ q. n (sym q));
        same_size = length-set c.code at op';
        tables = (refl, refl);
      },
    )

-- Patching anything but a jump, or an index without an instruction, panics.
pub patch_jump-none :
    (c : Chunk) (at target : CodeIx)
    → (get_elem? c.code at >>= target_of) ≡ none
    → patch_jump c at target ≡ none
unfolding patch_jump
patch_jump-none c at target e = elim (Option-cases (get_elem? c.code at)) [
  | inl n ↦ rw n refl
  | inr (op, here) ↦
      rw (here, retargets_none op target (subst (λ o. (o >>= target_of) ≡ none) here e)) refl
]
