-- ===== src/Depth/Tests.antt =====
-- The depths of a body with a handler.
use brasa.Prelude.{
  ℕ, zero, suc, ◌+◌, ◌^◌, ◌<◌, ◌≡◌, refl, sym, ap, subst, ◌∙◌, some, none, eq_of_some, List, [],
  ◌∷◌, length, get_elem?, All-Elem, Elem, arith,
}
use brasa.Prelude.Int.{ℤ, pos, ◌+ℤ◌, sub_ℕ}
use brasa.Bytecode.{Op, CodeIx, Handler}
use brasa.Depth.{
  Successors, transition, net_effect, apply, push_work, push_branch, push_fall, visit, drain,
  seed_one, seed, rounds, finalize, Needed, ok,
}
use brasa.Depth.Paths.{Next, by_fall, by_branch, Fits}
use brasa.Depth.Finds.{Caught, Finds, finalize-Finds}

abbrev pub body : List Op
body = Op.load_unit ∷ Op.throw ∷ Op.pop ∷ Op.ret ∷ []

abbrev pub guard : ℕ → Handler
guard depth = record { start = 0; end = 2; target = 2; depth = depth }

run_finalize : finalize body (guard 7 ∷ []) [] ≡ some (guard 0 ∷ [], ok 1)
unfolding transition net_effect apply push_work push_branch push_fall visit drain seed_one seed
    rounds finalize ◌+ℤ◌
run_finalize = refl

abbrev pub depth_at : CodeIx → ℕ
depth_at zero = 0
depth_at (suc zero) = 1
depth_at (suc (suc zero)) = 1
depth_at (suc (suc (suc ix))) = 0

pub shapes :
    (ix : CodeIx) (op : Op)
    → get_elem? body ix ≡ some op
    → (s : Successors) × (transition [] op ≡ some s)
unfolding transition net_effect
shapes zero op e =
    subst (λ op. (s : Successors) × (transition [] op ≡ some s)) (eq_of_some e)
      ((some (pos 1), none), refl)
shapes (suc zero) op e =
    subst (λ op. (s : Successors) × (transition [] op ≡ some s)) (eq_of_some e) ((none, none), refl)
shapes (suc (suc zero)) op e =
    subst (λ op. (s : Successors) × (transition [] op ≡ some s)) (eq_of_some e)
      ((some (sub_ℕ 0 1), none), refl)
shapes (suc (suc (suc zero))) op e =
    subst (λ op. (s : Successors) × (transition [] op ≡ some s)) (eq_of_some e) ((none, none), refl)
shapes (suc (suc (suc (suc ix)))) op e = cc

same_step :
    (op op' : Op) (s t : Successors)
    → some op ≡ some op'
    → transition [] op ≡ some s
    → transition [] op' ≡ some t
    → s ≡ t
same_step op op' s t e known step =
    eq_of_some (sym known ∙ (ap (transition []) (eq_of_some e) ∙ step))

along :
    (ix : CodeIx) (delta : ℤ) (target : CodeIx)
    → Next [] body ix delta target
    → pos (depth_at ix) +ℤ delta ≡ pos (depth_at target)
unfolding transition net_effect ◌+ℤ◌
along zero delta target (by_fall {op = op} {branch = branch} at step) =
    let s = same_step Op.load_unit op (some (pos 1), none) (some delta, branch) at refl step in
    subst (λ d. pos 0 +ℤ d ≡ pos 1) (eq_of_some (ap (λ x. x.0) s)) refl
along (suc zero) delta target (by_fall {op = op} {branch = branch} at step) =
    let s = same_step Op.throw op (none, none) (some delta, branch) at refl step in cc
along (suc (suc zero)) delta target (by_fall {op = op} {branch = branch} at step) =
    let s = same_step Op.pop op (some (sub_ℕ 0 1), none) (some delta, branch) at refl step in
    subst (λ d. pos 1 +ℤ d ≡ pos 0) (eq_of_some (ap (λ x. x.0) s)) refl
along (suc (suc (suc zero))) delta target (by_fall {op = op} {branch = branch} at step) =
    let s = same_step Op.ret op (none, none) (some delta, branch) at refl step in cc
along (suc (suc (suc (suc ix)))) delta target (by_fall at step) = cc
along zero delta target (by_branch {op = op} {fall = fall} at step) =
    let s =
      same_step Op.load_unit op (some (pos 1), none) (fall, some (target, delta)) at refl step in
    cc
along (suc zero) delta target (by_branch {op = op} {fall = fall} at step) =
    let s = same_step Op.throw op (none, none) (fall, some (target, delta)) at refl step in cc
along (suc (suc zero)) delta target (by_branch {op = op} {fall = fall} at step) =
    let s =
      same_step Op.pop op (some (sub_ℕ 0 1), none) (fall, some (target, delta)) at refl step in
    cc
along (suc (suc (suc zero))) delta target (by_branch {op = op} {fall = fall} at step) =
    let s = same_step Op.ret op (none, none) (fall, some (target, delta)) at refl step in cc
along (suc (suc (suc (suc ix)))) delta target (by_branch at step) = cc

bounded : (ix : CodeIx) → depth_at ix < 2 ^ 32
bounded zero = omega arith
bounded (suc zero) = omega arith
bounded (suc (suc zero)) = omega arith
bounded (suc (suc (suc ix))) = omega arith

pub only_guard : (h : Handler) → Elem h (guard 7 ∷ []) → h ≡ guard 7
only_guard h m = All-Elem (λ h. h ≡ guard 7) m (refl, tt)

pub body-Fits : Fits [] body (Caught (guard 7 ∷ [])) depth_at
body-Fits = record {
  at_entry = refl;
  along = λ ix delta target runs next. along ix delta target next;
  at_handler = λ ix target runs (h, m, e, f).
      let start = ap (λ h. h.start) (only_guard h m) in
      let there = ap (λ h. h.target) (only_guard h m) in
      subst (λ t. depth_at t ≡ depth_at ix + 1) (sym there ∙ f)
        (subst (λ i. 1 ≡ depth_at i + 1) (sym start ∙ e) refl);
  bounded = bounded;
}

finalize-Finds_example :
    (r : List Handler × Needed) × (finalize body (guard 7 ∷ []) [] ≡ some r)
    × Finds [] body (guard 7 ∷ []) depth_at r
finalize-Finds_example =
    finalize-Finds [] body (guard 7 ∷ []) depth_at shapes
      (λ h m. subst (λ h. h.start < length body) (sym (only_guard h m)) (omega arith)) body-Fits
