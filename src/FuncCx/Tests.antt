-- ===== src/FuncCx/Tests.antt =====
-- A function with two locals and a handler.
use brasa.Prelude.{
  ℕ, ◌≡◌, refl, ◌∙◌, ◌==◌, ==_iff, if-cases, false, some, none, List, [], ◌∷◌, codes, arith, sym,
  eq_of_some, length, subst, ◌<◌,
}
use brasa.Bytecode.{Span, Function}
use brasa.FuncCx.{FuncCx, Report, lambda, slot_for, alloc_slot, slot_of, finish}
use brasa.FuncCx.Slots.{IsLaidOut, Slotted, slot_of-Slotted}
use brasa.FuncCx.Finish.{Reserves, finish-Reserves}
use brasa.Depth.Tests.{body, guard, depth_at, shapes, only_guard, body-Fits}

abbrev here : Span
here = record { start = 0; end = 1; file = 0 }

abbrev frame : FuncCx
frame = record {
  kind = lambda;
  chunk = record { code = body; spans = here ∷ here ∷ here ∷ here ∷ []; handlers = [] };
  handlers = guard 7 ∷ [];
  slots = (4, 0) ∷ [];
  next_slot = 1;
  slots_exhausted = false;
  self_slot = none;
  loops = [];
  pool = record { items = []; index = [] };
  diagnostics = [];
}

only_local : (local slot : ℕ) → slot_for local ((4, 0) ∷ []) ≡ some slot → (local ≡ 4) × (slot ≡ 0)
unfolding slot_for
only_local local slot =
    if-cases (λ o. o ≡ some slot → (local ≡ 4) × (slot ≡ 0)) (4 == local)
      (λ e f. (sym ((==_iff 4 local).0 e), sym (eq_of_some f))) (λ e f. cc)

frame-IsLaidOut : IsLaidOut frame
unfolding slot_for
frame-IsLaidOut = record {
  below = λ e local slot found. omega (arith, (only_local local slot found).1);
  distinct = λ e local other slot found found'.
      (only_local local slot found).0 ∙ sym (only_local other slot found').0;
}

slot_of-Slotted_example : Slotted frame 9 (slot_of 9 frame).0 (slot_of 9 frame).1
slot_of-Slotted_example = slot_of-Slotted frame 9 frame-IsLaidOut

run_slot_of : (slot_of 9 frame).1 ≡ 1
unfolding slot_of slot_for alloc_slot
run_slot_of = refl

finish-Reserves_example :
    (function : Function) × (reports : List Report) × (finish [] (codes "f") 1 0 here frame
      ≡ some (function, reports))
    × (reports ≡ [] → Reserves [] frame depth_at function)
finish-Reserves_example =
    finish-Reserves [] (codes "f") 1 0 here frame depth_at frame-IsLaidOut refl refl refl shapes
      (λ h m. subst (λ h. h.start < length body) (sym (only_guard h m)) (omega arith)) body-Fits
