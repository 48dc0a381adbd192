-- ===== src/Vm/Unwind/Locals.antt =====
-- The frame that catches finds its slots as it left them, where the frames lie above one another.
use brasa.Prelude.{
  ℕ, zero, suc, ◌+◌, ◌≤◌, ◌<◌, ◌≡◌, refl, sym, ap, subst, ◌∙◌, List, [], ◌∷◌, ◌++◌, some, length,
  take, get_elem?, arith, inl, inr, All, eq_of_some,
}
use brasa.Value.{Value}
use brasa.Bytecode.{Function}
use brasa.Vm.{Vm, Frame, Signal, ok, err, Run}
use brasa.Vm.Calls.{length-take, take-append_left, take-take}
use brasa.Vm.Unwind.{unwind}
use brasa.Vm.Unwind.Correct.{IsRunning, cut, unwind-Unwinds}

-- Below `limit` each frame has its slots, and the frames under it end where its operands were.
abbrev pub IsStacked : List Function → List Frame → ℕ → Type 0
IsStacked functions [] limit = Unit
IsStacked functions (frame ∷ rest) limit =
    ((function : Function) × (get_elem? functions frame.func ≡ some function)
      × (frame.base + function.locals ≤ limit))
    × (frame.ret_base ≤ frame.base)
    × IsStacked functions rest frame.ret_base

cut-keeps :
    (functions : List Function) (passed : List Frame) (frame : Frame) (rest : List Frame)
    (function : Function) (stack : List Value) (limit : ℕ)
    → get_elem? functions frame.func ≡ some function
    → IsStacked functions (passed ++ frame ∷ rest) limit
    → limit ≤ length stack
    → (frame.base + function.locals ≤ limit)
      × (frame.base + function.locals ≤ length (cut passed stack))
      × (take (frame.base + function.locals) (cut passed stack)
          ≡ take (frame.base + function.locals) stack)
cut-keeps functions [] frame rest function stack limit at ((other, at', fits), low, below) h =
    let same : other ≡ function = eq_of_some (sym at' ∙ at) in
    let fits' = subst (λ f. frame.base + f.locals ≤ limit) same fits in (fits', omega arith, refl)
cut-keeps functions (p ∷ passed) frame rest function stack limit at ((other, at', fits), low, below)
      h =
    let (within, long, same) =
      cut-keeps functions passed frame rest function (take p.ret_base stack) p.ret_base at below
        (omega (arith, length-take p.ret_base stack (omega arith))) in
    (omega arith, long, same ∙ take-take (frame.base + function.locals) p.ret_base stack within)

-- A machine whose frame caught a signal: the frame's slots are the ones it had before.
pub record Resumes (vm vm' : Vm) : Type 0 where
  pub frame : Frame
  pub outer : List Frame
  pub function : Function
  pub active : vm'.task.frames ≡ frame ∷ outer
  pub runs : get_elem? vm.functions frame.func ≡ some function
  pub slots :
      take (frame.base + function.locals) vm'.task.stack
      ≡ take (frame.base + function.locals) vm.task.stack

apart :
    {vm vm' : Vm} {signal : Signal} {run : Run {0} Unit}
    → run ≡ some (vm, err signal)
    → run ≡ some (vm', ok tt)
    → ⊥
apart e f = cc

-- Where the frames lie above one another on the stack, a signal that unwinding hands to a handler
-- leaves every parameter, capture and local slot of the handler's frame as it was.
pub unwind-Resumes :
    (vm vm' : Vm) (signal : Signal) (min_frames : ℕ)
    → 0 < min_frames
    → min_frames ≤ length vm.task.frames
    → All (IsRunning vm.functions) vm.task.frames
    → IsStacked vm.functions vm.task.frames (length vm.task.stack)
    → unwind vm signal min_frames ≡ some (vm', ok tt)
    → Resumes vm vm'
unwind-Resumes vm vm' signal min_frames pos low runs stacked e =
    elim (unwind-Unwinds vm signal min_frames pos low runs) [
      | inl (w, f, c) ↦
          let same : w ≡ vm' = ap (λ r. r.0) (eq_of_some (sym f ∙ e)) in
          subst (Resumes vm) same (
            let (within, long, kept) =
              cut-keeps vm.functions c.passed c.frame c.rest c.function vm.task.stack
                (length vm.task.stack) c.runs
                (subst (λ fs. IsStacked vm.functions fs (length vm.task.stack)) c.parts stacked)
                (omega arith) in
            record {
              frame = record c.frame { ip = c.handler.target };
              outer = c.rest;
              function = c.function;
              active = c.resumes;
              runs = c.runs;
              slots =
                  ap (take (c.frame.base + c.function.locals)) c.operands
                  ∙ (take-append_left (c.frame.base + c.function.locals) _ _ (
                        wide (cut c.passed vm.task.stack) (c.frame.base + c.function.locals)
                          (c.frame.base + c.function.locals + c.handler.depth) (omega arith) long)
                      ∙ (take-take (c.frame.base + c.function.locals) _ (cut c.passed vm.task.stack)
                            (omega arith)
                          ∙ kept));
            })
      | inr (w, f, c) ↦ absurd (apart f e)
    ]
  where
    wide : (xs : List Value) (n m : ℕ) → n ≤ m → n ≤ length xs → n ≤ length (take m xs)
    wide xs zero m g h = omega arith
    wide xs (suc n) zero g h = absurd (omega arith)
    wide [] (suc n) (suc m) g h = absurd (omega arith)
    wide (x ∷ xs) (suc n) (suc m) g h = omega (arith, wide xs n m (omega arith) (omega arith))
