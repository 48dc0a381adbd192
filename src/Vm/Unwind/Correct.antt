-- ===== src/Vm/Unwind/Correct.antt =====
-- Unwinding said without the loop: the frames that are passed have no handler for their fault, and
-- the first one that has one catches, or no frame of the bounded call does and all are dropped.
use brasa.Prelude.{
  ℕ, zero, suc, ◌+◌, ◌%◌, ◌^◌, ◌≤◌, ◌<◌, ◌≡◌, refl, ap, ◌∙◌, List, [], ◌∷◌, ◌++◌, true, false,
  Option, none, some, length, take, get_elem?, ltb, ◌>>=◌, arith, Bool-cases, Option-cases, inl,
  inr, ◌⊎◌, All,
}
use brasa.Value.{Value, Caught, caught_node}
use brasa.Bytecode.{Function, Handler}
use brasa.Vm.{Vm, Frame, Signal, ok, err, Run}
use brasa.Vm.Unwind.{fault_of, with_task, dispatch, catcher, unwind_from, unwind}

-- Each frame runs a function of the table, and has begun its first instruction.
abbrev pub IsRunning : List Function → Frame → Type 0
IsRunning functions frame =
    ((function : Function) × (get_elem? functions frame.func ≡ some function))
    × ((before : ℕ) × (frame.ip ≡ suc before))

-- The handler that catches `signal` where `frame` stands.
abbrev pub handler_in : Vm → Signal → Frame → Option (Caught × Handler)
handler_in vm signal frame = get_elem? vm.functions frame.func >>= λ function.
    fault_of frame >>= λ fault. catcher signal function fault

-- What is left of the stack when the frames `passed` are gone.
abbrev pub cut : List Frame → List Value → List Value
cut [] stack = stack
cut (frame ∷ passed) stack = cut passed (take frame.ret_base stack)

abbrev pub Misses : Vm → Signal → Frame → Type 0
Misses vm signal frame = handler_in vm signal frame ≡ none

fault_of-suc :
    (frame : Frame) (before : ℕ) → frame.ip ≡ suc before → fault_of frame ≡ some (before % 2 ^ 32)
unfolding fault_of
fault_of-suc frame before e = ap (λ n. elim n [ zero ↦ none | suc b ↦ some (b % 2 ^ 32) ]) e

module _ (vm : Vm) (signal : Signal) (min_frames : ℕ) where
  pub record Catches (frames : List Frame) (stack : List Value) (vm' : Vm) : Type 0 where
    pub passed : List Frame
    pub frame : Frame
    pub rest : List Frame
    pub function : Function
    pub caught : Caught
    pub handler : Handler
    pub parts : frames ≡ passed ++ frame ∷ rest
    pub missed : All (Misses vm signal) passed
    pub within : min_frames ≤ length (frame ∷ rest)
    pub runs : get_elem? vm.functions frame.func ≡ some function
    pub handles : handler_in vm signal frame ≡ some (caught, handler)
    pub resumes : vm'.task.frames ≡ record frame { ip = handler.target } ∷ rest
    pub operands :
        vm'.task.stack
        ≡ take (frame.base + function.locals + handler.depth) (cut passed stack)
          ++ Value.caught (length vm.nodes) ∷ []
    pub node : vm'.nodes ≡ vm.nodes ++ caught_node caught ∷ []

  pub record Escapes (frames : List Frame) (stack : List Value) (vm' : Vm) : Type 0 where
    pub passed : List Frame
    pub rest : List Frame
    pub parts : frames ≡ passed ++ rest
    pub missed : All (Misses vm signal) passed
    pub below : suc (length rest) ≡ min_frames
    pub left : vm' ≡ with_task vm rest (cut passed stack)

  abbrev pub Unwinds : List Frame → List Value → Run {0} Unit → Type 0
  Unwinds frames stack run =
      ((vm' : Vm) × (run ≡ some (vm', ok tt)) × Catches frames stack vm')
      ⊎ ((vm' : Vm) × (run ≡ some (vm', err signal)) × Escapes frames stack vm')

  -- One frame without a handler, and then what happens to the others.
  passes :
      (frame : Frame) (frames : List Frame) (stack : List Value) (run run' : Run {0} Unit)
      → Misses vm signal frame
      → run' ≡ run
      → Unwinds frames (take frame.ret_base stack) run
      → Unwinds (frame ∷ frames) stack run'
  passes frame frames stack run run' miss e (inl (vm', f, c)) = inl (
    vm',
    e ∙ f,
    record {
      passed = frame ∷ c.passed;
      frame = c.frame;
      rest = c.rest;
      function = c.function;
      caught = c.caught;
      handler = c.handler;
      parts = ap (◌∷◌ frame) c.parts;
      missed = (miss, c.missed);
      within = c.within;
      runs = c.runs;
      handles = c.handles;
      resumes = c.resumes;
      operands = c.operands;
      node = c.node;
    },
  )
  passes frame frames stack run run' miss e (inr (vm', f, c)) = inr (
    vm',
    e ∙ f,
    record {
      passed = frame ∷ c.passed;
      rest = c.rest;
      parts = ap (◌∷◌ frame) c.parts;
      missed = (miss, c.missed);
      below = c.below;
      left = c.left;
    },
  )

  stops :
      (frames : List Frame) (stack : List Value) (run : Run {0} Unit)
      → suc (length frames) ≡ min_frames
      → run ≡ some (with_task vm frames stack, err signal)
      → Unwinds frames stack run
  stops frames stack run e f = inr (
    with_task vm frames stack,
    f,
    record { passed = []; rest = frames; parts = refl; missed = tt; below = e; left = refl },
  )

  unwind_from-Unwinds :
      (frames : List Frame) (stack : List Value)
      → 0 < min_frames
      → min_frames ≤ suc (length frames)
      → All (IsRunning vm.functions) frames
      → Unwinds frames stack (unwind_from vm signal min_frames frames stack)
  unfolding unwind_from dispatch
  unwind_from-Unwinds [] stack pos low runs =
      let bounded : ltb 0 min_frames ≡ true = ground arith in
      stops [] stack _ (omega arith) (rw bounded refl)
  unwind_from-Unwinds (frame ∷ rest) stack pos low (((function, at), (before, next)), runs) =
      elim (Bool-cases (ltb (length (frame ∷ rest)) min_frames)) [
        | inl t ↦ stops (frame ∷ rest) stack _ (ground arith) (rw t refl)
        | inr f ↦
            further f (Option-cases (catcher signal function (before % 2 ^ 32)))
              (unwind_from-Unwinds rest (take frame.ret_base stack) pos (ground arith) runs)
      ]
    where
      fault : fault_of frame ≡ some (before % 2 ^ 32)
      fault = fault_of-suc frame before next

      further :
          ltb (length (frame ∷ rest)) min_frames ≡ false
          → (catcher signal function (before % 2 ^ 32) ≡ none)
            ⊎ ((c : Caught × Handler) × (catcher signal function (before % 2 ^ 32) ≡ some c))
          → Unwinds rest
              (take frame.ret_base stack)
              (unwind_from vm signal min_frames rest (take frame.ret_base stack))
          → Unwinds (frame ∷ rest) stack (unwind_from vm signal min_frames (frame ∷ rest) stack)
      further f (inl n) outer =
          passes frame rest stack
            (unwind_from vm signal min_frames rest (take frame.ret_base stack)) _
            (rw (handler_in, at, fault, n) refl) (rw (f, at, fault, n) refl) outer
      further f (inr (c, n)) outer = inl (
        dispatch vm c.0 c.1 function frame rest stack,
        rw (f, at, fault, n) refl,
        record {
          passed = [];
          frame = frame;
          rest = rest;
          function = function;
          caught = c.0;
          handler = c.1;
          parts = refl;
          missed = tt;
          within = ground arith;
          runs = at;
          handles = rw (handler_in, at, fault, n) refl;
          resumes = refl;
          operands = refl;
          node = refl;
        },
      )

  -- Unwinding a machine whose frames run, at least one of which belongs to the bounded call, ends:
  -- the innermost frame of that call with a handler for the signal at its faulting instruction
  -- resumes at the handler's target, with the operands cut to the handler's depth and the caught
  -- signal on top; where there is none the frames of the call are dropped and the signal is raised.
  pub unwind-Unwinds :
      0 < min_frames
      → min_frames ≤ length vm.task.frames
      → All (IsRunning vm.functions) vm.task.frames
      → Unwinds vm.task.frames vm.task.stack (unwind vm signal min_frames)
  unfolding unwind
  unwind-Unwinds pos low runs =
      unwind_from-Unwinds vm.task.frames vm.task.stack pos (omega arith) runs
