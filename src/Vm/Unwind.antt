-- ===== src/Vm/Unwind.antt =====
-- Handler-table unwinding: frames are dropped from the innermost one on until one of them has a
-- handler for its faulting instruction, or the bounded caller's frames are reached.
pub mod Correct
pub mod Locals
use brasa.Prelude.{
  ℕ, zero, suc, ◌+◌, ◌-◌, ◌^◌, ◌%◌, List, [], ◌∷◌, ◌++◌, Bool, true, false, Option, none, some,
  length, take, get_elem?, ltb, if◌then◌else◌, ◌>>=◌,
}
use brasa.Value.{Value, Node, Caught, caught_node}
use brasa.Value
use brasa.Bytecode.{Function, Handler, handler_for}
use brasa.Vm.{Vm, Task, Frame, Signal, Result, ok, err, Run, with_stack, with_frames}

-- What a handler catches: errors and panics.
unfoldable pub caught_of : Signal → Option Caught
caught_of (Signal.error value) = some (Caught.error value)
caught_of (Signal.panic panic) = some (Caught.panic panic)
caught_of _ = none

-- The faulting instruction, `ip - 1` as 32 bits.
unfoldable pub fault_of : Frame → Option ℕ
fault_of frame = elim frame.ip [ zero ↦ none | suc before ↦ some (before % 2 ^ 32) ]

abbrev pub with_task : Vm → List Frame → List Value → Vm
with_task vm frames stack = with_stack (with_frames vm frames) stack

-- Enter the dispatch sequence of `handler` in `frame`, with the caught signal on the stack.
unfoldable pub dispatch : Vm → Caught → Handler → Function → Frame → List Frame → List Value → Vm
dispatch vm caught handler function frame rest stack =
    let floor = frame.base + function.locals in
    record (with_task vm (record frame { ip = handler.target } ∷ rest)
      (take (floor + handler.depth) stack ++ Value.caught (length vm.nodes) ∷ [])) {
        nodes = vm.nodes ++ caught_node caught ∷ [];
      }

-- The handler that catches the signal in `frame`, whose function is `function`.
unfoldable pub catcher : Signal → Function → ℕ → Option (Caught × Handler)
catcher signal function fault = do
  caught ← caught_of signal
  handler ← handler_for function.chunk fault
  some (caught, handler)

-- What a frame does once its handler has been looked up; `outer` is what happens without it.
abbrev pub settle :
    Vm
    → Function
    → Frame
    → List Frame
    → List Value
    → Run {0} Unit
    → Option (Caught × Handler)
    → Run {0} Unit
settle vm function frame rest stack outer none = outer
settle vm function frame rest stack outer (some (caught, handler)) =
    some (dispatch vm caught handler function frame rest stack, ok tt)

unfoldable pub unwind_from : Vm → Signal → ℕ → List Frame → List Value → Run {0} Unit
unwind_from vm signal min_frames [] stack =
    if ltb 0 min_frames then some (with_task vm [] stack, err signal) else none
unwind_from vm signal min_frames (frame ∷ rest) stack =
    let outer = unwind_from vm signal min_frames rest (take frame.ret_base stack) in
    if ltb (length (frame ∷ rest)) min_frames
    then some (with_task vm (frame ∷ rest) stack, err signal)
    else (get_elem? vm.functions frame.func >>= λ function. fault_of frame >>= λ fault.
        settle vm function frame rest stack outer (catcher signal function fault))

unfoldable pub unwind : Vm → Signal → ℕ → Run {0} Unit
unwind vm signal min_frames = unwind_from vm signal min_frames vm.task.frames vm.task.stack
