-- ===== src/Vm/Frames.antt =====
-- Entering a function, writing a closure's captures and returning; the trace that a panic captures.
use brasa.Prelude.{
  ℕ, suc, ◌+◌, ◌-◌, List, [], ◌∷◌, ◌++◌, Option, none, some, length, take, get_elem?, leb, ltb, set,
  if◌then◌else◌, codes, decimal, ◌>>=◌, ◌==◌,
}
use brasa.Value.{Value, Text, ClosureValue}
use brasa.Bytecode.{Function}
use brasa.Vm.{Vm, Frame, Signal, ok, err, Run, with_stack, with_frames}
use brasa.Vm.Stack.{resize, pop, push}

-- 1 if the outermost frame is `<toplevel>`'s.
abbrev pub toplevel : List Frame → ℕ
toplevel [] = 0
toplevel (frame ∷ []) = if frame.func == 0 then 1 else 0
toplevel (frame ∷ outer ∷ frames) = toplevel (outer ∷ frames)

unfoldable pub call_depth : List Frame → ℕ
call_depth frames = length frames - toplevel frames

unfoldable pub capture_trace : List Function → List Frame → Option (List Text)
capture_trace functions [] = some []
capture_trace functions (frame ∷ frames) = do
  rest ← capture_trace functions frames
  let named = get_elem? functions frame.func >>= λ function. some (function.name ∷ rest)
  if frame.func == 0 then some rest else named

unfoldable pub panic : Vm → Text → Text → Option Signal
panic vm name detail = do
  stack ← capture_trace vm.functions vm.task.frames
  some (Signal.panic (record { name = name; detail = detail; stack = stack }))

abbrev pub stack_overflow : Text
stack_overflow = codes "panics.StackOverflow"

-- The reservation is a subtraction of lengths, which must not underflow.
unfoldable pub push_frame : Vm → ℕ → ℕ → ℕ → Function → Run {0} Unit
push_frame vm func base ret_base function =
    let floor = base + function.locals in
    if leb (length vm.task.stack) (floor + function.max_stack)
    then some (
      record vm {
        task = record vm.task {
          stack = resize floor Value.unit vm.task.stack;
          frames =
              record { func = func; ip = 0; base = base; ret_base = ret_base } ∷ vm.task.frames;
        };
      },
      ok tt,
    )
    else none

unfoldable pub enter_function : Vm → ℕ → ℕ → ℕ → Run {0} Unit
unfolding push_frame
enter_function vm func base ret_base =
    if leb vm.max_depth (call_depth vm.task.frames)
    then (panic vm stack_overflow
          (codes "recursion limit (" ++ decimal vm.max_depth ++ codes " frames) exceeded")
        >>= λ signal. some (vm, err signal))
    else (get_elem? vm.functions func >>= λ function. push_frame vm func base ret_base function)

-- `for (offset, value) in captures`, from the slot `ix` on.
unfoldable pub write_from : ℕ → List Value → List Value → Option (List Value)
write_from ix [] stack = some stack
write_from ix (value ∷ values) stack =
    let rest = write_from (suc ix) values (set stack ix value) in
    if ltb ix (length stack) then rest else none

unfoldable pub write_captures : Vm → ClosureValue → Option Vm
write_captures vm closure = elim vm.task.frames [
  | [] ↦ none
  | frame ∷ rest ↦ do
    function ← get_elem? vm.functions closure.func
    stack ← write_from (frame.base + function.arity) closure.captures vm.task.stack
    some (with_stack vm stack)
]

-- `Op::Ret`
unfoldable pub ret : Vm → Option Vm
unfolding pop push
ret vm = do
  (vm', result) ← pop vm
  elim vm'.task.frames [
    | [] ↦ none
    | frame ∷ rest ↦
        some (push (with_stack (with_frames vm' rest) (take frame.ret_base vm'.task.stack)) result)
  ]
