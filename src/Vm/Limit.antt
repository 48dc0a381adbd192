-- ===== src/Vm/Limit.antt =====
-- A call at the recursion limit, and the trace that its panic shows.
use brasa.Prelude.{
  ℕ, ◌≤◌, ◌<◌, ◌≡◌, refl, List, [], ◌∷◌, ◌++◌, true, false, some, length, get_elem?, leb, codes,
  decimal, arith, ◌≢◌, ◌==◌, All, ℕ_discrete, get_elem?_of_lt,
}
use brasa.Value.{Text}
use brasa.Bytecode.{Function}
use brasa.Vm.{Vm, Frame, Signal, err}
use brasa.Vm.Frames.{call_depth, capture_trace, panic, enter_function}

-- The names that a trace of the frames shows, innermost first: `<toplevel>` is left out.
pub data Traces (functions : List Function) : List Frame → List Text → Type 0 where
  bottom : Traces functions [] []
  outermost :
      {frames : List Frame} {names : List Text} (frame : Frame)
      → frame.func ≡ 0
      → Traces functions frames names
      → Traces functions (frame ∷ frames) names
  called :
      {frames : List Frame} {names : List Text} (frame : Frame) (function : Function)
      → frame.func ≢ 0
      → get_elem? functions frame.func ≡ some function
      → Traces functions frames names
      → Traces functions (frame ∷ frames) (function.name ∷ names)

-- Every frame runs a function of the table.
abbrev pub IsKnown : List Function → List Frame → Type 0
IsKnown functions frames = All (λ frame. frame.func < length functions) frames

capture_trace-Traces :
    (functions : List Function) (frames : List Frame)
    → IsKnown functions frames
    → (names : List Text) × (capture_trace functions frames ≡ some names)
      × Traces functions frames names
unfolding capture_trace
capture_trace-Traces functions [] known = ([], refl, bottom)
capture_trace-Traces functions (frame ∷ frames) (known, others) =
    let (names, e, traced) = capture_trace-Traces functions frames others in
    let (function, at) = get_elem?_of_lt functions frame.func known in
    elim (ℕ_discrete frame.func 0) [
      | yes top ↦
          let t : (frame.func == 0) ≡ true = ground arith in
          (names, rw (e, at, t) refl, outermost frame top traced)
      | no other ↦
          let f : (frame.func == 0) ≡ false = ground arith in
          (function.name ∷ names, rw (e, at, f) refl, called frame function other at traced)
    ]

-- Where every frame runs a function of the table, a call at or beyond the recursion limit enters
-- nothing: the machine stays as it was, and the call raises the panic `panics.StackOverflow`, whose
-- detail shows the limit and whose trace names the functions of the frames, innermost first and
-- without `<toplevel>`.
pub enter_function-overflow :
    (vm : Vm) (func base ret_base : ℕ)
    → vm.max_depth ≤ call_depth vm.task.frames
    → IsKnown vm.functions vm.task.frames
    → (names : List Text) × (enter_function vm func base ret_base
        ≡ some (
          vm,
          err (
              Signal.panic (record {
                name = codes "panics.StackOverflow";
                detail =
                    codes "recursion limit (" ++ decimal vm.max_depth ++ codes " frames) exceeded";
                stack = names;
              })),
        ))
      × Traces vm.functions vm.task.frames names
unfolding enter_function panic
enter_function-overflow vm func base ret_base deep known =
    let limit : leb vm.max_depth (call_depth vm.task.frames) ≡ true = ground arith in
    let (names, e, traced) = capture_trace-Traces vm.functions vm.task.frames known in
    (names, rw (limit, e) refl, traced)
