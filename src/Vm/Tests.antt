-- ===== src/Vm/Tests.antt =====
-- A call and its return, and a signal that the caller of the faulting function catches.
use brasa.Prelude.{
  ◌≤◌, ◌<◌, ◌≡◌, refl, List, [], ◌∷◌, ◌++◌, some, length, codes, decimal, digits, arith, subst,
  get_elem?, All,
}
use brasa.Prelude.Int.{pos}
use brasa.Value.{Value, Text, caught_node, Caught}
use brasa.Bytecode.{Function, Handler, new, handler_for, first_covering, covers}
use brasa.Prelude.{ℕ, ◌<◌, ◌≢◌, inr}
use brasa.Prelude.Int.{ℤ, negsuc, pos, ◌*ℤ◌, ◌+ℤ◌}
use brasa.Int64.{IsI64, checked, checked_add, checked_div, checked_rem, tdiv, tmod, magnitude}
use brasa.Vm.Stack.{push, pop, pop_int}
use brasa.Vm.Arith.{div_int, rem_int}
use brasa.Vm.Ints.{push_ints, div_int-rem_int}
use brasa.Vm.{Vm, Frame, Signal, ok, err}
use brasa.Vm.Frames.{enter_function, call_depth, panic, capture_trace, ret, stack_overflow}
use brasa.Vm.Calls.{Enters, enter_function-Enters, ret-enter_function}
use brasa.Vm.Limit.{Traces, IsKnown, enter_function-overflow}
use brasa.Vm.Unwind.{unwind, unwind_from, caught_of, fault_of, dispatch, catcher}
use brasa.Vm.Unwind.Correct.{IsRunning, Unwinds, unwind-Unwinds}
use brasa.Vm.Unwind.Locals.{IsStacked, Resumes, unwind-Resumes}

abbrev handler : Handler
handler = record { start = 1; end = 4; target = 6; depth = 1 }

abbrev main : Function
main = record {
  name = codes "main";
  arity = 0;
  captures = 0;
  locals = 2;
  max_stack = 3;
  chunk = record new { handlers = handler ∷ [] };
}

abbrev helper : Function
helper = record {
  name = codes "helper";
  arity = 1;
  captures = 0;
  locals = 2;
  max_stack = 2;
  chunk = record { code = []; spans = []; handlers = [] };
}

abbrev caller : Frame
caller = record { func = 1; ip = 3; base = 0; ret_base = 0 }

abbrev callee : Frame
callee = record { func = 2; ip = 5; base = 3; ret_base = 3 }

abbrev machine : List Frame → List Value → Vm
machine frames stack = record {
  functions = main ∷ main ∷ helper ∷ [];
  task = record { stack = stack; frames = frames; native_roots = []; reentry_depth = 0 };
  nodes = [];
  max_depth = 2;
}

abbrev one : Value
one = Value.int (pos 1)

abbrev before_call : Vm
before_call = machine (caller ∷ []) (one ∷ one ∷ one ∷ one ∷ [])

abbrev faulty : Vm
faulty = machine (callee ∷ caller ∷ []) (one ∷ one ∷ one ∷ Value.unit ∷ Value.unit ∷ one ∷ [])

faulty-IsRunning : All (IsRunning faulty.functions) faulty.task.frames
faulty-IsRunning = (((helper, refl), (4, refl)), (((main, refl), (2, refl)), tt))

faulty-IsStacked : IsStacked faulty.functions faulty.task.frames (length faulty.task.stack)
faulty-IsStacked =
    ((helper, refl, omega arith), omega arith, ((main, refl, omega arith), omega arith, tt))

-- The caller resumes at the handler with one operand and the caught signal.
run_unwind :
    unwind faulty (Signal.error one) 1
    ≡ some (
      record (machine (record caller { ip = 6 } ∷ []) (one ∷ one ∷ one ∷ Value.caught 0 ∷ [])) {
        nodes = caught_node (Caught.error one) ∷ [];
      },
      ok tt,
    )
unfolding unwind unwind_from caught_of fault_of dispatch catcher handler_for first_covering covers
    new
run_unwind = refl

-- A breakpoint passes every handler, and the two frames of the call are gone.
run_breakpoint : unwind faulty Signal.breakpoint 1 ≡ some (machine [] [], err Signal.breakpoint)
unfolding unwind unwind_from caught_of fault_of catcher
run_breakpoint = refl

enter_function-Enters_example :
    (vm' : Vm) × (enter_function before_call 2 3 3 ≡ some (vm', ok tt))
    × Enters before_call 2 3 3 helper vm'
unfolding call_depth
enter_function-Enters_example =
    enter_function-Enters before_call 2 3 3 helper depth refl (omega arith)
  where
    depth : call_depth before_call.task.frames < 2
    depth = omega arith

abbrev overflow : Signal
overflow = Signal.panic (record {
  name = stack_overflow;
  detail = codes "recursion limit (2 frames) exceeded";
  stack = codes "helper" ∷ codes "main" ∷ [];
})

run_panic :
    panic faulty stack_overflow
      (codes "recursion limit (" ++ decimal 2 ++ codes " frames) exceeded")
    ≡ some overflow
unfolding panic capture_trace decimal digits
run_panic = refl

enter_function-overflow_example :
    (names : List Text) × (enter_function faulty 2 5 5
      ≡ some (
        faulty,
        err (
            Signal.panic (record {
              name = codes "panics.StackOverflow";
              detail = codes "recursion limit (" ++ decimal 2 ++ codes " frames) exceeded";
              stack = names;
            })),
      ))
    × Traces faulty.functions faulty.task.frames names
unfolding call_depth
enter_function-overflow_example = enter_function-overflow faulty 2 5 5 deep known
  where
    deep : 2 ≤ call_depth faulty.task.frames
    deep = omega arith

    known : IsKnown faulty.functions faulty.task.frames
    known = (omega arith, (omega arith, tt))

entered :
    Enters before_call 2 3 3 helper
      (machine (record callee { ip = 0 } ∷ caller ∷ []) (one ∷ one ∷ one ∷ one ∷ Value.unit ∷ []))
unfolding call_depth
entered = record {
  framed = refl;
  floor = refl;
  below = refl;
  filled = λ i low high.
      let same : 4 ≡ i = omega arith in
      subst (λ j. get_elem? (one ∷ one ∷ one ∷ one ∷ Value.unit ∷ []) j ≡ some Value.unit) same
        refl;
  bounded = omega arith;
}

ret-enter_function_example :
    (w : Vm) × (ret
        (machine (callee ∷ caller ∷ []) (one ∷ one ∷ one ∷ Value.unit ∷ Value.unit ∷ one ∷ []))
      ≡ some w)
    × (w.task.frames ≡ caller ∷ [])
    × (w.task.stack ≡ one ∷ one ∷ one ∷ one ∷ [])
ret-enter_function_example =
    ret-enter_function before_call
      (machine (record callee { ip = 0 } ∷ caller ∷ []) (one ∷ one ∷ one ∷ one ∷ Value.unit ∷ []))
      faulty 2 3 3 helper entered (omega arith) 5 (Value.unit ∷ Value.unit ∷ []) one refl refl

unwind-Unwinds_example :
    Unwinds faulty
      (Signal.error one)
      1
      faulty.task.frames
      faulty.task.stack
      (unwind faulty (Signal.error one) 1)
unwind-Unwinds_example =
    unwind-Unwinds faulty (Signal.error one) 1 (omega arith) (omega arith) faulty-IsRunning

unwind-Resumes_example :
    Resumes faulty
      (record (machine (record caller { ip = 6 } ∷ []) (one ∷ one ∷ one ∷ Value.caught 0 ∷ [])) {
        nodes = caught_node (Caught.error one) ∷ [];
      })
unwind-Resumes_example =
    unwind-Resumes faulty
      (record (machine (record caller { ip = 6 } ∷ []) (one ∷ one ∷ one ∷ Value.caught 0 ∷ [])) {
        nodes = caught_node (Caught.error one) ∷ [];
      })
      (Signal.error one) 1 (omega arith) (omega arith) faulty-IsRunning faulty-IsStacked run_unwind

-- -7 / 2 is -3 with the remainder -1.
run_div_int :
    div_int (push_ints faulty (negsuc 6) (pos 2)) ≡ some (push faulty (Value.int (negsuc 2)), ok tt)
unfolding div_int pop_int pop push checked_div checked tdiv
run_div_int = refl

run_rem_int :
    rem_int (push_ints faulty (negsuc 6) (pos 2)) ≡ some (push faulty (Value.int (negsuc 0)), ok tt)
unfolding rem_int pop_int pop push checked_rem checked tdiv tmod
run_rem_int = refl

sum : checked_add (negsuc 6) (pos 9) ≡ some (pos 2)
unfolding checked_add checked ◌+ℤ◌
sum = refl

not_minus_one : negsuc 1 ≢ negsuc 0
not_minus_one e = cc

small-IsI64 : (n : ℕ) → n < 100 → IsI64 (negsuc n)
small-IsI64 n h = (omega arith, omega arith)

div_int-rem_int_example :
    (q r : ℤ) × (div_int (push_ints faulty (negsuc 6) (negsuc 1))
      ≡ some (push faulty (Value.int q), ok tt))
    × (rem_int (push_ints faulty (negsuc 6) (negsuc 1)) ≡ some (push faulty (Value.int r), ok tt))
    × (negsuc 6 ≡ q *ℤ negsuc 1 +ℤ r)
    × (magnitude r < magnitude (negsuc 1))
div_int-rem_int_example =
    div_int-rem_int faulty (negsuc 6) (negsuc 1) (small-IsI64 6 (omega arith))
      (small-IsI64 1 (omega arith)) refl (inr not_minus_one)
