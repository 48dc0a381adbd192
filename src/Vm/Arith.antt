-- ===== src/Vm/Arith.antt =====
-- The int instructions of the step function: their operands, results and panics.
use brasa.Prelude.{Bool, Option, none, some, if◌then◌else◌, codes, ◌>>=◌, ◌++◌}
use brasa.Prelude.Int.{ℤ}
use brasa.Value.{Value, Text}
use brasa.Int64.{checked_div, checked_rem, is_zero}
use brasa.Vm.{Vm, Signal, Result, ok, err, Run, then}
use brasa.Vm.Stack.{push, pop_int}
use brasa.Vm.Frames.{panic}

abbrev pub division_by_zero : Text
division_by_zero = codes "panics.DivisionByZero"

abbrev pub integer_overflow : Text
integer_overflow = codes "panics.IntegerOverflow"

unfoldable pub bad_arith : Signal
bad_arith = Signal.fatal (codes "brasa: invalid operands for arithmetic operator")

unfoldable pub bad_compare : Signal
bad_compare = Signal.fatal (codes "brasa: invalid operands for comparison")

-- `map_err` to one signal.
abbrev pub map_err : Signal → Vm × Result ℤ → Vm × Result ℤ
map_err signal (vm, ok a) = (vm, ok a)
map_err signal (vm, err s) = (vm, err signal)

-- Ends an instruction by a panic.
abbrev pub raise : Vm → Text → Text → Run {0} Unit
raise vm name detail = panic vm name detail >>= λ signal. some (vm, err signal)

unfoldable pub overflow : Vm → Text → Run {0} Unit
overflow vm op = raise vm integer_overflow (codes "integer overflow in `" ++ op ++ codes "`")

-- Pushes a result, or raises the overflow of `op`.
abbrev pub push_checked : Vm → Text → Option ℤ → Run {0} Unit
push_checked vm op (some result) = some (push vm (Value.int result), ok tt)
push_checked vm op none = overflow vm op

unfoldable pub int_arith : Vm → Text → (ℤ → ℤ → Option ℤ) → Run {0} Unit
int_arith vm symbol f = pop_int vm >>= λ first.
    (then)
      (λ vm1 b. pop_int vm1 >>= λ second.
        (then) (λ vm2 a. push_checked vm2 symbol (f a b)) (map_err bad_arith second))
      (map_err bad_arith first)

unfoldable pub int_cmp : Vm → (ℤ → ℤ → Bool) → Run {0} Unit
int_cmp vm f = pop_int vm >>= λ first.
    (then)
      (λ vm1 b. pop_int vm1 >>= λ second.
        (then) (λ vm2 a. some (push vm2 (Value.bool (f a b)), ok tt)) (map_err bad_compare second))
      (map_err bad_compare first)

unfoldable pub div_int : Vm → Run {0} Unit
div_int vm = pop_int vm >>= λ first.
    (then)
      (λ vm1 b. pop_int vm1 >>= λ second.
        (then)
          (λ vm2 a.
            if is_zero b
            then raise vm2 division_by_zero (codes "division by zero")
            else push_checked vm2 (codes "/") (checked_div a b))
          second)
      first

unfoldable pub rem_int : Vm → Run {0} Unit
rem_int vm = pop_int vm >>= λ first.
    (then)
      (λ vm1 b. pop_int vm1 >>= λ second.
        (then)
          (λ vm2 a.
            if is_zero b
            then raise vm2 division_by_zero (codes "remainder by zero")
            else push_checked vm2 (codes "%") (checked_rem a b))
          second)
      first
