-- ===== src/Vm/Stack.antt =====
-- The operand stack: the helpers of every instruction, and the checked int arithmetic over them.
use brasa.Prelude.{
  ℕ, ◌-◌, List, [], ◌∷◌, ◌++◌, Bool, Option, none, some, length, take, drop, replicate, leb,
  if◌then◌else◌, codes, ◌>>=◌,
}
use brasa.Prelude.Int.{ℤ}
use brasa.Value.{Value}
use brasa.Vm.{Vm, Signal, Result, ok, err, Run, with_stack, with_frames}

-- `Vec::pop`, `Vec::truncate` and `Vec::resize`.
abbrev pub unsnoc {ℓ} : {A : Type ℓ} → List A → Option (List A × A)
unsnoc [] = none
unsnoc (x ∷ []) = some ([], x)
unsnoc (x ∷ y ∷ xs) = do (rest, last) ← unsnoc (y ∷ xs); some (x ∷ rest, last)

abbrev pub resize {ℓ} : {A : Type ℓ} → ℕ → A → List A → List A
resize n a xs = take n xs ++ replicate (n - length xs) a

unfoldable pub push : Vm → Value → Vm
push vm value = with_stack vm (vm.task.stack ++ value ∷ [])

unfoldable pub pop : Vm → Option (Vm × Value)
pop vm = do (rest, value) ← unsnoc vm.task.stack; some (with_stack vm rest, value)

unfoldable pub peek : Vm → Option Value
peek vm = do (rest, value) ← unsnoc vm.task.stack; some value

unfoldable pub pop_n : Vm → ℕ → Option (Vm × List Value)
pop_n vm n =
    let at = length vm.task.stack - n in
    if leb n (length vm.task.stack)
    then some (with_stack vm (take at vm.task.stack), drop at vm.task.stack)
    else none

unfoldable pub not_an_int : Signal
not_an_int = Signal.fatal (codes "brasa: expected an int")

unfoldable pub not_a_bool : Signal
not_a_bool = Signal.fatal (codes "brasa: condition is not a bool")

abbrev pub as_int : Value → Result ℤ
as_int (Value.int v) = ok v
as_int _ = err not_an_int

abbrev pub as_bool : Value → Result Bool
as_bool (Value.bool v) = ok v
as_bool _ = err not_a_bool

unfoldable pub pop_int : Vm → Run ℤ
pop_int vm = do (vm', value) ← pop vm; some (vm', as_int value)

unfoldable pub pop_bool : Vm → Run Bool
pop_bool vm = do (vm', value) ← pop vm; some (vm', as_bool value)

unfoldable pub jump : Vm → ℕ → Option Vm
jump vm target = elim vm.task.frames [
  | [] ↦ none
  | frame ∷ rest ↦ some (with_frames vm (record frame { ip = target } ∷ rest))
]

unfoldable pub frame_base : Vm → Option ℕ
frame_base vm = elim vm.task.frames [ [] ↦ none | frame ∷ rest ↦ some frame.base ]
