-- ===== src/Vm.antt =====
-- crates/brasa_vm/src/vm.rs: the machine's state, its call frames and its operand stack. A method on
-- `&mut self` returns the new machine and `Ok` or the signal that it raises; `none` is a Rust panic.
-- The innermost frame is the head of `frames`; a stack's top is its last value.
pub mod Stack
pub mod Frames
pub mod Calls
pub mod Limit
pub mod Unwind
pub mod Arith
pub mod Ints
mod Tests
use brasa.Prelude.{ℕ, ◌+◌, List, [], Bool, Option, none, some, length, ◌>>=◌}
use brasa.Prelude.Int.{ℤ}
use brasa.Value.{Value, Node, PanicValue, Caught, Text}
use brasa.Bytecode.{Function}

pub data Signal : Type 0 where
  error : Value → Signal
  panic : PanicValue → Signal
  fatal : Text → Signal
  broken_pipe : Signal
  exit : ℤ → Signal
  breakpoint park : Signal

-- `ip` is the next instruction's index.
pub record Frame : Type 0 where
  pub func : ℕ
  pub ip : ℕ
  pub base : ℕ
  pub ret_base : ℕ

pub record Task : Type 0 where
  pub stack : List Value
  pub frames : List Frame
  pub native_roots : List Value
  pub reentry_depth : ℕ

-- The part of the machine that its frames and its operand stack read and write, with the module's
-- function table; `nodes` are the shared nodes that are alive.
pub record Vm : Type 0 where
  pub functions : List Function
  pub task : Task
  pub nodes : List Node
  pub max_depth : ℕ

-- `Result<T, Signal>`
pub data Result {ℓ} (A : Type ℓ) : Type ℓ where
  ok : A → Result A
  err : Signal → Result A

abbrev pub Run {ℓ} : Type ℓ → Type ℓ
Run A = Option (Vm × Result A)

-- `?`: a signal ends the operation, with the machine as it is.
abbrev pub then {ℓ κ} : {A : Type ℓ} {B : Type κ} → (Vm → A → Run B) → Vm × Result A → Run B
then f (vm, ok a) = f vm a
then f (vm, err signal) = some (vm, err signal)

abbrev pub with_stack : Vm → List Value → Vm
with_stack vm stack = record vm { task = record vm.task { stack = stack } }

abbrev pub with_frames : Vm → List Frame → Vm
with_frames vm frames = record vm { task = record vm.task { frames = frames } }
