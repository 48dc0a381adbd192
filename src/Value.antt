-- ===== src/Value.antt =====
-- crates/brasa_vm/src/value.rs: runtime values. An arena kind holds its `GcRef`. A shared immutable
-- node (an `Rc`) is a handle, its address, into the list of the nodes that are alive, so that two
-- values with one address share one node. A string, a record of the standard library and a JSON
-- tree have no edges; a string is its bytes, and a float its bit pattern.
pub mod Iter
mod Tests
use brasa.Prelude.{ℕ, List, Bool, Option}
use brasa.Prelude.Int.{ℤ}

abbrev pub GcRef : Type 0
GcRef = ℕ

abbrev pub Handle : Type 0
Handle = ℕ

abbrev pub Text : Type 0
Text = List ℕ

pub record OutputValue : Type 0 where
  pub stdout : Text
  pub stderr : Text
  pub code : ℤ

pub data ErrorPayload : Type 0 where
  no_payload : ErrorPayload
  proc_exit : OutputValue → ErrorPayload

pub record NativeErrorValue : Type 0 where
  pub name : Text
  pub message : Text
  pub payload : ErrorPayload

pub record ResponseValue : Type 0 where
  pub status : ℤ
  pub body : Text
  pub headers : List (Text × Text)

pub record ArgsValue : Type 0 where
  pub flags : List Text
  pub options : List (Text × Text)
  pub rest : List Text

pub record StatValue : Type 0 where
  pub size : ℤ
  pub modified_millis : ℤ
  pub is_file : Bool
  pub is_dir : Bool
  pub is_symlink : Bool

pub data Value : Type 0 where
  int : ℤ → Value
  float : ℕ → Value
  bool : Bool → Value
  char : ℕ → Value
  unit : Value
  str : Text → Value
  range : ℤ → ℤ → Bool → Value
  tuple : Handle → Value
  vector map set : GcRef → Value
  option_none : Value
  option_some : Handle → Value
  struct : GcRef → Value
  enum : Handle → Value
  func : ℕ → Value
  closure bound_method bound_builtin : Handle → Value
  native_error : NativeErrorValue → Value
  caught iter : Handle → Value
  binding : GcRef → Value
  proc_output : OutputValue → Value
  walk : Handle → Value
  stat : StatValue → Value
  json : Handle → Value
  cli_args : ArgsValue → Value
  http_response : ResponseValue → Value
  concurrent_scope task : GcRef → Value

pub data TaskState : Type 0 where
  pending : Value → GcRef → TaskState
  running : TaskState
  done : Value → TaskState
  failed : Value → Bool → ℕ → TaskState

pub record ScopeState : Type 0 where
  pub tasks : List Value
  pub exited : Bool

pub record WalkValue : Type 0 where
  pub paths : Value
  pub unreadable : Value

pub record StructValue : Type 0 where
  pub shape : ℕ
  pub fields : List Value

pub record EnumValue : Type 0 where
  pub shape : ℕ
  pub variant : ℕ
  pub fields : List Value

pub record ClosureValue : Type 0 where
  pub func : ℕ
  pub captures : List Value

pub record BoundMethod : Type 0 where
  pub recv : Value
  pub func : ℕ

pub record BoundBuiltin : Type 0 where
  pub recv : Value
  pub builtin : ℕ

pub record PanicValue : Type 0 where
  pub name : Text
  pub detail : Text
  pub stack : List Text

pub data Caught : Type 0 where
  error : Value → Caught
  panic : PanicValue → Caught

pub data IterState : Type 0 where
  range_iter : ℤ → ℤ → Bool → Bool → IterState
  items_iter : List Value → ℕ → IterState

-- What the allocation behind a handle holds.
pub data Node : Type 0 where
  tuple_node : List Value → Node
  some_node : Value → Node
  enum_node : EnumValue → Node
  walk_node : WalkValue → Node
  closure_node : ClosureValue → Node
  bound_method_node : BoundMethod → Node
  bound_builtin_node : BoundBuiltin → Node
  caught_node : Caught → Node
  iter_node : IterState → Node
