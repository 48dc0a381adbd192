-- ===== src/Lib.antt =====
-- brasa: a statically typed scripting language. A source text is lexed, parsed, resolved, checked and
-- compiled to bytecode, and a stack machine with a tracing collector runs the bytecode.
--
-- The library models the parts that run a program and the tables that they share with the compiler.
-- Code is translated function by function: a method on `&mut self` takes the state and returns the
-- new one, a Rust panic or an index out of bounds is `none`, and a `Result<_, Signal>` is a sum.
-- A size in bytes or a length is a number without an upper bound, except where the source checks or
-- truncates one (32-bit ids and positions, the checked arithmetic of 64-bit ints).
--
-- * Table (crates/brasa_runtime/src/table.rs): `OrderedMap` and `OrderedSet`. Entries are a list, a
--   `HashMap` is an association list, the projection to a hash key and the equality of values are
--   parameters. Table/Map and Table/Set hold the operations with the plain lists that they refine.
-- * Value (crates/brasa_vm/src/value.rs): values, and the loop iterators in Value/Iter. A value of an
--   arena kind holds a cell's number; an `Rc` node is a number too, its address, so that sharing is
--   visible. The contents of the nodes that are alive are a list beside the heap.
-- * Heap (crates/brasa_vm/src/heap.rs): the arena. Heap and Heap/Access hold the operations,
--   Heap/Mark the marking worklist, Heap/Collect the sweep and the whole collection. Heap/Graph says
--   what is reachable without the worklist. The worklist runs on fuel, one round for each cell and
--   each node, since every item is queued once; Heap/Loop proves that this is enough. The sizes of a
--   slot and of a cell are the record `Layout`. Heap/Census is the debugger's view, Heap/Interner the
--   string interner.
-- * Bytecode (crates/brasa_bytecode/src/op.rs, chunk.rs, module.rs, constant.rs): instructions, a
--   function's code with its span and handler tables, and the constant pool.
-- * Vm (crates/brasa_vm/src/vm.rs): the machine's frames and operand stack, calls, returns, and
--   unwinding in Vm/Unwind, the int instructions in Vm/Arith. The machine's state is cut to what these read and write.
-- * Source (crates/brasa_source/src/file.rs, span.rs): from a byte offset to a line and a column. The binary
--   search runs on fuel, the length of the line table, which bounds the span that it halves. Source/Scalars has
--   the UTF-8 encoding that columns are measured against.
-- * Exhaust (crates/brasa_typeck/src/exhaust.rs): the exhaustiveness check of a match over matrices of
--   patterns. The constructor sets of types are the interface `Universe`. The recursion is on the
--   columns and on a fuel, the number of constructors in the matrix: specializing a complete column
--   uses one up. Exhaust/Specialize says what patterns match.
-- * Bundle (crates/brasa_module/src/bundle.rs): a program as one payload of bytes. Bundle has the writer,
--   the reader and the check of the graph, Bundle/Codec the fields that a reader takes in sequence.
-- * Time (crates/brasa_runtime/src/time_glue.rs): timestamps. Time has the calendar and the rendering,
--   Time/Scan the parser; Time/Calendar and Time/Civil the arithmetic of years and eras.
-- * Token (crates/brasa_token/src/lib.rs): token kinds, keywords and the values of literals. Token/Escapes has the
--   escapes of strings, and the rendering of a string by crates/brasa_vm/src/display.rs, which
--   Lexer/Literals compares with the lexer's scan of a string.
-- * Depth (crates/brasa_codegen/src/depth.rs): the pass that gives a compiled body its handler depths and its
--   operand stack, as a release build runs it. Depth/Paths says what can run and which depths fit, without
--   the worklist. The inner loop has fuel for two items for each instruction, the outer one for a round
--   for each handler and one more.
-- * FuncCx (crates/brasa_codegen/src/func.rs): one function while it is compiled. FuncCx has its state with the
--   emit helpers, FuncCx/Slots the frame slots, FuncCx/Finish what a finished function reserves.
-- * Lexer (crates/brasa_lexer/src/lib.rs): Lexer has the scans by hand, Lexer/Driver the driver `lex_all` over the
--   matcher that `logos` generates, a parameter. A scan runs on a fuel of a round for each byte, the driver
--   on two rounds for each byte and two more, since a round takes a byte or leaves a mode.
-- * Uri (crates/brasa_lsp/src/uri.rs): the language server's `file:` addresses. The parser of addresses is a
--   parameter, and so is what replaces bytes that are no UTF-8.
-- * Types (crates/brasa_typeck/src/types.rs): the checker's types, `unify` and `substitute`. Types/Known says
--   when a type says at least what another says, without `unify`; Types/Display renders a type. The numbers of the parameters' owners
--   are those of crates/brasa_resolver/src/tables.rs.
-- * Int64 is the checked arithmetic of Rust's `i64`, Prelude the names, lists and tests that all share.
--
-- How they interact: the machine's instructions allocate cells in the heap, whose map and set cells
-- hold the tables; a collection starts from the values of the stacks and the globals; unwinding reads
-- the handler tables of the functions' chunks, and wraps the caught signal in a shared node.
--
-- Not modelled: the other parts of the compiler (parser, resolver, the checker of expressions, error
-- sets, the lowering of syntax trees), the step function apart from the int instructions and the return, the scheduler, the builtins,
-- and the tools around them.
pub mod Bundle
pub mod Bytecode
pub mod Depth
pub mod Exhaust
pub mod FuncCx
pub mod Heap
pub mod Int64
pub mod Lexer
pub mod Prelude
pub mod Source
pub mod Table
pub mod Time
pub mod Token
pub mod Types
pub mod Uri
pub mod Value
pub mod Vm
