-- ===== src/FuncCx/Finish.antt =====
-- A finished function reserves what its body needs.
use brasa.Prelude.{
  ℕ, ◌-◌, ◌^◌, ◌≤◌, ◌<◌, ◌≡◌, refl, sym, ap, subst, ◌∙◌, false, Option, some, ◌>>=◌, List, [], ◌∷◌,
  ◌++◌, get_elem?, length, map, Elem, if◌then◌else◌,
}
use brasa.Value.{Text}
use brasa.Bytecode.{Op, CodeIx, Span, Handler, Chunk, Function, push_handler}
use brasa.Depth.{StructShape, Successors, transition, Needed, ok, err}
use brasa.Depth.Paths.{Reach, Fits}
use brasa.Depth.Seeds.{place}
use brasa.Depth.Finds.{Caught, Finds, finalize-Finds}
use brasa.FuncCx.{
  FuncCx, Report, slot_for, depths_of, max_stack_of, too_complex, finish, too_many_slots,
  push_handlers,
}
use brasa.FuncCx.Slots.{IsLaidOut}

push_handlers-code :
    (chunk : Chunk) (hs : List Handler) → (push_handlers chunk hs).code ≡ chunk.code
unfolding push_handler
push_handlers-code chunk [] = refl
push_handlers-code chunk (h ∷ hs) = push_handlers-code (push_handler chunk h) hs

append-nil : (xs : List Handler) → xs ++ [] ≡ xs
append-nil [] = refl
append-nil (x ∷ xs) = ap (λ z. x ∷ z) (append-nil xs)

append_assoc : (xs ys zs : List Handler) → (xs ++ ys) ++ zs ≡ xs ++ (ys ++ zs)
append_assoc [] ys zs = refl
append_assoc (x ∷ xs) ys zs = ap (λ z. x ∷ z) (append_assoc xs ys zs)

push_handlers-handlers :
    (chunk : Chunk) (hs : List Handler) → (push_handlers chunk hs).handlers ≡ chunk.handlers ++ hs
unfolding push_handler
push_handlers-handlers chunk [] = sym (append-nil chunk.handlers)
push_handlers-handlers chunk (h ∷ hs) =
    push_handlers-handlers (push_handler chunk h) hs ∙ append_assoc chunk.handlers (h ∷ []) hs

-- What a finished function holds, where nothing was reported.
pub record Reserves (structs : List StructShape) (f : FuncCx) (depth_at : CodeIx → ℕ)
    (function : Function) : Type 0 where
  pub body : function.chunk.code ≡ f.chunk.code
  pub slots : (local slot : ℕ) → slot_for local f.slots ≡ some slot → slot < function.locals
  pub operands :
      (ix : CodeIx)
      → Reach structs f.chunk.code (Caught f.handlers) ix
      → depth_at ix ≤ function.max_stack
  pub handlers : map place function.chunk.handlers ≡ map place f.handlers
  pub depths :
      (h : Handler)
      → Elem h function.chunk.handlers
      → Reach structs f.chunk.code (Caught f.handlers) h.start
      → h.depth ≡ depth_at h.start

module _ (structs : List StructShape) (name : Text) (arity captures : ℕ) (span : Span) (f : FuncCx)
    (depth_at : CodeIx → ℕ) (laid : IsLaidOut f) (roomy : f.slots_exhausted ≡ false)
    (silent : f.diagnostics ≡ []) (bare : f.chunk.handlers ≡ [])
    (shapes : (ix : CodeIx) (op : Op)
      → get_elem? f.chunk.code ix ≡ some op
      → (s : Successors) × (transition structs op ≡ some s))
    (starts : (h : Handler) → Elem h f.handlers → h.start < length f.chunk.code)
    (fits : Fits structs f.chunk.code (Caught f.handlers) depth_at) where
  abbrev function_of : List Handler → ℕ → Function
  function_of handlers max_stack = record {
    name = name;
    arity = arity;
    captures = captures;
    locals = f.next_slot;
    max_stack = max_stack;
    chunk = push_handlers f.chunk handlers;
  }

  function_of-Reserves :
      (handlers : List Handler) (n : ℕ)
      → Finds structs f.chunk.code f.handlers depth_at (handlers, ok n)
      → Reserves structs f depth_at (function_of handlers n)
  function_of-Reserves handlers n (same, found) =
      let all : (push_handlers f.chunk handlers).handlers ≡ handlers =
        push_handlers-handlers f.chunk handlers ∙ ap (λ hs. hs ++ handlers) bare in
      record {
        body = push_handlers-code f.chunk handlers;
        slots = laid.below roomy;
        operands = (found n refl).0;
        handlers = ap (map place) all ∙ same;
        depths = λ h m runs. (found n refl).1 h (subst (Elem h) all m) runs;
      }

  reports_of :
      (if f.slots_exhausted then too_many_slots name span f.diagnostics else f.diagnostics) ≡ []
  reports_of =
      subst (λ b. (if b then too_many_slots name span f.diagnostics else f.diagnostics) ≡ [])
        (sym roomy) silent

  abbrev function_from : List Handler × (ℕ × List Report) → Option (Function × List Report)
  function_from x = some (function_of x.0 x.1.0, x.1.1)

  abbrev Finished : Option (Function × List Report) → Type 0
  Finished o =
      (function : Function) × (reports : List Report) × (o ≡ some (function, reports))
      × (reports ≡ [] → Reserves structs f depth_at function)

  needed-Finished :
      (x : List Handler × Needed)
      → Finds structs f.chunk.code f.handlers depth_at x
      → Finished (function_from (x.0, max_stack_of name span [] x.1))
  unfolding max_stack_of too_complex
  needed-Finished (handlers, ok n) found =
      (function_of handlers n, [], refl, λ e. function_of-Reserves handlers n found)
  needed-Finished (handlers, err n) found =
      (function_of handlers (2 ^ 16 - 1), too_complex name n span [], refl, λ e. cc)

  -- Take a function with no two locals in one slot, a frame that is not full, nothing reported before,
  -- a chunk without handlers yet, code and handlers as the depth pass wants them, and depths that fit. Then `finish` returns a
  -- function with the same code. Where it reports nothing, that function reserves a slot for each local
  -- and an operand stack of at least the depth of each instruction that can run; its handlers are those
  -- registered, apart from their depths, and a handler whose start can run has the depth of that start.
  pub finish-Reserves :
      (function : Function) × (reports : List Report) × (finish structs name arity captures span f
        ≡ some (function, reports))
      × (reports ≡ [] → Reserves structs f depth_at function)
  unfolding finish depths_of
  finish-Reserves =
      let (x, e, found) =
        finalize-Finds structs f.chunk.code f.handlers depth_at shapes starts fits in
      let path =
        ap (λ r. depths_of structs name span f r >>= function_from) reports_of
        ∙ ap (λ o. (o >>= λ x. some (x.0, max_stack_of name span [] x.1)) >>= function_from) e in
      subst Finished (sym path) (needed-Finished x found)
