-- ===== src/Vm/Calls.antt =====
-- The calling convention: what a call lays out, how deep calls nest, and that a return undoes it.
use brasa.Prelude.{
  ℕ, zero, suc, ◌+◌, ◌-◌, ◌≤◌, ◌<◌, ◌≡◌, refl, sym, ap, ◌∙◌, List, [], ◌∷◌, ◌++◌, true, false, some,
  length, take, replicate, get_elem?, leb, arith, length-append, length-replicate,
}
use brasa.Value.{Value}
use brasa.Bytecode.{Function}
use brasa.Vm.{Vm, Frame, ok, with_stack, with_frames}
use brasa.Vm.Stack.{resize, pop, push, unsnoc}
use brasa.Vm.Frames.{toplevel, call_depth, push_frame, enter_function, ret}

module _ {ℓ} {A : Type ℓ} where
  pub length-take : (n : ℕ) (xs : List A) → n ≤ length xs → length (take n xs) ≡ n
  length-take zero xs h = refl
  length-take (suc n) [] h = absurd (omega arith)
  length-take (suc n) (x ∷ xs) h = ap suc (length-take n xs (omega arith))

  pub take_all : (n : ℕ) (xs : List A) → length xs ≤ n → take n xs ≡ xs
  take_all zero [] h = refl
  take_all zero (x ∷ xs) h = absurd (omega arith)
  take_all (suc n) [] h = refl
  take_all (suc n) (x ∷ xs) h = ap (◌∷◌ x) (take_all n xs (omega arith))

  pub take-append_left : (n : ℕ) (xs ys : List A) → n ≤ length xs → take n (xs ++ ys) ≡ take n xs
  take-append_left zero xs ys h = refl
  take-append_left (suc n) [] ys h = absurd (omega arith)
  take-append_left (suc n) (x ∷ xs) ys h = ap (◌∷◌ x) (take-append_left n xs ys (omega arith))

  pub take-take : (n m : ℕ) (xs : List A) → n ≤ m → take n (take m xs) ≡ take n xs
  take-take zero m xs h = refl
  take-take (suc n) zero xs h = absurd (omega arith)
  take-take (suc n) (suc m) [] h = refl
  take-take (suc n) (suc m) (x ∷ xs) h = ap (◌∷◌ x) (take-take n m xs (omega arith))

  get_elem?-replicate : (n i : ℕ) (a : A) → i < n → get_elem? (replicate n a) i ≡ some a
  get_elem?-replicate zero i a h = absurd (omega arith)
  get_elem?-replicate (suc n) zero a h = refl
  get_elem?-replicate (suc n) (suc i) a h = get_elem?-replicate n i a (omega arith)

  get_elem?-append_right :
      (xs ys : List A) (i : ℕ)
      → length xs ≤ i
      → get_elem? (xs ++ ys) i ≡ get_elem? ys (i - length xs)
  get_elem?-append_right [] ys i h = ap (get_elem? ys) (omega arith)
  get_elem?-append_right (x ∷ xs) ys zero h = absurd (omega arith)
  get_elem?-append_right (x ∷ xs) ys (suc i) h =
      get_elem?-append_right xs ys i (omega arith) ∙ ap (get_elem? ys) (omega arith)

  pub unsnoc-push : (xs : List A) (a : A) → unsnoc (xs ++ a ∷ []) ≡ some (xs, a)
  unsnoc-push [] a = refl
  unsnoc-push (x ∷ []) a = refl
  unsnoc-push (x ∷ y ∷ xs) a = rw (unsnoc-push (y ∷ xs) a) refl

toplevel-cons : (frame : Frame) (frames : List Frame) → toplevel frames ≤ toplevel (frame ∷ frames)
toplevel-cons frame [] = omega arith
toplevel-cons frame (outer ∷ frames) = omega arith

-- What a call of `func` lays out: the arguments stay in the first slots, unit fills the others.
pub record Enters (vm : Vm) (func base ret_base : ℕ) (function : Function) (vm' : Vm) : Type 0 where
  pub framed :
      vm'.task.frames
      ≡ record { func = func; ip = 0; base = base; ret_base = ret_base } ∷ vm.task.frames
  pub floor : length vm'.task.stack ≡ base + function.locals
  pub below : take (length vm.task.stack) vm'.task.stack ≡ vm.task.stack
  pub filled :
      (i : ℕ)
      → length vm.task.stack ≤ i
      → i < base + function.locals
      → get_elem? vm'.task.stack i ≡ some Value.unit
  pub bounded : call_depth vm'.task.frames ≤ vm.max_depth

resized :
    (n : ℕ) (stack : List Value)
    → length stack ≤ n
    → resize n Value.unit stack ≡ stack ++ replicate (n - length stack) Value.unit
resized n stack h = ap (λ xs. xs ++ replicate (n - length stack) Value.unit) (take_all n stack h)

call_depth-cons :
    (frame : Frame) (frames : List Frame) → call_depth (frame ∷ frames) ≤ suc (call_depth frames)
unfolding call_depth
call_depth-cons frame frames = omega (arith, toplevel-cons frame frames)

-- Below the recursion limit, a call whose arguments fit into its slots enters the function and lays
-- out its slots, and the depth stays within the limit.
pub enter_function-Enters :
    (vm : Vm) (func base ret_base : ℕ) (function : Function)
    → call_depth vm.task.frames < vm.max_depth
    → get_elem? vm.functions func ≡ some function
    → length vm.task.stack ≤ base + function.locals
    → (vm' : Vm) × (enter_function vm func base ret_base ≡ some (vm', ok tt))
      × Enters vm func base ret_base function vm'
unfolding enter_function push_frame
enter_function-Enters vm func base ret_base function deep here fits = (
  record vm {
    task = record vm.task {
      stack = resize (base + function.locals) Value.unit vm.task.stack;
      frames = record { func = func; ip = 0; base = base; ret_base = ret_base } ∷ vm.task.frames;
    };
  },
  rw (shallow, here, roomy) refl,
  record {
    framed = refl;
    floor =
        ap length whole
        ∙ (length-append vm.task.stack _ ∙ omega (arith, length-replicate spare Value.unit));
    below =
        ap (take (length vm.task.stack)) whole
        ∙ (take-append_left (length vm.task.stack) vm.task.stack _ (omega arith)
            ∙ take_all (length vm.task.stack) vm.task.stack (omega arith));
    filled = λ i low high.
        ap (λ xs. get_elem? xs i) whole
        ∙ (get_elem?-append_right vm.task.stack _ i low
            ∙ get_elem?-replicate spare (i - length vm.task.stack) Value.unit (omega arith));
    bounded = omega (
      arith,
      call_depth-cons (record { func = func; ip = 0; base = base; ret_base = ret_base })
          vm.task.frames,
    );
  },
)
  where
    spare : ℕ
    spare = base + function.locals - length vm.task.stack

    whole :
        resize (base + function.locals) Value.unit vm.task.stack
        ≡ vm.task.stack ++ replicate spare Value.unit
    whole = resized (base + function.locals) vm.task.stack fits

    shallow : leb vm.max_depth (call_depth vm.task.frames) ≡ false
    shallow = ground arith

    roomy : leb (length vm.task.stack) (base + function.locals + function.max_stack) ≡ true
    roomy = ground arith

-- A return undoes the call: where the callee left the values below `ret_base` as they were, the
-- caller's frames are the active ones again and its stack has the result in place of the operands.
pub ret-enter_function :
    (vm vm' vm'' : Vm) (func base ret_base : ℕ) (function : Function)
    → Enters vm func base ret_base function vm'
    → ret_base ≤ length vm.task.stack
    → (ip : ℕ) (work : List Value) (result : Value)
    → vm''.task.frames
      ≡ record { func = func; ip = ip; base = base; ret_base = ret_base } ∷ vm.task.frames
    → vm''.task.stack ≡ (take ret_base vm'.task.stack ++ work) ++ result ∷ []
    → (w : Vm) × (ret vm'' ≡ some w)
      × (w.task.frames ≡ vm.task.frames)
      × (w.task.stack ≡ take ret_base vm.task.stack ++ result ∷ [])
unfolding ret pop push
ret-enter_function vm vm' vm'' func base ret_base function entered low ip work result framed e = (
  with_stack (with_frames vm'' vm.task.frames) (take ret_base (kept ++ work) ++ result ∷ []),
  rw (e, unsnoc-push (kept ++ work) result, framed) refl,
  refl,
  ap (λ xs. xs ++ result ∷ []) below,
)
  where
    kept : List Value
    kept = take ret_base vm'.task.stack

    kept_vm : kept ≡ take ret_base vm.task.stack
    kept_vm =
        sym (take-take ret_base (length vm.task.stack) vm'.task.stack low)
        ∙ ap (take ret_base) entered.below

    below : take ret_base (kept ++ work) ≡ take ret_base vm.task.stack
    below =
        ap (λ xs. take ret_base (xs ++ work)) kept_vm
        ∙ (take-append_left ret_base (take ret_base vm.task.stack) work
              (omega (arith, length-take ret_base vm.task.stack low))
            ∙ take-take ret_base ret_base vm.task.stack (omega arith))
