-- ===== src/Vm/Ints.antt =====
-- What the int instructions do to a stack that ends in two ints.
use brasa.Prelude.{
  ◌<◌, ◌≡◌, ◌≢◌, refl, sym, ap, ◌∙◌, Option, some, false, arith, Option-cases, inl, inr, ◌⊎◌,
}
use brasa.Prelude.Int.{ℤ, negsuc, pos_part, neg_part, ◌+ℤ◌, ◌-ℤ◌, ◌*ℤ◌, int_laws}
use brasa.Value.{Value, Text}
use brasa.Int64.{
  IsI64, checked, checked-some, magnitude-le, checked-IsI64, checked_add, checked_add-some,
  checked_sub, checked_div, checked_rem, checked_div-none, tdiv, tmod, tdiv-tmod, magnitude,
  is_zero, min_i64,
}
use brasa.Vm.{Vm, ok}
use brasa.Vm.Stack.{push, pop, pop_int}
use brasa.Vm.Calls.{unsnoc-push}
use brasa.Vm.Arith.{int_arith, div_int, rem_int, push_checked}

abbrev pub push_ints : Vm → ℤ → ℤ → Vm
push_ints vm a b = push (push vm (Value.int a)) (Value.int b)

pop_int-push : (vm : Vm) (a : ℤ) → pop_int (push vm (Value.int a)) ≡ some (vm, ok a)
unfolding pop_int pop push
pop_int-push vm a = rw (unsnoc-push vm.task.stack (Value.int a)) refl

pub int_arith-push :
    (vm : Vm) (a b : ℤ) (symbol : Text) (f : ℤ → ℤ → Option ℤ)
    → int_arith (push_ints vm a b) symbol f ≡ push_checked vm symbol (f a b)
unfolding int_arith
int_arith-push vm a b symbol f =
    rw (pop_int-push (push vm (Value.int a)) b) (rw (pop_int-push vm a) refl)

back : (a b c : ℤ) → IsI64 a → a +ℤ b ≡ c → checked_sub c b ≡ some a
unfolding checked_sub
back a b c v e =
    let same : c -ℤ b ≡ a = omega (int_laws, ap pos_part e, ap neg_part e) in
    ap checked same ∙ checked-IsI64 a v

-- Where an addition does not overflow, subtracting the second int from its result gives the first
-- one back.
pub int_arith-inverse :
    (vm : Vm) (a b c : ℤ) (plus minus : Text)
    → IsI64 a
    → checked_add a b ≡ some c
    → (int_arith (push_ints vm a b) plus checked_add ≡ some (push vm (Value.int c), ok tt))
      × (int_arith (push_ints vm c b) minus checked_sub ≡ some (push vm (Value.int a), ok tt))
int_arith-inverse vm a b c plus minus v e =
    let sum = (checked_add-some a b c e).0 in
    (
      int_arith-push vm a b plus checked_add ∙ ap (push_checked vm plus) e,
      int_arith-push vm c b minus checked_sub ∙ ap (push_checked vm minus) (back a b c v sum),
    )

nonzero : (b : ℤ) → is_zero b ≡ false → 0 < magnitude b
nonzero b z = ground arith

quotient :
    (a b : ℤ)
    → IsI64 a
    → IsI64 b
    → is_zero b ≡ false
    → (a ≢ min_i64) ⊎ (b ≢ negsuc 0)
    → checked (tdiv a b) ≡ some (tdiv a b)
unfolding checked_div
quotient a b u v z n = elim (Option-cases (checked (tdiv a b))) [
  | inr (c, e) ↦ e ∙ ap some (sym (checked-some (tdiv a b) c e).0)
  | inl e ↦
      let (smallest, one) = checked_div-none a b u v (nonzero b z) (rw z e) in
      absurd (elim n [ inl m ↦ m smallest | inr m ↦ m one ])
]

-- Division and remainder of ints agree: unless the divisor is zero, or it is -1 under the smallest
-- int, `/` and `%` push a quotient and a remainder smaller than the divisor that make up the dividend.
pub div_int-rem_int :
    (vm : Vm) (a b : ℤ)
    → IsI64 a
    → IsI64 b
    → is_zero b ≡ false
    → (a ≢ min_i64) ⊎ (b ≢ negsuc 0)
    → (q r : ℤ) × (div_int (push_ints vm a b) ≡ some (push vm (Value.int q), ok tt))
      × (rem_int (push_ints vm a b) ≡ some (push vm (Value.int r), ok tt))
      × (a ≡ q *ℤ b +ℤ r)
      × (magnitude r < magnitude b)
unfolding div_int rem_int checked_div checked_rem
div_int-rem_int vm a b u v z n =
    let q = quotient a b u v z n in
    let law = tdiv-tmod a b (nonzero b z) in
    let small = law.1 in
    let bound = magnitude-le b v in
    let r = checked-IsI64 (tmod a b) (omega arith, omega arith) in
    (
      tdiv a b,
      tmod a b,
      rw (pop_int-push (push vm (Value.int a)) b) (rw (pop_int-push vm a) (rw z (rw q refl))),
      rw (pop_int-push (push vm (Value.int a)) b)
          (rw (pop_int-push vm a) (rw z (rw q (rw r refl)))),
      law.0,
      law.1,
    )
