-- ===== src/FuncCx/Slots.antt =====
-- The frame slots: each local keeps one, and no two share one until the frame is full.
use brasa.Prelude.{
  ℕ, ◌+◌, ◌-◌, ◌^◌, ◌≤◌, ◌<◌, ◌≡◌, ◌≢◌, refl, sym, ap, subst, ◌∙◌, Bool, true, false, Bool-cases,
  inl, inr, some, none, Option-cases, eq_of_some, ◌∷◌, ◌==◌, ==_iff, ltb, if-cases, arith,
  ℕ_discrete,
}
use brasa.FuncCx.{FuncCx, SlotMap, slot_for, alloc_slot, slot_of}

pub slot_for-same :
    (local slot : ℕ) (slots : SlotMap) → slot_for local ((local, slot) ∷ slots) ≡ some slot
unfolding slot_for
slot_for-same local slot slots = rw ((==_iff local local).1 refl) refl

pub slot_for-other :
    (local other slot : ℕ) (slots : SlotMap)
    → local ≢ other
    → slot_for other ((local, slot) ∷ slots) ≡ slot_for other slots
unfolding slot_for
slot_for-other local other slot slots n =
    if-cases (λ o. o ≡ slot_for other slots) (local == other)
      (λ e. absurd (n ((==_iff local other).0 e))) (λ e. refl)

-- While the frame is not full, the slots are below the next one, and no two locals share one.
pub record IsLaidOut (f : FuncCx) : Type 0 where
  pub below :
      f.slots_exhausted ≡ false
      → (local slot : ℕ) → slot_for local f.slots ≡ some slot
      → slot < f.next_slot
  pub distinct :
      f.slots_exhausted ≡ false
      → (local other slot : ℕ) → slot_for local f.slots ≡ some slot
      → slot_for other f.slots ≡ some slot
      → local ≡ other

-- One more local in a slot that is beyond the others.
add-IsLaidOut :
    (f : FuncCx) (local slot next : ℕ) (full : Bool)
    → IsLaidOut f
    → (full ≡ false → f.slots_exhausted ≡ false)
    → (full ≡ false → (f.next_slot ≤ slot) × (slot < next))
    → IsLaidOut
        (record f { slots = (local, slot) ∷ f.slots; next_slot = next; slots_exhausted = full })
add-IsLaidOut f local slot next full laid was fresh = record {
  below = λ e l s found. elim (ℕ_discrete local l) [
    | yes same ↦
        let there =
          sym (slot_for-same local slot f.slots)
          ∙ (ap (λ l. slot_for l ((local, slot) ∷ f.slots)) same ∙ found) in
        omega (arith, eq_of_some there, (fresh e).1)
    | no other ↦
        let before =
          laid.below (was e) l s (sym (slot_for-other local l slot f.slots other) ∙ found) in
        omega (arith, (fresh e).0, (fresh e).1)
  ];
  distinct = λ e l m s found found'. elim (ℕ_discrete local l) [
    | yes same ↦ elim (ℕ_discrete local m) [
      | yes same' ↦ sym same ∙ same'
      | no other ↦
          let there =
            sym (slot_for-same local slot f.slots)
            ∙ (ap (λ l. slot_for l ((local, slot) ∷ f.slots)) same ∙ found) in
          let before =
            laid.below (was e) m s (sym (slot_for-other local m slot f.slots other) ∙ found') in
          absurd (omega (arith, eq_of_some there, (fresh e).0))
    ]
    | no other ↦ elim (ℕ_discrete local m) [
      | yes same' ↦
          let there =
            sym (slot_for-same local slot f.slots)
            ∙ (ap (λ l. slot_for l ((local, slot) ∷ f.slots)) same' ∙ found') in
          let before =
            laid.below (was e) l s (sym (slot_for-other local l slot f.slots other) ∙ found) in
          absurd (omega (arith, eq_of_some there, (fresh e).0))
      | no other' ↦
          laid.distinct (was e) l m s (sym (slot_for-other local l slot f.slots other) ∙ found)
            (sym (slot_for-other local m slot f.slots other') ∙ found')
    ]
  ];
}

-- What asking for the slot of a local gives.
pub record Slotted (f : FuncCx) (local : ℕ) (f' : FuncCx) (slot : ℕ) : Type 0 where
  pub laid : IsLaidOut f'
  pub holds : slot_for local f'.slots ≡ some slot
  pub others : (other : ℕ) → local ≢ other → slot_for other f'.slots ≡ slot_for other f.slots
  pub again : slot_of local f' ≡ (f', slot)

slot_of-known :
    (f : FuncCx) (local slot : ℕ) → slot_for local f.slots ≡ some slot → slot_of local f ≡ (f, slot)
unfolding slot_of
slot_of-known f local slot e = rw e refl

slot_of-new :
    (f : FuncCx) (local : ℕ)
    → slot_for local f.slots ≡ none
    → slot_of local f ≡ (
      record (alloc_slot f).0 { slots = (local, f.next_slot) ∷ (alloc_slot f).0.slots },
      f.next_slot,
    )
unfolding slot_of alloc_slot
slot_of-new f local e = rw e refl

alloc-IsLaidOut :
    (f : FuncCx) (local : ℕ)
    → IsLaidOut f
    → IsLaidOut (record (alloc_slot f).0 { slots = (local, f.next_slot) ∷ (alloc_slot f).0.slots })
unfolding alloc_slot
alloc-IsLaidOut f local laid = elim (Bool-cases (ltb f.next_slot (2 ^ 16 - 1))) [
  | inl e ↦ rw e (
      add-IsLaidOut f local f.next_slot (f.next_slot + 1) f.slots_exhausted laid (λ w. w)
        (λ w. (omega arith, omega arith)))
  | inr e ↦ rw e (add-IsLaidOut f local f.next_slot f.next_slot true laid (λ w. cc) (λ w. cc))
]

alloc_slot-slots : (f : FuncCx) → (alloc_slot f).0.slots ≡ f.slots
unfolding alloc_slot
alloc_slot-slots f =
    if-cases {A = FuncCx} (λ g. g.slots ≡ f.slots) (ltb f.next_slot (2 ^ 16 - 1)) (λ e. refl)
      (λ e. refl)

new-Slotted :
    (f : FuncCx) (local : ℕ)
    → IsLaidOut f
    → Slotted f local
        (record (alloc_slot f).0 { slots = (local, f.next_slot) ∷ (alloc_slot f).0.slots })
        f.next_slot
new-Slotted f local laid =
    let there = slot_for-same local f.next_slot (alloc_slot f).0.slots in
    record {
      laid = alloc-IsLaidOut f local laid;
      holds = there;
      others = λ other n.
          slot_for-other local other f.next_slot (alloc_slot f).0.slots n
          ∙ ap (slot_for other) (alloc_slot-slots f);
      again =
          slot_of-known
            (record (alloc_slot f).0 { slots = (local, f.next_slot) ∷ (alloc_slot f).0.slots })
            local f.next_slot there;
    }

-- Where no two locals share a slot and all slots are below the next one, unless the frame is full, asking
-- for the slot of a local keeps this. The local then holds the slot that is returned, the other locals
-- hold what they held, and asking again returns the same slot and changes nothing.
pub slot_of-Slotted :
    (f : FuncCx) (local : ℕ) → IsLaidOut f → Slotted f local (slot_of local f).0 (slot_of local f).1
slot_of-Slotted f local laid = elim (Option-cases (slot_for local f.slots)) [
  | inl e ↦
      subst (λ r. Slotted f local r.0 r.1) (sym (slot_of-new f local e)) (new-Slotted f local laid)
  | inr (slot, e) ↦
      subst (λ r. Slotted f local r.0 r.1) (sym (slot_of-known f local slot e))
        (record {
          laid = laid;
          holds = e;
          others = λ other n. refl;
          again = slot_of-known f local slot e;
        })
]
