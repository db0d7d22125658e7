-- ===== src/Interrupts/Idt/Gates.antt =====
-- The descriptors and the callbacks after `idt_init`.
use cos.Prelude.{
  ℕ, zero, suc, ◌+◌, ◌*◌, ◌^◌, ◌≤◌, ◌<◌, ◌≡◌, refl, ap, ◌∙◌, arith, ◌&&◌, Bool, true, false, ltb,
  leb, ◌==◌, if◌then◌else◌, Bool-cases, inl, inr, done,
}
use cos.Interrupts.Idt.{
  max_interrupts, IdtDesc, Idt, cleared, with_gate, idt_is_reserved, idt_function_is_valid,
  idt_register_interrupt_callback, gate_of, idt_set, set_all, register_all, pit_init, idt_init,
}

idt_set-gate :
    (s : Idt) (i a : ℕ) → i < max_interrupts → idt_set s i a ≡ done (with_gate s i (gate_of a))
unfolding idt_set
idt_set-gate s i a lt = let e : ltb i max_interrupts ≡ true = ground arith in rw e refl

-- A range from `suc i` on, after a write at `i`, is the range from `i` on.
one_further {ℓ} :
    {A : Type ℓ} (v : ℕ → A) (old : A) (n i j : ℕ)
    → (if leb (suc i) j && ltb j (suc i + n) then v j else if i == j then v i else old)
      ≡ (if leb i j && ltb j (i + suc n) then v j else old)
one_further v old n i j = elim (Bool-cases (i == j)) [
  | inl t ↦
      let e : i ≡ j = ground arith in
      let a : (leb (suc i) j && ltb j (suc i + n)) ≡ false = ground arith in
      let b : (leb i j && ltb j (i + suc n)) ≡ true = ground arith in rw (a, b, t) (ap v e)
  | inr f ↦
      let e : (leb (suc i) j && ltb j (suc i + n)) ≡ (leb i j && ltb j (i + suc n)) =
        ground arith in
      rw (e, f) refl
]

set_all-gates :
    (table : ℕ → ℕ) (n i : ℕ) (s : Idt) (j : ℕ)
    → i + n ≤ max_interrupts
    → (s' : Idt) × (set_all table n i s ≡ done s')
      × (s'.idt_desc j ≡ (if leb i j && ltb j (i + n) then gate_of (table j) else s.idt_desc j))
      × (s'.interrupt_callbacks j ≡ s.interrupt_callbacks j)
unfolding set_all
set_all-gates table zero i s j le =
    let f : (leb i j && ltb j (i + 0)) ≡ false = ground arith in (s, refl, rw f refl, refl)
set_all-gates table (suc n) i s j le =
    let (s', e, g, c) =
      set_all-gates table n (suc i) (with_gate s i (gate_of (table i))) j (omega arith) in
    (
      s',
      rw (idt_set-gate s i (table i) (omega arith)) e,
      g ∙ one_further (λ x. gate_of (table x)) (s.idt_desc j) n i j,
      c,
    )

register-callback :
    (s : Idt) (i callback : ℕ)
    → i < 0x80
    → (idt_register_interrupt_callback s i callback).1
      ≡ record s { interrupt_callbacks = λ j. if i == j then callback else s.interrupt_callbacks j }
unfolding idt_register_interrupt_callback idt_function_is_valid idt_is_reserved
register-callback s i callback lt =
    let a : leb max_interrupts i ≡ false = ground arith in
    let b : (0x80 == i) ≡ false = ground arith in rw (a, b) refl

register_all-callbacks :
    (callback n i : ℕ) (s : Idt) (j : ℕ)
    → i + n ≤ 0x80
    → ((register_all callback n i s).idt_desc j ≡ s.idt_desc j)
      × ((register_all callback n i s).interrupt_callbacks j
          ≡ (if leb i j && ltb j (i + n) then callback else s.interrupt_callbacks j))
unfolding register_all
register_all-callbacks callback zero i s j le =
    let f : (leb i j && ltb j (i + 0)) ≡ false = ground arith in (refl, rw f refl)
register_all-callbacks callback (suc n) i s j le =
    let same =
      ap (register_all callback n (suc i)) (register-callback s i callback (omega arith)) in
    let (desc, calls) = register_all-callbacks callback n (suc i) _ j (omega arith) in
    (
      ap (λ (t : Idt). t.idt_desc j) same ∙ desc,
      ap (λ (t : Idt). t.interrupt_callbacks j) same
          ∙ calls
          ∙ one_further (λ x. callback) (s.interrupt_callbacks j) n i j,
    )

-- The address that a descriptor leads to.
abbrev pub gate_address : IdtDesc → ℕ
gate_address d = d.offset_1 + d.offset_2 * 2 ^ 16

gate_address-of : (a : ℕ) → gate_address (gate_of a) ≡ a
gate_address-of a = omega arith

chosen :
    (b c : Bool) (page_fault wrapper entry : ℕ) (d e : IdtDesc)
    → d ≡ (if c then gate_of wrapper else e)
    → e ≡ gate_of entry
    → gate_address (if b then gate_of page_fault else d)
      ≡ (if b then page_fault else if c then wrapper else entry)
chosen true c page_fault wrapper entry d e h t = gate_address-of page_fault
chosen false true page_fault wrapper entry d e h t = ap gate_address h ∙ gate_address-of wrapper
chosen false false page_fault wrapper entry d e h t =
    ap gate_address (h ∙ t) ∙ gate_address-of entry

timer_callback :
    (t f : Bool) (timer fault old new : ℕ)
    → (t ≡ true → f ≡ false)
    → new ≡ (if f then fault else old)
    → (if t then timer else new) ≡ (if f then fault else if t then timer else old)
timer_callback true f timer fault old new later e = let g = later refl in rw g refl
timer_callback false f timer fault old new later e = e

-- After `idt_init` every interrupt leads to its entry of the table of pointers, but 0x80 to the wrapper of
-- system commands and 0x0e to that of page faults; and the first 32 interrupts have the callback for
-- protection faults, interrupt 0x20 that of the timer, and the others the callback that they had.
pub idt_init-gates :
    (table : ℕ → ℕ) (wrapper protection_fault page_fault timer : ℕ) (s : Idt) (j : ℕ)
    → j < max_interrupts
    → (s' : Idt) × (idt_init table wrapper protection_fault page_fault timer s ≡ done s')
      × (gate_address (s'.idt_desc j)
          ≡ (if 0x0e == j then page_fault else if 0x80 == j then wrapper else table j))
      × (s'.interrupt_callbacks j ≡ (
          if ltb j 0x20
          then protection_fault
          else if 0x20 == j
          then timer
          else s.interrupt_callbacks j))
unfolding idt_init pit_init
idt_init-gates table wrapper protection_fault page_fault timer s j lt =
    let s0 : Idt = record s { idt_desc = λ j. cleared } in
    let (s1, e1, g1, c1) = set_all-gates table max_interrupts 0 s0 j (omega arith) in
    let s2 = with_gate s1 0x80 (gate_of wrapper) in
    let (g2, c2) = register_all-callbacks protection_fault 0x20 0 s2 j (omega arith) in
    let s3 = register_all protection_fault 0x20 0 s2 in
    let s4 = with_gate s3 0x0e (gate_of page_fault) in
    let timed : Idt = record s4 {
      interrupt_callbacks = λ j. if 0x20 == j then timer else s4.interrupt_callbacks j;
    } in
    let later : (0x20 == j) ≡ true → ltb j 0x20 ≡ false = λ t. ground arith in
    let all : (leb 0 j && ltb j (0 + max_interrupts)) ≡ true = ground arith in
    let first : (leb 0 j && ltb j (0 + 0x20)) ≡ ltb j 0x20 = ground arith in
    let table_gate : s1.idt_desc j ≡ gate_of (table j) = g1 ∙ rw all refl in
    (
      timed,
      rw
          (
            e1,
            idt_set-gate s1 0x80 wrapper (omega arith),
            idt_set-gate s3 0x0e page_fault (omega arith),
            register-callback s4 0x20 timer (omega arith),
          )
          refl,
      chosen (0x0e == j) (0x80 == j) page_fault wrapper (table j) _ _ g2 table_gate,
      timer_callback (0x20 == j) (ltb j 0x20) timer protection_fault _ _ later
          (c2 ∙ rw (first, c1) refl),
    )
