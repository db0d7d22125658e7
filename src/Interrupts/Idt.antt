-- ===== src/Interrupts/Idt.antt =====
-- idt/idt.c: the interrupt descriptors and the callbacks, and `pit_init` of timer/pit.c.
-- `interrupt_pointer_table` and the addresses of the wrappers and of the handlers are arguments.
pub mod Gates
use cos.Prelude.{
  ℕ, zero, suc, ◌/◌, ◌%◌, ◌^◌, Bool, ltb, leb, ◌==◌, if◌then◌else◌, Result, ok, err, Run, done,
  ◌>>=◌, ◌>>◌, assert, einvarg,
}

-- COS32_MAX_INTERRUPTS and COS32_CODE_SELECTOR.
abbrev pub max_interrupts : ℕ
max_interrupts = 512

abbrev pub code_selector : ℕ
code_selector = 0x08

pub record IdtDesc : Type 0 where
  pub offset_1 : ℕ
  pub selector : ℕ
  pub zero_byte : ℕ
  pub type_attr : ℕ
  pub offset_2 : ℕ

pub record Idt : Type 0 where
  pub idt_desc : ℕ → IdtDesc
  pub interrupt_callbacks : ℕ → ℕ

abbrev pub cleared : IdtDesc
cleared = record { offset_1 = 0; selector = 0; zero_byte = 0; type_attr = 0; offset_2 = 0 }

abbrev pub with_gate : Idt → ℕ → IdtDesc → Idt
with_gate s i d = record s { idt_desc = λ j. if i == j then d else s.idt_desc j }

-- The one reserved interrupt is 0x80.
unfoldable pub idt_is_reserved : ℕ → Bool
idt_is_reserved interrupt = 0x80 == interrupt

-- A negative interrupt is left out: it fails too.
unfoldable pub idt_function_is_valid : ℕ → Result (Unit {0})
idt_function_is_valid interrupt =
    if leb max_interrupts interrupt
    then err einvarg
    else if idt_is_reserved interrupt
    then err einvarg
    else ok tt

abbrev pub if_valid : Idt → (interrupt callback : ℕ) → Result (Unit {0}) → Result (Unit {0}) × Idt
if_valid s interrupt callback (err e) = (err e, s)
if_valid s interrupt callback (ok u) = (
  ok u,
  record s {
    interrupt_callbacks = λ j. if interrupt == j then callback else s.interrupt_callbacks j;
  },
)

unfoldable pub idt_register_interrupt_callback :
    Idt → (interrupt interrupt_callback : ℕ) → Result (Unit {0}) × Idt
idt_register_interrupt_callback s interrupt interrupt_callback =
    if_valid s interrupt interrupt_callback (idt_function_is_valid interrupt)

abbrev pub gate_of : ℕ → IdtDesc
gate_of address = record {
  offset_1 = address % 2 ^ 16;
  selector = code_selector;
  zero_byte = 0;
  type_attr = 0xEE;
  offset_2 = address / 2 ^ 16;
}

unfoldable pub idt_set : Idt → (i address : ℕ) → Run Idt
idt_set s i address = assert (ltb i max_interrupts) >> done (with_gate s i (gate_of address))

-- The loops, so many rounds from `i` on.
unfoldable pub set_all : (ℕ → ℕ) → (rounds i : ℕ) → Idt → Run Idt
set_all table zero i s = done s
set_all table (suc n) i s = idt_set s i (table i) >>= λ s'. set_all table n (suc i) s'

unfoldable pub register_all : (callback : ℕ) → (rounds i : ℕ) → Idt → Idt
register_all callback zero i s = s
register_all callback (suc n) i s =
    register_all callback n (suc i) ((idt_register_interrupt_callback s i callback).1)

-- ISR_TIMER_INTERRUPT.
abbrev pub isr_timer_interrupt : ℕ
isr_timer_interrupt = 0x20

unfoldable pub pit_init : (pit_interrupt : ℕ) → Idt → Idt
pit_init pit_interrupt s = (idt_register_interrupt_callback s isr_timer_interrupt pit_interrupt).1

-- `idt_init`, given the table of pointers and the addresses of the wrappers and the handlers.
unfoldable pub idt_init :
    (ℕ → ℕ)
    → (isr80h_wrapper idt_general_protection_fault idt_page_fault pit_interrupt : ℕ) → Idt
    → Run Idt
idt_init table isr80h_wrapper idt_general_protection_fault idt_page_fault pit_interrupt s = do
  s1 ← set_all table max_interrupts 0 (record s { idt_desc = λ j. cleared })
  s2 ← idt_set s1 0x80 isr80h_wrapper
  s3 ← idt_set (register_all idt_general_protection_fault 0x20 0 s2) 0x0e idt_page_fault
  done (pit_init pit_interrupt s3)
