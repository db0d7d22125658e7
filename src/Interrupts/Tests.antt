-- ===== src/Interrupts/Tests.antt =====
-- A code segment of 4 GiB, the interrupt of system commands, and three commands.
use cos.Prelude.{◌+◌, ◌≡◌, refl, arith, inr, [], ◌∷◌, done, ◌>>=◌, pos}
use cos.Interrupts.Gdt.{encode_gdt_entry, decoded, encode_gdt_entry-decoded}
use cos.Interrupts.Idt.{Idt, cleared, idt_init}
use cos.Interrupts.Idt.Gates.{gate_address, idt_init-gates}
use cos.Interrupts.Commands.{
  Commands, isr80h_register_all, isr80h_handle_command, isr80h_register_all-handled,
}

encode_gdt_entry-decoded_example :
    (encode_gdt_entry (record { base = 0x1000; limit = 0xFFFFFFFF; segment_type = 0x9A })
      >>= λ bytes. done (decoded bytes))
    ≡ done (record { base = 0x1000; limit = 0xFFFFFFFF; segment_type = 0x9A })
encode_gdt_entry-decoded_example =
    encode_gdt_entry-decoded 0x1000 0xFFFFFFFF 0x9A (omega arith) (omega arith) (inr refl)

abbrev empty : Idt
empty = record { idt_desc = λ i. cleared; interrupt_callbacks = λ i. 0 }

idt_init-gates_example :
    (s' : Idt) × (idt_init (λ i. 5000 + i) 100 200 300 400 empty ≡ done s')
    × (gate_address (s'.idt_desc 0x20) ≡ 5032)
    × (s'.interrupt_callbacks 0x20 ≡ 400)
idt_init-gates_example = idt_init-gates (λ i. 5000 + i) 100 200 300 400 empty 0x20 (omega arith)

isr80h_register_all-handled_example :
    (s' : Commands) × (isr80h_register_all (λ j. 0) (100 ∷ 200 ∷ 300 ∷ []) ≡ done s')
    × (isr80h_handle_command s' (pos 2) ≡ 200)
isr80h_register_all-handled_example =
    isr80h_register_all-handled (100 ∷ 200 ∷ 300 ∷ []) (pos 2) (omega arith)
