-- ===== src/Elf/Tests.antt =====
-- An executable at 1000 with two segments, and a relocation at 500.
use cos.Prelude.{ℕ, ◌≡◌, refl, arith, List, [], ◌∷◌, ◌==◌, if◌then◌else◌, ok, done}
use cos.Memory.KernelHeap.{Bytes}
use cos.Memory.Words.{read32, write32}
use cos.Elf.{
  ElfFile, Processed, elf_is_shared_library, elf_program_header, elf_pheader, elf_process_pheaders,
}
use cos.Elf.Segments.{AreWithin, IsStartOf, elf_process_pheaders-IsStartOf}
use cos.Elf.Relocation.{elf_resolve_relocation, relative-base}

-- The bytes that are not zero, by address.
abbrev look_up : List (ℕ × ℕ) → Bytes
look_up [] p = 0
look_up ((q, b) ∷ rest) p = if q == p then b else look_up rest p

abbrev memory : Bytes
memory = look_up (
    (1016, 2)
    ∷ (1028, 52)
    ∷ (1044, 2)
    ∷ (1052, 1)
    ∷ (1057, 1)
    ∷ (1062, 0x40)
    ∷ (1068, 0x10)
    ∷ (1084, 1)
    ∷ (1089, 2)
    ∷ (1093, 0x10)
    ∷ (1094, 0x40)
    ∷ (1100, 0x20)
    ∷ [])

abbrev file : ElfFile
file = record {
  elf_memory = 1000;
  virtual_base_address = 0;
  virtual_end_address = 0;
  physical_base_address = 0;
  physical_end_address = 0;
}

abbrev no_library : Bytes → ElfFile → ℕ → Processed
no_library m f p = done (ok tt, m, f)

elf_process_pheaders-IsStartOf_example :
    (f' : ElfFile) × (elf_process_pheaders no_library memory file ≡ done (ok tt, memory, f'))
    × AreWithin memory f' (1052 ∷ 1084 ∷ [])
    × IsStartOf memory f' 1052 (1084 ∷ [])
unfolding elf_is_shared_library elf_program_header elf_pheader read32
elf_process_pheaders-IsStartOf_example =
    elf_process_pheaders-IsStartOf memory no_library file 1052 (1084 ∷ []) refl refl
      ((λ e. absurd (omega (arith, e))), ((λ e. absurd (omega (arith, e))), tt)) refl
      (
        ((λ e. absurd (omega (arith, e))), omega arith),
        (((λ e. absurd (omega (arith, e))), omega arith), tt),
      )

abbrev relocation : Bytes
relocation = look_up ((500, 8) ∷ (504, 8) ∷ [])

-- The word at offset 8 of a library.
relative-base_test :
    elf_resolve_relocation
      (λ m f i. 0)
      relocation
      (record file { virtual_base_address = 0x2000; physical_base_address = 0x3000 })
      500
    ≡ (ok tt, write32 relocation 0x3008 0x2008)
unfolding read32
relative-base_test =
    relative-base (λ m f i. 0) relocation
      (record file { virtual_base_address = 0x2000; physical_base_address = 0x3000 }) 500 refl
      (omega arith) (λ e. absurd (omega (arith, e)))
