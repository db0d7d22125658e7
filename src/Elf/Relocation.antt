-- ===== src/Elf/Relocation.antt =====
-- Relocation: what a relocation of a library writes. The address of a symbol by its name is the function
-- given.
use cos.Prelude.{
  ℕ, zero, suc, ◌+◌, ◌-◌, ◌/◌, ◌%◌, ◌||◌, ◌<◌, ◌≡◌, ◌≢◌, refl, ap, ◌∙◌, arith, Bool, false, ◌==◌,
  if◌then◌else◌, Result, ok, err, eio, eunimp,
}
use cos.Memory.Page.{word}
use cos.Memory.KernelHeap.{Bytes}
use cos.Memory.Words.{read32, write32}
use cos.Elf.{ElfFile, elf_virtual_to_phys}

-- `struct elf32_rel`.
abbrev pub r_offset : Bytes → ℕ → ℕ
r_offset m relocation = read32 m relocation

abbrev pub r_info : Bytes → ℕ → ℕ
r_info m relocation = read32 m (relocation + 4)

-- ELF32_R_SYM and ELF32_R_TYPE.
abbrev pub elf32_r_sym : ℕ → ℕ
elf32_r_sym i = i / 256

abbrev pub elf32_r_type : ℕ → ℕ
elf32_r_type i = i % 256

abbrev pub r_386_jump_slot : ℕ
r_386_jump_slot = 7

abbrev pub r_386_relative : ℕ
r_386_relative = 8

unfoldable pub elf_symbol_poke_value_to_virtual_address :
    Bytes → ElfFile → (virtual_address val : ℕ) → Result (Unit {0}) × Bytes
elf_symbol_poke_value_to_virtual_address m elf_file virtual_address val =
    let phys_addr = elf_virtual_to_phys elf_file virtual_address in
    if phys_addr == 0 then (err eio, m) else (ok tt, write32 m phys_addr val)

unfoldable pub elf_relocation_type_supported : ℕ → Bool
elf_relocation_type_supported relocation_type =
    relocation_type == r_386_jump_slot || relocation_type == r_386_relative

unfoldable pub elf_get_relocation_address : Bytes → ElfFile → (relocation : ℕ) → ℕ
elf_get_relocation_address m elf_file relocation =
    let relocation_type = elf32_r_type (r_info m relocation) in
    if relocation_type == r_386_jump_slot
    then r_offset m relocation
    else if relocation_type == r_386_relative
    then (elf_file.virtual_base_address + r_offset m relocation) % word
    else 0

unfoldable pub elf_resolve_relocation_386_relative :
    Bytes → ElfFile → (relocation : ℕ) → Result (Unit {0}) × Bytes
elf_resolve_relocation_386_relative m elf_file relocation =
    let relocation_offset = elf_get_relocation_address m elf_file relocation in
    elf_symbol_poke_value_to_virtual_address m elf_file relocation_offset relocation_offset

module _ (symbol_address : Bytes → ElfFile → (symbol_index : ℕ) → ℕ) where
  unfoldable pub elf_resolve_relocation_386_jmp_slot :
      Bytes → ElfFile → (relocation : ℕ) → Result (Unit {0}) × Bytes
  elf_resolve_relocation_386_jmp_slot m elf_file relocation =
      elf_symbol_poke_value_to_virtual_address m elf_file
        (elf_get_relocation_address m elf_file relocation)
        (symbol_address m elf_file (elf32_r_sym (r_info m relocation)))

  unfoldable pub elf_resolve_relocation :
      Bytes → ElfFile → (relocation : ℕ) → Result (Unit {0}) × Bytes
  elf_resolve_relocation m elf_file relocation =
      let relocation_type = elf32_r_type (r_info m relocation) in
      if relocation_type == r_386_relative
      then elf_resolve_relocation_386_relative m elf_file relocation
      else if relocation_type == r_386_jump_slot
      then elf_resolve_relocation_386_jmp_slot m elf_file relocation
      else (err eunimp, m)

  -- What follows one relocation, with the rest of the loop given.
  abbrev pub next_relocation :
      (Bytes → Result (Unit {0}) × Bytes) → Result (Unit {0}) × Bytes → Result (Unit {0}) × Bytes
  next_relocation again (err e, m) = (err e, m)
  next_relocation again (ok u, m) = again m

  -- The loop over a table, from one relocation on.
  unfoldable pub relocation_loop :
      (rounds : ℕ) → Bytes → ElfFile → (relocation : ℕ) → Result (Unit {0}) × Bytes
  relocation_loop zero m elf_file relocation = (ok tt, m)
  relocation_loop (suc n) m elf_file relocation =
      next_relocation (λ m'. relocation_loop n m' elf_file (relocation + 8))
        (elf_resolve_relocation m elf_file relocation)

back_to_phys : (v o p : ℕ) → v < word → ((v + o) % word + word - v + p) % word ≡ (p + o) % word
back_to_phys v o p lt = omega arith

address-relative :
    (m : Bytes) (f : ElfFile) (relocation : ℕ)
    → elf32_r_type (r_info m relocation) ≡ r_386_relative
    → elf_get_relocation_address m f relocation
      ≡ (f.virtual_base_address + r_offset m relocation) % word
unfolding elf_get_relocation_address
address-relative m f relocation t = rw t refl

poke-written :
    (m : Bytes) (f : ElfFile) (a v q : ℕ)
    → elf_virtual_to_phys f a ≡ q
    → q ≢ 0
    → elf_symbol_poke_value_to_virtual_address m f a v ≡ (ok tt, write32 m q v)
unfolding elf_symbol_poke_value_to_virtual_address
poke-written m f a v q e nz = let z : (q == 0) ≡ false = ground arith in rw (e, z) refl

-- A relative relocation writes, where the file lies in memory, the address in the library that it is
-- itself for: the base and the offset, and not the sum of the base and what stood there.
pub relative-base :
    (load : Bytes → ElfFile → ℕ → ℕ) (m : Bytes) (f : ElfFile) (relocation : ℕ)
    → elf32_r_type (r_info m relocation) ≡ r_386_relative
    → f.virtual_base_address < word
    → (f.physical_base_address + r_offset m relocation) % word ≢ 0
    → elf_resolve_relocation load m f relocation ≡ (
      ok tt,
      write32 m
          ((f.physical_base_address + r_offset m relocation) % word)
          ((f.virtual_base_address + r_offset m relocation) % word),
    )
unfolding elf_resolve_relocation elf_resolve_relocation_386_relative elf_virtual_to_phys
relative-base load m f relocation t small nz =
    let a = (f.virtual_base_address + r_offset m relocation) % word in
    let at : elf_virtual_to_phys f a ≡ (f.physical_base_address + r_offset m relocation) % word =
      back_to_phys f.virtual_base_address (r_offset m relocation) f.physical_base_address small in
    rw t (
      ap (λ x. elf_symbol_poke_value_to_virtual_address m f x x) (address-relative m f relocation t)
      ∙ poke-written m f a a _ at nz)
