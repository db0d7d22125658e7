-- ===== src/Elf.antt =====
-- loader/formats/elf: the checks of an ELF file in memory, the range of its segments, and relocation. The
-- file lies in the byte memory from `elf_memory` on, and a struct of it is its address. Names of sections
-- and symbols, and the libraries that a file needs, are what the functions take as arguments.
pub mod Extent
pub mod Segments
pub mod Relocation
mod Tests
use cos.Prelude.{
  ℕ, zero, suc, ◌+◌, ◌-◌, ◌*◌, ◌%◌, ◌&&◌, ◌||◌, Bool, false, not, List, [], ◌∷◌, leb, ◌==◌,
  if◌then◌else◌, Result, ok, err, Run, done, ◌>>=◌, pos, negsuc, einformat,
}
use cos.Strings.{memcmp}
use cos.Memory.Page.{word}
use cos.Memory.KernelHeap.{Bytes}
use cos.Memory.Words.{read32, write32}

-- The addresses of `struct elf_file`.
pub record ElfFile : Type 0 where
  pub elf_memory : ℕ
  pub virtual_base_address : ℕ
  pub virtual_end_address : ℕ
  pub physical_base_address : ℕ
  pub physical_end_address : ℕ

abbrev pub read16 : Bytes → ℕ → ℕ
read16 m p = m p + m (p + 1) * 256

-- `struct elf_header`.
abbrev pub e_type : Bytes → ℕ → ℕ
e_type m header = read16 m (header + 16)

abbrev pub e_entry : Bytes → ℕ → ℕ
e_entry m header = read32 m (header + 24)

abbrev pub e_phoff : Bytes → ℕ → ℕ
e_phoff m header = read32 m (header + 28)

abbrev pub e_shoff : Bytes → ℕ → ℕ
e_shoff m header = read32 m (header + 32)

abbrev pub e_phnum : Bytes → ℕ → ℕ
e_phnum m header = read16 m (header + 44)

abbrev pub e_shnum : Bytes → ℕ → ℕ
e_shnum m header = read16 m (header + 48)

-- `struct elf32_phdr` and `struct elf32_shdr`.
abbrev pub p_type : Bytes → ℕ → ℕ
p_type m phdr = read32 m phdr

abbrev pub p_offset : Bytes → ℕ → ℕ
p_offset m phdr = read32 m (phdr + 4)

abbrev pub p_vaddr : Bytes → ℕ → ℕ
p_vaddr m phdr = read32 m (phdr + 8)

abbrev pub p_filesz : Bytes → ℕ → ℕ
p_filesz m phdr = read32 m (phdr + 16)

abbrev pub sh_type : Bytes → ℕ → ℕ
sh_type m shdr = read32 m (shdr + 4)

abbrev pub sh_offset : Bytes → ℕ → ℕ
sh_offset m shdr = read32 m (shdr + 16)

abbrev pub sh_size : Bytes → ℕ → ℕ
sh_size m shdr = read32 m (shdr + 20)

abbrev pub sh_entsize : Bytes → ℕ → ℕ
sh_entsize m shdr = read32 m (shdr + 36)

-- ET_EXEC, ET_DYN, PT_LOAD, PT_DYNAMIC and COS32_PROGRAM_VIRTUAL_ADDRESS.
abbrev pub et_exec : ℕ
et_exec = 2

abbrev pub et_dyn : ℕ
et_dyn = 3

abbrev pub pt_load : ℕ
pt_load = 1

abbrev pub pt_dynamic : ℕ
pt_dynamic = 2

abbrev pub program_virtual_address : ℕ
program_virtual_address = 0x400000

abbrev pub four_bytes : Bytes → ℕ → List ℕ
four_bytes m p = m p ∷ m (p + 1) ∷ m (p + 2) ∷ m (p + 3) ∷ []

abbrev pub elf_signature : List ℕ
elf_signature = 0x7f ∷ 69 ∷ 76 ∷ 70 ∷ []

unfoldable pub elf_valid_signature : Bytes → ℕ → Run Bool
elf_valid_signature m buffer = do
  order ← memcmp (four_bytes m buffer) elf_signature 4
  done (elim order [ pos n ↦ n == 0 | negsuc n ↦ false ])

-- ELFCLASSNONE or ELFCLASS32, and ELFDATANONE or ELFDATA2LSB.
unfoldable pub elf_valid_class : Bytes → ℕ → Bool
elf_valid_class m header = m (header + 4) == 0 || m (header + 4) == 1

unfoldable pub elf_valid_encoding : Bytes → ℕ → Bool
elf_valid_encoding m header = m (header + 5) == 0 || m (header + 5) == 1

unfoldable pub elf_is_executable : Bytes → ℕ → Bool
elf_is_executable m header =
    e_type m header == et_exec && leb program_virtual_address (e_entry m header)

unfoldable pub elf_is_shared_library : Bytes → ℕ → Bool
elf_is_shared_library m header = e_type m header == et_dyn

unfoldable pub elf_has_program_header : Bytes → ℕ → Bool
elf_has_program_header m header = not (e_phoff m header == 0)

unfoldable pub elf_validate_loaded : Bytes → ℕ → Run (Result (Unit {0}))
elf_validate_loaded m header = do
  valid ← elf_valid_signature m header
  done (
      if valid
        && elf_valid_class m header
        && elf_valid_encoding m header
        && elf_has_program_header m header
      then ok tt
      else err einformat)

unfoldable pub elf_header : ElfFile → ℕ
elf_header file = file.elf_memory

unfoldable pub elf_sheader : Bytes → ℕ → ℕ
elf_sheader m header = (header + e_shoff m header) % word

unfoldable pub elf_pheader : Bytes → ℕ → ℕ
elf_pheader m header = if e_phoff m header == 0 then 0 else (header + e_phoff m header) % word

unfoldable pub elf_program_header : Bytes → (header index : ℕ) → ℕ
elf_program_header m header index = elf_pheader m header + index * 32

unfoldable pub elf_section : Bytes → (header index : ℕ) → ℕ
elf_section m header index = elf_sheader m header + index * 40

unfoldable pub elf_phdr_data_address : Bytes → ElfFile → (phdr : ℕ) → ℕ
elf_phdr_data_address m file phdr = (file.elf_memory + p_offset m phdr) % word

unfoldable pub elf_virtual_to_phys : ElfFile → ℕ → ℕ
elf_virtual_to_phys file virt_addr =
    (virt_addr + word - file.virtual_base_address + file.physical_base_address) % word

-- A symbol of value 0 is unresolved.
unfoldable pub elf_symbol_get_virt_address : Bytes → ElfFile → (st_value : ℕ) → ℕ
elf_symbol_get_virt_address m elf_file st_value =
    if st_value == 0
    then 0
    else if elf_is_shared_library m (elf_header elf_file)
    then (elf_file.virtual_base_address + st_value) % word
    else if elf_is_executable m (elf_header elf_file)
    then st_value
    else 0

unfoldable pub elf_symbol_get_phys_address : Bytes → ElfFile → (st_value : ℕ) → ℕ
elf_symbol_get_phys_address m elf_file st_value =
    let ptr = elf_symbol_get_virt_address m elf_file st_value in
    if ptr == 0 then 0 else elf_virtual_to_phys elf_file ptr

-- The lowest address so far, and the highest.
abbrev pub lower_base : Bytes → ElfFile → (phdr : ℕ) → ElfFile
lower_base m f phdr =
    if leb (p_vaddr m phdr) f.virtual_base_address || f.virtual_base_address == 0
    then record f {
      virtual_base_address = p_vaddr m phdr;
      physical_base_address = (f.elf_memory + p_offset m phdr) % word;
    }
    else f

abbrev pub raise_end : Bytes → ElfFile → (phdr : ℕ) → ElfFile
raise_end m f phdr =
    let end_virtual_address = (p_vaddr m phdr + p_filesz m phdr) % word in
    if leb f.virtual_end_address end_virtual_address || f.virtual_end_address == 0
    then record f {
      virtual_end_address = end_virtual_address;
      physical_end_address = (f.elf_memory + p_offset m phdr + p_filesz m phdr) % word;
    }
    else f

-- The address of a segment of a library is made absolute in the header itself.
unfoldable pub elf_process_phdr_pt_load : Bytes → ElfFile → (phdr : ℕ) → Bytes × ElfFile
elf_process_phdr_pt_load m elf_file phdr =
    let absolute = (p_vaddr m phdr + elf_file.elf_memory) % word in
    let m' =
      if elf_is_shared_library m (elf_header elf_file) then write32 m (phdr + 8) absolute else m in
    (m', raise_end m' (lower_base m' elf_file phdr) phdr)

abbrev pub Processed : Type 0
Processed = Run (Result (Unit {0}) × Bytes × ElfFile)

-- The libraries that a file needs are loaded by the function given.
module _ (elf_process_phdr_pt_dynamic : Bytes → ElfFile → ℕ → Processed) where
  unfoldable pub elf_process_pheader : Bytes → ElfFile → (phdr : ℕ) → Processed
  elf_process_pheader m elf_file phdr =
      let (m', f') = elf_process_phdr_pt_load m elf_file phdr in
      if p_type m phdr == pt_load
      then done (ok tt, m', f')
      else if p_type m phdr == pt_dynamic
      then elf_process_phdr_pt_dynamic m elf_file phdr
      else done (ok tt, m, elf_file)

  -- What follows one program header, with the rest of the loop given.
  abbrev pub unless_error :
      (Bytes → ElfFile → Processed) → Result (Unit {0}) × Bytes × ElfFile → Processed
  unless_error again (err e, m, f) = done (err e, m, f)
  unless_error again (ok u, m, f) = again m f

  -- The loop, `rounds` of it from index `i` on. The code reads `e_phnum` again in each round, which makes
  -- a difference only where a program header lies over it.
  unfoldable pub pheaders_loop : (rounds i : ℕ) → Bytes → ElfFile → Processed
  pheaders_loop zero i m elf_file = done (ok tt, m, elf_file)
  pheaders_loop (suc n) i m elf_file =
      elf_process_pheader m elf_file (elf_program_header m (elf_header elf_file) i)
      >>= unless_error (pheaders_loop n (suc i))

  unfoldable pub elf_process_pheaders : Bytes → ElfFile → Processed
  elf_process_pheaders m elf_file = pheaders_loop (e_phnum m (elf_header elf_file)) 0 m elf_file
