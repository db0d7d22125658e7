-- ===== src/Memory/Paging.antt =====
-- memory/paging/paging.c: two-level page tables in the byte memory. A directory is an address of
-- 1024 words, each the address of a table of 1024 words in its upper 20 bits.
pub mod Tables
pub mod Map
pub mod Faults
mod Tests
use cos.Prelude.{
  ℕ, zero, suc, ◌+◌, ◌-◌, ◌*◌, ◌/◌, ◌%◌, ◌^◌, bit_or, not, ltb, ◌==◌, if◌then◌else◌, ◌&&◌, ◌||◌,
  Result, ok, err, Run, done, panic, ◌>>=◌, ◌>>◌, assert, einvarg,
}
use cos.Memory.Page.{page_size, word, paging_align_to_lower_page}
use cos.Memory.KernelHeap.{Bytes}
use cos.Memory.Words.{read32, write32}

abbrev pub page_present : ℕ
page_present = 0b00000001

abbrev pub page_writeable : ℕ
page_writeable = 0b00000010

abbrev pub access_from_all : ℕ
access_from_all = 0b00000100

abbrev pub cache_disabled : ℕ
cache_disabled = 0b00010000

abbrev pub entries_per_directory : ℕ
entries_per_directory = 1024

-- `entry & 0xfffff000` and `entry & 0xfff`.
abbrev pub frame_of : ℕ → ℕ
frame_of entry = entry / 4096 * 4096

abbrev pub flags_of : ℕ → ℕ
flags_of entry = entry % 4096

-- The two indices that go out through pointers.
unfoldable pub paging_get_indexes : ℕ → Result (ℕ × ℕ)
paging_get_indexes virt =
    if not (virt % page_size == 0)
    then err einvarg
    else ok (
      virt / (entries_per_directory * page_size),
      virt % (entries_per_directory * page_size) / page_size,
    )

-- The address of the table entry for `virt`, given the indices.
abbrev pub entry_address : Bytes → (directory di ti : ℕ) → ℕ
entry_address m directory di ti = frame_of (read32 m (directory + 4 * di)) + 4 * ti

unfoldable pub paging_get : Bytes → (directory virt : ℕ) → Run ℕ
paging_get m directory virt = do
  assert (virt % page_size == 0)
  elim (paging_get_indexes virt) [
    | err _ ↦ panic
    | ok (di, ti) ↦ done (read32 m (entry_address m directory di ti))
  ]

unfoldable pub paging_set : Bytes → (directory virt val : ℕ) → Result (Unit {0}) × Bytes
paging_set m directory virt val =
    if not (virt % page_size == 0) then (err einvarg, m) else elim (paging_get_indexes virt) [
      | err e ↦ (err e, m)
      | ok (di, ti) ↦ (ok tt, write32 m (entry_address m directory di ti) val)
    ]

-- Two pointers are added as words.
unfoldable pub paging_get_physical_address : Bytes → (directory virt : ℕ) → Run ℕ
paging_get_physical_address m directory virt = do
  let virt_addr_new = paging_align_to_lower_page virt
  entry ← paging_get m directory virt_addr_new
  done ((frame_of entry + (virt - virt_addr_new)) % word)

unfoldable pub paging_map : Bytes → (directory virt phys flags : ℕ) → Result (Unit {0}) × Bytes
paging_map m directory virt phys flags =
    if not (virt % page_size == 0) || not (phys % page_size == 0)
    then (err einvarg, m)
    else paging_set m directory virt (bit_or phys flags)

unfoldable pub paging_get_flags : Bytes → (directory virt : ℕ) → Run ℕ
paging_get_flags m directory virt = do entry ← paging_get m directory virt; done (flags_of entry)

-- `count` rounds; the first error ends the loop. A count of zero or less gives status 0.
unfoldable pub paging_map_range :
    (count : ℕ) → Bytes → (directory virt phys flags : ℕ) → Result (Unit {0}) × Bytes
paging_map_range zero m directory virt phys flags = (ok tt, m)
paging_map_range (suc n) m directory virt phys flags =
    let (res, m') = paging_map m directory virt phys flags in
    elim res [
      | err e ↦ (err e, m')
      | ok _ ↦
          paging_map_range n m' directory ((virt + page_size) % word) ((phys + page_size) % word)
            flags
    ]

unfoldable pub paging_map_to :
    Bytes → (directory virt phys phys_end flags : ℕ) → Run (Result (Unit {0}) × Bytes)
paging_map_to m directory virt phys phys_end flags = do
  assert (virt % page_size == 0)
  assert (phys % page_size == 0)
  assert (phys_end % page_size == 0)
  assert (ltb phys phys_end)
  done (paging_map_range ((phys_end - phys) / page_size) m directory virt phys flags)
