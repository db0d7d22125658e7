-- ===== src/Memory/Paging/Tests.antt =====
-- A page directory in memory, and the theorems of the page tables at it.
use cos.Prelude.{ℕ, zero, suc, ◌+◌, ◌-◌, ◌*◌, ◌/◌, ◌%◌, ◌<◌, ◌≡◌, refl, ap, ◌∙◌, arith, ok, done}
use cos.Memory.KernelHeap.{Bytes}
use cos.Memory.Words.{read32}
use cos.Memory.Paging.{frame_of, paging_map_to}
use cos.Memory.Paging.Tables.{IsDirectory, table}
use cos.Memory.Paging.Map.{Translates, paging_map_to-Translates}

-- A memory whose words are the entries of a directory at 0x100000, with tables from 0x200000 on.
abbrev digit : (k w : ℕ) → ℕ
digit zero w = w % 256
digit (suc k) w = digit k (w / 256)

abbrev tables : Bytes
tables a = digit (a % 4) (0x200000 + a / 4 % 1024 * 4096)

tables-entry : (i : ℕ) → i < 1024 → read32 tables (0x100000 + 4 * i) ≡ 0x200000 + i * 4096
unfolding read32
tables-entry i lt =
    let i0 : (0x100000 + 4 * i) % 4 ≡ 0 = omega arith in
    let i1 : (0x100000 + 4 * i + 1) % 4 ≡ 1 = omega arith in
    let i2 : (0x100000 + 4 * i + 2) % 4 ≡ 2 = omega arith in
    let i3 : (0x100000 + 4 * i + 3) % 4 ≡ 3 = omega arith in
    let w0 : (0x100000 + 4 * i) / 4 % 1024 ≡ i = omega arith in
    let w1 : (0x100000 + 4 * i + 1) / 4 % 1024 ≡ i = omega arith in
    let w2 : (0x100000 + 4 * i + 2) / 4 % 1024 ≡ i = omega arith in
    let w3 : (0x100000 + 4 * i + 3) / 4 % 1024 ≡ i = omega arith in
    rw (i0, i1, i2, i3, w0, w1, w2, w3) (omega arith)

tables-frame : (i : ℕ) → i < 1024 → table tables 0x100000 i ≡ 0x200000 + i * 4096
tables-frame i lt = ap frame_of (tables-entry i lt) ∙ omega arith

tables-IsDirectory : IsDirectory tables 0x100000
tables-IsDirectory = record {
  aligned = refl;
  apart = λ i lt e. let f = tables-frame i lt in omega arith;
  distinct =
      λ i j li lj ne e. let f = tables-frame i li in let g = tables-frame j lj in ne (omega arith);
}

paging_map_to-Translates_example :
    (m' : Bytes) × (paging_map_to tables 0x100000 0x400000 0x1000000 0x1003000 7 ≡ done (ok tt, m'))
    × Translates tables m' 0x100000 0x400000 0x1000000 7 (0x1003000 - 0x1000000)
paging_map_to-Translates_example =
    paging_map_to-Translates tables 0x100000 0x400000 0x1000000 0x1003000 7 tables-IsDirectory
      (omega arith) refl refl refl (omega arith) (omega arith) (omega arith)
