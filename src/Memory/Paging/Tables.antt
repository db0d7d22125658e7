-- ===== src/Memory/Paging/Tables.antt =====
-- A directory as a map from pages to entries: what `paging_get` and `paging_set` read and write.
use native.Mathlib.Decide.{ℕ_discrete}
use cos.Prelude.{
  ℕ, ◌+◌, ◌*◌, ◌/◌, ◌%◌, ◌≤◌, ◌<◌, ◌≡◌, ◌≢◌, ap, ◌∙◌, ◌⊎◌, inl, inr, arith, ◌==◌, ok, err, done,
  einvarg, true, false,
}
use cos.Memory.Page.{page_size, word}
use cos.Memory.KernelHeap.{Bytes}
use cos.Memory.Words.{read32, write32, read32-write32_self, read32-write32_apart}
use cos.Memory.Paging.{frame_of, entry_address, paging_get_indexes, paging_get, paging_set}

-- The address of table number `i`.
abbrev pub table : Bytes → (directory i : ℕ) → ℕ
table m directory i = frame_of (read32 m (directory + 4 * i))

-- The directory and its tables are whole pages that do not overlap.
pub record IsDirectory (m : Bytes) (dir : ℕ) : Type 0 where
  pub aligned : dir % page_size ≡ 0
  pub apart : (i : ℕ) → i < 1024 → table m dir i ≢ dir
  pub distinct : (i j : ℕ) → i < 1024 → j < 1024 → i ≢ j → table m dir i ≢ table m dir j

-- Where the entry for `virt` stands, and what it is.
abbrev pub slot : Bytes → (directory virt : ℕ) → ℕ
slot m directory virt = entry_address m directory (virt / 4194304) (virt % 4194304 / 4096)

abbrev pub entry_of : Bytes → (directory virt : ℕ) → ℕ
entry_of m directory virt = read32 m (slot m directory virt)

abbrev pub set_entry : Bytes → (directory virt val : ℕ) → Bytes
set_entry m directory virt val = write32 m (slot m directory virt) val

pub paging_get-entry_of :
    (m : Bytes) (dir virt : ℕ)
    → virt % page_size ≡ 0
    → paging_get m dir virt ≡ done (entry_of m dir virt)
unfolding paging_get paging_get_indexes
paging_get-entry_of m dir virt al = let t : (virt % page_size == 0) ≡ true = ground arith in rw t

pub paging_set-set_entry :
    (m : Bytes) (dir virt val : ℕ)
    → virt % page_size ≡ 0
    → paging_set m dir virt val ≡ (ok tt, set_entry m dir virt val)
unfolding paging_set paging_get_indexes
paging_set-set_entry m dir virt val al =
    let t : (virt % page_size == 0) ≡ true = ground arith in rw t

pub paging_set-refuses :
    (m : Bytes) (dir virt val : ℕ)
    → virt % page_size ≢ 0
    → paging_set m dir virt val ≡ (err einvarg, m)
unfolding paging_set paging_get_indexes
paging_set-refuses m dir virt val al =
    let t : (virt % page_size == 0) ≡ false = ground arith in rw t

-- Different pages of the address space have different indices.
indexes_injective :
    (v w : ℕ)
    → v % page_size ≡ 0
    → w % page_size ≡ 0
    → v ≢ w
    → (v / 4194304 ≢ w / 4194304)
      ⊎ ((v / 4194304 ≡ w / 4194304) × (v % 4194304 / 4096 ≢ w % 4194304 / 4096))
indexes_injective v w av aw ne = elim (ℕ_discrete (v / 4194304) (w / 4194304)) [
  | no d ↦ inl d
  | yes e ↦ inr (e, omega arith)
]

module _ (m : Bytes) (dir : ℕ) (d : IsDirectory m dir) (virt val : ℕ) (low : virt < word) where
  -- An entry that is set leaves the directory's own words alone.
  set_entry-directory :
      (j : ℕ) → j < 1024 → read32 (set_entry m dir virt val) (dir + 4 * j) ≡ read32 m (dir + 4 * j)
  set_entry-directory j lt =
      let da = d.aligned in
      let ne = d.apart (virt / 4194304) (omega arith) in
      read32-write32_apart m (slot m dir virt) (dir + 4 * j) val (omega arith)

  set_entry-table : (j : ℕ) → j < 1024 → table (set_entry m dir virt val) dir j ≡ table m dir j
  set_entry-table j lt = ap frame_of (set_entry-directory j lt)

  pub set_entry-IsDirectory : IsDirectory (set_entry m dir virt val) dir
  set_entry-IsDirectory = record {
    aligned = d.aligned;
    apart = λ i lt. rw (set_entry-table i lt) (d.apart i lt);
    distinct =
        λ i j li lj ne. rw (set_entry-table i li, set_entry-table j lj) (d.distinct i j li lj ne);
  }

  slot-set_entry : (w : ℕ) → w < word → slot (set_entry m dir virt val) dir w ≡ slot m dir w
  slot-set_entry w lw =
      ap (λ t. t + 4 * (w % 4194304 / 4096)) (set_entry-table (w / 4194304) (omega arith))

  -- The entry that was set reads back.
  pub entry_of-set_entry_self : val < word → entry_of (set_entry m dir virt val) dir virt ≡ val
  entry_of-set_entry_self lv =
      ap (read32 (set_entry m dir virt val)) (slot-set_entry virt low)
      ∙ read32-write32_self m (slot m dir virt) val lv

  slot-apart :
      (w : ℕ)
      → w < word
      → virt % page_size ≡ 0
      → w % page_size ≡ 0
      → virt ≢ w
      → (slot m dir virt + 4 ≤ slot m dir w) ⊎ (slot m dir w + 4 ≤ slot m dir virt)
  slot-apart w lw av aw ne = elim (indexes_injective virt w av aw ne) [
    | inl di ↦
        let t = d.distinct (virt / 4194304) (w / 4194304) (omega arith) (omega arith) di in
        omega arith
    | inr (e, ti) ↦ let t = ap (table m dir) e in omega arith
  ]

  -- The entry of any other page is the one before.
  pub entry_of-set_entry_ne :
      (w : ℕ)
      → w < word
      → virt % page_size ≡ 0
      → w % page_size ≡ 0
      → virt ≢ w
      → entry_of (set_entry m dir virt val) dir w ≡ entry_of m dir w
  entry_of-set_entry_ne w lw av aw ne =
      ap (read32 (set_entry m dir virt val)) (slot-set_entry w lw)
      ∙ read32-write32_apart m (slot m dir virt) (slot m dir w) val (slot-apart w lw av aw ne)
