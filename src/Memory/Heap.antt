-- ===== src/Memory/Heap.antt =====
-- memory/heap.c: a table with an entry for each page of a region.
pub mod Cells
pub mod FirstFit
pub mod Mark
pub mod Scan
pub mod Create
pub mod Exhausted
pub mod Calls
pub mod Split
pub mod Alloc
use cos.Prelude.{
  ℕ, zero, suc, ◌+◌, ◌-◌, ◌*◌, ◌/◌, ◌%◌, ◌^◌, bit_or, Bool, true, false, ◌&&◌, not, Option, none,
  some, List, [], ◌∷◌, ◌++◌, ltb, leb, ◌==◌, if◌then◌else◌, get_or, set, take, drop, replicate,
  Result, ok, err, Run, done, wild, ◌>>=◌, ◌>>◌, assert, ℤ, pos, negsuc, neg, einvarg, enomem,
}
use cos.Memory.Page.{page_size, word, paging_is_address_aligned, paging_align_value_to_upper_page}

-- `struct heap_table`: the entries are bytes. The table may be longer than `total`.
pub record HeapTable : Type 0 where
  pub entries : List ℕ
  pub total : ℕ

-- `struct heap`.
pub record Heap : Type 0 where
  pub table : HeapTable
  pub saddr : ℕ

abbrev pub entry_free : ℕ
entry_free = 0x00

abbrev pub entry_taken : ℕ
entry_taken = 0x01

abbrev pub has_next : ℕ
has_next = 0b10000000

abbrev pub is_first : ℕ
is_first = 0b01000000

-- `entry & 0x0f`.
unfoldable pub heap_table_entry_type : ℕ → ℕ
heap_table_entry_type entry = entry % 16

-- `entry & HEAP_BLOCK_HAS_NEXT` and `entry & HEAP_BLOCK_IS_FIRST`, as tests.
abbrev pub has_next_flag : ℕ → Bool
has_next_flag entry = entry / 128 % 2 == 1

abbrev pub is_first_flag : ℕ → Bool
is_first_flag entry = entry / 64 % 2 == 1

-- `end - ptr` wraps as a `size_t`.
unfoldable pub heap_table_validate : (ptr end : ℕ) → HeapTable → Result (Unit {0})
heap_table_validate ptr end table =
    let total_pages = (end + word - ptr) % word / page_size in
    if table.total == total_pages then ok tt else err einvarg

-- `memset` on the entries of the table.
abbrev pub cleared : HeapTable → HeapTable
cleared t = record t { entries = replicate t.total entry_free ++ drop t.total t.entries }

-- The status, and what `*heap` holds afterwards.
unfoldable pub heap_create : Heap → (ptr end : ℕ) → HeapTable → Result (Unit {0}) × Heap
heap_create heap ptr end table =
    if paging_is_address_aligned ptr && paging_is_address_aligned end
    then elim (heap_table_validate ptr end table) [
      | err e ↦ (err e, record { table = table; saddr = ptr })
      | ok _ ↦ (ok tt, record { table = cleared table; saddr = ptr })
    ]
    else (err einvarg, heap)

-- `if (bs == -1) bs = i`.
abbrev pub block_start : Option ℕ → ℕ → ℕ
block_start none i = i
block_start (some b) i = b

-- The loop of `heap_get_start_block`, over the entries from index `i` on. `bs` is none for -1.
unfoldable pub start_block_loop : List ℕ → (total_blocks i bc : ℕ) → Option ℕ → Option ℕ
unfolding heap_table_entry_type
start_block_loop [] total_blocks i bc bs = bs
start_block_loop (e ∷ es) total_blocks i bc bs = elim (heap_table_entry_type e == entry_free) [
  | false ↦ start_block_loop es total_blocks (i + 1) 0 none
  | true ↦
      let bs' = some (block_start bs i) in
      let rest = start_block_loop es total_blocks (i + 1) (bc + 1) bs' in
      if bc + 1 == total_blocks then bs' else rest
]

unfoldable pub heap_get_start_block : Heap → ℕ → Result ℕ
heap_get_start_block heap total_blocks =
    elim (start_block_loop (take heap.table.total heap.table.entries) total_blocks 0 0 none) [
      | none ↦ err enomem
      | some b ↦ ok b
    ]

-- The difference is an `int`, and `/` rounds towards zero.
unfoldable pub heap_address_to_block : Heap → ℕ → ℤ
heap_address_to_block heap address =
    let d = (address + word - heap.saddr) % word in
    if ltb d (2 ^ 31) then pos (d / page_size) else neg ((word - d) / page_size)

unfoldable pub heap_block_to_address : Heap → ℕ → ℕ
heap_block_to_address heap block = (heap.saddr + block * page_size) % word

-- `end_block` can be -1, so it is kept as `past_end`, which is `end_block + 1`.
unfoldable pub heap_ensure_block_bounds : HeapTable → (start_block past_end : ℕ) → Run (Unit {0})
heap_ensure_block_bounds table start_block past_end =
    assert (ltb start_block table.total && leb past_end table.total && ltb start_block past_end)

-- The loop of `heap_mark_blocks_taken` with `rounds` rounds left. `i != end_block - 1` is
-- `i + 2 != past_end`.
unfoldable pub mark_taken_loop : (rounds i past_end entry : ℕ) → List ℕ → List ℕ
mark_taken_loop zero i past_end entry es = es
mark_taken_loop (suc n) i past_end entry es =
    mark_taken_loop n (i + 1) past_end
      (if not (i + 2 == past_end) then bit_or entry_taken has_next else entry_taken)
      (set es i entry)

-- The entry for the first block.
abbrev pub first_entry : ℕ → ℕ
first_entry total_blocks =
    if ltb 1 total_blocks
    then bit_or (bit_or entry_taken is_first) has_next
    else bit_or entry_taken is_first

unfoldable pub heap_mark_blocks_taken : Heap → (start_block total_blocks : ℕ) → Run Heap
heap_mark_blocks_taken heap start_block total_blocks = do
  let past_end = start_block + total_blocks
  heap_ensure_block_bounds heap.table start_block past_end
  done (mark heap.table)
  where
    mark : HeapTable → Heap
    mark t = record heap {
      table = record t {
        entries =
            mark_taken_loop total_blocks start_block (start_block + total_blocks)
              (first_entry total_blocks) t.entries;
      };
    }

-- The loop of `heap_mark_blocks_free` from index `i` on, with `rounds` entries left in the table.
unfoldable pub mark_free_loop : (rounds i : ℕ) → List ℕ → List ℕ
mark_free_loop zero i es = es
mark_free_loop (suc n) i es =
    let es' = set es i entry_free in
    let rest = mark_free_loop n (i + 1) es' in
    if not (has_next_flag (get_or es i 0)) then es' else rest

unfoldable pub heap_mark_blocks_free : Heap → ℕ → Run Heap
heap_mark_blocks_free heap starting_block = do
  let t = heap.table
  assert (ltb starting_block t.total)
  assert (is_first_flag (get_or t.entries starting_block 0))
  done (record heap {
    table = record t {
      entries = mark_free_loop (t.total - starting_block) starting_block t.entries;
    };
  })

-- The address, 0 for NULL, and the heap afterwards.
unfoldable pub heap_malloc_blocks : Heap → ℕ → Run (ℕ × Heap)
heap_malloc_blocks heap total_blocks = elim (heap_get_start_block heap total_blocks) [
  | err e ↦ done (0, heap)
  | ok b ↦ do
    heap' ← heap_mark_blocks_taken heap b total_blocks
    done (heap_block_to_address heap b, heap')
]

-- `size` is a `size_t`, below `word`.
unfoldable pub heap_malloc : Heap → ℕ → Run (ℕ × Heap)
heap_malloc heap size = heap_malloc_blocks heap (paging_align_value_to_upper_page size / page_size)

-- A negative block passes `starting_block < total`, and the next ASSERT reads before the table.
unfoldable pub heap_free : Heap → ℕ → Run Heap
heap_free heap ptr = do
  assert (leb heap.saddr ptr && paging_is_address_aligned ptr)
  elim (heap_address_to_block heap ptr) [
    | pos block ↦ heap_mark_blocks_free heap block
    | negsuc _ ↦ wild
  ]
