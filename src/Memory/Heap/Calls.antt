-- ===== src/Memory/Heap/Calls.antt =====
-- Each call of memory/heap.c on the branch where its checks pass.
use cos.Prelude.{
  ℕ, ◌+◌, ◌-◌, ◌*◌, ◌/◌, ◌%◌, ◌^◌, ◌≤◌, ◌<◌, ◌≡◌, true, arith, get_or, ok, err, done, enomem, ltb,
  leb, pos, ◌&&◌, ◌==◌, List,
}
use cos.Memory.Page.{page_size, word, paging_is_address_aligned}
use cos.Memory.Heap.{
  Heap, heap_get_start_block, heap_mark_blocks_taken, heap_ensure_block_bounds, heap_malloc_blocks,
  heap_free, first_entry, mark_taken_loop, mark_free_loop, is_first_flag, heap_mark_blocks_free,
  heap_address_to_block, heap_block_to_address,
}

abbrev pub with_entries : Heap → List ℕ → Heap
with_entries h es = record h { table = record h.table { entries = es } }

-- With the bounds met, the ASSERT passes and the loop runs.
pub mark_blocks_taken-in_bounds :
    (h : Heap) (b n : ℕ)
    → 0 < n
    → b + n ≤ h.table.total
    → heap_mark_blocks_taken h b n
      ≡ done (with_entries h (mark_taken_loop n b (b + n) (first_entry n) h.table.entries))
unfolding heap_mark_blocks_taken heap_ensure_block_bounds
mark_blocks_taken-in_bounds h b n positive le =
    let t : (ltb b h.table.total && leb (b + n) h.table.total && ltb b (b + n)) ≡ true =
      ground arith in
    rw t

pub malloc_blocks-at :
    (h : Heap) (b n : ℕ)
    → 0 < n
    → b + n ≤ h.table.total
    → h.saddr + b * page_size < word
    → heap_get_start_block h n ≡ ok b
    → heap_malloc_blocks h n
      ≡ done (
        h.saddr + b * page_size,
        with_entries h (mark_taken_loop n b (b + n) (first_entry n) h.table.entries),
      )
unfolding heap_malloc_blocks heap_block_to_address
malloc_blocks-at h b n positive le lt eq =
    let a : (h.saddr + b * page_size) % word ≡ h.saddr + b * page_size = omega arith in
    rw (eq, heap_malloc_blocks, mark_blocks_taken-in_bounds h b n positive le, a)

pub malloc_blocks-none :
    (h : Heap) (n : ℕ)
    → heap_get_start_block h n ≡ err enomem
    → heap_malloc_blocks h n ≡ done (0, h)
unfolding heap_malloc_blocks
malloc_blocks-none h n eq = rw (eq, heap_malloc_blocks)

pub mark_blocks_free-first :
    (h : Heap) (b : ℕ)
    → b < h.table.total
    → is_first_flag (get_or h.table.entries b 0) ≡ true
    → heap_mark_blocks_free h b
      ≡ done (with_entries h (mark_free_loop (h.table.total - b) b h.table.entries))
unfolding heap_mark_blocks_free
mark_blocks_free-first h b lt first =
    let t : ltb b h.table.total ≡ true = ground arith in rw (t, first)

pub address_to_block-block_to_address :
    (h : Heap) (b : ℕ)
    → h.saddr + b * page_size < word
    → b * page_size < 2 ^ 31
    → heap_address_to_block h (h.saddr + b * page_size) ≡ pos b
unfolding heap_address_to_block
address_to_block-block_to_address h b inside small =
    let d : (h.saddr + b * page_size + word - h.saddr) % word ≡ b * page_size = omega arith in
    let q : b * page_size / page_size ≡ b = omega arith in
    let t : ltb (b * page_size) (2 ^ 31) ≡ true = ground arith in rw (d, t, q)

pub free-at :
    (h : Heap) (b : ℕ)
    → h.saddr % page_size ≡ 0
    → h.saddr + b * page_size < word
    → b * page_size < 2 ^ 31
    → heap_free h (h.saddr + b * page_size) ≡ heap_mark_blocks_free h b
unfolding heap_free paging_is_address_aligned
free-at h b aligned inside small =
    let t : (leb h.saddr (h.saddr + b * page_size) && ((h.saddr + b * page_size) % page_size == 0))
        ≡ true =
      ground arith in
    rw (t, address_to_block-block_to_address h b inside small)
