-- ===== src/Memory/Tests.antt =====
-- Runs of the memory functions on small tables, and the theorems at them.
use cos.Prelude.{
  ℕ, zero, suc, ◌-◌, ◌+◌, ◌*◌, ◌%◌, ◌≤◌, ◌<◌, ◌≡◌, refl, List, [], ◌∷◌, ◌++◌, arith, ok, done,
  panic, ◌==◌, ◌>>=◌, if◌then◌else◌, inl, inr,
}
use cos.Memory.Page.{page_size, paging_align_value_to_upper_page, paging_align_address}
use cos.Memory.Page.{align_upper_lem}
use cos.Memory.Heap.{
  HeapTable, heap_table_entry_type, Heap, heap_create, heap_get_start_block, heap_malloc_blocks,
  heap_malloc, heap_free,
}
use cos.Memory.Heap
use cos.Memory.Heap.Cells.{Cell, gap, run, encode, gaps}
use cos.Memory.Heap.Calls.{with_entries}
use cos.Memory.Heap.Alloc.{IsHeap, Allocated, free-run, malloc_blocks-first_fit, free-malloc_blocks}
use cos.Memory.Heap.Scan.{FreeRun}
use cos.Memory.Heap.FirstFit.{get_start_block-fits}
use cos.Memory.Heap.Exhausted.{NoFit, malloc_blocks-exhausted, heap_malloc-zero}
use cos.Memory.Heap.Create.{heap_create-gaps}
use cos.Memory.KernelHeap.{Kernel, kmalloc, kzalloc, memcpy}
use cos.Memory.KernelHeap.Bytes.{inside, kzalloc_lem, memcpy_lem}
use cos.Memory.PointerArray.{Array, array_insert, array_total}
use cos.Memory.PointerArray.Insert.{IsArray, grown, element, array_insert-elements}

-- One block taken, then three free.
abbrev cells : List Cell
cells = run 0 ∷ gap ∷ gap ∷ gap ∷ []

abbrev heap : Heap
heap = record { table = record { entries = 0x41 ∷ 0 ∷ 0 ∷ 0 ∷ []; total = 4 }; saddr = 0x01000000 }

heap-IsHeap : IsHeap heap cells
heap-IsHeap = record {
  entries = refl;
  total = refl;
  aligned = refl;
  above = omega arith;
  inside = omega arith;
  small = omega arith;
}

-- The table with its last block taken, too.
abbrev full : Heap
full = with_entries heap (0x41 ∷ 0x41 ∷ 0xc1 ∷ 0x01 ∷ [])

malloc_two :
    heap_malloc heap 5000 ≡ done (0x01001000, with_entries heap (0x41 ∷ 0xc1 ∷ 0x01 ∷ 0 ∷ []))
unfolding heap_malloc heap_malloc_blocks heap_get_start_block Heap.start_block_loop
    Heap.heap_mark_blocks_taken Heap.heap_ensure_block_bounds Heap.mark_taken_loop
    Heap.heap_block_to_address paging_align_value_to_upper_page
malloc_two = refl

malloc_blocks-first_fit_example : Allocated heap (run 0 ∷ (gaps 2 ++ (gap ∷ []))) 1 1
malloc_blocks-first_fit_example = malloc_blocks-first_fit heap (run 0 ∷ []) (gap ∷ []) 1 heap-IsHeap

free-run_example :
    (heap_free heap (0x01000000 + 0 * page_size)
      ≡ done (with_entries heap (encode (gaps 1 ++ gaps 3))))
    × IsHeap (with_entries heap (encode (gaps 1 ++ gaps 3))) (gaps 1 ++ gaps 3)
free-run_example = free-run heap [] (gaps 3) 0 heap-IsHeap

free-malloc_blocks_test : (heap_malloc_blocks heap 2 >>= λ r. heap_free r.1 r.0) ≡ done heap
free-malloc_blocks_test = free-malloc_blocks heap (run 0 ∷ []) (gap ∷ []) 1 heap-IsHeap

get_start_block-fits_example :
    (b : ℕ) × (heap_get_start_block heap 2 ≡ ok b) × (b ≤ 2) × (b + 2 ≤ 4)
unfolding heap_table_entry_type
get_start_block-fits_example =
    get_start_block-fits heap refl 2 2 (omega arith) last_two (omega arith)
  where
    last_two : FreeRun heap.table.entries 2 2
    last_two zero lt = refl
    last_two (suc zero) lt = refl
    last_two (suc (suc k)) lt = absurd (omega arith)

-- One block taken and one free: two blocks do not fit.
abbrev short : Heap
short = record { table = record { entries = 0x41 ∷ 0 ∷ []; total = 2 }; saddr = 0x01000000 }

short-NoFit : NoFit short.table.entries 2
unfolding heap_table_entry_type
short-NoFit zero le free = omega (arith, free 0 (omega arith))
short-NoFit (suc c) le free = absurd (omega arith)

malloc_blocks-exhausted_example :
    heap_malloc_blocks short 2 ≡ (if heap_table_entry_type 0 == 0 then panic else done (0, short))
malloc_blocks-exhausted_example =
    malloc_blocks-exhausted short (0x41 ∷ []) 0 2 refl refl (omega arith) short-NoFit

heap_malloc-zero_test : heap_malloc short 0 ≡ panic
unfolding heap_table_entry_type
heap_malloc-zero_test = heap_malloc-zero short (0x41 ∷ []) 0 refl refl refl

abbrev dirty : HeapTable
dirty = record { entries = 7 ∷ 0x41 ∷ []; total = 2 }

heap_create-gaps_test :
    (h' : Heap) × (heap_create heap 0x01000000 0x01002000 dirty ≡ (ok tt, h')) × IsHeap h' (gaps 2)
heap_create-gaps_test =
    heap_create-gaps heap 0x01000000 0x01002000 dirty refl refl (omega arith) refl (omega arith)
      (omega arith) refl

abbrev kernel : Kernel
kernel = record { heap = heap; mem = λ a. a % 256 }

abbrev kernel_after : Kernel
kernel_after = record kernel { heap = with_entries heap (0x41 ∷ 0x41 ∷ 0 ∷ 0 ∷ []) }

kmalloc_run : kmalloc kernel 10 ≡ done (0x01001000, kernel_after)
unfolding kmalloc heap_malloc heap_malloc_blocks heap_get_start_block Heap.start_block_loop
    Heap.heap_mark_blocks_taken Heap.heap_ensure_block_bounds Heap.mark_taken_loop
    Heap.heap_block_to_address paging_align_value_to_upper_page
kmalloc_run = refl

kzalloc_lem_test :
    (k'' : Kernel) × (kzalloc kernel 10 ≡ done (0x01001000, k''))
    × (k''.heap ≡ kernel_after.heap)
    × ((a : ℕ) → k''.mem a ≡ (if inside 0x01001000 10 a then 0 else kernel.mem a))
kzalloc_lem_test =
    kzalloc_lem kernel kernel_after 10 0x01001000 kmalloc_run (omega arith) (omega arith)

memcpy_lem_test : memcpy 0x3000 0x3002 4 kernel.mem 0x3001 ≡ (
    if inside 0x3000 4 0x3001 then kernel.mem (0x3002 + (0x3001 - 0x3000)) else kernel.mem 0x3001)
memcpy_lem_test =
    memcpy_lem 0x3000 0x3002 4 kernel.mem 0x3001 (omega arith) (omega arith) (inl (omega arith))

align_upper_lem_test :
    (5000 ≤ paging_align_value_to_upper_page 5000)
    × (paging_align_value_to_upper_page 5000 < 5000 + page_size)
    × (paging_align_value_to_upper_page 5000 % page_size ≡ 0)
    × (paging_align_address 5000 ≡ paging_align_value_to_upper_page 5000)
align_upper_lem_test = align_upper_lem 5000 (omega arith)

-- One element of five bytes at 0x100, and the one to add at 0x200.
abbrev array : Array
array = record { addr = 0x300; e_sz = 5; total = 1; ptr = 0x100 }

array_insert-elements_example :
    (k'' : Kernel) × (array_insert kernel array 0x200 ≡ done (grown array 0x01001000, k''))
    × IsArray (grown array 0x01001000)
    × (array_total (grown array 0x01001000) ≡ array_total array + 1)
    × (element (grown array 0x01001000) k''.mem 1 2
        ≡ (if 1 == array.total then kernel.mem (0x200 + 2) else element array kernel.mem 1 2))
array_insert-elements_example =
    array_insert-elements kernel kernel_after array 0x200 0x01001000 1 2
      (record {
        sized = omega arith;
        empty = λ z. absurd (omega arith);
        inside_memory = omega arith;
      })
      (record {
        small = omega arith;
        fits = omega arith;
        old_apart = inr (omega arith);
        elem_apart = inr (omega arith);
        elem_inside = omega arith;
      })
      (omega arith) kmalloc_run (omega arith) (omega arith)
