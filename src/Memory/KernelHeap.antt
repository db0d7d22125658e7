-- ===== src/Memory/KernelHeap.antt =====
-- memory/kheap.c and memory/memory.c: the kernel's heap over the bytes of memory.
pub mod Bytes
use cos.Prelude.{
  ℕ, zero, suc, ◌+◌, ◌-◌, ◌*◌, ◌/◌, ◌%◌, ◌^◌, ◌≤◌, ◌<◌, ◌≡◌, Bool, ltb, ◌==◌, if◌then◌else◌,
  replicate, Result, ok, err, Run, done, panic, ◌>>=◌, List, [],
}
use cos.Memory.Page.{page_size, word}
use cos.Memory.Heap.{Heap, HeapTable, heap_create, heap_malloc, heap_free}

-- Memory by address, a byte each. `char` is kept as its bits.
abbrev pub Bytes : Type 0
Bytes = ℕ → ℕ

abbrev pub poke : Bytes → ℕ → ℕ → Bytes
poke m p v a = if a == p then v else m a

-- The loop of `memset` from index `i` on, with `rounds` rounds left.
unfoldable pub memset_loop : (rounds i : ℕ) → (ptr v : ℕ) → Bytes → Bytes
memset_loop zero i ptr v m = m
memset_loop (suc n) i ptr v m = memset_loop n (i + 1) ptr v (poke m ((ptr + i) % word) v)

-- `len` is an `int` as its bits: a negative one makes no round.
abbrev pub int_rounds : ℕ → ℕ
int_rounds len = if ltb len (2 ^ 31) then len else 0

unfoldable pub memset : (ptr v len : ℕ) → Bytes → Bytes
memset ptr v len m = memset_loop (int_rounds len) 0 ptr v m

-- The loop of `memcpy`, byte by byte upwards.
unfoldable pub memcpy_loop : (rounds i : ℕ) → (dest src : ℕ) → Bytes → Bytes
memcpy_loop zero i dest src m = m
memcpy_loop (suc n) i dest src m =
    memcpy_loop n (i + 1) dest src (poke m ((dest + i) % word) (m ((src + i) % word)))

-- `while (len--)`: a negative `len` counts down through every `int`.
unfoldable pub memcpy : (dest src len : ℕ) → Bytes → Bytes
memcpy dest src len m = memcpy_loop len 0 dest src m

-- The kernel's heap and the bytes that it hands out.
pub record Kernel : Type 0 where
  pub heap : Heap
  pub mem : Bytes

abbrev pub kernel_heap_address : ℕ
kernel_heap_address = 0x01000000

abbrev pub size_200mb : ℕ
size_200mb = 104857600 * 2

-- `kernel_heap` before the call is the zeroed global.
unfoldable pub kheap_init : List ℕ → Run Heap
kheap_init table_memory = elim (created.0) [ ok _ ↦ done created.1 | err _ ↦ panic ]
  where
    table : HeapTable
    table = record { entries = table_memory; total = size_200mb / page_size }

    created : Result (Unit {0}) × Heap
    created =
        heap_create (record { table = record { entries = []; total = 0 }; saddr = 0 })
          kernel_heap_address (kernel_heap_address + size_200mb) table

-- `size` is an `int` that becomes a `size_t`, both as their bits.
unfoldable pub kmalloc : Kernel → ℕ → Run (ℕ × Kernel)
kmalloc k size = do (ptr, heap') ← heap_malloc k.heap size; done (ptr, record k { heap = heap' })

-- `kzalloc` clears from the address that `kmalloc` returned, NULL too.
unfoldable pub kzalloc : Kernel → ℕ → Run (ℕ × Kernel)
kzalloc k size = do
  (ptr, k') ← kmalloc k size
  done (ptr, record k' { mem = memset ptr 0 size k'.mem })

unfoldable pub kfree : Kernel → ℕ → Run Kernel
kfree k ptr =
    if ptr == 0 then done k else do heap' ← heap_free k.heap ptr; done (record k { heap = heap' })
