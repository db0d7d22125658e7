-- ===== src/Memory/PointerArray.antt =====
-- memory/array.c: an array that is copied to a new block for each element added.
pub mod Insert
use cos.Prelude.{ℕ, ◌+◌, ◌*◌, ◌%◌, ◌==◌, if◌then◌else◌, Run, done, ◌>>=◌}
use cos.Memory.Page.{word}
use cos.Memory.KernelHeap.{Bytes, memcpy, Kernel, kzalloc, kfree}

-- The struct is at `addr`; what it holds is kept beside the bytes of memory.
pub record Array : Type 0 where
  pub addr : ℕ
  pub e_sz : ℕ
  pub total : ℕ
  pub ptr : ℕ

-- `sizeof(struct array)`.
abbrev array_size : ℕ
array_size = 12

unfoldable pub array_create : Kernel → (element_size : ℕ) → Run (Array × Kernel)
array_create k element_size = do
  (addr, k') ← kzalloc k array_size
  done (record { addr = addr; e_sz = element_size; total = 0; ptr = 0 }, k')

-- `if (old_ptr)`: the elements there were.
unfoldable pub copy_old : (new_ptr old_ptr size : ℕ) → Bytes → Bytes
copy_old new_ptr old_ptr size m = if old_ptr == 0 then m else memcpy new_ptr old_ptr size m

-- The memory after both copies.
unfoldable pub copy_elements : Array → (new_ptr elem_ptr : ℕ) → Bytes → Bytes
copy_elements array new_ptr elem_ptr m =
    memcpy ((new_ptr + array.e_sz * array.total) % word) elem_ptr array.e_sz
      (copy_old new_ptr array.ptr ((array.e_sz * array.total) % word) m)

unfoldable pub array_insert : Kernel → Array → (elem_ptr : ℕ) → Run (Array × Kernel)
array_insert k array elem_ptr = do
  (new_ptr, k') ← kzalloc k ((array.e_sz * (array.total + 1)) % word)
  done (
    record array { ptr = new_ptr; total = (array.total + 1) % word },
    record k' { mem = copy_elements array new_ptr elem_ptr k'.mem },
  )

-- The address of an element; no bound is checked.
unfoldable pub array_get_index : Array → (index : ℕ) → ℕ
array_get_index array index = (array.ptr + array.e_sz * index) % word

unfoldable pub array_total : Array → ℕ
array_total array = array.total

unfoldable pub array_destroy : Kernel → Array → Run Kernel
array_destroy k array = do k' ← kfree k array.ptr; kfree k' array.addr
