-- ===== src/Memory/KernelHeap/Bytes.antt =====
-- What `memset` and `memcpy` of memory/memory.c leave in memory, and the kernel's calls of them.
use native.Mathlib.Decide.{ℕ_discrete, dec_lt}
use cos.Prelude.{
  ℕ, zero, suc, ◌+◌, ◌-◌, ◌%◌, ◌^◌, ◌≤◌, ◌<◌, ◌≡◌, refl, ap, ◌∙◌, ◌⊎◌, Bool, ◌&&◌, arith, ltb, leb,
  if◌then◌else◌, done, ◌>>=◌,
}
use cos.Memory.Page.{word}
use cos.Memory.KernelHeap.{
  Bytes, poke, memset_loop, memset, int_rounds, memcpy_loop, memcpy, Kernel, kmalloc, kzalloc,
}

-- `a` lies in the `n` bytes from `p` on.
abbrev pub inside : (p n a : ℕ) → Bool
inside p n a = leb p a && ltb a (p + n)

memset_loop_lem :
    (n i ptr v : ℕ) (m : Bytes) (a : ℕ)
    → ptr + i + n ≤ word
    → memset_loop n i ptr v m a ≡ (if inside (ptr + i) n a then v else m a)
unfolding memset_loop
memset_loop_lem zero i ptr v m a fits = ground arith
memset_loop_lem (suc n) i ptr v m a fits =
    let e : (ptr + i) % word ≡ ptr + i = omega arith in
    let s : ptr + (i + 1) ≡ ptr + i + 1 = omega arith in
    rw (e, memset_loop_lem n (i + 1) ptr v (poke m (ptr + i) v) a (omega arith), s) (ground arith)

-- `memset` fills exactly the `len` bytes from `ptr` on.
pub memset_lem :
    (ptr v len : ℕ) (m : Bytes) (a : ℕ)
    → len < 2 ^ 31
    → ptr + len ≤ word
    → memset ptr v len m a ≡ (if inside ptr len a then v else m a)
unfolding memset
memset_lem ptr v len m a small fits =
    let r : int_rounds len ≡ len = ground arith in
    let z : ptr + 0 ≡ ptr = omega arith in rw (r, memset_loop_lem len 0 ptr v m a (omega arith), z)

memcpy_loop_lem :
    (n i dest src : ℕ) (m : Bytes) (a : ℕ)
    → dest + i + n ≤ word
    → src + i + n ≤ word
    → (dest ≤ src) ⊎ (src + i + n ≤ dest)
    → memcpy_loop n i dest src m a ≡ (if inside (dest + i) n a then m (src + (a - dest)) else m a)
unfolding memcpy_loop
memcpy_loop_lem zero i dest src m a fd fs apart = ground arith
memcpy_loop_lem (suc n) i dest src m a fd fs apart =
    let d : (dest + i) % word ≡ dest + i = omega arith in
    let s : (src + i) % word ≡ src + i = omega arith in
    let d' : dest + (i + 1) ≡ dest + i + 1 = omega arith in
    let ih =
      memcpy_loop_lem n (i + 1) dest src (poke m (dest + i) (m (src + i))) a (omega arith)
        (omega arith) (omega arith) in
    rw (d, s, ih, d')
      (elim (dec_lt a (dest + i)) [
        | yes before ↦ ground arith
        | no after ↦ elim (ℕ_discrete a (dest + i)) [
          | yes here ↦ let e : src + (a - dest) ≡ src + i = omega arith in ground (arith, ap m e)
          | no beyond ↦ ground arith
        ]
      ])

-- `memcpy` copies the `len` bytes from `src` to `dest` and changes no other byte, if the ranges
-- do not overlap or the destination is the lower one, and both end within the address space.
pub memcpy_lem :
    (dest src len : ℕ) (m : Bytes) (a : ℕ)
    → dest + len ≤ word
    → src + len ≤ word
    → (dest ≤ src) ⊎ (src + len ≤ dest)
    → memcpy dest src len m a ≡ (if inside dest len a then m (src + (a - dest)) else m a)
unfolding memcpy
memcpy_lem dest src len m a fd fs apart =
    let z : dest + 0 ≡ dest = omega arith in
    rw (memcpy_loop_lem len 0 dest src m a (omega arith) (omega arith) (omega arith), z)

-- The allocator keeps its table outside the memory that it hands out.
kmalloc-mem : (k k' : Kernel) (size p : ℕ) → kmalloc k size ≡ done (p, k') → k'.mem ≡ k.mem
unfolding kmalloc
kmalloc-mem k k' size p eq = ground arith

-- `kzalloc` allocates as `kmalloc` does, clears exactly the bytes asked for, and leaves every
-- other byte as it was. Where `kmalloc` returns NULL the bytes cleared are those from address 0 on.
pub kzalloc_lem :
    (k k' : Kernel) (size p : ℕ)
    → kmalloc k size ≡ done (p, k')
    → size < 2 ^ 31
    → p + size ≤ word
    → (k'' : Kernel) × (kzalloc k size ≡ done (p, k''))
      × (k''.heap ≡ k'.heap)
      × ((a : ℕ) → k''.mem a ≡ (if inside p size a then 0 else k.mem a))
unfolding kzalloc
kzalloc_lem k k' size p eq small fits = (
  record k' { mem = memset p 0 size k'.mem },
  ap (λ r. r >>= λ (r : ℕ × Kernel). done (r.0, record r.1 { mem = memset r.0 0 size r.1.mem })) eq,
  refl,
  λ a.
      memset_lem p 0 size k'.mem a small fits
      ∙ ap (λ (m : Bytes). if inside p size a then 0 else m a) (kmalloc-mem k k' size p eq),
)
