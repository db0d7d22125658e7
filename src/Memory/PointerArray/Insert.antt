-- ===== src/Memory/PointerArray/Insert.antt =====
-- What `array_insert` leaves in memory.
use native.Mathlib.Nat.{mul-le-mul_left}
use native.Mathlib.Decide.{ℕ_discrete, dec_lt}
use cos.Prelude.{
  ℕ, suc, ◌+◌, ◌-◌, ◌*◌, ◌%◌, ◌^◌, ◌≤◌, ◌<◌, ◌≡◌, ◌≢◌, refl, sym, ap, ◌∙◌, ◌⊎◌, arith, true, false,
  ltb, ◌==◌, if◌then◌else◌, done,
}
use cos.Memory.Page.{word}
use cos.Memory.KernelHeap.{Bytes, Kernel, kmalloc, kzalloc}
use cos.Memory.KernelHeap.Bytes.{inside, memcpy_lem, kzalloc_lem}
use cos.Memory.PointerArray.{
  Array, copy_old, copy_elements, array_insert, array_get_index, array_total,
}

-- Two ranges of memory, from `p` and from `q` on, without a common byte.
abbrev pub Apart : (p n q m : ℕ) → Type 0
Apart p n q m = (p + n ≤ q) ⊎ (q + m ≤ p)

-- The size of the elements.
abbrev pub extent : Array → ℕ
extent array = array.e_sz * array.total

-- Byte `j` of the element at `index`.
abbrev pub element : Array → Bytes → (index j : ℕ) → ℕ
element array m index j = m (array_get_index array index + j)

-- Elements have a size, an array without a buffer has none, and the buffer ends within the address space.
pub record IsArray (array : Array) : Type 0 where
  pub sized : 0 < array.e_sz
  pub empty : array.ptr ≡ 0 → extent array ≡ 0
  pub inside_memory : array.ptr + extent array ≤ word

-- The new block at `p` ends before the address space does, is no larger than an `int`, and has no byte in
-- common with the old one or with the element given.
pub record IsRoom (array : Array) (elem_ptr p : ℕ) : Type 0 where
  pub small : extent array + array.e_sz < 2 ^ 31
  pub fits : p + (extent array + array.e_sz) < word
  pub old_apart : Apart p (extent array + array.e_sz) array.ptr (extent array)
  pub elem_apart : Apart p (extent array + array.e_sz) elem_ptr array.e_sz
  pub elem_inside : elem_ptr + array.e_sz ≤ word

copy_old_lem :
    (array : Array) (elem_ptr p : ℕ) (m : Bytes) (a : ℕ)
    → IsArray array
    → IsRoom array elem_ptr p
    → copy_old p array.ptr (extent array % word) m a
      ≡ (if inside p (extent array) a then m (array.ptr + (a - p)) else m a)
unfolding copy_old
copy_old_lem array elem_ptr p m a ok room =
    let small = room.small in
    let fits = room.fits in
    let apart = room.old_apart in
    let within = ok.inside_memory in
    let e : extent array % word ≡ extent array = omega arith in
    elim (ℕ_discrete array.ptr 0) [
      | yes z ↦
          let none_yet = ok.empty z in
          let t : (array.ptr == 0) ≡ true = ground arith in
          let out : inside p (extent array) a ≡ false = ground arith in rw (t, out)
      | no ne ↦
          let t : (array.ptr == 0) ≡ false = ground arith in
          rw (t, e) (memcpy_lem p array.ptr (extent array) m a (omega arith) within (omega arith))
    ]

-- The bytes of the new block after both copies.
copy_elements_lem :
    (array : Array) (elem_ptr p : ℕ) (m : Bytes) (b : ℕ)
    → IsArray array
    → IsRoom array elem_ptr p
    → b < extent array + array.e_sz
    → copy_elements array p elem_ptr m (p + b)
      ≡ (if ltb b (extent array) then m (array.ptr + b) else m (elem_ptr + (b - extent array)))
unfolding copy_elements
copy_elements_lem array elem_ptr p m b ok room lt =
    let small = room.small in
    let fits = room.fits in
    let apart = room.elem_apart in
    let within = room.elem_inside in
    let before = copy_old p array.ptr (extent array % word) m in
    let d : (p + extent array) % word ≡ p + extent array = omega arith in
    let copied =
      memcpy_lem (p + extent array) elem_ptr array.e_sz before (p + b) (omega arith) within
        (omega arith) in
    elim (dec_lt b (extent array)) [
      | yes old ↦
          let t : ltb b (extent array) ≡ true = ground arith in
          let out : inside (p + extent array) array.e_sz (p + b) ≡ false = ground arith in
          let in_old : inside p (extent array) (p + b) ≡ true = ground arith in
          let e : p + b - p ≡ b = omega arith in
          rw (d, copied, out, t, copy_old_lem array elem_ptr p m (p + b) ok room, in_old, e)
      | no new ↦
          let t : ltb b (extent array) ≡ false = ground arith in
          let in_new : inside (p + extent array) array.e_sz (p + b) ≡ true = ground arith in
          let e : p + b - (p + extent array) ≡ b - extent array = omega arith in
          let out : inside p (extent array) (elem_ptr + (b - extent array)) ≡ false =
            ground arith in
          rw (
            d,
            copied,
            in_new,
            e,
            t,
            copy_old_lem array elem_ptr p m (elem_ptr + (b - extent array)) ok room,
            out,
          )
    ]

-- The element at `i` ends within the elements, so its address does not wrap.
element_lem :
    (array : Array) (m : Bytes) (i j : ℕ)
    → IsArray array
    → i < array.total
    → (array.e_sz * i + array.e_sz ≤ extent array)
      × (element array m i j ≡ m (array.ptr + array.e_sz * i + j))
unfolding array_get_index
element_lem array m i j ok lt =
    let within = ok.inside_memory in
    let sized = ok.sized in
    let le : array.e_sz * suc i ≤ extent array = mul-le-mul_left array.e_sz lt in
    let no_wrap : (array.ptr + array.e_sz * i) % word ≡ array.ptr + array.e_sz * i = omega arith in
    (omega arith, ap (λ a. m (a + j)) no_wrap)

-- The array with one element more, in the block at `p`.
abbrev pub grown : Array → (p : ℕ) → Array
grown array p = record array { ptr = p; total = array.total + 1 }

grown-IsArray :
    (array : Array) (elem_ptr p : ℕ)
    → IsArray array
    → IsRoom array elem_ptr p
    → p ≢ 0
    → IsArray (grown array p)
grown-IsArray array elem_ptr p ok room ne =
    let fits = room.fits in
    record { sized = ok.sized; empty = λ z. absurd (ne z); inside_memory = omega arith }

-- The bytes of the new block, from those before the call.
insert-bytes :
    (array : Array) (elem_ptr p b : ℕ) (m zeroed : Bytes)
    → IsArray array
    → IsRoom array elem_ptr p
    → ((a : ℕ) → zeroed a ≡ (if inside p (extent array + array.e_sz) a then 0 else m a))
    → b < extent array + array.e_sz
    → copy_elements array p elem_ptr zeroed (p + b)
      ≡ (if ltb b (extent array) then m (array.ptr + b) else m (elem_ptr + (b - extent array)))
insert-bytes array elem_ptr p b m zeroed ok room cleared lt =
    let old_apart = room.old_apart in
    let elem_apart = room.elem_apart in
    copy_elements_lem array elem_ptr p zeroed b ok room lt ∙ elim (dec_lt b (extent array)) [
      | yes old ↦
          let t : ltb b (extent array) ≡ true = ground arith in
          let out : inside p (extent array + array.e_sz) (array.ptr + b) ≡ false = ground arith in
          rw (t, cleared (array.ptr + b), out)
      | no new ↦
          let t : ltb b (extent array) ≡ false = ground arith in
          let out : inside p (extent array + array.e_sz) (elem_ptr + (b - extent array)) ≡ false =
            ground arith in
          rw (t, cleared (elem_ptr + (b - extent array)), out)
    ]

insert-element :
    (array : Array) (elem_ptr p i j : ℕ) (m after : Bytes)
    → IsArray array
    → IsArray (grown array p)
    → ((b : ℕ)
        → b < extent array + array.e_sz
        → after (p + b)
          ≡ (if ltb b (extent array) then m (array.ptr + b) else m (elem_ptr + (b - extent array))))
    → i ≤ array.total
    → j < array.e_sz
    → element (grown array p) after i j
      ≡ (if i == array.total then m (elem_ptr + j) else element array m i j)
insert-element array elem_ptr p i j m after ok ok' bytes le lt =
    let (fits, e) = element_lem (grown array p) after i j ok' (omega arith) in
    let s : p + array.e_sz * i + j ≡ p + (array.e_sz * i + j) = omega arith in
    e ∙ ap after s ∙ bytes (array.e_sz * i + j) (omega arith) ∙ elim (ℕ_discrete i array.total) [
      | yes last ↦
          let t : (i == array.total) ≡ true = ground arith in
          let same : array.e_sz * i ≡ extent array = ap (λ x. array.e_sz * x) last in
          let f : ltb (array.e_sz * i + j) (extent array) ≡ false = ground arith in
          let r : array.e_sz * i + j - extent array ≡ j = omega arith in rw (f, r, t)
      | no ne ↦
          let t : (i == array.total) ≡ false = ground arith in
          let (fits', e') = element_lem array m i j ok (omega arith) in
          let f : ltb (array.e_sz * i + j) (extent array) ≡ true = ground arith in
          let s' : array.ptr + (array.e_sz * i + j) ≡ array.ptr + array.e_sz * i + j =
            omega arith in
          rw (f, t) (ap m s' ∙ sym e')
    ]

array_insert-returns :
    (k k1 : Kernel) (array : Array) (elem_ptr p : ℕ)
    → IsArray array
    → extent array + array.e_sz < 2 ^ 31
    → kzalloc k (extent array + array.e_sz) ≡ done (p, k1)
    → array_insert k array elem_ptr
      ≡ done (grown array p, record k1 { mem = copy_elements array p elem_ptr k1.mem })
unfolding array_insert
array_insert-returns k k1 array elem_ptr p ok small zeroed =
    let sized = ok.sized in
    let many : suc array.total * 1 ≤ suc array.total * array.e_sz =
      mul-le-mul_left (suc array.total) sized in
    let size : (array.e_sz * (array.total + 1)) % word ≡ extent array + array.e_sz = omega arith in
    let total : (array.total + 1) % word ≡ array.total + 1 = omega arith in rw (size, zeroed, total)

-- For an array whose elements have a size and whose buffer, if any, ends within the address space,
-- where the allocator finds a block, not NULL and within the address space, that has no byte in
-- common with the buffer or with the element given, `array_insert` gives an array of one element
-- more, in which the element at the old total has the bytes of the one given and every element before
-- it the bytes that it had.
pub array_insert-elements :
    (k k' : Kernel) (array : Array) (elem_ptr p i j : ℕ)
    → IsArray array
    → IsRoom array elem_ptr p
    → p ≢ 0
    → kmalloc k (extent array + array.e_sz) ≡ done (p, k')
    → i ≤ array.total
    → j < array.e_sz
    → (k'' : Kernel) × (array_insert k array elem_ptr ≡ done (grown array p, k''))
      × IsArray (grown array p)
      × (array_total (grown array p) ≡ array_total array + 1)
      × (element (grown array p) k''.mem i j
          ≡ (if i == array.total then k.mem (elem_ptr + j) else element array k.mem i j))
unfolding array_total
array_insert-elements k k' array elem_ptr p i j ok room ne found le lt =
    let small = room.small in
    let fits = room.fits in
    let (k1, zeroed, heap, cleared) =
      kzalloc_lem k k' (extent array + array.e_sz) p found small (omega arith) in
    let ok' = grown-IsArray array elem_ptr p ok room ne in
    (
      record k1 { mem = copy_elements array p elem_ptr k1.mem },
      array_insert-returns k k1 array elem_ptr p ok small zeroed,
      ok',
      refl,
      insert-element array elem_ptr p i j k.mem (copy_elements array p elem_ptr k1.mem) ok ok'
          (λ b. insert-bytes array elem_ptr p b k.mem k1.mem ok room cleared) le lt,
    )
