-- ===== src/Keyboard/Queue.antt =====
-- A key buffer that has not overflowed is a queue of keys.
use native.Mathlib.Decide.{ℕ_discrete}
use cos.Prelude.{
  ℕ, suc, ◌+◌, ◌%◌, ◌^◌, ◌≤◌, ◌<◌, ◌≡◌, ◌≢◌, refl, sym, ap, ◌∙◌, false, List, [], ◌∷◌, ◌++◌, arith,
  ◌==◌, length, length-append, get_or, set, length-set, get_or-set_self, get_or-set_ne,
  get_or-snoc_self, get_or-snoc_ne, get_or-beyond,
}
use cos.Strings.Copy.{IsText}
use cos.Keyboard.Buffer.{KeyboardBuffer, buffer_size, push_key, pop_key}

-- The buffer holds the keys of `q`, oldest first: they stand from `head` on, going round, `tail` is
-- behind them, and every other byte is zero.
pub record Holds (k : KeyboardBuffer) (q : List ℕ) : Type 0 where
  pub size : length k.buffer ≡ buffer_size
  pub fits : length q ≤ buffer_size
  pub tail : k.tail % buffer_size ≡ (k.head + length q) % buffer_size
  pub slots :
      (j : ℕ) → j < buffer_size → get_or k.buffer ((k.head + j) % buffer_size) 0 ≡ get_or q j 0
  pub keys : IsText q

snoc-IsText : (q : List ℕ) (c : ℕ) → IsText q → c ≢ 0 → IsText (q ++ (c ∷ []))
snoc-IsText [] c t nz = (nz, tt)
snoc-IsText (d ∷ q) c t nz = (t.0, snoc-IsText q c t.1 nz)

init-IsText : (q : List ℕ) (c : ℕ) → IsText (q ++ (c ∷ [])) → IsText q
init-IsText [] c t = tt
init-IsText (d ∷ q) c t = (t.0, init-IsText q c t.1)

-- Where the buffer holds a queue that is not full, `keyboard_push` of a key that is not 0 adds
-- it at the end of the queue.
pub push_key-Holds :
    (k : KeyboardBuffer) (q : List ℕ) (c : ℕ)
    → Holds k q
    → length q < buffer_size
    → c ≢ 0
    → Holds (push_key k c) (q ++ (c ∷ []))
unfolding push_key
push_key-Holds k q c h room nz =
    let len = length-append q (c ∷ []) in
    let ht = h.tail in
    record {
      size = length-set k.buffer (k.tail % buffer_size) c ∙ h.size;
      fits = omega arith;
      tail = omega arith;
      slots = slots';
      keys = snoc-IsText q c h.keys nz;
    }
  where
    slots' :
        (j : ℕ)
        → j < buffer_size
        → get_or (set k.buffer (k.tail % buffer_size) c) ((k.head + j) % buffer_size) 0
          ≡ get_or (q ++ (c ∷ [])) j 0
    slots' j lt = elim (ℕ_discrete j (length q)) [
      | yes here ↦
          let ht = h.tail in
          let e : k.tail % buffer_size ≡ (k.head + j) % buffer_size = rw here ht in
          ap (λ i. get_or (set k.buffer i c) ((k.head + j) % buffer_size) 0) e
          ∙ get_or-set_self k.buffer ((k.head + j) % buffer_size) c 0 (omega (arith, h.size))
          ∙ sym (ap (λ i. get_or (q ++ (c ∷ [])) i 0) here ∙ get_or-snoc_self q c 0)
      | no ne ↦
          let ht = h.tail in
          get_or-set_ne k.buffer (k.tail % buffer_size) ((k.head + j) % buffer_size) c 0
            (omega arith)
          ∙ h.slots j lt
          ∙ sym (get_or-snoc_ne q c 0 j ne)
    ]

head_slot :
    (k : KeyboardBuffer) (q : List ℕ)
    → Holds k q
    → get_or k.buffer (k.head % buffer_size) 0 ≡ get_or q 0 0
head_slot k q h = ap (λ i. get_or k.buffer i 0) (omega arith) ∙ h.slots 0 (omega arith)

-- `keyboard_pop` of an empty queue returns 0 and changes nothing.
pub pop_key-empty : (k : KeyboardBuffer) → Holds k [] → pop_key k ≡ (0, k)
unfolding pop_key
pop_key-empty k h = rw (head_slot k [] h)

-- Where the buffer holds a queue that is not empty, `keyboard_pop` returns the oldest key, and
-- leaves the queue of the others.
pub pop_key-Holds :
    (k : KeyboardBuffer) (c : ℕ) (q : List ℕ)
    → Holds k (c ∷ q)
    → ((pop_key k).0 ≡ c) × Holds (pop_key k).1 q
unfolding pop_key
pop_key-Holds k c q h =
    let nz : (c == 0) ≡ false = let z = h.keys.0 in ground arith in
    let ht = h.tail in
    rw (head_slot k (c ∷ q) h, nz)
      (
        refl,
        record {
          size = length-set k.buffer (k.head % buffer_size) 0 ∙ h.size;
          fits = let f = h.fits in omega arith;
          tail = omega arith;
          slots = slots';
          keys = h.keys.1;
        },
      )
  where
    slots' :
        (j : ℕ)
        → j < buffer_size
        → get_or
            (set k.buffer (k.head % buffer_size) 0)
            (((k.head + 1) % 2 ^ 32 + j) % buffer_size)
            0
          ≡ get_or q j 0
    slots' j lt = elim (ℕ_discrete (suc j) buffer_size) [
      | yes last ↦
          let e : ((k.head + 1) % 2 ^ 32 + j) % buffer_size ≡ k.head % buffer_size = omega arith in
          let f = h.fits in
          ap (λ i. get_or (set k.buffer (k.head % buffer_size) 0) i 0) e
          ∙ get_or-set_self k.buffer (k.head % buffer_size) 0 0 (omega (arith, h.size))
          ∙ sym (get_or-beyond q j 0 (omega arith))
      | no ne ↦
          let e : ((k.head + 1) % 2 ^ 32 + j) % buffer_size ≡ (k.head + suc j) % buffer_size =
            omega arith in
          ap (λ i. get_or (set k.buffer (k.head % buffer_size) 0) i 0) e
          ∙ get_or-set_ne k.buffer (k.head % buffer_size) ((k.head + suc j) % buffer_size) 0 0
              (omega arith)
          ∙ h.slots (suc j) (omega arith)
    ]
