-- ===== src/Memory/Heap/Mark.antt =====
-- What the marking loops of memory/heap.c write, as cells.
use cos.Prelude.{
  ℕ, zero, suc, ◌+◌, ◌<◌, ◌≡◌, refl, ap, ap₂, ◌∙◌, true, not, List, [], ◌∷◌, ◌++◌, arith, ◌==◌,
  if◌then◌else◌, length, set, replicate,
}
use cos.Memory.Heap.{mark_taken_loop, mark_free_loop, first_entry, entry_free, has_next_flag}
use cos.Memory.Heap.Cells.{tail_entries, run_entries}

-- The loop looks at indices only by their distance, so an entry in front is left alone.
mark_taken_loop-cons :
    (n i past entry x : ℕ) (es : List ℕ)
    → mark_taken_loop n (suc i) (suc past) entry (x ∷ es) ≡ x ∷ mark_taken_loop n i past entry es
unfolding mark_taken_loop
mark_taken_loop-cons zero i past entry x es = refl
mark_taken_loop-cons (suc n) i past entry x es =
    let e : suc i + 1 ≡ suc (i + 1) = omega arith in
    let t : (suc i + 2 == suc past) ≡ (i + 2 == past) = ground arith in
    rw (e, t) (mark_taken_loop-cons n (i + 1) past _ x (set es i entry))

pub mark_taken_loop-append :
    (pre es : List ℕ) (n i past entry : ℕ)
    → mark_taken_loop n (length pre + i) (length pre + past) entry (pre ++ es)
      ≡ pre ++ mark_taken_loop n i past entry es
mark_taken_loop-append [] es n i past entry =
    ap₂ (λ a b. mark_taken_loop n a b entry es) (omega arith) (omega arith)
mark_taken_loop-append (x ∷ pre) es n i past entry =
    let a : suc (length pre) + i ≡ suc (length pre + i) = omega arith in
    let b : suc (length pre) + past ≡ suc (length pre + past) = omega arith in
    rw (a, b)
      (mark_taken_loop-cons n (length pre + i) (length pre + past) entry x (pre ++ es)
        ∙ ap (λ (l : List ℕ). x ∷ l) (mark_taken_loop-append pre es n i past entry))

-- The entry that the loop carries to an index with `k` more behind it.
abbrev carried : ℕ → ℕ
carried zero = 0x01
carried (suc k) = 0x81

carried_lem : (k : ℕ) → (if not (2 == suc (suc k)) then 0x81 else 0x01) ≡ carried k
carried_lem zero = refl
carried_lem (suc k) = ground arith

mark_taken_loop-step :
    (n past entry x : ℕ) (es : List ℕ)
    → mark_taken_loop (suc n) 0 past entry (x ∷ es)
      ≡ mark_taken_loop n 1 past (if not (2 == past) then 0x81 else 0x01) (entry ∷ es)
unfolding mark_taken_loop
mark_taken_loop-step n past entry x es = refl

-- One round at the front of the table.
mark_taken_loop-front :
    (k entry x : ℕ) (es : List ℕ)
    → mark_taken_loop (suc (suc k)) 0 (suc (suc k)) entry (x ∷ es)
      ≡ entry ∷ mark_taken_loop (suc k) 0 (suc k) (carried k) es
mark_taken_loop-front k entry x es =
    mark_taken_loop-step (suc k) (suc (suc k)) entry x es
    ∙ ap (λ e. mark_taken_loop (suc k) 1 (suc (suc k)) e (entry ∷ es)) (carried_lem k)
    ∙ mark_taken_loop-cons (suc k) 0 (suc k) (carried k) entry es

mark_taken_loop-tail :
    (k x : ℕ) (post : List ℕ)
    → mark_taken_loop (suc k) 0 (suc k) (carried k) (replicate (suc k) x ++ post)
      ≡ tail_entries k ++ post
mark_taken_loop-tail zero x post = unfold mark_taken_loop in refl
mark_taken_loop-tail (suc k) x post =
    mark_taken_loop-front k 0x81 x (replicate (suc k) x ++ post)
    ∙ ap (λ (l : List ℕ). 0x81 ∷ l) (mark_taken_loop-tail k x post)

-- At the front of `n + 1` blocks the loop writes an allocation of that size.
pub mark_taken_loop-run :
    (n x : ℕ) (post : List ℕ)
    → mark_taken_loop (suc n) 0 (suc n) (first_entry (suc n)) (replicate (suc n) x ++ post)
      ≡ run_entries n ++ post
mark_taken_loop-run zero x post = unfold mark_taken_loop in refl
mark_taken_loop-run (suc n) x post =
    ap (λ e. mark_taken_loop (suc (suc n)) 0 (suc (suc n)) e (replicate (suc (suc n)) x ++ post))
      many
    ∙ mark_taken_loop-front n 0xc1 x (replicate (suc n) x ++ post)
    ∙ ap (λ (l : List ℕ). 0xc1 ∷ l) (mark_taken_loop-tail n x post)
  where
    many : first_entry (suc (suc n)) ≡ 0xc1
    many = ground arith

mark_free_loop-cons :
    (n i x : ℕ) (es : List ℕ) → mark_free_loop n (suc i) (x ∷ es) ≡ x ∷ mark_free_loop n i es
unfolding mark_free_loop
mark_free_loop-cons zero i x es = refl
mark_free_loop-cons (suc n) i x es =
    let e : suc i + 1 ≡ suc (i + 1) = omega arith in
    rw (e, mark_free_loop-cons n (i + 1) x (set es i entry_free)) (ground arith)

pub mark_free_loop-append :
    (pre es : List ℕ) (n i : ℕ)
    → mark_free_loop n (length pre + i) (pre ++ es) ≡ pre ++ mark_free_loop n i es
mark_free_loop-append [] es n i = ap (λ a. mark_free_loop n a es) (omega arith)
mark_free_loop-append (x ∷ pre) es n i =
    let a : suc (length pre) + i ≡ suc (length pre + i) = omega arith in
    rw a (
      mark_free_loop-cons n (length pre + i) x (pre ++ es)
      ∙ ap (λ (l : List ℕ). x ∷ l) (mark_free_loop-append pre es n i))

-- One round at an entry that has a next.
mark_free_loop-front :
    (n : ℕ) (entry : ℕ) (es : List ℕ)
    → has_next_flag entry ≡ true
    → mark_free_loop (suc n) 0 (entry ∷ es) ≡ entry_free ∷ mark_free_loop n 0 es
unfolding mark_free_loop
mark_free_loop-front n entry es h = rw h (mark_free_loop-cons n 0 entry_free es)

mark_free_loop-tail :
    (k n : ℕ) (post : List ℕ)
    → k < n
    → mark_free_loop n 0 (tail_entries k ++ post) ≡ replicate (suc k) entry_free ++ post
mark_free_loop-tail k zero post h = absurd (omega arith)
mark_free_loop-tail zero (suc n) post h = unfold mark_free_loop in refl
mark_free_loop-tail (suc k) (suc n) post h =
    mark_free_loop-front n 0x81 (tail_entries k ++ post) refl
    ∙ ap (λ (l : List ℕ). entry_free ∷ l) (mark_free_loop-tail k n post (omega arith))

-- At the front of an allocation the loop frees it, and no more.
pub mark_free_loop-run :
    (k n : ℕ) (post : List ℕ)
    → k < n
    → mark_free_loop n 0 (run_entries k ++ post) ≡ replicate (suc k) entry_free ++ post
mark_free_loop-run k zero post h = absurd (omega arith)
mark_free_loop-run zero (suc n) post h = unfold mark_free_loop in refl
mark_free_loop-run (suc k) (suc n) post h =
    mark_free_loop-front n 0xc1 (tail_entries k ++ post) refl
    ∙ ap (λ (l : List ℕ). entry_free ∷ l) (mark_free_loop-tail k n post (omega arith))
