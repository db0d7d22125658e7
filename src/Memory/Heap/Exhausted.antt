-- ===== src/Memory/Heap/Exhausted.antt =====
-- `heap_malloc_blocks` when no run of free blocks is long enough.
use native.Mathlib.Decide.{ℕ_discrete, dec_lt}
use cos.Prelude.{
  ℕ, ◌+◌, ◌-◌, ◌≤◌, ◌<◌, ◌≡◌, ◌≢◌, refl, sym, ap, ◌∙◌, false, Option, none, some, List, [], ◌∷◌,
  ◌++◌, arith, length, length-append, get_or, get_or-append, ok, done, panic, ltb, leb, ◌&&◌,
  Option-cases, Bool-cases, ◌==◌, if◌then◌else◌, inl, inr, ap₂, ◌⊎◌,
}
use cos.Memory.Page.{paging_align_value_to_upper_page}
use cos.Memory.Heap.{
  Heap, start_block_loop, heap_table_entry_type, entry_free, block_start, heap_get_start_block,
  heap_malloc, heap_malloc_blocks, heap_mark_blocks_taken, heap_ensure_block_bounds,
}
use cos.Memory.Heap.Scan.{FreeRun, loop-taken, loop-full, loop-more}
use cos.Memory.Heap.FirstFit.{get_start_block-FreeRun, get_start_block-some, get_start_block-none}
use cos.Memory.Heap.Calls.{malloc_blocks-none}

-- No `n` blocks in a row are free.
abbrev pub NoFit : List ℕ → ℕ → Type 0
NoFit es n = (c : ℕ) → c + n ≤ length es → ¬ FreeRun es c n

-- The loop keeps the run that it is in at the end of the table.
loop-last :
    (xs : List ℕ) (e n i bc : ℕ) (bs : Option ℕ)
    → heap_table_entry_type e ≡ entry_free
    → start_block_loop (xs ++ (e ∷ [])) n i bc bs ≢ none
loop-last [] e n i bc bs free eq = elim (ℕ_discrete (bc + 1) n) [
  | yes full ↦ let x = sym (loop-full e [] n i bc bs free full) ∙ eq in cc
  | no more ↦
      let x : some (block_start bs i) ≡ none =
        unfold start_block_loop in sym (loop-more e [] n i bc bs free more) ∙ eq in
      cc
]
loop-last (x ∷ xs) e n i bc bs free eq = elim (ℕ_discrete (heap_table_entry_type x) entry_free) [
  | no taken ↦
      loop-last xs e n (i + 1) 0 none free
        (sym (loop-taken x (xs ++ (e ∷ [])) n i bc bs taken) ∙ eq)
  | yes head ↦ elim (ℕ_discrete (bc + 1) n) [
    | yes full ↦ let y = sym (loop-full x (xs ++ (e ∷ [])) n i bc bs head full) ∙ eq in cc
    | no more ↦
        loop-last xs e n (i + 1) (bc + 1) (some (block_start bs i)) free
          (sym (loop-more x (xs ++ (e ∷ [])) n i bc bs head more) ∙ eq)
  ]
]

-- A run past the end of the table, and one of no blocks, fail the ASSERT of the marking.
malloc_blocks-out_of_bounds :
    (h : Heap) (b n : ℕ)
    → heap_get_start_block h n ≡ ok b
    → (h.table.total < b + n) ⊎ (n ≡ 0)
    → heap_malloc_blocks h n ≡ panic
unfolding heap_malloc_blocks heap_mark_blocks_taken heap_ensure_block_bounds
malloc_blocks-out_of_bounds h b n eq out =
    let t : (ltb b h.table.total && leb (b + n) h.table.total && ltb b (b + n)) ≡ false =
      ground arith in
    rw (eq, heap_malloc_blocks, heap_mark_blocks_taken, t)

module _ (h : Heap) (xs : List ℕ) (e n : ℕ) (table : h.table.entries ≡ xs ++ (e ∷ []))
    (whole : h.table.total ≡ length h.table.entries) (positive : 0 < n)
    (no_fit : NoFit h.table.entries n) where
  past : (b : ℕ) → heap_get_start_block h n ≡ ok b → h.table.total < b + n
  past b eq = elim (dec_lt h.table.total (b + n)) [
    | yes lt ↦ lt
    | no ge ↦
        let (_, run) = get_start_block-FreeRun h whole n b positive eq in
        absurd (no_fit b (omega arith) run)
  ]

  -- The run that the loop settles on reaches the last block.
  last_free : (b : ℕ) → heap_get_start_block h n ≡ ok b → heap_table_entry_type e ≡ entry_free
  last_free b eq =
      let (lt, run) = get_start_block-FreeRun h whole n b positive eq in
      let len : length h.table.entries ≡ length xs + 1 =
        ap length table ∙ length-append xs (e ∷ []) in
      let far = past b eq in
      let at : b + (length xs - b) ≡ length xs + 0 = omega arith in
      let read : get_or h.table.entries (b + (length xs - b)) entry_free ≡ e =
        ap₂ (λ es i. get_or es i entry_free) table at ∙ get_or-append xs (e ∷ []) 0 entry_free in
      ap heap_table_entry_type (sym read) ∙ run (length xs - b) (omega arith)

  exhausted-free : heap_table_entry_type e ≡ entry_free → heap_malloc_blocks h n ≡ panic
  exhausted-free free = elim (Option-cases (start_block_loop h.table.entries n 0 0 none)) [
    | inl no_run ↦ absurd (
        loop-last xs _ n 0 0 none free
          (ap (λ l. start_block_loop l n 0 0 none) (sym table) ∙ no_run))
    | inr (b, found) ↦
        let eq = get_start_block-some h whole n b found in
        malloc_blocks-out_of_bounds h b n eq (inl (past b eq))
  ]

  exhausted-taken : heap_table_entry_type e ≢ entry_free → heap_malloc_blocks h n ≡ done (0, h)
  exhausted-taken taken = elim (Option-cases (start_block_loop h.table.entries n 0 0 none)) [
    | inl no_run ↦ malloc_blocks-none h n (get_start_block-none h whole n no_run)
    | inr (b, found) ↦ absurd (taken (last_free b (get_start_block-some h whole n b found)))
  ]

  -- With no run of `n` free blocks, `heap_malloc_blocks` returns NULL and changes nothing if the
  -- table's last block is taken, and panics if it is free.
  pub malloc_blocks-exhausted :
      heap_malloc_blocks h n
      ≡ (if heap_table_entry_type e == entry_free then panic else done (0, h))
  malloc_blocks-exhausted = elim (Bool-cases (heap_table_entry_type e == entry_free)) [
    | inl t ↦ rw t (exhausted-free (ground arith))
    | inr f ↦ rw f (exhausted-taken (ground arith))
  ]

heap_malloc-no_bytes : (h : Heap) → heap_malloc h 0 ≡ heap_malloc_blocks h 0
unfolding heap_malloc paging_align_value_to_upper_page
heap_malloc-no_bytes h = refl

-- A request of no bytes panics while the table's last block is free.
pub heap_malloc-zero :
    (h : Heap) (xs : List ℕ) (e : ℕ)
    → h.table.entries ≡ xs ++ (e ∷ [])
    → h.table.total ≡ length h.table.entries
    → heap_table_entry_type e ≡ entry_free
    → heap_malloc h 0 ≡ panic
heap_malloc-zero h xs e table whole free =
    heap_malloc-no_bytes h ∙ (elim (Option-cases (start_block_loop h.table.entries 0 0 0 none)) [
      | inl no_run ↦ absurd (
          loop-last xs e 0 0 0 none free
            (ap (λ l. start_block_loop l 0 0 0 none) (sym table) ∙ no_run))
      | inr (b, found) ↦
          malloc_blocks-out_of_bounds h b 0 (get_start_block-some h whole 0 b found) (inr refl)
    ])
