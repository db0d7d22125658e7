-- ===== src/Memory/Heap/Alloc.antt =====
-- The allocator as an operation on cells: an allocation takes the first gap that is long enough.
use cos.Prelude.{
  ℕ, zero, suc, ◌+◌, ◌-◌, ◌*◌, ◌%◌, ◌^◌, ◌≤◌, ◌<◌, ◌≡◌, refl, sym, ap, ◌∙◌, true, List, ◌∷◌, ◌++◌,
  arith, length, length-append, length-replicate, get_or, get_or-append, replicate, ok, done, ◌>>=◌,
}
use cos.Memory.Page.{page_size, word}
use cos.Memory.Heap.{
  is_first_flag, Heap, entry_free, heap_get_start_block, heap_malloc_blocks, heap_free, first_entry,
  mark_taken_loop, mark_free_loop,
}
use cos.Memory.Heap.Cells.{
  Cell, run, run_entries, encode, blocks, gaps, encode-append, encode-gaps, length-run_entries,
}
use cos.Memory.Heap.Mark.{
  mark_taken_loop-append, mark_taken_loop-run, mark_free_loop-append, mark_free_loop-run,
}
use cos.Memory.Heap.Scan.{FreeRun}
use cos.Memory.Heap.FirstFit.{get_start_block-FreeRun, get_start_block-fits}
use cos.Memory.Heap.Split.{split_at, FreeRun-replicate}
use cos.Memory.Heap.Calls.{with_entries, malloc_blocks-at, mark_blocks_free-first, free-at}

-- The heap's table stands for `cs`, and its region is page-aligned, lies above NULL and inside
-- the address space, and is small enough for the `int` in `heap_address_to_block`.
pub record IsHeap (h : Heap) (cs : List Cell) : Type 0 where
  pub entries : h.table.entries ≡ encode cs
  pub total : h.table.total ≡ blocks cs
  pub aligned : h.saddr % page_size ≡ 0
  pub above : 0 < h.saddr
  pub inside : h.saddr + blocks cs * page_size < word
  pub small : blocks cs * page_size ≤ 2 ^ 31

-- The entries of a row of gaps between two rows of cells.
encode-gaps_between :
    (pre post : List Cell) (n : ℕ)
    → encode (pre ++ (gaps n ++ post)) ≡ encode pre ++ (replicate n entry_free ++ encode post)
encode-gaps_between pre post n =
    encode-append pre (gaps n ++ post)
    ∙ ap (λ l. encode pre ++ l)
        (encode-append (gaps n) post ∙ ap (λ l. l ++ encode post) (encode-gaps n))

encode-run_between :
    (pre post : List Cell) (n : ℕ)
    → encode (pre ++ (run n ∷ post)) ≡ encode pre ++ (run_entries n ++ encode post)
encode-run_between pre post n = encode-append pre (run n ∷ post)

blocks-gaps_between :
    (pre post : List Cell) (n : ℕ)
    → blocks (pre ++ (gaps n ++ post)) ≡ blocks pre + (n + blocks post)
blocks-gaps_between pre post n = omega (
  arith,
  ap length (encode-gaps_between pre post n),
  length-append (encode pre) (replicate n entry_free ++ encode post),
  length-append (replicate n entry_free) (encode post),
  length-replicate n entry_free,
)

blocks-run_between :
    (pre post : List Cell) (n : ℕ)
    → blocks (pre ++ (run n ∷ post)) ≡ blocks pre + (n + 1 + blocks post)
blocks-run_between pre post n = omega (
  arith,
  ap length (encode-run_between pre post n),
  length-append (encode pre) (run_entries n ++ encode post),
  length-append (run_entries n) (encode post),
  length-run_entries n,
)

mark_taken_cells :
    (pre post : List Cell) (n : ℕ)
    → mark_taken_loop
        (suc n)
        (blocks pre)
        (blocks pre + suc n)
        (first_entry (suc n))
        (encode (pre ++ (gaps (suc n) ++ post)))
      ≡ encode (pre ++ (run n ∷ post))
mark_taken_cells pre post n =
    ap (λ es. mark_taken_loop (suc n) (blocks pre) (blocks pre + suc n) (first_entry (suc n)) es)
      (encode-gaps_between pre post (suc n))
    ∙ ap
        (λ i.
          mark_taken_loop (suc n) i (blocks pre + suc n) (first_entry (suc n))
            (encode pre ++ (replicate (suc n) entry_free ++ encode post)))
        (omega arith)
    ∙ mark_taken_loop-append (encode pre) (replicate (suc n) entry_free ++ encode post) (suc n) 0
        (suc n) (first_entry (suc n))
    ∙ ap (λ l. encode pre ++ l) (mark_taken_loop-run n entry_free (encode post))
    ∙ sym (encode-run_between pre post n)

mark_free_cells :
    (pre post : List Cell) (n rounds : ℕ)
    → n < rounds
    → mark_free_loop rounds (blocks pre) (encode (pre ++ (run n ∷ post)))
      ≡ encode (pre ++ (gaps (suc n) ++ post))
mark_free_cells pre post n rounds lt =
    ap (λ es. mark_free_loop rounds (blocks pre) es) (encode-run_between pre post n)
    ∙ ap (λ i. mark_free_loop rounds i (encode pre ++ (run_entries n ++ encode post))) (omega arith)
    ∙ mark_free_loop-append (encode pre) (run_entries n ++ encode post) rounds 0
    ∙ ap (λ l. encode pre ++ l) (mark_free_loop-run n rounds (encode post) lt)
    ∙ sym (encode-gaps_between pre post (suc n))

-- The table after an allocation or a free, at the places of the cells.
IsHeap-with_entries :
    (h : Heap) (cs ds : List Cell)
    → IsHeap h cs
    → blocks ds ≡ blocks cs
    → IsHeap (with_entries h (encode ds)) ds
IsHeap-with_entries h cs ds v e = record {
  entries = refl;
  total = v.total ∙ sym e;
  aligned = v.aligned;
  above = v.above;
  inside = rw e v.inside;
  small = rw e v.small;
}

run_entries-first : (m : ℕ) (es : List ℕ) → is_first_flag (get_or (run_entries m ++ es) 0 0) ≡ true
run_entries-first zero es = refl
run_entries-first (suc m) es = refl

module _ (h : Heap) (pre post : List Cell) (n : ℕ) where
  -- Allocating `n + 1` blocks where the loop has found a gap of that length.
  malloc_blocks-gap :
      IsHeap h (pre ++ (gaps (suc n) ++ post))
      → heap_get_start_block h (suc n) ≡ ok (blocks pre)
      → (heap_malloc_blocks h (suc n)
          ≡ done
              (h.saddr + blocks pre * page_size, with_entries h (encode (pre ++ (run n ∷ post)))))
        × IsHeap (with_entries h (encode (pre ++ (run n ∷ post)))) (pre ++ (run n ∷ post))
  malloc_blocks-gap v eq =
      let size = blocks-gaps_between pre post (suc n) in
      let marked : mark_taken_loop (suc n) (blocks pre) (blocks pre + suc n) (first_entry (suc n))
            h.table.entries
          ≡ encode (pre ++ (run n ∷ post)) =
        rw v.entries (mark_taken_cells pre post n) in
      (
        malloc_blocks-at h (blocks pre) (suc n) (omega arith) (omega (arith, v.total, size))
              (omega (arith, v.inside, size)) eq
            ∙ ap (λ es. done (h.saddr + blocks pre * page_size, with_entries h es)) marked,
        IsHeap-with_entries h _ _ v (omega (arith, size, blocks-run_between pre post n)),
      )

  first-run :
      (m : ℕ) → is_first_flag (get_or (encode (pre ++ (run m ∷ post))) (blocks pre) 0) ≡ true
  first-run m =
      ap (λ es. is_first_flag (get_or es (blocks pre) 0)) (encode-run_between pre post m)
      ∙ ap (λ i. is_first_flag (get_or (encode pre ++ (run_entries m ++ encode post)) i 0))
          (omega arith)
      ∙ ap is_first_flag (get_or-append (encode pre) (run_entries m ++ encode post) 0 0)
      ∙ run_entries-first m (encode post)

  -- Freeing the address of an allocation of a well-formed heap frees its blocks, and no others;
  -- the heap stays well formed.
  pub free-run :
      IsHeap h (pre ++ (run n ∷ post))
      → (heap_free h (h.saddr + blocks pre * page_size)
          ≡ done (with_entries h (encode (pre ++ (gaps (suc n) ++ post)))))
        × IsHeap
            (with_entries h (encode (pre ++ (gaps (suc n) ++ post))))
            (pre ++ (gaps (suc n) ++ post))
  free-run v =
      let size = blocks-run_between pre post n in
      let t : blocks pre + (n + 1 + blocks post) ≡ h.table.total = omega (arith, v.total, size) in
      let freed : mark_free_loop (h.table.total - blocks pre) (blocks pre) h.table.entries
          ≡ encode (pre ++ (gaps (suc n) ++ post)) =
        rw v.entries (mark_free_cells pre post n (h.table.total - blocks pre) (omega arith)) in
      (
        free-at h (blocks pre) v.aligned (omega (arith, v.inside, size))
              (omega (arith, v.small, size))
            ∙ mark_blocks_free-first h (blocks pre) (omega arith) (rw v.entries (first-run n))
            ∙ ap (λ es. done (with_entries h es)) freed,
        IsHeap-with_entries h _ _ v (omega (arith, size, blocks-gaps_between pre post (suc n))),
      )

whole : (h : Heap) (cs : List Cell) → IsHeap h cs → h.table.total ≡ length h.table.entries
whole h cs v = v.total ∙ ap length (sym v.entries)

-- What an allocation of `n + 1` blocks does to the cells.
abbrev pub Allocated : Heap → List Cell → (n limit : ℕ) → Type 0
Allocated h cs n limit =
    (pre : List Cell) × (post : List Cell) × (cs ≡ pre ++ (gaps (suc n) ++ post))
    × (blocks pre ≤ limit)
    × (heap_malloc_blocks h (suc n)
        ≡ done (h.saddr + blocks pre * page_size, with_entries h (encode (pre ++ (run n ∷ post)))))
    × IsHeap (with_entries h (encode (pre ++ (run n ∷ post)))) (pre ++ (run n ∷ post))

-- With the start block known to fit, `heap_malloc_blocks` turns the gap there into an allocation.
malloc_blocks-start :
    (h : Heap) (cs : List Cell) (n b limit : ℕ)
    → IsHeap h cs
    → heap_get_start_block h (suc n) ≡ ok b
    → b + suc n ≤ blocks cs
    → b ≤ limit
    → Allocated h cs n limit
malloc_blocks-start h cs n b limit v eq fits le =
    let (_, free) = get_start_block-FreeRun h (whole h cs v) (suc n) b (omega arith) eq in
    let free' : FreeRun (encode cs) b (suc n) = rw v.entries at free in
    let (pre, post, e, at) = split_at cs b (suc n) (omega arith) free' fits in
    let (eq', v') = malloc_blocks-gap h pre post n (rw e at v) (eq ∙ ap ok (sym at)) in
    (pre, post, e, rw at le, eq', v')

-- If the cells of a well-formed heap hold a gap of `n + 1` blocks, `heap_malloc_blocks` of `n +
-- 1` turns the first such gap into an allocation, returns its address, and changes nothing else;
-- the heap stays well formed.
pub malloc_blocks-first_fit :
    (h : Heap) (pre₀ post₀ : List Cell) (n : ℕ)
    → IsHeap h (pre₀ ++ (gaps (suc n) ++ post₀))
    → Allocated h (pre₀ ++ (gaps (suc n) ++ post₀)) n (blocks pre₀)
malloc_blocks-first_fit h pre₀ post₀ n v =
    let size = blocks-gaps_between pre₀ post₀ (suc n) in
    let table = v.entries ∙ encode-gaps_between pre₀ post₀ (suc n) in
    let whole' = whole h (pre₀ ++ (gaps (suc n) ++ post₀)) v in
    let (b, eq, le, fits) =
      get_start_block-fits h whole' (suc n) (blocks pre₀) (omega arith)
        (rw table (FreeRun-replicate (encode pre₀) (encode post₀) (suc n)))
        (omega (arith, whole', v.total, size)) in
    malloc_blocks-start h (pre₀ ++ (gaps (suc n) ++ post₀)) n b (blocks pre₀) v eq
      (omega (arith, whole', v.total)) le

-- Freeing what `heap_malloc_blocks` has just returned, from a gap of a well-formed heap,
-- restores the heap.
pub free-malloc_blocks :
    (h : Heap) (pre₀ post₀ : List Cell) (n : ℕ)
    → IsHeap h (pre₀ ++ (gaps (suc n) ++ post₀))
    → (heap_malloc_blocks h (suc n) >>= λ r. heap_free r.1 r.0) ≡ done h
free-malloc_blocks h pre₀ post₀ n v =
    let (pre, post, e, _, eq, v') = malloc_blocks-first_fit h pre₀ post₀ n v in
    let freed = (free-run (with_entries h (encode (pre ++ (run n ∷ post)))) pre post n v').0 in
    let restored : encode (pre ++ (gaps (suc n) ++ post)) ≡ h.table.entries =
      sym (v.entries ∙ ap encode e) in
    ap (λ m. m >>= λ r. heap_free r.1 r.0) eq ∙ freed ∙ ap (λ es. done (with_entries h es)) restored
