-- ===== src/Memory/Heap/Split.antt =====
-- Free runs of the table, found among its cells.
use cos.Prelude.{
  ℕ, zero, suc, ◌+◌, ◌%◌, ◌≤◌, ◌<◌, ◌≡◌, ◌≢◌, refl, ap, ◌∙◌, List, [], ◌∷◌, ◌++◌, arith, length,
  length-append, get_or, get_or-append, replicate,
}
use cos.Memory.Heap.{heap_table_entry_type, entry_free}
use cos.Memory.Heap.Cells.{
  Cell, gap, run, tail_entries, run_entries, encode, blocks, gaps, length-run_entries,
}
use cos.Memory.Heap.Scan.{FreeRun, FreeRun-tail, FreeRun-shrink}

abbrev AllTaken : List ℕ → Type 0
AllTaken [] = Unit
AllTaken (e ∷ es) = (heap_table_entry_type e ≢ entry_free) × AllTaken es

tail_entries-taken : (n : ℕ) → AllTaken (tail_entries n)
unfolding heap_table_entry_type
tail_entries-taken zero = (omega arith, tt)
tail_entries-taken (suc n) = (omega arith, tail_entries-taken n)

run_entries-taken : (n : ℕ) → AllTaken (run_entries n)
unfolding heap_table_entry_type
run_entries-taken zero = (omega arith, tt)
run_entries-taken (suc n) = (omega arith, tail_entries-taken n)

-- A free run starts behind entries that are taken.
FreeRun-past :
    (xs es : List ℕ) (b n : ℕ)
    → AllTaken xs
    → 0 < n
    → FreeRun (xs ++ es) b n
    → (c : ℕ) × (b ≡ length xs + c) × FreeRun es c n
FreeRun-past [] es b n taken pos h = (b, omega arith, h)
FreeRun-past (x ∷ xs) es zero n taken pos h = absurd (taken.0 (h 0 pos))
FreeRun-past (x ∷ xs) es (suc b) n taken pos h =
    let (c, e, h') = FreeRun-past xs es b n taken.1 pos (FreeRun-tail x (xs ++ es) b n h) in
    (c, omega arith, h')

split_front :
    (cs : List Cell) (n : ℕ)
    → FreeRun (encode cs) 0 n
    → n ≤ blocks cs
    → (post : List Cell) × (cs ≡ gaps n ++ post)
split_front cs zero h le = (cs, refl)
split_front [] (suc n) h le = absurd (omega arith)
split_front (gap ∷ cs) (suc n) h le =
    let (post, e) =
      split_front cs n (FreeRun-shrink entry_free (encode cs) (suc n) n h (omega arith))
        (omega arith) in
    (post, ap (λ (l : List Cell). gap ∷ l) e)
split_front (run k ∷ cs) (suc n) h le =
    let (c, e, _) =
      FreeRun-past (run_entries k) (encode cs) 0 (suc n) (run_entries-taken k) (omega arith) h in
    absurd (omega (arith, length-run_entries k))

-- A run of free blocks in the table is a row of gaps among the cells.
pub split_at :
    (cs : List Cell) (b n : ℕ)
    → 0 < n
    → FreeRun (encode cs) b n
    → b + n ≤ blocks cs
    → (pre : List Cell) × (post : List Cell) × (cs ≡ pre ++ (gaps n ++ post)) × (blocks pre ≡ b)
split_at cs zero n pos h le =
    let (post, e) = split_front cs n h (omega arith) in ([], post, e, refl)
split_at [] (suc b) n pos h le = absurd (omega arith)
split_at (gap ∷ cs) (suc b) n pos h le =
    let (pre, post, e, l) =
      split_at cs b n pos (FreeRun-tail entry_free (encode cs) b n h) (omega arith) in
    (gap ∷ pre, post, ap (λ (l : List Cell). gap ∷ l) e, ap suc l)
split_at (run k ∷ cs) (suc b) n pos h le =
    let (c, e, h') =
      FreeRun-past (run_entries k) (encode cs) (suc b) n (run_entries-taken k) pos h in
    let (pre, post, e', l) =
      split_at cs c n pos h' (omega (arith, length-append (run_entries k) (encode cs))) in
    (
      run k ∷ pre,
      post,
      ap (λ (l : List Cell). run k ∷ l) e',
      omega (arith, length-append (run_entries k) (encode pre)),
    )

get_or-replicate :
    (n k : ℕ) (ys : List ℕ)
    → k < n
    → get_or (replicate n entry_free ++ ys) k entry_free ≡ entry_free
get_or-replicate zero k ys lt = absurd (omega arith)
get_or-replicate (suc n) zero ys lt = refl
get_or-replicate (suc n) (suc k) ys lt = get_or-replicate n k ys (omega arith)

-- A row of gaps is a free run.
pub FreeRun-replicate :
    (xs ys : List ℕ) (n : ℕ) → FreeRun (xs ++ (replicate n entry_free ++ ys)) (length xs) n
unfolding heap_table_entry_type
FreeRun-replicate xs ys n k lt =
    ap (λ e. e % 16)
      (get_or-append xs (replicate n entry_free ++ ys) k entry_free ∙ get_or-replicate n k ys lt)
