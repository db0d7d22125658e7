-- ===== src/Memory/Heap/Scan.antt =====
-- Runs of free entries, and one round of the loop of `heap_get_start_block`.
use cos.Prelude.{
  ℕ, zero, suc, ◌+◌, ◌≤◌, ◌<◌, ◌≡◌, ◌≢◌, Option, none, some, List, ◌∷◌, arith, get_or,
}
use cos.Memory.Heap.{start_block_loop, heap_table_entry_type, entry_free, block_start}

-- The `n` entries from index `b` on, those inside the table, are free.
abbrev pub FreeRun : List ℕ → ℕ → ℕ → Type 0
FreeRun es b n = (k : ℕ) → k < n → heap_table_entry_type (get_or es (b + k) entry_free) ≡ entry_free

pub FreeRun-cons : (e : ℕ) (es : List ℕ) (b n : ℕ) → FreeRun es b n → FreeRun (e ∷ es) (suc b) n
FreeRun-cons e es b n h k lt = let s : suc b + k ≡ suc (b + k) = omega arith in rw s (h k lt)

pub FreeRun-tail : (e : ℕ) (es : List ℕ) (b n : ℕ) → FreeRun (e ∷ es) (suc b) n → FreeRun es b n
FreeRun-tail e es b n h k lt = let s : suc b + k ≡ suc (b + k) = omega arith in rw s at (h k lt)

pub FreeRun-grow :
    (e : ℕ) (es : List ℕ) (n m : ℕ)
    → heap_table_entry_type e ≡ entry_free
    → FreeRun es 0 n
    → m ≤ n + 1
    → FreeRun (e ∷ es) 0 m
FreeRun-grow e es n m f h le zero lt = f
FreeRun-grow e es n m f h le (suc k) lt =
    let s : 0 + suc k ≡ suc (0 + k) = omega arith in rw s (h k (omega arith))

pub FreeRun-shrink :
    (e : ℕ) (es : List ℕ) (n m : ℕ) → FreeRun (e ∷ es) 0 n → suc m ≤ n → FreeRun es 0 m
FreeRun-shrink e es n m h le k lt =
    let s : 0 + suc k ≡ suc (0 + k) = omega arith in rw s at (h (suc k) (omega arith))

-- One round of the loop.
module _ (e : ℕ) (es : List ℕ) (n i bc : ℕ) (bs : Option ℕ) where
  pub loop-taken :
      heap_table_entry_type e ≢ entry_free
      → start_block_loop (e ∷ es) n i bc bs ≡ start_block_loop es n (i + 1) 0 none
  unfolding start_block_loop
  loop-taken h = ground arith

  pub loop-full :
      heap_table_entry_type e ≡ entry_free
      → bc + 1 ≡ n
      → start_block_loop (e ∷ es) n i bc bs ≡ some (block_start bs i)
  unfolding start_block_loop
  loop-full h k = ground arith

  pub loop-more :
      heap_table_entry_type e ≡ entry_free
      → bc + 1 ≢ n
      → start_block_loop (e ∷ es) n i bc bs
        ≡ start_block_loop es n (i + 1) (bc + 1) (some (block_start bs i))
  unfolding start_block_loop
  loop-more h k = ground arith
