-- ===== src/Memory/Heap/Cells.antt =====
-- What a heap table stands for: a row of cells, each a free block or an allocation of some blocks.
use cos.Prelude.{
  ℕ, zero, suc, ◌+◌, ◌≡◌, refl, sym, ap, ◌∙◌, List, [], ◌∷◌, ◌++◌, append_assoc, arith, length,
  replicate,
}
use cos.Memory.Heap.{entry_free}

-- `run n` is an allocation of `n + 1` blocks.
pub data Cell : Type 0 where
  gap : Cell
  run : ℕ → Cell

-- The entries behind the first of an allocation: `n` that have a next, and the last.
abbrev pub tail_entries : ℕ → List ℕ
tail_entries zero = 0x01 ∷ []
tail_entries (suc n) = 0x81 ∷ tail_entries n

abbrev pub run_entries : ℕ → List ℕ
run_entries zero = 0x41 ∷ []
run_entries (suc n) = 0xc1 ∷ tail_entries n

abbrev pub encode : List Cell → List ℕ
encode [] = []
encode (gap ∷ cs) = entry_free ∷ encode cs
encode (run n ∷ cs) = run_entries n ++ encode cs

-- The blocks that a row of cells covers.
abbrev pub blocks : List Cell → ℕ
blocks cs = length (encode cs)

abbrev pub gaps : ℕ → List Cell
gaps n = replicate n gap

pub encode-append : (cs ds : List Cell) → encode (cs ++ ds) ≡ encode cs ++ encode ds
encode-append [] ds = refl
encode-append (gap ∷ cs) ds = ap (λ (l : List ℕ). entry_free ∷ l) (encode-append cs ds)
encode-append (run n ∷ cs) ds =
    ap (λ l. run_entries n ++ l) (encode-append cs ds)
    ∙ sym (append_assoc (run_entries n) (encode cs) (encode ds))

pub encode-gaps : (n : ℕ) → encode (gaps n) ≡ replicate n entry_free
encode-gaps zero = refl
encode-gaps (suc n) = ap (λ (l : List ℕ). entry_free ∷ l) (encode-gaps n)

pub length-tail_entries : (n : ℕ) → length (tail_entries n) ≡ n + 1
length-tail_entries zero = omega arith
length-tail_entries (suc n) = omega (arith, length-tail_entries n)

pub length-run_entries : (n : ℕ) → length (run_entries n) ≡ n + 1
length-run_entries zero = omega arith
length-run_entries (suc n) = omega (arith, length-tail_entries n)
