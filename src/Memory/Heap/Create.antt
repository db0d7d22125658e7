-- ===== src/Memory/Heap/Create.antt =====
-- `heap_create`, and requests of zero bytes.
use cos.Prelude.{
  ℕ, zero, suc, ◌+◌, ◌-◌, ◌*◌, ◌/◌, ◌%◌, ◌^◌, ◌≤◌, ◌<◌, ◌≡◌, ◌≢◌, refl, sym, ap, ◌∙◌, List, [], ◌∷◌,
  ◌++◌, append-nil, arith, length, length-replicate, drop, replicate, ok, err, einvarg, ◌⊎◌,
}
use cos.Memory.Page.{page_size, word, paging_is_address_aligned}
use cos.Memory.Heap.{HeapTable, Heap, entry_free, heap_create, heap_table_validate, cleared}
use cos.Memory.Heap.Cells.{encode, blocks, gaps, encode-gaps}
use cos.Memory.Heap.Alloc.{IsHeap}

drop-length : (xs : List ℕ) (n : ℕ) → n ≡ length xs → drop n xs ≡ []
drop-length [] zero e = refl
drop-length [] (suc n) e = refl
drop-length (x ∷ xs) zero e = absurd (omega arith)
drop-length (x ∷ xs) (suc n) e = drop-length xs n (omega arith)

cleared-gaps :
    (t : HeapTable) → t.total ≡ length t.entries → (cleared t).entries ≡ encode (gaps t.total)
cleared-gaps t e =
    ap (λ l. replicate t.total entry_free ++ l) (drop-length t.entries t.total e)
    ∙ append-nil (replicate t.total entry_free)
    ∙ sym (encode-gaps t.total)

blocks-gaps : (n : ℕ) → blocks (gaps n) ≡ n
blocks-gaps n = ap length (encode-gaps n) ∙ length-replicate n entry_free

-- Given a page-aligned region and a table with an entry for each of its pages, `heap_create`
-- succeeds and leaves a heap of free blocks only, whatever the table held before.
pub heap_create-gaps :
    (h : Heap) (ptr end : ℕ) (t : HeapTable)
    → ptr % page_size ≡ 0
    → end % page_size ≡ 0
    → 0 < ptr
    → end ≡ ptr + t.total * page_size
    → end < word
    → t.total * page_size ≤ 2 ^ 31
    → t.total ≡ length t.entries
    → (h' : Heap) × (heap_create h ptr end t ≡ (ok tt, h')) × IsHeap h' (gaps t.total)
unfolding heap_create heap_table_validate paging_is_address_aligned
heap_create-gaps h ptr end t ap' ae above size inside small whole =
    let d : (end + word - ptr) % word ≡ t.total * page_size = omega arith in
    let q : (end + word - ptr) % word / page_size ≡ t.total = omega arith in
    (
      record { table = cleared t; saddr = ptr },
      ground arith,
      record {
        entries = cleared-gaps t whole;
        total = sym (blocks-gaps t.total);
        aligned = ap';
        above = above;
        inside = rw (blocks-gaps t.total) (omega arith);
        small = rw (blocks-gaps t.total) small;
      },
    )

-- A table with another number of entries than the region has pages is refused, and so is a region
-- that is not page-aligned, which leaves `*heap` alone.
pub heap_create-refuses :
    (h : Heap) (ptr end : ℕ) (t : HeapTable)
    → ((ptr % page_size ≢ 0) ⊎ (end % page_size ≢ 0) → heap_create h ptr end t ≡ (err einvarg, h))
      × (t.total ≢ (end + word - ptr) % word / page_size
          → (heap_create h ptr end t).0 ≡ err einvarg)
unfolding heap_create heap_table_validate paging_is_address_aligned
heap_create-refuses h ptr end t = (ground arith, ground arith)
