-- ===== src/Fs/Fat16/Directory/Count.antt =====
-- The count of the items of a directory against the bytes on the disk.
use cos.Prelude.{
  ℕ, zero, suc, ◌+◌, ◌*◌, ◌%◌, ◌^◌, ◌<◌, ◌≡◌, ◌≢◌, refl, ap, ◌∙◌, arith, true, false, some, ◌==◌,
  if◌then◌else◌, ok, done, ◌>>=◌, pos,
}
use cos.Fs.DiskStream.{sector_size, DiskStream}
use cos.Fs.DiskStream.Read.{at, byte_at, bytes_from}
use cos.Fs.Fat16.Private.{FatPrivate, sizeof_item, fat16_sector_to_absolute}
use cos.Fs.Fat16.Streams.{stream_read-at, stream_seek-at}
use cos.Fs.Fat16.Directory.{
  blank, unused, Counting, count_item, count_items, max_items, fat16_get_total_items_for_directory,
}

module _ (primary : ℕ) (sector : ℕ → ℕ → ℕ) where
  -- `n` items from a position on that are not blank, and a blank one behind them.
  abbrev pub IsEntries : ℕ → ℕ → Type 0
  IsEntries zero p = byte_at primary sector p ≡ blank
  IsEntries (suc n) p = (byte_at primary sector p ≢ blank) × IsEntries n (p + sizeof_item)

  -- Those of them that are in use, and `i` more.
  abbrev pub in_use : ℕ → ℕ → ℕ → ℕ
  in_use zero p i = i
  in_use (suc n) p i =
      in_use n (p + sizeof_item) (if byte_at primary sector p == unused then i else i + 1)

  module _ (again : DiskStream → ℕ → Counting) (i p : ℕ) where
    count_item-blank :
        byte_at primary sector p ≡ blank
        → count_item again i
            (ok tt, bytes_from primary sector sizeof_item p, at primary sector (p + sizeof_item))
          ≡ done (pos i, at primary sector (p + sizeof_item))
    unfolding count_item
    count_item-blank e =
        let t : (byte_at primary sector p == blank) ≡ true = ground arith in rw (t, count_item)

    count_item-further :
        byte_at primary sector p ≢ blank
        → count_item again i
            (ok tt, bytes_from primary sector sizeof_item p, at primary sector (p + sizeof_item))
          ≡ again
              (at primary sector (p + sizeof_item))
              (if byte_at primary sector p == unused then i else i + 1)
    unfolding count_item
    count_item-further ne =
        let t : (byte_at primary sector p == blank) ≡ false = ground arith in rw (t, count_item)

  count_items-in_use :
      (fuel n p i : ℕ)
      → n < fuel
      → p + suc n * sizeof_item < 2 ^ 31
      → IsEntries n p
      → count_items primary sector fuel (at primary sector p) i
        ≡ done (pos (in_use n p i), at primary sector (p + suc n * sizeof_item))
  unfolding count_items
  count_items-in_use zero n p i lt fits h = absurd (omega arith)
  count_items-in_use (suc k) zero p i lt fits h =
      ap (λ r. r >>= count_item (count_items primary sector k) i)
        (stream_read-at primary sector p sizeof_item (omega arith))
      ∙ count_item-blank (count_items primary sector k) i p h
      ∙ ap (λ q. done (pos i, at primary sector q)) (omega arith)
  count_items-in_use (suc k) (suc n) p i lt fits h =
      ap (λ r. r >>= count_item (count_items primary sector k) i)
        (stream_read-at primary sector p sizeof_item (omega arith))
      ∙ count_item-further (count_items primary sector k) i p h.0
      ∙ count_items-in_use k n (p + sizeof_item) _ (omega arith) (omega arith) h.1
      ∙ ap (λ q. done (pos (in_use (suc n) p i), at primary sector q)) (omega arith)

  -- The count of the items of the directory at a sector ends at the first blank item and is the number
  -- of those before it that are in use; the stream of directories stands behind the blank item, and no
  -- other data changes. The directory with its blank item ends below byte 2^31.
  pub fat16_get_total_items_for_directory-in_use :
      (private : FatPrivate) (q start n : ℕ)
      → private.directory_stream ≡ some (at primary sector q)
      → start * sector_size + suc n * sizeof_item < 2 ^ 31
      → IsEntries n (start * sector_size)
      → fat16_get_total_items_for_directory primary sector private start
        ≡ done (
          pos (in_use n (start * sector_size) 0),
          record private {
            directory_stream = some (at primary sector (start * sector_size + suc n * sizeof_item));
          },
        )
  unfolding fat16_get_total_items_for_directory fat16_sector_to_absolute
  fat16_get_total_items_for_directory-in_use private q start n e fits h =
      let p = start * sector_size in
      let m : p % 2 ^ 32 ≡ p = omega arith in
      rw
        (
          e,
          m,
          stream_seek-at primary sector q p (omega arith),
          count_items-in_use max_items n p 0 (omega arith) fits h,
        )
        refl
