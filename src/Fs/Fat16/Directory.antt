-- ===== src/Fs/Fat16/Directory.antt =====
-- Directories of the FAT16 driver: counting their items, and the root directory. Allocation succeeds.
pub mod Count
pub mod Tests
use cos.Prelude.{
  ℕ, zero, suc, ◌+◌, ◌*◌, ◌/◌, ◌^◌, Bool, true, false, not, some, List, ◌==◌, if◌then◌else◌, Result,
  ok, err, Run, done, wild, ◌>>=◌, ℤ, pos, neg, eio,
}
use Prim.Native.Nat.{bit_and}
use cos.Fs.DiskStream.{sector_size, DiskStream}
use cos.Fs.Fat16.Private.{
  FatHeader, FatDirectoryItem, FatPrivate, u8, sizeof_item, attribute, fat_copies, sectors_per_fat,
  reserved_sectors, root_dir_entries, fat16_sector_to_absolute, stream_seek, stream_read,
}

-- The marks in the first byte of a name.
abbrev pub blank : ℕ
blank = 0x00

abbrev pub unused : ℕ
unused = 0xE5

-- FAT_FILE_SUBDIRECTORY.
unfoldable pub is_subdirectory : FatDirectoryItem → Bool
is_subdirectory item = not (bit_and (attribute item) 0x10 == 0)

abbrev pub Counting : Type 0
Counting = Run (ℤ × DiskStream)

-- One round from the item read on: the rounds after it, from a count, are given.
unfoldable pub count_item :
    (DiskStream → ℕ → Counting) → ℕ → Result (Unit {0}) × List ℕ × DiskStream → Counting
count_item again i (err e, item, stream) = done (neg eio, stream)
count_item again i (ok u, item, stream) = elim (u8 item 0 == blank) [
  | true ↦ done (pos i, stream)
  | false ↦ again stream (if u8 item 0 == unused then i else i + 1)
]

-- The items of which an `int` can count the bytes: after so many rounds the position of the stream has
-- left the `int`, wherever the directory begins, and the read before was `wild`.
abbrev pub max_items : ℕ
max_items = 2 ^ 26

module _ (primary : ℕ) (sector : ℕ → ℕ → ℕ) where
  unfoldable pub count_items : (fuel : ℕ) → DiskStream → ℕ → Counting
  count_items zero stream i = wild
  count_items (suc k) stream i =
      stream_read primary sector stream sizeof_item >>= count_item (count_items k) i

  unfoldable pub fat16_get_total_items_for_directory :
      FatPrivate → (directory_start_sector : ℕ) → Run (ℤ × FatPrivate)
  fat16_get_total_items_for_directory private directory_start_sector = do
    stream ← stream_seek private.directory_stream (fat16_sector_to_absolute directory_start_sector)
    (total, stream') ← count_items max_items stream 0
    done (total, record private { directory_stream = some stream' })

  abbrev pub root_dir_sector_pos : FatHeader → ℕ
  root_dir_sector_pos header = fat_copies header * sectors_per_fat header + reserved_sectors header

  abbrev pub root_dir_size : FatHeader → ℕ
  root_dir_size header = root_dir_entries header * sizeof_item

  -- The root directory from its bytes, with the position of the first sector behind it.
  unfoldable pub set_root :
      FatPrivate → ℤ → Result (Unit {0}) × List ℕ × DiskStream → Result (Unit {0}) × FatPrivate
  set_root private total (err e, dir, stream) =
      (err eio, record private { directory_stream = some stream })
  set_root private total (ok u, dir, stream) = (
    ok tt,
    record private {
      root_directory = record {
        item = dir;
        total = total;
        sector_pos = root_dir_sector_pos private.header;
        ending_sector_pos =
            root_dir_sector_pos private.header + root_dir_size private.header / sector_size;
      };
      directory_stream = some stream;
    },
  )

  unfoldable pub fat16_get_root_directory : FatPrivate → Run (Result (Unit {0}) × FatPrivate)
  fat16_get_root_directory private = do
    (total, private1) ←
        fat16_get_total_items_for_directory private (root_dir_sector_pos private.header)
    stream ←
        stream_seek private1.directory_stream
          (fat16_sector_to_absolute (root_dir_sector_pos private.header))
    read ← stream_read primary sector stream (root_dir_size private.header)
    done (set_root private1 total read)
