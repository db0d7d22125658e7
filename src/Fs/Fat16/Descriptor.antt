-- ===== src/Fs/Fat16/Descriptor.antt =====
-- The items of the FAT16 driver and the calls on what it opened: read, seek, stat and close.
pub mod Reading
mod Tests
use cos.Prelude.{
  ℕ, zero, suc, ◌+◌, ◌%◌, ◌^◌, true, false, Option, none, some, List, [], leb, ◌==◌, if◌then◌else◌,
  Result, ok, err, Run, done, wild, ◌>>=◌, ◌>>◌, ℤ, pos, neg, eio, einvarg, eunimp,
}
use cos.Fs.File.{FileStat}
use cos.Fs.Fat16.Private.{
  FatDirectoryItem, FatDirectory, FatPrivate, item_filesize, fat16_get_first_cluster,
}
use cos.Fs.Fat16.Clusters.{FatRead, before, as_result, fat16_read_internal}

-- What a `struct fat_directory *` leads to.
pub data DirectoryPointer : Type 0 where
  null : DirectoryPointer
  live : FatDirectory → DirectoryPointer
  freed : DirectoryPointer

-- `struct fat_item`, with the union by its `type`.
pub data FatItem : Type 0 where
  directory_item : DirectoryPointer → FatItem
  file_item : FatDirectoryItem → FatItem

pub record FatFileDescriptor : Type 0 where
  pub item : FatItem
  pub position : ℕ

-- To free what is free is `wild`.
unfoldable pub fat16_free_directory : DirectoryPointer → Run (Unit {0})
fat16_free_directory null = done tt
fat16_free_directory (live directory) = done tt
fat16_free_directory freed = wild

unfoldable pub fat16_fat_item_free : FatItem → Run (Unit {0})
fat16_fat_item_free (directory_item directory) = fat16_free_directory directory
fat16_fat_item_free (file_item item) = done tt

unfoldable pub fat16_close : FatFileDescriptor → Run ℤ
fat16_close descriptor = fat16_fat_item_free descriptor.item >> done (pos 0)

-- The status, and what goes to `stat`.
unfoldable pub stat_item : FatItem → ℤ × Option FileStat
stat_item (directory_item directory) = (neg einvarg, none)
stat_item (file_item ritem) = (pos 0, some (record { flags = 0; filesize = item_filesize ritem }))

unfoldable pub fat16_stat : FatFileDescriptor → ℤ × Option FileStat
fat16_stat descriptor = stat_item descriptor.item

-- FILE_SEEK_MODE is a word: SEEK_SET 0, SEEK_CUR 1 and SEEK_END 2.
abbrev pub seek_position : FatFileDescriptor → (offset seek_mode : ℕ) → ℤ × FatFileDescriptor
seek_position desc offset seek_mode =
    if seek_mode == 0
    then (pos 0, record desc { position = offset })
    else if seek_mode == 2
    then (neg eunimp, desc)
    else if seek_mode == 1
    then (pos 0, record desc { position = (desc.position + offset) % 2 ^ 32 })
    else (neg einvarg, desc)

unfoldable pub seek_item :
    FatItem → FatFileDescriptor → (offset seek_mode : ℕ) → ℤ × FatFileDescriptor
seek_item (directory_item directory) desc offset seek_mode = (neg einvarg, desc)
seek_item (file_item ritem) desc offset seek_mode =
    if leb (item_filesize ritem) offset
    then (neg eio, desc)
    else seek_position desc offset seek_mode

unfoldable pub fat16_seek : FatFileDescriptor → (offset seek_mode : ℕ) → ℤ × FatFileDescriptor
fat16_seek desc offset seek_mode = seek_item desc.item desc offset seek_mode

-- What follows the read of one member.
unfoldable pub next_member :
    (FatPrivate → FatRead) → Result (Unit {0}) × List ℕ × FatPrivate → FatRead
next_member again (err e, bytes, private) = done (err e, bytes, private)
next_member again (ok u, bytes, private) = before bytes (again private)

-- The status is the number of members in the 32 bits of an `int`.
abbrev pub members_read :
    ℕ → Result (Unit {0}) × List ℕ × FatPrivate → Run (Result ℕ × List ℕ × FatPrivate)
members_read nmemb (err e, bytes, private) = done (err e, bytes, private)
members_read nmemb (ok u, bytes, private) = done (as_result nmemb, bytes, private)

module _ (primary : ℕ) (sector : ℕ → ℕ → ℕ) where
  -- The loop. Offsets of 2^31 bytes and more, which are negative as `int`s, are `wild`.
  unfoldable pub read_members :
      (nmemb : ℕ) → (cluster size : ℕ) → FatPrivate → (offset : ℕ) → FatRead
  read_members zero cluster size private offset = done (ok tt, [], private)
  read_members (suc n) cluster size private offset = elim (leb (2 ^ 31) (offset + size)) [
    | true ↦ wild
    | false ↦
        fat16_read_internal primary sector private cluster offset size
        >>= next_member (λ private'. read_members n cluster size private' (offset + size))
  ]

  -- A directory is smaller than the item that the read takes it for.
  unfoldable pub read_item :
      FatItem → FatPrivate → (offset size nmemb : ℕ) → Run (Result ℕ × List ℕ × FatPrivate)
  read_item (directory_item directory) private offset size nmemb = wild
  read_item (file_item item) private offset size nmemb =
      read_members nmemb (fat16_get_first_cluster item) size private offset >>= members_read nmemb

  -- The status, the bytes that went to `out_ptr`, and the private data.
  unfoldable pub fat16_read :
      FatPrivate → FatFileDescriptor → (size nmemb : ℕ) → Run (Result ℕ × List ℕ × FatPrivate)
  fat16_read private descriptor size nmemb =
      read_item descriptor.item private descriptor.position size nmemb
