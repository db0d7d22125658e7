-- ===== src/Fs/Fat16/Private.antt =====
-- The data of the FAT16 driver: what it reads of the structs on the disk, and its private data with
-- the three streams. `stream_seek` and `stream_read` are the calls on a stream pointer.
use cos.Prelude.{
  ℕ, suc, ◌+◌, ◌-◌, ◌*◌, ◌/◌, ◌%◌, ◌^◌, Option, none, some, List, leb, if◌then◌else◌, get_or,
  bit_or, Result, Run, done, wild, ℤ,
}
use cos.Fs.DiskStream.{sector_size, DiskStream, Reading, diskstreamer_seek, diskstreamer_read}

abbrev pub u8 : List ℕ → ℕ → ℕ
u8 bytes i = get_or bytes i 0

abbrev pub u16 : List ℕ → ℕ → ℕ
u16 bytes i = u8 bytes i + u8 bytes (i + 1) * 2 ^ 8

abbrev pub u32 : List ℕ → ℕ → ℕ
u32 bytes i = u16 bytes i + u16 bytes (i + 2) * 2 ^ 16

-- `struct fat_h`, the bytes of its header and extended header.
abbrev pub FatHeader : Type 0
FatHeader = List ℕ

abbrev pub sizeof_fat_h : ℕ
sizeof_fat_h = 62

abbrev pub sectors_per_cluster : FatHeader → ℕ
sectors_per_cluster h = u8 h 13

abbrev pub reserved_sectors : FatHeader → ℕ
reserved_sectors h = u16 h 14

abbrev pub fat_copies : FatHeader → ℕ
fat_copies h = u8 h 16

abbrev pub root_dir_entries : FatHeader → ℕ
root_dir_entries h = u16 h 17

abbrev pub sectors_per_fat : FatHeader → ℕ
sectors_per_fat h = u16 h 22

abbrev pub signature : FatHeader → ℕ
signature h = u8 h 38

-- `struct fat_directory_item`: the bytes from an item on.
abbrev pub FatDirectoryItem : Type 0
FatDirectoryItem = List ℕ

abbrev pub sizeof_item : ℕ
sizeof_item = 32

abbrev pub attribute : FatDirectoryItem → ℕ
attribute item = u8 item 11

abbrev pub high_16_bits_first_cluster : FatDirectoryItem → ℕ
high_16_bits_first_cluster item = u16 item 20

abbrev pub low_16_bits_first_cluster : FatDirectoryItem → ℕ
low_16_bits_first_cluster item = u16 item 26

abbrev pub item_filesize : FatDirectoryItem → ℕ
item_filesize item = u32 item 28

-- `item` is the bytes of the array; `total` is the count or a negative error.
pub record FatDirectory : Type 0 where
  pub item : List ℕ
  pub total : ℤ
  pub sector_pos : ℕ
  pub ending_sector_pos : ℕ

pub record FatPrivate : Type 0 where
  pub header : FatHeader
  pub root_directory : FatDirectory
  pub cluster_read_stream : Option DiskStream
  pub fat_read_stream : Option DiskStream
  pub directory_stream : Option DiskStream

unfoldable pub fat16_get_first_fat_sector : FatPrivate → ℕ
fat16_get_first_fat_sector private = reserved_sectors private.header

unfoldable pub fat16_get_first_cluster : FatDirectoryItem → ℕ
fat16_get_first_cluster item =
    bit_or (high_16_bits_first_cluster item * 2 ^ 16) (low_16_bits_first_cluster item)

-- `fat16_sector_to_absolute`, in the 32 bits of the `int`, for the sectors of 512 bytes that
-- `disk.c` sets.
unfoldable pub fat16_sector_to_absolute : ℕ → ℕ
fat16_sector_to_absolute sector = sector * sector_size % 2 ^ 32

unfoldable pub fat16_cluster_to_sector : FatPrivate → ℕ → ℕ
fat16_cluster_to_sector private cluster =
    (private.root_directory.ending_sector_pos
      + (cluster + 2 ^ 32 - 2) * sectors_per_cluster private.header)
    % 2 ^ 32

-- The local of two functions.
abbrev pub size_of_cluster_bytes : FatHeader → ℕ
size_of_cluster_bytes h = sectors_per_cluster h * sector_size

-- What a stream pointer leads to.
abbrev pub get_stream : Option DiskStream → Run DiskStream
get_stream none = wild
get_stream (some stream) = done stream

-- To a position in its 32 bits, where a negative one is `wild`.
unfoldable pub stream_seek : Option DiskStream → ℕ → Run DiskStream
stream_seek none position = wild
stream_seek (some stream) position =
    if leb (2 ^ 31) position then wild else done (diskstreamer_seek stream position)

module _ (primary : ℕ) (sector : ℕ → ℕ → ℕ) where
  abbrev pub returned : Reading → Run (Result (Unit {0}) × List ℕ × DiskStream)
  returned none = wild
  returned (some reading) = reading

  -- One round more than the sectors that `total` bytes can touch, so that the fuel is never out.
  unfoldable pub stream_read : DiskStream → ℕ → Run (Result (Unit {0}) × List ℕ × DiskStream)
  stream_read stream total =
      returned (diskstreamer_read primary sector (suc (suc (total / sector_size))) stream total)
