-- ===== src/Fs/Fat16/Clusters.antt =====
-- The file allocation table, the chain of the clusters of a file, and reads along it.
pub mod Chain
pub mod Content
pub mod Round
pub mod Reading
pub mod Broken
pub mod Tests
use cos.Prelude.{
  ℕ, zero, suc, ◌+◌, ◌-◌, ◌*◌, ◌/◌, ◌%◌, ◌^◌, Bool, true, false, ◌||◌, Option, none, some, List, [],
  ◌++◌, ltb, leb, ◌==◌, if◌then◌else◌, Result, ok, err, Run, done, wild, ◌>>=◌, eio,
}
use cos.Fs.DiskStream.{sector_size, DiskStream}
use cos.Fs.Fat16.Private.{
  u16, FatPrivate, fat16_get_first_fat_sector, fat16_cluster_to_sector, size_of_cluster_bytes,
  stream_seek, stream_read,
}

-- COS32_FAT16_FAT_ENTRY_SIZE and COS32_FAT16_BAD_SECTOR.
abbrev pub fat_entry_size : ℕ
fat_entry_size = 2

abbrev pub bad_sector : ℕ
bad_sector = 0xFF7

-- What a chain of clusters does not lead to.
unfoldable pub is_end : ℕ → Bool
is_end entry =
    (entry == 0xFF8 || entry == 0xFFF)
    || entry == bad_sector
    || (entry == 0xFF0 || entry == 0xFF6)
    || entry == 0

-- The bits of an `int` as a status or a value.
abbrev pub as_result : ℕ → Result ℕ
as_result bits = if leb (2 ^ 31) bits then err (2 ^ 32 - bits) else ok bits

-- The entry read, or the bits of the error.
abbrev pub entry_or_error : Result (Unit {0}) → List ℕ → ℕ
entry_or_error (err e) bytes = 2 ^ 32 - e
entry_or_error (ok u) bytes = u16 bytes 0

abbrev pub min_total : (total size : ℕ) → ℕ
min_total total size = if ltb size total then size else total

-- A read: the status, the bytes that went to `out`, and the private data.
abbrev pub FatRead : Type 0
FatRead = Run (Result (Unit {0}) × List ℕ × FatPrivate)

abbrev pub before : List ℕ → FatRead → FatRead
before bytes r =
    r >>= λ (q : Result (Unit {0}) × List ℕ × FatPrivate). done (q.0, bytes ++ q.1, q.2)

-- The position of the entry of a cluster, in its 32 bits.
abbrev pub fat_position : FatPrivate → ℕ → ℕ
fat_position private cluster =
    (fat16_get_first_fat_sector private * sector_size + cluster * fat_entry_size) % 2 ^ 32

-- One round of the loop from the entry read on, with the rounds after it given.
unfoldable pub follow :
    (FatPrivate → ℕ → Run (Result ℕ × FatPrivate)) → ℕ × FatPrivate → Run (Result ℕ × FatPrivate)
follow again (entry, private) = elim (is_end entry) [
  | true ↦ done (err eio, private)
  | false ↦ again private entry
]

-- What follows the read of one cluster.
unfoldable pub read_more :
    (FatPrivate → (offset total : ℕ) → FatRead)
    → (offset total total_to_read : ℕ) → Result (Unit {0}) × List ℕ × FatPrivate
    → FatRead
read_more again offset total total_to_read (err e, bytes, private) = done (err e, bytes, private)
read_more again offset total total_to_read (ok u, bytes, private) =
    elim (ltb 0 (total - total_to_read)) [
      | true ↦ before bytes (again private (offset + total_to_read) (total - total_to_read))
      | false ↦ done (ok tt, bytes, private)
    ]

-- The position of an offset in a cluster, in its 32 bits.
abbrev pub starting_pos : FatPrivate → (cluster offset : ℕ) → ℕ
starting_pos private cluster offset =
    (fat16_cluster_to_sector private cluster * sector_size
      + offset % size_of_cluster_bytes private.header)
    % 2 ^ 32

module _ (primary : ℕ) (sector : ℕ → ℕ → ℕ) where
  unfoldable pub entry_from : FatPrivate → ℕ → Option DiskStream → Run (ℕ × FatPrivate)
  entry_from private cluster none = done (2 ^ 32 - 1, private)
  entry_from private cluster (some stream) = do
    stream1 ← stream_seek (some stream) (fat_position private cluster)
    (res, bytes, stream2) ← stream_read primary sector stream1 fat_entry_size
    done (entry_or_error res bytes, record private { fat_read_stream = some stream2 })

  -- The bits of the entry or of a negative error.
  unfoldable pub fat16_get_fat_entry : FatPrivate → ℕ → Run (ℕ × FatPrivate)
  fat16_get_fat_entry private cluster = entry_from private cluster private.fat_read_stream

  -- The loop: the cluster so many further, or the error.
  unfoldable pub cluster_loop : (clusters_ahead : ℕ) → FatPrivate → ℕ → Run (Result ℕ × FatPrivate)
  cluster_loop zero private cluster = done (as_result cluster, private)
  cluster_loop (suc n) private cluster =
      fat16_get_fat_entry private cluster >>= follow (cluster_loop n)

  -- A division by zero where a cluster has no sectors.
  unfoldable pub fat16_get_cluster_for_offset :
      FatPrivate → (cluster offset : ℕ) → Run (Result ℕ × FatPrivate)
  fat16_get_cluster_for_offset private cluster offset =
      let size = size_of_cluster_bytes private.header in
      elim (size == 0) [ true ↦ wild | false ↦ cluster_loop (offset / size) private cluster ]

  -- The seek and the read on the stream of the clusters.
  unfoldable pub read_at : FatPrivate → (position total : ℕ) → FatRead
  read_at private position total = do
    stream1 ← stream_seek private.cluster_read_stream position
    (res, bytes, stream2) ← stream_read primary sector stream1 total
    done (res, bytes, record private { cluster_read_stream = some stream2 })

  unfoldable pub read_found :
      (FatPrivate → (offset total : ℕ) → FatRead)
      → (offset total : ℕ) → Result ℕ × FatPrivate
      → FatRead
  read_found again offset total (err e, private) = done (err e, [], private)
  read_found again offset total (ok cluster, private) =
      let total_to_read = min_total total (size_of_cluster_bytes private.header) in
      read_at private (starting_pos private cluster offset) total_to_read
      >>= read_more again offset total total_to_read

  -- `stream` is the stream of the clusters in every call, and each call reads a byte at least or is
  -- the last, so that more fuel than `total` is enough.
  unfoldable pub fat16_read_internal_from_stream :
      (fuel : ℕ) → (cluster : ℕ) → FatPrivate → (offset total : ℕ) → FatRead
  fat16_read_internal_from_stream zero cluster private offset total = wild
  fat16_read_internal_from_stream (suc k) cluster private offset total =
      fat16_get_cluster_for_offset private cluster offset
      >>= read_found (fat16_read_internal_from_stream k cluster) offset total

  unfoldable pub fat16_read_internal : FatPrivate → (starting_cluster offset total : ℕ) → FatRead
  fat16_read_internal private starting_cluster offset total =
      fat16_read_internal_from_stream (suc total) starting_cluster private offset total
