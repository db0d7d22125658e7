-- ===== src/Fs/Fat16/Streams.antt =====
-- The three streams of the FAT16 driver when they stand on the primary disk.
use cos.Prelude.{ℕ, suc, ◌+◌, ◌/◌, ◌^◌, ◌<◌, ◌≡◌, ap, arith, false, some, leb, ok, done}
use cos.Fs.DiskStream.{sector_size, diskstreamer_seek}
use cos.Fs.DiskStream.Read.{at, bytes_from, diskstreamer_read-bytes_from}
use cos.Fs.Fat16.Private.{FatPrivate, stream_seek, stream_read, returned}

module _ (primary : ℕ) (sector : ℕ → ℕ → ℕ) where
  -- A read on the primary disk that ends below byte 2^31 succeeds and gives the bytes of the disk.
  pub stream_read-at :
      (p total : ℕ)
      → p + total < 2 ^ 31
      → stream_read primary sector (at primary sector p) total
        ≡ done (ok tt, bytes_from primary sector total p, at primary sector (p + total))
  unfolding stream_read
  stream_read-at p total fits = ap (returned primary sector) (
      diskstreamer_read-bytes_from primary sector (suc (suc (total / sector_size))) p total
        (omega arith) fits)

  pub stream_seek-at :
      (q p : ℕ)
      → p < 2 ^ 31
      → stream_seek (some (at primary sector q)) p ≡ done (at primary sector p)
  unfolding stream_seek diskstreamer_seek
  stream_seek-at q p lt = let e : leb (2 ^ 31) p ≡ false = ground arith in rw e

  -- The private data with its streams at these positions.
  abbrev pub on : FatPrivate → (fat cluster : ℕ) → FatPrivate
  on private fat cluster = record private {
    fat_read_stream = some (at primary sector fat);
    cluster_read_stream = some (at primary sector cluster);
  }
