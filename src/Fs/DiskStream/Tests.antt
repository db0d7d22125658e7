-- ===== src/Fs/DiskStream/Tests.antt =====
-- A disk in which every byte tells its sector, and reads of it.
use cos.Prelude.{ℕ, ◌+◌, ◌%◌, ◌≡◌, arith, some, ok, done}
use cos.Fs.DiskStream.{diskstreamer_read}
use cos.Fs.DiskStream.Read.{at, bytes_from, diskstreamer_read-bytes_from}

abbrev sector : ℕ → ℕ → ℕ
sector lba i = (lba + i) % 256

-- From byte 500 over the end of the first sector.
diskstreamer_read-bytes_from_example :
    diskstreamer_read 1 sector 3 (at 1 sector 500) 700
    ≡ some (done (ok tt, bytes_from 1 sector 700 500, at 1 sector (500 + 700)))
diskstreamer_read-bytes_from_example =
    diskstreamer_read-bytes_from 1 sector 3 500 700 (omega arith) (omega arith)
