-- ===== src/Fs/Fat16/Resolve.antt =====
-- `fat16_resolve`: whether the disk has a FAT16 filesystem, and its private data.
pub mod Root
mod Tests
use cos.Prelude.{
  ℕ, true, false, Option, none, some, List, [], ◌==◌, replicate, Result, ok, err, Run, done, ◌>>=◌,
  pos, eio, efsnotus, enomem,
}
use cos.Fs.DiskStream.{DiskStream, diskstreamer_new}
use cos.Fs.Fat16.Private.{FatPrivate, FatDirectory, sizeof_fat_h, signature, stream_read}
use cos.Fs.Fat16.Directory.{fat16_get_root_directory}

-- `struct disk` in what the driver uses of it: `filesystem` is the address of its filesystem.
pub record Disk : Type 0 where
  pub id : ℕ
  pub filesystem : ℕ
  pub fs_private : Option FatPrivate

-- COS32_FAT16_SIGNATURE.
abbrev pub fat16_signature : ℕ
fat16_signature = 0x29

abbrev pub zeroed_directory : FatDirectory
zeroed_directory = record { item = []; total = pos 0; sector_pos = 0; ending_sector_pos = 0 }

-- The end of `fat16_resolve`: after an error the private data is freed.
unfoldable pub finish : Disk → Result (Unit {0}) × FatPrivate → Result (Unit {0}) × Disk
finish disk (ok u, private) = (ok u, record disk { fs_private = some private })
finish disk (err e, private) = (err e, record disk { fs_private = none })

-- Any error of the root directory is EIO.
abbrev pub or_eio : Result (Unit {0}) × FatPrivate → Result (Unit {0}) × FatPrivate
or_eio (ok u, private) = (ok tt, private)
or_eio (err e, private) = (err eio, private)

module _ (primary : ℕ) (sector : ℕ → ℕ → ℕ) where
  unfoldable pub fat16_init_private : (disk_id : ℕ) → FatPrivate
  fat16_init_private disk_id = record {
    header = replicate sizeof_fat_h 0;
    root_directory = zeroed_directory;
    cluster_read_stream = diskstreamer_new primary sector disk_id;
    fat_read_stream = diskstreamer_new primary sector disk_id;
    directory_stream = diskstreamer_new primary sector disk_id;
  }

  -- From the header read on.
  unfoldable pub check_header :
      FatPrivate → Result (Unit {0}) × List ℕ × DiskStream → Run (Result (Unit {0}) × FatPrivate)
  check_header private (err e, header, stream) = done (err eio, private)
  check_header private (ok u, header, stream) = elim (signature header == fat16_signature) [
    | false ↦ done (err efsnotus, record private { header = header })
    | true ↦
        fat16_get_root_directory primary sector (record private { header = header }) >>= λ root.
        done (or_eio root)
  ]

  unfoldable pub resolve_stream :
      FatPrivate → Option DiskStream → Run (Result (Unit {0}) × FatPrivate)
  resolve_stream private none = done (err enomem, private)
  resolve_stream private (some stream) =
      stream_read primary sector stream sizeof_fat_h >>= check_header private

  -- `fat16_fs` is the address of the driver, which the disk has afterwards whatever is returned.
  unfoldable pub fat16_resolve : (fat16_fs : ℕ) → Disk → Run (Result (Unit {0}) × Disk)
  fat16_resolve fat16_fs disk =
      resolve_stream (fat16_init_private disk.id) (diskstreamer_new primary sector disk.id)
      >>= λ end. done (finish (record disk { filesystem = fat16_fs }) end)
