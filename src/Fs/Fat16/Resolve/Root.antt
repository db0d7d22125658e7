-- ===== src/Fs/Fat16/Resolve/Root.antt =====
-- When the driver takes a disk, and the root directory that it then has.
use cos.Prelude.{
  ℕ, ◌+◌, ◌*◌, ◌/◌, ◌%◌, ◌^◌, ◌<◌, ◌≡◌, ◌≢◌, refl, ap, ◌∙◌, suc, arith, true, false, Option, none,
  some, ◌==◌, ok, err, done, ◌>>=◌, pos, efsnotus,
}
use cos.Fs.DiskStream.{DiskStream, disk_get, diskstreamer_new}
use cos.Fs.DiskStream.Read.{at, bytes_from}
use cos.Fs.Fat16.Private.{
  u8, u16, FatHeader, FatDirectory, FatPrivate, sizeof_fat_h, signature, fat16_sector_to_absolute,
}
use cos.Fs.Fat16.Streams.{stream_read-at, stream_seek-at}
use cos.Fs.Fat16.Directory.{set_root, fat16_get_root_directory}
use cos.Fs.Fat16.Directory.Count.{IsEntries, in_use, fat16_get_total_items_for_directory-in_use}
use cos.Fs.Fat16.Resolve.{
  Disk, fat16_signature, finish, fat16_init_private, check_header, resolve_stream, fat16_resolve,
}

module _ (primary : ℕ) (sector : ℕ → ℕ → ℕ) where
  -- The root directory as FAT lays it out, by the bytes of the header: its first sector is behind the
  -- copies of the table (byte 16 counts them, bytes 22 and 23 their sectors) and the reserved sectors
  -- (bytes 14 and 15), and it has 32 bytes for each of its entries (bytes 17 and 18).
  abbrev pub root_sector : FatHeader → ℕ
  root_sector header = u8 header 16 * u16 header 22 + u16 header 14

  abbrev pub root_position : FatHeader → ℕ
  root_position header = root_sector header * 512

  abbrev pub root_size : FatHeader → ℕ
  root_size header = u16 header 17 * 32

  -- The root directory with the bytes on the disk, when `n` items stand before a blank one.
  abbrev pub root_on_disk : FatHeader → ℕ → FatDirectory
  root_on_disk header n = record {
    item = bytes_from primary sector (root_size header) (root_position header);
    total = pos (in_use primary sector n (root_position header) 0);
    sector_pos = root_sector header;
    ending_sector_pos = root_sector header + root_size header / 512;
  }

  root_directory-on_disk :
      (private : FatPrivate) (q n : ℕ)
      → private.directory_stream ≡ some (at primary sector q)
      → root_position private.header + suc n * 32 < 2 ^ 31
      → root_position private.header + root_size private.header < 2 ^ 31
      → IsEntries primary sector n (root_position private.header)
      → fat16_get_root_directory primary sector private
        ≡ done (
          ok tt,
          record private {
            root_directory = root_on_disk private.header n;
            directory_stream =
                some (at primary sector (root_position private.header + root_size private.header));
          },
        )
  unfolding fat16_get_root_directory fat16_sector_to_absolute set_root
  root_directory-on_disk private q n e small few h =
      let p = root_position private.header in
      let m : p % 2 ^ 32 ≡ p = omega arith in
      rw
        (
          fat16_get_total_items_for_directory-in_use primary sector private q
              (root_sector private.header) n e small h,
          m,
          stream_seek-at primary sector _ p (omega arith),
          stream_read-at primary sector p (root_size private.header) few,
        )
        refl

  -- The bytes of the header.
  abbrev pub header_on_disk : FatHeader
  header_on_disk = bytes_from primary sector sizeof_fat_h 0

  -- The disk with the driver, its header and its root directory.
  abbrev pub taken : (fat16_fs n : ℕ) → Disk
  taken fat16_fs n = record {
    id = 0;
    filesystem = fat16_fs;
    fs_private = some (record {
      header = header_on_disk;
      root_directory = root_on_disk header_on_disk n;
      cluster_read_stream = some (at primary sector 0);
      fat_read_stream = some (at primary sector 0);
      directory_stream =
          some (at primary sector (root_position header_on_disk + root_size header_on_disk));
    });
  }

  check_header-taken :
      (private : FatPrivate) (q n : ℕ) (header : FatHeader) (stream : DiskStream)
      → private.directory_stream ≡ some (at primary sector q)
      → signature header ≡ fat16_signature
      → root_position header + suc n * 32 < 2 ^ 31
      → root_position header + root_size header < 2 ^ 31
      → IsEntries primary sector n (root_position header)
      → check_header primary sector private (ok tt, header, stream)
        ≡ done (
          ok tt,
          record private {
            header = header;
            root_directory = root_on_disk header n;
            directory_stream = some (at primary sector (root_position header + root_size header));
          },
        )
  unfolding check_header
  check_header-taken private q n header stream e s small few h =
      let t : (signature header == fat16_signature) ≡ true = ground arith in
      rw
        (
          t,
          check_header,
          root_directory-on_disk (record private { header = header }) q n e small few h,
        )
        refl

  check_header-not_us :
      (private : FatPrivate) (header : FatHeader) (stream : DiskStream)
      → signature header ≢ fat16_signature
      → check_header primary sector private (ok tt, header, stream)
        ≡ done (err efsnotus, record private { header = header })
  unfolding check_header
  check_header-not_us private header stream ne =
      let t : (signature header == fat16_signature) ≡ false = ground arith in
      rw (t, check_header) refl

  -- The one disk, whatever it had before.
  abbrev pub disk_zero : (filesystem : ℕ) → Option FatPrivate → Disk
  disk_zero filesystem fs_private = record {
    id = 0;
    filesystem = filesystem;
    fs_private = fs_private;
  }

  resolve-header :
      (fat16_fs filesystem : ℕ) (fs_private : Option FatPrivate)
      → fat16_resolve primary sector fat16_fs (disk_zero filesystem fs_private) ≡ (
          check_header primary sector
            (fat16_init_private primary sector 0)
            (ok tt, header_on_disk, at primary sector sizeof_fat_h)
          >>= λ end. done (finish (disk_zero fat16_fs fs_private) end))
  unfolding fat16_resolve resolve_stream diskstreamer_new disk_get
  resolve-header fat16_fs filesystem fs_private =
      ap
        (λ r. r >>= check_header primary sector (fat16_init_private primary sector 0) >>= λ end.
          done (finish (disk_zero fat16_fs fs_private) end))
        (stream_read-at primary sector 0 sizeof_fat_h (omega arith))

  -- The driver takes the one disk where the signature of its header is 0x29: the private data then has
  -- the header and the root directory as they stand on the disk, by the numbers in the header, with the
  -- number of items in use. The directory has n items before a blank one; the blank item, and the
  -- entries that the header counts, end below byte 2^31.
  pub fat16_resolve-taken :
      (fat16_fs filesystem n : ℕ) (fs_private : Option FatPrivate)
      → signature header_on_disk ≡ fat16_signature
      → root_position header_on_disk + suc n * 32 < 2 ^ 31
      → root_position header_on_disk + root_size header_on_disk < 2 ^ 31
      → IsEntries primary sector n (root_position header_on_disk)
      → fat16_resolve primary sector fat16_fs (disk_zero filesystem fs_private)
        ≡ done (ok tt, taken fat16_fs n)
  unfolding fat16_init_private finish diskstreamer_new disk_get
  fat16_resolve-taken fat16_fs filesystem n fs_private s small few h =
      resolve-header fat16_fs filesystem fs_private
      ∙ ap (λ r. r >>= λ end. done (finish (disk_zero fat16_fs fs_private) end))
          (check_header-taken (fat16_init_private primary sector 0) 0 n header_on_disk
            (at primary sector sizeof_fat_h) refl s small few h)

  -- Where the signature is another, the call fails with EFSNOTUS and the disk has no private data, but
  -- the driver as its filesystem.
  pub fat16_resolve-not_us :
      (fat16_fs filesystem : ℕ) (fs_private : Option FatPrivate)
      → signature header_on_disk ≢ fat16_signature
      → fat16_resolve primary sector fat16_fs (disk_zero filesystem fs_private)
        ≡ done (err efsnotus, disk_zero fat16_fs none)
  unfolding finish
  fat16_resolve-not_us fat16_fs filesystem fs_private s =
      resolve-header fat16_fs filesystem fs_private
      ∙ ap (λ r. r >>= λ end. done (finish (disk_zero fat16_fs fs_private) end))
          (check_header-not_us (fat16_init_private primary sector 0) header_on_disk
            (at primary sector sizeof_fat_h) s)
