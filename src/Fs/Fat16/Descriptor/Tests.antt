-- ===== src/Fs/Fat16/Descriptor/Tests.antt =====
-- A read of the file of the clusters 2, 4 and 3, and moves in it.
use cos.Prelude.{ℕ, ◌+◌, ◌*◌, ◌<◌, ◌≡◌, refl, arith, inr, [], ◌∷◌, ◌++◌, replicate, ok, done, pos}
use cos.Fs.Fat16.Private.{FatDirectoryItem, fat16_get_first_cluster}
use cos.Fs.Fat16.Streams.{on}
use cos.Fs.Fat16.Clusters.{is_end}
use cos.Fs.Fat16.Clusters.Content.{file_bytes}
use cos.Fs.Fat16.Clusters.Tests.{sector, private}
use cos.Fs.Fat16.Descriptor.{file_item, fat16_read, fat16_seek, seek_item}
use cos.Fs.Fat16.Descriptor.Reading.{IsUnbroken, fat16_read-content}

abbrev item : FatDirectoryItem
item = replicate 26 0 ++ (2 ∷ 0 ∷ 0 ∷ 6 ∷ 0 ∷ 0 ∷ [])

in_quarters : (i : ℕ) → i < 4 → IsUnbroken 1 sector private (512 + i * 128) 128
in_quarters i lt = inr (omega arith)

-- Four members of 128 bytes from the second cluster on.
fat16_read-content_example :
    (p : ℕ) × (q : ℕ) × (fat16_read 1 sector
        (on 1 sector private 0 0)
        (record { item = file_item item; position = 512 })
        128
        4
      ≡ done (ok 4, file_bytes 1 sector private 2 512 512, on 1 sector private p q))
unfolding is_end fat16_get_first_cluster
fat16_read-content_example =
    fat16_read-content 1 sector private (omega arith) 4 2 512 128 0 0 item (omega arith)
      (omega arith) (omega arith) in_quarters (omega arith, refl, (omega arith, refl, omega arith))
      ((omega arith, omega arith), ((omega arith, omega arith), (omega arith, omega arith)))

-- A move behind the end of a file of 1536 bytes.
seek_behind :
    fat16_seek (record { item = file_item item; position = 1000 }) 1000 1
    ≡ (pos 0, record { item = file_item item; position = 2000 })
unfolding fat16_seek seek_item
seek_behind = refl
