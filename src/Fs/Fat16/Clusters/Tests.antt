-- ===== src/Fs/Fat16/Clusters/Tests.antt =====
-- A disk with one reserved sector, a table in sector 1 and one sector in a cluster, the first in sector
-- 4: a file of the clusters 2, 4 and 3.
use cos.Prelude.{
  ℕ, ◌+◌, ◌*◌, ◌%◌, ◌≡◌, refl, arith, inl, inr, none, [], ◌∷◌, ◌++◌, ◌==◌, if◌then◌else◌, replicate,
  err, done, pos, eio,
}
use cos.Fs.DiskStream.Read.{bytes_from}
use cos.Fs.Fat16.Private.{FatPrivate}
use cos.Fs.Fat16.Streams.{on}
use cos.Fs.Fat16.Clusters.{fat16_read_internal, is_end}
use cos.Fs.Fat16.Clusters.Content.{file_bytes}
use cos.Fs.Fat16.Clusters.Round.{Reads}
use cos.Fs.Fat16.Clusters.Reading.{fat16_read_internal-content}
use cos.Fs.Fat16.Clusters.Broken.{fat16_read_internal-broken, fat16_read_internal-together}

abbrev table : ℕ → ℕ
table i =
    if i == 4 then 4 else if i == 8 then 3 else if i == 6 then 0xF8 else if i == 7 then 0x0F else 0

abbrev pub sector : ℕ → ℕ → ℕ
sector lba i = if lba == 1 then table i else (lba * 16 + i) % 256

abbrev pub private : FatPrivate
private = record {
  header = replicate 13 0 ++ (1 ∷ 1 ∷ 0 ∷ []);
  root_directory = record { item = []; total = pos 0; sector_pos = 2; ending_sector_pos = 4 };
  cluster_read_stream = none;
  fat_read_stream = none;
  directory_stream = none;
}

-- All of the first two clusters.
fat16_read_internal-content_example :
    Reads 1 sector private
      (fat16_read_internal 1 sector (on 1 sector private 0 0) 2 0 1024)
      (file_bytes 1 sector private 2 1024 0)
unfolding is_end
fat16_read_internal-content_example =
    fat16_read_internal-content 1 sector private (omega arith) 2 0 1024 0 0 2 (inl refl)
      (omega arith) (omega arith) (omega arith, refl, (omega arith, refl, omega arith))
      ((omega arith, omega arith), ((omega arith, omega arith), (omega arith, omega arith)))

-- Behind the third.
fat16_read_internal-broken_example :
    (p' : ℕ) × (fat16_read_internal 1 sector (on 1 sector private 0 0) 2 1536 10
      ≡ done (err eio, [], on 1 sector private p' 0))
unfolding is_end
fat16_read_internal-broken_example =
    fat16_read_internal-broken 1 sector private (omega arith) 2 1536 10 0 0 2 (omega arith)
      (omega arith) (omega arith, refl, (omega arith, refl, omega arith))
      (inr (inr (inr (inr (inl refl)))))

-- Bytes 500 to 599 of the file, of which the last 88 are those of cluster 3 and not of cluster 4.
fat16_read_internal-together_test :
    Reads 1 sector private
      (fat16_read_internal 1 sector (on 1 sector private 0 0) 2 500 100)
      (bytes_from 1 sector 100 2548)
fat16_read_internal-together_test =
    fat16_read_internal-together 1 sector private (omega arith) 500 100 0 0 2 (omega arith)
      (omega arith) (omega arith) (omega arith, omega arith) (omega arith)
