-- ===== src/Fs/Fat16/Directory/Tests.antt =====
-- A root directory in sector 2 of the disk: one item in use, one deleted, one in use.
use cos.Prelude.{ℕ, ◌≡◌, refl, arith, some, none, [], ◌==◌, if◌then◌else◌, replicate, done, pos}
use cos.Fs.DiskStream.Read.{at}
use cos.Fs.Fat16.Private.{FatPrivate}
use cos.Fs.Fat16.Directory.{fat16_get_total_items_for_directory}
use cos.Fs.Fat16.Directory.Count.{IsEntries, fat16_get_total_items_for_directory-in_use}

abbrev pub items : ℕ → ℕ
items i = if i == 0 then 65 else if i == 32 then 0xE5 else if i == 64 then 66 else 0

abbrev pub sector : ℕ → ℕ → ℕ
sector lba i = if lba == 2 then items i else 0

abbrev pub private : FatPrivate
private = record {
  header = replicate 62 0;
  root_directory = record { item = []; total = pos 0; sector_pos = 0; ending_sector_pos = 0 };
  cluster_read_stream = none;
  fat_read_stream = none;
  directory_stream = some (at 1 sector 7);
}

three : IsEntries 1 sector 3 1024
three = (λ e. absurd (omega arith), (λ e. absurd (omega arith), (λ e. absurd (omega arith), refl)))

fat16_get_total_items_for_directory-in_use_example :
    fat16_get_total_items_for_directory 1 sector private 2
    ≡ done (pos 2, record private { directory_stream = some (at 1 sector 1152) })
fat16_get_total_items_for_directory-in_use_example =
    fat16_get_total_items_for_directory-in_use 1 sector private 7 2 3 refl (omega arith) three
