-- ===== src/Fs/Fat16/Resolve/Tests.antt =====
-- A disk with a root directory of 16 items behind a reserved sector and a table of one sector.
use cos.Prelude.{ℕ, ◌≡◌, refl, arith, none, ◌==◌, if◌then◌else◌, ok, err, done, efsnotus}
use cos.Fs.Fat16.Directory.Count.{IsEntries}
use cos.Fs.Fat16.Directory.Tests.{items}
use cos.Fs.Fat16.Resolve.{fat16_resolve}
use cos.Fs.Fat16.Resolve.Root.{taken, disk_zero, fat16_resolve-taken, fat16_resolve-not_us}

abbrev header : ℕ → ℕ
header i =
    if i == 38
    then 0x29
    else if i == 17
    then 16
    else if i == 14
    then 1
    else if i == 16
    then 1
    else if i == 22
    then 1
    else 0

abbrev sector : ℕ → ℕ → ℕ
sector lba i = if lba == 0 then header i else if lba == 2 then items i else 0

abbrev items_only : ℕ → ℕ → ℕ
items_only lba i = if lba == 2 then items i else 0

three : IsEntries 1 sector 3 1024
three = (λ e. absurd (omega arith), (λ e. absurd (omega arith), (λ e. absurd (omega arith), refl)))

fat16_resolve-taken_example :
    fat16_resolve 1 sector 5000 (disk_zero 1 sector 0 none) ≡ done (ok tt, taken 1 sector 5000 3)
fat16_resolve-taken_example =
    fat16_resolve-taken 1 sector 5000 0 3 none refl (omega arith) (omega arith) three

fat16_resolve-not_us_test :
    fat16_resolve 1 items_only 5000 (disk_zero 1 items_only 0 none)
    ≡ done (err efsnotus, disk_zero 1 items_only 5000 none)
fat16_resolve-not_us_test =
    fat16_resolve-not_us 1 items_only 5000 0 none (λ e. absurd (omega arith))
