-- ===== src/Fs/Fat16/Clusters/Chain.antt =====
-- The chain of clusters in the table on the disk, and the walk of the driver along it.
use cos.Prelude.{
  ℕ, zero, suc, ◌+◌, ◌*◌, ◌%◌, ◌^◌, ◌≤◌, ◌<◌, ◌≡◌, ap, ◌∙◌, arith, false, leb, Result, ok, Run,
  done, ◌>>=◌,
}
use cos.Fs.DiskStream.{sector_size}
use cos.Fs.DiskStream.Read.{bytes_from}
use cos.Fs.Fat16.Private.{u16, FatPrivate, reserved_sectors, fat16_get_first_fat_sector}
use cos.Fs.Fat16.Streams.{on, stream_read-at, stream_seek-at}
use cos.Fs.Fat16.Clusters.{is_end, entry_from, fat16_get_fat_entry, follow, cluster_loop}

pub follow-link :
    (again : FatPrivate → ℕ → Run (Result ℕ × FatPrivate)) (entry : ℕ) (private : FatPrivate)
    → is_end entry ≡ false
    → follow again (entry, private) ≡ again private entry
unfolding follow
follow-link again entry private h = rw (h, follow)

module _ (primary : ℕ) (sector : ℕ → ℕ → ℕ) (base : FatPrivate) where
  -- Where the table has the entry of a cluster, and what stands there.
  abbrev pub entry_position : ℕ → ℕ
  entry_position c = reserved_sectors base.header * sector_size + c * 2

  abbrev pub fat_entry : ℕ → ℕ
  fat_entry c = u16 (bytes_from primary sector 2 (entry_position c)) 0

  -- The cluster `n` further along the chain.
  abbrev pub nth_cluster : ℕ → ℕ → ℕ
  nth_cluster zero c = c
  nth_cluster (suc n) c = nth_cluster n (fat_entry c)

  -- The chain from a cluster has `n` further ones: each is a 16-bit number, and the entry of each but
  -- the last is none of the marks.
  abbrev pub IsChain : ℕ → ℕ → Type 0
  IsChain zero c = c < 2 ^ 16
  IsChain (suc n) c = (c < 2 ^ 16) × (is_end (fat_entry c) ≡ false) × IsChain n (fat_entry c)

  -- Where the walk leaves the stream of the table.
  abbrev pub walked : ℕ → ℕ → ℕ → ℕ
  walked zero c p = p
  walked (suc n) c p = walked n (fat_entry c) (entry_position c + 2)

  pub IsChain-first : (n c : ℕ) → IsChain n c → c < 2 ^ 16
  IsChain-first zero c h = h
  IsChain-first (suc n) c h = h.0

  -- Fewer steps along a chain.
  pub IsChain-shorter : (n k c : ℕ) → k ≤ n → IsChain n c → IsChain k c
  IsChain-shorter n zero c le h = IsChain-first n c h
  IsChain-shorter zero (suc k) c le h = absurd (omega arith)
  IsChain-shorter (suc n) (suc k) c le h =
      (h.0, h.1, IsChain-shorter n k (fat_entry c) (omega arith) h.2)

  module _ (few : reserved_sectors base.header < 2 ^ 16) where
    pub fat_entry-read :
        (p q c : ℕ)
        → c < 2 ^ 16
        → fat16_get_fat_entry primary sector (on primary sector base p q) c
          ≡ done (fat_entry c, on primary sector base (entry_position c + 2) q)
    unfolding fat16_get_fat_entry entry_from fat16_get_first_fat_sector
    fat_entry-read p q c lt =
        let e : entry_position c % 2 ^ 32 ≡ entry_position c = omega arith in
        rw (
          e,
          stream_seek-at primary sector p (entry_position c) (omega arith),
          stream_read-at primary sector (entry_position c) 2 (omega arith),
        )

    pub cluster_loop-nth :
        (n p q c : ℕ)
        → IsChain n c
        → cluster_loop primary sector n (on primary sector base p q) c
          ≡ done (ok (nth_cluster n c), on primary sector base (walked n c p) q)
    unfolding cluster_loop
    cluster_loop-nth zero p q c h = let e : leb (2 ^ 31) c ≡ false = ground arith in rw e
    cluster_loop-nth (suc n) p q c h =
        ap (λ r. r >>= follow (cluster_loop primary sector n)) (fat_entry-read p q c h.0)
        ∙ follow-link (cluster_loop primary sector n) (fat_entry c) _ h.1
        ∙ cluster_loop-nth n (entry_position c + 2) q (fat_entry c) h.2
