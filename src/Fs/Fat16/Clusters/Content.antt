-- ===== src/Fs/Fat16/Clusters/Content.antt =====
-- What a read along a chain of clusters gives: the bytes of the clusters one after the other.
use cos.Prelude.{
  ℕ, zero, suc, ◌+◌, ◌-◌, ◌*◌, ◌/◌, ◌%◌, ◌^◌, ◌≤◌, ◌<◌, ◌≡◌, refl, ap, ap₂, ◌∙◌, arith, List, [],
  ◌∷◌, ◌++◌,
}
use native.Mathlib.Nat.{mul-add-div_right, mul-add-mod_self_right, mod-eq_of_lt, div-eq_of_lt}
use cos.Fs.DiskStream.{sector_size}
use cos.Fs.DiskStream.Read.{byte_at, bytes_from}
use cos.Fs.Fat16.Private.{FatPrivate, sectors_per_cluster, size_of_cluster_bytes}
use cos.Fs.Fat16.Clusters.Chain.{fat_entry, nth_cluster}

-- Offset `o` of cluster `k`, where clusters have `m` bytes.
pub in_cluster : (m k o : ℕ) → o < m → ((k * m + o) / m ≡ k) × ((k * m + o) % m ≡ o)
in_cluster m k o lt = (
  mul-add-div_right (omega arith) k o ∙ rw (div-eq_of_lt lt) (omega arith),
  mul-add-mod_self_right k m o ∙ mod-eq_of_lt lt,
)

module _ (primary : ℕ) (sector : ℕ → ℕ → ℕ) (base : FatPrivate) where
  abbrev pub cluster_size : ℕ
  cluster_size = size_of_cluster_bytes base.header

  -- Where the bytes of a cluster begin on the disk.
  abbrev pub cluster_position : ℕ → ℕ
  cluster_position c =
      (base.root_directory.ending_sector_pos + (c - 2) * sectors_per_cluster base.header)
      * sector_size

  -- The byte of the file that begins at cluster `c`, and `n` of them from `j` on.
  abbrev pub file_byte : ℕ → ℕ → ℕ
  file_byte c j =
      byte_at primary sector
        (cluster_position (nth_cluster primary sector base (j / cluster_size) c) + j % cluster_size)

  abbrev pub file_bytes : ℕ → (n j : ℕ) → List ℕ
  file_bytes c zero j = []
  file_bytes c (suc n) j = file_byte c j ∷ file_bytes c n (j + 1)

  pub file_bytes-append :
      (c n m j : ℕ) → file_bytes c n j ++ file_bytes c m (j + n) ≡ file_bytes c (n + m) j
  file_bytes-append c zero m j = ap₂ (file_bytes c) (omega arith) (omega arith)
  file_bytes-append c (suc n) m j =
      let s : suc n + m ≡ suc (n + m) = omega arith in
      let t : j + suc n ≡ j + 1 + n = omega arith in rw (s, t, file_bytes-append c n m (j + 1))

  -- Within one cluster they lie together on the disk.
  pub file_bytes-within :
      (c n k o : ℕ)
      → o + n ≤ cluster_size
      → file_bytes c n (k * cluster_size + o)
        ≡ bytes_from primary sector n (cluster_position (nth_cluster primary sector base k c) + o)
  file_bytes-within c zero k o le = refl
  file_bytes-within c (suc n) k o le =
      let (q, r) = in_cluster cluster_size k o (omega arith) in
      let rest = file_bytes-within c n k (o + 1) (omega arith) in
      let e : k * cluster_size + o + 1 ≡ k * cluster_size + (o + 1) = omega arith in
      let f : (p : ℕ) → p + (o + 1) ≡ p + o + 1 = λ p. omega arith in
      ap₂ (λ a l. a ∷ l)
        (ap₂
          (λ x y.
            byte_at primary sector (cluster_position (nth_cluster primary sector base x c) + y))
          q r)
        (ap (file_bytes c n) e ∙ rest ∙ ap (bytes_from primary sector n) (f _))

  -- The clusters of the data region that end at a position of an `int`, and all of a chain.
  abbrev pub IsData : ℕ → Type 0
  IsData c = (2 ≤ c) × (cluster_position c + cluster_size < 2 ^ 31)

  abbrev pub AreData : ℕ → ℕ → Type 0
  AreData zero c = IsData c
  AreData (suc n) c = IsData c × AreData n (fat_entry primary sector base c)

  AreData-first : (n c : ℕ) → AreData n c → IsData c
  AreData-first zero c h = h
  AreData-first (suc n) c h = h.0

  pub AreData-nth : (n k c : ℕ) → k ≤ n → AreData n c → IsData (nth_cluster primary sector base k c)
  AreData-nth n zero c le h = AreData-first n c h
  AreData-nth zero (suc k) c le h = absurd (omega arith)
  AreData-nth (suc n) (suc k) c le h = AreData-nth n k _ (omega arith) h.1
