-- ===== src/Fs/Fat16/Clusters/Reading.antt =====
-- `fat16_read_internal` against the content of a file: reads that begin at a cluster or that stay in
-- one.
use cos.Prelude.{
  ℕ, zero, suc, ◌+◌, ◌-◌, ◌*◌, ◌/◌, ◌%◌, ◌^◌, ◌≤◌, ◌<◌, ◌≡◌, ◌⊎◌, inl, inr, refl, ap, ◌∙◌, subst,
  arith, ltb, Bool-cases,
}
use native.Mathlib.Nat.{suc-mul, one-mul, mul-zero, div-add-mod', mod-lt}
use cos.Fs.Fat16.Private.{FatPrivate, reserved_sectors}
use cos.Fs.Fat16.Streams.{on}
use cos.Fs.Fat16.Clusters.{fat16_read_internal_from_stream, fat16_read_internal}
use cos.Fs.Fat16.Clusters.Chain.{nth_cluster, IsChain, IsChain-shorter, walked}
use cos.Fs.Fat16.Clusters.Content.{
  cluster_size, cluster_position, file_bytes, file_bytes-append, AreData, AreData-nth,
}
use cos.Fs.Fat16.Clusters.Round.{Reads, round-last, round-further}

-- A cluster that has a byte of the first `suc n` is one of these.
among : (m k n r : ℕ) → 0 < r → k * m + r ≤ suc n * m → k ≤ n
among m zero n r lt le = omega arith
among m (suc k) zero r lt le =
    let e : suc k * m ≡ k * m + m = suc-mul k m in absurd (omega (arith, one-mul m))
among m (suc k) (suc n) r lt le =
    let e : suc k * m ≡ k * m + m = suc-mul k m in
    let f : suc (suc n) * m ≡ suc n * m + m = suc-mul (suc n) m in
    let rest : k ≤ n = among m k n r lt (omega arith) in omega arith

-- The last round of a read of either shape stays in the cluster, and a round before it fills it.
last_fits : (o total m : ℕ) → (o ≡ 0) ⊎ (o + total ≤ m) → total ≤ m → o < m → o + total ≤ m
last_fits o total m (inl e) le lt = omega arith
last_fits o total m (inr fits) le lt = fits

first_aligned : (o total m : ℕ) → (o ≡ 0) ⊎ (o + total ≤ m) → m < total → o ≡ 0
first_aligned o total m (inl e) lt = e
first_aligned o total m (inr fits) lt = absurd (omega arith)

some_size : (m n offset : ℕ) → offset < suc n * m → 0 < m
some_size zero n offset lt = absurd (omega (arith, mul-zero (suc n)))
some_size (suc m) n offset lt = omega arith

module _ (primary : ℕ) (sector : ℕ → ℕ → ℕ) (base : FatPrivate) where
  module _ (few : reserved_sectors base.header < 2 ^ 16) where
    -- The rounds that are left, with any fuel above the bytes that are left.
    rounds-content :
        (fuel n k o total p q c : ℕ)
        → total < fuel
        → o < cluster_size primary sector base
        → (o ≡ 0) ⊎ (o + total ≤ cluster_size primary sector base)
        → k ≤ n
        → k * cluster_size primary sector base + o + total
          ≤ suc n * cluster_size primary sector base
        → IsChain primary sector base n c
        → AreData primary sector base n c
        → Reads primary sector base
            (fat16_read_internal_from_stream primary sector fuel c
              (on primary sector base p q)
              (k * cluster_size primary sector base + o)
              total)
            (file_bytes primary sector base c total (k * cluster_size primary sector base + o))
    unfolding fat16_read_internal_from_stream
    rounds-content zero n k o total p q c lt small shape k_n le h d = absurd (omega arith)
    rounds-content (suc f) n k o total p q c lt small shape k_n le h d =
        let m = cluster_size primary sector base in
        let again = fat16_read_internal_from_stream primary sector f c in
        let j = k * m + o in
        let h_k = IsChain-shorter primary sector base n k c k_n h in
        let d_k = AreData-nth primary sector base n k c k_n d in
        elim (Bool-cases (ltb m total)) [
          | inr whole ↦
              let le_m : total ≤ m = ground arith in
              round-last primary sector base few again k o total p q c small h_k d_k le_m
                (last_fits o total m shape le_m small)
          | inl more ↦
              let lt_m : m < total = ground arith in
              let e : o ≡ 0 = first_aligned o total m shape lt_m in
              let next : suc k * m + 0 ≡ j + m = omega (arith, suc-mul k m) in
              let fit : suc k * m + 0 + (total - m) ≤ suc n * m = omega (arith, suc-mul k m) in
              let k_next : suc k ≤ n = among m (suc k) n (total - m) (omega arith) (omega arith) in
              let w = walked primary sector base k c p in
              let y =
                cluster_position primary sector base (nth_cluster primary sector base k c)
                + o
                + m in
              let bytes = file_bytes primary sector base c (total - m) (j + m) in
              let rest : Reads primary sector base
                  (again (on primary sector base w y) (j + m) (total - m)) bytes =
                subst
                  (λ i.
                    Reads primary sector base (again (on primary sector base w y) i (total - m))
                      (file_bytes primary sector base c (total - m) i))
                  next
                  (rounds-content f n (suc k) 0 (total - m) w y c (omega arith) (omega arith)
                    (inl refl) k_next fit h d) in
              subst (Reads primary sector base _)
                (file_bytes-append primary sector base c m (total - m) j
                  ∙ ap (λ i. file_bytes primary sector base c i j) (omega arith))
                (round-further primary sector base few again k o total p q c small h_k d_k bytes
                  lt_m e rest)
        ]

    -- A read of `total` bytes at an offset that begins a cluster, or whose bytes all lie in one
    -- cluster, succeeds and gives the bytes of the file, for a file whose chain has `n` clusters behind
    -- the first, all in the data region, and that has so many bytes.
    pub fat16_read_internal-content :
        (n offset total p q c : ℕ)
        → (offset % cluster_size primary sector base ≡ 0)
          ⊎ (offset % cluster_size primary sector base + total ≤ cluster_size primary sector base)
        → offset < suc n * cluster_size primary sector base
        → offset + total ≤ suc n * cluster_size primary sector base
        → IsChain primary sector base n c
        → AreData primary sector base n c
        → Reads primary sector base
            (fat16_read_internal primary sector (on primary sector base p q) c offset total)
            (file_bytes primary sector base c total offset)
    unfolding fat16_read_internal
    fat16_read_internal-content n offset total p q c shape lt le h d =
        let m = cluster_size primary sector base in
        let some_m : 0 < m = some_size m n offset lt in
        let e : offset / m * m + offset % m ≡ offset = div-add-mod' offset m in
        let k_n : offset / m ≤ n =
          among m (offset / m) n (offset % m + 1) (omega arith) (omega arith) in
        subst
          (λ j.
            Reads primary sector base
              (fat16_read_internal primary sector (on primary sector base p q) c j total)
              (file_bytes primary sector base c total j))
          e
          (rounds-content (suc total) n (offset / m) (offset % m) total p q c (omega arith)
            (mod-lt offset some_m) shape k_n (omega arith) h d)
