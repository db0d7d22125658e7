-- ===== src/Fs/Fat16/Clusters/Broken.antt =====
-- Reads behind the end of a chain, and reads over the end of a cluster.
use cos.Prelude.{
  ℕ, zero, suc, ◌+◌, ◌*◌, ◌/◌, ◌%◌, ◌^◌, ◌≤◌, ◌<◌, ◌≡◌, refl, ap, ◌∙◌, arith, true, false, List, [],
  ◌∷◌, ◌==◌, ◌⊎◌, Result, err, Run, done, ◌>>=◌, eio, subst,
}
use native.Mathlib.Nat.{div-add-mod', mod-lt, le-div_iff_mul-le}
use cos.Fs.DiskStream.Read.{bytes_from}
use cos.Fs.Fat16.Private.{FatPrivate, reserved_sectors, size_of_cluster_bytes}
use cos.Fs.Fat16.Streams.{on}
use cos.Fs.Fat16.Clusters.{
  is_end, follow, cluster_loop, read_found, fat16_get_cluster_for_offset,
  fat16_read_internal_from_stream, fat16_read_internal,
}
use cos.Fs.Fat16.Clusters.Chain.{
  fat_entry, nth_cluster, IsChain, entry_position, fat_entry-read, follow-link,
}
use cos.Fs.Fat16.Clusters.Content.{cluster_size, cluster_position, IsData}
use cos.Fs.Fat16.Clusters.Round.{Reads, round-together}

-- A free cluster, a reserved one (0xFF0 and 0xFF6), a bad one, or a last one (0xFF8 and 0xFFF).
abbrev pub marks : List ℕ
marks = 0 ∷ 0xFF0 ∷ 0xFF6 ∷ 0xFF7 ∷ 0xFF8 ∷ 0xFFF ∷ []

abbrev pub OneOf : List ℕ → ℕ → Type 0
OneOf [] c = ⊥
OneOf (m ∷ ms) c = (c ≡ m) ⊎ OneOf ms c

mark-is_end : (c : ℕ) → OneOf marks c → is_end c ≡ true
unfolding is_end
mark-is_end c h = ground arith

module _ (primary : ℕ) (sector : ℕ → ℕ → ℕ) (base : FatPrivate) where
  -- The entry that ends the chain `n` clusters behind `c`.
  abbrev pub IsBroken : ℕ → ℕ → Type 0
  IsBroken n c = OneOf marks (fat_entry primary sector base (nth_cluster primary sector base n c))

  module _ (few : reserved_sectors base.header < 2 ^ 16) where
    follow-end :
        (again : FatPrivate → ℕ → Run (Result ℕ × FatPrivate)) (entry : ℕ) (private : FatPrivate)
        → is_end entry ≡ true
        → follow again (entry, private) ≡ done (err eio, private)
    unfolding follow
    follow-end again entry private h = rw (h, follow)

    cluster_loop-broken :
        (n r p q c : ℕ)
        → n < r
        → IsChain primary sector base n c
        → IsBroken n c
        → (p' : ℕ) × (cluster_loop primary sector r (on primary sector base p q) c
            ≡ done (err eio, on primary sector base p' q))
    unfolding cluster_loop
    cluster_loop-broken n zero p q c lt h b = absurd (omega arith)
    cluster_loop-broken zero (suc r) p q c lt h b = (
      entry_position primary sector base c + 2,
      ap (λ x. x >>= follow (cluster_loop primary sector r))
            (fat_entry-read primary sector base few p q c h)
          ∙ follow-end (cluster_loop primary sector r) _ _ (mark-is_end _ b),
    )
    cluster_loop-broken (suc n) (suc r) p q c lt h b =
        let y = entry_position primary sector base c + 2 in
        let (p', rest) = cluster_loop-broken n r y q _ (omega arith) h.2 b in
        (
          p',
          ap (λ x. x >>= follow (cluster_loop primary sector r))
                (fat_entry-read primary sector base few p q c h.0)
              ∙ follow-link (cluster_loop primary sector r) _ _ h.1
              ∙ rest,
        )

    for_offset-loop :
        (private : FatPrivate) (c offset : ℕ)
        → 0 < size_of_cluster_bytes private.header
        → fat16_get_cluster_for_offset primary sector private c offset
          ≡ cluster_loop primary sector (offset / size_of_cluster_bytes private.header) private c
    unfolding fat16_get_cluster_for_offset
    for_offset-loop private c offset lt =
        let z : (size_of_cluster_bytes private.header == 0) ≡ false = ground arith in
        rw (z, fat16_get_cluster_for_offset) refl

    -- A read that begins behind the last cluster of the chain, whose entry is a mark, fails with EIO
    -- and gives no bytes.
    pub fat16_read_internal-broken :
        (n offset total p q c : ℕ)
        → suc n * cluster_size primary sector base ≤ offset
        → 0 < cluster_size primary sector base
        → IsChain primary sector base n c
        → IsBroken n c
        → (p' : ℕ) × (fat16_read_internal primary sector (on primary sector base p q) c offset total
            ≡ done (err eio, [], on primary sector base p' q))
    unfolding fat16_read_internal fat16_read_internal_from_stream read_found
    fat16_read_internal-broken n offset total p q c le some_m h b =
        let m = cluster_size primary sector base in
        let lt : n < offset / m = (le-div_iff_mul-le some_m).1 le in
        let (p', walk) = cluster_loop-broken n (offset / m) p q c lt h b in
        (
          p',
          ap
              (λ r.
                r
                >>= read_found primary sector
                    (fat16_read_internal_from_stream primary sector total c) offset total)
              (for_offset-loop (on primary sector base p q) c offset some_m ∙ walk),
        )

    -- A read of one cluster at most, from any offset, gives bytes that lie together on the disk, also
    -- where these are not in the cluster, where they end below byte 2^31.
    pub fat16_read_internal-together :
        (offset total p q c : ℕ)
        → 0 < cluster_size primary sector base
        → total ≤ cluster_size primary sector base
        → IsChain primary sector base (offset / cluster_size primary sector base) c
        → IsData primary sector base
            (nth_cluster primary sector base (offset / cluster_size primary sector base) c)
        → cluster_position primary sector base
              (nth_cluster primary sector base (offset / cluster_size primary sector base) c)
            + offset % cluster_size primary sector base
            + total
          < 2 ^ 31
        → Reads primary sector base
            (fat16_read_internal primary sector (on primary sector base p q) c offset total)
            (bytes_from primary sector total (
              cluster_position primary sector base
                (nth_cluster primary sector base (offset / cluster_size primary sector base) c)
              + offset % cluster_size primary sector base))
    unfolding fat16_read_internal fat16_read_internal_from_stream
    fat16_read_internal-together offset total p q c some_m le h d ends =
        let m = cluster_size primary sector base in
        let k = offset / m in
        subst
          (λ j.
            Reads primary sector base
              (fat16_get_cluster_for_offset primary sector (on primary sector base p q) c j
                >>= read_found primary sector
                    (fat16_read_internal_from_stream primary sector total c) j total)
              (bytes_from primary sector total (
                cluster_position primary sector base (nth_cluster primary sector base k c)
                + offset % m)))
          (div-add-mod' offset m)
          (round-together primary sector base few
            (fat16_read_internal_from_stream primary sector total c) k (offset % m) total p q c
            (mod-lt offset some_m) h d le ends)
