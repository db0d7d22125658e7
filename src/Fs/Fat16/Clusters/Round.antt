-- ===== src/Fs/Fat16/Clusters/Round.antt =====
-- One round of `fat16_read_internal_from_stream` on a chain of clusters.
use cos.Prelude.{
  ℕ, ◌+◌, ◌-◌, ◌*◌, ◌%◌, ◌^◌, ◌≤◌, ◌<◌, ◌≡◌, refl, sym, ap, ap₂, ◌∙◌, subst, arith, true, false,
  List, ◌++◌, ltb, ◌==◌, ok, done, ◌>>=◌,
}
use native.Mathlib.Nat.{add-mul}
use cos.Fs.DiskStream.{sector_size}
use cos.Fs.DiskStream.Read.{bytes_from}
use cos.Fs.Fat16.Private.{
  FatPrivate, reserved_sectors, sectors_per_cluster, fat16_cluster_to_sector, stream_seek,
}
use cos.Fs.Fat16.Streams.{on, stream_read-at, stream_seek-at}
use cos.Fs.Fat16.Clusters.{
  FatRead, before, min_total, starting_pos, read_at, read_more, read_found,
  fat16_get_cluster_for_offset, cluster_loop,
}
use cos.Fs.Fat16.Clusters.Chain.{nth_cluster, IsChain, walked, cluster_loop-nth}
use cos.Fs.Fat16.Clusters.Content.{
  in_cluster, cluster_size, cluster_position, file_bytes, file_bytes-within, IsData,
}

pub read_more-last :
    (again : FatPrivate → ℕ → ℕ → FatRead) (j total : ℕ) (bytes : List ℕ) (private : FatPrivate)
    → read_more again j total total (ok tt, bytes, private) ≡ done (ok tt, bytes, private)
unfolding read_more
read_more-last again j total bytes private =
    let e : ltb 0 (total - total) ≡ false = ground arith in rw (e, read_more)

read_more-further :
    (again : FatPrivate → ℕ → ℕ → FatRead) (j total m : ℕ) (bytes : List ℕ) (private : FatPrivate)
    → m < total
    → read_more again j total m (ok tt, bytes, private)
      ≡ before bytes (again private (j + m) (total - m))
unfolding read_more
read_more-further again j total m bytes private lt =
    let e : ltb 0 (total - m) ≡ true = ground arith in rw (e, read_more)

wrapped :
    (e x s m : ℕ) → (e + x) * sector_size + m < 2 ^ 31 → (e + (x + 2 ^ 32 * s)) % 2 ^ 32 ≡ e + x
wrapped e x s m le = omega arith

module _ (primary : ℕ) (sector : ℕ → ℕ → ℕ) (base : FatPrivate) where
  sector-position :
      (c : ℕ)
      → IsData primary sector base c
      → fat16_cluster_to_sector base c * sector_size ≡ cluster_position primary sector base c
  unfolding fat16_cluster_to_sector
  sector-position c (above, fits) =
      let e : c + 2 ^ 32 - 2 ≡ c - 2 + 2 ^ 32 = omega arith in
      let s = sectors_per_cluster base.header in
      ap (λ x. (base.root_directory.ending_sector_pos + x * s) % 2 ^ 32 * sector_size) e
      ∙ ap (λ x. (base.root_directory.ending_sector_pos + x) % 2 ^ 32 * sector_size)
          (add-mul (c - 2) (2 ^ 32) s)
      ∙ ap (λ x. x * sector_size) (wrapped _ _ s _ fits)

  starting_pos-data :
      (c offset o : ℕ)
      → IsData primary sector base c
      → offset % cluster_size primary sector base ≡ o
      → o < cluster_size primary sector base
      → starting_pos base c offset ≡ cluster_position primary sector base c + o
  starting_pos-data c offset o (above, fits) e lt =
      ap₂ (λ a b. (a + b) % 2 ^ 32) (sector-position c (above, fits)) e ∙ omega arith

  -- What a read gave: all is well and the bytes are these, wherever the streams stand.
  abbrev pub Reads : FatRead → List ℕ → Type 0
  Reads r bytes = (p : ℕ) × (q : ℕ) × (r ≡ done (ok tt, bytes, on primary sector base p q))

  module _ (few : reserved_sectors base.header < 2 ^ 16) where
    pub found-nth :
        (k o p q c : ℕ)
        → o < cluster_size primary sector base
        → IsChain primary sector base k c
        → fat16_get_cluster_for_offset primary sector
            (on primary sector base p q)
            c
            (k * cluster_size primary sector base + o)
          ≡ done (
            ok (nth_cluster primary sector base k c),
            on primary sector base (walked primary sector base k c p) q,
          )
    unfolding fat16_get_cluster_for_offset
    found-nth k o p q c lt h =
        let m = cluster_size primary sector base in
        let z : (m == 0) ≡ false = ground arith in
        let d = (in_cluster m k o lt).0 in
        rw (z, fat16_get_cluster_for_offset)
          (ap (λ n. cluster_loop primary sector n (on primary sector base p q) c) d
            ∙ cluster_loop-nth primary sector base few k p q c h)

    -- What a round reads ends at a position of an `int`.
    abbrev pub EndsInInt : (k o total c : ℕ) → Type 0
    EndsInInt k o total c =
        cluster_position primary sector base (nth_cluster primary sector base k c)
          + o
          + min_total total (cluster_size primary sector base)
        < 2 ^ 31

    -- One round, from offset `o` of cluster `k`.
    pub round :
        (again : FatPrivate → ℕ → ℕ → FatRead) (k o total p q c : ℕ)
        → o < cluster_size primary sector base
        → IsChain primary sector base k c
        → IsData primary sector base (nth_cluster primary sector base k c)
        → EndsInInt k o total c
        → (fat16_get_cluster_for_offset primary sector
              (on primary sector base p q)
              c
              (k * cluster_size primary sector base + o)
            >>= read_found primary sector again (k * cluster_size primary sector base + o) total)
          ≡ read_more again
              (k * cluster_size primary sector base + o)
              total
              (min_total total (cluster_size primary sector base))
              (
                ok tt,
                bytes_from primary sector (min_total total (cluster_size primary sector base)) (
                    cluster_position primary sector base (nth_cluster primary sector base k c) + o),
                on primary sector base (walked primary sector base k c p) (
                    cluster_position primary sector base (nth_cluster primary sector base k c)
                    + o
                    + min_total total (cluster_size primary sector base)),
              )
    unfolding read_found read_at read_more stream_seek fat16_cluster_to_sector
    round again k o total p q c lt h d ends =
        let offset = k * cluster_size primary sector base + o in
        let x = nth_cluster primary sector base k c in
        let pos = cluster_position primary sector base x + o in
        let t = min_total total (cluster_size primary sector base) in
        let e : starting_pos base x offset ≡ pos =
          starting_pos-data x offset o d (in_cluster (cluster_size primary sector base) k o lt).1
            lt in
        ap (λ r. r >>= read_found primary sector again offset total) (found-nth k o p q c lt h)
        ∙ ap
            (λ s.
              read_at primary sector (on primary sector base (walked primary sector base k c p) q) s
                t
              >>= read_more again offset total t)
            e
        ∙ rw
            (
              stream_seek-at primary sector q pos (omega (arith, d.1)),
              stream_read-at primary sector pos t ends,
            )
            refl

    module _ (again : FatPrivate → ℕ → ℕ → FatRead) (k o total p q c : ℕ)
        (small : o < cluster_size primary sector base) (h : IsChain primary sector base k c)
        (d : IsData primary sector base (nth_cluster primary sector base k c)) where
      -- The last round, the same where it stays in its cluster, and one before it that fills it.
      pub round-together :
          total ≤ cluster_size primary sector base
          → cluster_position primary sector base (nth_cluster primary sector base k c) + o + total
            < 2 ^ 31
          → Reads
              (fat16_get_cluster_for_offset primary sector
                  (on primary sector base p q)
                  c
                  (k * cluster_size primary sector base + o)
                >>= read_found primary sector again
                    (k * cluster_size primary sector base + o)
                    total)
              (bytes_from primary sector total
                (cluster_position primary sector base (nth_cluster primary sector base k c) + o))
      round-together le ends =
          let m = cluster_size primary sector base in
          let w = walked primary sector base k c p in
          let x = cluster_position primary sector base (nth_cluster primary sector base k c) + o in
          let whole : ltb m total ≡ false = ground arith in
          let t : min_total total m ≡ total = rw whole refl in
          (
            w,
            x + total,
            round again k o total p q c small h d (omega (arith, t, ends))
                ∙ ap
                    (λ r.
                      read_more again (k * m + o) total r
                        (ok tt, bytes_from primary sector r x, on primary sector base w (x + r)))
                    t
                ∙ read_more-last again (k * m + o) total _ _,
          )

      pub round-last :
          total ≤ cluster_size primary sector base
          → o + total ≤ cluster_size primary sector base
          → Reads
              (fat16_get_cluster_for_offset primary sector
                  (on primary sector base p q)
                  c
                  (k * cluster_size primary sector base + o)
                >>= read_found primary sector again
                    (k * cluster_size primary sector base + o)
                    total)
              (file_bytes primary sector base c total (k * cluster_size primary sector base + o))
      round-last le within =
          subst (Reads _) (sym (file_bytes-within primary sector base c total k o within))
            (round-together le (omega (arith, d.1)))

      pub round-further :
          (bytes : List ℕ)
          → cluster_size primary sector base < total
          → o ≡ 0
          → Reads
              (again
                (on primary sector base (walked primary sector base k c p) (
                  cluster_position primary sector base (nth_cluster primary sector base k c)
                  + o
                  + cluster_size primary sector base))
                (k * cluster_size primary sector base + o + cluster_size primary sector base)
                (total - cluster_size primary sector base))
              bytes
          → Reads
              (fat16_get_cluster_for_offset primary sector
                  (on primary sector base p q)
                  c
                  (k * cluster_size primary sector base + o)
                >>= read_found primary sector again
                    (k * cluster_size primary sector base + o)
                    total)
              (file_bytes primary sector base c
                  (cluster_size primary sector base)
                  (k * cluster_size primary sector base + o)
                ++ bytes)
      round-further bytes lt_m e (p', q', rest) =
          let m = cluster_size primary sector base in
          let w = walked primary sector base k c p in
          let x = cluster_position primary sector base (nth_cluster primary sector base k c) + o in
          let more : ltb m total ≡ true = ground arith in
          let t : min_total total m ≡ m = rw more refl in
          (
            p',
            q',
            round again k o total p q c small h d (omega (arith, t, e, d.1))
                ∙ ap
                    (λ r.
                      read_more again (k * m + o) total r
                        (ok tt, bytes_from primary sector r x, on primary sector base w (x + r)))
                    t
                ∙ read_more-further again (k * m + o) total m _ _ lt_m
                ∙ ap (before (bytes_from primary sector m x)) rest
                ∙ ap (λ b. done (ok tt, b ++ bytes, on primary sector base p' q'))
                    (sym (file_bytes-within primary sector base c m k o (omega arith))),
          )
