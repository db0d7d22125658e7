-- ===== src/Fs/DiskStream/Read.antt =====
-- `diskstreamer_read` reads the disk as one row of bytes.
use cos.Prelude.{
  ℕ, zero, suc, ◌+◌, ◌-◌, ◌*◌, ◌/◌, ◌%◌, ◌^◌, ◌≤◌, ◌<◌, ◌≡◌, ◌≢◌, refl, ap, ap₂, ◌∙◌, true, false,
  some, List, [], ◌∷◌, ◌++◌, arith, leb, ◌==◌, ok, err, done, eio, Bool-cases, inl, inr,
}
use cos.Fs.DiskStream.{
  sector_size, out_of_int, DiskStream, Reading, prepend, copy_out, disk_read_block, read_step,
  diskstreamer_read,
}

module _ (primary : ℕ) (sector : ℕ → ℕ → ℕ) where
  -- The byte at a position of the disk, and `n` of them from `p` on.
  abbrev pub byte_at : ℕ → ℕ
  byte_at p = sector (p / sector_size) (p % sector_size)

  abbrev pub bytes_from : (n p : ℕ) → List ℕ
  bytes_from zero p = []
  bytes_from (suc n) p = byte_at p ∷ bytes_from n (p + 1)

  copy_out-bytes_from :
      (n s o : ℕ)
      → o + n ≤ sector_size
      → copy_out (sector s) n o ≡ bytes_from n (s * sector_size + o)
  copy_out-bytes_from zero s o le = refl
  copy_out-bytes_from (suc n) s o le =
      let q : (s * sector_size + o) / sector_size ≡ s = omega arith in
      let r : (s * sector_size + o) % sector_size ≡ o = omega arith in
      let e : s * sector_size + (o + 1) ≡ s * sector_size + o + 1 = omega arith in
      rw (q, r, copy_out-bytes_from n s (o + 1) (omega arith), e)

  bytes_from-append :
      (n k p q : ℕ) → q ≡ p + n → bytes_from n p ++ bytes_from k q ≡ bytes_from (n + k) p
  bytes_from-append zero k p q e = ap₂ bytes_from (omega arith) (omega arith)
  bytes_from-append (suc n) k p q e =
      let s : suc n + k ≡ suc (n + k) = omega arith in
      rw (s, bytes_from-append n k (p + 1) q (omega arith))

  read_block-primary : (lba : ℕ) → disk_read_block primary sector primary lba ≡ ok (sector lba)
  unfolding disk_read_block
  read_block-primary lba = let e : (primary == primary) ≡ true = ground arith in rw e

  read_block-other :
      (idisk lba : ℕ) → idisk ≢ primary → disk_read_block primary sector idisk lba ≡ err eio
  unfolding disk_read_block
  read_block-other idisk lba ne = let e : (idisk == primary) ≡ false = ground arith in rw e

  -- The bytes of the sector in which `p` lies.
  sector_bytes :
      (n p : ℕ)
      → p % sector_size + n ≤ sector_size
      → copy_out (sector (p / sector_size)) n (p % sector_size) ≡ bytes_from n p
  sector_bytes n p le =
      copy_out-bytes_from n (p / sector_size) (p % sector_size) le ∙ ap (bytes_from n) (omega arith)

  abbrev pub at : ℕ → DiskStream
  at p = record { pos = p; disk = primary }

  module _ (again : DiskStream → ℕ → Reading) (p total : ℕ) where
    step-within :
        p % sector_size + total < sector_size
        → p + total < 2 ^ 31
        → read_step primary sector again (at p) total
          ≡ some (done (ok tt, bytes_from total p, at (p + total)))
    unfolding read_step
    step-within lt fits =
        let f : out_of_int (p % sector_size + total) ≡ false = ground arith in
        let f' : out_of_int (p + total) ≡ false = ground arith in
        let o : leb sector_size (p % sector_size + total) ≡ false = ground arith in
        rw (
          read_block-primary (p / sector_size),
          read_step,
          o,
          f,
          f',
          sector_bytes total p (omega arith),
        )

    step-across :
        (r : Reading)
        → sector_size ≤ p % sector_size + total
        → p + total < 2 ^ 31
        → again (at (p + (sector_size - p % sector_size))) (total - (sector_size - p % sector_size))
          ≡ r
        → read_step primary sector again (at p) total
          ≡ prepend (bytes_from (sector_size - p % sector_size) p) r
    unfolding read_step
    step-across r le fits eq =
        let f : out_of_int (p % sector_size + total) ≡ false = ground arith in
        let f' : out_of_int (p + (sector_size - p % sector_size)) ≡ false = ground arith in
        let o : leb sector_size (p % sector_size + total) ≡ true = ground arith in
        let n : total - (p % sector_size + total - sector_size) ≡ sector_size - p % sector_size =
          omega arith in
        rw (
          read_block-primary (p / sector_size),
          read_step,
          o,
          n,
          f,
          f',
          sector_bytes (sector_size - p % sector_size) p (omega arith),
          eq,
        )

  -- A read of `total` bytes from position `p` of the primary disk succeeds, writes the bytes of the
  -- disk from `p` on, in order, and moves the stream by `total`, where it ends below byte 2^31, and for
  -- every fuel above the number of sectors that it touches.
  pub diskstreamer_read-bytes_from :
      (fuel p total : ℕ)
      → p % sector_size + total < fuel * sector_size
      → p + total < 2 ^ 31
      → diskstreamer_read primary sector fuel (at p) total
        ≡ some (done (ok tt, bytes_from total p, at (p + total)))
  unfolding diskstreamer_read
  diskstreamer_read-bytes_from zero p total lt fits = absurd (omega arith)
  diskstreamer_read-bytes_from (suc k) p total lt fits =
      elim (Bool-cases (leb sector_size (p % sector_size + total))) [
        | inr within ↦ step-within (diskstreamer_read primary sector k) p total (ground arith) fits
        | inl across ↦
            let le : sector_size ≤ p % sector_size + total = ground arith in
            let n = sector_size - p % sector_size in
            let rest =
              diskstreamer_read-bytes_from k (p + n) (total - n) (omega arith) (omega arith) in
            step-across (diskstreamer_read primary sector k) p total _ le fits rest
            ∙ ap₂ (λ l q. some (done (ok tt, l, at q)))
                (bytes_from-append n (total - n) p (p + n) refl
                  ∙ ap (λ m. bytes_from m p) (omega arith))
                (omega arith)
      ]

  -- On any other disk the read fails with EIO, writes nothing and leaves the stream.
  pub diskstreamer_read-other :
      (fuel total : ℕ) (stream : DiskStream)
      → stream.disk ≢ primary
      → stream.pos % sector_size + total < 2 ^ 31
      → diskstreamer_read primary sector (suc fuel) stream total ≡ some (done (err eio, [], stream))
  unfolding diskstreamer_read read_step
  diskstreamer_read-other fuel total stream ne fits =
      let f : out_of_int (stream.pos % sector_size + total) ≡ false = ground arith in
      rw (read_block-other stream.disk (stream.pos / sector_size) ne, read_step, f)
