-- ===== src/Fs/Fat16/Descriptor/Reading.antt =====
-- `fat16_read` of a file against its content.
use cos.Prelude.{
  ℕ, zero, suc, ◌+◌, ◌*◌, ◌%◌, ◌^◌, ◌≤◌, ◌<◌, ◌≡◌, ◌⊎◌, refl, ap, ◌∙◌, subst, arith, false, List,
  [], ◌++◌, leb, ok, done,
}
use native.Mathlib.Nat.{suc-mul}
use cos.Fs.Fat16.Private.{FatDirectoryItem, FatPrivate, reserved_sectors, fat16_get_first_cluster}
use cos.Fs.Fat16.Streams.{on}
use cos.Fs.Fat16.Clusters.{before}
use cos.Fs.Fat16.Clusters.Chain.{IsChain}
use cos.Fs.Fat16.Clusters.Content.{cluster_size, file_bytes, file_bytes-append, AreData}
use cos.Fs.Fat16.Clusters.Round.{Reads}
use cos.Fs.Fat16.Clusters.Reading.{fat16_read_internal-content}
use cos.Fs.Fat16.Descriptor.{file_item, next_member, read_members, read_item, fat16_read}

le-mul : (n m : ℕ) → 0 < m → n ≤ n * m
le-mul zero m lt = omega arith
le-mul (suc n) m lt =
    let e : suc n * m ≡ n * m + m = suc-mul n m in
    let rest : n ≤ n * m = le-mul n m lt in omega arith

module _ (primary : ℕ) (sector : ℕ → ℕ → ℕ) (base : FatPrivate) where
  -- The bytes begin at a cluster or lie in one.
  abbrev pub IsUnbroken : (offset size : ℕ) → Type 0
  IsUnbroken offset size =
      (offset % cluster_size primary sector base ≡ 0)
      ⊎ (offset % cluster_size primary sector base + size ≤ cluster_size primary sector base)

  module _ (few : reserved_sectors base.header < 2 ^ 16) where
    -- One member and those behind it.
    member-content :
        (nmemb n offset size p q c : ℕ) (rest : List ℕ)
        → offset + size < 2 ^ 31
        → 0 < size
        → offset + size ≤ suc n * cluster_size primary sector base
        → IsUnbroken offset size
        → IsChain primary sector base n c
        → AreData primary sector base n c
        → ((p' q' : ℕ)
            → Reads primary sector base
                (read_members primary sector nmemb c size
                  (on primary sector base p' q')
                  (offset + size))
                rest)
        → Reads primary sector base
            (read_members primary sector (suc nmemb) c size (on primary sector base p q) offset)
            (file_bytes primary sector base c size offset ++ rest)
    unfolding read_members next_member
    member-content nmemb n offset size p q c rest small some_size le unbroken h d again =
        let e : leb (2 ^ 31) (offset + size) ≡ false = ground arith in
        let (p', q', first) =
          fat16_read_internal-content primary sector base few n offset size p q c unbroken
            (omega arith) le h d in
        let (p'', q'', others) = again p' q' in
        (
          p'',
          q'',
          rw (e, first, read_members, next_member)
              (ap (before (file_bytes primary sector base c size offset)) others),
        )

    read_members-content :
        (nmemb n offset size p q c : ℕ)
        → offset + nmemb * size < 2 ^ 31
        → 0 < size
        → offset + nmemb * size ≤ suc n * cluster_size primary sector base
        → ((i : ℕ) → i < nmemb → IsUnbroken (offset + i * size) size)
        → IsChain primary sector base n c
        → AreData primary sector base n c
        → Reads primary sector base
            (read_members primary sector nmemb c size (on primary sector base p q) offset)
            (file_bytes primary sector base c (nmemb * size) offset)
    unfolding read_members
    read_members-content zero n offset size p q c small some_size le unbroken h d =
        let e : 0 ≡ 0 * size = omega arith in
        subst
          (λ t.
            Reads primary sector base (done (ok tt, [], on primary sector base p q))
              (file_bytes primary sector base c t offset))
          e (p, q, refl)
    read_members-content (suc nmemb) n offset size p q c small some_size le unbroken h d =
        let e : suc nmemb * size ≡ nmemb * size + size = suc-mul nmemb size in
        let first : IsUnbroken offset size =
          subst (λ j. IsUnbroken j size) (omega arith) (unbroken 0 (omega arith)) in
        let later : (i : ℕ) → i < nmemb → IsUnbroken (offset + size + i * size) size = λ i lt.
          subst (λ j. IsUnbroken j size) (omega (arith, suc-mul i size))
            (unbroken (suc i) (omega arith)) in
        subst (Reads primary sector base _)
          (file_bytes-append primary sector base c size (nmemb * size) offset
            ∙ ap (λ t. file_bytes primary sector base c t offset) (omega arith))
          (member-content nmemb n offset size p q c _ (omega arith) some_size (omega arith) first h
            d
            (λ p' q'.
              read_members-content nmemb n (offset + size) size p' q' c (omega arith) some_size
                (omega arith) later h d))

    -- A call of `fat16_read` on an open file gives the number of members and the bytes of the file from
    -- the position of the descriptor on, where each member begins at a cluster or lies in one, for a
    -- file whose chain has `n` clusters behind the first, all in the data region, and that has so many
    -- bytes; the positions are below 2^31.
    pub fat16_read-content :
        (nmemb n position size p q : ℕ) (item : FatDirectoryItem)
        → position + nmemb * size < 2 ^ 31
        → 0 < size
        → position + nmemb * size ≤ suc n * cluster_size primary sector base
        → ((i : ℕ) → i < nmemb → IsUnbroken (position + i * size) size)
        → IsChain primary sector base n (fat16_get_first_cluster item)
        → AreData primary sector base n (fat16_get_first_cluster item)
        → (p' : ℕ) × (q' : ℕ) × (fat16_read primary sector
              (on primary sector base p q)
              (record { item = file_item item; position = position })
              size
              nmemb
            ≡ done (
              ok nmemb,
              file_bytes primary sector base (fat16_get_first_cluster item) (nmemb * size) position,
              on primary sector base p' q',
            ))
    unfolding fat16_read read_item
    fat16_read-content nmemb n position size p q item small some_size le unbroken h d =
        let few_members : nmemb ≤ nmemb * size = le-mul nmemb size some_size in
        let e : leb (2 ^ 31) nmemb ≡ false = ground arith in
        let (p', q', all) =
          read_members-content nmemb n position size p q (fat16_get_first_cluster item) small
            some_size le unbroken h d in
        (p', q', rw (all, e) refl)
