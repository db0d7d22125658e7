-- ===== src/Memory/Paging/Map.antt =====
-- What addresses translate to after `paging_map`, `paging_map_range` and `paging_map_to`.
use cos.Prelude.{
  ℕ, zero, suc, ◌+◌, ◌-◌, ◌*◌, ◌/◌, ◌%◌, ◌≤◌, ◌<◌, ◌≡◌, ◌≢◌, refl, sym, ap, ap₂, ◌∙◌, ◌⊎◌, arith,
  not, ltb, ◌==◌, ◌||◌, Result, ok, err, done, einvarg, true, false, bit_or-add_below,
}
use cos.Memory.Page.{page_size, word, paging_align_to_lower_page}
use cos.Memory.KernelHeap.{Bytes}
use cos.Memory.Paging.{
  frame_of, flags_of, paging_map, paging_map_range, paging_map_to, paging_get_physical_address,
  paging_get_flags,
}
use cos.Memory.Paging.Tables.{
  IsDirectory, entry_of, set_entry, paging_get-entry_of, paging_set-set_entry,
  set_entry-IsDirectory, entry_of-set_entry_self, entry_of-set_entry_ne,
}

-- A translation reads the entry of the address's page.
pub get_physical_address-entry_of :
    (m : Bytes) (dir virt : ℕ)
    → paging_get_physical_address m dir virt
      ≡ done ((frame_of (entry_of m dir (virt - virt % 4096)) + virt % 4096) % word)
unfolding paging_get_physical_address paging_align_to_lower_page
get_physical_address-entry_of m dir virt =
    let o : virt - (virt - virt % 4096) ≡ virt % 4096 = omega arith in
    rw (paging_get-entry_of m dir (virt - virt % 4096) (omega arith), o)

pub get_flags-entry_of :
    (m : Bytes) (dir virt : ℕ)
    → virt % page_size ≡ 0
    → paging_get_flags m dir virt ≡ done (flags_of (entry_of m dir virt))
unfolding paging_get_flags
get_flags-entry_of m dir virt al = rw (paging_get-entry_of m dir virt al)

pub paging_map-set_entry :
    (m : Bytes) (dir virt phys flags : ℕ)
    → virt % page_size ≡ 0
    → phys % page_size ≡ 0
    → flags < 4096
    → paging_map m dir virt phys flags ≡ (ok tt, set_entry m dir virt (phys + flags))
unfolding paging_map
paging_map-set_entry m dir virt phys flags av ap' lf =
    let t : (not (virt % page_size == 0) || not (phys % page_size == 0)) ≡ false = ground arith in
    rw (t, bit_or-add_below phys flags ap' lf, paging_set-set_entry m dir virt (phys + flags) av)

paging_map-misaligned :
    (m : Bytes) (dir virt phys flags : ℕ)
    → (virt % page_size ≢ 0) ⊎ (phys % page_size ≢ 0)
    → paging_map m dir virt phys flags ≡ (err einvarg, m)
unfolding paging_map
paging_map-misaligned m dir virt phys flags bad =
    let t : (not (virt % page_size == 0) || not (phys % page_size == 0)) ≡ true = ground arith in
    rw t

paging_map_range-zero :
    (m : Bytes) (dir virt phys flags : ℕ) → paging_map_range zero m dir virt phys flags ≡ (ok tt, m)
unfolding paging_map_range
paging_map_range-zero m dir virt phys flags = refl

-- One round of `paging_map_range`.
paging_map_range-ok :
    (n : ℕ) (m m' : Bytes) (dir virt phys flags : ℕ)
    → paging_map m dir virt phys flags ≡ (ok tt, m')
    → paging_map_range (suc n) m dir virt phys flags
      ≡ paging_map_range n m' dir ((virt + page_size) % word) ((phys + page_size) % word) flags
unfolding paging_map_range
paging_map_range-ok n m m' dir virt phys flags e =
    let r = ap (λ (x : Result (Unit {0}) × Bytes). x.0) e in
    let b = ap (λ (x : Result (Unit {0}) × Bytes). x.1) e in rw (r, paging_map_range, b)

paging_map_range-err :
    (n : ℕ) (m m' : Bytes) (dir virt phys flags c : ℕ)
    → paging_map m dir virt phys flags ≡ (err c, m')
    → paging_map_range (suc n) m dir virt phys flags ≡ (err c, m')
unfolding paging_map_range
paging_map_range-err n m m' dir virt phys flags c e =
    let r = ap (λ (x : Result (Unit {0}) × Bytes). x.0) e in
    let b = ap (λ (x : Result (Unit {0}) × Bytes). x.1) e in rw (r, paging_map_range, b)

-- `paging_map` and `paging_map_range` refuse addresses that are not page-aligned, with EINVARG and
-- no write.
pub paging_map-refuses :
    (m : Bytes) (dir virt phys flags n : ℕ)
    → (virt % page_size ≢ 0) ⊎ (phys % page_size ≢ 0)
    → (paging_map m dir virt phys flags ≡ (err einvarg, m))
      × (paging_map_range (suc n) m dir virt phys flags ≡ (err einvarg, m))
paging_map-refuses m dir virt phys flags n bad =
    let e = paging_map-misaligned m dir virt phys flags bad in
    (e, paging_map_range-err n m m dir virt phys flags einvarg e)

-- The pages from `virt` on hold the frames from `phys` on, and the other pages are as in `m`.
pub record IsMapped (m m' : Bytes) (dir virt phys flags n : ℕ) : Type 0 where
  pub directory : IsDirectory m' dir
  pub pages :
      (k : ℕ) → k < n → entry_of m' dir (virt + k * page_size) ≡ phys + k * page_size + flags
  pub others :
      (w : ℕ)
      → w < word
      → w % page_size ≡ 0
      → (w < virt) ⊎ (virt + n * page_size ≤ w)
      → entry_of m' dir w ≡ entry_of m dir w

module _ (dir flags : ℕ) (low_flags : flags < 4096) where
  IsMapped-suc :
      (m m' : Bytes) (virt phys n : ℕ)
      → IsDirectory m dir
      → virt % page_size ≡ 0
      → phys % page_size ≡ 0
      → virt + suc n * page_size < word
      → phys + suc n * page_size < word
      → IsMapped
          (set_entry m dir virt (phys + flags))
          m'
          dir
          (virt + page_size)
          (phys + page_size)
          flags
          n
      → IsMapped m m' dir virt phys flags (suc n)
  IsMapped-suc m m' virt phys n d av ap' fv fp rest = record {
    directory = rest.directory;
    pages = pages';
    others = λ w lw aw out.
        rest.others w lw aw (omega arith)
        ∙ entry_of-set_entry_ne m dir d virt (phys + flags) (omega arith) w lw av aw (omega arith);
  }
    where
      pages' :
          (k : ℕ)
          → k < suc n
          → entry_of m' dir (virt + k * page_size) ≡ phys + k * page_size + flags
      pages' zero lt =
          ap (entry_of m' dir) (omega arith)
          ∙ rest.others virt (omega arith) av (omega arith)
          ∙ entry_of-set_entry_self m dir d virt (phys + flags) (omega arith) (omega arith)
          ∙ omega arith
      pages' (suc k) lt =
          ap (entry_of m' dir) (omega arith) ∙ rest.pages k (omega arith) ∙ omega arith

  -- `paging_map_range` maps its pages one to one, in order, and leaves every other page alone.
  pub paging_map_range-IsMapped :
      (n : ℕ) (m : Bytes) (virt phys : ℕ)
      → IsDirectory m dir
      → virt % page_size ≡ 0
      → phys % page_size ≡ 0
      → virt + n * page_size < word
      → phys + n * page_size < word
      → (m' : Bytes) × (paging_map_range n m dir virt phys flags ≡ (ok tt, m'))
        × IsMapped m m' dir virt phys flags n
  paging_map_range-IsMapped zero m virt phys d av ap' fv fp = (
    m,
    paging_map_range-zero m dir virt phys flags,
    record { directory = d; pages = λ k lt. absurd (omega arith); others = λ w lw aw out. refl },
  )
  paging_map_range-IsMapped (suc n) m virt phys d av ap' fv fp =
      let v : (virt + page_size) % word ≡ virt + page_size = omega arith in
      let p : (phys + page_size) % word ≡ phys + page_size = omega arith in
      let d' = set_entry-IsDirectory m dir d virt (phys + flags) (omega arith) in
      let (m', eq, rest) =
        paging_map_range-IsMapped n (set_entry m dir virt (phys + flags)) (virt + page_size)
          (phys + page_size) d' (omega arith) (omega arith) (omega arith) (omega arith) in
      (
        m',
        paging_map_range-ok n m _ dir virt phys flags
              (paging_map-set_entry m dir virt phys flags av ap' low_flags)
            ∙ ap₂ (λ a b. paging_map_range n (set_entry m dir virt (phys + flags)) dir a b flags) v
                p
            ∙ eq,
        IsMapped-suc m m' virt phys n d av ap' fv fp rest,
      )

-- What `IsMapped` says of translations.
module _ (m m' : Bytes) (dir virt phys flags n : ℕ) (mapped : IsMapped m m' dir virt phys flags n)
    (low_flags : flags < 4096) (av : virt % page_size ≡ 0) (ap' : phys % page_size ≡ 0) where
  mapped_physical :
      (o : ℕ)
      → o < n * page_size
      → phys + n * page_size < word
      → paging_get_physical_address m' dir (virt + o) ≡ done (phys + o)
  mapped_physical o lo fp =
      let page : virt + o - (virt + o) % 4096 ≡ virt + o / 4096 * page_size = omega arith in
      let entry = ap (entry_of m' dir) page ∙ mapped.pages (o / 4096) (omega arith) in
      get_physical_address-entry_of m' dir (virt + o)
      ∙ ap (λ e. done ((frame_of e + (virt + o) % 4096) % word)) entry
      ∙ ap done (omega arith)

  mapped_flags :
      (o : ℕ)
      → o < n * page_size
      → o % page_size ≡ 0
      → paging_get_flags m' dir (virt + o) ≡ done flags
  mapped_flags o lo ao =
      let page : virt + o ≡ virt + o / 4096 * page_size = omega arith in
      let entry = ap (entry_of m' dir) page ∙ mapped.pages (o / 4096) (omega arith) in
      get_flags-entry_of m' dir (virt + o) (omega arith)
      ∙ ap (λ e. done (flags_of e)) entry
      ∙ ap done (omega arith)

  mapped_others :
      (w : ℕ)
      → w < word
      → (w < virt) ⊎ (virt + n * page_size ≤ w)
      → paging_get_physical_address m' dir w ≡ paging_get_physical_address m dir w
  mapped_others w lw out =
      get_physical_address-entry_of m' dir w
      ∙ ap (λ e. done ((frame_of e + w % 4096) % word))
          (mapped.others (w - w % 4096) (omega arith) (omega arith) (omega arith))
      ∙ sym (get_physical_address-entry_of m dir w)

-- The directory `m'` translates the `size` bytes from `virt` on to those from `phys` on, with the
-- flags given, and every address outside them as `m` does.
pub record Translates (m m' : Bytes) (dir virt phys flags size : ℕ) : Type 0 where
  pub directory : IsDirectory m' dir
  pub bytes : (o : ℕ) → o < size → paging_get_physical_address m' dir (virt + o) ≡ done (phys + o)
  pub attributes :
      (o : ℕ) → o < size → o % page_size ≡ 0 → paging_get_flags m' dir (virt + o) ≡ done flags
  pub others :
      (w : ℕ)
      → w < word
      → (w < virt) ⊎ (virt + size ≤ w)
      → paging_get_physical_address m' dir w ≡ paging_get_physical_address m dir w

paging_map_to-asserts :
    (m : Bytes) (dir virt phys phys_end flags : ℕ)
    → virt % page_size ≡ 0
    → phys % page_size ≡ 0
    → phys_end % page_size ≡ 0
    → phys < phys_end
    → paging_map_to m dir virt phys phys_end flags
      ≡ done (paging_map_range ((phys_end - phys) / page_size) m dir virt phys flags)
unfolding paging_map_to
paging_map_to-asserts m dir virt phys phys_end flags av ap' ae lt =
    let t : ltb phys phys_end ≡ true = ground arith in rw (av, ap', ae, t)

-- `paging_map_to` of an aligned range that is not empty and ends below 4 GB on both sides, with flags in the
-- lower 12 bits, in a directory whose tables do not overlap, succeeds: every byte of the range
-- then translates to the byte as far from `phys`, with the flags given, and every address
-- outside it to what it did before.
pub paging_map_to-Translates :
    (m : Bytes) (dir virt phys phys_end flags : ℕ)
    → IsDirectory m dir
    → flags < 4096
    → virt % page_size ≡ 0
    → phys % page_size ≡ 0
    → phys_end % page_size ≡ 0
    → phys < phys_end
    → phys_end < word
    → virt + (phys_end - phys) < word
    → (m' : Bytes) × (paging_map_to m dir virt phys phys_end flags ≡ done (ok tt, m'))
      × Translates m m' dir virt phys flags (phys_end - phys)
paging_map_to-Translates m dir virt phys phys_end flags d lf av ap' ae lt fp fv =
    let n = (phys_end - phys) / page_size in
    let size : n * page_size ≡ phys_end - phys = omega arith in
    let (m', eq, mapped) =
      paging_map_range-IsMapped dir flags lf n m virt phys d av ap' (omega arith) (omega arith) in
    (
      m',
      paging_map_to-asserts m dir virt phys phys_end flags av ap' ae lt ∙ ap done eq,
      translated m' n size mapped,
    )
  where
    translated :
        (m' : Bytes) (n : ℕ)
        → n * page_size ≡ phys_end - phys
        → IsMapped m m' dir virt phys flags n
        → Translates m m' dir virt phys flags (phys_end - phys)
    translated m' n size mapped = record {
      directory = mapped.directory;
      bytes = λ o lo.
          mapped_physical m m' dir virt phys flags n mapped lf av ap' o (omega arith) (omega arith);
      attributes =
          λ o lo ao. mapped_flags m m' dir virt phys flags n mapped lf av ap' o (omega arith) ao;
      others =
          λ w lw out. mapped_others m m' dir virt phys flags n mapped lf av ap' w lw (omega arith);
    }
