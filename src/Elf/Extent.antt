-- ===== src/Elf/Extent.antt =====
-- The range of addresses of an executable, from its program headers.
use cos.Prelude.{
  ℕ, ◌+◌, ◌%◌, ◌≤◌, ◌<◌, ◌≡◌, ◌≢◌, ◌⊎◌, inl, inr, refl, sym, ap, ◌∙◌, subst, arith, ◌||◌, leb, ◌==◌,
  Bool-cases,
}
use cos.Memory.Page.{word}
use cos.Memory.KernelHeap.{Bytes}
use cos.Elf.{ElfFile, p_vaddr, p_filesz, p_offset, lower_base, raise_end}

le_trans : {a b c : ℕ} → a ≤ b → b ≤ c → a ≤ c
le_trans le le' = omega arith

module _ (m : Bytes) where
  abbrev pub widen : ElfFile → ℕ → ElfFile
  widen f p = raise_end m (lower_base m f p) p

  -- A segment that is not at address 0, and does not wrap.
  abbrev pub IsProper : ℕ → Type 0
  IsProper p = (p_vaddr m p ≢ 0) × (p_vaddr m p + p_filesz m p < word)

  -- The range has the segment.
  abbrev pub IsWithin : ElfFile → ℕ → Type 0
  IsWithin f p =
      (f.virtual_base_address ≤ p_vaddr m p) × (p_vaddr m p + p_filesz m p ≤ f.virtual_end_address)

  -- The range begins at the segment, also in memory.
  abbrev pub IsStart : ElfFile → ℕ → Type 0
  IsStart f p =
      (f.virtual_base_address ≡ p_vaddr m p)
      × (f.physical_base_address ≡ (f.elf_memory + p_offset m p) % word)

  -- The first comparison moves only the base, and the second only the end.
  pub raise_end-keeps :
      (f : ElfFile) (p : ℕ)
      → ((raise_end m f p).virtual_base_address ≡ f.virtual_base_address)
        × ((raise_end m f p).physical_base_address ≡ f.physical_base_address)
        × ((raise_end m f p).elf_memory ≡ f.elf_memory)
  raise_end-keeps f p =
      elim (Bool-cases (
        leb f.virtual_end_address ((p_vaddr m p + p_filesz m p) % word)
        || f.virtual_end_address == 0)) [
          | inl t ↦ rw t (refl, refl, refl)
          | inr e ↦ rw e (refl, refl, refl)
        ]

  pub lower_base-keeps :
      (f : ElfFile) (p : ℕ)
      → ((lower_base m f p).virtual_end_address ≡ f.virtual_end_address)
        × ((lower_base m f p).elf_memory ≡ f.elf_memory)
  lower_base-keeps f p =
      elim (Bool-cases (leb (p_vaddr m p) f.virtual_base_address || f.virtual_base_address == 0)) [
        | inl t ↦ rw t (refl, refl)
        | inr e ↦ rw e (refl, refl)
      ]

  -- The base is that of the segment, or as before and below it.
  lower_base-IsStart :
      (f : ElfFile) (p : ℕ)
      → (IsStart (lower_base m f p) p
          × ((p_vaddr m p ≤ f.virtual_base_address) ⊎ (f.virtual_base_address ≡ 0)))
        ⊎ ((lower_base m f p ≡ f)
            × ((f.virtual_base_address ≤ p_vaddr m p) × (f.virtual_base_address ≢ 0)))
  lower_base-IsStart f p =
      elim (Bool-cases (leb (p_vaddr m p) f.virtual_base_address || f.virtual_base_address == 0)) [
        | inl t ↦
            let reason : (p_vaddr m p ≤ f.virtual_base_address) ⊎ (f.virtual_base_address ≡ 0) =
              ground arith in
            inl (rw t (refl, refl), reason)
        | inr e ↦
            let below : f.virtual_base_address ≤ p_vaddr m p = ground arith in
            let nz : f.virtual_base_address ≢ 0 = ground arith in inr (rw e refl, (below, nz))
      ]

  raise_end-end :
      (f : ElfFile) (p : ℕ)
      → IsProper p
      → (p_vaddr m p + p_filesz m p ≤ (raise_end m f p).virtual_end_address)
        × (f.virtual_end_address ≤ (raise_end m f p).virtual_end_address)
  raise_end-end f p (nz, fits) =
      let e : (p_vaddr m p + p_filesz m p) % word ≡ p_vaddr m p + p_filesz m p = omega arith in
      elim (Bool-cases (
        leb f.virtual_end_address ((p_vaddr m p + p_filesz m p) % word)
        || f.virtual_end_address == 0)) [
          | inl t ↦
              let le : f.virtual_end_address ≤ (p_vaddr m p + p_filesz m p) % word = ground arith in
              rw t (omega arith, le)
          | inr n ↦
              let le : (p_vaddr m p + p_filesz m p) % word ≤ f.virtual_end_address = ground arith in
              rw n (omega arith, omega arith)
        ]

  lower_base-below :
      (f : ElfFile) (p : ℕ)
      → IsProper p
      → ((lower_base m f p).virtual_base_address ≤ p_vaddr m p)
        × ((lower_base m f p).virtual_base_address ≢ 0)
  lower_base-below f p (nz, fits) = elim (lower_base-IsStart f p) [
    | inl (start, reason) ↦
        subst (λ b. (b ≤ p_vaddr m p) × (b ≢ 0)) (sym (start.0)) (omega arith, nz)
    | inr (same, (le, set)) ↦
        subst
          (λ (g : ElfFile). (g.virtual_base_address ≤ p_vaddr m p) × (g.virtual_base_address ≢ 0))
          (sym same) (le, set)
  ]

  lower_base-lower :
      (f : ElfFile) (p : ℕ)
      → f.virtual_base_address ≢ 0
      → (lower_base m f p).virtual_base_address ≤ f.virtual_base_address
  lower_base-lower f p set = elim (lower_base-IsStart f p) [
    | inl (start, inl le) ↦ subst (λ b. b ≤ f.virtual_base_address) (sym (start.0)) le
    | inl (start, inr z) ↦ absurd (set z)
    | inr (same, rest) ↦
        subst (λ (g : ElfFile). g.virtual_base_address ≤ f.virtual_base_address) (sym same)
          (omega arith)
  ]

  -- The range after a segment: it has the segment, it has what it had before, and it begins at the
  -- segment or where it began.
  pub widen-IsWithin :
      (f : ElfFile) (p : ℕ)
      → IsProper p
      → IsWithin (widen f p) p × ((widen f p).virtual_base_address ≢ 0)
  widen-IsWithin f p proper =
      let g = lower_base m f p in
      let (below, set) = lower_base-below f p proper in
      let base = (raise_end-keeps g p).0 in
      (
        (subst (λ b. b ≤ p_vaddr m p) (sym base) below, (raise_end-end g p proper).0),
        subst (λ b. b ≢ 0) (sym base) set,
      )

  pub widen-keeps :
      (f : ElfFile) (p q : ℕ)
      → IsProper p
      → f.virtual_base_address ≢ 0
      → IsWithin f q
      → IsWithin (widen f p) q
  widen-keeps f p q proper set (above, below) =
      let g = lower_base m f p in
      let lower = lower_base-lower f p set in
      let raised = (raise_end-end g p proper).1 in
      let end = (lower_base-keeps f p).0 in
      (
        subst (λ b. b ≤ p_vaddr m q) (sym ((raise_end-keeps g p).0)) (le_trans lower above),
        le_trans below (subst (λ e. e ≤ (widen f p).virtual_end_address) end raised),
      )

  pub widen-IsStart :
      (f : ElfFile) (p : ℕ)
      → IsStart (widen f p) p
        ⊎ (((widen f p).virtual_base_address ≡ f.virtual_base_address)
            × ((widen f p).physical_base_address ≡ f.physical_base_address)
            × (f.virtual_base_address ≢ 0))
  widen-IsStart f p =
      let g = lower_base m f p in
      let (base, phys, mem) = raise_end-keeps g p in
      elim (lower_base-IsStart f p) [
        | inl ((b, ph), reason) ↦
            inl (base ∙ b, phys ∙ ph ∙ ap (λ x. (x + p_offset m p) % word) (sym mem))
        | inr (same, (le, set)) ↦ inr (
          base ∙ ap (λ (x : ElfFile). x.virtual_base_address) same,
          phys ∙ ap (λ (x : ElfFile). x.physical_base_address) same,
          set,
        )
      ]
