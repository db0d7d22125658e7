-- ===== src/Elf/Segments.antt =====
-- The loop over the program headers of an executable that needs no library.
use cos.Prelude.{
  ℕ, zero, suc, ◌+◌, ◌%◌, ◌≡◌, ◌≢◌, ◌⊎◌, inl, inr, refl, sym, ap, ◌∙◌, arith, true, false, List, [],
  ◌∷◌, ◌==◌, if◌then◌else◌, Bool-cases, ok, done, ◌>>=◌,
}
use cos.Memory.Page.{word}
use cos.Memory.KernelHeap.{Bytes}
use cos.Elf.{
  ElfFile, Processed, lower_base, p_type, p_offset, pt_load, pt_dynamic, e_phnum, elf_header,
  elf_is_shared_library, elf_program_header, elf_process_phdr_pt_load, elf_process_pheader,
  unless_error, pheaders_loop, elf_process_pheaders,
}
use cos.Elf.Extent.{
  widen, IsProper, IsWithin, IsStart, raise_end-keeps, lower_base-keeps, widen-IsWithin,
  widen-keeps, widen-IsStart,
}

module _ (m : Bytes) where
  abbrev pub widen_all : ElfFile → List ℕ → ElfFile
  widen_all f [] = f
  widen_all f (p ∷ ps) = widen_all (widen m f p) ps

  abbrev pub AreProper : List ℕ → Type 0
  AreProper [] = Unit
  AreProper (p ∷ ps) = IsProper m p × AreProper ps

  -- The range has all of the segments, and it begins at one of them.
  abbrev pub AreWithin : ElfFile → List ℕ → Type 0
  AreWithin f [] = Unit
  AreWithin f (p ∷ ps) = IsWithin m f p × AreWithin f ps

  abbrev pub IsStartOf : ElfFile → ℕ → List ℕ → Type 0
  IsStartOf f p [] = IsStart m f p
  IsStartOf f p (q ∷ qs) = IsStart m f p ⊎ IsStartOf f q qs

  widen-memory : (f : ElfFile) (p : ℕ) → (widen m f p).elf_memory ≡ f.elf_memory
  widen-memory f p = (raise_end-keeps m (lower_base m f p) p).2 ∙ (lower_base-keeps m f p).1

  widen_all-keeps :
      (f : ElfFile) (ps : List ℕ) (q : ℕ)
      → AreProper ps
      → f.virtual_base_address ≢ 0
      → IsWithin m f q
      → IsWithin m (widen_all f ps) q
  widen_all-keeps f [] q proper set within = within
  widen_all-keeps f (p ∷ ps) q (one, rest) set within =
      widen_all-keeps (widen m f p) ps q rest ((widen-IsWithin m f p one).1)
        (widen-keeps m f p q one set within)

  widen_all-AreWithin : (f : ElfFile) (ps : List ℕ) → AreProper ps → AreWithin (widen_all f ps) ps
  widen_all-AreWithin f [] proper = tt
  widen_all-AreWithin f (p ∷ ps) (one, rest) =
      let (within, set) = widen-IsWithin m f p one in
      (
        widen_all-keeps (widen m f p) ps p rest set within,
        widen_all-AreWithin (widen m f p) ps rest,
      )

  IsStartOf-more : (g : ElfFile) (p q : ℕ) (qs : List ℕ) → IsStartOf g p qs → IsStartOf g p (q ∷ qs)
  IsStartOf-more g p q [] h = inl h
  IsStartOf-more g p q (r ∷ rs) (inl a) = inl a
  IsStartOf-more g p q (r ∷ rs) (inr b) = inr (inr b)

  widen_all-IsStartOf :
      (f : ElfFile) (p : ℕ) (ps : List ℕ) → IsStart m f p → IsStartOf (widen_all f ps) p ps
  widen_all-IsStartOf f p [] h = h
  widen_all-IsStartOf f p (q ∷ qs) (b, ph) = elim (widen-IsStart m f q) [
    | inl start ↦ inr (widen_all-IsStartOf (widen m f q) q qs start)
    | inr (b', ph', set) ↦
        let memory = ap (λ x. (x + p_offset m p) % word) (sym (widen-memory f q)) in
        IsStartOf-more (widen_all (widen m f q) qs) p q qs
          (widen_all-IsStartOf (widen m f q) p qs (b' ∙ b, ph' ∙ ph ∙ memory))
  ]

  first-IsStartOf :
      (f : ElfFile) (p : ℕ) (ps : List ℕ)
      → f.virtual_base_address ≡ 0
      → IsStartOf (widen_all f (p ∷ ps)) p ps
  first-IsStartOf f p ps z = elim (widen-IsStart m f p) [
    | inl start ↦ widen_all-IsStartOf (widen m f p) p ps start
    | inr (b, ph, set) ↦ absurd (set z)
  ]

  -- The segments to load among `n` program headers from index `i` on; and none of these headers asks
  -- for libraries.
  abbrev pub segments : (header n i : ℕ) → List ℕ
  segments header zero i = []
  segments header (suc n) i =
      if p_type m (elf_program_header m header i) == pt_load
      then elf_program_header m header i ∷ segments header n (suc i)
      else segments header n (suc i)

  abbrev pub NoLibraries : (header n i : ℕ) → Type 0
  NoLibraries header zero i = Unit
  NoLibraries header (suc n) i =
      (p_type m (elf_program_header m header i) ≢ pt_dynamic) × NoLibraries header n (suc i)

  module _ (load : Bytes → ElfFile → ℕ → Processed) where
    pheader-load :
        (f : ElfFile) (p : ℕ)
        → elf_is_shared_library m f.elf_memory ≡ false
        → (p_type m p == pt_load) ≡ true
        → elf_process_pheader load m f p ≡ done (ok tt, m, widen m f p)
    unfolding elf_process_pheader elf_process_phdr_pt_load elf_header
    pheader-load f p alone e = rw (e, alone) refl

    pheader-skip :
        (f : ElfFile) (p : ℕ)
        → (p_type m p == pt_load) ≡ false
        → p_type m p ≢ pt_dynamic
        → elf_process_pheader load m f p ≡ done (ok tt, m, f)
    unfolding elf_process_pheader
    pheader-skip f p e ne =
        let d : (p_type m p == pt_dynamic) ≡ false = ground arith in rw (e, d) refl

    loop-widen_all :
        (n i : ℕ) (f : ElfFile) (header : ℕ)
        → f.elf_memory ≡ header
        → elf_is_shared_library m header ≡ false
        → NoLibraries header n i
        → pheaders_loop load n i m f ≡ done (ok tt, m, widen_all f (segments header n i))
    unfolding pheaders_loop elf_header
    loop-widen_all zero i f header at alone none_of = refl
    loop-widen_all (suc n) i f header at alone (ne, none_of) =
        let p = elf_program_header m header i in
        let same = ap (λ h. elf_process_pheader load m f (elf_program_header m h i)) at in
        elim (Bool-cases (p_type m p == pt_load)) [
          | inl t ↦
              let l : segments header (suc n) i ≡ p ∷ segments header n (suc i) = rw t refl in
              let alone' = ap (elf_is_shared_library m) at ∙ alone in
              let rest =
                loop-widen_all n (suc i) (widen m f p) header (widen-memory f p ∙ at) alone
                  none_of in
              ap (λ r. r >>= unless_error load (pheaders_loop load n (suc i)))
                (same ∙ pheader-load f p alone' t)
              ∙ rest
              ∙ ap (λ l. done (ok tt, m, widen_all f l)) (sym l)
          | inr e ↦
              let l : segments header (suc n) i ≡ segments header n (suc i) = rw e refl in
              let rest = loop-widen_all n (suc i) f header at alone none_of in
              ap (λ r. r >>= unless_error load (pheaders_loop load n (suc i)))
                (same ∙ pheader-skip f p e ne)
              ∙ rest
              ∙ ap (λ l. done (ok tt, m, widen_all f l)) (sym l)
        ]

    -- The program headers of an executable that needs no library are processed without an error and
    -- without a change of the memory: the range of addresses then has every segment to load, and it
    -- begins at one of them, in memory too. The file had no base before, there is a segment to load, and
    -- each is above address 0 and does not wrap.
    pub elf_process_pheaders-IsStartOf :
        (f : ElfFile) (p : ℕ) (ps : List ℕ)
        → elf_is_shared_library m f.elf_memory ≡ false
        → f.virtual_base_address ≡ 0
        → NoLibraries f.elf_memory (e_phnum m f.elf_memory) 0
        → segments f.elf_memory (e_phnum m f.elf_memory) 0 ≡ p ∷ ps
        → AreProper (p ∷ ps)
        → (f' : ElfFile) × (elf_process_pheaders load m f ≡ done (ok tt, m, f'))
          × AreWithin f' (p ∷ ps)
          × IsStartOf f' p ps
    unfolding elf_process_pheaders elf_header
    elf_process_pheaders-IsStartOf f p ps alone z none_of e proper = (
      widen_all f (p ∷ ps),
      loop-widen_all (e_phnum m f.elf_memory) 0 f f.elf_memory refl alone none_of
          ∙ ap (λ l. done (ok tt, m, widen_all f l)) e,
      widen_all-AreWithin f (p ∷ ps) proper,
      first-IsStartOf f p ps z,
    )
