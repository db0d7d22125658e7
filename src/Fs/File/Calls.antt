-- ===== src/Fs/File/Calls.antt =====
-- Sequences of the calls of fs/file.c, and what they leave of the table of open files.
use cos.Prelude.{
  ℕ, zero, suc, ◌+◌, ◌≤◌, ◌≡◌, ◌≢◌, refl, sym, ap, subst, ◌∙◌, inl, inr, arith, Option, none, some,
  List, ◌==◌, if-both, Option-cases, ◌||◌, length, length-set, done, ℤ, pos,
}
use cos.Fs.File.{
  Filesystem, FileDescriptor, Files, max_file_descriptors, file_get_descriptor, fopen, fread, fseek,
  fstat, fclose, below_one,
}
use cos.Fs.File.Slots.{
  free_slot-FreeSlot, get_descriptor-at, get_descriptor-set_ne, used, used-length,
}
use cos.Fs.File.Lifetime.{Effect, fopen-Effect}

-- An `fopen` that returned a number other than 0 counts.
abbrev pub one_if_opened : ℕ → ℕ
one_if_opened zero = 0
one_if_opened (suc n) = 1

module _ {S : Type 0} (driver : ℕ → Filesystem S) (primary : ℕ) where
  -- The files after any calls, and how many times `fopen` has given a descriptor.
  pub data Calls (f : Files S) : ℕ → Files S → Type 0 where
    start : Calls f 0 f
    opens :
        (k n : ℕ) (g h : Files S) (filename mode_str : List ℕ)
        → Calls f k g
        → fopen driver primary g filename mode_str ≡ done (n, h)
        → Calls f (k + one_if_opened n) h
    reads :
        (k : ℕ) (g : Files S) (size nmemb : ℕ) (fd : ℤ)
        → Calls f k g
        → Calls f k (fread driver primary g size nmemb fd).1
    seeks :
        (k : ℕ) (g : Files S) (fd : ℤ) (offset whence : ℕ)
        → Calls f k g
        → Calls f k (fseek driver primary g fd offset whence).1
    stats : (k : ℕ) (g : Files S) (fd : ℤ) → Calls f k g → Calls f k (fstat driver primary g fd).1
    closes : (k : ℕ) (g : Files S) (fd : ℤ) → Calls f k g → Calls f k (fclose driver primary g fd).1

  -- Only `fopen` changes the table.
  fread-table :
      (g : Files S) (size nmemb : ℕ) (fd : ℤ)
      → (fread driver primary g size nmemb fd).1.file_descriptors ≡ g.file_descriptors
  unfolding fread
  fread-table g size nmemb fd = elim (Option-cases (file_get_descriptor g.file_descriptors fd)) [
    | inl e ↦ rw (e, fread) (if-both Same (size == 0 || nmemb == 0 || below_one fd) _ _ refl refl)
    | inr (d, e) ↦
        rw (e, fread) (if-both Same (size == 0 || nmemb == 0 || below_one fd) _ _ refl refl)
  ]
    where
      Same : (ℤ × List ℕ) × Files S → Type 0
      Same r = r.1.file_descriptors ≡ g.file_descriptors

  fseek-table :
      (g : Files S) (fd : ℤ) (offset whence : ℕ)
      → (fseek driver primary g fd offset whence).1.file_descriptors ≡ g.file_descriptors
  unfolding fseek
  fseek-table g fd offset whence = elim (Option-cases (file_get_descriptor g.file_descriptors fd)) [
    | inl e ↦ rw (e, fseek)
    | inr (d, e) ↦ rw (e, fseek)
  ]

  fstat-table :
      (g : Files S) (fd : ℤ) → (fstat driver primary g fd).1.file_descriptors ≡ g.file_descriptors
  unfolding fstat
  fstat-table g fd = elim (Option-cases (file_get_descriptor g.file_descriptors fd)) [
    | inl e ↦ rw (e, fstat)
    | inr (d, e) ↦ rw (e, fstat)
  ]

  fclose-table :
      (g : Files S) (fd : ℤ) → (fclose driver primary g fd).1.file_descriptors ≡ g.file_descriptors
  unfolding fclose
  fclose-table g fd = elim (Option-cases (file_get_descriptor g.file_descriptors fd)) [
    | inl e ↦ rw (e, fclose)
    | inr (d, e) ↦ rw (e, fclose)
  ]

  -- What the calls add up to, told of the two tables.
  abbrev Grown : List (Option FileDescriptor) → ℕ → List (Option FileDescriptor) → Type 0
  Grown ds k ds' = (length ds' ≡ length ds) × (used ds' ≡ used ds + k)

  Effect-Grown :
      (ds ds' ds'' : List (Option FileDescriptor)) (k n : ℕ)
      → Grown ds k ds'
      → Effect ds' n ds''
      → Grown ds (k + one_if_opened n) ds''
  Effect-Grown ds ds' ds'' k n (l, u) (inl (z, same)) =
      let z' : one_if_opened n ≡ 0 = ap one_if_opened z in
      (ap length same ∙ l, ap used same ∙ u ∙ omega arith)
  Effect-Grown ds ds' ds'' k n (l, u) (inr (i, d, slot, z, new)) =
      let z' : one_if_opened n ≡ 1 = ap one_if_opened z in
      let free = free_slot-FreeSlot ds' i slot in
      (ap length new ∙ length-set ds' i (some d) ∙ l, ap used new ∙ free.more d ∙ omega arith)

  Grown-same :
      (ds ds' ds'' : List (Option FileDescriptor)) (k : ℕ)
      → Grown ds k ds'
      → ds'' ≡ ds'
      → Grown ds k ds''
  Grown-same ds ds' ds'' k h e = subst (Grown ds k) (sym e) h

  Calls-Grown :
      (f g : Files S) (k : ℕ) → Calls f k g → Grown f.file_descriptors k g.file_descriptors
  Calls-Grown f _ _ start = (refl, omega arith)
  Calls-Grown f _ _ (opens k n g h filename mode_str c e) =
      Effect-Grown f.file_descriptors g.file_descriptors h.file_descriptors k n
        (Calls-Grown f g k c) (fopen-Effect driver primary g h filename mode_str n e)
  Calls-Grown f _ _ (reads k g size nmemb fd c) =
      Grown-same f.file_descriptors g.file_descriptors _ k (Calls-Grown f g k c)
        (fread-table g size nmemb fd)
  Calls-Grown f _ _ (seeks k g fd offset whence c) =
      Grown-same f.file_descriptors g.file_descriptors _ k (Calls-Grown f g k c)
        (fseek-table g fd offset whence)
  Calls-Grown f _ _ (stats k g fd c) =
      Grown-same f.file_descriptors g.file_descriptors _ k (Calls-Grown f g k c) (fstat-table g fd)
  Calls-Grown f _ _ (closes k g fd c) =
      Grown-same f.file_descriptors g.file_descriptors _ k (Calls-Grown f g k c) (fclose-table g fd)

  abbrev Named : List (Option FileDescriptor) → ℤ → FileDescriptor → Type 0
  Named ds fd d = file_get_descriptor ds fd ≡ some d

  Effect-Named :
      (ds ds' : List (Option FileDescriptor)) (n : ℕ) (fd : ℤ) (d : FileDescriptor)
      → length ds ≡ max_file_descriptors
      → Effect ds n ds'
      → Named ds fd d
      → Named ds' fd d
  Effect-Named ds ds' n fd d whole (inl (_, same)) h = subst (λ l. Named l fd d) (sym same) h
  Effect-Named ds ds' n fd d whole (inr (i, new, slot, _, e)) h =
      let free = free_slot-FreeSlot ds i slot in
      let within = free.within in
      let null = get_descriptor-at ds i (omega (arith, whole)) ∙ free.null in
      let other : fd ≢ pos (suc i) =
        λ z. none-some (sym null ∙ ap (file_get_descriptor ds) (sym z) ∙ h) in
      ap (λ l. file_get_descriptor l fd) e ∙ get_descriptor-set_ne ds i (some new) fd other ∙ h
    where
      none-some : none ≡ some d → ⊥
      none-some q = cc

  -- In a table of 128 slots, a number that names a descriptor names the same one after any
  -- sequence of calls, closing it included.
  pub descriptor-kept :
      (f g : Files S) (k : ℕ) (fd : ℤ) (d : FileDescriptor)
      → length f.file_descriptors ≡ max_file_descriptors
      → Calls f k g
      → file_get_descriptor f.file_descriptors fd ≡ some d
      → file_get_descriptor g.file_descriptors fd ≡ some d
  descriptor-kept f _ _ fd d whole start h = h
  descriptor-kept f _ _ fd d whole (opens k n g g' filename mode_str c e) h =
      let (l, _) = Calls-Grown f g k c in
      Effect-Named g.file_descriptors g'.file_descriptors n fd d (l ∙ whole)
        (fopen-Effect driver primary g g' filename mode_str n e)
        (descriptor-kept f g k fd d whole c h)
  descriptor-kept f _ _ fd d whole (reads k g size nmemb fd' c) h =
      subst (λ l. Named l fd d) (sym (fread-table g size nmemb fd'))
        (descriptor-kept f g k fd d whole c h)
  descriptor-kept f _ _ fd d whole (seeks k g fd' offset whence c) h =
      subst (λ l. Named l fd d) (sym (fseek-table g fd' offset whence))
        (descriptor-kept f g k fd d whole c h)
  descriptor-kept f _ _ fd d whole (stats k g fd' c) h =
      subst (λ l. Named l fd d) (sym (fstat-table g fd')) (descriptor-kept f g k fd d whole c h)
  descriptor-kept f _ _ fd d whole (closes k g fd' c) h =
      subst (λ l. Named l fd d) (sym (fclose-table g fd')) (descriptor-kept f g k fd d whole c h)

  -- After any sequence of calls of `fopen`, `fread`, `fseek`, `fstat` and `fclose` on a table of 128
  -- slots, every number that named a descriptor names the same one, the table holds as many descriptors
  -- as at the start and one for each `fopen` that returned a number other than 0, and these are 128 at
  -- most.
  pub opens-bounded :
      (f g : Files S) (k : ℕ)
      → length f.file_descriptors ≡ max_file_descriptors
      → Calls f k g
      → ((fd : ℤ) (d : FileDescriptor)
          → file_get_descriptor f.file_descriptors fd ≡ some d
          → file_get_descriptor g.file_descriptors fd ≡ some d)
        × (used g.file_descriptors ≡ used f.file_descriptors + k)
        × (used f.file_descriptors + k ≤ max_file_descriptors)
  opens-bounded f g k whole c =
      let (l, u) = Calls-Grown f g k c in
      let b = used-length g.file_descriptors in
      (λ fd d. descriptor-kept f g k fd d whole c, u, omega (arith, l, u, b, whole))
