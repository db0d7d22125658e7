-- ===== src/Fs/File/Lifetime.antt =====
-- What one `fopen` does to the table of open files, on every path through it.
use cos.Prelude.{
  ℕ, suc, ◌-◌, ◌^◌, ◌≡◌, refl, sym, subst, ◌⊎◌, inl, inr, arith, Option, none, some, List, [], ◌∷◌,
  leb, ◌==◌, set, set-set, if-both, Option-cases, Result, err, eio, einvarg, Run, done, panic, wild,
  ◌>>=◌,
}
use cos.Fs.PathParser.{PathRoot, pathparser_parse}
use cos.Fs.DiskStream.{disk_get}
use cos.Fs.File.{
  Filesystem, FileDescriptor, FileMode, mode_read, mode_write, mode_append, mode_invalid, Files,
  free_slot, file_get_mode_by_string, no_negative, open_descriptor, open_file, open_parts,
  open_root, fopen, file_new_descriptor, fill_descriptor,
}
use cos.Fs.File.Open.{descriptor_at, new_descriptor-some, new_descriptor-none}

-- What holds of the result if a call returns.
abbrev pub Ends {ℓ κ} : {A : Type ℓ} → (A → Type κ) → Run A → Type κ
Ends P (done a) = P a
Ends P panic = Unit
Ends P wild = Unit

pub Ends-bind {ℓ ι κ} :
    {A : Type ℓ} {B : Type ι} (P : B → Type κ) (m : Run A) (f : A → Run B)
    → ((a : A) → Ends P (f a))
    → Ends P (m >>= f)
Ends-bind P (done a) f h = h a
Ends-bind P panic f h = tt
Ends-bind P wild f h = tt

-- `n` is 0 and the table is as before, or `n` names a new descriptor in the first slot that was free.
abbrev pub Effect :
    (ds : List (Option FileDescriptor)) → ℕ → (ds' : List (Option FileDescriptor)) → Type 0
Effect ds n ds' =
    ((n ≡ 0) × (ds' ≡ ds))
    ⊎ ((i : ℕ) × (d : FileDescriptor) × (free_slot ds ≡ some i)
        × (n ≡ suc i)
        × (ds' ≡ set ds i (some d)))

module _ {S : Type 0} (driver : ℕ → Filesystem S) (primary : ℕ) where
  abbrev OpenEffect : Files S → Result ℕ × Files S → Type 0
  OpenEffect f r = Effect f.file_descriptors (no_negative r.0) r.1.file_descriptors

  fill-Effect :
      (f : Files S) (disk private : ℕ)
      → OpenEffect f
          (fill_descriptor driver primary f disk private (file_new_descriptor f.file_descriptors))
  fill-Effect f disk private = elim (Option-cases (free_slot f.file_descriptors)) [
    | inl full ↦
        subst (λ r. OpenEffect f (fill_descriptor driver primary f disk private r))
          (sym (new_descriptor-none f.file_descriptors full)) (inl (refl, refl))
    | inr (i, slot) ↦
        subst (λ r. OpenEffect f (fill_descriptor driver primary f disk private r))
          (sym (new_descriptor-some f.file_descriptors i slot))
          (inr (
            i,
            descriptor_at i f.disk_filesystem private disk,
            slot,
            omega arith,
            set-set f.file_descriptors i _ _,
          ))
  ]

  open_descriptor-Effect :
      (f : Files S) (disk private : ℕ)
      → OpenEffect f (open_descriptor driver primary f disk private)
  unfolding open_descriptor
  open_descriptor-Effect f disk private =
      if-both (OpenEffect f) (private == 0) (err eio, f) _ (inl (refl, refl))
        (if-both (OpenEffect f) (leb (2 ^ 31) private) (err (2 ^ 32 - private), f) _
          (inl (refl, refl)) (fill-Effect f disk private))

  open_file-Effect :
      (f : Files S) (disk : ℕ) (path : List (List ℕ)) (mode : FileMode)
      → OpenEffect f (open_file driver primary f disk path mode)
  unfolding open_file
  open_file-Effect f disk path mode_invalid = inl (refl, refl)
  open_file-Effect f disk path mode_read =
      let r = (driver f.disk_filesystem).open_function f.world disk path mode_read in
      open_descriptor-Effect (record f { world = r.1 }) disk (r.0)
  open_file-Effect f disk path mode_write =
      let r = (driver f.disk_filesystem).open_function f.world disk path mode_write in
      open_descriptor-Effect (record f { world = r.1 }) disk (r.0)
  open_file-Effect f disk path mode_append =
      let r = (driver f.disk_filesystem).open_function f.world disk path mode_append in
      open_descriptor-Effect (record f { world = r.1 }) disk (r.0)

  open_parts-Effect :
      (f : Files S) (parts : List (List ℕ)) (disk : Option ℕ) (mode_str : List ℕ)
      → Ends (OpenEffect f) (open_parts driver primary f parts disk mode_str)
  unfolding open_parts
  open_parts-Effect f [] disk mode_str = inl (refl, refl)
  open_parts-Effect f (p ∷ ps) none mode_str = inl (refl, refl)
  open_parts-Effect f (p ∷ ps) (some disk) mode_str =
      if-both (Ends (OpenEffect f)) (f.disk_filesystem == 0) (done (err einvarg, f)) _
        (inl (refl, refl))
        (Ends-bind (OpenEffect f) (file_get_mode_by_string mode_str)
          (λ mode. done (open_file driver primary f disk (p ∷ ps) mode))
          (λ mode. open_file-Effect f disk (p ∷ ps) mode))

  open_root-Effect :
      (f : Files S) (root : Option PathRoot) (mode_str : List ℕ)
      → Ends (OpenEffect f) (open_root driver primary f root mode_str)
  unfolding open_root
  open_root-Effect f none mode_str = inl (refl, refl)
  open_root-Effect f (some root) mode_str =
      open_parts-Effect f root.parts (disk_get primary root.drive_no) mode_str

  abbrev CallEffect : Files S → ℕ × Files S → Type 0
  CallEffect f r = Effect f.file_descriptors r.0 r.1.file_descriptors

  Ends-no_negative :
      (f : Files S) (m : Run (Result ℕ × Files S))
      → Ends (OpenEffect f) m
      → Ends (CallEffect f) (m >>= λ r. done (no_negative r.0, r.1))
  Ends-no_negative f (done r) h = h
  Ends-no_negative f panic h = tt
  Ends-no_negative f wild h = tt

  fopen-Ends :
      (f : Files S) (filename mode_str : List ℕ)
      → Ends (CallEffect f) (fopen driver primary f filename mode_str)
  unfolding fopen
  fopen-Ends f filename mode_str =
      Ends-bind (CallEffect f) (pathparser_parse filename)
        (λ root. open_root driver primary f root mode_str >>= λ r. done (no_negative r.0, r.1))
        (λ root.
          Ends-no_negative f (open_root driver primary f root mode_str)
            (open_root-Effect f root mode_str))

  pub fopen-Effect :
      (f g : Files S) (filename mode_str : List ℕ) (n : ℕ)
      → fopen driver primary f filename mode_str ≡ done (n, g)
      → Effect f.file_descriptors n g.file_descriptors
  fopen-Effect f g filename mode_str n e =
      subst (Ends (CallEffect f)) e (fopen-Ends f filename mode_str)
