-- ===== src/Fs/File/Open.antt =====
-- What `fopen` does, and that the calls on the descriptor that it returns reach the file.
use cos.Prelude.{
  ℕ, suc, ◌+◌, ◌-◌, ◌^◌, ◌<◌, ◌≡◌, ◌≢◌, refl, ◌∙◌, arith, Bool, true, false, Option, none, some,
  List, ◌∷◌, leb, ◌==◌, if◌then◌else◌, length, set, get_or-set_self, set-set, Result, ok, err,
  enomem, eio, done, ℤ, pos,
}
use cos.Fs.PathParser.{pathparser_parse}
use cos.Fs.DiskStream.{disk_get}
use cos.Fs.File.{
  Filesystem, FileDescriptor, FileMode, mode_read, mode_write, mode_append, mode_invalid, Files,
  max_file_descriptors, free_slot, file_new_descriptor, file_get_descriptor,
  file_get_mode_by_string, no_negative, open_descriptor, open_file, open_parts, open_root, fopen,
}
use cos.Fs.File.Slots.{free_slot-FreeSlot, get_descriptor-at, get_descriptor-set_ne}

-- The descriptor that `fopen` makes, and the files with it in slot `i`.
abbrev pub descriptor_at : (i filesystem private disk : ℕ) → FileDescriptor
descriptor_at i filesystem private disk = record {
  index = i + 1;
  filesystem = filesystem;
  private = private;
  disk = disk;
}

abbrev pub opened : {S : Type 0} → Files S → (i private disk : ℕ) (world' : S) → Files S
opened f i private disk world' = record f {
  file_descriptors =
      set f.file_descriptors i (some (descriptor_at i f.disk_filesystem private disk));
  world = world';
}

pub new_descriptor-some :
    (ds : List (Option FileDescriptor)) (i : ℕ)
    → free_slot ds ≡ some i
    → file_new_descriptor ds
      ≡ (ok i, set ds i (some (record { index = i + 1; filesystem = 0; private = 0; disk = 0 })))
unfolding file_new_descriptor
new_descriptor-some ds i e = rw (e, file_new_descriptor)

pub new_descriptor-none :
    (ds : List (Option FileDescriptor))
    → free_slot ds ≡ none
    → file_new_descriptor ds ≡ (err enomem, ds)
unfolding file_new_descriptor
new_descriptor-none ds e = rw (e, file_new_descriptor)

module _ {S : Type 0} (driver : ℕ → Filesystem S) (primary : ℕ) where
  pub open_descriptor-opened :
      (f : Files S) (disk private i : ℕ)
      → private ≢ 0
      → private < 2 ^ 31
      → free_slot f.file_descriptors ≡ some i
      → open_descriptor driver primary f disk private
        ≡ (ok (i + 1), opened f i private disk f.world)
  unfolding open_descriptor
  open_descriptor-opened f disk private i nz small slot =
      let a : (private == 0) ≡ false = ground arith in
      let b : leb (2 ^ 31) private ≡ false = ground arith in
      rw (
        a,
        b,
        new_descriptor-some f.file_descriptors i slot,
        set-set f.file_descriptors i
            (some (record { index = i + 1; filesystem = 0; private = 0; disk = 0 }))
            (some (descriptor_at i f.disk_filesystem private disk)),
      )

  pub open_descriptor-full :
      (f : Files S) (disk private : ℕ)
      → free_slot f.file_descriptors ≡ none
      → no_negative (open_descriptor driver primary f disk private).0 ≡ 0
  unfolding open_descriptor
  open_descriptor-full f disk private full =
      rw (new_descriptor-none f.file_descriptors full)
        (zero_of (private == 0) (leb (2 ^ 31) private))
    where
      zero_of :
          (a b : Bool)
          → no_negative (
              let r : Result ℕ × Files S =
                if a
                then (err eio, f)
                else if b
                then (err (2 ^ 32 - private), f)
                else (err enomem, f) in
              r.0)
            ≡ 0
      zero_of true b = refl
      zero_of false true = refl
      zero_of false false = refl

  open_file-mode :
      (f : Files S) (disk : ℕ) (path : List (List ℕ)) (mode : FileMode) (private : ℕ) (world' : S)
      → mode ≢ mode_invalid
      → (driver f.disk_filesystem).open_function f.world disk path mode ≡ (private, world')
      → open_file driver primary f disk path mode
        ≡ open_descriptor driver primary (record f { world = world' }) disk private
  unfolding open_file
  open_file-mode f disk path mode_read private world' valid e = rw e
  open_file-mode f disk path mode_write private world' valid e = rw e
  open_file-mode f disk path mode_append private world' valid e = rw e
  open_file-mode f disk path mode_invalid private world' valid e = absurd (valid refl)

  -- `fopen` of a path with parts on drive 0, in a mode that is known, where the disk has a
  -- filesystem that opens the file and slot `i` of the table is the first that is free: it
  -- returns `i + 1`, this number names the file from then on, and every other number `fd` names
  -- what it named before.
  pub fopen-opened :
      (f : Files S) (filename mode_str part : List ℕ) (parts : List (List ℕ)) (mode : FileMode)
      (private i : ℕ) (world' : S) (fd : ℤ)
      → length f.file_descriptors ≡ max_file_descriptors
      → f.disk_filesystem ≢ 0
      → pathparser_parse filename ≡ done (some (record { drive_no = 0; parts = part ∷ parts }))
      → file_get_mode_by_string mode_str ≡ done mode
      → mode ≢ mode_invalid
      → (driver f.disk_filesystem).open_function f.world primary (part ∷ parts) mode
        ≡ (private, world')
      → private ≢ 0
      → private < 2 ^ 31
      → free_slot f.file_descriptors ≡ some i
      → fd ≢ pos (suc i)
      → (fopen driver primary f filename mode_str ≡ done (i + 1, opened f i private primary world'))
        × (file_get_descriptor (opened f i private primary world').file_descriptors (pos (suc i))
            ≡ some (descriptor_at i f.disk_filesystem private primary))
        × (file_get_descriptor (opened f i private primary world').file_descriptors fd
            ≡ file_get_descriptor f.file_descriptors fd)
  unfolding fopen open_root open_parts disk_get
  fopen-opened f filename mode_str part parts mode private i world' fd whole fs path known valid
        opens nz small slot ne =
      let z : (f.disk_filesystem == 0) ≡ false = ground arith in
      let free = free_slot-FreeSlot f.file_descriptors i slot in
      let within = free.within in
      (
        rw (
          path,
          known,
          z,
          open_file-mode f primary (part ∷ parts) mode private world' valid opens,
          open_descriptor-opened (record f { world = world' }) primary private i nz small slot,
        ),
        get_descriptor-at (opened f i private primary world').file_descriptors i
              (omega (arith, whole))
            ∙ get_or-set_self f.file_descriptors i
                (some (descriptor_at i f.disk_filesystem private primary)) none within,
        get_descriptor-set_ne f.file_descriptors i
            (some (descriptor_at i f.disk_filesystem private primary)) fd ne,
      )
