-- ===== src/Fs/File.antt =====
-- fs/file.c: the tables of filesystems and of open files, and the calls on a file descriptor. A
-- filesystem is the address of its `struct filesystem`, whose functions `driver` gives; they work on
-- a state `S` of their own. `private` data and what `open` returns are words, and an `int` is a ℤ.
-- Allocation succeeds.
pub mod Slots
pub mod Open
pub mod Use
pub mod Lifetime
pub mod Calls
mod Tests
use cos.Prelude.{
  ℕ, zero, suc, ◌+◌, ◌-◌, ◌^◌, ◌||◌, Bool, true, false, Option, none, some, List, [], ◌∷◌, ltb, leb,
  ◌==◌, if◌then◌else◌, get_or, set, Result, ok, err, Run, done, panic, ◌>>=◌, ℤ, pos, negsuc, neg,
  eio, einvarg, enomem,
}
use cos.Strings.{strncmp}
use cos.Fs.PathParser.{PathRoot, pathparser_parse}
use cos.Fs.DiskStream.{disk_get}

-- COS32_MAX_FILE_DESCRIPTORS.
abbrev pub max_file_descriptors : ℕ
max_file_descriptors = 128

pub data FileMode : Type 0 where
  mode_read : FileMode
  mode_write : FileMode
  mode_append : FileMode
  mode_invalid : FileMode

pub record FileStat : Type 0 where
  pub flags : ℕ
  pub filesize : ℕ

-- `struct filesystem`: what each function returns, what it writes through its pointer, and the state
-- afterwards.
pub record Filesystem (S : Type 0) : Type 0 where
  pub resolve : S → (disk : ℕ) → ℤ
  pub open_function : S → (disk : ℕ) → List (List ℕ) → FileMode → ℕ × S
  pub close : S → (private : ℕ) → ℤ × S
  pub read : S → (disk private size nmemb : ℕ) → (ℤ × List ℕ) × S
  pub seek : S → (private offset whence : ℕ) → ℤ × S
  pub stat : S → (disk private : ℕ) → (ℤ × Option FileStat) × S

pub record FileDescriptor : Type 0 where
  pub index : ℕ
  pub filesystem : ℕ
  pub private : ℕ
  pub disk : ℕ

-- The two tables, the filesystem of the one disk, and the state of the filesystems.
pub record Files (S : Type 0) : Type 0 where
  pub filesystems : List ℕ
  pub file_descriptors : List (Option FileDescriptor)
  pub disk_filesystem : ℕ
  pub world : S

-- An index in a list, from that in its tail.
abbrev pub next_index : Option ℕ → Option ℕ
next_index none = none
next_index (some i) = some (suc i)

-- The first slot of the table that is null.
unfoldable pub fs_get_free_filesystem : List ℕ → Option ℕ
fs_get_free_filesystem [] = none
fs_get_free_filesystem (p ∷ ps) =
    let rest = next_index (fs_get_free_filesystem ps) in if p == 0 then some 0 else rest

unfoldable pub fs_insert_filesystem : {S : Type 0} → Files S → ℕ → Run (Files S)
fs_insert_filesystem {S = S} f filesystem =
    let inserted : Run (Files S) = elim (fs_get_free_filesystem f.filesystems) [
      | none ↦ panic
      | some i ↦ done (record f { filesystems = set f.filesystems i filesystem })
    ] in
    if filesystem == 0 then panic else inserted

-- The first descriptor that is null.
unfoldable pub free_slot : List (Option FileDescriptor) → Option ℕ
free_slot [] = none
free_slot (none ∷ ds) = some 0
free_slot (some d ∷ ds) = next_index (free_slot ds)

-- The index in the table of the new descriptor, zeroed but for `index`.
unfoldable pub file_new_descriptor :
    List (Option FileDescriptor) → Result ℕ × List (Option FileDescriptor)
file_new_descriptor ds = elim (free_slot ds) [
  | none ↦ (err enomem, ds)
  | some i ↦
      (ok i, set ds i (some (record { index = i + 1; filesystem = 0; private = 0; disk = 0 })))
]

unfoldable pub file_get_descriptor : List (Option FileDescriptor) → ℤ → Option FileDescriptor
file_get_descriptor ds (negsuc n) = none
file_get_descriptor ds (pos n) =
    if n == 0 || ltb max_file_descriptors n then none else get_or ds (n - 1) none

-- `== 0` and `< 1` of an `int`.
abbrev pub is_zero : ℤ → Bool
is_zero (pos n) = n == 0
is_zero (negsuc n) = false

abbrev pub below_one : ℤ → Bool
below_one (pos n) = n == 0
below_one (negsuc n) = true

-- A mode string is compared in its first byte.
unfoldable pub file_get_mode_by_string : List ℕ → Run FileMode
file_get_mode_by_string str = do
  r ← strncmp str (114 ∷ 0 ∷ []) 1
  w ← strncmp str (119 ∷ 0 ∷ []) 1
  a ← strncmp str (97 ∷ 0 ∷ []) 1
  done (
      if is_zero r
      then mode_read
      else if is_zero w
      then mode_write
      else if is_zero a
      then mode_append
      else mode_invalid)

-- `fopen` gives no negative values.
abbrev pub no_negative : Result ℕ → ℕ
no_negative (ok n) = n
no_negative (err e) = 0

module _ {S : Type 0} (driver : ℕ → Filesystem S) (primary : ℕ) where
  -- The fields of the new descriptor, which stands in the table already.
  abbrev pub fill_descriptor :
      Files S → (disk private : ℕ) → Result ℕ × List (Option FileDescriptor) → Result ℕ × Files S
  fill_descriptor f disk private (err e, ds) = (err e, record f { file_descriptors = ds })
  fill_descriptor f disk private (ok i, ds) = (
    ok (i + 1),
    record f {
      file_descriptors = set ds i (
          some (record {
            index = i + 1;
            filesystem = f.disk_filesystem;
            private = private;
            disk = disk;
          }));
    },
  )

  -- The end of `fopen`, from what `open` returned: NULL, an error, or the private data.
  unfoldable pub open_descriptor : Files S → (disk private : ℕ) → Result ℕ × Files S
  open_descriptor f disk private =
      if private == 0
      then (err eio, f)
      else if leb (2 ^ 31) private
      then (err (2 ^ 32 - private), f)
      else fill_descriptor f disk private (file_new_descriptor f.file_descriptors)

  unfoldable pub open_file : Files S → (disk : ℕ) → List (List ℕ) → FileMode → Result ℕ × Files S
  open_file f disk path mode_invalid = (err einvarg, f)
  open_file f disk path mode =
      let (private, world') = (driver f.disk_filesystem).open_function f.world disk path mode in
      open_descriptor (record f { world = world' }) disk private

  -- `fopen` from the parsed path on: the path needs a part, the drive a disk, and the disk a
  -- filesystem.
  unfoldable pub open_parts : Files S → List (List ℕ) → Option ℕ → List ℕ → Run (Result ℕ × Files S)
  open_parts f [] disk mode_str = done (err einvarg, f)
  open_parts f (p ∷ ps) none mode_str = done (err einvarg, f)
  open_parts f (p ∷ ps) (some disk) mode_str =
      let opened =
        file_get_mode_by_string mode_str >>= λ mode. done (open_file f disk (p ∷ ps) mode) in
      if f.disk_filesystem == 0 then done (err einvarg, f) else opened

  unfoldable pub open_root : Files S → Option PathRoot → List ℕ → Run (Result ℕ × Files S)
  open_root f none mode_str = done (err einvarg, f)
  open_root f (some root) mode_str =
      open_parts f root.parts (disk_get primary root.drive_no) mode_str

  unfoldable pub fopen : Files S → (filename mode_str : List ℕ) → Run (ℕ × Files S)
  fopen f filename mode_str = do
    root_path ← pathparser_parse filename
    (res, f') ← open_root f root_path mode_str
    done (no_negative res, f')

  -- The status, the bytes that went to `ptr`, and the files.
  unfoldable pub fread : Files S → (size nmemb : ℕ) → ℤ → (ℤ × List ℕ) × Files S
  fread f size nmemb fd =
      let result : (ℤ × List ℕ) × Files S = elim (file_get_descriptor f.file_descriptors fd) [
        | none ↦ ((neg einvarg, []), f)
        | some desc ↦
            let (res, world') =
              (driver desc.filesystem).read f.world desc.disk desc.private size nmemb in
            (res, record f { world = world' })
      ] in
      if size == 0 || nmemb == 0 || below_one fd then ((neg einvarg, []), f) else result

  unfoldable pub fseek : Files S → ℤ → (offset whence : ℕ) → ℤ × Files S
  fseek f fd offset whence = elim (file_get_descriptor f.file_descriptors fd) [
    | none ↦ (neg eio, f)
    | some desc ↦
        let (res, world') = (driver desc.filesystem).seek f.world desc.private offset whence in
        (res, record f { world = world' })
  ]

  unfoldable pub fstat : Files S → ℤ → (ℤ × Option FileStat) × Files S
  fstat f fd = elim (file_get_descriptor f.file_descriptors fd) [
    | none ↦ ((neg eio, none), f)
    | some desc ↦
        let (res, world') = (driver desc.filesystem).stat f.world desc.disk desc.private in
        (res, record f { world = world' })
  ]

  unfoldable pub fclose : Files S → ℤ → ℤ × Files S
  fclose f fd = elim (file_get_descriptor f.file_descriptors fd) [
    | none ↦ (neg eio, f)
    | some desc ↦
        let (res, world') = (driver desc.filesystem).close f.world desc.private in
        (res, record f { world = world' })
  ]

  -- The loop, on the rest of the table.
  unfoldable pub resolve_loop : S → (disk : ℕ) → List ℕ → ℕ
  resolve_loop world disk [] = 0
  resolve_loop world disk (p ∷ ps) =
      let rest = resolve_loop world disk ps in
      if p == 0 then rest else if is_zero ((driver p).resolve world disk) then p else rest

  unfoldable pub fs_resolve : Files S → (disk : ℕ) → ℕ
  fs_resolve f disk = resolve_loop f.world disk f.filesystems
