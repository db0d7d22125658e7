-- ===== src/Fs/PathParser.antt =====
-- fs/pparser.c: a path such as 0:/bin/shell.e as a drive number and parts. Allocation is left out:
-- every `kzalloc` of this file is taken to succeed, and the chain of `path_part` is a list.
pub mod Spec
pub mod Parse
pub mod RoundTrip
mod Tests
use cos.Prelude.{
  ℕ, zero, suc, ◌+◌, ◌<◌, ◌≡◌, Bool, true, false, ◌&&◌, ◌||◌, Option, none, some, List, [], ◌∷◌,
  ltb, leb, ◌==◌, if◌then◌else◌, length, Result, ok, err, Run, done, wild, ◌>>=◌, ℤ, pos, negsuc,
  ebadpath,
}
use cos.Strings.{strlen, strnlen, isdigit, tonumericdigit, memcmp}

-- COS32_MAX_PATH.
abbrev pub max_path : ℕ
max_path = 108

abbrev pub slash : ℕ
slash = 47

abbrev pub colon : ℕ
colon = 58

-- `struct path_root` with the parts that hang on it.
pub record PathRoot : Type 0 where
  pub drive_no : ℕ
  pub parts : List (List ℕ)

-- `memcmp(&filename[1], ":/", 2) == 0`, reached only with three bytes before the terminator.
unfoldable pub is_root_prefix : List ℕ → Run Bool
is_root_prefix [] = wild
is_root_prefix (c ∷ cs) = do
  v ← memcmp cs (colon ∷ slash ∷ 0 ∷ []) 2
  done (elim v [ pos n ↦ n == 0 | negsuc _ ↦ false ])

-- `isdigit(filename[0])`.
abbrev pub starts_with_digit : List ℕ → Bool
starts_with_digit [] = false
starts_with_digit (c ∷ cs) = isdigit c

unfoldable pub path_valid_format : List ℕ → Run Bool
path_valid_format filename = do
  len ← strnlen filename max_path
  if leb 3 len && starts_with_digit filename then is_root_prefix filename else done false

-- `*path += 3` behind the digit.
unfoldable pub skip_drive : List ℕ → Run (Result (ℕ × List ℕ))
skip_drive (c ∷ c1 ∷ c2 ∷ cs) = done (ok (tonumericdigit c, cs))
skip_drive _ = wild

-- The drive, and where the path points afterwards: three bytes further.
unfoldable pub path_get_drive_by_path : List ℕ → Run (Result (ℕ × List ℕ))
path_get_drive_by_path path = do
  valid ← path_valid_format path
  if valid then skip_drive path else done (err ebadpath)

abbrev pub cons_part : ℕ → Run (List ℕ × List ℕ) → Run (List ℕ × List ℕ)
cons_part c r = r >>= λ (p : List ℕ × List ℕ). done (c ∷ p.0, p.1)

-- The loop that copies a part into a buffer of `room` more bytes: the bytes, and the path.
unfoldable pub path_part_loop : (room : ℕ) → List ℕ → Run (List ℕ × List ℕ)
path_part_loop room [] = wild
path_part_loop zero (c ∷ cs) = if c == slash || c == 0 then done ([], c ∷ cs) else wild
path_part_loop (suc room) (c ∷ cs) =
    if c == slash || c == 0 then done ([], c ∷ cs) else cons_part c (path_part_loop room cs)

abbrev pub skip_slash : List ℕ → List ℕ
skip_slash [] = []
skip_slash (c ∷ cs) = if c == slash then cs else c ∷ cs

-- A part of no bytes is freed and given as NULL.
abbrev pub non_empty : List ℕ → Option (List ℕ)
non_empty [] = none
non_empty (c ∷ cs) = some (c ∷ cs)

unfoldable pub pathparser_get_path_part : List ℕ → Run (Option (List ℕ) × List ℕ)
pathparser_get_path_part path = do
  (part, path') ← path_part_loop max_path path
  done (non_empty part, skip_slash path')

-- The `while (part)` loop, which links each part to the one before. It ends before `fuel` does if
-- `fuel` exceeds the bytes of the path.
unfoldable pub parse_parts : (fuel : ℕ) → List ℕ → Run (List (List ℕ))
parse_parts zero path = wild
parse_parts (suc k) path = pathparser_get_path_part path >>= λ (r : Option (List ℕ) × List ℕ).
    elim (r.0) [ none ↦ done [] | some p ↦ parse_parts k r.1 >>= λ ps. done (p ∷ ps) ]

-- The first part hangs on the root; where it is NULL the later ones hang on nothing.
abbrev pub hang : Option (List ℕ) → List (List ℕ) → List (List ℕ)
hang none ps = []
hang (some p) ps = p ∷ ps

unfoldable pub parse_from : (len drive_no : ℕ) → List ℕ → Run (Option PathRoot)
parse_from len drive_no path = do
  (first_part, path') ← pathparser_get_path_part path
  ps ← parse_parts (suc len) path'
  done (some (record { drive_no = drive_no; parts = hang first_part ps }))

unfoldable pub pathparser_parse : List ℕ → Run (Option PathRoot)
pathparser_parse path = do
  len ← strlen path
  let parsed = path_get_drive_by_path path >>= λ res. elim res [
    | err _ ↦ done none
    | ok (drive_no, path') ↦ parse_from len drive_no path'
  ]
  if leb max_path len then done none else parsed
