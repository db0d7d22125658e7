-- ===== src/Fs/File/Tests.antt =====
-- A filesystem that opens every path, and the theorems at it.
use cos.Prelude.{
  ℤ, ℕ, suc, ◌+◌, ◌≤◌, ◌≡◌, refl, Option, none, some, List, [], ◌∷◌, arith, replicate,
  length-replicate, done, pos, neg, eio, einvarg,
}
use cos.Fs.PathParser.{
  pathparser_parse, parse_from, parse_parts, pathparser_get_path_part, path_part_loop,
  path_get_drive_by_path, path_valid_format, skip_drive, is_root_prefix,
}
use cos.Strings.{strlen, strnlen, isdigit, tonumericdigit, memcmp, strncmp, byte_sub}
use cos.Fs.File.{
  Filesystem, FileDescriptor, mode_read, Files, max_file_descriptors, free_slot,
  file_get_descriptor, file_get_mode_by_string, fopen, fread, fseek, fstat, fclose,
}
use cos.Fs.File.Slots.{used}
use cos.Fs.File.Open.{descriptor_at, opened, fopen-opened}
use cos.Fs.File.Use.{calls-refuse}
use cos.Fs.File.Calls.{Calls, start, opens, closes, opens-bounded, descriptor-kept}

-- The state counts the files opened, and the private data is that count.
abbrev driver : ℕ → Filesystem ℕ
driver a = record {
  resolve = λ w disk. pos 0;
  open_function = λ w disk path mode. (suc w, suc w);
  close = λ w private. (pos 0, w);
  read = λ w disk private size nmemb. ((pos nmemb, private ∷ []), w);
  seek = λ w private offset whence. (pos 0, w);
  stat = λ w disk private. ((pos 0, none), w);
}

abbrev files : Files ℕ
files = record {
  filesystems = 4096 ∷ [];
  file_descriptors = replicate 128 none;
  disk_filesystem = 4096;
  world = 0;
}

-- "0:/a" and "r".
abbrev name : List ℕ
name = 48 ∷ 58 ∷ 47 ∷ 97 ∷ 0 ∷ []

abbrev for_reading : List ℕ
for_reading = 114 ∷ 0 ∷ []

parsed : pathparser_parse name ≡ done (some (record { drive_no = 0; parts = (97 ∷ []) ∷ [] }))
unfolding pathparser_parse parse_from parse_parts pathparser_get_path_part path_part_loop
    path_get_drive_by_path path_valid_format skip_drive is_root_prefix strlen strnlen isdigit
    tonumericdigit memcmp byte_sub
parsed = refl

reading : file_get_mode_by_string for_reading ≡ done mode_read
unfolding file_get_mode_by_string strncmp byte_sub
reading = refl

first_free : free_slot files.file_descriptors ≡ some 0
unfolding free_slot
first_free = refl

abbrev files_open : Files ℕ
files_open = opened files 0 1 8 1

fopen-opened_example :
    (fopen driver 8 files name for_reading ≡ done (0 + 1, files_open))
    × (file_get_descriptor files_open.file_descriptors (pos 1) ≡ some (descriptor_at 0 4096 1 8))
    × (file_get_descriptor files_open.file_descriptors (pos 2)
        ≡ file_get_descriptor files.file_descriptors (pos 2))
fopen-opened_example =
    fopen-opened driver 8 files name for_reading (97 ∷ []) [] mode_read 1 0 1 (pos 2)
      (length-replicate {A = Option FileDescriptor} 128 none) (omega arith) parsed reading (λ e. cc)
      refl (omega arith) (omega arith) first_free (λ e. cc)

file_named :
    file_get_descriptor files_open.file_descriptors (pos 1) ≡ some (descriptor_at 0 4096 1 8)
unfolding file_get_descriptor
file_named = refl

none_named : file_get_descriptor files.file_descriptors (pos 3) ≡ none
unfolding file_get_descriptor
none_named = refl

calls-refuse_test :
    (fread driver 8 files 1 4 (pos 3) ≡ ((neg einvarg, []), files))
    × (fseek driver 8 files (pos 3) 5 0 ≡ (neg eio, files))
    × (fstat driver 8 files (pos 3) ≡ ((neg eio, none), files))
    × (fclose driver 8 files (pos 3) ≡ (neg eio, files))
calls-refuse_test = calls-refuse driver 8 files (pos 3) 1 4 5 0 none_named

one_opened : Calls driver 8 files 1 files_open
one_opened = opens 0 1 files files_open name for_reading start (fopen-opened_example.0)

-- One open and one close.
abbrev opened_closed : Calls driver 8 files 1 (fclose driver 8 files_open (pos 1)).1
opened_closed = closes 1 files_open (pos 1) one_opened

opens-bounded_example :
    ((fd : ℤ) (d : FileDescriptor)
      → file_get_descriptor files.file_descriptors fd ≡ some d
      → file_get_descriptor (fclose driver 8 files_open (pos 1)).1.file_descriptors fd ≡ some d)
    × (used (fclose driver 8 files_open (pos 1)).1.file_descriptors
        ≡ used files.file_descriptors + 1)
    × (used files.file_descriptors + 1 ≤ max_file_descriptors)
opens-bounded_example =
    opens-bounded driver 8 files (fclose driver 8 files_open (pos 1)).1 1
      (length-replicate {A = Option FileDescriptor} 128 none) opened_closed

descriptor-kept_test :
    file_get_descriptor (fclose driver 8 files_open (pos 1)).1.file_descriptors (pos 1)
    ≡ some (descriptor_at 0 4096 1 8)
descriptor-kept_test =
    descriptor-kept driver 8 files_open (fclose driver 8 files_open (pos 1)).1 0 (pos 1)
      (descriptor_at 0 4096 1 8) (length-replicate {A = Option FileDescriptor} 128 none)
      (closes 0 files_open (pos 1) start) file_named
