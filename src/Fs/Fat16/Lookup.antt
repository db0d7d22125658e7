-- ===== src/Fs/Fat16/Lookup.antt =====
-- From a path to an open file: directories are loaded one inside the other. Allocation succeeds. A
-- negative count of items, which only a disk error gives, is not followed further: it is `wild`.
pub mod Find
mod Tests
use cos.Prelude.{
  ℕ, zero, suc, ◌-◌, ◌*◌, Bool, true, false, Option, none, some, List, [], ◌∷◌, ◌++◌, drop, take,
  length, replicate, Result, ok, err, Run, done, wild, ◌>>=◌, ◌>>◌, ℤ, pos, negsuc, eio, erdonly,
}
use cos.Strings.{istrncmp}
use cos.Fs.File.{FileMode, mode_read, mode_write, mode_append, mode_invalid, is_zero}
use cos.Fs.PathParser.{max_path}
use cos.Fs.Fat16.Private.{
  FatDirectoryItem, FatPrivate, sizeof_item, fat16_get_first_cluster, fat16_cluster_to_sector,
}
use cos.Fs.Fat16.Clusters.{fat16_read_internal}
use cos.Fs.Fat16.Descriptor.{
  DirectoryPointer, null, live, freed, FatItem, directory_item, file_item, FatFileDescriptor,
  fat16_fat_item_free,
}
use cos.Fs.Fat16.Names.{fat16_get_full_relative_filename}
use cos.Fs.Fat16.Directory.{is_subdirectory, fat16_get_total_items_for_directory}

unfoldable pub fat16_clone_directory_item : FatDirectoryItem → (size : ℕ) → FatDirectoryItem
fat16_clone_directory_item item size = take size item

-- A part of a path in its buffer of COS32_MAX_PATH zeroed bytes.
abbrev pub part_buffer : List ℕ → List ℕ
part_buffer part = part ++ replicate (max_path - length part) 0

-- After an error the directory returned is one that has been freed.
abbrev pub loaded : ℤ → Result (Unit {0}) × List ℕ × FatPrivate → DirectoryPointer × FatPrivate
loaded total (err e, bytes, private) = (freed, private)
loaded total (ok u, bytes, private) =
    (live (record { item = bytes; total = total; sector_pos = 0; ending_sector_pos = 0 }), private)

abbrev pub open_found : Option FatItem × FatPrivate → Result FatFileDescriptor × FatPrivate
open_found (none, private) = (err eio, private)
open_found (some item, private) = (ok (record { item = item; position = 0 }), private)

-- A negative total gives no rounds.
abbrev pub rounds_of : ℤ → ℕ
rounds_of (pos n) = n
rounds_of (negsuc n) = 0

module _ (primary : ℕ) (sector : ℕ → ℕ → ℕ) where
  -- The items of the directory, when they have been counted.
  unfoldable pub load_items : (cluster : ℕ) → ℤ × FatPrivate → Run (DirectoryPointer × FatPrivate)
  load_items cluster (negsuc e, private) = wild
  load_items cluster (pos n, private) =
      fat16_read_internal primary sector private cluster 0 (n * sizeof_item) >>= λ read.
      done (loaded (pos n) read)

  unfoldable pub fat16_load_fat_directory :
      FatPrivate → FatDirectoryItem → Run (DirectoryPointer × FatPrivate)
  fat16_load_fat_directory private item =
      let cluster = fat16_get_first_cluster item in
      elim (is_subdirectory item) [
        | false ↦ done (null, private)
        | true ↦
            fat16_get_total_items_for_directory primary sector private
              (fat16_cluster_to_sector private cluster)
            >>= load_items cluster
      ]

  unfoldable pub fat16_new_fat_item_for_directory_item :
      FatPrivate → FatDirectoryItem → Run (FatItem × FatPrivate)
  fat16_new_fat_item_for_directory_item private item = elim (is_subdirectory item) [
    | true ↦ do
      (directory, private') ← fat16_load_fat_directory private item
      done (directory_item directory, private')
    | false ↦ done (file_item (fat16_clone_directory_item item sizeof_item), private)
  ]

  -- The item when its name is the one sought, else what was found before.
  unfoldable pub take_item :
      FatPrivate → FatDirectoryItem → Option FatItem → Bool → Run (Option FatItem × FatPrivate)
  take_item private item f_item false = done (f_item, private)
  take_item private item f_item true = do
    (found, private') ← fat16_new_fat_item_for_directory_item private item
    done (some found, private')

  unfoldable pub find_item :
      FatPrivate
      → FatDirectoryItem
      → (name : List ℕ) → Option FatItem
      → Run (Option FatItem × FatPrivate)
  find_item private item name f_item = do
    tmp_filename ← fat16_get_full_relative_filename item max_path
    order ← istrncmp tmp_filename name max_path
    take_item private item f_item (is_zero order)

  -- The loop, on the number of items left and the bytes from the next one on.
  unfoldable pub find_loop :
      (rounds : ℕ)
      → FatPrivate
      → (items name : List ℕ) → Option FatItem
      → Run (Option FatItem × FatPrivate)
  find_loop zero private items name f_item = done (f_item, private)
  find_loop (suc n) private items name f_item = do
    (f_item', private') ← find_item private items name f_item
    find_loop n private' (drop sizeof_item items) name f_item'

  unfoldable pub fat16_find_item_in_directory :
      FatPrivate → DirectoryPointer → (name : List ℕ) → Run (Option FatItem × FatPrivate)
  fat16_find_item_in_directory private null name = wild
  fat16_find_item_in_directory private freed name = wild
  fat16_find_item_in_directory private (live directory) name =
      find_loop (rounds_of directory.total) private directory.item name none

  -- The loop, on the parts that are left. An item that is no directory is not freed.
  unfoldable pub walk_loop :
      FatPrivate → Option FatItem → List (List ℕ) → Run (Option FatItem × FatPrivate)
  walk_loop private current [] = done (current, private)
  walk_loop private none (part ∷ parts) = wild
  walk_loop private (some (file_item item)) (part ∷ parts) = done (none, private)
  walk_loop private (some (directory_item directory)) (part ∷ parts) = do
    (tmp_item, private') ← fat16_find_item_in_directory private directory (part_buffer part)
    fat16_fat_item_free (directory_item directory)
    walk_loop private' tmp_item parts

  unfoldable pub walk_root :
      List (List ℕ) → Option FatItem × FatPrivate → Run (Option FatItem × FatPrivate)
  walk_root parts (none, private) = done (none, private)
  walk_root parts (some root, private) = walk_loop private (some root) parts

  -- A path has a part.
  unfoldable pub fat16_get_directory_entry :
      FatPrivate → List (List ℕ) → Run (Option FatItem × FatPrivate)
  fat16_get_directory_entry private [] = wild
  fat16_get_directory_entry private (part ∷ parts) =
      fat16_find_item_in_directory private (live private.root_directory) (part_buffer part)
      >>= walk_root parts

  unfoldable pub fat16_open :
      FatPrivate → List (List ℕ) → FileMode → Run (Result FatFileDescriptor × FatPrivate)
  fat16_open private path mode_read =
      fat16_get_directory_entry private path >>= λ entry. done (open_found entry)
  fat16_open private path mode_write = done (err erdonly, private)
  fat16_open private path mode_append = done (err erdonly, private)
  fat16_open private path mode_invalid = done (err erdonly, private)
