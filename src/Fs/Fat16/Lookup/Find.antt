-- ===== src/Fs/Fat16/Lookup/Find.antt =====
-- Which item of a directory of files is found by a name, and opened.
use native.Mathlib.Decide.{ℕ_discrete}
use mathlib.Core.List.{map, List-discrete}
use cos.Prelude.{
  ℕ, zero, suc, ◌-◌, ◌<◌, ◌≡◌, ◌≢◌, refl, ap, ◌∙◌, arith, true, false, Option, none, some, List, [],
  ◌∷◌, ◌++◌, drop, take, length, replicate, ok, err, done, ◌>>=◌, ℤ, pos, negsuc, eio,
}
use cos.Strings.{tolower}
use cos.Strings.Copy.{IsText}
use cos.Strings.Compare.{istrncmp-Decides}
use cos.Fs.File.{mode_read, is_zero}
use cos.Fs.PathParser.{max_path}
use cos.Fs.Fat16.Private.{FatPrivate, sizeof_item}
use cos.Fs.Fat16.Descriptor.{FatItem, file_item}
use cos.Fs.Fat16.Names.{fat16_get_full_relative_filename}
use cos.Fs.Fat16.Directory.{is_subdirectory}
use cos.Fs.Fat16.Lookup.{
  fat16_clone_directory_item, fat16_new_fat_item_for_directory_item, take_item, find_item,
  find_loop, rounds_of, part_buffer, open_found, fat16_find_item_in_directory, walk_root, walk_loop,
  fat16_get_directory_entry, fat16_open,
}

-- The items from `items` on are files of these names.
abbrev pub AreFiles : (names : List (List ℕ)) → (items : List ℕ) → Type 0
AreFiles [] items = Unit
AreFiles (name ∷ names) items =
    (is_subdirectory items ≡ false)
    × IsText name
    × ((rest : List ℕ) × (fat16_get_full_relative_filename items max_path
          ≡ done (name ++ (0 ∷ rest))))
    × AreFiles names (drop sizeof_item items)

-- Up to the case of letters, in the bytes that are compared.
abbrev pub SameName : (name part : List ℕ) → Type 0
SameName name part = map tolower (take max_path name) ≡ map tolower (take max_path part)

abbrev pub NoneSame : (names : List (List ℕ)) → (part : List ℕ) → Type 0
NoneSame [] part = Unit
NoneSame (name ∷ names) part = (SameName name part → ⊥) × NoneSame names part

is_zero-pos : (v : ℤ) → (v ≢ pos 0) → is_zero v ≡ false
is_zero-pos (pos zero) ne = absurd (ne refl)
is_zero-pos (pos (suc n)) ne = ground arith
is_zero-pos (negsuc n) ne = refl

module _ (primary : ℕ) (sector : ℕ → ℕ → ℕ) (private : FatPrivate) (part : List ℕ)
    (text : IsText part) (short : length part < max_path) where
  -- What the buffer of the part has behind its text.
  abbrev behind : List ℕ
  behind = replicate (max_path - suc (length part)) 0

  buffer-text : part_buffer part ≡ part ++ (0 ∷ behind)
  buffer-text =
      let e : max_path - length part ≡ suc (max_path - suc (length part)) = omega arith in
      ap (λ n. part ++ replicate n 0) e

  module _ (name items : List ℕ) (found : Option FatItem) (file : is_subdirectory items ≡ false)
      (t : IsText name) (rest : List ℕ)
      (full : fat16_get_full_relative_filename items max_path ≡ done (name ++ (0 ∷ rest))) where
    find_item-same :
        SameName name part
        → find_item primary sector private items (part ++ (0 ∷ behind)) found
          ≡ done (some (file_item (take sizeof_item items)), private)
    unfolding find_item take_item fat16_new_fat_item_for_directory_item fat16_clone_directory_item
    find_item-same same =
        let (v, order, iff) = istrncmp-Decides name part rest behind max_path t text in
        let z : v ≡ pos 0 = iff.1 same in
        let e : is_zero v ≡ true = ap is_zero z in
        rw (full, order, e, take_item, file, fat16_new_fat_item_for_directory_item) refl

    find_item-other :
        (SameName name part → ⊥)
        → find_item primary sector private items (part ++ (0 ∷ behind)) found
          ≡ done (found, private)
    unfolding find_item take_item
    find_item-other other =
        let (v, order, iff) = istrncmp-Decides name part rest behind max_path t text in
        let e : is_zero v ≡ false = is_zero-pos v (λ z. other (iff.0 z)) in
        rw (full, order, e, take_item) refl

  -- Items of other names leave what was found before.
  find_loop-other :
      (names : List (List ℕ)) (items : List ℕ) (found : Option FatItem)
      → AreFiles names items
      → NoneSame names part
      → find_loop primary sector (length names) private items (part ++ (0 ∷ behind)) found
        ≡ done (found, private)
  unfolding find_loop
  find_loop-other [] items found files none_same = refl
  find_loop-other (name ∷ names) items found (file, t, (rest, full), files) (other, none_same) =
      rw (find_item-other name items found file t rest full other)
        (find_loop-other names (drop sizeof_item items) found files none_same)

  -- The item behind `n` others.
  abbrev pub nth_item : (n : ℕ) → (items : List ℕ) → List ℕ
  nth_item zero items = take sizeof_item items
  nth_item (suc n) items = nth_item n (drop sizeof_item items)

  find_loop-last :
      (pre post : List (List ℕ)) (name items : List ℕ) (found : Option FatItem)
      → AreFiles (pre ++ (name ∷ post)) items
      → SameName name part
      → NoneSame post part
      → find_loop primary sector
          (length (pre ++ (name ∷ post)))
          private
          items
          (part ++ (0 ∷ behind))
          found
        ≡ done (some (file_item (nth_item (length pre) items)), private)
  unfolding find_loop
  find_loop-last [] post name items found (file, t, (rest, full), files) same none_same =
      rw (find_item-same name items found file t rest full same)
        (find_loop-other post (drop sizeof_item items) _ files none_same)
  find_loop-last (before ∷ pre) post name items found (file, t, (rest, full), files) same
        none_same =
      elim (List-discrete ℕ_discrete (map tolower (take max_path before))
        (map tolower (take max_path part))) [
          | yes e ↦
              rw (find_item-same before items found file t rest full e)
                (find_loop-last pre post name (drop sizeof_item items) _ files same none_same)
          | no ne ↦
              rw (find_item-other before items found file t rest full ne)
                (find_loop-last pre post name (drop sizeof_item items) _ files same none_same)
        ]

  walk_root-end :
      (found : Option FatItem)
      → walk_root primary sector [] (found, private) ≡ done (found, private)
  unfolding walk_root walk_loop
  walk_root-end none = refl
  walk_root-end (some item) = refl

  -- A path of one part is what the loop over the root directory finds.
  fat16_open-open_found :
      (names : List (List ℕ)) (found : Option FatItem)
      → private.root_directory.total ≡ pos (length names)
      → find_loop primary sector
          (length names)
          private
          private.root_directory.item
          (part ++ (0 ∷ behind))
          none
        ≡ done (found, private)
      → fat16_open primary sector private (part ∷ []) mode_read ≡ done (open_found (found, private))
  unfolding fat16_open fat16_get_directory_entry fat16_find_item_in_directory
  fat16_open-open_found names found e loop =
      let root = private.root_directory in
      let rounds =
        ap (λ t. find_loop primary sector (rounds_of t) private root.item (part_buffer part) none) e
        ∙ ap (λ b. find_loop primary sector (length names) private root.item b none) buffer-text in
      ap (λ r. r >>= walk_root primary sector [] >>= λ entry. done (open_found entry))
        (rounds ∙ loop)
      ∙ ap (λ r. r >>= λ entry. done (open_found entry)) (walk_root-end found)

  -- In a root directory of files with the names `pre`, `name` and `post`, where `name` is the part up to
  -- the case of letters and none of `post` is, a path of this one part, of fewer than 108 bytes, opens
  -- to be read the file behind those of `pre`, at position 0.
  pub fat16_open-last_match :
      (pre post : List (List ℕ)) (name : List ℕ)
      → private.root_directory.total ≡ pos (length (pre ++ (name ∷ post)))
      → AreFiles (pre ++ (name ∷ post)) private.root_directory.item
      → SameName name part
      → NoneSame post part
      → fat16_open primary sector private (part ∷ []) mode_read
        ≡ done (
          ok (record {
            item = file_item (nth_item (length pre) private.root_directory.item);
            position = 0;
          }),
          private,
        )
  fat16_open-last_match pre post name e files same none_same =
      fat16_open-open_found (pre ++ (name ∷ post)) (some _) e
        (find_loop-last pre post name private.root_directory.item none files same none_same)

  -- In a root directory of files of which none has the part as its name up to the case of letters, a
  -- path of this one part, of fewer than 108 bytes, fails with EIO, and the private data stays.
  pub fat16_open-no_match :
      (names : List (List ℕ))
      → private.root_directory.total ≡ pos (length names)
      → AreFiles names private.root_directory.item
      → NoneSame names part
      → fat16_open primary sector private (part ∷ []) mode_read ≡ done (err eio, private)
  fat16_open-no_match names e files none_same =
      fat16_open-open_found names none e
        (find_loop-other names private.root_directory.item none files none_same)
