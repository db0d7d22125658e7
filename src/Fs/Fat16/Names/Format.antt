-- ===== src/Fs/Fat16/Names/Format.antt =====
-- The name of an item whose parts are shorter than their fields.
use cos.Prelude.{
  ℕ, zero, suc, ◌+◌, ◌-◌, ◌<◌, ◌≡◌, ◌≢◌, refl, ap, ◌∙◌, arith, false, ◌||◌, List, [], ◌∷◌, ◌++◌,
  ◌==◌, if◌then◌else◌, length, drop, replicate, done, append_assoc, subst, length-append,
  get_or-append,
}
use cos.Fs.Fat16.Private.{u8}
use cos.Fs.Fat16.Names.{
  space, dot, fat16_to_proper_string, extension, fat16_get_full_relative_filename,
}

-- No byte ends a name.
abbrev pub IsName : List ℕ → Type 0
IsName [] = Unit
IsName (c ∷ cs) = (c ≢ 0) × (c ≢ space) × IsName cs

to_proper_string-space :
    (cs rest : List ℕ) (room : ℕ)
    → IsName cs
    → length cs < room
    → fat16_to_proper_string (replicate room 0) (cs ++ (space ∷ rest))
      ≡ done (cs, replicate (room - length cs) 0)
unfolding fat16_to_proper_string
to_proper_string-space cs rest zero h lt = absurd (omega arith)
to_proper_string-space [] rest (suc room) h lt =
    let e : suc room ≡ suc room - 0 = omega arith in ap (λ n. done ([], replicate n 0)) e
to_proper_string-space (c ∷ cs) rest (suc room) h lt =
    let a : (c == 0) ≡ false = ground arith in
    let b : (c == space) ≡ false = ground arith in
    rw (a, b, to_proper_string-space cs rest room h.2 (omega arith))
      (let e : room - length cs ≡ suc room - suc (length cs) = omega arith in
        ap (λ n. done (c ∷ cs, replicate n 0)) e)

drop-length : (xs ys : List ℕ) → drop (length xs) (xs ++ ys) ≡ ys
drop-length [] ys = refl
drop-length (x ∷ xs) ys = drop-length xs ys

-- What follows the name in a buffer with so much room left.
abbrev pub with_extension : List ℕ → (room : ℕ) → List ℕ
with_extension [] room = replicate room 0
with_extension (c ∷ cs) room = dot ∷ (c ∷ cs) ++ replicate (room - 1 - length (c ∷ cs)) 0

module _ (name pad ext rest : List ℕ) where
  -- The bytes of an item: the name, a space behind it in its field, and the extension.
  abbrev pub item_bytes : List ℕ
  item_bytes = (name ++ (space ∷ pad)) ++ (ext ++ (space ∷ rest))

  module _ (names : IsName name) (field : length name + suc (length pad) ≡ 8) where
    behind_name : drop 8 item_bytes ≡ ext ++ (space ∷ rest)
    behind_name =
        subst (λ n. drop n item_bytes ≡ ext ++ (space ∷ rest))
          (length-append name (space ∷ pad) ∙ field)
          (drop-length (name ++ (space ∷ pad)) (ext ++ (space ∷ rest)))

    first_string :
        (room : ℕ)
        → length name < room
        → fat16_to_proper_string (replicate room 0) item_bytes
          ≡ done (name, replicate (room - length name) 0)
    first_string room lt =
        ap (fat16_to_proper_string (replicate room 0)) (append_assoc name (space ∷ pad) _)
        ∙ to_proper_string-space name (pad ++ (ext ++ (space ∷ rest))) room names lt

    first_of_extension : u8 item_bytes 8 ≡ u8 (ext ++ (space ∷ rest)) 0
    first_of_extension =
        let e : length (name ++ (space ∷ pad)) + 0 ≡ 8 =
          omega (arith, length-append name (space ∷ pad), field) in
        subst (λ n. u8 item_bytes n ≡ u8 (ext ++ (space ∷ rest)) 0) e
          (get_or-append (name ++ (space ∷ pad)) (ext ++ (space ∷ rest)) 0 0)

    no_extension :
        (room : ℕ)
        → ext ≡ []
        → (if u8 item_bytes 8 == 0 || u8 item_bytes 8 == space
            then done (replicate room 0)
            else extension item_bytes (replicate room 0))
          ≡ done (replicate room 0)
    no_extension room e =
        let f : u8 item_bytes 8 ≡ space =
          first_of_extension ∙ ap (λ x. u8 (x ++ (space ∷ rest)) 0) e in
        rw f refl

    some_extension :
        (room c : ℕ) (cs : List ℕ)
        → ext ≡ c ∷ cs
        → IsName (c ∷ cs)
        → suc (length (c ∷ cs)) < room
        → (if u8 item_bytes 8 == 0 || u8 item_bytes 8 == space
            then done (replicate room 0)
            else extension item_bytes (replicate room 0))
          ≡ done (with_extension (c ∷ cs) room)
    unfolding extension
    some_extension zero c cs e h lt = absurd (omega arith)
    some_extension (suc room) c cs e h lt =
        let f : u8 item_bytes 8 ≡ c = first_of_extension ∙ ap (λ x. u8 (x ++ (space ∷ rest)) 0) e in
        let a : (c == 0) ≡ false = ground arith in
        let b : (c == space) ≡ false = ground arith in
        let d : drop 8 item_bytes ≡ (c ∷ cs) ++ (space ∷ rest) =
          behind_name ∙ ap (λ x. x ++ (space ∷ rest)) e in
        let g : room - length (c ∷ cs) ≡ suc room - 1 - length (c ∷ cs) = omega arith in
        rw (f, a, b, d, to_proper_string-space (c ∷ cs) rest room h (omega arith))
          (ap (λ n. done (dot ∷ (c ∷ cs) ++ replicate n 0)) g)

    last_part :
        (room : ℕ) (x : List ℕ)
        → ext ≡ x
        → IsName x
        → suc (length x) < room
        → (if u8 item_bytes 8 == 0 || u8 item_bytes 8 == space
            then done (replicate room 0)
            else extension item_bytes (replicate room 0))
          ≡ done (with_extension x room)
    last_part room [] e h lt = no_extension room e
    last_part room (c ∷ cs) e h lt = some_extension room c cs e h lt

    -- The string of an item whose name is shorter than its field, and whose extension has a space behind
    -- it, is the name, and a dot and the extension if there is one; the rest of the buffer is zero. The
    -- buffer has room for all of these.
    pub fat16_get_full_relative_filename-with_extension :
        (max_len : ℕ)
        → IsName ext
        → suc (length name + length ext) < max_len
        → fat16_get_full_relative_filename item_bytes max_len
          ≡ done (name ++ with_extension ext (max_len - length name))
    unfolding fat16_get_full_relative_filename
    fat16_get_full_relative_filename-with_extension max_len h lt =
        rw
          (
            first_string max_len (omega arith),
            last_part (max_len - length name) ext refl h (omega arith),
          )
          refl
