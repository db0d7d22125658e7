-- ===== src/Strings/Token.antt =====
-- `strtok` of string/string.c, and of programs/stdlib/src/string.c, which has the same text; and
-- `basename`. A pointer into the string is the list of the bytes from there on. The byte that is
-- overwritten by a call is before the pointer that the call keeps.
pub mod Words
pub mod Calls
pub mod Basename
use cos.Prelude.{
  ℕ, zero, suc, Bool, false, ◌||◌, Option, none, some, List, [], ◌∷◌, ◌==◌, if◌then◌else◌, take,
  Run, done, panic, wild, ◌>>=◌,
}
use cos.Strings.{strlen, strncpy}

-- The inner loops over the delimiters.
unfoldable pub is_delimiter : (delimiters : List ℕ) → ℕ → Bool
is_delimiter [] c = false
is_delimiter (d ∷ ds) c = c == d || is_delimiter ds c

-- The first loop: where the next token starts.
unfoldable pub skip_delimiters : (delimiters p_start : List ℕ) → Run (List ℕ)
skip_delimiters ds [] = wild
skip_delimiters ds (c ∷ cs) = if is_delimiter ds c then skip_delimiters ds cs else done (c ∷ cs)

-- The second loop: the token, with the terminator in place of the delimiter, and the new position.
unfoldable pub find_end : (delimiters sp : List ℕ) → Run (List ℕ × List ℕ)
find_end ds [] = wild
find_end ds (c ∷ cs) =
    if c == 0
    then done (c ∷ cs, c ∷ cs)
    else if is_delimiter ds c
    then done (0 ∷ cs, cs)
    else find_end ds cs >>= λ (r : List ℕ × List ℕ). done (c ∷ r.0, r.1)

abbrev pub starts_with_null : List ℕ → Bool
starts_with_null [] = false
starts_with_null (c ∷ cs) = c == 0

-- From the position `sp` on: the token, and the position that is kept.
unfoldable pub next_token : (delimiters sp : List ℕ) → Run (Option (List ℕ) × Option (List ℕ))
next_token ds sp = do
  p_start ← skip_delimiters ds sp
  if starts_with_null p_start
      then done (none, none)
      else do (token, sp') ← find_end ds p_start; done (some token, some sp')

-- `sp` is the static pointer, before and after. A position that is left from another string is kept,
-- whatever `str` is.
unfoldable pub strtok :
    (sp str : Option (List ℕ)) → (delimiters : List ℕ) → Run (Option (List ℕ) × Option (List ℕ))
strtok none none delimiters = strlen delimiters >>= λ len. done (none, none)
strtok none (some str) delimiters =
    strlen delimiters >>= λ len. next_token (take len delimiters) str
strtok (some sp) str delimiters = strlen delimiters >>= λ len. next_token (take len delimiters) sp

-- The loop of `basename`, on fuel; `none` says that it ran out.
unfoldable pub last_loop :
    (fuel : ℕ)
    → (sp : Option (List ℕ)) → (buf : List ℕ) → (current last : Option (List ℕ))
    → Option (Run (Option (List ℕ)))
last_loop zero sp buf current last = none
last_loop (suc k) sp buf none last = some (done last)
last_loop (suc k) sp buf (some token) last = elim (strtok sp (some buf) (47 ∷ 0 ∷ [])) [
  | done (current', sp') ↦ last_loop k sp' buf current' (some token)
  | panic ↦ some panic
  | wild ↦ some wild
]

abbrev pub copy_part : Option (List ℕ) → (out_filename : List ℕ) → (max_len : ℕ) → Run (List ℕ)
copy_part none out_filename max_len = wild
copy_part (some part) out_filename max_len = strncpy out_filename part max_len

-- `buf` is a local array; where there is no part the copy reads through NULL. The position that `strtok`
-- keeps is the one before.
unfoldable pub basename :
    (fuel : ℕ)
    → (sp : Option (List ℕ)) → (stack filename out_filename : List ℕ) → (max_len : ℕ)
    → Option (Run (List ℕ))
basename fuel sp stack filename out_filename max_len =
    let first : Run (List ℕ × Option (List ℕ) × Option (List ℕ)) =
      strncpy stack filename max_len >>= λ (buf : List ℕ).
      strtok sp (some buf) (47 ∷ 0 ∷ []) >>= λ (r : Option (List ℕ) × Option (List ℕ)).
      done (buf, r.0, r.1) in
    let copy_last : Run (Option (List ℕ)) → Option (Run (List ℕ)) =
      λ last. some (last >>= λ (found : Option (List ℕ)). copy_part found out_filename max_len) in
    elim first [
      | done (buf, current, sp') ↦ elim (last_loop fuel sp' buf current current) [
        | none ↦ none
        | some last ↦ copy_last last
      ]
      | panic ↦ some panic
      | wild ↦ some wild
    ]
