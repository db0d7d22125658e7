-- ===== src/Fs/PathParser/Parse.antt =====
-- `pathparser_parse` returns for every terminated text, with the meaning of the path.
use native.Mathlib.Decide.{ℕ_discrete}
use cos.Prelude.{
  ℕ, zero, suc, ◌≤◌, ◌<◌, ◌≡◌, refl, sym, ap, ◌∙◌, Bool, true, false, ◌&&◌, Option, none, some,
  List, [], ◌∷◌, ◌++◌, arith, leb, ◌==◌, if◌then◌else◌, length, min, Result, ok, err, done,
  ebadpath, Bool-cases, inl, inr,
}
use cos.Strings.{isdigit, tonumericdigit, memcmp}
use cos.Strings.Copy.{IsText, strlen-length, strnlen-min}
use cos.Fs.PathParser.{
  slash, colon, max_path, path_part_loop, skip_slash, non_empty, pathparser_get_path_part,
  parse_parts, hang, parse_from, pathparser_parse, path_get_drive_by_path, path_valid_format,
  is_root_prefix, skip_drive,
}
use cos.Fs.PathParser.Spec.{
  before_slash, behind_slash, split, leading, meaning, split_of_behind, split-before_slash,
}

-- The text that is left, none for its end.
abbrev tail_text : Option (List ℕ) → List ℕ
tail_text none = []
tail_text (some r) = r

-- Where the copying loop stops.
abbrev stop : (cs rest : List ℕ) → List ℕ
stop [] rest = 0 ∷ rest
stop (c ∷ cs) rest = if c == slash then (c ∷ cs) ++ (0 ∷ rest) else stop cs rest

skip_slash-stop :
    (cs rest : List ℕ) → skip_slash (stop cs rest) ≡ tail_text (behind_slash cs) ++ (0 ∷ rest)
skip_slash-stop [] rest = refl
skip_slash-stop (c ∷ cs) rest = elim (ℕ_discrete c slash) [
  | yes e ↦ let t : (c == slash) ≡ true = ground arith in rw t (rw t)
  | no ne ↦ let t : (c == slash) ≡ false = ground arith in rw t (skip_slash-stop cs rest)
]

part_loop_lem :
    (room : ℕ) (cs rest : List ℕ)
    → IsText cs
    → length cs ≤ room
    → path_part_loop room (cs ++ (0 ∷ rest)) ≡ done (before_slash cs, stop cs rest)
unfolding path_part_loop
part_loop_lem zero [] rest t le = refl
part_loop_lem (suc room) [] rest t le = refl
part_loop_lem zero (c ∷ cs) rest t le = absurd (omega arith)
part_loop_lem (suc room) (c ∷ cs) rest t le = elim (ℕ_discrete c slash) [
  | yes e ↦ let b : (c == slash) ≡ true = ground arith in rw b
  | no ne ↦
      let b : (c == slash) ≡ false = ground arith in
      let z : (c == 0) ≡ false = ground arith in
      rw (b, z, part_loop_lem room cs rest t.1 (omega arith))
]

get_path_part_lem :
    (cs rest : List ℕ)
    → IsText cs
    → length cs ≤ max_path
    → pathparser_get_path_part (cs ++ (0 ∷ rest))
      ≡ done (non_empty (before_slash cs), tail_text (behind_slash cs) ++ (0 ∷ rest))
unfolding pathparser_get_path_part
get_path_part_lem cs rest t le = rw (part_loop_lem max_path cs rest t le, skip_slash-stop cs rest)

tail_text-IsText : (cs : List ℕ) → IsText cs → IsText (tail_text (behind_slash cs))
tail_text-IsText [] t = tt
tail_text-IsText (c ∷ cs) t = elim (Bool-cases (c == slash)) [
  | inl e ↦ rw e t.1
  | inr e ↦ rw e (tail_text-IsText cs t.1)
]

length-tail_text : (c : ℕ) (cs : List ℕ) → length (tail_text (behind_slash (c ∷ cs))) ≤ length cs
length-tail_text c [] = elim (Bool-cases (c == slash)) [
  | inl e ↦ rw e (omega arith)
  | inr e ↦ rw e (omega arith)
]
length-tail_text c (d ∷ cs) = elim (Bool-cases (c == slash)) [
  | inl e ↦ rw e (omega arith)
  | inr e ↦ rw e (omega (arith, length-tail_text d cs))
]

-- What the loop makes of the pieces, whichever they are.
leading-split :
    (cs : List ℕ)
    → leading (split cs)
      ≡ hang (non_empty (before_slash cs)) (leading (split (tail_text (behind_slash cs))))
leading-split cs = ap leading (split-before_slash cs) ∙ pieces (before_slash cs) (behind_slash cs)
  where
    pieces :
        (p : List ℕ) (o : Option (List ℕ))
        → leading (p ∷ split_of_behind o) ≡ hang (non_empty p) (leading (split (tail_text o)))
    pieces [] o = refl
    pieces (c ∷ p) none = unfold split split_of_behind in refl
    pieces (c ∷ p) (some r) = unfold split_of_behind in refl

-- One round of the loop over the parts.
parse_parts-step :
    (k : ℕ) (path path' : List ℕ) (o : Option (List ℕ)) (ps : List (List ℕ))
    → pathparser_get_path_part path ≡ done (o, path')
    → parse_parts k path' ≡ done ps
    → parse_parts (suc k) path ≡ done (hang o ps)
unfolding parse_parts
parse_parts-step k path path' none ps e f = rw e
parse_parts-step k path path' (some p) ps e f = rw e (rw f)

parse_parts_lem :
    (k : ℕ) (cs rest : List ℕ)
    → IsText cs
    → length cs < k
    → length cs ≤ max_path
    → parse_parts k (cs ++ (0 ∷ rest)) ≡ done (leading (split cs))
parse_parts_lem zero cs rest t lt le = absurd (omega arith)
parse_parts_lem (suc k) [] rest t lt le =
    unfold parse_parts pathparser_get_path_part path_part_loop split in refl
parse_parts_lem (suc k) (c ∷ cs) rest t lt le =
    let len = length-tail_text c cs in
    let tail = tail_text (behind_slash (c ∷ cs)) in
    parse_parts-step k ((c ∷ cs) ++ (0 ∷ rest)) (tail ++ (0 ∷ rest)) _ _
      (get_path_part_lem (c ∷ cs) rest t le)
      (parse_parts_lem k tail rest (tail_text-IsText (c ∷ cs) t) (omega arith) (omega arith))
    ∙ ap done (sym (leading-split (c ∷ cs)))

length-tail_text-le : (cs : List ℕ) → length (tail_text (behind_slash cs)) ≤ length cs
length-tail_text-le [] = omega arith
length-tail_text-le (c ∷ cs) = omega (arith, length-tail_text c cs)

parse_from_lem :
    (len drive : ℕ) (cs rest : List ℕ)
    → IsText cs
    → length cs ≤ len
    → len < max_path
    → parse_from len drive (cs ++ (0 ∷ rest))
      ≡ done (some (record { drive_no = drive; parts = leading (split cs) }))
unfolding parse_from
parse_from_lem len drive cs rest t le lt =
    let shorter = length-tail_text-le cs in
    let tail = tail_text (behind_slash cs) in
    let parts =
      parse_parts_lem (suc len) tail rest (tail_text-IsText cs t) (omega arith) (omega arith) in
    rw (get_path_part_lem cs rest t (omega arith), parts, leading-split cs)

-- The bytes compared are the two behind the first.
root_prefix_lem :
    (d c s : ℕ) (cs : List ℕ)
    → is_root_prefix (d ∷ c ∷ s ∷ cs) ≡ done ((c == colon) && (s == slash))
unfolding is_root_prefix memcmp
root_prefix_lem d c s cs = ground arith

valid_format-long :
    (d c s : ℕ) (cs rest : List ℕ)
    → IsText (d ∷ c ∷ s ∷ cs)
    → path_valid_format ((d ∷ c ∷ s ∷ cs) ++ (0 ∷ rest))
      ≡ done (isdigit d && (c == colon && s == slash))
unfolding path_valid_format
valid_format-long d c s cs rest t =
    let n = strnlen-min (d ∷ c ∷ s ∷ cs) rest max_path t in
    let three : leb 3 (min max_path (length (d ∷ c ∷ s ∷ cs))) ≡ true = ground arith in
    rw (n, three, root_prefix_lem d c s (cs ++ (0 ∷ rest)))
      (elim (Bool-cases (isdigit d)) [ inl e ↦ rw e | inr e ↦ rw e ])

valid_format-short :
    (cs rest : List ℕ)
    → IsText cs
    → length cs < 3
    → path_valid_format (cs ++ (0 ∷ rest)) ≡ done false
unfolding path_valid_format
valid_format-short cs rest t lt =
    let n = strnlen-min cs rest max_path t in
    let few : leb 3 (min max_path (length cs)) ≡ false = ground arith in rw (n, few)

-- The drive of a path that is long enough.
drive_lem :
    (d c s : ℕ) (cs rest : List ℕ) (b : Bool)
    → path_valid_format ((d ∷ c ∷ s ∷ cs) ++ (0 ∷ rest)) ≡ done b
    → path_get_drive_by_path ((d ∷ c ∷ s ∷ cs) ++ (0 ∷ rest))
      ≡ done (if b then ok (tonumericdigit d, cs ++ (0 ∷ rest)) else err ebadpath)
unfolding path_get_drive_by_path skip_drive
drive_lem d c s cs rest true e = rw e
drive_lem d c s cs rest false e = rw e

-- `pathparser_parse` on a text shorter than the limit, by what `path_get_drive_by_path` returns.
parse-short :
    (cs rest : List ℕ) (r : Result (ℕ × List ℕ))
    → IsText cs
    → length cs < max_path
    → path_get_drive_by_path (cs ++ (0 ∷ rest)) ≡ done r
    → pathparser_parse (cs ++ (0 ∷ rest))
      ≡ (elim r [ err _ ↦ done none | ok (drive, path') ↦ parse_from (length cs) drive path' ])
unfolding pathparser_parse
parse-short cs rest r t lt e =
    let b : leb max_path (length cs) ≡ false = ground arith in rw (strlen-length cs rest t, b, e)

too_short :
    (cs rest : List ℕ) → IsText cs → length cs < 3 → pathparser_parse (cs ++ (0 ∷ rest)) ≡ done none
too_short cs rest t lt =
    parse-short cs rest (err ebadpath) t (omega arith)
      (unfold path_get_drive_by_path in rw (valid_format-short cs rest t lt))

by_format :
    (d c s : ℕ) (cs rest : List ℕ) (b : Bool)
    → IsText (d ∷ c ∷ s ∷ cs)
    → length (d ∷ c ∷ s ∷ cs) < max_path
    → path_valid_format ((d ∷ c ∷ s ∷ cs) ++ (0 ∷ rest)) ≡ done b
    → pathparser_parse ((d ∷ c ∷ s ∷ cs) ++ (0 ∷ rest))
      ≡ done (
          if b
          then some (record { drive_no = tonumericdigit d; parts = leading (split cs) })
          else none)
by_format d c s cs rest true t lt e =
    parse-short (d ∷ c ∷ s ∷ cs) rest _ t lt (drive_lem d c s cs rest true e)
    ∙ parse_from_lem (length (d ∷ c ∷ s ∷ cs)) (tonumericdigit d) cs rest t.1.1.1 (omega arith) lt
by_format d c s cs rest false t lt e =
    parse-short (d ∷ c ∷ s ∷ cs) rest _ t lt (drive_lem d c s cs rest false e)

-- Of every terminated text shorter than COS32_MAX_PATH, `pathparser_parse` returns the meaning: a
-- digit, a colon, a slash, and the pieces between slashes up to the first empty one; otherwise NULL.
pub parse-meaning :
    (cs rest : List ℕ)
    → IsText cs
    → length cs < max_path
    → pathparser_parse (cs ++ (0 ∷ rest)) ≡ done (meaning cs)
unfolding meaning
parse-meaning [] rest t lt = too_short [] rest t (omega arith)
parse-meaning (d ∷ []) rest t lt = too_short (d ∷ []) rest t (omega arith)
parse-meaning (d ∷ c ∷ []) rest t lt = too_short (d ∷ c ∷ []) rest t (omega arith)
parse-meaning (d ∷ c ∷ s ∷ cs) rest t lt =
    by_format d c s cs rest _ t lt (valid_format-long d c s cs rest t)

-- Longer texts are refused.
pub parse-too_long :
    (cs rest : List ℕ)
    → IsText cs
    → max_path ≤ length cs
    → pathparser_parse (cs ++ (0 ∷ rest)) ≡ done none
unfolding pathparser_parse
parse-too_long cs rest t le =
    let b : leb max_path (length cs) ≡ true = ground arith in rw (strlen-length cs rest t, b)
