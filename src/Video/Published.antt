-- ===== src/Video/Published.antt =====
-- video/rectangle.c: the table of published rectangles. A rectangle is an address, and 0 is null.
pub mod Never
use cos.Prelude.{
  ℕ, ◌+◌, ◌==◌, bit_or, Bool, true, false, if◌then◌else◌, Option, none, some, List, [], ◌∷◌, set,
  Result, ok, err, Run, done, wild, ◌>>=◌, ℤ, pos, negsuc, einvarg, enomem, eistkn,
}
use cos.Strings.{strncpy, istrncmp}
use cos.Video.Rectangle.{Rectangle}

-- COS32_VIDEO_RECTANGLE_NAME_SIZE and VIDEO_RECTANGLE_FLAG_PUBLISHED.
abbrev pub name_size : ℕ
name_size = 64

abbrev pub flag_published : ℕ
flag_published = 0b00000001

-- The table of slots, and the rectangles by address.
pub record Published : Type 0 where
  pub slots : List ℕ
  pub rectangle : ℕ → Rectangle

abbrev pub is_equal : ℤ → Bool
is_equal (pos n) = n == 0
is_equal (negsuc n) = false

-- The loop of `video_rectangle_is_published` and of `video_rectangle_get`: the first slot whose
-- rectangle has the name. The name of a slot is read before it is known to hold a rectangle.
unfoldable pub named_loop : (rectangle : ℕ → Rectangle) → (slots name : List ℕ) → Run (Option ℕ)
named_loop rectangle [] name = done none
named_loop rectangle (p ∷ ps) name =
    let further = named_loop rectangle ps name in
    if p == 0
    then wild
    else istrncmp (rectangle p).name name name_size >>= λ order.
        if is_equal order then done (some p) else further

unfoldable pub video_rectangle_is_published : Published → (name : List ℕ) → Run Bool
video_rectangle_is_published s name = do
  found ← named_loop s.rectangle s.slots name
  done (elim found [ none ↦ false | some p ↦ true ])

unfoldable pub video_rectangle_get : Published → (name : List ℕ) → Run ℕ
video_rectangle_get s name = do
  found ← named_loop s.rectangle s.slots name
  done (elim found [ none ↦ 0 | some p ↦ p ])

-- From slot `i` on.
unfoldable pub video_rectangle_find_publish_slot : (slots : List ℕ) → (i : ℕ) → Result ℕ
video_rectangle_find_publish_slot [] i = err enomem
video_rectangle_find_publish_slot (p ∷ ps) i =
    if p == 0 then ok i else video_rectangle_find_publish_slot ps (i + 1)

unfoldable pub video_rectangle_publish_insert : Published → ℕ → Result (Unit {0}) × Published
video_rectangle_publish_insert s p = elim (video_rectangle_find_publish_slot s.slots 0) [
  | err e ↦ (err e, s)
  | ok i ↦ (ok tt, record s { slots = set s.slots i p })
]

-- `rect->name` and `rect->flags` are written before the slot is sought.
abbrev pub mark_published : Published → ℕ → (name : List ℕ) → Published
mark_published s p name = record s {
  rectangle = λ q.
      if p == q
      then record (s.rectangle p) {
        name = name;
        flags = bit_or (s.rectangle p).flags flag_published;
      }
      else s.rectangle q;
}

-- A name that is null is `none`.
unfoldable pub video_rectangle_publish :
    Published → (name : Option (List ℕ)) → ℕ → Run (Result (Unit {0}) × Published)
video_rectangle_publish s none p = done (err einvarg, s)
video_rectangle_publish s (some name) p = do
  taken ← video_rectangle_is_published s name
  if taken then done (err eistkn, s) else do
    copied ← strncpy (s.rectangle p).name name name_size
    done (video_rectangle_publish_insert (mark_published s p copied) p)
