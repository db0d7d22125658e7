-- ===== src/Video/Font.antt =====
-- video/font/font.c: glyphs of eight pixels or less a row, and the list of fonts. A font is an address,
-- and 0 is null. The counts of a font are `int`s that are not negative, and allocation succeeds.
pub mod Glyphs
pub mod First
use cos.Prelude.{
  ℕ, zero, suc, ◌*◌, ◌&&◌, Option, none, some, List, [], ◌∷◌, ◌++◌, ltb, leb, ◌==◌, if◌then◌else◌,
  length, take, drop, replicate, Run, done, panic, wild, ◌>>=◌,
}
use cos.Strings.{strlen, strncpy, istrncmp}
use cos.Video.Published.{is_equal}

-- VIDEO_FONT_NAME_SIZE.
abbrev pub font_name_size : ℕ
font_name_size = 16

pub record Font : Type 0 where
  pub font_name : List ℕ
  pub data_bytes : List ℕ
  pub datasize : ℕ
  pub c_width : ℕ
  pub c_height : ℕ
  pub c_max : ℕ
  pub c_bytes : ℕ
  pub next : ℕ

-- `video_font_list`, and the fonts by address.
pub record Fonts : Type 0 where
  pub head : ℕ
  pub last : ℕ
  pub font : ℕ → Font

abbrev pub with_font : Fonts → ℕ → Font → Fonts
with_font s p f = record s { font = λ q. if p == q then f else s.font q }

unfoldable pub video_font_init : Fonts → Fonts
video_font_init s = record s { head = 0; last = 0 }

unfoldable pub video_font_register : Fonts → ℕ → Fonts
video_font_register s p =
    if s.head == 0
    then record s { head = p; last = p }
    else record (with_font s p (record (s.font p) { next = s.last })) { last = p }

-- The loop has fuel; `none` says that it ran out.
unfoldable pub font_loop : (fuel : ℕ) → Fonts → (name : List ℕ) → (current : ℕ) → Option (Run ℕ)
font_loop zero s name current = none
font_loop (suc k) s name current =
    let rest = font_loop k s name (s.font current).next in
    if current == 0
    then some (done 0)
    else elim (istrncmp (s.font current).font_name name font_name_size) [
      | done order ↦ if is_equal order then some (done current) else rest
      | panic ↦ some panic
      | wild ↦ some wild
    ]

unfoldable pub video_font_get : (fuel : ℕ) → Fonts → (name : List ℕ) → Option (Run ℕ)
video_font_get fuel s name = font_loop fuel s name s.head

unfoldable pub video_font_make_empty_string : Font → (len : ℕ) → List ℕ
video_font_make_empty_string font len = replicate (font.c_bytes * len) 0

-- `n` rows of a glyph go to `out`.
unfoldable pub draw_rows : (n : ℕ) → (out char_pixel_data : List ℕ) → Run (List ℕ)
draw_rows zero out char_pixel_data = done out
draw_rows (suc n) [] char_pixel_data = wild
draw_rows (suc n) (d ∷ out) [] = wild
draw_rows (suc n) (d ∷ out) (row ∷ char_pixel_data) = do
  drawn ← draw_rows n out char_pixel_data
  done (row ∷ drawn)

-- A `char` of 128 or more is negative: its glyph would be before the data.
unfoldable pub video_font_draw_character : Font → (out : List ℕ) → (c : ℕ) → Run (List ℕ)
video_font_draw_character font out c =
    if leb 128 c && leb 1 (font.c_bytes * font.c_height)
    then wild
    else if leb 128 c
    then done out
    else if leb font.datasize (c * font.c_bytes)
    then done out
    else draw_rows font.c_height out (drop (c * font.c_bytes) font.data_bytes)

-- The loop of `video_font_draw`; `out` is what is left of the buffer.
unfoldable pub draw_text : Font → (text out : List ℕ) → Run (List ℕ)
draw_text font [] out = done out
draw_text font (c ∷ text) out = do
  drawn ← video_font_draw_character font out c
  rest ← draw_text font text (drop font.c_bytes drawn)
  done (take font.c_bytes drawn ++ rest)

unfoldable pub video_font_draw : Font → (out text : List ℕ) → Run (List ℕ)
video_font_draw font out text = do len ← strlen text; draw_text font (take len text) out

-- `p` is the address of the new font, and `bytes` what `data` points to.
unfoldable pub video_font_new :
    Fonts
    → (p : ℕ) → (name bytes : List ℕ) → (c_bytes max_characters width height : ℕ) → Run (ℕ × Fonts)
unfolding video_font_register
video_font_new s p name bytes c_bytes max_characters width height =
    if max_characters == 0
    then done (0, s)
    else if ltb 8 width
    then done (0, s)
    else let size = c_bytes * max_characters in
      do
        copied ← strncpy (replicate font_name_size 0) name font_name_size
        if ltb (length bytes) size
            then wild
            else done (
              p,
              video_font_register
                  (with_font s p (record {
                    font_name = copied;
                    data_bytes = take size bytes;
                    datasize = size;
                    c_width = width;
                    c_height = height;
                    c_max = max_characters;
                    c_bytes = c_bytes;
                    next = 0;
                  }))
                  p,
            )
