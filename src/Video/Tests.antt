-- ===== src/Video/Tests.antt =====
-- A rectangle of two by two pixels, a font of two glyphs, and the theorems at them.
use cos.Prelude.{
  ℕ, ◌+◌, ◌-◌, ◌/◌, ◌%◌, ◌≡◌, refl, arith, false, ◌&&◌, none, some, List, [], ◌∷◌, ◌++◌, ltb, leb,
  if◌then◌else◌, length, replicate, length-replicate, ok, done, wild, ◌>>=◌, pos, negsuc,
}
use cos.Strings.{istrncmp, byte_sub, tolower}
use cos.Video.Rectangle.{
  Rectangle, video_rectangle_set_pixel, video_rectangle_get_pixel, video_rectangle_draw_block,
  video_rectangle_fill,
}
use cos.Video.Rectangle.Pixels.{IsRectangle, pixel, is_at, status_of}
use cos.Video.Rectangle.Block.{covered, video_rectangle_draw_block-covered}
use cos.Video.Rectangle.Fill.{video_rectangle_set_pixel-get, video_rectangle_fill-everywhere}
use cos.Video.Published.{Published}
use cos.Video.Screen.{Video, vga_memory_size, video_rectangle_draw, video_rectangle_register}
use cos.Video.Screen.Draw.{on_screen, video_rectangle_draw-copied}
use cos.Video.Screen.Shared.{frees, video_rectangle_free-register}
use cos.Video.Font.{Font, Fonts, video_font_get, video_font_draw, video_font_make_empty_string}
use cos.Video.Font.First.{all_registered, video_font_get-first}
use cos.Video.Font.Glyphs.{glyphs, video_font_draw-glyphs}
use cos.Video.Terminal.{
  TerminalProperties, terminal_putchar, video_terminal_writestring, video_terminal_get_next_line,
  paste_loop,
}
use cos.Video.Terminal.Writing.{at, video_terminal_writestring-written, terminal_backspace-putchar}
use cos.Video.Terminal.Lines.{
  FirstLine, video_terminal_get_next_line-FirstLine, paste_loop-overflow,
}

abbrev rect : Rectangle
rect = record {
  name = 97 ∷ 0 ∷ [];
  width = pos 2;
  height = pos 2;
  x = pos 3;
  y = pos 4;
  redraw = false;
  pixels = 5 ∷ 6 ∷ 7 ∷ 8 ∷ [];
  shared = pos 1;
  flags = 0;
}

rect-IsRectangle : IsRectangle rect 2 2
rect-IsRectangle = record { width = refl; height = refl; size = refl; small = omega arith }

video_rectangle_set_pixel-get_example :
    (rect' : Rectangle) × (video_rectangle_set_pixel rect (pos 1) (pos 0) 9
      ≡ done (status_of 2 2 (pos 1) (pos 0), rect'))
    × IsRectangle rect' 2 2
    × (video_rectangle_get_pixel rect' (pos 1) (pos 1) ≡ (
        if is_at (pos 1) 1 && is_at (pos 0) 1
        then done 9
        else video_rectangle_get_pixel rect (pos 1) (pos 1)))
video_rectangle_set_pixel-get_example =
    video_rectangle_set_pixel-get 2 2 rect (pos 1) (pos 0) 9 1 1 rect-IsRectangle (omega arith)
      (omega arith)

-- A block of two rows, of which the first column is left of the rectangle.
video_rectangle_draw_block-covered_example :
    (rect' : Rectangle) × (video_rectangle_draw_block rect
        (0x40 ∷ 0x80 ∷ [])
        (negsuc 0)
        (pos 1)
        (pos 2)
        (pos 8)
      ≡ done rect')
    × (video_rectangle_get_pixel rect' (pos 0) (pos 1) ≡ (
        if covered 2 2 (negsuc 0) (pos 1) 8 2 0 (0x40 ∷ 0x80 ∷ []) 0 1
        then done 1
        else video_rectangle_get_pixel rect (pos 0) (pos 1)))
video_rectangle_draw_block-covered_example =
    video_rectangle_draw_block-covered 2 2 rect (0x40 ∷ 0x80 ∷ []) (negsuc 0) (pos 1) (pos 2)
      (pos 8) 0 1 rect-IsRectangle (omega arith) (omega arith) (omega arith) (omega arith)

video_rectangle_fill-everywhere_test :
    (rect' : Rectangle) × (video_rectangle_fill rect 3 ≡ done (ok tt, rect'))
    × IsRectangle rect' 2 2
    × (video_rectangle_get_pixel rect' (pos 1) (pos 1) ≡ done (3 % 256))
video_rectangle_fill-everywhere_test =
    video_rectangle_fill-everywhere 2 2 rect 3 1 1 rect-IsRectangle (omega arith) (omega arith)

-- The table as it is at first.
abbrev empty_table : Published
empty_table = record { slots = replicate 64 0; rectangle = λ p. rect }

abbrev video : Video
video = record {
  rectangles = 0;
  rectangle_last = 0;
  backbuffer = replicate vga_memory_size 0;
  memory = [];
  flags = 1;
  item = λ p. record { rectangle = 0; next = 0 };
  rectangle = λ p. rect;
  freed = [];
}

video_rectangle_draw-copied_example :
    (v' : Video) × (video_rectangle_draw video 8 ≡ done v')
    × (length v'.backbuffer ≡ vga_memory_size)
    × (on_screen v'.backbuffer 4 5 ≡ (
        if (leb 3 4 && ltb 4 (3 + 2)) && (leb 4 5 && ltb 5 (4 + 2))
        then pixel rect 2 (4 - 3) (5 - 4)
        else on_screen video.backbuffer 4 5))
video_rectangle_draw-copied_example =
    video_rectangle_draw-copied rect 2 2 3 4
      (record {
        is = rect-IsRectangle;
        left = refl;
        top = refl;
        fits_width = omega arith;
        fits_height = omega arith;
      })
      video 8 4 5 refl (length-replicate {A = ℕ} vga_memory_size 0) (omega arith) (omega arith)

video_rectangle_free-register_example :
    ((frees 1 (video_rectangle_register video 16 8) 8).freed ≡ [])
    × ((frees 2 (video_rectangle_register video 16 8) 8).freed ≡ 8 ∷ [])
video_rectangle_free-register_example =
    video_rectangle_free-register video 16 8 1 1 refl (omega arith)

-- Two rows for each of the first characters.
abbrev font : Font
font = record {
  font_name = 70 ∷ 0 ∷ [];
  data_bytes = 1 ∷ 2 ∷ 3 ∷ 4 ∷ 5 ∷ 6 ∷ [];
  datasize = 6;
  c_width = 8;
  c_height = 2;
  c_max = 3;
  c_bytes = 2;
  next = 0;
}

abbrev fonts : Fonts
fonts = record { head = 0; last = 0; font = λ p. font }

video_font_get-first_example :
    video_font_get 2 (all_registered fonts (8 ∷ 16 ∷ [])) (71 ∷ 0 ∷ []) ≡ some (done 0)
unfolding istrncmp byte_sub tolower
video_font_get-first_example =
    video_font_get-first 0 fonts 8 (16 ∷ []) (71 ∷ 0 ∷ []) (negsuc 0) refl (omega arith) refl
      (omega arith) refl

video_font_draw-glyphs_example :
    (video_font_draw font (video_font_make_empty_string font 2) (2 ∷ 1 ∷ 0 ∷ [])
      ≡ done (glyphs font (2 ∷ 1 ∷ [])))
    × (video_font_draw font (video_font_make_empty_string font 1) (2 ∷ 1 ∷ 0 ∷ []) ≡ wild)
video_font_draw-glyphs_example =
    video_font_draw-glyphs font refl 1 (2 ∷ 1 ∷ []) [] (omega arith) (omega arith) (omega arith)
      (omega arith)

abbrev properties : TerminalProperties
properties = record { index = 0; terminal_color = 7; buffer = none; y_scroll = pos 0 }

video_terminal_writestring-written_example :
    (video_terminal_writestring (at properties (65 ∷ []) (0 ∷ 0 ∷ [])) (66 ∷ 0 ∷ [])
      ≡ done (at properties (65 ∷ 66 ∷ []) (0 ∷ [])))
    × (video_terminal_writestring (at properties (65 ∷ []) []) (66 ∷ 0 ∷ []) ≡ wild)
video_terminal_writestring-written_example =
    video_terminal_writestring-written properties (65 ∷ []) (0 ∷ []) (0 ∷ []) (66 ∷ []) [] []
      (omega arith) (omega arith) refl (omega arith)

terminal_backspace-putchar_test :
    ((terminal_putchar (at properties (65 ∷ []) (0 ∷ [])) 66 >>= λ written.
    terminal_putchar written 8)
      ≡ done (at properties (65 ∷ []) (32 ∷ [])))
    × (terminal_putchar (at properties [] []) 8 ≡ done (at properties [] []))
terminal_backspace-putchar_test =
    terminal_backspace-putchar properties (65 ∷ []) [] 0 66 (omega arith)

-- Two characters fit beside each other.
abbrev wide : Rectangle
wide = record rect { width = pos 16 }

video_terminal_get_next_line-FirstLine_example :
    (line : List ℕ) × (left : List ℕ) × FirstLine (16 / font.c_width) (2 ∷ 10 ∷ 1 ∷ []) line left
    × (video_terminal_get_next_line wide font (2 ∷ 10 ∷ 1 ∷ 0 ∷ [])
        ≡ done (some (length line, left ++ (0 ∷ []))))
video_terminal_get_next_line-FirstLine_example =
    video_terminal_get_next_line-FirstLine wide font 16 (2 ∷ 10 ∷ 1 ∷ []) [] refl (omega arith)
      (omega arith) (omega arith)

paste_loop-overflow_test : paste_loop 1 wide font ((2 ∷ 1 ∷ 2 ∷ []) ++ (0 ∷ [])) 0 0 ≡ some wild
paste_loop-overflow_test =
    paste_loop-overflow 0 wide font 16 (2 ∷ 1 ∷ 2 ∷ []) [] 0 refl (omega arith) refl (omega arith)
      (omega arith) (omega arith) (omega arith)
