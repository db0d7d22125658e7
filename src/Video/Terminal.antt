-- ===== src/Video/Terminal.antt =====
-- The terminal of video/video.c: a buffer of characters with an index, and its lines on a rectangle.
pub mod Writing
pub mod Lines
use cos.Prelude.{
  ℕ, zero, suc, ◌+◌, ◌-◌, ◌*◌, ◌/◌, ◌^◌, ◌==◌, bit_or, Option, none, some, List, [], ◌∷◌, ltb,
  if◌then◌else◌, length, set, replicate, Run, done, panic, wild, ◌>>=◌, ℤ, pos, negsuc,
}
use cos.Strings.{strlen}
use cos.Video.Rectangle.{Rectangle, rounds, video_rectangle_fill, video_rectangle_draw_blocks}
use cos.Video.Font.{Font, video_font_make_empty_string, video_font_draw}

-- The numbers of the colours that are used.
abbrev pub vga_color_black : ℕ
vga_color_black = 0

abbrev pub vga_color_light_grey : ℕ
vga_color_light_grey = 7

unfoldable pub vga_entry_color : (fg bg : ℕ) → ℕ
vga_entry_color fg bg = bit_or fg (bg * 2 ^ 4)

-- `data` is `none` where it is null; the index is never negative.
pub record TerminalProperties : Type 0 where
  pub index : ℕ
  pub terminal_color : ℕ
  pub buffer : Option (List ℕ)
  pub y_scroll : ℤ

unfoldable pub kernel_terminal_initialize : (before : TerminalProperties) → TerminalProperties
unfolding vga_entry_color
kernel_terminal_initialize before = record before {
  index = 0;
  buffer = none;
  terminal_color = vga_entry_color vga_color_light_grey vga_color_black;
}

unfoldable pub terminal_putentryat : Option (List ℕ) → (c index : ℕ) → Run (Option (List ℕ))
terminal_putentryat none c index = done none
terminal_putentryat (some buffer) c index =
    if ltb index (length buffer) then done (some (set buffer index c)) else wild

-- `terminal_putchar` of what is not a backspace.
unfoldable pub put_entry : TerminalProperties → (c : ℕ) → Run TerminalProperties
put_entry properties c = do
  buffer ← terminal_putentryat properties.buffer c properties.index
  done (record properties { buffer = buffer; index = properties.index + 1 })

-- It puts a space.
unfoldable pub terminal_backspace : TerminalProperties → Run TerminalProperties
terminal_backspace properties = if properties.index == 0 then done properties else do
  cleared ← put_entry (record properties { index = properties.index - 1 }) 32
  done (record cleared { index = cleared.index - 1 })

unfoldable pub terminal_putchar : TerminalProperties → (c : ℕ) → Run TerminalProperties
terminal_putchar properties c =
    if c == 0x08 then terminal_backspace properties else put_entry properties c

-- `size` characters.
unfoldable pub terminal_write :
    TerminalProperties → (bytes : List ℕ) → (size : ℕ) → Run TerminalProperties
terminal_write properties bytes zero = done properties
terminal_write properties [] (suc n) = wild
terminal_write properties (c ∷ bytes) (suc n) = do
  written ← terminal_putchar properties c
  terminal_write written bytes n

unfoldable pub video_terminal_writestring :
    TerminalProperties → (bytes : List ℕ) → Run TerminalProperties
video_terminal_writestring properties bytes = do
  len ← strlen bytes
  terminal_write properties bytes len

unfoldable pub video_terminal_set_scroll : TerminalProperties → ℤ → TerminalProperties
video_terminal_set_scroll properties (negsuc n) = properties
video_terminal_set_scroll properties (pos scroll) = record properties { y_scroll = pos scroll }

-- The loop over the first `slen` characters, `i` of them seen: the length of the line, and what follows
-- it, without the newline.
unfoldable pub line_loop : (n i : ℕ) → (data_now : List ℕ) → ℕ × List ℕ
line_loop zero i data_now = (i, data_now)
line_loop (suc n) i [] = (i, [])
line_loop (suc n) i (c ∷ data_now) = if c == 10 then (i, data_now) else line_loop n (i + 1) data_now

-- `none` at the end of the text.
unfoldable pub video_terminal_get_next_line :
    Rectangle → Font → (data_now : List ℕ) → Run (Option (ℕ × List ℕ))
video_terminal_get_next_line rect font data_now = do
  slen ← strlen data_now
  if slen == 0
      then done none
      else if font.c_width == 0
      then wild
      else done (
          some (
            line_loop
              (if ltb (rounds rect.width / font.c_width) slen
                then rounds rect.width / font.c_width
                else slen)
              0 data_now))

unfoldable pub video_rectangle_draw_font_data :
    Rectangle → Font → (ptr : List ℕ) → (absx absy slen : ℤ) → Run Rectangle
video_rectangle_draw_font_data rect font ptr absx absy slen =
    video_rectangle_draw_blocks rect ptr absx absy (pos font.c_height) (pos font.c_width) slen

-- A line at height `y`.
unfoldable pub draw_line : Rectangle → Font → (data_now : List ℕ) → (len y : ℕ) → Run Rectangle
draw_line rect font data_now len y = do
  str_pixel_data ← video_font_draw font (video_font_make_empty_string font len) data_now
  video_rectangle_draw_font_data rect font str_pixel_data (pos 0) (pos y) (pos len)

abbrev pub then_run {ℓ κ} :
    {A : Type ℓ} {B : Type κ} → Run A → (A → Option (Run B)) → Option (Run B)
then_run (done a) f = f a
then_run panic f = some panic
then_run wild f = some wild

-- The loop of `video_terminal_paste`, with `ignore` lines to pass over. It has fuel; `none` says that
-- it ran out.
unfoldable pub paste_loop :
    (fuel : ℕ) → Rectangle → Font → (data_now : List ℕ) → (ignore y : ℕ) → Option (Run Rectangle)
paste_loop zero rect font data_now ignore y = none
paste_loop (suc k) rect font data_now ignore y =
    then_run (video_terminal_get_next_line rect font data_now) λ line. elim line [
      | none ↦ some (done rect)
      | some (len, next_data) ↦
          if ltb 0 ignore
          then paste_loop k rect font next_data (ignore - 1) y
          else then_run (draw_line rect font data_now len y)
              λ drawn. paste_loop k drawn font next_data 0 (y + font.c_height)
    ]

unfoldable pub video_terminal_paste :
    (fuel : ℕ) → TerminalProperties → Rectangle → Font → Option (Run Rectangle)
video_terminal_paste fuel properties rectangle font =
    then_run (video_rectangle_fill rectangle 3) λ filled. elim (properties.buffer) [
      | none ↦ some wild
      | some buffer ↦ paste_loop fuel filled.1 font buffer (rounds properties.y_scroll) 0
    ]

-- VGA_WIDTH, VGA_HEIGHT and VGA_TOTAL_PAGES.
abbrev pub terminal_data_size : ℕ
terminal_data_size = 80 * 20 * 6

-- The terminal of `video_new`.
unfoldable pub new_terminal : TerminalProperties
unfolding vga_entry_color
new_terminal = record {
  index = 0;
  terminal_color = vga_entry_color vga_color_light_grey vga_color_black;
  buffer = some (replicate terminal_data_size 0);
  y_scroll = pos 0;
}
