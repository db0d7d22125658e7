-- ===== src/Video/Screen.antt =====
-- The rectangles of a process and its back buffer: the rest of video/rectangle.c, and what video/video.c
-- does with them. Rectangles and items of the list are addresses, and 0 is null. Allocation succeeds,
-- but for the pixels of a rectangle whose size is no `int`.
pub mod Draw
pub mod Shared
use cos.Prelude.{
  ℕ, zero, suc, ◌+◌, ◌-◌, ◌*◌, ◌^◌, false, Option, none, some, List, [], ◌∷◌, ltb, leb, ◌==◌,
  if◌then◌else◌, length, set, replicate, Run, done, panic, wild, ◌>>=◌, ℤ, pos, negsuc,
}
use cos.Video.Rectangle.{Rectangle, rounds, add_ℕ, video_rectangle_get_pixel}

-- VIDEO_MODE_VGA_320x200_WIDTH and VIDEO_MODE_VGA_320x200_MEMORY_SIZE.
abbrev pub vga_width : ℕ
vga_width = 320

abbrev pub vga_memory_size : ℕ
vga_memory_size = 64000

abbrev pub flag_auto_flush : ℕ
flag_auto_flush = 0b00000001

-- `struct video_rectangle_list_item`.
pub record ListItem : Type 0 where
  pub rectangle : ℕ
  pub next : ℕ

-- The fields of `struct video` for rectangles, with the stores of rectangles and items, what was given
-- back with `kfree`, and what the hardware shows.
pub record Video : Type 0 where
  pub rectangles : ℕ
  pub rectangle_last : ℕ
  pub backbuffer : List ℕ
  pub memory : List ℕ
  pub flags : ℕ
  pub item : ℕ → ListItem
  pub rectangle : ℕ → Rectangle
  pub freed : List ℕ

abbrev pub add_int : ℤ → ℤ → ℤ
add_int a (pos n) = add_ℕ a n
add_int (pos a) (negsuc n) = if leb (suc n) a then pos (a - suc n) else negsuc (n - a)
add_int (negsuc a) (negsuc n) = negsuc (suc a + n)

-- `y * 320 + x`, where that is not negative.
abbrev pub plot_index : (x y : ℤ) → Option ℕ
plot_index (pos x) (pos y) = some (y * vga_width + x)
plot_index (pos x) (negsuc y) =
    if leb (suc y * vga_width) x then some (x - suc y * vga_width) else none
plot_index (negsuc x) (pos y) =
    if leb (suc x) (y * vga_width) then some (y * vga_width - suc x) else none
plot_index (negsuc x) (negsuc y) = none

-- No bound is checked: outside the buffer the write is `wild`.
unfoldable pub video_rectangle_vga_320_200_plot_pixel :
    List ℕ → (x y : ℤ) → (colour : ℕ) → Run (List ℕ)
video_rectangle_vga_320_200_plot_pixel back_buffer x y colour = elim (plot_index x y) [
  | none ↦ wild
  | some i ↦ if ltb i (length back_buffer) then done (set back_buffer i colour) else wild
]

-- Down the column `x` of the rectangle from row `y` on, and the columns from `x` on.
unfoldable pub draw_column : (n y : ℕ) → Rectangle → (x : ℕ) → List ℕ → Run (List ℕ)
draw_column zero y rect x back_buffer = done back_buffer
draw_column (suc n) y rect x back_buffer = do
  colour ← video_rectangle_get_pixel rect (pos x) (pos y)
  plotted ←
      video_rectangle_vga_320_200_plot_pixel back_buffer (add_ℕ rect.x x) (add_ℕ rect.y y) colour
  draw_column n (y + 1) rect x plotted

unfoldable pub draw_columns : (n x : ℕ) → Rectangle → List ℕ → Run (List ℕ)
draw_columns zero x rect back_buffer = done back_buffer
draw_columns (suc n) x rect back_buffer = do
  drawn ← draw_column (rounds rect.height) 0 rect x back_buffer
  draw_columns n (x + 1) rect drawn

abbrev pub with_rectangle : Video → ℕ → Rectangle → Video
with_rectangle v p rect = record v { rectangle = λ q. if p == q then rect else v.rectangle q }

unfoldable pub video_rectangle_draw : Video → ℕ → Run Video
video_rectangle_draw v p = do
  drawn ← draw_columns (rounds (v.rectangle p).width) 0 (v.rectangle p) v.backbuffer
  done (
      with_rectangle (record v { backbuffer = drawn }) p
        (record (v.rectangle p) { redraw = false }))

-- `list_item` is the address of the new item.
unfoldable pub video_rectangle_register : Video → (list_item p : ℕ) → Video
video_rectangle_register v list_item p =
    let rect = v.rectangle p in
    let shared = with_rectangle v p (record rect { shared = add_ℕ rect.shared 1 }) in
    let item : ℕ → ListItem =
      λ q. if list_item == q then record { rectangle = p; next = 0 } else shared.item q in
    let last = v.rectangle_last in
    if v.rectangles == 0
    then record shared { item = item; rectangles = list_item; rectangle_last = list_item }
    else record shared {
      item = λ q. if last == q then record (item last) { next = list_item } else item q;
      rectangle_last = list_item;
    }

-- `kzalloc(width * height)`: no pixels where that is no `int`, or where a side is negative.
abbrev pub new_pixels : (width height : ℤ) → List ℕ
new_pixels width height =
    if ltb (rounds width * rounds height) (2 ^ 31)
    then replicate (rounds width * rounds height) 0
    else []

-- `p` and `list_item` are the addresses of the new objects.
unfoldable pub video_rectangle_new : Video → (p list_item : ℕ) → (x y width height : ℤ) → ℕ × Video
unfolding video_rectangle_register
video_rectangle_new v p list_item x y width height =
    let rect : Rectangle = record {
      name = replicate 64 0;
      width = width;
      height = height;
      x = x;
      y = y;
      redraw = false;
      pixels = new_pixels width height;
      shared = pos 0;
      flags = 0;
    } in
    (p, video_rectangle_register (with_rectangle v p rect) list_item p)

-- With `left` users: the pixels go with the rectangle.
abbrev pub released : Video → ℕ → (left : ℤ) → Video
released v p left =
    let v' = with_rectangle v p (record (v.rectangle p) { shared = left }) in
    elim left [
      | pos n ↦ if n == 0 then record v' { freed = p ∷ v.freed } else v'
      | negsuc n ↦ record v' { freed = p ∷ v.freed }
    ]

unfoldable pub video_rectangle_free : Video → ℕ → Video
video_rectangle_free v p = released v p (add_int (v.rectangle p).shared (negsuc 0))

-- The loops over the list have fuel; `none` says that it ran out.
unfoldable pub free_loop : (fuel : ℕ) → Video → (list_item : ℕ) → Option Video
unfolding video_rectangle_free
free_loop zero v list_item = none
free_loop (suc k) v list_item =
    let tmp = (v.item list_item).next in
    let v' = video_rectangle_free v (v.item list_item).rectangle in
    let rest = free_loop k (record v' { freed = list_item ∷ v'.freed }) tmp in
    if list_item == 0 then some v else rest

unfoldable pub video_rectangles_free : (fuel : ℕ) → Video → Option Video
video_rectangles_free fuel v = free_loop fuel v v.rectangles

unfoldable pub video_back_buffer_clear : Video → Video
video_back_buffer_clear v = record v { backbuffer = replicate vga_memory_size 0 }

-- The copy goes to what is mapped at 0xA0000 for the task.
unfoldable pub video_flush_back_buffer : Video → Video
unfolding video_back_buffer_clear
video_flush_back_buffer v = video_back_buffer_clear (record v { memory = v.backbuffer })

unfoldable pub draw_list : (fuel : ℕ) → Video → (list_item : ℕ) → Option (Run Video)
draw_list zero v list_item = none
draw_list (suc k) v list_item =
    let rest : Video → Option (Run Video) =
      λ drawn. draw_list k drawn (drawn.item list_item).next in
    if list_item == 0
    then some (done v)
    else elim (video_rectangle_draw v (v.item list_item).rectangle) [
      | done drawn ↦ rest drawn
      | panic ↦ some panic
      | wild ↦ some wild
    ]
