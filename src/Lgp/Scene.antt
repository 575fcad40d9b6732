-- ===== src/Lgp/Scene.antt =====
-- The drawing of src/lgp-compositor/scene/surface.c. The frame buffer is a function from the byte
-- offset of a pixel to its word, and the contents of the mapped buffers are `memory`, from the address
-- of a mapping and an offset. A read or a write outside of its buffer gives `none`.
pub mod Clip
pub mod Safe
pub mod Loops
pub mod Pixels
pub mod Picture
pub mod Painted
use mahina_os.Prelude.{
  ℕ, zero, suc, ◌+◌, ◌-◌, ◌*◌, ◌/◌, ◌%◌, ◌^◌, Bool, true, false, ◌&&◌, ◌||◌, not, Option, none,
  some, List, [], ◌∷◌, ◌==◌, ltb, leb, if◌then◌else◌, get_elem?, ℤ, pos, negsuc, pos_part, neg_part,
  ◌+ℤ◌, ◌-ℤ◌, ltb_ℤ,
}
use mahina_os.Lgp.Messages.{to_int32}
use mahina_os.Lgp.Surface.{
  Surface, Manager, xrgb8888, argb8888, layer_wallpaper, layer_application, layer_shell,
  layer_luna_island, layer_system_modal,
}

abbrev pub Frame : Type 0
Frame = ℕ → ℕ

-- dst_width, dst_height and dst_pitch.
pub record Screen : Type 0 where
  pub width : ℕ
  pub height : ℕ
  pub pitch : ℕ

abbrev pub Memory : Type 0
Memory = ℕ → ℕ → ℕ

-- memcpy of one pixel to the frame buffer, and from a mapped buffer of `size` bytes.
unfoldable pub put : Screen → ℕ → ℕ → Frame → Option Frame
put sc at v f =
    if leb (at + 4) (sc.pitch * sc.height) then some (λ o. if o == at then v else f o) else none

unfoldable pub fetch : Memory → ℕ → ℕ → ℕ → Option ℕ
fetch memory map size at = if leb (at + 4) size then some (memory map at) else none

-- for (i = start; i < start + k; i++)
unfoldable pub repeat : (ℕ → Frame → Option Frame) → ℕ → ℕ → Frame → Option Frame
repeat body zero i f = some f
repeat body (suc k) i f = elim (body i f) [ none ↦ none | some g ↦ repeat body k (suc i) g ]

-- LGP_LUNA_VOID_XRGB8888 and the two states of a window that is not drawn.
abbrev pub void_pixel : ℕ
void_pixel = 0x0a0a0f

abbrev pub wm_minimized : ℕ
wm_minimized = 2

abbrev pub wm_hidden : ℕ
wm_hidden = 4

-- The two loops that fill the frame.
unfoldable pub fill : Screen → Frame → Option Frame
unfolding put repeat
fill sc =
    repeat (λ y. repeat (λ x. put sc (y * sc.pitch + x * 4) void_pixel) sc.width 0) sc.height 0

-- surface->x + (int32_t)surface->width, which wraps around above INT32_MAX.
abbrev pub add_i32 : ℤ → ℕ → ℤ
add_i32 x size =
    let z = x +ℤ to_int32 size in if ltb_ℤ z (pos (2 ^ 31)) then z else z -ℤ pos (2 ^ 32)

-- The clipped range of one axis: its first index and its length, 0 for one that is clipped out.
unfoldable pub clip : ℤ → ℕ → ℕ → ℕ × ℕ
unfolding ◌+ℤ◌ ◌-ℤ◌
clip x size room =
    let start = if ltb_ℤ x (pos 0) then pos 0 else x in
    let stop = if ltb_ℤ (to_int32 room) (add_i32 x size) then to_int32 room else add_i32 x size in
    if not (ltb_ℤ start stop) then (0, 0) else (pos_part start, pos_part stop - pos_part start)

-- dx - x_start, for an index that is not in front of the surface.
abbrev pub source_index : ℕ → ℤ → ℕ
source_index d x = d + neg_part x - pos_part x

-- The alpha blending of one channel, and of a pixel.
abbrev pub channel : ℕ → ℕ → ℕ
channel k px = px / 2 ^ k % 256

unfoldable pub blend : ℕ → ℕ → ℕ
blend src dst =
    let alpha = src / 2 ^ 24 in
    let mix = λ (k : ℕ). (channel k src * alpha + channel k dst * (255 - alpha)) / 255 in
    mix 16 * 2 ^ 16 + mix 8 * 2 ^ 8 + mix 0

-- What one pixel of a surface makes of the pixel below it.
abbrev pub paint : ℕ → ℕ → ℕ → ℕ
paint format src dst =
    if format == argb8888
    then (if src / 2 ^ 24 == 255 then src else if src / 2 ^ 24 == 0 then dst else blend src dst)
    else src

-- The body of the inner loops: pixel `dx` of row `y`.
abbrev pub draw_pixel : Screen → Memory → Surface → ℕ → ℕ → ℕ → Frame → Option Frame
draw_pixel sc memory s map y dx f =
    let at = y * sc.pitch + dx * 4 in
    elim (fetch memory map s.buffer_size
      (source_index y s.y * s.stride + source_index dx s.x * 4)) [
        | none ↦ none
        | some src ↦ put sc at (paint s.pixel_format src (f at)) f
      ]

-- The rows of a surface that is drawn. Other pixel formats are skipped.
unfoldable pub draw_mapped : Screen → Memory → Surface → ℕ → Frame → Option Frame
unfolding clip repeat fetch put
draw_mapped sc memory s map f =
    if s.pixel_format == argb8888 || s.pixel_format == xrgb8888
    then (let (x0, columns) = clip s.x s.width sc.width in
        let (y0, rows) = clip s.y s.height sc.height in
        repeat (λ y. repeat (draw_pixel sc memory s map y) columns x0) rows y0 f)
    else some f

-- The body of the loop over surfaces.
unfoldable pub draw_surface : Screen → Memory → ℕ → Surface → Frame → Option Frame
unfolding draw_mapped
draw_surface sc memory layer s f =
    if not s.in_use || not (s.layer == layer) then some f else elim s.buffer_map [
      | none ↦ some f
      | some map ↦
          if s.wm_state == wm_minimized || s.wm_state == wm_hidden
          then some f
          else draw_mapped sc memory s map f
    ]

unfoldable pub draw_layer : Screen → Memory → ℕ → List Surface → Frame → Option Frame
unfolding draw_surface
draw_layer sc memory layer [] f = some f
draw_layer sc memory layer (s ∷ rest) f = elim (draw_surface sc memory layer s f) [
  | none ↦ none
  | some g ↦ draw_layer sc memory layer rest g
]

unfoldable pub draw_layers : Screen → Memory → List ℕ → List Surface → Frame → Option Frame
unfolding draw_layer
draw_layers sc memory [] surfaces f = some f
draw_layers sc memory (layer ∷ rest) surfaces f = elim (draw_layer sc memory layer surfaces f) [
  | none ↦ none
  | some g ↦ draw_layers sc memory rest surfaces g
]

abbrev pub layer_order : List ℕ
layer_order =
    layer_wallpaper ∷ layer_application ∷ layer_shell ∷ 300 ∷ 400 ∷ layer_luna_island
    ∷ layer_system_modal ∷ 700 ∷ []

-- g_cursor, and cursor_bitmap.
pub record Cursor : Type 0 where
  pub x : ℤ
  pub y : ℤ
  pub screen_width : ℕ
  pub screen_height : ℕ

abbrev pub cursor_bitmap : List (List ℕ)
cursor_bitmap =
    (1 ∷ [])
    ∷ (1 ∷ 1 ∷ [])
    ∷ (1 ∷ 2 ∷ 1 ∷ [])
    ∷ (1 ∷ 2 ∷ 2 ∷ 1 ∷ [])
    ∷ (1 ∷ 2 ∷ 2 ∷ 2 ∷ 1 ∷ [])
    ∷ (1 ∷ 2 ∷ 2 ∷ 2 ∷ 2 ∷ 1 ∷ [])
    ∷ (1 ∷ 2 ∷ 2 ∷ 2 ∷ 2 ∷ 2 ∷ 1 ∷ [])
    ∷ (1 ∷ 2 ∷ 2 ∷ 1 ∷ 1 ∷ 1 ∷ 1 ∷ 1 ∷ [])
    ∷ (1 ∷ 2 ∷ 1 ∷ 1 ∷ [])
    ∷ (1 ∷ 1 ∷ 0 ∷ 1 ∷ 1 ∷ [])
    ∷ (1 ∷ 0 ∷ 0 ∷ 0 ∷ 1 ∷ 1 ∷ [])
    ∷ (0 ∷ 0 ∷ 0 ∷ 0 ∷ 0 ∷ 1 ∷ 1 ∷ [])
    ∷ []

-- An entry of the bitmap: the rows are written without the zeros at their end.
unfoldable pub cursor_pixel : ℕ → ℕ → ℕ
cursor_pixel y x = elim (get_elem? cursor_bitmap y) [
  | none ↦ 0
  | some row ↦ elim (get_elem? row x) [ none ↦ 0 | some v ↦ v ]
]

-- lgp_cursor_init. The sizes are those of a display mode, below 2 ^ 31.
unfoldable pub cursor_init : ℕ → ℕ → Cursor
cursor_init w h = record { x = pos (w / 2); y = pos (h / 2); screen_width = w; screen_height = h }

-- The two tests of lgp_cursor_set_position on one axis.
unfoldable pub clamp : ℤ → ℕ → ℤ
unfolding ◌-ℤ◌
clamp x size =
    let low = if ltb_ℤ x (pos 0) then pos 0 else x in
    if not (ltb_ℤ low (to_int32 size)) then to_int32 size -ℤ pos 1 else low

unfoldable pub set_position : ℤ → ℤ → Cursor → Cursor
unfolding clamp
set_position x y c = record c { x = clamp x c.screen_width; y = clamp y c.screen_height }

-- draw_software_cursor.
abbrev pub is_off : ℤ → ℕ → Bool
is_off d size = ltb_ℤ d (pos 0) || not (ltb_ℤ d (to_int32 size))

abbrev pub draw_cursor_pixel : Screen → Cursor → ℕ → ℕ → Frame → Option Frame
draw_cursor_pixel sc c y x f =
    if is_off (c.y +ℤ pos y) sc.height || (is_off (c.x +ℤ pos x) sc.width || cursor_pixel y x == 0)
    then some f
    else put sc (pos_part (c.y +ℤ pos y) * sc.pitch + pos_part (c.x +ℤ pos x) * 4)
        (if cursor_pixel y x == 1 then 0 else 0xffffff) f

unfoldable pub draw_cursor : Screen → Cursor → Frame → Option Frame
unfolding repeat put cursor_pixel ◌+ℤ◌
draw_cursor sc c = repeat (λ y. repeat (draw_cursor_pixel sc c y) 8 0) 12 0

-- `refused` is -EINVAL, and `fault` an access outside of a buffer.
pub data Drawn : Type 0 where
  refused : Drawn
  drawn : Frame → Drawn
  fault : Drawn

abbrev pub drawn_with : Option Frame → Drawn
drawn_with none = fault
drawn_with (some f) = drawn f

abbrev pub then_draw : Option Frame → (Frame → Option Frame) → Option Frame
then_draw none next = none
then_draw (some f) next = next f

-- lgp_surface_manager_composite.
unfoldable pub composite : Screen → Memory → Manager → Cursor → Frame → Drawn
unfolding fill draw_layers draw_cursor
composite sc memory m c f =
    if sc.width == 0 || (sc.height == 0 || ltb sc.pitch (sc.width * 4 % 2 ^ 32))
    then refused
    else drawn_with (
        then_draw (then_draw (fill sc f) (draw_layers sc memory layer_order m.surfaces))
          (draw_cursor sc c))
