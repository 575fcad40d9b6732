-- ===== src/Lgp/Scene/Safe.antt =====
-- The drawing of src/lgp-compositor/scene/surface.c makes no access outside of a buffer.
use native.Mathlib.Nat.{mul-le-mul_left, mul_comm, mul-suc}
use mahina_os.Prelude.{
  ℕ, zero, suc, ◌+◌, ◌*◌, ◌%◌, ◌^◌, ◌≤◌, ◌<◌, ◌≡◌, ◌∙◌, refl, subst, ap, Bool, false, ◌||◌, not,
  Option, none, some, List, [], ◌∷◌, ◌==◌, ltb, leb, if◌then◌else◌, get_elem?, ℤ, pos, negsuc,
  pos_part, neg_part, ◌+ℤ◌, Bool-cases, Option-cases, inl, inr, arith,
}
use mahina_os.Lgp.Surface.{Surface, Manager, xrgb8888, argb8888}
use mahina_os.Lgp.Surface.Valid.{IsSurface, IsValid}
use mahina_os.Lgp.Scene.{
  Frame, Cursor, cursor_pixel, clamp, set_position, is_off, draw_cursor_pixel, draw_cursor, Screen,
  Memory, put, fetch, repeat, fill, clip, source_index, paint, draw_pixel, draw_mapped,
  draw_surface, draw_layer, draw_layers, layer_order, refused, drawn, drawn_with, then_draw,
  composite, void_pixel, wm_minimized, wm_hidden,
}
use mahina_os.Lgp.Scene.Clip.{clip_inside}

repeat_step :
    (body : ℕ → Frame → Option Frame) (k i : ℕ) (f g r : Frame)
    → body i f ≡ some g
    → repeat body k (suc i) g ≡ some r
    → repeat body (suc k) i f ≡ some r
unfolding repeat
repeat_step body k i f g r here rest = rw (here, repeat) rest

-- A loop whose rounds all succeed.
pub repeat_runs :
    (body : ℕ → Frame → Option Frame) (k i : ℕ)
    → ((j : ℕ) → j < k → (f : Frame) → (g : Frame) × (body (i + j) f ≡ some g))
    → (f : Frame) → (g : Frame) × (repeat body k i f ≡ some g)
unfolding repeat
repeat_runs body zero i h f = (f, refl)
repeat_runs body (suc k) i h f =
    let e : i + 0 ≡ i = omega arith in
    let (g, first) = h 0 (omega arith) f in
    let (r, rest) =
      repeat_runs body k (suc i)
        (λ j lt f'.
          let (r, e') = h (suc j) (omega arith) f' in
          (r, subst (λ n. body n f' ≡ some r) (omega arith) e'))
        g in
    let here : body i f ≡ some g = subst (λ n. body n f ≡ some g) e first in
    (r, repeat_step body k i f g r here rest)

-- The last byte of a pixel inside a buffer of rows.
pub pixel_fits :
    (y x rows columns pitch size : ℕ)
    → y < rows
    → x < columns
    → columns * 4 ≤ pitch
    → pitch * rows ≤ size
    → y * pitch + x * 4 + 4 ≤ size
pixel_fits y x rows columns pitch size hy hx hp hs =
    let full : pitch * suc y ≤ pitch * rows = mul-le-mul_left pitch hy in
    let split : pitch * suc y ≡ y * pitch + pitch =
      mul-suc pitch y ∙ ap (λ n. n + pitch) (mul_comm pitch y) in
    omega (arith, full, split)

put_runs :
    (sc : Screen) (at v : ℕ) (f : Frame)
    → at + 4 ≤ sc.pitch * sc.height
    → (g : Frame) × (put sc at v f ≡ some g)
unfolding put
put_runs sc at v f h = elim (Bool-cases (leb (at + 4) (sc.pitch * sc.height))) [
  | inl e ↦ ((λ o. if o == at then v else f o), rw e refl)
  | inr e ↦ absurd (ground arith)
]

fetch_runs :
    (memory : Memory) (map size at : ℕ)
    → at + 4 ≤ size
    → fetch memory map size at ≡ some (memory map at)
unfolding fetch
fetch_runs memory map size at h = ground arith

fill_runs : (sc : Screen) (f : Frame) → sc.width * 4 ≤ sc.pitch → (g : Frame) × (fill sc f ≡ some g)
unfolding fill
fill_runs sc f wide =
    repeat_runs (λ y. repeat (λ x. put sc (y * sc.pitch + x * 4) void_pixel) sc.width 0) sc.height 0
      (λ y hy f'.
        repeat_runs (λ x. put sc ((0 + y) * sc.pitch + x * 4) void_pixel) sc.width 0
          (λ x hx f''. put_runs sc ((0 + y) * sc.pitch + (0 + x) * 4) void_pixel f'' (
            pixel_fits (0 + y) (0 + x) sc.height sc.width sc.pitch (sc.pitch * sc.height)
              (omega arith) (omega arith) wide (omega arith)))
          f')
      f

pixel_step :
    (sc : Screen) (memory : Memory) (s : Surface) (map y x : ℕ) (f g : Frame)
    → let at = source_index y s.y * s.stride + source_index x s.x * 4 in
      let here = y * sc.pitch + x * 4 in
      fetch memory map s.buffer_size at ≡ some (memory map at)
      → put sc here (paint s.pixel_format (memory map at) (f here)) f ≡ some g
      → draw_pixel sc memory s map y x f ≡ some g
pixel_step sc memory s map y x f g read wrote = rw (read, draw_pixel) wrote

pixel_runs :
    (sc : Screen) (memory : Memory) (s : Surface) (map y x : ℕ) (f : Frame)
    → sc.width * 4 ≤ sc.pitch
    → s.width * 4 ≤ s.stride
    → s.stride * s.height ≤ s.buffer_size
    → (x < sc.width) × (source_index x s.x < s.width)
    → (y < sc.height) × (source_index y s.y < s.height)
    → (g : Frame) × (draw_pixel sc memory s map y x f ≡ some g)
pixel_runs sc memory s map y x f wide rows_fit size_fits hx hy =
    let at = source_index y s.y * s.stride + source_index x s.x * 4 in
    let here = y * sc.pitch + x * 4 in
    let read = fetch_runs memory map s.buffer_size at (
      pixel_fits (source_index y s.y) (source_index x s.x) s.height s.width s.stride s.buffer_size
        hy.1 hx.1 rows_fit size_fits) in
    let (g, wrote) = put_runs sc here (paint s.pixel_format (memory map at) (f here)) f (
      pixel_fits y x sc.height sc.width sc.pitch (sc.pitch * sc.height) hy.0 hx.0 wide
        (omega arith)) in
    (g, pixel_step sc memory s map y x f g read wrote)

-- A surface in use that is mapped.
draw_mapped_runs :
    (sc : Screen) (memory : Memory) (s : Surface) (map : ℕ) (f : Frame)
    → IsSurface s
    → s.buffer_map ≡ some map
    → sc.width * 4 ≤ sc.pitch
    → (g : Frame) × (draw_mapped sc memory s map f ≡ some g)
unfolding draw_mapped
draw_mapped_runs sc memory s map f v mapped wide =
    elim (Bool-cases (s.pixel_format == argb8888 || s.pixel_format == xrgb8888)) [
      | inr e ↦ (f, rw e refl)
      | inl e ↦
          let (used, rows_fit, size_fits) = v.mapped map mapped in
          let (w0, w1, h0, h1) = v.sized used in
          let x0 = (clip s.x s.width sc.width).0 in
          let columns = (clip s.x s.width sc.width).1 in
          let y0 = (clip s.y s.height sc.height).0 in
          let rows = (clip s.y s.height sc.height).1 in
          let (g, run) =
            repeat_runs (λ y. repeat (draw_pixel sc memory s map y) columns x0) rows y0
              (λ j hj f'.
                repeat_runs (draw_pixel sc memory s map (y0 + j)) columns x0
                  (λ i hi f''.
                    pixel_runs sc memory s map (y0 + j) (x0 + i) f'' wide rows_fit size_fits
                      (clip_inside s.x s.width sc.width i w1 hi)
                      (clip_inside s.y s.height sc.height j h1 hj))
                  f')
              f in
          (g, rw e run)
    ]

-- Two steps of which the first one succeeds.
after :
    {o : Option Frame} {g r : Frame} (next : Frame → Option Frame)
    → o ≡ some g
    → next g ≡ some r
    → elim o [ none ↦ none | some h ↦ next h ] ≡ some r
after next e run = rw e run

draws :
    {b : Bool} {o : Option Frame} {g r : Frame} (next : Frame → Option Frame)
    → b ≡ false
    → o ≡ some g
    → next g ≡ some r
    → (if b then refused else drawn_with (then_draw o next)) ≡ drawn r
draws next e here run = rw (e, here) (ap drawn_with run)

module _ (sc : Screen) (memory : Memory) (wide : sc.width * 4 ≤ sc.pitch) where
  draw_surface_runs :
      (layer : ℕ) (s : Surface) (f : Frame)
      → IsSurface s
      → (g : Frame) × (draw_surface sc memory layer s f ≡ some g)
  unfolding draw_surface
  draw_surface_runs layer s f v = elim (Bool-cases (not s.in_use || not (s.layer == layer))) [
    | inl e ↦ (f, rw e refl)
    | inr e ↦ elim (Option-cases s.buffer_map) [
      | inl m ↦ (f, rw (e, m) refl)
      | inr (map, m) ↦ elim (Bool-cases (s.wm_state == wm_minimized || s.wm_state == wm_hidden)) [
        | inl h ↦ (f, rw (e, m, h) refl)
        | inr h ↦
            let (g, run) = draw_mapped_runs sc memory s map f v m wide in (g, rw (e, m, h) run)
      ]
    ]
  ]

  draw_layer_runs :
      (layer : ℕ) (surfaces : List Surface) (f : Frame)
      → ((i : ℕ) (s : Surface) → get_elem? surfaces i ≡ some s → IsSurface s)
      → (g : Frame) × (draw_layer sc memory layer surfaces f ≡ some g)
  unfolding draw_layer
  draw_layer_runs layer [] f v = (f, refl)
  draw_layer_runs layer (s ∷ rest) f v =
      let (g, first) = draw_surface_runs layer s f (v 0 s refl) in
      let (r, run) = draw_layer_runs layer rest g (λ i t h. v (suc i) t h) in
      (r, after (draw_layer sc memory layer rest) first run)

  draw_layers_runs :
      (layers : List ℕ) (surfaces : List Surface) (f : Frame)
      → ((i : ℕ) (s : Surface) → get_elem? surfaces i ≡ some s → IsSurface s)
      → (g : Frame) × (draw_layers sc memory layers surfaces f ≡ some g)
  unfolding draw_layers
  draw_layers_runs [] surfaces f v = (f, refl)
  draw_layers_runs (layer ∷ rest) surfaces f v =
      let (g, first) = draw_layer_runs layer surfaces f v in
      let (r, run) = draw_layers_runs rest surfaces g v in
      (r, after (draw_layers sc memory rest surfaces) first run)

cursor_pixel_runs :
    (sc : Screen) (c : Cursor) (y x : ℕ) (f : Frame)
    → sc.width * 4 ≤ sc.pitch
    → (g : Frame) × (draw_cursor_pixel sc c y x f ≡ some g)
cursor_pixel_runs sc c y x f wide =
    elim (Bool-cases (
      is_off (c.y +ℤ pos y) sc.height
      || (is_off (c.x +ℤ pos x) sc.width || cursor_pixel y x == 0))) [
        | inl e ↦ (f, rw e refl)
        | inr e ↦
            let (inside_y, inside_x) =
              on_screen (c.y +ℤ pos y) (c.x +ℤ pos x) sc.height sc.width (cursor_pixel y x == 0)
                e in
            let (g, run) =
              put_runs sc (pos_part (c.y +ℤ pos y) * sc.pitch + pos_part (c.x +ℤ pos x) * 4)
                (if cursor_pixel y x == 1 then 0 else 0xffffff) f
                (pixel_fits (pos_part (c.y +ℤ pos y)) (pos_part (c.x +ℤ pos x)) sc.height sc.width
                  sc.pitch (sc.pitch * sc.height) inside_y inside_x wide (omega arith)) in
            (g, rw e run)
      ]
  where
    none_of : {a b d : Bool} → (a || (b || d)) ≡ false → (a ≡ false) × (b ≡ false) × (d ≡ false)
    none_of h = (ground arith, ground arith, ground arith)

    in_range : (d : ℤ) (size : ℕ) → is_off d size ≡ false → pos_part d < size
    in_range (pos d) size h = ground arith
    in_range (negsuc d) size h = ground arith

    on_screen :
        (dy dx : ℤ) (height width : ℕ) (clear : Bool)
        → (is_off dy height || (is_off dx width || clear)) ≡ false
        → (pos_part dy < height) × (pos_part dx < width)
    on_screen dy dx height width clear h =
        let (a, b, d) = none_of h in (in_range dy height a, in_range dx width b)

draw_cursor_runs :
    (sc : Screen) (c : Cursor) (f : Frame)
    → sc.width * 4 ≤ sc.pitch
    → (g : Frame) × (draw_cursor sc c f ≡ some g)
unfolding draw_cursor
draw_cursor_runs sc c f wide =
    repeat_runs (λ y. repeat (draw_cursor_pixel sc c y) 8 0) 12 0
      (λ y hy f'.
        repeat_runs (draw_cursor_pixel sc c (0 + y)) 8 0
          (λ x hx f''. cursor_pixel_runs sc c (0 + y) (0 + x) f'' wide) f')
      f

pub screen_accepted :
    (width height pitch : ℕ)
    → width < 2 ^ 30
    → 0 < width
    → 0 < height
    → width * 4 ≤ pitch
    → (width == 0 || (height == 0 || ltb pitch (width * 4 % 2 ^ 32))) ≡ false
screen_accepted width height pitch narrow w h wide = ground arith

then_draw_step :
    {o : Option Frame} {g r : Frame} (next : Frame → Option Frame)
    → o ≡ some g
    → next g ≡ some r
    → then_draw o next ≡ some r
then_draw_step next e run = rw e run

-- For a valid surface table and a frame buffer of at least one row and one column, of less than
-- 2^30 columns and with rows of at least 4 bytes a pixel, lgp_surface_manager_composite draws a
-- frame: no read leaves the mapped buffer of a surface and no write leaves the frame buffer,
-- wherever the surfaces and the cursor lie.
pub composite_safe :
    (sc : Screen) (memory : Memory) (m : Manager) (c : Cursor) (f : Frame)
    → IsValid m
    → sc.width < 2 ^ 30
    → 0 < sc.width
    → 0 < sc.height
    → sc.width * 4 ≤ sc.pitch
    → (g : Frame) × (composite sc memory m c f ≡ drawn g)
unfolding composite
composite_safe sc memory m c f v narrow w h wide =
    let (a, filled) = fill_runs sc f wide in
    let (b, layered) = draw_layers_runs sc memory wide layer_order m.surfaces a v.each in
    let (g, run) = draw_cursor_runs sc c b wide in
    let accepted = screen_accepted sc.width sc.height sc.pitch narrow w h wide in
    (
      g,
      draws (draw_cursor sc c) accepted
          (then_draw_step (draw_layers sc memory layer_order m.surfaces) filled layered) run,
    )

-- On a display of 1 to 2^31 - 1 pixels a side, lgp_cursor_set_position leaves the cursor on the
-- display for every position.
pub set_position_inside :
    (x y : ℤ) (c : Cursor)
    → (0 < c.screen_width) × (c.screen_width < 2 ^ 31)
    → (0 < c.screen_height) × (c.screen_height < 2 ^ 31)
    → let moved = set_position x y c in
      (neg_part moved.x ≡ 0)
      × (pos_part moved.x < c.screen_width)
      × (neg_part moved.y ≡ 0)
      × (pos_part moved.y < c.screen_height)
unfolding set_position
set_position_inside x y c hw hh =
    let (a, b) = clamp_inside x c.screen_width hw in
    let (d, e) = clamp_inside y c.screen_height hh in (a, b, d, e)
  where
    clamp_inside :
        (z : ℤ) (size : ℕ)
        → (0 < size) × (size < 2 ^ 31)
        → (neg_part (clamp z size) ≡ 0) × (pos_part (clamp z size) < size)
    clamp_inside (pos z) size h = ground arith
    clamp_inside (negsuc z) size h = ground arith
