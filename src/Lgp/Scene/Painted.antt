-- ===== src/Lgp/Scene/Painted.antt =====
-- The frame that lgp_surface_manager_composite of src/lgp-compositor/scene/surface.c leaves.
use mathlib.Core.Option.{some-injective}
use mahina_os.Prelude.{
  ℕ, ◌+◌, ◌*◌, ◌^◌, ◌≤◌, ◌<◌, ◌≡◌, ◌∙◌, refl, sym, ap, Bool, true, false, ◌&&◌, ◌||◌, Option, none,
  some, ◌==◌, ltb, leb, if◌then◌else◌, get_elem?, ℤ, pos, negsuc, pos_part, ◌+ℤ◌, Bool-cases,
  Option-cases, inl, inr, arith,
}
use mahina_os.Lgp.Surface.{Surface, Manager}
use mahina_os.Lgp.Scene.{
  Frame, Cursor, cursor_pixel, is_off, draw_cursor_pixel, draw_cursor, Screen, Memory, repeat, fill,
  draw_layers, layer_order, drawn, drawn_with, then_draw, composite, void_pixel,
}
use mahina_os.Lgp.Scene.Loops.{repeat_pixel, put_pixel, in_span}
use mahina_os.Lgp.Scene.Picture.{picture, IsPlaced, index_test, fill_at, draw_layers_at}
use mahina_os.Lgp.Scene.Safe.{screen_accepted}

-- Round `j` of the cursor's loops stands on pixel `p` of an axis only inside of the cursor.
cursor_span :
    (d : ℤ) (j n p size : ℕ)
    → j < n
    → is_off (d +ℤ pos j) size ≡ false
    → pos_part (d +ℤ pos j) ≡ p
    → in_span d n p ≡ true
unfolding ◌+ℤ◌
cursor_span (pos d) j n p size lt on e = ground arith
cursor_span (negsuc d) j n p size lt on e = ground arith

in_range : (d : ℤ) (size : ℕ) → is_off d size ≡ false → pos_part d < size
in_range (pos d) size h = ground arith
in_range (negsuc d) size h = ground arith

parts : (a b d : Bool) → (a || (b || d)) ≡ false → (a ≡ false) × (b ≡ false)
parts a b d h = (ground arith, ground arith)

-- A pixel that the cursor does not cover.
abbrev pub under_cursor : Cursor → ℕ → ℕ → Bool
under_cursor c x y = in_span c.y 12 y && in_span c.x 8 x

module _ (sc : Screen) (c : Cursor) (px py : ℕ) (wide : sc.width * 4 ≤ sc.pitch)
    (fits : (sc.width < 2 ^ 30) × (sc.height < 2 ^ 30)) (x_in : px < sc.width)
    (y_in : py < sc.height) (away : under_cursor c px py ≡ false) where
  abbrev here : ℕ
  here = py * sc.pitch + px * 4

  cursor_pixel_away :
      (y x : ℕ) (f g : Frame)
      → y < 12
      → x < 8
      → draw_cursor_pixel sc c y x f ≡ some g
      → g here ≡ f here
  cursor_pixel_away y x f g hy hx run =
      elim (Bool-cases (
        is_off (c.y +ℤ pos y) sc.height
        || (is_off (c.x +ℤ pos x) sc.width || cursor_pixel y x == 0))) [
          | inl e ↦ ap (λ (r : Frame). r here) (sym (some-injective f g (rw e at run)))
          | inr e ↦
              let (on_y, on_x) =
                parts (is_off (c.y +ℤ pos y) sc.height) (is_off (c.x +ℤ pos x) sc.width)
                  (cursor_pixel y x == 0) e in
              let wrote =
                put_pixel sc (pos_part (c.y +ℤ pos y) * sc.pitch + pos_part (c.x +ℤ pos x) * 4)
                  (if cursor_pixel y x == 1 then 0 else 0xffffff) here f g (rw e at run) in
              let test =
                index_test sc (λ a b. 0) px py wide fits x_in y_in (pos_part (c.y +ℤ pos y))
                  (pos_part (c.x +ℤ pos x)) (in_range (c.x +ℤ pos x) sc.width on_x) in
              elim (Bool-cases
                ((pos_part (c.y +ℤ pos y) == py) && (pos_part (c.x +ℤ pos x) == px))) [
                  | inr off ↦ rw (test ∙ off) at wrote
                  | inl on ↦
                      let in_y = cursor_span c.y y 12 py sc.height hy on_y (
                        first_of (pos_part (c.y +ℤ pos y)) py (pos_part (c.x +ℤ pos x) == px) on) in
                      let in_x = cursor_span c.x x 8 px sc.width hx on_x (
                        second_of (pos_part (c.y +ℤ pos y) == py) (pos_part (c.x +ℤ pos x)) px
                          on) in
                      absurd (clash (in_span c.y 12 py) (in_span c.x 8 px) in_y in_x away)
                ]
        ]
    where
      first_of : (a b : ℕ) (d : Bool) → ((a == b) && d) ≡ true → a ≡ b
      first_of a b d h = ground arith

      second_of : (d : Bool) (a b : ℕ) → (d && (a == b)) ≡ true → a ≡ b
      second_of d a b h = ground arith

      clash : (a b : Bool) → a ≡ true → b ≡ true → (a && b) ≡ false → ⊥
      clash a b p q r = ground arith

  draw_cursor_away : (f g : Frame) → draw_cursor sc c f ≡ some g → g here ≡ f here
  unfolding draw_cursor
  draw_cursor_away f g run =
      repeat_pixel (λ y. repeat (draw_cursor_pixel sc c y) 8 0) here py (λ v. v) 12 0
        (λ y lo hi a b r.
          repeat_pixel (draw_cursor_pixel sc c y) here px (λ v. v) 8 0
            (λ x lo' hi' a' b' r'.
              cursor_pixel_away y x a' b' (omega arith) (omega arith) r'
              ∙ either (x == px) (a' here))
            a b r
          ∙ sym (either (leb 0 px && ltb px (0 + 8)) (a here))
          ∙ either (y == py) (a here))
        f g run
      ∙ sym (either (leb 0 py && ltb py (0 + 12)) (f here))
    where
      either : (b : Bool) (v : ℕ) → v ≡ (if b then v else v)
      either true v = refl
      either false v = refl

-- The stages of a composition that has drawn a frame.
stages :
    (o : Option Frame) (next last : Frame → Option Frame) (g : Frame)
    → drawn_with (then_draw (then_draw o next) last) ≡ drawn g
    → (a : Frame) × (b : Frame) × (o ≡ some a) × (next a ≡ some b) × (last b ≡ some g)
stages none next last g e = absurd cc
stages (some a) next last g e = elim (Option-cases (next a)) [
  | inl f ↦ absurd (let x = rw f at e in cc)
  | inr (b, f) ↦ elim (Option-cases (last b)) [
    | inl h ↦ absurd (let x = rw (f, h) at e in cc)
    | inr (r, h) ↦
        let same : drawn r ≡ drawn g = rw (f, h) at e in
        let eq : r ≡ g = cc in (a, b, refl, f, h ∙ ap some eq)
  ]
]

-- For a frame of less than 2^30 pixels a side with rows of at least 4 bytes a pixel, a table in
-- which every surface starts below 2^30, is, if in use, 1 to 16384 pixels a side, on a layer of its
-- type and with an id from 1 to 2^32 - 1, and holds a mapping only if in use and with room for its
-- pixels in rows of its stride, and a frame that lgp_surface_manager_composite has drawn, every
-- pixel that the cursor does not cover is the background painted over, in the order of the eight
-- layers 0, 100, 200, 300, 400, 500, 600 and 700 and within a layer in the order of the table, by
-- each surface in use on that layer that has a mapping with a known pixel format, is neither
-- minimized nor hidden and covers the pixel, with the word of its buffer at that place. A surface
-- on another layer is not painted.
pub composite_paints :
    (sc : Screen) (memory : Memory) (m : Manager) (c : Cursor) (f g : Frame) (x y : ℕ)
    → ((i : ℕ) (s : Surface) → get_elem? m.surfaces i ≡ some s → IsPlaced s)
    → sc.width * 4 ≤ sc.pitch
    → (sc.width < 2 ^ 30) × (sc.height < 2 ^ 30)
    → x < sc.width
    → y < sc.height
    → under_cursor c x y ≡ false
    → composite sc memory m c f ≡ drawn g
    → g (y * sc.pitch + x * 4) ≡ picture memory layer_order m.surfaces x y void_pixel
unfolding composite
composite_paints sc memory m c f g x y placed wide fits x_in y_in away run =
    let accepted =
      screen_accepted sc.width sc.height sc.pitch fits.0 (omega arith) (omega arith) wide in
    let (a, b, filled, layered, cursored) =
      stages (fill sc f) (draw_layers sc memory layer_order m.surfaces) (draw_cursor sc c) g
        (rw accepted at run) in
    draw_cursor_away sc c x y wide fits x_in y_in away b g cursored
    ∙ draw_layers_at sc memory x y wide fits x_in y_in layer_order m.surfaces a b placed layered
    ∙ ap (picture memory layer_order m.surfaces x y)
        (fill_at sc memory x y wide fits x_in y_in f a filled)
