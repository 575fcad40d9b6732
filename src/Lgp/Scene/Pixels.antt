-- ===== src/Lgp/Scene/Pixels.antt =====
-- The picture that src/lgp-compositor/scene/surface.c draws, pixel by pixel.
use mathlib.Core.Option.{some-injective}
use mahina_os.Prelude.{
  ℕ, ◌+◌, ◌-◌, ◌*◌, ◌^◌, ◌≤◌, ◌<◌, ◌≡◌, ◌≢◌, ◌∙◌, refl, sym, subst, ap, Bool, true, false, ◌&&◌,
  ◌||◌, not, some, ◌==◌, ltb, leb, if◌then◌else◌, pos_part, Bool-cases, Option-cases, ℕ_discrete,
  inl, inr, arith,
}
use mahina_os.Lgp.Surface.{Surface, xrgb8888, argb8888}
use mahina_os.Lgp.Scene.{
  Frame, Screen, Memory, fetch, repeat, clip, source_index, paint, draw_pixel, draw_mapped,
  wm_minimized, wm_hidden,
}
use mahina_os.Lgp.Scene.Clip.{clip_inside}
use mahina_os.Lgp.Scene.Loops.{repeat_pixel, offset-injective, put_pixel, in_span, clip_span}

-- A surface that is drawn, and the pixel of the frame that it makes of the one below it.
abbrev pub is_drawn : ℕ → Surface → Bool
is_drawn layer s =
    s.in_use
    && ((s.layer == layer)
        && (not (s.wm_state == wm_minimized || s.wm_state == wm_hidden)
            && (s.pixel_format == argb8888 || s.pixel_format == xrgb8888)))

abbrev pub covers : Surface → ℕ → ℕ → Bool
covers s x y = in_span s.y s.height y && in_span s.x s.width x

abbrev pub shade_mapped : Memory → Surface → ℕ → ℕ → ℕ → ℕ → ℕ
shade_mapped memory s map x y below =
    if covers s x y
    then paint s.pixel_format (memory map (source_index y s.y * s.stride + source_index x s.x * 4))
        below
    else below

fetch_value :
    (memory : Memory) (map size at src : ℕ)
    → fetch memory map size at ≡ some src
    → src ≡ memory map at
unfolding fetch
fetch_value memory map size at src h = elim (Bool-cases (leb (at + 4) size)) [
  | inl e ↦ sym (some-injective (memory map at) src (rw e at h))
  | inr e ↦ absurd (let x = rw e at h in cc)
]

draw_pixel_put :
    (sc : Screen) (memory : Memory) (s : Surface) (map y x o : ℕ) (f g : Frame)
    → draw_pixel sc memory s map y x f ≡ some g
    → g o ≡ (
        if o == (y * sc.pitch + x * 4)
        then paint s.pixel_format
            (memory map (source_index y s.y * s.stride + source_index x s.x * 4))
            (f (y * sc.pitch + x * 4))
        else f o)
draw_pixel_put sc memory s map y x o f g run =
    elim (Option-cases
      (fetch memory map s.buffer_size (source_index y s.y * s.stride + source_index x s.x * 4))) [
        | inl e ↦ absurd (let r = rw (e, draw_pixel) at run in cc)
        | inr (src, e) ↦
            let value =
              fetch_value memory map s.buffer_size
                (source_index y s.y * s.stride + source_index x s.x * 4) src e in
            let wrote =
              put_pixel sc (y * sc.pitch + x * 4)
                (paint s.pixel_format src (f (y * sc.pitch + x * 4))) o f g
                (rw (e, draw_pixel) at run) in
            rw (sym value) wrote
      ]

module _ (sc : Screen) (memory : Memory) (px py : ℕ) (wide : sc.width * 4 ≤ sc.pitch)
    (x_in : px < sc.width) (y_in : py < sc.height) where
  abbrev here : ℕ
  here = py * sc.pitch + px * 4

  -- One pixel of a surface, drawn at another pixel of the frame or at this one.
  draw_pixel_at :
      (s : Surface) (map y x : ℕ) (f g : Frame)
      → x < sc.width
      → draw_pixel sc memory s map y x f ≡ some g
      → g here ≡ (
          if (y == py) && (x == px)
          then paint s.pixel_format
              (memory map (source_index py s.y * s.stride + source_index px s.x * 4))
              (f here)
          else f here)
  draw_pixel_at s map y x f g lt run =
      let wrote = draw_pixel_put sc memory s map y x here f g run in
      elim (ℕ_discrete here (y * sc.pitch + x * 4)) [
        | yes e ↦
            let (ey, ex) = offset-injective sc.pitch sc.width py px y x x_in lt wide e in
            let both : ((y == py) && (x == px)) ≡ true = ground arith in
            let hit : (here == (y * sc.pitch + x * 4)) ≡ true = ground arith in
            rw both (
              subst
                (λ a.
                  g here
                  ≡ paint s.pixel_format
                      (memory map (source_index a s.y * s.stride + source_index px s.x * 4))
                      (f here))
                (sym ey)
                (subst
                  (λ b.
                    g here
                    ≡ paint s.pixel_format
                        (memory map (source_index y s.y * s.stride + source_index b s.x * 4))
                        (f here))
                  (sym ex)
                  (subst
                    (λ o.
                      g here
                      ≡ paint s.pixel_format
                          (memory map (source_index y s.y * s.stride + source_index x s.x * 4))
                          (f o))
                    (sym e) (rw hit at wrote))))
        | no ne ↦
            let miss : (here == (y * sc.pitch + x * 4)) ≡ false = ground arith in
            let apart : ((y == py) && (x == px)) ≡ false = not_both y x ne in
            rw apart (rw miss at wrote)
      ]
    where
      not_both : (y x : ℕ) → here ≢ y * sc.pitch + x * 4 → ((y == py) && (x == px)) ≡ false
      not_both y x ne = elim (Bool-cases ((y == py) && (x == px))) [
        | inr e ↦ e
        | inl e ↦
            let ey : py ≡ y = ground arith in
            let ex : px ≡ x = ground arith in
            absurd (
              ne (
                subst (λ a. here ≡ a * sc.pitch + x * 4) ey
                  (subst (λ b. here ≡ py * sc.pitch + b * 4) ex refl)))
      ]

  -- One row of a surface, over the columns of the clipped range.
  row_at :
      (s : Surface) (map y : ℕ) (f g : Frame)
      → s.width ≤ 16384
      → (let (x0, columns) = clip s.x s.width sc.width in
          repeat (draw_pixel sc memory s map y) columns x0 f ≡ some g)
      → let (x0, columns) = clip s.x s.width sc.width in
        g here ≡ (
          if (y == py) && (leb x0 px && ltb px (x0 + columns))
          then paint s.pixel_format
              (memory map (source_index py s.y * s.stride + source_index px s.x * 4))
              (f here)
          else f here)
  row_at s map y f g small run =
      let x0 = (clip s.x s.width sc.width).0 in
      let columns = (clip s.x s.width sc.width).1 in
      let mix =
        paint s.pixel_format
          (memory map (source_index py s.y * s.stride + source_index px s.x * 4)) in
      repeat_pixel (draw_pixel sc memory s map y) here px (λ v. if y == py then mix v else v)
        columns x0
        (λ j lo hi a b r.
          let inside = clip_inside s.x s.width sc.width (j - x0) small (omega arith) in
          draw_pixel_at s map y j a b (omega (arith, inside.0)) r
          ∙ swap_tests (y == py) (j == px) (mix (a here)) (a here))
        f g run
      ∙ sym (swap_tests (y == py) (leb x0 px && ltb px (x0 + columns)) (mix (f here)) (f here))
    where
      swap_tests :
          (a b : Bool) (v w : ℕ)
          → (if a && b then v else w) ≡ (if b then (if a then v else w) else w)
      swap_tests true true v w = refl
      swap_tests true false v w = refl
      swap_tests false true v w = refl
      swap_tests false false v w = refl

  -- All rows of a surface.
  rows_at :
      (s : Surface) (map : ℕ) (f g : Frame)
      → s.width ≤ 16384
      → (let (x0, columns) = clip s.x s.width sc.width in
          let (y0, rows) = clip s.y s.height sc.height in
          repeat (λ y. repeat (draw_pixel sc memory s map y) columns x0) rows y0 f ≡ some g)
      → let (x0, columns) = clip s.x s.width sc.width in
        let (y0, rows) = clip s.y s.height sc.height in
        g here ≡ (
          if (leb y0 py && ltb py (y0 + rows)) && (leb x0 px && ltb px (x0 + columns))
          then paint s.pixel_format
              (memory map (source_index py s.y * s.stride + source_index px s.x * 4))
              (f here)
          else f here)
  rows_at s map f g small run =
      let x0 = (clip s.x s.width sc.width).0 in
      let columns = (clip s.x s.width sc.width).1 in
      let y0 = (clip s.y s.height sc.height).0 in
      let rows = (clip s.y s.height sc.height).1 in
      let mix =
        paint s.pixel_format
          (memory map (source_index py s.y * s.stride + source_index px s.x * 4)) in
      let across = leb x0 px && ltb px (x0 + columns) in
      repeat_pixel (λ y. repeat (draw_pixel sc memory s map y) columns x0) here py
        (λ v. if across then mix v else v) rows y0
        (λ j lo hi a b r.
          row_at s map j a b small r ∙ nest_tests (j == py) across (mix (a here)) (a here))
        f g run
      ∙ sym (nest_tests (leb y0 py && ltb py (y0 + rows)) across (mix (f here)) (f here))
    where
      nest_tests :
          (a b : Bool) (v w : ℕ)
          → (if a && b then v else w) ≡ (if a then (if b then v else w) else w)
      nest_tests true b v w = refl
      nest_tests false b v w = refl

  -- A surface whose format is drawn, and that is not near INT32_MAX.
  pub draw_mapped_at :
      (s : Surface) (map : ℕ) (f g : Frame)
      → (s.width ≤ 16384) × (s.height ≤ 16384)
      → (pos_part s.x < 2 ^ 30) × (pos_part s.y < 2 ^ 30)
      → (sc.width < 2 ^ 30) × (sc.height < 2 ^ 30)
      → draw_mapped sc memory s map f ≡ some g
      → g here ≡ (
          if s.pixel_format == argb8888 || s.pixel_format == xrgb8888
          then shade_mapped memory s map px py (f here)
          else f here)
  unfolding draw_mapped
  draw_mapped_at s map f g small low fits run =
      elim (Bool-cases (s.pixel_format == argb8888 || s.pixel_format == xrgb8888)) [
        | inr e ↦ rw e (ap (λ (r : Frame). r here) (sym (some-injective f g (rw e at run))))
        | inl e ↦ rw e (
            subst
              (λ b. g here ≡ (
                if b
                then paint s.pixel_format
                    (memory map (source_index py s.y * s.stride + source_index px s.x * 4)) (f here)
                else f here))
              (both (clip_span s.y s.height sc.height py small.1 low.1 (omega arith) y_in)
                (clip_span s.x s.width sc.width px small.0 low.0 (omega arith) x_in))
              (rows_at s map f g small.0 (rw e at run)))
      ]
    where
      both : {a b c d : Bool} → a ≡ b → c ≡ d → (a && c) ≡ (b && d)
      both p q = rw (p, q) refl
