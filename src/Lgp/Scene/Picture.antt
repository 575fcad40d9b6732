-- ===== src/Lgp/Scene/Picture.antt =====
-- The whole picture that lgp_surface_manager_composite of src/lgp-compositor/scene/surface.c draws.
use mathlib.Core.Option.{some-injective}
use mahina_os.Prelude.{
  ℕ, suc, ◌+◌, ◌*◌, ◌^◌, ◌≤◌, ◌<◌, ◌≡◌, ◌∙◌, refl, sym, subst, ap, Bool, true, false, ◌&&◌, ◌||◌,
  not, none, some, List, [], ◌∷◌, ◌==◌, ltb, leb, if◌then◌else◌, get_elem?, pos_part, Bool-cases,
  Option-cases, ℕ_discrete, inl, inr, arith,
}
use mahina_os.Lgp.Surface.{Surface, xrgb8888, argb8888}
use mahina_os.Lgp.Surface.Valid.{IsSurface}
use mahina_os.Lgp.Scene.{
  Frame, Screen, Memory, put, repeat, fill, draw_surface, draw_layer, draw_layers, void_pixel,
  wm_minimized, wm_hidden,
}
use mahina_os.Lgp.Scene.Loops.{repeat_pixel, offset-injective, put_pixel}
use mahina_os.Lgp.Scene.Pixels.{is_drawn, shade_mapped, draw_mapped_at}

-- The pixel that a surface of the layer makes of the one below it, and the pixel of a layer and of
-- several layers: the surfaces are painted in the order of the table.
abbrev pub shade : Memory → ℕ → Surface → ℕ → ℕ → ℕ → ℕ
shade memory layer s x y below = elim s.buffer_map [
  | none ↦ below
  | some map ↦ if is_drawn layer s then shade_mapped memory s map x y below else below
]

abbrev pub shade_layer : Memory → ℕ → List Surface → ℕ → ℕ → ℕ → ℕ
shade_layer memory layer [] x y below = below
shade_layer memory layer (s ∷ rest) x y below =
    shade_layer memory layer rest x y (shade memory layer s x y below)

abbrev pub picture : Memory → List ℕ → List Surface → ℕ → ℕ → ℕ → ℕ
picture memory [] surfaces x y below = below
picture memory (layer ∷ rest) surfaces x y below =
    picture memory rest surfaces x y (shade_layer memory layer surfaces x y below)

-- A surface in use that is not near INT32_MAX.
pub record IsPlaced (s : Surface) : Type 0 where
  pub surface : IsSurface s
  pub low : (pos_part s.x < 2 ^ 30) × (pos_part s.y < 2 ^ 30)

-- The tests of the loop against those of `is_drawn`.
skip_of : (a b c : Bool) → (not a || not b) ≡ true → (a && (b && c)) ≡ false
skip_of a b c h = ground arith

hide_of : (a b c d : Bool) → c ≡ true → (a && (b && (not c && d))) ≡ false
hide_of a b c d h = ground arith

show_of : (a b c d : Bool) → (not a || not b) ≡ false → c ≡ false → (a && (b && (not c && d))) ≡ d
show_of a b c d h e = ground arith

module _ (sc : Screen) (memory : Memory) (px py : ℕ) (wide : sc.width * 4 ≤ sc.pitch)
    (fits : (sc.width < 2 ^ 30) × (sc.height < 2 ^ 30)) (x_in : px < sc.width)
    (y_in : py < sc.height) where
  abbrev here : ℕ
  here = py * sc.pitch + px * 4

  draw_surface_at :
      (layer : ℕ) (s : Surface) (f g : Frame)
      → IsPlaced s
      → draw_surface sc memory layer s f ≡ some g
      → g here ≡ shade memory layer s px py (f here)
  unfolding draw_surface
  draw_surface_at layer s f g v run = elim (Option-cases s.buffer_map) [
    | inl m ↦ elim (Bool-cases (not s.in_use || not (s.layer == layer))) [
      | inl e ↦ rw m (same_frame (rw e at run))
      | inr e ↦ rw m (same_frame (rw (e, m) at run))
    ]
    | inr (map, m) ↦ elim (Bool-cases (not s.in_use || not (s.layer == layer))) [
      | inl e ↦
          let off : is_drawn layer s ≡ false = skipped e in rw (m, off) (same_frame (rw e at run))
      | inr e ↦ elim (Bool-cases (s.wm_state == wm_minimized || s.wm_state == wm_hidden)) [
        | inl h ↦
            let off : is_drawn layer s ≡ false = unseen h in
            rw (m, off) (same_frame (rw (e, m, h) at run))
        | inr h ↦
            let (used, _, _) = v.surface.mapped map m in
            let (w0, w1, h0, h1) = v.surface.sized used in
            let at =
              draw_mapped_at sc memory px py wide x_in y_in s map f g (w1, h1) v.low fits
                (rw (e, m, h) at run) in
            let on : is_drawn layer s ≡ (s.pixel_format == argb8888 || s.pixel_format == xrgb8888) =
              seen e h in
            rw (m, on) at
      ]
    ]
  ]
    where
      same_frame : some f ≡ some g → g here ≡ f here
      same_frame e = ap (λ (r : Frame). r here) (sym (some-injective f g e))

      skipped : (not s.in_use || not (s.layer == layer)) ≡ true → is_drawn layer s ≡ false
      skipped e =
          skip_of s.in_use (s.layer == layer)
            (not (s.wm_state == wm_minimized || s.wm_state == wm_hidden)
              && (s.pixel_format == argb8888 || s.pixel_format == xrgb8888))
            e

      unseen :
          (s.wm_state == wm_minimized || s.wm_state == wm_hidden) ≡ true → is_drawn layer s ≡ false
      unseen h =
          hide_of s.in_use (s.layer == layer)
            (s.wm_state == wm_minimized || s.wm_state == wm_hidden)
            (s.pixel_format == argb8888 || s.pixel_format == xrgb8888) h

      seen :
          (not s.in_use || not (s.layer == layer)) ≡ false
          → (s.wm_state == wm_minimized || s.wm_state == wm_hidden) ≡ false
          → is_drawn layer s ≡ (s.pixel_format == argb8888 || s.pixel_format == xrgb8888)
      seen e h =
          show_of s.in_use (s.layer == layer)
            (s.wm_state == wm_minimized || s.wm_state == wm_hidden)
            (s.pixel_format == argb8888 || s.pixel_format == xrgb8888) e h

  draw_layer_at :
      (layer : ℕ) (surfaces : List Surface) (f g : Frame)
      → ((i : ℕ) (s : Surface) → get_elem? surfaces i ≡ some s → IsPlaced s)
      → draw_layer sc memory layer surfaces f ≡ some g
      → g here ≡ shade_layer memory layer surfaces px py (f here)
  unfolding draw_layer
  draw_layer_at layer [] f g v run = ap (λ (r : Frame). r here) (sym (some-injective f g run))
  draw_layer_at layer (s ∷ rest) f g v run =
      elim (Option-cases (draw_surface sc memory layer s f)) [
        | inl e ↦ absurd (let x = rw (e, draw_layer) at run in cc)
        | inr (a, e) ↦
            draw_layer_at layer rest a g (λ i t h. v (suc i) t h) (rw (e, draw_layer) at run)
            ∙ ap (shade_layer memory layer rest px py) (draw_surface_at layer s f a (v 0 s refl) e)
      ]

  pub draw_layers_at :
      (layers : List ℕ) (surfaces : List Surface) (f g : Frame)
      → ((i : ℕ) (s : Surface) → get_elem? surfaces i ≡ some s → IsPlaced s)
      → draw_layers sc memory layers surfaces f ≡ some g
      → g here ≡ picture memory layers surfaces px py (f here)
  unfolding draw_layers
  draw_layers_at [] surfaces f g v run = ap (λ (r : Frame). r here) (sym (some-injective f g run))
  draw_layers_at (layer ∷ rest) surfaces f g v run =
      elim (Option-cases (draw_layer sc memory layer surfaces f)) [
        | inl e ↦ absurd (let x = rw (e, draw_layers) at run in cc)
        | inr (a, e) ↦
            draw_layers_at rest surfaces a g v (rw (e, draw_layers) at run)
            ∙ ap (picture memory rest surfaces px py) (draw_layer_at layer surfaces f a v e)
      ]

  -- The offset of another pixel.
  pub index_test :
      (y x : ℕ) → x < sc.width → (here == (y * sc.pitch + x * 4)) ≡ ((y == py) && (x == px))
  index_test y x lt = elim (ℕ_discrete here (y * sc.pitch + x * 4)) [
    | yes e ↦
        let (ey, ex) = offset-injective sc.pitch sc.width py px y x x_in lt wide e in
        let hit : (here == (y * sc.pitch + x * 4)) ≡ true = ground arith in
        let both : ((y == py) && (x == px)) ≡ true = ground arith in hit ∙ sym both
    | no ne ↦ elim (Bool-cases ((y == py) && (x == px))) [
      | inr off ↦
          let miss : (here == (y * sc.pitch + x * 4)) ≡ false = ground arith in miss ∙ sym off
      | inl on ↦
          let ey : py ≡ y = ground arith in
          let ex : px ≡ x = ground arith in
          absurd (
            ne (
              subst (λ a. here ≡ a * sc.pitch + x * 4) ey
                (subst (λ b. here ≡ py * sc.pitch + b * 4) ex refl)))
    ]
  ]

  pub fill_at : (f g : Frame) → fill sc f ≡ some g → g here ≡ void_pixel
  unfolding fill
  fill_at f g run =
      repeat_pixel (λ y. repeat (λ x. put sc (y * sc.pitch + x * 4) void_pixel) sc.width 0) here py
        (λ v. void_pixel) sc.height 0
        (λ y lo hi a b r.
          repeat_pixel (λ x. put sc (y * sc.pitch + x * 4) void_pixel) here px
            (λ v. if y == py then void_pixel else v) sc.width 0
            (λ x lo' hi' a' b' r'.
              put_pixel sc (y * sc.pitch + x * 4) void_pixel here a' b' r'
              ∙ (let t = index_test y x (omega arith) in rw t (swap (y == py) (x == px) (a' here))))
            a b r
          ∙ across (y == py) (a here))
        f g run
      ∙ down (f here)
    where
      swap :
          (a b : Bool) (w : ℕ)
          → (if a && b then void_pixel else w) ≡ (if b then (if a then void_pixel else w) else w)
      swap true true w = refl
      swap true false w = refl
      swap false true w = refl
      swap false false w = refl

      across :
          (a : Bool) (w : ℕ)
          → (if leb 0 px && ltb px (0 + sc.width) then (if a then void_pixel else w) else w)
            ≡ (if a then void_pixel else w)
      across a w = let t : (leb 0 px && ltb px (0 + sc.width)) ≡ true = ground arith in rw t refl

      down : (w : ℕ) → (if leb 0 py && ltb py (0 + sc.height) then void_pixel else w) ≡ void_pixel
      down w = let t : (leb 0 py && ltb py (0 + sc.height)) ≡ true = ground arith in rw t refl
