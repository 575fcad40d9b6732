-- ===== src/Lgp/Mouse.antt =====
-- The pointer of src/lgp-compositor/input/mouse.c.
use mahina_os.Prelude.{
  ℕ, ◌/◌, ◌%◌, ◌^◌, ◌<◌, ◌≡◌, Bool, true, false, not, List, [], ◌∷◌, ◌++◌, ◌==◌, if◌then◌else◌, ℤ,
  pos, negsuc, pos_part, neg_part, ◌+ℤ◌, ◌-ℤ◌, arith,
}
use mahina_os.Lgp.Scene.{Cursor, cursor_init, set_position, clamp}

-- The static variables of mouse.c, with g_cursor of scene/surface.c.
pub record Mouse : Type 0 where
  pub x : ℤ
  pub y : ℤ
  pub screen_w : ℕ
  pub screen_h : ℕ
  pub last_left : Bool
  pub last_right : Bool
  pub cursor : Cursor

-- lgp_dispatch_pointer_motion and lgp_dispatch_pointer_button.
pub data Dispatch : Type 0 where
  motion : ℤ → ℤ → Dispatch
  button : ℤ → ℤ → ℕ → Bool → Dispatch

-- The three bytes of a packet.
pub record Packet : Type 0 where
  pub flags : ℕ
  pub dx : ℕ
  pub dy : ℕ

-- lgp_mouse_init.
unfoldable pub mouse_init : ℕ → ℕ → Mouse
unfolding cursor_init set_position
mouse_init w h = record {
  x = pos (w / 2);
  y = pos (h / 2);
  screen_w = w;
  screen_h = h;
  last_left = false;
  last_right = false;
  cursor = set_position (pos (w / 2)) (pos (h / 2)) (cursor_init w h);
}

abbrev pub flag : ℕ → ℕ → Bool
flag k flags = flags / 2 ^ k % 2 == 1

-- A delta with its sign bit.
abbrev pub delta : Bool → ℕ → ℤ
delta negative d = if negative then pos d -ℤ pos 256 else pos d

abbrev pub changed : Bool → Bool → Bool
changed true b = not b
changed false b = b

-- The button events of a packet.
abbrev pub button_event : ℤ → ℤ → ℕ → Bool → Bool → List Dispatch
button_event x y which was is = if changed was is then button x y which is ∷ [] else []

-- The body of the loop of lgp_mouse_pump. The clamps are those of `clamp`.
unfoldable pub move : Packet → Mouse → Mouse × List Dispatch
unfolding ◌+ℤ◌ ◌-ℤ◌ clamp set_position
move p m =
    let x = clamp (m.x +ℤ delta (flag 4 p.flags) p.dx) m.screen_w in
    let y = clamp (m.y -ℤ delta (flag 5 p.flags) p.dy) m.screen_h in
    let left = flag 0 p.flags in
    let right = flag 1 p.flags in
    (
      record m {
        x = x;
        y = y;
        last_left = left;
        last_right = right;
        cursor = set_position x y m.cursor;
      },
      motion x y ∷ (button_event x y 0 m.last_left left ++ button_event x y 1 m.last_right right),
    )

-- lgp_mouse_pump over the packets that read returns.
unfoldable pub mouse_pump : List Packet → Mouse → Mouse × List Dispatch
unfolding move
mouse_pump [] m = (m, [])
mouse_pump (p ∷ rest) m =
    let (moved, events) = move p m in
    let (final, later) = mouse_pump rest moved in (final, events ++ later)

-- The pointer and the cursor are on the display, at one place.
pub record IsOnDisplay (m : Mouse) : Type 0 where
  pub width_ok : (0 < m.screen_w) × (m.screen_w < 2 ^ 31)
  pub height_ok : (0 < m.screen_h) × (m.screen_h < 2 ^ 31)
  pub x_on : (neg_part m.x ≡ 0) × (pos_part m.x < m.screen_w)
  pub y_on : (neg_part m.y ≡ 0) × (pos_part m.y < m.screen_h)
  pub screen_same : (m.cursor.screen_width ≡ m.screen_w) × (m.cursor.screen_height ≡ m.screen_h)
  pub cursor_same : (m.cursor.x ≡ m.x) × (m.cursor.y ≡ m.y)

clamp_inside :
    (z : ℤ) (size : ℕ)
    → (0 < size) × (size < 2 ^ 31)
    → (neg_part (clamp z size) ≡ 0) × (pos_part (clamp z size) < size)
unfolding clamp
clamp_inside (pos z) size h = ground arith
clamp_inside (negsuc z) size h = ground arith

-- A second clamp to the same size does nothing.
pub clamp_again :
    (z : ℤ) (size : ℕ) → (neg_part z ≡ 0) × (pos_part z < size) → size < 2 ^ 31 → clamp z size ≡ z
unfolding clamp
clamp_again (pos z) size h fits = ground arith
clamp_again (negsuc z) size h fits = absurd (omega arith)

move-IsOnDisplay : (p : Packet) (m : Mouse) → IsOnDisplay m → IsOnDisplay (move p m).0
unfolding move
move-IsOnDisplay p m v =
    let x = clamp (m.x +ℤ delta (flag 4 p.flags) p.dx) m.screen_w in
    let y = clamp (m.y -ℤ delta (flag 5 p.flags) p.dy) m.screen_h in
    let x_in = clamp_inside (m.x +ℤ delta (flag 4 p.flags) p.dx) m.screen_w v.width_ok in
    let y_in = clamp_inside (m.y -ℤ delta (flag 5 p.flags) p.dy) m.screen_h v.height_ok in
    record {
      width_ok = v.width_ok;
      height_ok = v.height_ok;
      x_on = x_in;
      y_on = y_in;
      screen_same = v.screen_same;
      cursor_same = (
        rw v.screen_same.0 (clamp_again x m.screen_w x_in v.width_ok.1),
        rw v.screen_same.1 (clamp_again y m.screen_h y_in v.height_ok.1),
      );
    }

-- On a display of 1 to 2^31 - 1 pixels a side, lgp_mouse_pump keeps the pointer on the display and
-- the drawn cursor at the pointer, whatever packets it reads.
pub mouse_pump-IsOnDisplay :
    (packets : List Packet) (m : Mouse) → IsOnDisplay m → IsOnDisplay (mouse_pump packets m).0
unfolding mouse_pump
mouse_pump-IsOnDisplay [] m v = v
mouse_pump-IsOnDisplay (p ∷ rest) m v =
    mouse_pump-IsOnDisplay rest (move p m).0 (move-IsOnDisplay p m v)
