-- ===== src/Lgp/Input/Screen.antt =====
-- What the pumps of src/lgp-compositor/input/input.c keep: the pointer on the screen with the cursor at
-- it, the bits of the modifiers, and the links of the session.
use mahina_os.Prelude.{
  ℕ, zero, suc, ◌^◌, ◌/◌, ◌<◌, ◌≡◌, refl, ◌||◌, Bool, true, false, Option, none, some, List, [],
  ◌∷◌, ◌==◌, if◌then◌else◌, ℤ, pos, negsuc, pos_part, neg_part, ◌+ℤ◌, ◌-ℤ◌, arith, Bool-cases, inl,
  inr,
}
use mahina_os.Lgp.Scene.{cursor_init, set_position}
use mahina_os.Lgp.Mouse.{Packet, flag, delta, changed, clamp_again}
use mahina_os.Lgp.Surface.{Surface}
use mahina_os.Lgp.Session.{State}
use mahina_os.Lgp.Session.Routes.{find_target, button_to, dispatch_button}
use mahina_os.Lgp.Session.Links.{IsSession}
use mahina_os.Lgp.Session.Keeps.{focus-IsSession}
use mahina_os.Lgp.Input.{
  Input, size_or, set_screen, clamp_pointer, modifier_of, with_modifier, update_modifiers,
  button_changed, moved, packet, pump_mouse, Event, is_pressed, key_event, pump_keyboard, pump,
}

-- The pointer and the cursor are on the screen, at one place, and the modifiers are four bits.
pub record IsInput (i : Input) : Type 0 where
  pub width_ok : (0 < i.screen_w) × (i.screen_w < 2 ^ 31)
  pub height_ok : (0 < i.screen_h) × (i.screen_h < 2 ^ 31)
  pub x_on : (neg_part i.pointer_x ≡ 0) × (pos_part i.pointer_x < i.screen_w)
  pub y_on : (neg_part i.pointer_y ≡ 0) × (pos_part i.pointer_y < i.screen_h)
  pub screen_same : (i.cursor.screen_width ≡ i.screen_w) × (i.cursor.screen_height ≡ i.screen_h)
  pub cursor_same : (i.cursor.x ≡ i.pointer_x) × (i.cursor.y ≡ i.pointer_y)
  pub few_modifiers : i.modifiers < 16

clamp_pointer_inside :
    (z : ℤ) (size : ℕ)
    → 0 < size
    → (neg_part (clamp_pointer z size) ≡ 0) × (pos_part (clamp_pointer z size) < size)
unfolding clamp_pointer
clamp_pointer_inside (pos z) size h = ground arith
clamp_pointer_inside (negsuc z) size h = ground arith

size_or-ok :
    (other size : ℕ)
    → 0 < other
    → other < 2 ^ 31
    → size < 2 ^ 31
    → (0 < size_or other size) × (size_or other size < 2 ^ 31)
size_or-ok other size a b c = ground arith

half : (n : ℕ) → 0 < n → n / 2 < n
half n h = omega arith

pub set_screen-IsInput :
    (width height : ℕ) (left right : Bool)
    → width < 2 ^ 31
    → height < 2 ^ 31
    → IsInput (set_screen width height left right)
unfolding set_screen set_position cursor_init
set_screen-IsInput width height left right a b =
    let w = size_or 1920 width in
    let h = size_or 1080 height in
    let w_ok = size_or-ok 1920 width (omega arith) (omega arith) a in
    let h_ok = size_or-ok 1080 height (omega arith) (omega arith) b in
    record {
      width_ok = w_ok;
      height_ok = h_ok;
      x_on = (refl, half w w_ok.0);
      y_on = (refl, half h h_ok.0);
      screen_same = (refl, refl);
      cursor_same = (
        clamp_again (pos (w / 2)) w (refl, half w w_ok.0) w_ok.1,
        clamp_again (pos (h / 2)) h (refl, half h h_ok.0) h_ok.1,
      );
      few_modifiers = omega arith;
    }

moved-IsInput : (p : Packet) (i : Input) → IsInput i → IsInput (moved p i)
unfolding set_position
moved-IsInput p i v =
    let x_in =
      clamp_pointer_inside (i.pointer_x +ℤ delta (flag 4 p.flags) p.dx) i.screen_w v.width_ok.0 in
    let y_in =
      clamp_pointer_inside (i.pointer_y -ℤ delta (flag 5 p.flags) p.dy) i.screen_h v.height_ok.0 in
    record {
      width_ok = v.width_ok;
      height_ok = v.height_ok;
      x_on = x_in;
      y_on = y_in;
      screen_same = v.screen_same;
      cursor_same = (
        rw v.screen_same.0 (clamp_again (moved p i).pointer_x i.screen_w x_in v.width_ok.1),
        rw v.screen_same.1 (clamp_again (moved p i).pointer_y i.screen_h y_in v.height_ok.1),
      );
      few_modifiers = v.few_modifiers;
    }

packet-input : (p : Packet) (i : Input) (st : State) → (packet p i st).input ≡ moved p i
unfolding packet
packet-input p i st = refl

pump_mouse-IsInput :
    (packets : List Packet) (i : Input) (st : State)
    → IsInput i
    → IsInput (pump_mouse packets i st).input
unfolding pump_mouse
pump_mouse-IsInput [] i st v = v
pump_mouse-IsInput (p ∷ rest) i st v =
    pump_mouse-IsInput rest (packet p i st).input (packet p i st).state
      (rw (packet-input p i st) (moved-IsInput p i v))

-- A change of one of the four bits.
bit-lt : (n : ℕ) (pressed : Bool) (k : ℕ) → k < 4 → n < 16 → with_modifier (some k) pressed n < 16
bit-lt n true zero a b = ground arith
bit-lt n true (suc zero) a b = ground arith
bit-lt n true (suc (suc zero)) a b = ground arith
bit-lt n true (suc (suc (suc zero))) a b = ground arith
bit-lt n true (suc (suc (suc (suc k)))) a b = absurd (omega (arith, a))
bit-lt n false k a b = ground arith

either-lt :
    (n : ℕ) (pressed t : Bool) (o p : Option ℕ)
    → with_modifier o pressed n < 16
    → with_modifier p pressed n < 16
    → with_modifier (if t then o else p) pressed n < 16
either-lt n pressed true o p a b = a
either-lt n pressed false o p a b = b

modifiers-lt :
    (code n : ℕ) (pressed : Bool) → n < 16 → with_modifier (modifier_of code) pressed n < 16
modifiers-lt code n pressed b =
    either-lt n pressed (code == 42 || code == 54) _ _ (bit-lt n pressed 0 (omega arith) b) (
      either-lt n pressed (code == 29 || code == 97) _ _ (bit-lt n pressed 1 (omega arith) b) (
        either-lt n pressed (code == 56 || code == 100) _ _ (bit-lt n pressed 2 (omega arith) b) (
          either-lt n pressed (code == 125 || code == 126) _ _ (bit-lt n pressed 3 (omega arith) b)
            b)))

update_modifiers-IsInput :
    (code : ℕ) (pressed : Bool) (i : Input) → IsInput i → IsInput (update_modifiers code pressed i)
unfolding update_modifiers
update_modifiers-IsInput code pressed i v = record {
  width_ok = v.width_ok;
  height_ok = v.height_ok;
  x_on = v.x_on;
  y_on = v.y_on;
  screen_same = v.screen_same;
  cursor_same = v.cursor_same;
  few_modifiers = modifiers-lt code i.modifiers pressed v.few_modifiers;
}

key_event-IsInput : (e : Event) (i : Input) (st : State) → IsInput i → IsInput (key_event e i st).0
unfolding key_event
key_event-IsInput e i st v = elim (Bool-cases (e.type == 1)) [
  | inl h ↦ rw h (update_modifiers-IsInput e.code (is_pressed e.value) i v)
  | inr h ↦ rw h v
]

pump_keyboard-IsInput :
    (events : List Event) (i : Input) (st : State)
    → IsInput i
    → IsInput (pump_keyboard events i st).0
unfolding pump_keyboard
pump_keyboard-IsInput [] i st v = v
pump_keyboard-IsInput (e ∷ rest) i st v =
    pump_keyboard-IsInput rest (key_event e i st).0 st (key_event-IsInput e i st v)

-- On a screen of 1 to 2^31 - 1 pixels a side, lgp_input_pump, as it is built without libinput,
-- keeps the pointer on the screen, the drawn cursor at the pointer, and the modifiers within their
-- four bits, whatever packets and key events it reads.
pub pump-IsInput :
    (packets : List Packet) (events : List Event) (i : Input) (st : State)
    → IsInput i
    → IsInput (pump packets events i st).input
unfolding pump
pump-IsInput packets events i st v =
    let mouse = pump_mouse packets i st in
    pump_keyboard-IsInput events mouse.input mouse.state (pump_mouse-IsInput packets i st v)

-- The session: a button may change the focus.
button_to-IsSession :
    (st : State) (which : ℕ) (pressed : Bool) (o : Option Surface)
    → IsSession st
    → IsSession (button_to st which pressed o).0
button_to-IsSession st which pressed none v = v
button_to-IsSession st which true (some s) v = focus-IsSession st s.owner s.id v
button_to-IsSession st which false (some s) v = v

button_changed-IsSession :
    (x y : ℤ) (which : ℕ) (was is : Bool) (st : State)
    → IsSession st
    → IsSession (button_changed x y which was is st).0
unfolding dispatch_button
button_changed-IsSession x y which was is st v = elim (Bool-cases (changed was is)) [
  | inl h ↦ rw h (button_to-IsSession st which is (find_target st x y) v)
  | inr h ↦ rw h v
]

packet-IsSession :
    (p : Packet) (i : Input) (st : State) → IsSession st → IsSession (packet p i st).state
packet-IsSession p i st v =
    let m = moved p i in
    let left = button_changed-IsSession m.pointer_x m.pointer_y 0 i.last_left m.last_left st v in
    let both =
      button_changed-IsSession m.pointer_x m.pointer_y 1 i.last_right m.last_right
        (button_changed m.pointer_x m.pointer_y 0 i.last_left m.last_left st).0 left in
    unfold packet in both

pump_mouse-IsSession :
    (packets : List Packet) (i : Input) (st : State)
    → IsSession st
    → IsSession (pump_mouse packets i st).state
unfolding pump_mouse
pump_mouse-IsSession [] i st v = v
pump_mouse-IsSession (p ∷ rest) i st v =
    pump_mouse-IsSession rest (packet p i st).input (packet p i st).state
      (packet-IsSession p i st v)

pub pump-IsSession :
    (packets : List Packet) (events : List Event) (i : Input) (st : State)
    → IsSession st
    → IsSession (pump packets events i st).state
unfolding pump
pump-IsSession packets events i st v = pump_mouse-IsSession packets i st v
