-- ===== src/Lgp/Input.antt =====
-- The raw mouse and keyboard of src/lgp-compositor/input/input.c, as it is built without libinput, and
-- what they do to the session.
pub mod Screen
pub mod Tests
use mahina_os.Prelude.{
  ℕ, ◌+◌, ◌*◌, ◌^◌, ◌<◌, ◌≡◌, ◌||◌, Bool, true, false, not, Option, none, some, List, [], ◌∷◌, ◌++◌,
  ◌==◌, ltb, if◌then◌else◌, ℤ, pos, ltb_ℤ, ◌/◌, ◌+ℤ◌, ◌-ℤ◌,
}
use mahina_os.Lgp.Client.{set_bit}
use mahina_os.Lgp.Scene.{Cursor, cursor_init, set_position}
use mahina_os.Lgp.Mouse.{Packet, flag, delta, changed}
use mahina_os.Lgp.Session.{State, Act}
use mahina_os.Lgp.Session.Message.{clear_bit}
use mahina_os.Lgp.Session.Routes.{to_u32, dispatch_motion, dispatch_button, dispatch_key}

-- lgp_input_shared_t with the two static flags of lgp_input_pump_raw_mouse, and g_cursor of
-- scene/surface.c. The doubles hold integers here: the raw mouse adds integers to them.
pub record Input : Type 0 where
  pub screen_w : ℕ
  pub screen_h : ℕ
  pub pointer_x : ℤ
  pub pointer_y : ℤ
  pub modifiers : ℕ
  pub last_left : Bool
  pub last_right : Bool
  pub cursor : Cursor

-- The size that lgp_input_set_screen takes for one that is not known. Sizes are below 2^31.
abbrev pub size_or : ℕ → ℕ → ℕ
size_or other size = if ltb 0 size then size else other

-- lgp_input_set_screen.
unfoldable pub set_screen : ℕ → ℕ → Bool → Bool → Input
unfolding cursor_init set_position
set_screen width height left right =
    let w = size_or 1920 width in
    let h = size_or 1080 height in
    record {
      screen_w = w;
      screen_h = h;
      pointer_x = pos (w / 2);
      pointer_y = pos (h / 2);
      modifiers = 0;
      last_left = left;
      last_right = right;
      cursor = set_position (pos (w / 2)) (pos (h / 2)) (cursor_init w h);
    }

-- One coordinate of lgp_input_clamp_pointer.
abbrev pub not_negative : ℤ → ℤ
not_negative z = if ltb_ℤ z (pos 0) then pos 0 else z

unfoldable pub clamp_pointer : ℤ → ℕ → ℤ
unfolding ◌-ℤ◌
clamp_pointer z size =
    if ltb_ℤ (not_negative z) (pos size) then not_negative z else pos size -ℤ pos 1

-- The bit of a key's modifier, by the codes of linux/input-event-codes.h: shift, control, alt and meta.
abbrev pub modifier_of : ℕ → Option ℕ
modifier_of code =
    if code == 42 || code == 54
    then some 0
    else if code == 29 || code == 97
    then some 1
    else if code == 56 || code == 100
    then some 2
    else if code == 125 || code == 126
    then some 3
    else none

abbrev pub with_modifier : Option ℕ → Bool → ℕ → ℕ
with_modifier none pressed n = n
with_modifier (some k) pressed n = if pressed then set_bit k n else clear_bit k n

-- lgp_input_update_modifiers.
unfoldable pub update_modifiers : ℕ → Bool → Input → Input
update_modifiers code pressed i = record i {
  modifiers = with_modifier (modifier_of code) pressed i.modifiers;
}

-- What a pump leaves.
pub record Pumped : Type 0 where
  pub input : Input
  pub state : State
  pub acts : List Act

-- A button that changed, told to the session.
abbrev pub button_changed : ℤ → ℤ → ℕ → Bool → Bool → State → State × List Act
button_changed x y button was is st =
    if changed was is then dispatch_button st x y button is else (st, [])

-- The body of the loop of lgp_input_pump_raw_mouse.
abbrev pub moved : Packet → Input → Input
moved p i =
    let x = clamp_pointer (i.pointer_x +ℤ delta (flag 4 p.flags) p.dx) i.screen_w in
    let y = clamp_pointer (i.pointer_y -ℤ delta (flag 5 p.flags) p.dy) i.screen_h in
    record i {
      pointer_x = x;
      pointer_y = y;
      last_left = flag 0 p.flags;
      last_right = flag 1 p.flags;
      cursor = set_position x y i.cursor;
    }

unfoldable pub packet : Packet → Input → State → Pumped
unfolding clamp_pointer set_position dispatch_motion dispatch_button ◌+ℤ◌ ◌-ℤ◌
packet p i st =
    let after = moved p i in
    let x = after.pointer_x in
    let y = after.pointer_y in
    let (lefted, left) = button_changed x y 0 i.last_left after.last_left st in
    let (righted, right) = button_changed x y 1 i.last_right after.last_right lefted in
    record { input = after; state = righted; acts = dispatch_motion st x y ++ (left ++ right) }

-- lgp_input_pump_raw_mouse over the packets that read returns.
unfoldable pub pump_mouse : List Packet → Input → State → Pumped
unfolding packet
pump_mouse [] i st = record { input = i; state = st; acts = [] }
pump_mouse (p ∷ rest) i st =
    let one = packet p i st in
    let later = pump_mouse rest one.input one.state in
    record { input = later.input; state = later.state; acts = one.acts ++ later.acts }

-- struct input_event, less its time.
pub record Event : Type 0 where
  pub type : ℕ
  pub code : ℕ
  pub value : ℤ

abbrev pub is_pressed : ℤ → Bool
is_pressed (pos n) = n == 1 || n == 2
is_pressed _ = false

-- lgp_input_pump_raw_keyboard over the events that read returns. It does not change the session.
unfoldable pub key_event : Event → Input → State → Input × List Act
unfolding update_modifiers dispatch_key
key_event e i st =
    if not (e.type == 1)
    then (i, [])
    else (let after = update_modifiers e.code (is_pressed e.value) i in
        (
          after,
          if ltb 0 st.focus_session
              then dispatch_key st e.code (to_u32 e.value) after.modifiers
              else [],
        ))

unfoldable pub pump_keyboard : List Event → Input → State → Input × List Act
unfolding key_event
pump_keyboard [] i st = (i, [])
pump_keyboard (e ∷ rest) i st =
    let (after, acts) = key_event e i st in
    let (final, later) = pump_keyboard rest after st in (final, acts ++ later)

-- lgp_input_pump.
unfoldable pub pump : List Packet → List Event → Input → State → Pumped
unfolding pump_mouse pump_keyboard
pump packets events i st =
    let mouse = pump_mouse packets i st in
    let (final, acts) = pump_keyboard events mouse.input mouse.state in
    record { input = final; state = mouse.state; acts = mouse.acts ++ acts }
