-- ===== src/Lgp/Session/Manage.antt =====
-- The requests of the window manager in src/lgp-compositor/main.c.
use mahina_os.Prelude.{
  ℕ, Bool, true, false, ◌||◌, not, Option, none, some, [], ◌∷◌, ◌++◌, ◌==◌, ltb, if◌then◌else◌,
  length, get_elem?, set, pos, ◌+ℤ◌, ◌-ℤ◌, ltb_ℤ,
}
use mahina_os.Lgp.Client.{Client, has_bit, cap_window_manager}
use mahina_os.Lgp.Wire.{Msg}
use mahina_os.Lgp.Messages.{
  SetPosition, decode_set_position, decode_set_focus, decode_set_state, decode_grab_key,
}
use mahina_os.Lgp.Surface.{Surface, find, manager_find}
use mahina_os.Lgp.Session.{State, Answers, Outcome, kept, with_manager, repainted}

abbrev pub max_grabs : ℕ
max_grabs = 128

-- lgp_handle_wm_set_position, on the slot that its loop finds. The sums are of unbounded integers: an
-- int that overflows is undefined in C.
abbrev pub placed : Surface → SetPosition → Surface
placed s p = record s { x = p.x; y = p.y }

abbrev pub off_screen : Answers → Surface → SetPosition → Bool
off_screen env s p =
    ltb_ℤ p.x (pos 0 -ℤ pos s.width)
    || (ltb_ℤ (pos env.hdisplay) (p.x +ℤ pos s.width)
        || (ltb_ℤ p.y (pos 0 -ℤ pos s.height) || ltb_ℤ (pos env.vdisplay) (p.y +ℤ pos s.height)))

-- A change of the surface in a slot.
abbrev pub with_surface : ℕ → Surface → State → State
with_surface i s st = with_manager (record st.manager { surfaces = set st.manager.surfaces i s }) st

abbrev pub place_at : Answers → State → SetPosition → ℕ → Option Surface → Outcome
place_at env st p i none = kept st true
place_at env st p i (some s) =
    if off_screen env s p then kept st true else repainted env (with_surface i (placed s p) st) []

abbrev pub place_found : Answers → State → SetPosition → Option ℕ → Outcome
place_found env st p none = kept st true
place_found env st p (some i) = place_at env st p i (get_elem? st.manager.surfaces i)

abbrev pub place : Answers → State → Option SetPosition → Outcome
place env st none = kept st false
place env st (some p) = place_found env st p (find st.manager p.surface_id)

unfoldable pub handle_set_position : Answers → State → Client → Msg → Outcome
unfolding decode_set_position find
handle_set_position env st client msg =
    if not (has_bit cap_window_manager client.caps_granted)
    then kept st false
    else place env st (decode_set_position msg)

-- lgp_handle_wm_set_focus.
abbrev pub focus_on : State → Option Surface → Outcome
focus_on st none = kept st false
focus_on st (some s) = kept (record st { focus_session = s.owner; focus_surface = s.id }) true

abbrev pub focus : State → Option ℕ → Outcome
focus st none = kept st false
focus st (some id) =
    if id == 0
    then kept (record st { focus_session = 0; focus_surface = 0 }) true
    else focus_on st (manager_find st.manager id)

unfoldable pub handle_set_focus : State → Client → Msg → Outcome
unfolding decode_set_focus manager_find
handle_set_focus st client msg =
    if not (has_bit cap_window_manager client.caps_granted)
    then kept st false
    else focus st (decode_set_focus msg)

-- lgp_handle_wm_set_state.
abbrev pub state_at : State → ℕ → ℕ → Option Surface → State
state_at st i wm_state none = st
state_at st i wm_state (some s) = with_surface i (record s { wm_state = wm_state }) st

abbrev pub state_found : State → ℕ → Option ℕ → State
state_found st wm_state none = st
state_found st wm_state (some i) = state_at st i wm_state (get_elem? st.manager.surfaces i)

abbrev pub wm_state_of : Answers → State → Option (ℕ × ℕ) → Outcome
wm_state_of env st none = kept st false
wm_state_of env st (some (id, wm_state)) =
    repainted env (state_found st wm_state (find st.manager id)) []

unfoldable pub handle_set_state : Answers → State → Client → Msg → Outcome
unfolding decode_set_state find
handle_set_state env st client msg =
    if not (has_bit cap_window_manager client.caps_granted)
    then kept st false
    else wm_state_of env st (decode_set_state msg)

-- lgp_handle_wm_grab_key.
abbrev pub grab : State → Option (ℕ × ℕ) → Outcome
grab st none = kept st false
grab st (some (key, modifiers)) =
    if ltb (length st.grabbed_keys) max_grabs
    then kept
        (record st {
          grabbed_keys = st.grabbed_keys ++ (record { key = key; modifiers = modifiers }) ∷ [];
        })
        true
    else kept st true

unfoldable pub handle_grab_key : State → Client → Msg → Outcome
unfolding decode_grab_key
handle_grab_key st client msg =
    if not (has_bit cap_window_manager client.caps_granted)
    then kept st false
    else grab st (decode_grab_key msg)
