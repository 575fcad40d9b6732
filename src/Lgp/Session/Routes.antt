-- ===== src/Lgp/Session/Routes.antt =====
-- Where src/lgp-compositor/main.c sends pointer and keyboard events.
use mahina_os.Prelude.{
  ℕ, ◌+◌, ◌-◌, ◌%◌, ◌^◌, ◌&&◌, ◌||◌, Bool, true, false, not, Option, none, some, List, [], ◌∷◌,
  ◌++◌, ◌==◌, ltb, leb, if◌then◌else◌, replicate, ℤ, pos, ◌+ℤ◌, ◌-ℤ◌, ltb_ℤ, pos_part, neg_part,
}
use mahina_os.Lgp.Client.{Client}
use mahina_os.Lgp.Wire.{header_size, u32_bytes, encode_header, write_bytes}
use mahina_os.Lgp.Surface.{Surface, layer_application, layer_shell}
use mahina_os.Lgp.Session.{State, Act, send_to, Grab, find_client}

abbrev pub msg_pointer_motion : ℕ
msg_pointer_motion = 0x0110

abbrev pub msg_pointer_button : ℕ
msg_pointer_button = 0x0111

abbrev pub msg_keyboard_key : ℕ
msg_keyboard_key = 0x0112

-- The session of the window manager, by its client.
abbrev pub session_of : Option Client → Option ℕ
session_of none = none
session_of (some c) = some c.session_id

unfoldable pub wm_session : State → Option ℕ
unfolding find_client
wm_session st = elim st.wm_client [ none ↦ none | some fd ↦ session_of (find_client fd st.clients) ]

-- The first client of a session.
unfoldable pub find_session : ℕ → List Client → Option Client
find_session session [] = none
find_session session (c ∷ cs) =
    let later = find_session session cs in if c.session_id == session then some c else later

-- (uint32_t) of an int.
abbrev pub to_u32 : ℤ → ℕ
to_u32 x = (pos_part x + (2 ^ 32 - neg_part x % 2 ^ 32)) % 2 ^ 32

-- A frame with its payload, to the client of a session other than 0.
abbrev pub frame : ℕ → List ℕ → ℕ → Option (List ℕ)
frame type payload size = elim (encode_header (replicate size 0) type size) [
  | none ↦ none
  | some header ↦ some (write_bytes header 6 payload)
]

abbrev pub send_client : Option Client → Option (List ℕ) → List Act
send_client none bytes = []
send_client (some c) bytes = send_to (some c.fd) bytes

unfoldable pub send_session : State → ℕ → Option (List ℕ) → List Act
unfolding find_session
send_session st session bytes =
    if session == 0 then [] else send_client (find_session session st.clients) bytes

-- lgp_send_pointer_motion_to_session and lgp_send_pointer_button_to_session.
unfoldable pub send_motion : State → ℕ → ℤ → ℤ → List Act
unfolding send_session encode_header u32_bytes
send_motion st session x y =
    send_session st session
      (frame msg_pointer_motion (u32_bytes (to_u32 x) ++ u32_bytes (to_u32 y)) (header_size + 8))

unfoldable pub send_button : State → ℕ → ℕ → Bool → List Act
unfolding send_session encode_header
send_button st session button pressed =
    send_session st session
      (frame msg_pointer_button (button ∷ (if pressed then 1 else 0) ∷ []) (header_size + 2))

-- Whether a surface may get the pointer: in use, not the window manager's, on a layer of the
-- applications, shown, and under the point. Sums are of unbounded integers.
abbrev pub owned_by : Option ℕ → Surface → Bool
owned_by none s = false
owned_by (some session) s = s.owner == session

abbrev pub is_shown : Surface → Bool
is_shown s = not (s.wm_state == 4 || s.wm_state == 2)

abbrev pub covers : Surface → ℤ → ℤ → Bool
covers s x y =
    not (ltb_ℤ x s.x)
    && (ltb_ℤ x (s.x +ℤ pos s.width) && (not (ltb_ℤ y s.y) && ltb_ℤ y (s.y +ℤ pos s.height)))

unfoldable pub is_target : Option ℕ → ℤ → ℤ → Surface → Bool
is_target wm x y s =
    s.in_use
    && (not (owned_by wm s)
        && ((leb layer_application s.layer && ltb s.layer layer_shell)
            && (is_shown s && covers s x y)))

-- if ((int)s->layer > top_layer): `best` is the target so far.
abbrev pub is_above : Surface → Option Surface → Bool
is_above s none = true
is_above s (some best) = ltb best.layer s.layer

unfoldable pub target_loop : Option ℕ → ℤ → ℤ → Option Surface → List Surface → Option Surface
unfolding is_target
target_loop wm x y best [] = best
target_loop wm x y best (s ∷ rest) =
    target_loop wm x y (if is_target wm x y s && is_above s best then some s else best) rest

-- lgp_find_pointer_target.
unfoldable pub find_target : State → ℤ → ℤ → Option Surface
unfolding target_loop wm_session
find_target st x y = target_loop (wm_session st) x y none st.manager.surfaces

-- The part for the window manager, and for the target.
abbrev pub to_wm : Option ℕ → (ℕ → List Act) → List Act
to_wm none to = []
to_wm (some session) to = to session

abbrev pub motion_to : State → ℤ → ℤ → Option Surface → List Act
motion_to st x y none = []
motion_to st x y (some s) = send_motion st s.owner (x -ℤ s.x) (y -ℤ s.y)

-- lgp_dispatch_pointer_motion.
unfoldable pub dispatch_motion : State → ℤ → ℤ → List Act
unfolding send_motion find_target wm_session
dispatch_motion st x y =
    to_wm (wm_session st) (λ session. send_motion st session x y)
    ++ motion_to st x y (find_target st x y)

abbrev pub button_to : State → ℕ → Bool → Option Surface → State × List Act
button_to st button pressed none = (st, [])
button_to st button pressed (some s) = (
  if pressed then record st { focus_session = s.owner; focus_surface = s.id } else st,
  send_button st s.owner button pressed,
)

-- lgp_dispatch_pointer_button.
unfoldable pub dispatch_button : State → ℤ → ℤ → ℕ → Bool → State × List Act
unfolding send_button find_target wm_session
dispatch_button st x y button pressed =
    let (after, acts) = button_to st button pressed (find_target st x y) in
    (after, to_wm (wm_session st) (λ session. send_button st session button pressed) ++ acts)

unfoldable pub is_grabbed : ℕ → ℕ → List Grab → Bool
is_grabbed key modifiers [] = false
is_grabbed key modifiers (g ∷ gs) =
    if g.key == key && g.modifiers == modifiers then true else is_grabbed key modifiers gs

-- The session that a key goes to.
abbrev pub key_session_with : State → ℕ → ℕ → Option ℕ → ℕ
key_session_with st key modifiers none = st.focus_session
key_session_with st key modifiers (some session) =
    if is_grabbed key modifiers st.grabbed_keys then session else st.focus_session

unfoldable pub key_session : State → ℕ → ℕ → ℕ
unfolding is_grabbed wm_session
key_session st key modifiers = key_session_with st key modifiers (wm_session st)

-- lgp_dispatch_keyboard_key.
unfoldable pub dispatch_key : State → ℕ → ℕ → ℕ → List Act
unfolding send_session key_session encode_header u32_bytes
dispatch_key st key key_state modifiers = send_session st (key_session st key modifiers) (
    frame msg_keyboard_key (u32_bytes key ++ (u32_bytes key_state ++ u32_bytes modifiers))
      (header_size + 12))
