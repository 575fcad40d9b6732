-- ===== src/Lgp/Session.antt =====
-- The state of src/lgp-compositor/main.h, its clients, and what a handler of main.c gives.
pub mod Windows
pub mod Manage
pub mod Message
pub mod Buffer
pub mod Routes
pub mod Loop
pub mod Links
pub mod Keeps
pub mod Greets
pub mod Steps
pub mod Turns
pub mod Events
pub mod Reach
pub mod Guards
pub mod Hits
pub mod Targets
pub mod Tests
use mathlib.Core.Option
use mahina_os.Prelude.{
  ℕ, zero, suc, ◌+◌, ◌-◌, ◌*◌, ◌%◌, ◌^◌, Bool, true, false, ◌&&◌, ◌||◌, not, Option, none, some,
  List, [], ◌∷◌, ◌++◌, ◌==◌, ltb, leb, if◌then◌else◌, length, take, drop, get_elem?, set, replicate,
  ℤ, pos, negsuc, ◌+ℤ◌, ◌-ℤ◌, ltb_ℤ, pos_part, neg_part,
}
use mahina_os.Lgp.Client.{Client, has_bit, cap_direct_lgp, cap_clipboard, cap_window_manager}
use mahina_os.Lgp.Wire.{Msg, header_size, payload_size, u32_bytes, encode_header, write_bytes}
use mahina_os.Lgp.Hello.{hello_handle}
use mahina_os.Lgp.Messages.{
  Create, Commit, SetPosition, decode_create, decode_destroy, decode_commit, decode_set_position,
  decode_set_focus, decode_set_state, decode_grab_key, encode_create_reply, encode_surface_created,
  encode_surface_destroyed, msg_create_surface, msg_destroy_surface, msg_commit_buffer,
  msg_wm_set_surface_position, msg_wm_set_focus, msg_wm_set_state, msg_wm_grab_key,
}
use mahina_os.Lgp.Surface.{
  Status, ok, invalid, denied, no_memory, not_found, bad_buffer, Surface, Manager, Effect, find,
  manager_find, create, destroy, commit, layer_application,
}

-- A grabbed key.
pub record Grab : Type 0 where
  pub key : ℕ
  pub modifiers : ℕ

-- lgp_compositor_state_t, less the descriptors of epoll and signals. A client is named by its
-- descriptor, which no other connected client has; `wm_client` is the descriptor of the client that the
-- pointer is to. The clipboard holds the bytes before its NUL.
pub record State : Type 0 where
  pub clients : List Client
  pub wm_client : Option ℤ
  pub next_session_id : ℕ
  pub manager : Manager
  pub focus_session : ℕ
  pub focus_surface : ℕ
  pub clipboard : List ℕ
  pub grabbed_keys : List Grab

-- What a handler does besides: bytes written to a descriptor, the effects of the surface table, the
-- fill of the front buffer with a color, and a composition of the scene.
pub data Act : Type 0 where
  send : ℤ → List ℕ → Act
  effect : Effect → Act
  fill : ℕ → Act
  repaint : Act

-- The answers to one message: whether the writes to the client succeed, the result of mmap, those of
-- the composition and of the page flip, and the size of the display mode.
pub record Answers : Type 0 where
  pub written : Bool
  pub mapped : Option ℕ
  pub composed : Bool
  pub flipped : Bool
  pub hdisplay : ℕ
  pub vdisplay : ℕ

-- A handler leaves the state, its result, and what it did.
abbrev pub Outcome : Type 0
Outcome = State × Bool × List Act

abbrev pub kept : State → Bool → Outcome
kept st result = (st, result, [])

-- The client at a descriptor, and a change of it.
unfoldable pub eq_ℤ : ℤ → ℤ → Bool
eq_ℤ a b = (pos_part a == pos_part b) && (neg_part a == neg_part b)

-- lgp_state_find_client.
unfoldable pub find_client : ℤ → List Client → Option Client
find_client fd [] = none
find_client fd (c ∷ cs) = let later = find_client fd cs in if eq_ℤ c.fd fd then some c else later

-- The client as a handler leaves it, in the list.
unfoldable pub update_client : Client → List Client → List Client
update_client new [] = []
update_client new (c ∷ cs) = if eq_ℤ c.fd new.fd then new ∷ cs else c ∷ update_client new cs

abbrev pub with_client : Client → State → State
with_client c st = record st { clients = update_client c st.clients }

abbrev pub with_manager : Manager → State → State
with_manager m st = record st { manager = m }

-- state->wm_client && state->wm_client != client
abbrev pub other_wm : State → Client → Option ℤ
other_wm st client = elim st.wm_client [
  | none ↦ none
  | some fd ↦ if eq_ℤ fd client.fd then none else some fd
]

abbrev pub effects_of : List Effect → List Act
effects_of [] = []
effects_of (e ∷ es) = effect e ∷ effects_of es

-- A frame that was encoded, sent to a descriptor.
abbrev pub send_to : Option ℤ → Option (List ℕ) → List Act
send_to (some fd) (some frame) = send fd frame ∷ []
send_to (some fd) none = []
send_to none frame = []

-- lgp_repaint_surfaces: `composed` is that lgp_surface_manager_composite returns 0, `flipped` that the
-- page flip succeeds or is busy.
abbrev pub repainted : Answers → State → List Act → Outcome
repainted env st acts = (st, env.composed && env.flipped, acts ++ repaint ∷ [])
