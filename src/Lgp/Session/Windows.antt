-- ===== src/Lgp/Session/Windows.antt =====
-- The requests on a client's own windows in src/lgp-compositor/main.c, and the fill of the front buffer.
use mathlib.Core.Option
use mahina_os.Prelude.{
  ℕ, ◌+◌, ◌*◌, ◌^◌, Bool, true, false, not, Option, none, some, List, [], ◌∷◌, ◌++◌, ◌==◌, ltb,
  if◌then◌else◌, take, replicate, ℤ, negsuc,
}
use mahina_os.Lgp.Client.{Client, has_bit, cap_direct_lgp}
use mahina_os.Lgp.Wire.{Msg, header_size, payload_size}
use mahina_os.Lgp.Messages.{
  Create, Commit, decode_create, decode_destroy, decode_commit, encode_create_reply,
  encode_surface_created, encode_surface_destroyed,
}
use mahina_os.Lgp.Surface.{
  Status, ok, invalid, denied, no_memory, not_found, bad_buffer, Manager, Effect, create, destroy,
  commit, layer_application,
}
use mahina_os.Lgp.Session.{
  State, Answers, Outcome, kept, with_client, with_manager, other_wm, effects_of, send_to,
  repainted, fill,
}

-- lgp_handle_fill_rect. The color is that of the first three bytes of the payload.
abbrev pub color_of : List ℕ → ℕ
color_of (r ∷ g ∷ b ∷ rest) = r * 2 ^ 16 + g * 2 ^ 8 + b
color_of _ = 0

unfoldable pub handle_fill_rect : Answers → State → Client → Msg → Outcome
handle_fill_rect env st client msg =
    if not (has_bit cap_direct_lgp client.caps_granted)
    then kept st false
    else if ltb (payload_size msg.size) 4
    then kept st false
    else (st, env.flipped, fill (color_of msg.payload) ∷ [])

-- The numbers of the LGP_SURFACE_STATUS_ codes.
abbrev pub status_code : Status → ℕ
status_code ok = 0
status_code invalid = 1
status_code denied = 2
status_code no_memory = 3
status_code not_found = 4
status_code bad_buffer = 5

abbrev pub is_ok : Status → Bool
is_ok ok = true
is_ok _ = false

-- The keyboard focus after a window of the application layer was made.
abbrev pub focused : State → Client → Create → ℕ → State
focused st client p id =
    if p.layer == layer_application
    then record st { focus_session = client.session_id; focus_surface = id }
    else st

unfoldable pub created : Answers → State → Client → Create → Manager × Status × ℕ → Outcome
unfolding encode_create_reply encode_surface_created
created env st client p (m, status, id) =
    let reply =
      send_to (some client.fd)
        (encode_create_reply (replicate (header_size + 8) 0) (status_code status) id) in
    let made = with_manager m st in
    if not env.written
    then (made, false, reply)
    else if not (is_ok status)
    then (made, true, reply)
    else (
      focused made client p id,
      true,
      reply
          ++ send_to (other_wm st client) (
              Option.map (λ frame. take (header_size + 16) frame)
                (encode_surface_created (replicate 64 0) id p.surface_type p.width p.height)),
    )

abbrev pub create_with : Answers → State → Client → Option Create → Outcome
create_with env st client none = kept st false
create_with env st client (some p) = created env st client p (create st.manager client p)

-- lgp_handle_create_surface.
unfoldable pub handle_create_surface : Answers → State → Client → Msg → Outcome
unfolding created create decode_create
handle_create_surface env st client msg = create_with env st client (decode_create msg)

unfoldable pub destroyed : State → Client → ℕ → Manager × Status × List Effect → Outcome
unfolding encode_surface_destroyed
destroyed st client id (m, status, effects) =
    if not (is_ok status) then (with_manager m st, false, effects_of effects) else (
      with_manager m st,
      true,
      effects_of effects
          ++ send_to (other_wm st client) (
              Option.map (λ frame. take (header_size + 4) frame)
                (encode_surface_destroyed (replicate 32 0) id)),
    )

abbrev pub destroy_with : State → Client → Option ℕ → Outcome
destroy_with st client none = kept st false
destroy_with st client (some id) = destroyed st client id (destroy st.manager client id)

-- lgp_handle_destroy_surface.
unfoldable pub handle_destroy_surface : State → Client → Msg → Outcome
unfolding destroyed destroy decode_destroy
handle_destroy_surface st client msg = destroy_with st client (decode_destroy msg)

-- lgp_client_take_fd: the descriptor, -1 for none, and the client without it.
abbrev pub taken : List ℤ → ℤ × List ℤ
taken [] = (negsuc 0, [])
taken (fd ∷ fds) = (fd, fds)

unfoldable pub take_fd : Client → ℤ × Client
take_fd client =
    let (fd, rest) = taken client.pending_fds in (fd, record client { pending_fds = rest })

unfoldable pub committed : Answers → State → Manager × Status × List Effect → Outcome
committed env st (m, status, effects) =
    if not (is_ok status)
    then (with_manager m st, false, effects_of effects)
    else repainted env (with_manager m st) (effects_of effects)

abbrev pub commit_with : Answers → State → Client → Option Commit → Outcome
commit_with env st client none = kept st false
commit_with env st client (some p) =
    let (fd, rest) = take_fd client in
    committed env (with_client rest st) (commit st.manager client p fd env.mapped)

-- lgp_handle_commit_buffer.
unfoldable pub handle_commit_buffer : Answers → State → Client → Msg → Outcome
unfolding committed commit decode_commit take_fd
handle_commit_buffer env st client msg = commit_with env st client (decode_commit msg)
