-- ===== src/Lgp/Session/Message.antt =====
-- lgp_handle_client_message of src/lgp-compositor/main.c, with its branches of the handshake and of the
-- clipboard.
use mahina_os.Prelude.{
  ℕ, ◌+◌, ◌-◌, ◌^◌, Bool, true, false, ◌&&◌, not, Option, none, some, List, [], ◌∷◌, ◌++◌, ◌==◌,
  leb, if◌then◌else◌, length, take, replicate,
}
use mahina_os.Lgp.Client.{Client, has_bit, cap_clipboard, cap_window_manager}
use mahina_os.Lgp.Wire.{Msg, header_size, payload_size, u32_bytes, encode_header, write_bytes}
use mahina_os.Lgp.Hello.{hello_handle}
use mahina_os.Lgp.Messages.{
  msg_create_surface, msg_destroy_surface, msg_commit_buffer, msg_wm_set_surface_position,
  msg_wm_set_focus, msg_wm_set_state, msg_wm_grab_key,
}
use mahina_os.Lgp.Session.{State, Answers, Outcome, kept, with_client, send_to}
use mahina_os.Lgp.Session.Windows.{
  handle_fill_rect, handle_create_surface, handle_destroy_surface, handle_commit_buffer,
}
use mahina_os.Lgp.Session.Manage.{
  handle_set_position, handle_set_focus, handle_set_state, handle_grab_key,
}

-- LGP_MSG_ types that only main.c names.
abbrev pub msg_hello : ℕ
msg_hello = 0x0001

abbrev pub msg_fill_rect : ℕ
msg_fill_rect = 0x0010

abbrev pub msg_clipboard_set : ℕ
msg_clipboard_set = 0x0120

abbrev pub msg_clipboard_get : ℕ
msg_clipboard_get = 0x0121

abbrev pub msg_clipboard_data : ℕ
msg_clipboard_data = 0x0122

abbrev pub msg_output_geometry : ℕ
msg_output_geometry = 0x0300

abbrev pub clipboard_size : ℕ
clipboard_size = 4096

-- The branch of LGP_MSG_HELLO. lgp_hello_handle leaves the client, its result and the reply.
abbrev pub geometry : Answers → Option (List ℕ)
geometry env =
    elim (encode_header (replicate (header_size + 8) 0) msg_output_geometry (header_size + 8)) [
      | none ↦ none
      | some frame ↦
          some
            (write_bytes (write_bytes frame 6 (u32_bytes env.hdisplay)) 10 (u32_bytes env.vdisplay))
    ]

-- caps &= ~(1u << k)
abbrev pub clear_bit : ℕ → ℕ → ℕ
clear_bit k caps = if has_bit k caps then caps - 2 ^ k else caps

abbrev pub registered : State → Client → State
registered st client =
    if has_bit cap_window_manager client.caps_granted
    then (if client.uid == 0
        then with_client client (record st { wm_client = some client.fd })
        else with_client
            (record client { caps_granted = clear_bit cap_window_manager client.caps_granted }) st)
    else with_client client st

unfoldable pub greeted : Answers → State → Client × Bool × Option (List ℕ) → Outcome
unfolding encode_header u32_bytes
greeted env st (client, done, reply) =
    let answer = send_to (some client.fd) reply in
    if done
    then (registered st client, true, answer ++ send_to (some client.fd) (geometry env))
    else (with_client client st, false, answer)

unfoldable pub handle_hello : Answers → State → Client → Msg → Outcome
unfolding greeted hello_handle
handle_hello env st client msg = greeted env st (hello_handle client msg env.written)

-- The branches of LGP_MSG_CLIPBOARD_SET and LGP_MSG_CLIPBOARD_GET.
abbrev pub until_nul : List ℕ → List ℕ
until_nul [] = []
until_nul (c ∷ r) = if c == 0 then [] else c ∷ until_nul r

abbrev pub clipped : ℕ → ℕ
clipped n = if leb clipboard_size n then clipboard_size - 1 else n

unfoldable pub handle_clipboard_set : State → Client → Msg → Outcome
handle_clipboard_set st client msg =
    if not (has_bit cap_clipboard client.caps_granted)
    then kept st false
    else kept
        (record st { clipboard = until_nul (take (clipped (payload_size msg.size)) msg.payload) })
        true

-- The frame with the text and its NUL.
abbrev pub clipboard_frame : List ℕ → Option (List ℕ)
clipboard_frame text =
    let size = header_size + length text + 1 in
    elim (encode_header (replicate size 0) msg_clipboard_data size) [
      | none ↦ none
      | some frame ↦ some (write_bytes frame 6 (text ++ 0 ∷ []))
    ]

unfoldable pub handle_clipboard_get : State → Client → Msg → Outcome
unfolding encode_header
handle_clipboard_get st client msg =
    if not (has_bit cap_clipboard client.caps_granted)
    then kept st false
    else (st, true, send_to (some client.fd) (clipboard_frame st.clipboard))

-- lgp_handle_client_message behind its two tests of the handshake.
unfoldable pub handle_request : Answers → State → Client → Msg → Outcome
unfolding handle_fill_rect handle_create_surface handle_destroy_surface handle_commit_buffer
    handle_clipboard_set handle_clipboard_get handle_set_position handle_set_focus handle_set_state
    handle_grab_key
handle_request env st client msg =
    if msg.type == msg_fill_rect
    then handle_fill_rect env st client msg
    else if msg.type == msg_create_surface
    then handle_create_surface env st client msg
    else if msg.type == msg_destroy_surface
    then handle_destroy_surface st client msg
    else if msg.type == msg_commit_buffer
    then handle_commit_buffer env st client msg
    else if msg.type == msg_clipboard_set
    then handle_clipboard_set st client msg
    else if msg.type == msg_clipboard_get
    then handle_clipboard_get st client msg
    else if msg.type == msg_wm_set_surface_position
    then handle_set_position env st client msg
    else if msg.type == msg_wm_set_focus
    then handle_set_focus st client msg
    else if msg.type == msg_wm_set_state
    then handle_set_state env st client msg
    else if msg.type == msg_wm_grab_key
    then handle_grab_key st client msg
    else kept st false

-- lgp_handle_client_message.
unfoldable pub handle_message : Answers → State → Client → Msg → Outcome
unfolding handle_request handle_hello
handle_message env st client msg =
    if not client.hello_done && not (msg.type == msg_hello)
    then kept st false
    else if client.hello_done && msg.type == msg_hello
    then kept st false
    else if msg.type == msg_hello
    then handle_hello env st client msg
    else handle_request env st client msg
