-- ===== src/Lgp/Session/Guards.antt =====
-- What a client may ask of src/lgp-compositor/main.c, by its handshake and its capabilities.
use mahina_os.Prelude.{ℕ, ◌≡◌, refl, Bool, false, ◌&&◌, ◌||◌, not, ◌==◌, leb, if◌then◌else◌, arith}
use mahina_os.Lgp.Client.{Client, has_bit}
use mahina_os.Lgp.Wire.{Msg}
use mahina_os.Lgp.Session.{State, Answers, kept}
use mahina_os.Lgp.Session.Manage.{
  handle_set_position, handle_set_focus, handle_set_state, handle_grab_key,
}
use mahina_os.Lgp.Session.Message.{
  handle_hello, handle_clipboard_set, handle_clipboard_get, handle_request, handle_message,
}
use mahina_os.Lgp.Session.Windows.{
  handle_fill_rect, handle_create_surface, handle_destroy_surface, handle_commit_buffer,
}

-- Before its handshake a client may say hello. After it, a window may be made, changed and destroyed by
-- each client, and the front buffer, the clipboard and the windows of others by those with the capability.
abbrev pub may_request : ℕ → ℕ → Bool
may_request caps type =
    (type == 0x0010 && has_bit 2 caps)
    || ((type == 0x0100 || (type == 0x0102 || type == 0x0103))
        || (((type == 0x0120 || type == 0x0121) && has_bit 6 caps)
            || ((leb 0x0202 type && leb type 0x0205) && has_bit 7 caps)))

abbrev pub may_send : Client → ℕ → Bool
may_send client type =
    if client.hello_done then may_request client.caps_granted type else type == 0x0001

-- The handlers without their capability.
fill_rect_refused :
    (env : Answers) (st : State) (client : Client) (msg : Msg)
    → has_bit 2 client.caps_granted ≡ false
    → handle_fill_rect env st client msg ≡ kept st false
unfolding handle_fill_rect
fill_rect_refused env st client msg h = rw h refl

clipboard_refused :
    (st : State) (client : Client) (msg : Msg)
    → has_bit 6 client.caps_granted ≡ false
    → (handle_clipboard_set st client msg ≡ kept st false)
      × (handle_clipboard_get st client msg ≡ kept st false)
unfolding handle_clipboard_set handle_clipboard_get
clipboard_refused st client msg h = (rw h refl, rw h refl)

windows_refused :
    (env : Answers) (st : State) (client : Client) (msg : Msg)
    → has_bit 7 client.caps_granted ≡ false
    → (handle_set_position env st client msg ≡ kept st false)
      × (handle_set_focus st client msg ≡ kept st false)
      × (handle_set_state env st client msg ≡ kept st false)
      × (handle_grab_key st client msg ≡ kept st false)
unfolding handle_set_position handle_set_focus handle_set_state handle_grab_key
windows_refused env st client msg h = (rw h refl, rw h refl, rw h refl, rw h refl)

-- The tests of the message's type, by what each handler does without its capability.
requests_refused :
    {A : Type 0} (k a b c d e f g h i j : A) (n : ℕ) (x y z : Bool)
    → (x ≡ false → a ≡ k)
    → (y ≡ false → (e ≡ k) × (f ≡ k))
    → (z ≡ false → (g ≡ k) × (h ≡ k) × (i ≡ k) × (j ≡ k))
    → ((n == 0x0010 && x)
        || ((n == 0x0100 || (n == 0x0102 || n == 0x0103))
            || (((n == 0x0120 || n == 0x0121) && y) || ((leb 0x0202 n && leb n 0x0205) && z))))
      ≡ false
    → (if n == 0x0010
        then a
        else if n == 0x0100
        then b
        else if n == 0x0102
        then c
        else if n == 0x0103
        then d
        else if n == 0x0120
        then e
        else if n == 0x0121
        then f
        else if n == 0x0202
        then g
        else if n == 0x0203
        then h
        else if n == 0x0204
        then i
        else if n == 0x0205
        then j
        else k)
      ≡ k
requests_refused k a b c d e f g h i j n x y z p q r s = ground arith

request_refused :
    (env : Answers) (st : State) (client : Client) (msg : Msg)
    → may_request client.caps_granted msg.type ≡ false
    → handle_request env st client msg ≡ kept st false
request_refused env st client msg h =
    let r =
      requests_refused (kept st false) (handle_fill_rect env st client msg)
        (handle_create_surface env st client msg) (handle_destroy_surface st client msg)
        (handle_commit_buffer env st client msg) (handle_clipboard_set st client msg)
        (handle_clipboard_get st client msg) (handle_set_position env st client msg)
        (handle_set_focus st client msg) (handle_set_state env st client msg)
        (handle_grab_key st client msg) msg.type (has_bit 2 client.caps_granted)
        (has_bit 6 client.caps_granted) (has_bit 7 client.caps_granted)
        (fill_rect_refused env st client msg) (clipboard_refused st client msg)
        (windows_refused env st client msg) h in
    unfold handle_request in r

gates_refuse :
    {A : Type 0} (k hello request : A) (done is_hello may : Bool)
    → (may ≡ false → request ≡ k)
    → (if done then may else is_hello) ≡ false
    → (if not done && not is_hello
        then k
        else if done && is_hello
        then k
        else if is_hello
        then hello
        else request)
      ≡ k
gates_refuse k hello request done is_hello may r h = ground arith

-- lgp_handle_client_message does nothing, and has the client disconnected, for a message that the
-- client may not send: before its handshake, anything but a hello; after it, a hello, a FILL_RECT
-- without LGP_CAP_DIRECT_LGP, a clipboard message without LGP_CAP_CLIPBOARD, a message of the
-- window manager without LGP_CAP_WINDOW_MANAGER, and a type that is not of the protocol.
pub handle_message_refuses :
    (env : Answers) (st : State) (client : Client) (msg : Msg)
    → may_send client msg.type ≡ false
    → handle_message env st client msg ≡ kept st false
handle_message_refuses env st client msg h =
    let r =
      gates_refuse (kept st false) (handle_hello env st client msg)
        (handle_request env st client msg) client.hello_done (msg.type == 0x0001)
        (may_request client.caps_granted msg.type) (request_refused env st client msg) h in
    unfold handle_message in r
