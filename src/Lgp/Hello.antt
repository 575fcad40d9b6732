-- ===== src/Lgp/Hello.antt =====
-- The handshake of src/lgp-compositor/protocol/hello.c and caps.c.
pub mod Grant
pub mod Answer
use mahina_os.Prelude.{
  ℕ, ◌+◌, ◌-◌, Bool, true, false, Option, none, some, List, [], ◌∷◌, ◌++◌, ◌==◌, ◌&&◌, not, ltb,
  if◌then◌else◌, replicate,
}
use mahina_os.Lgp.Wire.{
  Msg, header_size, payload_size, read_u16, read_u32, u16_bytes, u32_bytes, encode_header,
  write_bytes,
}
use mahina_os.Lgp.Client.{
  Client, has_bit, set_bit, cap_canvas_surface, cap_direct_lgp, cap_clipboard, cap_layer_shell,
  cap_luna_island, cap_window_manager,
}

abbrev pub msg_hello_reply : ℕ
msg_hello_reply = 0x0002

abbrev pub version_major : ℕ
version_major = 1

abbrev pub version_minor : ℕ
version_minor = 0

-- if (requested_caps & cap) granted |= cap;
abbrev pub grant : ℕ → ℕ → ℕ → ℕ
grant cap requested granted = if has_bit cap requested then set_bit cap granted else granted

-- lgp_caps_negotiate for a client with this uid.
unfoldable pub caps_negotiate : ℕ → ℕ → ℕ
caps_negotiate uid requested =
    let open_caps =
      grant cap_clipboard requested
        (grant cap_direct_lgp requested (grant cap_canvas_surface requested 0)) in
    if uid == 0
    then grant cap_window_manager requested
        (grant cap_luna_island requested (grant cap_layer_shell requested open_caps))
    else open_caps

-- The reply of lgp_hello_handle.
unfoldable pub hello_reply : ℕ → Option (List ℕ)
unfolding encode_header u16_bytes u32_bytes
hello_reply caps =
    elim (encode_header (replicate (header_size + 8) 0) msg_hello_reply (header_size + 8)) [
      | none ↦ none
      | some frame ↦ some (
          write_bytes
            (write_bytes (write_bytes frame 6 (u16_bytes version_major)) 8
              (u16_bytes version_minor))
            10 (u32_bytes caps))
    ]

-- lgp_hello_handle: the client after it, its result, and the frame that was sent. `written` is the
-- result of lgp_write_all.
unfoldable pub hello_handle : Client → Msg → Bool → Client × Bool × Option (List ℕ)
unfolding caps_negotiate hello_reply read_u16 read_u32
hello_handle client msg written =
    if ltb (payload_size msg.size) 8
    then (client, false, none)
    else if not (read_u16 msg.payload 0 == version_major)
    then (client, false, none)
    else (let caps = caps_negotiate client.uid (read_u32 msg.payload 4) in
        let granted = record client { caps_granted = caps } in
        if written
        then (record granted { hello_done = true }, true, hello_reply caps)
        else (granted, false, hello_reply caps))
