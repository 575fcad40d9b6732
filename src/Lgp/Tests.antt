-- ===== src/Lgp/Tests.antt =====
-- The theorems on the display protocol of src/lgp-compositor at concrete inputs.
use mahina_os.Prelude.{
  ℕ, ◌+◌, ◌-◌, ◌≤◌, ◌<◌, ◌≡◌, refl, ◌&&◌, true, some, List, [], ◌∷◌, drop, replicate, pos, negsuc,
  ◌⊎◌, arith,
}
use mahina_os.Lgp.Mouse.{Packet, motion, button, mouse_init, mouse_pump, IsOnDisplay}
use mahina_os.Lgp.Client.{Client, has_bit}
use mahina_os.Lgp.Wire.{Msg, header_size, decode, encode_header, read_u16, read_u32, u32_bytes}
use mahina_os.Lgp.Wire.Frame.{decode_frame, decode_refuses, decode-encode_header}
use mahina_os.Lgp.Hello.{caps_negotiate}
use mahina_os.Lgp.Hello.Grant.{allows, caps_negotiate_exact}
use mahina_os.Lgp.Messages.{Create, Commit, decode_set_position, msg_wm_set_surface_position}
use mahina_os.Lgp.Messages.Layout.{decode_set_position_bytes}

-- A frame of 8 bytes of type 0x10.
abbrev small_frame : List ℕ
small_frame = 0x10 ∷ 0 ∷ 8 ∷ 0 ∷ 0 ∷ 0 ∷ 1 ∷ 2 ∷ []

abbrev small_msg : Msg
small_msg = record { type = 0x10; size = 8; payload = 1 ∷ 2 ∷ [] }

decode_frame_example :
    (header_size ≤ 8)
    × (8 ≤ 8)
    × (0x10 ≡ read_u16 small_frame 0)
    × (8 ≡ read_u32 small_frame 2)
    × ((1 ∷ 2 ∷ []) ≡ drop header_size small_frame)
    × (8 - header_size ≤ 2)
unfolding decode
decode_frame_example = decode_frame small_frame small_msg refl

decode_refuses_example :
    (8 < header_size)
    ⊎ (read_u32 (0 ∷ 0 ∷ 9 ∷ 0 ∷ 0 ∷ 0 ∷ 1 ∷ 2 ∷ []) 2 < header_size)
    ⊎ (8 < read_u32 (0 ∷ 0 ∷ 9 ∷ 0 ∷ 0 ∷ 0 ∷ 1 ∷ 2 ∷ []) 2)
unfolding decode
decode_refuses_example = decode_refuses (0 ∷ 0 ∷ 9 ∷ 0 ∷ 0 ∷ 0 ∷ 1 ∷ 2 ∷ []) refl

decode-encode_header_example :
    (out : List ℕ) × (encode_header (replicate 8 0) 0x10 8 ≡ some out)
    × (decode out ≡ some (record { type = 0x10; size = 8; payload = 0 ∷ 0 ∷ [] }))
decode-encode_header_example =
    decode-encode_header (replicate 8 0) 0x10 8 (omega arith) (omega arith) (omega arith)
      (omega arith)

caps_negotiate_exact_example :
    has_bit 4 (caps_negotiate 1000 255) ≡ (has_bit 4 255 && allows 1000 4)
caps_negotiate_exact_example = caps_negotiate_exact 1000 255 4

abbrev visitor : Client
visitor = record {
  fd = pos 5;
  uid = 1000;
  session_id = 1;
  caps_granted = 2;
  hello_done = true;
  rx_buf = [];
  pending_fds = [];
}

abbrev hello_msg : Msg
hello_msg = record { type = 1; size = 14; payload = 1 ∷ 0 ∷ 0 ∷ 0 ∷ 2 ∷ 0 ∷ 0 ∷ 0 ∷ [] }

-- A window of 4 by 2 pixels at (-3, 7).
abbrev window : Create
window = record { surface_type = 4; x = negsuc 2; y = pos 7; width = 4; height = 2; layer = 100 }

abbrev buffer : Commit
buffer = record {
  surface_id = 1;
  width = 4;
  height = 2;
  stride = 16;
  pixel_format = 0x34325241;
  byte_size = 32;
}

decode_set_position_bytes_example :
    decode_set_position (record {
      type = msg_wm_set_surface_position;
      size = header_size + 12;
      payload = 1 ∷ 0 ∷ 0 ∷ 0 ∷ 0xfe ∷ 0xff ∷ 0xff ∷ 0xff ∷ 3 ∷ 0 ∷ 0 ∷ 0 ∷ [];
    })
    ≡ some (record { surface_id = 1; x = negsuc 1; y = pos 3 })
unfolding u32_bytes
decode_set_position_bytes_example =
    decode_set_position_bytes (record { surface_id = 1; x = negsuc 1; y = pos 3 }) [] (omega arith)
      (omega arith) (omega arith)

-- A pointer in a display of 8 by 4 pixels that is pushed left and up, with the left button down.
abbrev pushed : List Packet
pushed = record { flags = 0x11; dx = 0xf0; dy = 9 } ∷ []

middle-IsOnDisplay : IsOnDisplay (mouse_init 8 4)
unfolding mouse_init
middle-IsOnDisplay = record {
  width_ok = (omega arith, omega arith);
  height_ok = (omega arith, omega arith);
  x_on = (refl, omega arith);
  y_on = (refl, omega arith);
  screen_same = (refl, refl);
  cursor_same = (refl, refl);
}

pushed_events :
    (mouse_pump pushed (mouse_init 8 4)).1
    ≡ (motion (pos 0) (pos 0) ∷ button (pos 0) (pos 0) 0 true ∷ [])
unfolding mouse_pump mouse_init
pushed_events = refl
