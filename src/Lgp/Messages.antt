-- ===== src/Lgp/Messages.antt =====
-- The payloads of src/lgp-compositor/protocol/surface.c and wm.c.
pub mod Layout
use mahina_os.Prelude.{
  ℕ, ◌+◌, ◌-◌, ◌^◌, Option, none, some, List, ◌==◌, not, ltb, if◌then◌else◌, length, ℤ, pos, negsuc,
}
use mahina_os.Lgp.Wire.{Msg, header_size, payload_size, read_u32, encode_header, write_u32}

abbrev pub msg_create_surface : ℕ
msg_create_surface = 0x0100

abbrev pub msg_create_surface_reply : ℕ
msg_create_surface_reply = 0x0101

abbrev pub msg_destroy_surface : ℕ
msg_destroy_surface = 0x0102

abbrev pub msg_commit_buffer : ℕ
msg_commit_buffer = 0x0103

abbrev pub msg_wm_surface_created : ℕ
msg_wm_surface_created = 0x0200

abbrev pub msg_wm_surface_destroyed : ℕ
msg_wm_surface_destroyed = 0x0201

abbrev pub msg_wm_set_surface_position : ℕ
msg_wm_set_surface_position = 0x0202

abbrev pub msg_wm_set_focus : ℕ
msg_wm_set_focus = 0x0203

abbrev pub msg_wm_set_state : ℕ
msg_wm_set_state = 0x0204

abbrev pub msg_wm_grab_key : ℕ
msg_wm_grab_key = 0x0205

-- (int32_t) of a uint32_t.
abbrev pub to_int32 : ℕ → ℤ
to_int32 w = if ltb w (2 ^ 31) then pos w else negsuc (2 ^ 32 - w - 1)

unfoldable pub read_i32 : List ℕ → ℕ → ℤ
unfolding read_u32
read_i32 p i = to_int32 (read_u32 p i)

-- lgp_surface_create_payload_t.
pub record Create : Type 0 where
  pub surface_type : ℕ
  pub x : ℤ
  pub y : ℤ
  pub width : ℕ
  pub height : ℕ
  pub layer : ℕ

-- lgp_surface_commit_payload_t.
pub record Commit : Type 0 where
  pub surface_id : ℕ
  pub width : ℕ
  pub height : ℕ
  pub stride : ℕ
  pub pixel_format : ℕ
  pub byte_size : ℕ

-- lgp_wm_set_position_payload_t.
pub record SetPosition : Type 0 where
  pub surface_id : ℕ
  pub x : ℤ
  pub y : ℤ

-- lgp_surface_decode_create.
unfoldable pub decode_create : Msg → Option Create
unfolding read_u32 read_i32
decode_create msg =
    if not (msg.type == msg_create_surface)
    then none
    else if not (payload_size msg.size == 24)
    then none
    else some (record {
      surface_type = read_u32 msg.payload 0;
      x = read_i32 msg.payload 4;
      y = read_i32 msg.payload 8;
      width = read_u32 msg.payload 12;
      height = read_u32 msg.payload 16;
      layer = read_u32 msg.payload 20;
    })

-- lgp_surface_decode_destroy: the surface id.
unfoldable pub decode_destroy : Msg → Option ℕ
unfolding read_u32
decode_destroy msg =
    if not (msg.type == msg_destroy_surface)
    then none
    else if not (payload_size msg.size == 4)
    then none
    else some (read_u32 msg.payload 0)

-- lgp_surface_decode_commit.
unfoldable pub decode_commit : Msg → Option Commit
unfolding read_u32
decode_commit msg =
    if not (msg.type == msg_commit_buffer)
    then none
    else if not (payload_size msg.size == 24)
    then none
    else some (record {
      surface_id = read_u32 msg.payload 0;
      width = read_u32 msg.payload 4;
      height = read_u32 msg.payload 8;
      stride = read_u32 msg.payload 12;
      pixel_format = read_u32 msg.payload 16;
      byte_size = read_u32 msg.payload 20;
    })

-- lgp_surface_encode_create_reply: the buffer with the reply in it.
unfoldable pub encode_create_reply : List ℕ → ℕ → ℕ → Option (List ℕ)
unfolding encode_header write_u32
encode_create_reply buf status surface_id =
    if ltb (length buf) (header_size + 8)
    then none
    else elim (encode_header buf msg_create_surface_reply (header_size + 8)) [
      | none ↦ none
      | some framed ↦
          some (write_u32 (write_u32 framed header_size status) (header_size + 4) surface_id)
    ]

-- lgp_wm_encode_surface_created and lgp_wm_encode_surface_destroyed.
unfoldable pub encode_surface_created : List ℕ → ℕ → ℕ → ℕ → ℕ → Option (List ℕ)
unfolding encode_header write_u32
encode_surface_created buf surface_id type w h =
    if ltb (length buf) (header_size + 16)
    then none
    else elim (encode_header buf msg_wm_surface_created (header_size + 16)) [
      | none ↦ none
      | some framed ↦ some (
          write_u32
            (write_u32 (write_u32 (write_u32 framed header_size surface_id) (header_size + 4) type)
              (header_size + 8) w)
            (header_size + 12) h)
    ]

unfoldable pub encode_surface_destroyed : List ℕ → ℕ → Option (List ℕ)
unfolding encode_header write_u32
encode_surface_destroyed buf surface_id =
    if ltb (length buf) (header_size + 4)
    then none
    else elim (encode_header buf msg_wm_surface_destroyed (header_size + 4)) [
      | none ↦ none
      | some framed ↦ some (write_u32 framed header_size surface_id)
    ]

-- lgp_wm_decode_set_position, _set_focus, _set_state and _grab_key. The last two give a pair.
unfoldable pub decode_set_position : Msg → Option SetPosition
unfolding read_u32 read_i32
decode_set_position msg =
    if not (msg.type == msg_wm_set_surface_position)
    then none
    else if ltb msg.size (header_size + 12)
    then none
    else some (record {
      surface_id = read_u32 msg.payload 0;
      x = read_i32 msg.payload 4;
      y = read_i32 msg.payload 8;
    })

unfoldable pub decode_set_focus : Msg → Option ℕ
unfolding read_u32
decode_set_focus msg =
    if not (msg.type == msg_wm_set_focus)
    then none
    else if ltb msg.size (header_size + 4)
    then none
    else some (read_u32 msg.payload 0)

unfoldable pub decode_set_state : Msg → Option (ℕ × ℕ)
unfolding read_u32
decode_set_state msg =
    if not (msg.type == msg_wm_set_state)
    then none
    else if ltb msg.size (header_size + 8)
    then none
    else some (read_u32 msg.payload 0, read_u32 msg.payload 4)

unfoldable pub decode_grab_key : Msg → Option (ℕ × ℕ)
unfolding read_u32
decode_grab_key msg =
    if not (msg.type == msg_wm_grab_key)
    then none
    else if ltb msg.size (header_size + 8)
    then none
    else some (read_u32 msg.payload 0, read_u32 msg.payload 4)
