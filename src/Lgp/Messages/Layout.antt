-- ===== src/Lgp/Messages/Layout.antt =====
-- The byte layout of the payloads of src/lgp-compositor/protocol.
use mahina_os.Prelude.{
  ℕ, ◌+◌, ◌-◌, ◌*◌, ◌/◌, ◌%◌, ◌^◌, ◌<◌, ◌≡◌, refl, ap, ◌∙◌, some, List, [], ◌∷◌, ◌++◌, length, ℤ,
  pos, negsuc, arith,
}
use mahina_os.Lgp.Wire.{Msg, header_size, read_u32, u32_bytes, decode}
use mahina_os.Lgp.Messages.{
  Create, Commit, SetPosition, to_int32, decode_create, decode_commit, decode_set_position,
  msg_create_surface, msg_commit_buffer, msg_wm_set_surface_position, encode_create_reply,
  msg_create_surface_reply,
}

-- The bit pattern of an int32_t.
abbrev pub of_int32 : ℤ → ℕ
of_int32 (pos n) = n
of_int32 (negsuc n) = 2 ^ 32 - (n + 1)

abbrev pub IsInt32 : ℤ → Type 0
IsInt32 (pos n) = n < 2 ^ 31
IsInt32 (negsuc n) = n < 2 ^ 31

to_int32-of_int32 : (x : ℤ) → IsInt32 x → to_int32 (of_int32 x) ≡ x
to_int32-of_int32 (pos n) h = ground arith
to_int32-of_int32 (negsuc n) h = ground arith

of_int32-lt : (x : ℤ) → IsInt32 x → of_int32 x < 2 ^ 32
of_int32-lt (pos n) h = omega arith
of_int32-lt (negsuc n) h = omega arith

-- The four bytes of a word make the word again.
abbrev joined : ℕ → ℕ
joined v =
    v % 2 ^ 8
    + v / 2 ^ 8 % 2 ^ 8 * 2 ^ 8
    + v / 2 ^ 16 % 2 ^ 8 * 2 ^ 16
    + v / 2 ^ 24 % 2 ^ 8 * 2 ^ 24

word : (v : ℕ) → v < 2 ^ 32 → joined v ≡ v
word v h = omega arith

int_word : (x : ℤ) → IsInt32 x → to_int32 (joined (of_int32 x)) ≡ x
int_word x h = ap to_int32 (word (of_int32 x) (of_int32-lt x h)) ∙ to_int32-of_int32 x h

-- The fields of a create request that fit their types.
pub record IsCreate (p : Create) : Type 0 where
  pub type_fits : p.surface_type < 2 ^ 32
  pub x_fits : IsInt32 p.x
  pub y_fits : IsInt32 p.y
  pub width_fits : p.width < 2 ^ 32
  pub height_fits : p.height < 2 ^ 32
  pub layer_fits : p.layer < 2 ^ 32

abbrev pub create_bytes : Create → List ℕ
create_bytes p =
    u32_bytes p.surface_type
    ++ (u32_bytes (of_int32 p.x)
        ++ (u32_bytes (of_int32 p.y)
            ++ (u32_bytes p.width ++ (u32_bytes p.height ++ u32_bytes p.layer))))

abbrev pub create_msg : Create → Msg
create_msg p = record {
  type = msg_create_surface;
  size = header_size + 24;
  payload = create_bytes p;
}

-- lgp_surface_decode_create reads back every create request whose fields fit 32 bits from its
-- little-endian bytes, negative positions included.
pub decode_create_bytes : (p : Create) → IsCreate p → decode_create (create_msg p) ≡ some p
unfolding decode_create u32_bytes
decode_create_bytes p h =
    let w1 = word p.surface_type h.type_fits in
    let w2 = int_word p.x h.x_fits in
    let w3 = int_word p.y h.y_fits in
    let w4 = word p.width h.width_fits in
    let w5 = word p.height h.height_fits in
    let w6 = word p.layer h.layer_fits in
    λ i. some (record {
      surface_type = w1 i;
      x = w2 i;
      y = w3 i;
      width = w4 i;
      height = w5 i;
      layer = w6 i;
    })

-- The same of a commit, six words.
pub record IsCommit (p : Commit) : Type 0 where
  pub id_fits : p.surface_id < 2 ^ 32
  pub width_fits : p.width < 2 ^ 32
  pub height_fits : p.height < 2 ^ 32
  pub stride_fits : p.stride < 2 ^ 32
  pub format_fits : p.pixel_format < 2 ^ 32
  pub size_fits : p.byte_size < 2 ^ 32

abbrev pub commit_msg : Commit → Msg
commit_msg p = record {
  type = msg_commit_buffer;
  size = header_size + 24;
  payload =
      u32_bytes p.surface_id
      ++ (u32_bytes p.width
          ++ (u32_bytes p.height
              ++ (u32_bytes p.stride ++ (u32_bytes p.pixel_format ++ u32_bytes p.byte_size))));
}

-- lgp_surface_decode_commit reads back every commit request whose fields fit 32 bits from its
-- little-endian bytes.
pub decode_commit_bytes : (p : Commit) → IsCommit p → decode_commit (commit_msg p) ≡ some p
unfolding decode_commit u32_bytes
decode_commit_bytes p h =
    let w1 = word p.surface_id h.id_fits in
    let w2 = word p.width h.width_fits in
    let w3 = word p.height h.height_fits in
    let w4 = word p.stride h.stride_fits in
    let w5 = word p.pixel_format h.format_fits in
    let w6 = word p.byte_size h.size_fits in
    λ i. some (record {
      surface_id = w1 i;
      width = w2 i;
      height = w3 i;
      stride = w4 i;
      pixel_format = w5 i;
      byte_size = w6 i;
    })

-- A position request with two's complement coordinates is decoded to itself, whatever follows it.
pub decode_set_position_bytes :
    (p : SetPosition) (rest : List ℕ)
    → p.surface_id < 2 ^ 32
    → IsInt32 p.x
    → IsInt32 p.y
    → decode_set_position (record {
      type = msg_wm_set_surface_position;
      size = header_size + 12;
      payload =
          u32_bytes p.surface_id
          ++ (u32_bytes (of_int32 p.x) ++ (u32_bytes (of_int32 p.y) ++ rest));
    })
      ≡ some p
unfolding decode_set_position u32_bytes
decode_set_position_bytes p rest hid hx hy =
    let w1 = word p.surface_id hid in
    let w2 = int_word p.x hx in
    let w3 = int_word p.y hy in λ i. some (record { surface_id = w1 i; x = w2 i; y = w3 i })

-- For a buffer of 14 bytes and a 32-bit status and id, the reply of lgp_surface_encode_create_reply
-- decodes as CREATE_SURFACE_REPLY with that status and id.
pub create_reply_decodes :
    (buf : List ℕ) (status surface_id : ℕ)
    → length buf ≡ 14
    → status < 2 ^ 32
    → surface_id < 2 ^ 32
    → (out : List ℕ) × (m : Msg) × (encode_create_reply buf status surface_id ≡ some out)
      × (decode out ≡ some m)
      × (m.type ≡ msg_create_surface_reply)
      × (read_u32 m.payload 0 ≡ status)
      × (read_u32 m.payload 4 ≡ surface_id)
unfolding encode_create_reply decode read_u32 u32_bytes
create_reply_decodes (a0 ∷ a1 ∷ a2 ∷ a3 ∷ a4 ∷ a5 ∷ b0 ∷ b1 ∷ b2 ∷ b3 ∷ b4 ∷ b5 ∷ b6 ∷ b7 ∷ [])
      status surface_id n hs hi =
    (_, _, refl, refl, refl, word status hs, word surface_id hi)
create_reply_decodes buf status surface_id n hs hi = absurd (omega arith)
