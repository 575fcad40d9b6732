-- ===== src/Lgp/Wire.antt =====
-- src/lgp-compositor/protocol/tlv.c and the little-endian helpers of surface.c and wm.c. A buffer is
-- the list of its bytes, each below 256, so that `a | b << 8` is `a + b * 256`: the bits are disjoint.
pub mod Bytes
pub mod Frame
use mahina_os.Prelude.{
  ℕ, zero, suc, ◌+◌, ◌-◌, ◌*◌, ◌/◌, ◌%◌, ◌^◌, Bool, Option, none, some, List, [], ◌∷◌, length, drop,
  ltb, if◌then◌else◌,
}

abbrev pub header_size : ℕ
header_size = 6

-- The byte at an index; a read outside the list is not made by code that checked the length.
abbrev pub byte_at : List ℕ → ℕ → ℕ
byte_at [] i = 0
byte_at (b ∷ buf) zero = b
byte_at (b ∷ buf) (suc i) = byte_at buf i

-- Bytes stored from an index on.
abbrev pub write_bytes : List ℕ → ℕ → List ℕ → List ℕ
write_bytes [] at bytes = []
write_bytes (b ∷ buf) zero [] = b ∷ buf
write_bytes (b ∷ buf) zero (v ∷ bytes) = v ∷ write_bytes buf zero bytes
write_bytes (b ∷ buf) (suc at) bytes = b ∷ write_bytes buf at bytes

unfoldable pub read_u16 : List ℕ → ℕ → ℕ
read_u16 buf i = byte_at buf i + byte_at buf (i + 1) * 2 ^ 8

unfoldable pub read_u32 : List ℕ → ℕ → ℕ
read_u32 buf i =
    byte_at buf i
    + byte_at buf (i + 1) * 2 ^ 8
    + byte_at buf (i + 2) * 2 ^ 16
    + byte_at buf (i + 3) * 2 ^ 24

unfoldable pub u16_bytes : ℕ → List ℕ
u16_bytes v = v % 2 ^ 8 ∷ v / 2 ^ 8 % 2 ^ 8 ∷ []

unfoldable pub u32_bytes : ℕ → List ℕ
u32_bytes v = v % 2 ^ 8 ∷ v / 2 ^ 8 % 2 ^ 8 ∷ v / 2 ^ 16 % 2 ^ 8 ∷ v / 2 ^ 24 % 2 ^ 8 ∷ []

unfoldable pub write_u32 : List ℕ → ℕ → ℕ → List ℕ
unfolding u32_bytes
write_u32 buf at v = write_bytes buf at (u32_bytes v)

-- lgp_msg_t. The payload pointer is the rest of the buffer behind the header.
pub record Msg : Type 0 where
  pub type : ℕ
  pub size : ℕ
  pub payload : List ℕ

-- msg->length - LGP_HEADER_SIZE on a uint32_t.
abbrev pub payload_size : ℕ → ℕ
payload_size size = (size + (2 ^ 32 - header_size)) % 2 ^ 32

-- lgp_tlv_peek_header: the type and the length.
unfoldable pub peek_header : List ℕ → Option (ℕ × ℕ)
unfolding read_u16 read_u32
peek_header buf =
    if ltb (length buf) header_size then none else some (read_u16 buf 0, read_u32 buf 2)

abbrev pub decode_with : List ℕ → Option (ℕ × ℕ) → Option Msg
decode_with buf none = none
decode_with buf (some (type, size)) =
    if ltb size header_size
    then none
    else if ltb (length buf) size
    then none
    else some (record { type = type; size = size; payload = drop header_size buf })

-- lgp_tlv_decode.
unfoldable pub decode : List ℕ → Option Msg
unfolding peek_header
decode buf = if ltb (length buf) header_size then none else decode_with buf (peek_header buf)

-- lgp_tlv_encode_header: the buffer with the header written, `none` for a buffer that is too small.
unfoldable pub encode_header : List ℕ → ℕ → ℕ → Option (List ℕ)
unfolding u16_bytes u32_bytes
encode_header buf type size =
    if ltb (length buf) header_size
    then none
    else (let framed = if ltb size header_size then header_size else size in
        some (write_bytes (write_bytes buf 0 (u16_bytes type)) 2 (u32_bytes framed)))
