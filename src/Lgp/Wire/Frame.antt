-- ===== src/Lgp/Wire/Frame.antt =====
-- The framing of src/lgp-compositor/protocol/tlv.c.
use mahina_os.Prelude.{
  ℕ, zero, suc, ◌+◌, ◌-◌, ◌*◌, ◌/◌, ◌%◌, ◌^◌, ◌≤◌, ◌<◌, ◌≡◌, none, some, List, [], ◌∷◌, length,
  drop, ◌⊎◌, arith,
}
use mahina_os.Lgp.Wire.{read_u16, read_u32, header_size, Msg, decode, encode_header}
use mahina_os.Lgp.Wire.Bytes.{write_bytes-nil}

length-drop : (n : ℕ) (xs : List ℕ) → length (drop n xs) ≡ length xs - n
length-drop zero xs = omega arith
length-drop (suc n) [] = omega arith
length-drop (suc n) (x ∷ xs) = omega (arith, length-drop n xs)

-- A buffer that lgp_tlv_decode accepts holds the whole frame: its length field is at least 6 and at
-- most the size of the buffer, and the type, the length and the payload are those of the bytes.
pub decode_frame :
    (buf : List ℕ) (m : Msg)
    → decode buf ≡ some m
    → (header_size ≤ m.size)
      × (m.size ≤ length buf)
      × (m.type ≡ read_u16 buf 0)
      × (m.size ≡ read_u32 buf 2)
      × (m.payload ≡ drop header_size buf)
      × (m.size - header_size ≤ length m.payload)
unfolding decode
decode_frame buf m h = ground (arith, length-drop 6 buf)

-- A buffer that lgp_tlv_decode refuses is shorter than a header, or its length field is less than 6
-- or more than the size of the buffer.
pub decode_refuses :
    (buf : List ℕ)
    → decode buf ≡ none
    → (length buf < header_size) ⊎ (read_u32 buf 2 < header_size) ⊎ (length buf < read_u32 buf 2)
unfolding decode
decode_refuses buf h = ground arith

-- The header as the six bytes that are stored.
abbrev framed : ℕ → ℕ → List ℕ → List ℕ
framed type size rest =
    type % 2 ^ 8
    ∷ type / 2 ^ 8 % 2 ^ 8
    ∷ size % 2 ^ 8
    ∷ size / 2 ^ 8 % 2 ^ 8
    ∷ size / 2 ^ 16 % 2 ^ 8
    ∷ size / 2 ^ 24 % 2 ^ 8
    ∷ rest

encode_header-framed :
    (buf : List ℕ) (type size : ℕ)
    → header_size ≤ size
    → header_size ≤ length buf
    → encode_header buf type size ≡ some (framed type size (drop header_size buf))
unfolding encode_header
encode_header-framed [] type size lo fits = absurd (omega arith)
encode_header-framed (a ∷ []) type size lo fits = absurd (omega arith)
encode_header-framed (a ∷ b ∷ []) type size lo fits = absurd (omega arith)
encode_header-framed (a ∷ b ∷ c ∷ []) type size lo fits = absurd (omega arith)
encode_header-framed (a ∷ b ∷ c ∷ d ∷ []) type size lo fits = absurd (omega arith)
encode_header-framed (a ∷ b ∷ c ∷ d ∷ e ∷ []) type size lo fits = absurd (omega arith)
encode_header-framed (a ∷ b ∷ c ∷ d ∷ e ∷ f ∷ rest) type size lo fits =
    ground (arith, write_bytes-nil rest 0)

decode-framed :
    (type size : ℕ) (rest : List ℕ)
    → type < 2 ^ 16
    → header_size ≤ size
    → size < 2 ^ 32
    → size ≤ length rest + 6
    → decode (framed type size rest) ≡ some (record { type = type; size = size; payload = rest })
unfolding decode
decode-framed type size rest ht lo hs fits =
    let t : type % 2 ^ 8 + type / 2 ^ 8 % 2 ^ 8 * 2 ^ 8 ≡ type = omega arith in
    let z : size % 2 ^ 8
          + size / 2 ^ 8 % 2 ^ 8 * 2 ^ 8
          + size / 2 ^ 16 % 2 ^ 8 * 2 ^ 16
          + size / 2 ^ 24 % 2 ^ 8 * 2 ^ 24
        ≡ size =
      omega arith in
    ground (arith, t, z)

-- For a 16-bit type and a 32-bit length of at least 6 that the buffer holds, lgp_tlv_decode reads
-- back from lgp_tlv_encode_header the type, the length and the payload.
pub decode-encode_header :
    (buf : List ℕ) (type size : ℕ)
    → type < 2 ^ 16
    → header_size ≤ size
    → size < 2 ^ 32
    → size ≤ length buf
    → (out : List ℕ) × (encode_header buf type size ≡ some out)
      × (decode out ≡ some (record { type = type; size = size; payload = drop header_size buf }))
decode-encode_header buf type size ht lo hs fits = (
  framed type size (drop header_size buf),
  encode_header-framed buf type size lo (omega arith),
  decode-framed type size (drop header_size buf) ht lo hs (omega (arith, length-drop 6 buf)),
)
