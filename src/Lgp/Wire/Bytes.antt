-- ===== src/Lgp/Wire/Bytes.antt =====
-- Little-endian words in a buffer, as src/lgp-compositor/protocol reads and writes them.
use mahina_os.Prelude.{
  ℕ, zero, suc, ◌+◌, ◌-◌, ◌^◌, ◌≤◌, ◌<◌, ◌≡◌, refl, ap, List, [], ◌∷◌, length, ltb, leb, ◌&&◌,
  if◌then◌else◌, ◌⊎◌, arith,
}
use mahina_os.Lgp.Wire.{byte_at, write_bytes, read_u32, u32_bytes, write_u32}

pub length-write_bytes :
    (buf : List ℕ) (at : ℕ) (bytes : List ℕ) → length (write_bytes buf at bytes) ≡ length buf
length-write_bytes [] at bytes = refl
length-write_bytes (b ∷ buf) zero [] = refl
length-write_bytes (b ∷ buf) zero (v ∷ bytes) = ap suc (length-write_bytes buf zero bytes)
length-write_bytes (b ∷ buf) (suc at) bytes = ap suc (length-write_bytes buf at bytes)

pub write_bytes-nil : (buf : List ℕ) (at : ℕ) → write_bytes buf at [] ≡ buf
write_bytes-nil [] at = refl
write_bytes-nil (b ∷ buf) zero = refl
write_bytes-nil (b ∷ buf) (suc at) = ap (λ r. b ∷ r) (write_bytes-nil buf at)

-- A byte after a write: the new one inside the range written, the old one outside.
pub byte_at-write_bytes :
    (buf : List ℕ) (at : ℕ) (bytes : List ℕ) (i : ℕ)
    → at + length bytes ≤ length buf
    → byte_at (write_bytes buf at bytes) i
      ≡ (if leb at i && ltb i (at + length bytes) then byte_at bytes (i - at) else byte_at buf i)
byte_at-write_bytes [] at bytes i h = ground arith
byte_at-write_bytes (b ∷ buf) zero [] i h = ground arith
byte_at-write_bytes (b ∷ buf) zero (v ∷ bytes) zero h = ground arith
byte_at-write_bytes (b ∷ buf) zero (v ∷ bytes) (suc i) h =
    ground (arith, byte_at-write_bytes buf zero bytes i)
byte_at-write_bytes (b ∷ buf) (suc at) bytes zero h = ground arith
byte_at-write_bytes (b ∷ buf) (suc at) bytes (suc i) h =
    ground (arith, byte_at-write_bytes buf at bytes i)

pub byte_at_written :
    (buf : List ℕ) (at : ℕ) (bytes : List ℕ) (j i : ℕ)
    → at + length bytes ≤ length buf
    → i ≡ at + j
    → j < length bytes
    → byte_at (write_bytes buf at bytes) i ≡ byte_at bytes j
byte_at_written buf at bytes j i h e lt =
    let back : i - at ≡ j = omega arith in
    ground (arith, byte_at-write_bytes buf at bytes i h, ap (byte_at bytes) back)

-- A word that was written is read back.
pub read_u32-write_u32 :
    (buf : List ℕ) (at v : ℕ)
    → at + 4 ≤ length buf
    → v < 2 ^ 32
    → read_u32 (write_u32 buf at v) at ≡ v
unfolding read_u32 write_u32
read_u32-write_u32 buf at v h lt = omega (
  arith,
  byte_at_written buf at (u32_bytes v) 0 at h (omega arith) (omega arith),
  byte_at_written buf at (u32_bytes v) 1 (at + 1) h refl (omega arith),
  byte_at_written buf at (u32_bytes v) 2 (at + 2) h refl (omega arith),
  byte_at_written buf at (u32_bytes v) 3 (at + 3) h refl (omega arith),
)

-- A word apart from the bytes written is unchanged.
pub read_u32-write_bytes_apart :
    (buf : List ℕ) (at : ℕ) (bytes : List ℕ) (i : ℕ)
    → at + length bytes ≤ length buf
    → (i + 4 ≤ at) ⊎ (at + length bytes ≤ i)
    → read_u32 (write_bytes buf at bytes) i ≡ read_u32 buf i
unfolding read_u32
read_u32-write_bytes_apart buf at bytes i h apart = ground (
  arith,
  byte_at-write_bytes buf at bytes i h,
  byte_at-write_bytes buf at bytes (i + 1) h,
  byte_at-write_bytes buf at bytes (i + 2) h,
  byte_at-write_bytes buf at bytes (i + 3) h,
)
