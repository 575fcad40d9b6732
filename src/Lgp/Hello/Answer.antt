-- ===== src/Lgp/Hello/Answer.antt =====
-- What lgp_hello_handle of src/lgp-compositor/protocol/hello.c answers, as its client reads it.
use mahina_os.Prelude.{
  ℕ, ◌≤◌, ◌<◌, ◌≡◌, ◌≢◌, ◌⊎◌, Bool, false, ◌&&◌, ◌||◌, Option, none, some, List,
}
use mahina_os.Lgp.Client.{Client, has_bit}
use mahina_os.Lgp.Wire.{Msg, read_u16, read_u32, decode}
use mahina_os.Lgp.Hello.Grant.{allows}

-- The ways a hello ends: ignored, or answered by a frame that decodes as HELLO_REPLY of version 1.0 with
-- the capabilities that were granted.
pub data Answered (client : Client) (msg : Msg) (written : Bool)
    : Client × Bool × Option (List ℕ) → Type 0 where
  ignored :
      (msg.size < 14) ⊎ (read_u16 msg.payload 0 ≢ 1)
      → Answered client msg written (client, false, none)
  answered :
      14 ≤ msg.size
      → read_u16 msg.payload 0 ≡ 1
      → (caps : ℕ)
      → ((k : ℕ) → has_bit k caps ≡ (has_bit k (read_u32 msg.payload 4) && allows client.uid k))
      → (frame : List ℕ) (reply : Msg) → decode frame ≡ some reply
      → reply.type ≡ 2
      → reply.size ≡ 14
      → read_u16 reply.payload 0 ≡ 1
      → read_u16 reply.payload 2 ≡ 0
      → read_u32 reply.payload 4 ≡ caps
      → Answered client msg written (
        record client { caps_granted = caps; hello_done = written || client.hello_done },
        written,
        some frame,
      )
