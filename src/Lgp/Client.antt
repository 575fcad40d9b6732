-- ===== src/Lgp/Client.antt =====
-- A connection of src/lgp-compositor/ipc/client.h, and the capability bits of protocol/caps.h.
use mahina_os.Prelude.{ℕ, ◌/◌, ◌%◌, ◌+◌, ◌^◌, Bool, List, ◌==◌, if◌then◌else◌, ℤ}

-- lgp_client_t, less pid, gid and the link to the next client. `rx_buf` holds the `rx_len` bytes received, `pending_fds` the queued descriptors.
pub record Client : Type 0 where
  pub fd : ℤ
  pub uid : ℕ
  pub session_id : ℕ
  pub caps_granted : ℕ
  pub hello_done : Bool
  pub rx_buf : List ℕ
  pub pending_fds : List ℤ

-- The bit positions of the LGP_CAP_ masks.
abbrev pub cap_dma_buf : ℕ
cap_dma_buf = 0

abbrev pub cap_canvas_surface : ℕ
cap_canvas_surface = 1

abbrev pub cap_direct_lgp : ℕ
cap_direct_lgp = 2

abbrev pub cap_layer_shell : ℕ
cap_layer_shell = 3

abbrev pub cap_luna_island : ℕ
cap_luna_island = 4

abbrev pub cap_cursor_shape : ℕ
cap_cursor_shape = 5

abbrev pub cap_clipboard : ℕ
cap_clipboard = 6

abbrev pub cap_window_manager : ℕ
cap_window_manager = 7

-- caps & (1u << k)
abbrev pub has_bit : ℕ → ℕ → Bool
has_bit k caps = caps / 2 ^ k % 2 == 1

-- caps |= (1u << k)
abbrev pub set_bit : ℕ → ℕ → ℕ
set_bit k caps = if has_bit k caps then caps else caps + 2 ^ k
