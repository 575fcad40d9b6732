-- ===== src/Lgp/Session/Buffer.antt =====
-- The clients of src/lgp-compositor/main.c and ipc/client.c: how they come, what is read from them, and
-- how they go.
use mahina_os.Prelude.{
  ℕ, ◌+◌, ◌-◌, ◌%◌, ◌^◌, Bool, true, false, Option, none, some, List, [], ◌∷◌, ◌++◌, ◌==◌, leb,
  if◌then◌else◌, length, take, ℤ, pos, ltb_ℤ,
}
use mahina_os.Lgp.Client.{Client}
use mahina_os.Lgp.Surface.{Effect, close_fd, destroy_for_client}
use mahina_os.Lgp.Session.{State, eq_ℤ}

-- LGP_CLIENT_RX_BUFFER_SIZE and LGP_CLIENT_MAX_PENDING_FDS.
abbrev pub rx_size : ℕ
rx_size = 4096

abbrev pub max_pending_fds : ℕ
max_pending_fds = 8

-- lgp_client_create for a descriptor and the uid of SO_PEERCRED, (uid_t)-1 where there is none.
abbrev pub uid_or : Option ℕ → ℕ
uid_or none = 2 ^ 32 - 1
uid_or (some uid) = uid

unfoldable pub client_create : ℤ → Option ℕ → Client
client_create fd uid = record {
  fd = fd;
  uid = uid_or uid;
  session_id = 0;
  caps_granted = 0;
  hello_done = false;
  rx_buf = [];
  pending_fds = [];
}

-- The branch of the event loop that accepts a client, where calloc and epoll_ctl succeed:
-- `next_session_id++` on a uint32_t, and lgp_state_add_client.
unfoldable pub accept : ℤ → Option ℕ → State → State
unfolding client_create
accept fd uid st = record st {
  next_session_id = (st.next_session_id + 1) % 2 ^ 32;
  clients = (record (client_create fd uid) { session_id = st.next_session_id }) ∷ st.clients;
}

-- lgp_client_queue_fd: the queue, whether there was room, and the descriptors closed.
unfoldable pub queue_fd : List ℤ → ℤ → List ℤ × Bool × List Effect
queue_fd fds fd =
    if leb max_pending_fds (length fds)
    then (fds, false, close_fd fd ∷ [])
    else (fds ++ fd ∷ [], true, [])

-- The loop over the descriptors of a message. Those behind one that is refused stay as they are.
unfoldable pub queue_fds : List ℤ → List ℤ → List ℤ × Bool × List Effect
unfolding queue_fd
queue_fds fds [] = (fds, true, [])
queue_fds fds (fd ∷ more) =
    let (queued, room, effects) = queue_fd fds fd in
    let rest = queue_fds queued more in if room then rest else (queued, false, effects)

-- What recvmsg returns: bytes with their descriptors and MSG_CTRUNC, 0, an error to try again on, or
-- another error.
pub data Received : Type 0 where
  bytes : List ℕ → List ℤ → Bool → Received
  closed again broken : Received

-- lgp_client_read_available: 1, 0 and -1.
pub data ReadStatus : Type 0 where
  open_still at_end failed : ReadStatus

abbrev pub queued_status : Bool → ReadStatus
queued_status true = open_still
queued_status false = failed

abbrev pub receive : Client → Received → Client × ReadStatus × List Effect
receive client closed = (client, at_end, [])
receive client again = (client, open_still, [])
receive client broken = (client, failed, [])
receive client (bytes received fds truncated) =
    let grown = record client {
      rx_buf = client.rx_buf ++ take (rx_size - length client.rx_buf) received;
    } in
    if truncated
    then (grown, failed, [])
    else (let (queued, room, effects) = queue_fds grown.pending_fds fds in
        (record grown { pending_fds = queued }, queued_status room, effects))

-- lgp_client_read_available.
unfoldable pub read_available : Client → Received → Client × ReadStatus × List Effect
unfolding queue_fds
read_available client received =
    if rx_size - length client.rx_buf == 0 then (client, failed, []) else receive client received

-- lgp_state_remove_client.
unfoldable pub remove_client : ℤ → List Client → List Client
remove_client fd [] = []
remove_client fd (c ∷ cs) = if eq_ℤ c.fd fd then cs else c ∷ remove_client fd cs

-- lgp_client_destroy: the descriptors that it closes.
abbrev pub close_valid : ℤ → List Effect
close_valid fd = if ltb_ℤ fd (pos 0) then [] else close_fd fd ∷ []

unfoldable pub close_all : List ℤ → List Effect
close_all [] = []
close_all (fd ∷ fds) = close_valid fd ++ close_all fds

unfoldable pub client_destroy : Client → List Effect
unfolding close_all
client_destroy client = close_valid client.fd ++ close_all client.pending_fds

-- lgp_state_close_client.
abbrev pub wm_without : ℤ → Option ℤ → Option ℤ
wm_without fd none = none
wm_without fd (some wm) = if eq_ℤ wm fd then none else some wm

unfoldable pub close_client : State → Client → State × List Effect
unfolding remove_client client_destroy destroy_for_client
close_client st client =
    let (manager, effects) = destroy_for_client st.manager client in
    (
      record st {
        wm_client = wm_without client.fd st.wm_client;
        manager = manager;
        clients = remove_client client.fd st.clients;
      },
      effects ++ client_destroy client,
    )
