-- ===== src/Lgp/Session/Reach.antt =====
-- The sessions that src/lgp-compositor/main.c goes through: clients come, send messages and go.
use mahina_os.Prelude.{ℕ, ◌≡◌, Option, none, some, List, ℤ}
use mahina_os.Lgp.Client.{Client}
use mahina_os.Lgp.Wire.{Msg}
use mahina_os.Lgp.Session.{State, Answers, find_client}
use mahina_os.Lgp.Session.Message.{handle_message}
use mahina_os.Lgp.Session.Buffer.{Received, accept, close_client}
use mahina_os.Lgp.Session.Loop.{client_event}
use mahina_os.Lgp.Session.Links.{IsSession}
use mahina_os.Lgp.Session.Steps.{
  started, started-IsSession, handle_message-IsSession, accept-IsSession, close_client-IsSession,
}
use mahina_os.Lgp.Session.Events.{client_event-IsSession}
use mahina_os.Lgp.Mouse.{Packet}
use mahina_os.Lgp.Input.{Input, Event, pump}
use mahina_os.Lgp.Input.Screen.{pump-IsSession}

-- A client comes on a descriptor that no connected client has; a message of a connected client is
-- handled; the main loop runs the event of one, which reads, handles what is complete, and may close it;
-- the mouse and the keyboard are read; or one is closed.
pub data Step : State → State → Type 0 where
  comes :
      (st : State) (fd : ℤ) (uid : Option ℕ)
      → find_client fd st.clients ≡ none
      → Step st (accept fd uid st)
  sends :
      (st : State) (env : Answers) (client : Client) (msg : Msg)
      → find_client client.fd st.clients ≡ some client
      → Step st (handle_message env st client msg).0
  reads :
      (st : State) (env : ℕ → Answers) (client : Client) (received : Received)
      → find_client client.fd st.clients ≡ some client
      → Step st (client_event env st client received).0
  pumps :
      (st : State) (packets : List Packet) (events : List Event) (input : Input)
      → Step st (pump packets events input st).state
  goes :
      (st : State) (client : Client)
      → find_client client.fd st.clients ≡ some client
      → Step st (close_client st client).0

pub data Reach : State → Type 0 where
  start : Reach started
  next : {st after : State} → Reach st → Step st after → Reach after

Step-IsSession : {st after : State} → Step st after → IsSession st → IsSession after
Step-IsSession (comes st fd uid h) v = accept-IsSession st fd uid h v
Step-IsSession (sends st env client msg f) v = handle_message-IsSession env st client msg v f
Step-IsSession (reads st env client received f) v =
    client_event-IsSession env st client received v f
Step-IsSession (pumps st packets events input) v = pump-IsSession packets events input st v
Step-IsSession (goes st client f) v = close_client-IsSession st client f v

-- However clients come on descriptors that are not in use, are read from, send messages and go, and
-- whatever the mouse and the keyboard give: the surface table of lgp-compositor is valid; the owner
-- of every surface in use is a connected client; wm_client is null or leads to a connected client
-- that has said hello, runs as root and has the capability of the window manager; no connected
-- client of another user has that capability; at most 128 keys are grabbed; and the clipboard with
-- its NUL fits its buffer.
pub reach-IsSession : {st : State} → Reach st → IsSession st
reach-IsSession start = started-IsSession
reach-IsSession (next r s) = Step-IsSession s (reach-IsSession r)
