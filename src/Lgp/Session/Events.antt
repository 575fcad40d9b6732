-- ===== src/Lgp/Session/Events.antt =====
-- The events of a connected client in the main loop of src/lgp-compositor/main.c keep the links of the
-- session.
use mahina_os.Prelude.{
  ℕ, zero, suc, ◌≡◌, refl, sym, ap, ◌∙◌, subst, Bool, true, false, Option, none, some, List, ◌++◌,
  ◌-◌, ◌==◌, if◌then◌else◌, length, take, drop, ℤ, Bool-cases, inl, inr,
}
use mahina_os.Lgp.Client.{Client}
use mahina_os.Lgp.Wire.{Msg}
use mahina_os.Lgp.Surface.{Effect}
use mahina_os.Lgp.Session.{State, Act, Answers, find_client, with_client}
use mahina_os.Lgp.Session.Buffer.{
  Received, bytes, closed, again, broken, ReadStatus, open_still, at_end, failed, read_available,
  queue_fds, receive,
}
use mahina_os.Lgp.Session.Loop.{
  Processed, acted, Head, waits, refuses, message, head, handle_for, turn, process, store_left,
  close_found, finish, event_with, client_event,
}
use mahina_os.Lgp.Session.Links.{IsSession, with_client-IsSession, RootManages-find, find_client-fd}
use mahina_os.Lgp.Session.Turns.{process-suc}
use mahina_os.Lgp.Session.Steps.{handle_message-IsSession, close_client-IsSession}

-- The loop leaves a state with its links.
abbrev Keeps : Option Processed → Type 0
Keeps none = Unit {0}
Keeps (some p) = IsSession p.state

acted-Keeps : (acts : List Act) (o : Option Processed) → Keeps o → Keeps (acted acts o)
acted-Keeps acts none k = tt
acted-Keeps acts (some p) k = k

choose : (b : Bool) (o p : Option Processed) → Keeps o → Keeps p → Keeps (if b then o else p)
choose true o p k l = k
choose false o p k l = l

handle_for-IsSession :
    (env : Answers) (st : State) (msg : Msg) (fd : ℤ) (o : Option Client)
    → find_client fd st.clients ≡ o
    → IsSession st
    → IsSession (handle_for env st msg o).0
handle_for-IsSession env st msg fd none f v = v
handle_for-IsSession env st msg fd (some c) f v =
    handle_message-IsSession env st c msg v
      (ap (λ t. find_client t st.clients) (find_client-fd fd st.clients c f) ∙ f)

turn-Keeps :
    (rest : State → ℕ → Option Processed) (env : Answers) (fd : ℤ) (st : State) (rx : List ℕ)
    (h : Head)
    → ((after : State) (size : ℕ) → IsSession after → Keeps (rest after size))
    → IsSession st
    → Keeps (turn rest env fd st rx h)
turn-Keeps rest env fd st rx waits ih v = v
turn-Keeps rest env fd st rx refuses ih v = v
turn-Keeps rest env fd st rx (message size msg) ih v =
    let r = handle_for env st msg (find_client fd st.clients) in
    let w = handle_for-IsSession env st msg fd (find_client fd st.clients) refl v in
    choose r.1 _ _ (acted-Keeps r.2 _ (ih r.0 size w)) w

process-Keeps :
    (fuel : ℕ) (env : ℕ → Answers) (k : ℕ) (fd : ℤ) (st : State) (rx : List ℕ)
    → IsSession st
    → Keeps (process fuel env k fd st rx)
process-Keeps zero env k fd st rx v = unfold process in tt
process-Keeps (suc fuel) env k fd st rx v = rw (process-suc fuel env k fd st rx) (
    turn-Keeps _ (env k) fd st rx (head rx)
      (λ after size w. process-Keeps fuel env (suc k) fd after (drop size rx) w) v)

-- The client with other bytes and descriptors.
buffers-IsSession :
    (st : State) (client : Client) (rx : List ℕ) (fds : List ℤ)
    → IsSession st
    → find_client client.fd st.clients ≡ some client
    → IsSession (with_client (record client { rx_buf = rx; pending_fds = fds }) st)
buffers-IsSession st client rx fds v f =
    with_client-IsSession st (record client { rx_buf = rx; pending_fds = fds }) client v f refl
      (RootManages-find client.fd st.clients client v.root_manages f) (λ m. m)

store_left-IsSession :
    (fd : ℤ) (rx : List ℕ) (o : Option Client) (st : State)
    → find_client fd st.clients ≡ o
    → IsSession st
    → IsSession (store_left fd rx o st)
store_left-IsSession fd rx none st f v = v
store_left-IsSession fd rx (some c) st f v =
    buffers-IsSession st c rx c.pending_fds v
      (ap (λ t. find_client t st.clients) (find_client-fd fd st.clients c f) ∙ f)

close_found-IsSession :
    (fd : ℤ) (o : Option Client) (st : State)
    → find_client fd st.clients ≡ o
    → IsSession st
    → IsSession (close_found o st).0
close_found-IsSession fd none st f v = v
close_found-IsSession fd (some c) st f v =
    close_client-IsSession st c
      (ap (λ t. find_client t st.clients) (find_client-fd fd st.clients c f) ∙ f) v

finish-IsSession :
    (fd : ℤ) (o : Option Processed) (st : State)
    → IsSession st
    → Keeps o
    → IsSession (finish fd o st).0
finish-IsSession fd none st v k = v
finish-IsSession fd (some p) st v k =
    let w = store_left-IsSession fd p.left (find_client fd p.state.clients) p.state refl k in
    let stored = store_left fd p.left (find_client fd p.state.clients) p.state in
    let gone = close_found-IsSession fd (find_client fd stored.clients) stored refl w in
    elim (Bool-cases p.result) [ inl e ↦ rw e w | inr e ↦ rw e gone ]

-- A read changes the bytes and the descriptors of the client.
read_available_changes :
    (client : Client) (received : Received)
    → (rx : List ℕ) × (fds : List ℤ) × ((read_available client received).0
        ≡ record client { rx_buf = rx; pending_fds = fds })
unfolding read_available
read_available_changes client received = elim (Bool-cases (4096 - length client.rx_buf == 0)) [
  | inl e ↦ rw e (client.rx_buf, client.pending_fds, refl)
  | inr e ↦ rw e (got received)
]
  where
    grown : List ℕ → List ℕ
    grown l = client.rx_buf ++ take (4096 - length client.rx_buf) l

    got :
        (r : Received)
        → (rx : List ℕ) × (fds : List ℤ) × ((receive client r).0
            ≡ record client { rx_buf = rx; pending_fds = fds })
    got closed = (client.rx_buf, client.pending_fds, refl)
    got again = (client.rx_buf, client.pending_fds, refl)
    got broken = (client.rx_buf, client.pending_fds, refl)
    got (bytes l fds true) = (grown l, client.pending_fds, refl)
    got (bytes l fds false) = (grown l, (queue_fds client.pending_fds fds).0, refl)

event_with-IsSession :
    (env : ℕ → Answers) (st : State) (client : Client) (status : ReadStatus) (effects : List Effect)
    → IsSession (with_client client st)
    → IsSession (event_with env st (client, status, effects)).0
event_with-IsSession env st client open_still effects v =
    finish-IsSession client.fd
      (process (suc (length client.rx_buf)) env 0 client.fd (with_client client st) client.rx_buf)
      (with_client client st) v
      (process-Keeps (suc (length client.rx_buf)) env 0 client.fd (with_client client st)
        client.rx_buf v)
event_with-IsSession env st client at_end effects v =
    close_found-IsSession client.fd (find_client client.fd (with_client client st).clients)
      (with_client client st) refl v
event_with-IsSession env st client failed effects v =
    close_found-IsSession client.fd (find_client client.fd (with_client client st).clients)
      (with_client client st) refl v

pub client_event-IsSession :
    (env : ℕ → Answers) (st : State) (client : Client) (received : Received)
    → IsSession st
    → find_client client.fd st.clients ≡ some client
    → IsSession (client_event env st client received).0
client_event-IsSession env st client received v f =
    let (rx, fds, e) = read_available_changes client received in
    let w : IsSession (with_client (read_available client received).0 st) =
      subst (λ (c : Client). IsSession (with_client c st)) (sym e)
        (buffers-IsSession st client rx fds v f) in
    let r = read_available client received in
    let done = event_with-IsSession env st r.0 r.1 r.2 w in unfold client_event in done
