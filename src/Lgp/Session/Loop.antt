-- ===== src/Lgp/Session/Loop.antt =====
-- lgp_client_process_messages of src/lgp-compositor/main.c, and the events of a client in its main loop.
use mahina_os.Prelude.{
  ℕ, zero, suc, ◌||◌, Bool, true, false, Option, none, some, List, [], ◌++◌, ltb, if◌then◌else◌,
  length, take, drop, ℤ,
}
use mahina_os.Lgp.Client.{Client}
use mahina_os.Lgp.Wire.{Msg, header_size, peek_header, decode}
use mahina_os.Lgp.Surface.{Effect}
use mahina_os.Lgp.Session.{State, Act, effects_of, Answers, Outcome, kept, find_client, with_client}
use mahina_os.Lgp.Session.Message.{handle_message}
use mahina_os.Lgp.Session.Buffer.{
  rx_size, Received, ReadStatus, open_still, at_end, failed, read_available, close_client,
}

-- What the loop leaves: the state, its result, what was done, and the bytes that are still buffered.
pub record Processed : Type 0 where
  pub state : State
  pub result : Bool
  pub acts : List Act
  pub left : List ℕ

abbrev pub stop : State → Bool → List ℕ → Processed
stop st result rx = record { state = st; result = result; acts = []; left = rx }

abbrev pub acted : List Act → Option Processed → Option Processed
acted acts none = none
acted acts (some p) = some (record p { acts = acts ++ p.acts })

-- What the head of the buffer is: too short, refused, or a message of so many bytes.
pub data Head : Type 0 where
  waits refuses : Head
  message : ℕ → Msg → Head

abbrev pub framed_head : ℕ → Option Msg → Head
framed_head size none = refuses
framed_head size (some msg) = message size msg

abbrev pub head_with : List ℕ → Option (ℕ × ℕ) → Head
head_with rx none = waits
head_with rx (some (type, size)) =
    if ltb size header_size || ltb rx_size size
    then refuses
    else if ltb (length rx) size
    then waits
    else framed_head size (decode (take size rx))

unfoldable pub head : List ℕ → Head
unfolding peek_header decode
head rx = if ltb (length rx) header_size then waits else head_with rx (peek_header rx)

-- The message handled for the client at the descriptor.
abbrev pub handle_for : Answers → State → Msg → Option Client → Outcome
handle_for env st msg none = kept st false
handle_for env st msg (some client) = handle_message env st client msg

-- The loop over the buffer, with the answers to message `k` and on. The buffer is the client's, and is
-- stored back at the end. One turn of it, by the head of the buffer, with what is behind a message.
abbrev pub turn :
    (State → ℕ → Option Processed) → Answers → ℤ → State → List ℕ → Head → Option Processed
turn rest env fd st rx waits = some (stop st true rx)
turn rest env fd st rx refuses = some (stop st false rx)
turn rest env fd st rx (message size msg) =
    let (after, go_on, acts) = handle_for env st msg (find_client fd st.clients) in
    let later = rest after size in
    if go_on
    then acted acts later
    else some (record { state = after; result = false; acts = acts; left = rx })

unfoldable pub process : ℕ → (ℕ → Answers) → ℕ → ℤ → State → List ℕ → Option Processed
unfolding head find_client handle_message
process zero env k fd st rx = none
process (suc fuel) env k fd st rx =
    turn (λ after size. process fuel env (suc k) fd after (drop size rx)) (env k) fd st rx (head rx)

-- The rest of the bytes, stored back.
abbrev pub store_left : ℤ → List ℕ → Option Client → State → State
store_left fd rx none st = st
store_left fd rx (some client) st = with_client (record client { rx_buf = rx }) st

abbrev pub close_found : Option Client → State → State × List Act
close_found none st = (st, [])
close_found (some client) st =
    let (after, effects) = close_client st client in (after, effects_of effects)

abbrev pub closing : ℤ → State → List Act → State × List Act
closing fd st acts =
    let (after, closed) = close_found (find_client fd st.clients) st in (after, acts ++ closed)

abbrev pub finish : ℤ → Option Processed → State → State × List Act
finish fd none st = (st, [])
finish fd (some p) st =
    let stored = store_left fd p.left (find_client fd p.state.clients) p.state in
    if p.result then (stored, p.acts) else closing fd stored p.acts

-- One event of a connected client in the main loop: a read, then the messages, then the end of the
-- client where either says so.
abbrev pub event_with : (ℕ → Answers) → State → Client × ReadStatus × List Effect → State × List Act
event_with env st (client, open_still, effects) =
    let read = with_client client st in
    let (after, acts) =
      finish client.fd (process (suc (length client.rx_buf)) env 0 client.fd read client.rx_buf)
        read in
    (after, effects_of effects ++ acts)
event_with env st (client, at_end, effects) =
    closing client.fd (with_client client st) (effects_of effects)
event_with env st (client, failed, effects) =
    closing client.fd (with_client client st) (effects_of effects)

unfoldable pub client_event : (ℕ → Answers) → State → Client → Received → State × List Act
unfolding process read_available close_client find_client
client_event env st client received = event_with env st (read_available client received)
