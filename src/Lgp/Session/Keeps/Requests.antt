-- ===== src/Lgp/Session/Keeps/Requests.antt =====
-- Every request of a client of src/lgp-compositor/main.c behind its handshake keeps the links of the
-- session.
use mahina_os.Prelude.{
  ℕ, zero, suc, ◌≤◌, ◌<◌, ◌≡◌, some, List, [], ◌∷◌, ◌==◌, length, take, arith, Bool-cases, inl, inr,
}
use mahina_os.Lgp.Client.{Client, has_bit}
use mahina_os.Lgp.Wire.{Msg, payload_size}
use mahina_os.Lgp.Messages.{decode_create, decode_destroy, decode_commit}
use mahina_os.Lgp.Session.{State, Answers, find_client}
use mahina_os.Lgp.Session.Message.{
  until_nul, clipped, handle_clipboard_set, handle_clipboard_get, handle_request,
}
use mahina_os.Lgp.Session.Windows.{
  handle_create_surface, handle_destroy_surface, handle_commit_buffer,
}
use mahina_os.Lgp.Session.Links.{IsSession, connected-find}
use mahina_os.Lgp.Session.Keeps.{pick}
use mahina_os.Lgp.Session.Keeps.Windows.{
  fill_rect-IsSession, create_with-IsSession, destroy_with-IsSession, commit_with-IsSession,
}
use mahina_os.Lgp.Session.Keeps.Manage.{
  set_position-IsSession, set_focus-IsSession, set_state-IsSession, grab_key-IsSession,
}

until_nul-le : (l : List ℕ) → length (until_nul l) ≤ length l
until_nul-le [] = omega arith
until_nul-le (c ∷ l) = ground (arith, until_nul-le l)

take-le : (n : ℕ) (l : List ℕ) → length (take n l) ≤ n
take-le zero l = omega arith
take-le (suc n) [] = omega arith
take-le (suc n) (c ∷ l) = omega (arith, take-le n l)

clipped-lt : (n : ℕ) → clipped n < 4096
clipped-lt n = ground arith

clipboard-IsSession :
    (st : State) (text : List ℕ)
    → IsSession st
    → length text < 4096
    → IsSession (record st { clipboard = text })
clipboard-IsSession st text v short = record {
  manager_valid = v.manager_valid;
  owners = v.owners;
  wm_linked = v.wm_linked;
  root_manages = v.root_manages;
  few_grabs = v.few_grabs;
  short_clipboard = short;
}

clipboard_set-IsSession :
    (st : State) (client : Client) (msg : Msg)
    → IsSession st
    → IsSession (handle_clipboard_set st client msg).0
unfolding handle_clipboard_set
clipboard_set-IsSession st client msg v =
    let n = clipped (payload_size msg.size) in
    let w = clipboard-IsSession st (until_nul (take n msg.payload)) v (
      omega (
        arith,
        until_nul-le (take n msg.payload),
        take-le n msg.payload,
        clipped-lt (payload_size msg.size),
      )) in
    elim (Bool-cases (has_bit 6 client.caps_granted)) [ inl e ↦ rw e w | inr e ↦ rw e v ]

clipboard_get-IsSession :
    (st : State) (client : Client) (msg : Msg)
    → IsSession st
    → IsSession (handle_clipboard_get st client msg).0
unfolding handle_clipboard_get
clipboard_get-IsSession st client msg v = elim (Bool-cases (has_bit 6 client.caps_granted)) [
  | inl e ↦ rw e v
  | inr e ↦ rw e v
]

-- Every request of a connected client.
pub handle_request-IsSession :
    (env : Answers) (st : State) (client : Client) (msg : Msg)
    → IsSession st
    → find_client client.fd st.clients ≡ some client
    → IsSession (handle_request env st client msg).0
handle_request-IsSession env st client msg v f =
    let here = connected-find client.fd st.clients client f in
    let a = fill_rect-IsSession env st client msg v in
    let b : IsSession (handle_create_surface env st client msg).0 =
      unfold handle_create_surface in
      create_with-IsSession env st client (decode_create msg) v here in
    let c : IsSession (handle_destroy_surface st client msg).0 =
      unfold handle_destroy_surface in destroy_with-IsSession st client (decode_destroy msg) v in
    let d : IsSession (handle_commit_buffer env st client msg).0 =
      unfold handle_commit_buffer in commit_with-IsSession env st client (decode_commit msg) v f in
    let e = clipboard_set-IsSession st client msg v in
    let g = clipboard_get-IsSession st client msg v in
    let h = set_position-IsSession env st client msg v in
    let i = set_focus-IsSession st client msg v in
    let j = set_state-IsSession env st client msg v in
    let k = grab_key-IsSession st client msg v in
    unfold handle_request in
    pick (msg.type == 0x0010) _ _ a (
      pick (msg.type == 0x0100) _ _ b (
        pick (msg.type == 0x0102) _ _ c (
          pick (msg.type == 0x0103) _ _ d (
            pick (msg.type == 0x0120) _ _ e (
              pick (msg.type == 0x0121) _ _ g (
                pick (msg.type == 0x0202) _ _ h (
                  pick (msg.type == 0x0203) _ _ i
                    (pick (msg.type == 0x0204) _ _ j (pick (msg.type == 0x0205) _ _ k v)))))))))
