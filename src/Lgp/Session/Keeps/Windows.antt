-- ===== src/Lgp/Session/Keeps/Windows.antt =====
-- The requests on a client's own windows in src/lgp-compositor/main.c keep the links of the session.
use mahina_os.Prelude.{
  ℕ, ◌≡◌, refl, true, Option, none, some, List, ◌==◌, ltb, arith, ℤ, Bool-cases, inl, inr,
}
use mahina_os.Lgp.Client.{Client, has_bit}
use mahina_os.Lgp.Wire.{Msg, payload_size}
use mahina_os.Lgp.Messages.{Create, Commit}
use mahina_os.Lgp.Surface.{
  Status, cleared, Manager, Effect, slot_at, create, destroy, commit, filled,
}
use mahina_os.Lgp.Surface.Ops.{
  Created, refused, full, made, create_decides, Destroyed, absent, foreign, gone, destroy_decides,
}
use mahina_os.Lgp.Surface.Commits.{Committed, no_fd, unfit, stored, commit_decides}
use mahina_os.Lgp.Surface.Commits as Commits
use mahina_os.Lgp.Surface.Steps.{create-IsValid, destroy-IsValid, commit-IsValid}
use mahina_os.Lgp.Session.{State, Answers, find_client, with_client, with_manager}
use mahina_os.Lgp.Session.Windows.{
  is_ok, handle_fill_rect, created, create_with, destroy_with, commit_with, destroyed, take_fd,
  committed,
}
use mahina_os.Lgp.Session.Links.{
  IsSession, Owned, Owned-set, Owned-get, connected, with_client-IsSession, with_manager-IsSession,
  RootManages-find,
}
use mahina_os.Lgp.Session.Keeps.{focus-IsSession}

-- The surfaces behind each request of the table.
create-Owned :
    (cs : List Client) (m : Manager) (client : Client) (p : Create)
    → connected client.session_id cs ≡ true
    → Owned cs m.surfaces
    → Owned cs (create m client p).0.surfaces
create-Owned cs m client p here own = go (create m client p) (create_decides m client p)
  where
    go : (r : Manager × Status × ℕ) → Created m client p r → Owned cs r.0.surfaces
    go _ (refused bad) = own
    go _ (full good used) = own
    go _ (made good i got free) =
        Owned-set cs m.surfaces i (filled client p m.next_surface_id (slot_at m i)) own (λ _. here)

destroy-Owned :
    (cs : List Client) (m : Manager) (client : Client) (id : ℕ)
    → Owned cs m.surfaces
    → Owned cs (destroy m client id).0.surfaces
destroy-Owned cs m client id own = go (destroy m client id) (destroy_decides m client id)
  where
    go : (r : Manager × Status × List Effect) → Destroyed m client id r → Owned cs r.0.surfaces
    go _ (absent a) = own
    go _ (foreign i a b c) = own
    go _ (gone i a b c) = Owned-set cs m.surfaces i cleared own (λ u. absurd (ground arith))

commit-Owned :
    (cs : List Client) (m : Manager) (client : Client) (p : Commit) (fd : ℤ) (mapped : Option ℕ)
    → Owned cs m.surfaces
    → Owned cs (commit m client p fd mapped).0.surfaces
commit-Owned cs m client p fd mapped own =
    go (commit m client p fd mapped) (commit_decides m client p fd mapped)
  where
    go :
        (r : Manager × Status × List Effect)
        → Committed m client p fd mapped r
        → Owned cs r.0.surfaces
    go _ (no_fd e) = own
    go _ (Commits.absent e a) = own
    go _ (Commits.foreign e i a b c) = own
    go _ (unfit e i a b c d) = own
    go _ (stored e i address got b c shape size g) =
        Owned-set cs m.surfaces i
          (record (slot_at m i) {
            buffer_map = some address;
            buffer_size = p.byte_size;
            stride = p.stride;
            pixel_format = p.pixel_format;
          })
          own (Owned-get cs m.surfaces i (slot_at m i) own got)

-- A handler's state is one that keeps the links.
pub fill_rect-IsSession :
    (env : Answers) (st : State) (client : Client) (msg : Msg)
    → IsSession st
    → IsSession (handle_fill_rect env st client msg).0
unfolding handle_fill_rect
fill_rect-IsSession env st client msg v = elim (Bool-cases (has_bit 2 client.caps_granted)) [
  | inr e ↦ rw e v
  | inl e ↦
      rw e (elim (Bool-cases (ltb (payload_size msg.size) 4)) [ inl f ↦ rw f v | inr f ↦ rw f v ])
]

created-IsSession :
    (env : Answers) (st : State) (client : Client) (p : Create) (m : Manager) (status : Status)
    (id : ℕ)
    → IsSession (with_manager m st)
    → IsSession (created env st client p (m, status, id)).0
unfolding created
created-IsSession env st client p m status id v =
    let f = focus-IsSession (with_manager m st) client.session_id id v in
    elim (Bool-cases env.written) [
      | inr e ↦ rw e v
      | inl e ↦ rw e (elim (Bool-cases (is_ok status)) [
        | inr g ↦ rw g v
        | inl g ↦ rw g (elim (Bool-cases (p.layer == 100)) [ inl h ↦ rw h f | inr h ↦ rw h v ])
      ])
    ]

pub create_with-IsSession :
    (env : Answers) (st : State) (client : Client) (o : Option Create)
    → IsSession st
    → connected client.session_id st.clients ≡ true
    → IsSession (create_with env st client o).0
create_with-IsSession env st client none v here = v
create_with-IsSession env st client (some p) v here =
    let r = create st.manager client p in
    created-IsSession env st client p r.0 r.1 r.2 (
      with_manager-IsSession st r.0 v (create-IsValid st.manager client p v.manager_valid)
        (create-Owned st.clients st.manager client p here v.owners))

destroyed-IsSession :
    (st : State) (client : Client) (id : ℕ) (m : Manager) (status : Status) (effects : List Effect)
    → IsSession (with_manager m st)
    → IsSession (destroyed st client id (m, status, effects)).0
unfolding destroyed
destroyed-IsSession st client id m status effects v = elim (Bool-cases (is_ok status)) [
  | inl e ↦ rw e v
  | inr e ↦ rw e v
]

pub destroy_with-IsSession :
    (st : State) (client : Client) (o : Option ℕ)
    → IsSession st
    → IsSession (destroy_with st client o).0
destroy_with-IsSession st client none v = v
destroy_with-IsSession st client (some id) v =
    let r = destroy st.manager client id in
    destroyed-IsSession st client id r.0 r.1 r.2 (
      with_manager-IsSession st r.0 v (destroy-IsValid st.manager client id v.manager_valid)
        (destroy-Owned st.clients st.manager client id v.owners))

committed-IsSession :
    (env : Answers) (st : State) (m : Manager) (status : Status) (effects : List Effect)
    → IsSession (with_manager m st)
    → IsSession (committed env st (m, status, effects)).0
unfolding committed
committed-IsSession env st m status effects v = elim (Bool-cases (is_ok status)) [
  | inl e ↦ rw e v
  | inr e ↦ rw e v
]

pub commit_with-IsSession :
    (env : Answers) (st : State) (client : Client) (o : Option Commit)
    → IsSession st
    → find_client client.fd st.clients ≡ some client
    → IsSession (commit_with env st client o).0
commit_with-IsSession env st client none v f = v
commit_with-IsSession env st client (some p) v f =
    let (fd, rest) = take_fd client in
    let r = commit st.manager client p fd env.mapped in
    let root = RootManages-find client.fd st.clients client v.root_manages f in
    let w : IsSession (with_client (take_fd client).1 st) =
      unfold take_fd in with_client-IsSession st (take_fd client).1 client v f refl root (λ m. m) in
    committed-IsSession env (with_client rest st) r.0 r.1 r.2 (
      with_manager-IsSession (with_client rest st) r.0 w
        (commit-IsValid st.manager client p fd env.mapped v.manager_valid)
        (commit-Owned (with_client rest st).clients st.manager client p fd env.mapped w.owners))
