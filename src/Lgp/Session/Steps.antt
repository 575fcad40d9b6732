-- ===== src/Lgp/Session/Steps.antt =====
-- A message, an arrival and a departure in src/lgp-compositor/main.c keep the links of the session.
use mahina_os.Prelude.{
  ℕ, zero, suc, ◌≡◌, refl, sym, ap, ◌∙◌, Bool, true, false, ◌&&◌, ◌||◌, not, Option, none, some,
  List, [], ◌∷◌, ◌==◌, if◌then◌else◌, replicate, arith, ℤ, Bool-cases, inl, inr,
}
use mahina_os.Lgp.Client.{Client}
use mahina_os.Lgp.Wire.{Msg}
use mahina_os.Lgp.Surface.{init, Surface, cleared, owned, release_owned}
use mahina_os.Lgp.Surface.Valid.{init-IsValid}
use mahina_os.Lgp.Surface.Steps.{leave-IsValid}
use mahina_os.Lgp.Session.{State, Answers, Outcome, kept, find_client, eq_ℤ}
use mahina_os.Lgp.Session.Message.{handle_hello, handle_request, handle_message}
use mahina_os.Lgp.Session.Buffer.{client_create, accept, remove_client, wm_without, close_client}
use mahina_os.Lgp.Session.Greets.{handle_hello-IsSession}
use mahina_os.Lgp.Session.Keeps.Requests.{handle_request-IsSession}
use mahina_os.Lgp.Session.Links.{
  IsSession, Owned, Owned-clients, connected, RootManages, WmLinked, eq_of_eq_ℤ, find_client-cons,
}

-- The state at the start of main.
abbrev pub started : State
started = record {
  clients = [];
  wm_client = none;
  next_session_id = 1;
  manager = init;
  focus_session = 0;
  focus_surface = 0;
  clipboard = [];
  grabbed_keys = [];
}

-- The two tests of the handshake before the handlers.
gated :
    (done hello : Bool) (k h r : Outcome)
    → IsSession k.0
    → (done ≡ false → IsSession h.0)
    → IsSession r.0
    → IsSession
        (if not done && not hello then k else if done && hello then k else if hello then h else r).0
gated true true k h r v w x = v
gated true false k h r v w x = x
gated false true k h r v w x = w refl
gated false false k h r v w x = v

pub handle_message-IsSession :
    (env : Answers) (st : State) (client : Client) (msg : Msg)
    → IsSession st
    → find_client client.fd st.clients ≡ some client
    → IsSession (handle_message env st client msg).0
handle_message-IsSession env st client msg v f =
    let w =
      gated client.hello_done (msg.type == 1) (kept st false) (handle_hello env st client msg)
        (handle_request env st client msg) v (λ e. handle_hello-IsSession env st client msg v f e)
        (handle_request-IsSession env st client msg v f) in
    unfold handle_message in w

-- An arrival.
found_apart :
    (fd wm : ℤ) (cs : List Client) (c : Client)
    → find_client fd cs ≡ none
    → find_client wm cs ≡ some c
    → eq_ℤ fd wm ≡ false
found_apart fd wm cs c h k = elim (Bool-cases (eq_ℤ fd wm)) [
  | inr e ↦ e
  | inl e ↦
      let same : none ≡ some c = sym h ∙ ap (λ t. find_client t cs) (eq_of_eq_ℤ fd wm e) ∙ k in
      absurd (ground arith)
]

WmLinked-comes :
    (new : Client) (wm : Option ℤ) (cs : List Client)
    → find_client new.fd cs ≡ none
    → WmLinked wm cs
    → WmLinked wm (new ∷ cs)
WmLinked-comes new none cs h w = tt
WmLinked-comes new (some fd) cs h (c, f, m) =
    (c, find_client-cons fd new cs ∙ rw (found_apart new.fd fd cs c h f) f, m)

pub accept-IsSession :
    (st : State) (fd : ℤ) (uid : Option ℕ)
    → find_client fd st.clients ≡ none
    → IsSession st
    → IsSession (accept fd uid st)
unfolding accept
accept-IsSession st fd uid h v =
    let new = record (client_create fd uid) { session_id = st.next_session_id } in
    record {
      manager_valid = v.manager_valid;
      owners =
          Owned-clients st.clients (new ∷ st.clients) st.manager.surfaces
            (λ o c. rw c (either (st.next_session_id == o))) v.owners;
      wm_linked = WmLinked-comes new st.wm_client st.clients h v.wm_linked;
      root_manages = ((λ b. absurd (ground arith)), v.root_manages);
      few_grabs = v.few_grabs;
      short_clipboard = v.short_clipboard;
    }
  where
    either : (b : Bool) → (b || true) ≡ true
    either true = refl
    either false = refl

-- A departure.
remove_client-cons :
    (fd : ℤ) (c : Client) (cs : List Client)
    → remove_client fd (c ∷ cs) ≡ (if eq_ℤ c.fd fd then cs else c ∷ remove_client fd cs)
unfolding remove_client
remove_client-cons fd c cs = refl

connected-remove :
    (fd : ℤ) (o : ℕ) (cs : List Client) (c : Client)
    → find_client fd cs ≡ some c
    → (c.session_id == o) ≡ false
    → connected o (remove_client fd cs) ≡ connected o cs
connected-remove fd o [] c h k = unfold find_client in absurd (ground arith)
connected-remove fd o (d ∷ cs) c h k =
    rw (remove_client-cons fd d cs) (elim (Bool-cases (eq_ℤ d.fd fd)) [
      | inl e ↦
          let same : some d ≡ some c = rw e at (sym (find_client-cons fd d cs) ∙ h) in
          let off : (d.session_id == o) ≡ false = ground arith in rw (e, off) refl
      | inr e ↦
          let ih = connected-remove fd o cs c (rw e at (sym (find_client-cons fd d cs) ∙ h)) k in
          rw e (rw ih refl)
    ])

find_client-remove :
    (fd wm : ℤ) (cs : List Client)
    → eq_ℤ wm fd ≡ false
    → find_client wm (remove_client fd cs) ≡ find_client wm cs
find_client-remove fd wm [] h = unfold remove_client in refl
find_client-remove fd wm (d ∷ cs) h =
    let ih = find_client-remove fd wm cs h in
    rw (remove_client-cons fd d cs, find_client-cons wm d cs)
      (elim (Bool-cases (eq_ℤ d.fd fd)) [
        | inl e ↦
            let off : eq_ℤ d.fd wm ≡ false = elim (Bool-cases (eq_ℤ d.fd wm)) [
              | inr g ↦ g
              | inl g ↦
                  let clash : eq_ℤ wm fd ≡ true = rw (← eq_of_eq_ℤ d.fd wm g) e in
                  absurd (ground arith)
            ] in
            rw (e, off) refl
        | inr e ↦ rw e (rw (find_client-cons wm d (remove_client fd cs), ih) refl)
      ])

RootManages-remove :
    (fd : ℤ) (cs : List Client) → RootManages cs → RootManages (remove_client fd cs)
RootManages-remove fd [] h = unfold remove_client in tt
RootManages-remove fd (d ∷ cs) h =
    let ih = RootManages-remove fd cs h.1 in
    rw (remove_client-cons fd d cs)
      (elim (Bool-cases (eq_ℤ d.fd fd)) [ inl e ↦ rw e h.1 | inr e ↦ rw e (h.0, ih) ])

WmLinked-remove :
    (fd : ℤ) (wm : Option ℤ) (cs : List Client)
    → WmLinked wm cs
    → WmLinked (wm_without fd wm) (remove_client fd cs)
WmLinked-remove fd none cs w = tt
WmLinked-remove fd (some wm) cs (c, f, m) = elim (Bool-cases (eq_ℤ wm fd)) [
  | inl e ↦ rw e tt
  | inr e ↦ rw e (c, find_client-remove fd wm cs e ∙ f, m)
]

release_owned-cons :
    (session : ℕ) (s : Surface) (l : List Surface)
    → (release_owned session (s ∷ l)).0 ≡ (
        if owned session s
        then cleared ∷ (release_owned session l).0
        else s ∷ (release_owned session l).0)
unfolding release_owned
release_owned-cons session s l = elim (Bool-cases (owned session s)) [
  | inl e ↦ rw e refl
  | inr e ↦ rw e refl
]

Owned-release :
    (fd : ℤ) (cs : List Client) (c : Client) (l : List Surface)
    → find_client fd cs ≡ some c
    → Owned cs l
    → Owned (remove_client fd cs) (release_owned c.session_id l).0
Owned-release fd cs c [] h o = unfold release_owned in tt
Owned-release fd cs c (s ∷ l) h o =
    let ih = Owned-release fd cs c l h o.1 in
    rw (release_owned-cons c.session_id s l) (elim (Bool-cases (owned c.session_id s)) [
      | inl e ↦ rw e ((λ u. absurd (ground arith)), ih)
      | inr e ↦ rw e (
        (λ u.
            let off : (c.session_id == s.owner) ≡ false = ground arith in
            connected-remove fd s.owner cs c h off ∙ o.0 u),
        ih,
      )
    ])

pub close_client-IsSession :
    (st : State) (client : Client)
    → find_client client.fd st.clients ≡ some client
    → IsSession st
    → IsSession (close_client st client).0
close_client-IsSession st client f v =
    let own = Owned-release client.fd st.clients client st.manager.surfaces f v.owners in
    let valid = leave-IsValid st.manager client v.manager_valid in
    record {
      manager_valid = unfold close_client in valid;
      owners = unfold close_client in own;
      wm_linked =
          unfold close_client in WmLinked-remove client.fd st.wm_client st.clients v.wm_linked;
      root_manages = unfold close_client in RootManages-remove client.fd st.clients v.root_manages;
      few_grabs = unfold close_client in v.few_grabs;
      short_clipboard = unfold close_client in v.short_clipboard;
    }

Owned-unused : (n : ℕ) → Owned [] (replicate n cleared)
Owned-unused zero = tt
Owned-unused (suc n) = ((λ u. absurd (ground arith)), Owned-unused n)

pub started-IsSession : IsSession started
started-IsSession = record {
  manager_valid = init-IsValid;
  owners = unfold init in Owned-unused 64;
  wm_linked = tt;
  root_manages = tt;
  few_grabs = omega arith;
  short_clipboard = omega arith;
}
