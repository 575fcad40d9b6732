-- ===== src/Lgp/Session/Greets.antt =====
-- The handshake in src/lgp-compositor/main.c keeps the links of the session.
use mahina_os.Prelude.{
  ℕ, ◌≡◌, refl, sym, ◌∙◌, subst, Bool, true, false, ◌&&◌, ◌||◌, not, Option, some, List, ◌==◌, ltb,
  if◌then◌else◌, arith, Bool-cases, inl, inr,
}
use mahina_os.Lgp.Client.{Client, has_bit, cap_window_manager}
use mahina_os.Lgp.Wire.{Msg, payload_size, read_u16, read_u32}
use mahina_os.Lgp.Hello.{caps_negotiate, hello_handle, version_major}
use mahina_os.Lgp.Hello.Grant.{caps_negotiate_exact, allows, hello_handle_accepts}
use mahina_os.Lgp.Session.{State, Answers, find_client, with_client}
use mahina_os.Lgp.Session.Message.{registered, greeted, handle_hello}
use mahina_os.Lgp.Session.Links.{
  IsSession, IsManager, with_client-IsSession, RootManages-find, find_client-update, eq_ℤ_refl,
}

-- What lgp_hello_handle makes of a client.
record IsGreeting (client after : Client) (accepted : Bool) : Type 0 where
  fd_kept : after.fd ≡ client.fd
  session_kept : after.session_id ≡ client.session_id
  root : has_bit cap_window_manager after.caps_granted ≡ true → after.uid ≡ 0
  done : accepted ≡ true → after.hello_done ≡ true

-- The bit of the window manager in what is negotiated is root's.
negotiated_root : (uid requested : ℕ) → has_bit 7 (caps_negotiate uid requested) ≡ true → uid ≡ 0
negotiated_root uid requested h =
    let e : (has_bit 7 requested && allows uid 7) ≡ true =
      sym (caps_negotiate_exact uid requested 7) ∙ h in
    both (has_bit 7 requested) uid e
  where
    both : (b : Bool) (uid : ℕ) → (b && allows uid 7) ≡ true → uid ≡ 0
    both b uid e = ground arith

caps_root :
    (valid : Bool) (uid requested caps : ℕ)
    → (has_bit 7 caps ≡ true → uid ≡ 0)
    → has_bit 7 (if valid then caps_negotiate uid requested else caps) ≡ true
    → uid ≡ 0
caps_root true uid requested caps h k = negotiated_root uid requested k
caps_root false uid requested caps h k = h k

done_of :
    (a w d : Bool) (accepted : Bool)
    → accepted ≡ (a && w)
    → accepted ≡ true
    → ((a && w) || d) ≡ true
done_of a w d accepted e h = ground arith

hello-IsGreeting :
    (client : Client) (msg : Msg) (written : Bool)
    → (has_bit 7 client.caps_granted ≡ true → client.uid ≡ 0)
    → IsGreeting client (hello_handle client msg written).0 (hello_handle client msg written).1
hello-IsGreeting client msg written root =
    let (accepted, after, reply) = hello_handle_accepts client msg written in
    let valid = not (ltb (payload_size msg.size) 8) && (read_u16 msg.payload 0 == version_major) in
    let requested = read_u32 msg.payload 4 in
    subst (λ (c : Client). IsGreeting client c (hello_handle client msg written).1) (sym after)
      (record {
        fd_kept = refl;
        session_kept = refl;
        root = caps_root valid client.uid requested client.caps_granted root;
        done = done_of valid written client.hello_done (hello_handle client msg written).1 accepted;
      })

module _ (st : State) (client after : Client) (v : IsSession st)
    (found : find_client client.fd st.clients ≡ some client)
    (unmet : client.hello_done ≡ false) where
  met : IsManager client → IsManager after
  met m = absurd (ground arith)

  found_at : after.fd ≡ client.fd → find_client after.fd st.clients ≡ some client
  found_at e = rw e found

  stored : {accepted : Bool} → IsGreeting client after accepted → IsSession (with_client after st)
  stored g =
      with_client-IsSession st after client v (found_at g.fd_kept) (sym g.session_kept) g.root met

  as_manager :
      IsGreeting client after true
      → has_bit 7 after.caps_granted ≡ true
      → IsSession (with_client after (record st { wm_client = some after.fd }))
  as_manager g bit =
      let w = stored g in
      record {
        manager_valid = w.manager_valid;
        owners = w.owners;
        wm_linked = (
          after,
          find_client-update after client after.fd st.clients (found_at g.fd_kept)
              ∙ rw (eq_ℤ_refl after.fd) refl,
          (g.done refl, g.root bit, bit),
        );
        root_manages = w.root_manages;
        few_grabs = w.few_grabs;
        short_clipboard = w.short_clipboard;
      }

  registered-IsSession : IsGreeting client after true → IsSession (registered st after)
  registered-IsSession g = elim (Bool-cases (has_bit 7 after.caps_granted)) [
    | inr e ↦ rw e (stored g)
    | inl e ↦ rw e (elim (Bool-cases (after.uid == 0)) [
      | inl f ↦ rw f (as_manager g e)
      | inr f ↦ let root = g.root e in absurd (ground arith)
    ])
  ]

greeted-IsSession :
    (env : Answers) (st : State) (client after : Client) (accepted : Bool) (reply : Option (List ℕ))
    → IsSession st
    → find_client client.fd st.clients ≡ some client
    → client.hello_done ≡ false
    → IsGreeting client after accepted
    → IsSession (greeted env st (after, accepted, reply)).0
unfolding greeted
greeted-IsSession env st client after true reply v f u g =
    registered-IsSession st client after v f u g
greeted-IsSession env st client after false reply v f u g = stored st client after v f u g

pub handle_hello-IsSession :
    (env : Answers) (st : State) (client : Client) (msg : Msg)
    → IsSession st
    → find_client client.fd st.clients ≡ some client
    → client.hello_done ≡ false
    → IsSession (handle_hello env st client msg).0
handle_hello-IsSession env st client msg v f u =
    let r = hello_handle client msg env.written in
    let root = RootManages-find client.fd st.clients client v.root_manages f in
    let w =
      greeted-IsSession env st client r.0 r.1 r.2 v f u
        (hello-IsGreeting client msg env.written root) in
    unfold handle_hello in w
