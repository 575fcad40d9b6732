-- ===== src/Lgp/Session/Links.antt =====
-- The links between the clients, the window manager and the surfaces of src/lgp-compositor/main.c, and
-- that every message, arrival and departure keeps them.
use mahina_os.Prelude.{
  ℕ, zero, suc, ◌≤◌, ◌<◌, ◌≡◌, refl, sym, ap, ◌∙◌, subst, Bool, true, false, ◌||◌, Option, none,
  some, List, [], ◌∷◌, ◌==◌, if◌then◌else◌, get_elem?, set, length, arith, ℤ, pos, negsuc,
  Bool-cases, inl, inr,
}
use mahina_os.Lgp.Client.{Client, has_bit, cap_window_manager}
use mahina_os.Lgp.Surface.{Surface, Manager}
use mahina_os.Lgp.Surface.Valid.{IsValid}
use mahina_os.Lgp.Session.{State, eq_ℤ, find_client, update_client, with_client, with_manager}

pub eq_ℤ_refl : (a : ℤ) → eq_ℤ a a ≡ true
unfolding eq_ℤ
eq_ℤ_refl (pos n) = ground arith
eq_ℤ_refl (negsuc n) = ground arith

pub eq_of_eq_ℤ : (a b : ℤ) → eq_ℤ a b ≡ true → a ≡ b
unfolding eq_ℤ
eq_of_eq_ℤ (pos m) (pos n) h = ground arith
eq_of_eq_ℤ (pos m) (negsuc n) h = ground arith
eq_of_eq_ℤ (negsuc m) (pos n) h = ground arith
eq_of_eq_ℤ (negsuc m) (negsuc n) h = ground arith

-- Some connected client has the session.
abbrev pub connected : ℕ → List Client → Bool
connected session [] = false
connected session (c ∷ cs) = (c.session_id == session) || connected session cs

-- The owner of each surface in use is connected.
abbrev pub Owned : List Client → List Surface → Type 0
Owned cs [] = Unit {0}
Owned cs (s ∷ l) = (s.in_use ≡ true → connected s.owner cs ≡ true) × Owned cs l

-- A client that has said hello, is root, and was granted the window manager's capability.
abbrev pub IsManager : Client → Type 0
IsManager c =
    (c.hello_done ≡ true) × (c.uid ≡ 0) × (has_bit cap_window_manager c.caps_granted ≡ true)

-- Only root has the window manager's capability.
abbrev pub RootManages : List Client → Type 0
RootManages [] = Unit {0}
RootManages (c ∷ cs) =
    (has_bit cap_window_manager c.caps_granted ≡ true → c.uid ≡ 0) × RootManages cs

-- The pointer wm_client leads to a connected client that may be the window manager.
abbrev pub WmLinked : Option ℤ → List Client → Type 0
WmLinked none cs = Unit {0}
WmLinked (some fd) cs = (c : Client) × (find_client fd cs ≡ some c) × IsManager c

pub record IsSession (st : State) : Type 0 where
  pub manager_valid : IsValid st.manager
  pub owners : Owned st.clients st.manager.surfaces
  pub wm_linked : WmLinked st.wm_client st.clients
  pub root_manages : RootManages st.clients
  pub few_grabs : length st.grabbed_keys ≤ 128
  pub short_clipboard : length st.clipboard < 4096

pub Owned-set :
    (cs : List Client) (l : List Surface) (i : ℕ) (v : Surface)
    → Owned cs l
    → (v.in_use ≡ true → connected v.owner cs ≡ true)
    → Owned cs (set l i v)
Owned-set cs [] i v h k = tt
Owned-set cs (s ∷ l) zero v h k = (k, h.1)
Owned-set cs (s ∷ l) (suc i) v h k = (h.0, Owned-set cs l i v h.1 k)

pub Owned-get :
    (cs : List Client) (l : List Surface) (i : ℕ) (s : Surface)
    → Owned cs l
    → get_elem? l i ≡ some s
    → s.in_use ≡ true
    → connected s.owner cs ≡ true
Owned-get cs [] i s h e u = absurd (ground arith)
Owned-get cs (t ∷ l) zero s h e u =
    let same : t ≡ s = ground arith in
    subst (λ r. connected r.owner cs ≡ true) same (h.0 (subst (λ r. r.in_use ≡ true) (sym same) u))
Owned-get cs (t ∷ l) (suc i) s h e u = Owned-get cs l i s h.1 e u

-- Clients that keep the sessions keep the owners.
pub Owned-clients :
    (cs ds : List Client) (l : List Surface)
    → ((o : ℕ) → connected o cs ≡ true → connected o ds ≡ true)
    → Owned cs l
    → Owned ds l
Owned-clients cs ds [] k h = tt
Owned-clients cs ds (s ∷ l) k h = ((λ u. k s.owner (h.0 u)), Owned-clients cs ds l k h.1)

pub find_client-cons :
    (fd : ℤ) (c : Client) (cs : List Client)
    → find_client fd (c ∷ cs) ≡ (if eq_ℤ c.fd fd then some c else find_client fd cs)
unfolding find_client
find_client-cons fd c cs = refl

update_client-cons :
    (new c : Client) (cs : List Client)
    → update_client new (c ∷ cs) ≡ (if eq_ℤ c.fd new.fd then new ∷ cs else c ∷ update_client new cs)
unfolding update_client
update_client-cons new c cs = refl

pub find_client-fd :
    (fd : ℤ) (cs : List Client) (c : Client) → find_client fd cs ≡ some c → c.fd ≡ fd
find_client-fd fd [] c h = unfold find_client in absurd (ground arith)
find_client-fd fd (d ∷ cs) c h = elim (Bool-cases (eq_ℤ d.fd fd)) [
  | inl e ↦
      let same : some d ≡ some c = rw e at (sym (find_client-cons fd d cs) ∙ h) in
      let f = eq_of_eq_ℤ d.fd fd e in ground arith
  | inr e ↦ find_client-fd fd cs c (rw e at (sym (find_client-cons fd d cs) ∙ h))
]

pub connected-update :
    (new old : Client) (o : ℕ) (cs : List Client)
    → find_client new.fd cs ≡ some old
    → old.session_id ≡ new.session_id
    → connected o (update_client new cs) ≡ connected o cs
connected-update new old o [] h e = unfold find_client in absurd (ground arith)
connected-update new old o (c ∷ cs) h e = elim (Bool-cases (eq_ℤ c.fd new.fd)) [
  | inl f ↦
      let same : some c ≡ some old = rw f at (sym (find_client-cons new.fd c cs) ∙ h) in
      let s : c.session_id ≡ new.session_id = ground arith in
      rw (update_client-cons new c cs) (rw f (rw s refl))
  | inr f ↦
      let ih = connected-update new old o cs (rw f at (sym (find_client-cons new.fd c cs) ∙ h)) e in
      rw (update_client-cons new c cs) (rw f (rw ih refl))
]

pub find_client-update :
    (new old : Client) (fd : ℤ) (cs : List Client)
    → find_client new.fd cs ≡ some old
    → find_client fd (update_client new cs)
      ≡ (if eq_ℤ new.fd fd then some new else find_client fd cs)
find_client-update new old fd [] h = unfold find_client in absurd (ground arith)
find_client-update new old fd (c ∷ cs) h =
    rw (update_client-cons new c cs, find_client-cons fd c cs)
      (elim (Bool-cases (eq_ℤ c.fd new.fd)) [
        | inl f ↦ rw f (
            rw (find_client-cons fd new cs, eq_of_eq_ℤ c.fd new.fd f)
              (elim (Bool-cases (eq_ℤ new.fd fd)) [ inl g ↦ rw g refl | inr g ↦ rw g refl ]))
        | inr f ↦
            let ih =
              find_client-update new old fd cs (rw f at (sym (find_client-cons new.fd c cs) ∙ h)) in
            rw f (
              rw (find_client-cons fd c (update_client new cs), ih)
                (elim (Bool-cases (eq_ℤ c.fd fd)) [
                  | inr g ↦ rw g refl
                  | inl g ↦ elim (Bool-cases (eq_ℤ new.fd fd)) [
                    | inr k ↦ rw (g, k) refl
                    | inl k ↦
                        let clash : eq_ℤ c.fd new.fd ≡ true =
                          rw (eq_of_eq_ℤ c.fd fd g, eq_of_eq_ℤ new.fd fd k) (eq_ℤ_refl fd) in
                        absurd (ground arith)
                  ]
                ]))
      ])

RootManages-update :
    (new : Client) (cs : List Client)
    → (has_bit cap_window_manager new.caps_granted ≡ true → new.uid ≡ 0)
    → RootManages cs
    → RootManages (update_client new cs)
RootManages-update new [] k h = unfold update_client in tt
RootManages-update new (c ∷ cs) k h =
    let ih = RootManages-update new cs k h.1 in
    rw (update_client-cons new c cs)
      (elim (Bool-cases (eq_ℤ c.fd new.fd)) [ inl f ↦ rw f (k, h.1) | inr f ↦ rw f (h.0, ih) ])

pub WmLinked-update :
    (wm : Option ℤ) (new old : Client) (cs : List Client)
    → find_client new.fd cs ≡ some old
    → (IsManager old → IsManager new)
    → WmLinked wm cs
    → WmLinked wm (update_client new cs)
WmLinked-update none new old cs h k w = tt
WmLinked-update (some fd) new old cs h k (c, f, m) = elim (Bool-cases (eq_ℤ new.fd fd)) [
  | inr e ↦ (c, find_client-update new old fd cs h ∙ rw e f, m)
  | inl e ↦
      let same : some old ≡ some c =
        sym h ∙ ap (λ t. find_client t cs) (eq_of_eq_ℤ new.fd fd e) ∙ f in
      let is_old : c ≡ old = ground arith in
      (new, find_client-update new old fd cs h ∙ rw e refl, k (subst IsManager is_old m))
]

-- A change of the client's own record.
pub with_client-IsSession :
    (st : State) (new old : Client)
    → IsSession st
    → find_client new.fd st.clients ≡ some old
    → old.session_id ≡ new.session_id
    → (has_bit cap_window_manager new.caps_granted ≡ true → new.uid ≡ 0)
    → (IsManager old → IsManager new)
    → IsSession (with_client new st)
with_client-IsSession st new old v h e root k = record {
  manager_valid = v.manager_valid;
  owners =
      Owned-clients st.clients (update_client new st.clients) st.manager.surfaces
        (λ o c. connected-update new old o st.clients h e ∙ c) v.owners;
  wm_linked = WmLinked-update st.wm_client new old st.clients h k v.wm_linked;
  root_manages = RootManages-update new st.clients root v.root_manages;
  few_grabs = v.few_grabs;
  short_clipboard = v.short_clipboard;
}

pub RootManages-find :
    (fd : ℤ) (cs : List Client) (c : Client)
    → RootManages cs
    → find_client fd cs ≡ some c
    → has_bit cap_window_manager c.caps_granted ≡ true
    → c.uid ≡ 0
RootManages-find fd [] c r h = unfold find_client in absurd (ground arith)
RootManages-find fd (d ∷ cs) c r h = elim (Bool-cases (eq_ℤ d.fd fd)) [
  | inr e ↦ RootManages-find fd cs c r.1 (rw e at (sym (find_client-cons fd d cs) ∙ h))
  | inl e ↦
      let same : some d ≡ some c = rw e at (sym (find_client-cons fd d cs) ∙ h) in
      let is_d : d ≡ c = ground arith in
      subst (λ t. has_bit cap_window_manager t.caps_granted ≡ true → t.uid ≡ 0) is_d r.0
]

-- A change of the surface table that keeps it valid and its owners connected.
pub with_manager-IsSession :
    (st : State) (m : Manager)
    → IsSession st
    → IsValid m
    → Owned st.clients m.surfaces
    → IsSession (with_manager m st)
with_manager-IsSession st m v ok own = record {
  manager_valid = ok;
  owners = own;
  wm_linked = v.wm_linked;
  root_manages = v.root_manages;
  few_grabs = v.few_grabs;
  short_clipboard = v.short_clipboard;
}

pub connected-find :
    (fd : ℤ) (cs : List Client) (c : Client)
    → find_client fd cs ≡ some c
    → connected c.session_id cs ≡ true
connected-find fd [] c h = unfold find_client in absurd (ground arith)
connected-find fd (d ∷ cs) c h = elim (Bool-cases (eq_ℤ d.fd fd)) [
  | inl e ↦
      let same : some d ≡ some c = rw e at (sym (find_client-cons fd d cs) ∙ h) in ground arith
  | inr e ↦
      let ih = connected-find fd cs c (rw e at (sym (find_client-cons fd d cs) ∙ h)) in ground arith
]
