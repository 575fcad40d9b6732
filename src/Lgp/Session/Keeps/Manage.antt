-- ===== src/Lgp/Session/Keeps/Manage.antt =====
-- The requests of the window manager in src/lgp-compositor/main.c keep the links of the session.
use mahina_os.Prelude.{
  ℕ, ◌≤◌, ◌≡◌, refl, sym, ◌∙◌, Option, none, some, List, [], ◌∷◌, ◌++◌, ◌==◌, ltb, get_elem?, set,
  length, arith, ℤ, Bool-cases, inl, inr, length-append, ltb→lt,
}
use mahina_os.Lgp.Client.{Client, has_bit}
use mahina_os.Lgp.Wire.{Msg}
use mahina_os.Lgp.Messages.{
  SetPosition, decode_set_position, decode_set_focus, decode_set_state, decode_grab_key,
}
use mahina_os.Lgp.Surface.{Surface, find, manager_find}
use mahina_os.Lgp.Surface.Valid.{IsSurface, set-IsValid}
use mahina_os.Lgp.Session.{State, Answers, Grab}
use mahina_os.Lgp.Session.Manage.{
  place, focus, focus_on, wm_state_of, state_at, with_surface, placed, off_screen, place_at,
  place_found, handle_set_position, handle_set_focus, state_found, handle_set_state, grab,
  handle_grab_key,
}
use mahina_os.Lgp.Session.Links.{IsSession, Owned-set, Owned-get, with_manager-IsSession}
use mahina_os.Lgp.Session.Keeps.{focus-IsSession}

-- A surface that is found, changed in its position or its state.
with_surface-IsSession :
    (st : State) (i : ℕ) (s t : Surface)
    → IsSession st
    → get_elem? st.manager.surfaces i ≡ some s
    → t.in_use ≡ s.in_use
    → t.owner ≡ s.owner
    → IsSurface t
    → IsSession (with_surface i t st)
with_surface-IsSession st i s t v got used same fine =
    with_manager-IsSession st (record st.manager { surfaces = set st.manager.surfaces i t }) v
      (set-IsValid st.manager st.manager.next_surface_id i t v.manager_valid v.manager_valid.next_ok
        fine)
      (Owned-set st.clients st.manager.surfaces i t v.owners
        (λ u. rw same (Owned-get st.clients st.manager.surfaces i s v.owners got (sym used ∙ u))))

moved-IsSurface : (s : Surface) (x y : ℤ) → IsSurface s → IsSurface (record s { x = x; y = y })
moved-IsSurface s x y v = record {
  sized = v.sized;
  layered = v.layered;
  mapped = v.mapped;
  numbered = v.numbered;
}

state-IsSurface : (s : Surface) (n : ℕ) → IsSurface s → IsSurface (record s { wm_state = n })
state-IsSurface s n v = record {
  sized = v.sized;
  layered = v.layered;
  mapped = v.mapped;
  numbered = v.numbered;
}

place_at-IsSession :
    (env : Answers) (st : State) (p : SetPosition) (i : ℕ) (o : Option Surface)
    → get_elem? st.manager.surfaces i ≡ o
    → IsSession st
    → IsSession (place_at env st p i o).0
place_at-IsSession env st p i none got v = v
place_at-IsSession env st p i (some s) got v =
    let w =
      with_surface-IsSession st i s (placed s p) v got refl refl
        (moved-IsSurface s p.x p.y (v.manager_valid.each i s got)) in
    elim (Bool-cases (off_screen env s p)) [ inl e ↦ rw e v | inr e ↦ rw e w ]

place-IsSession :
    (env : Answers) (st : State) (o : Option SetPosition)
    → IsSession st
    → IsSession (place env st o).0
place-IsSession env st none v = v
place-IsSession env st (some p) v = found (find st.manager p.surface_id)
  where
    found : (o : Option ℕ) → IsSession (place_found env st p o).0
    found none = v
    found (some i) = place_at-IsSession env st p i (get_elem? st.manager.surfaces i) refl v

pub set_position-IsSession :
    (env : Answers) (st : State) (client : Client) (msg : Msg)
    → IsSession st
    → IsSession (handle_set_position env st client msg).0
unfolding handle_set_position
set_position-IsSession env st client msg v =
    let w = place-IsSession env st (decode_set_position msg) v in
    elim (Bool-cases (has_bit 7 client.caps_granted)) [ inl e ↦ rw e w | inr e ↦ rw e v ]

focus_with-IsSession : (st : State) (o : Option ℕ) → IsSession st → IsSession (focus st o).0
focus_with-IsSession st none v = v
focus_with-IsSession st (some id) v = elim (Bool-cases (id == 0)) [
  | inl e ↦ rw e (focus-IsSession st 0 0 v)
  | inr e ↦ rw e (on (manager_find st.manager id))
]
  where
    on : (o : Option Surface) → IsSession (focus_on st o).0
    on none = v
    on (some s) = focus-IsSession st s.owner s.id v

pub set_focus-IsSession :
    (st : State) (client : Client) (msg : Msg)
    → IsSession st
    → IsSession (handle_set_focus st client msg).0
unfolding handle_set_focus
set_focus-IsSession st client msg v =
    let w = focus_with-IsSession st (decode_set_focus msg) v in
    elim (Bool-cases (has_bit 7 client.caps_granted)) [ inl e ↦ rw e w | inr e ↦ rw e v ]

wm_state-IsSession :
    (env : Answers) (st : State) (o : Option (ℕ × ℕ))
    → IsSession st
    → IsSession (wm_state_of env st o).0
wm_state-IsSession env st none v = v
wm_state-IsSession env st (some (id, n)) v = found (find st.manager id)
  where
    at :
        (i : ℕ) (o : Option Surface)
        → get_elem? st.manager.surfaces i ≡ o
        → IsSession (state_at st i n o)
    at i none got = v
    at i (some s) got =
        with_surface-IsSession st i s (record s { wm_state = n }) v got refl refl
          (state-IsSurface s n (v.manager_valid.each i s got))

    found : (o : Option ℕ) → IsSession (state_found st n o)
    found none = v
    found (some i) = at i (get_elem? st.manager.surfaces i) refl

pub set_state-IsSession :
    (env : Answers) (st : State) (client : Client) (msg : Msg)
    → IsSession st
    → IsSession (handle_set_state env st client msg).0
unfolding handle_set_state
set_state-IsSession env st client msg v =
    let w = wm_state-IsSession env st (decode_set_state msg) v in
    elim (Bool-cases (has_bit 7 client.caps_granted)) [ inl e ↦ rw e w | inr e ↦ rw e v ]

grabs-IsSession :
    (st : State) (g : List Grab)
    → IsSession st
    → length g ≤ 128
    → IsSession (record st { grabbed_keys = g })
grabs-IsSession st g v few = record {
  manager_valid = v.manager_valid;
  owners = v.owners;
  wm_linked = v.wm_linked;
  root_manages = v.root_manages;
  few_grabs = few;
  short_clipboard = v.short_clipboard;
}

grab-IsSession : (st : State) (o : Option (ℕ × ℕ)) → IsSession st → IsSession (grab st o).0
grab-IsSession st none v = v
grab-IsSession st (some (key, modifiers)) v = elim (Bool-cases (ltb (length st.grabbed_keys) 128)) [
  | inr e ↦ rw e v
  | inl e ↦ rw e (
      grabs-IsSession st (st.grabbed_keys ++ (record { key = key; modifiers = modifiers }) ∷ []) v
        (omega (arith, ltb→lt (length st.grabbed_keys) 128 e, length-append {0} st.grabbed_keys)))
]

pub grab_key-IsSession :
    (st : State) (client : Client) (msg : Msg)
    → IsSession st
    → IsSession (handle_grab_key st client msg).0
unfolding handle_grab_key
grab_key-IsSession st client msg v =
    let w = grab-IsSession st (decode_grab_key msg) v in
    elim (Bool-cases (has_bit 7 client.caps_granted)) [ inl e ↦ rw e w | inr e ↦ rw e v ]
