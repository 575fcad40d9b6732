-- ===== src/Lgp/Surface/Guard.antt =====
-- Who may touch a surface of src/lgp-compositor/scene/surface.c, and what a creation asks for.
use mathlib.Core.Option.{some-injective}
use mahina_os.Prelude.{
  ℕ, ◌≡◌, ◌≢◌, ◌∙◌, refl, sym, subst, ap, Bool, true, false, Option, some, List, ◌==◌, ◌&&◌, leb,
  if◌then◌else◌, get_elem?, set, get_elem?-set, inl, inr, Bool-cases, arith, ℤ,
}
use mahina_os.Lgp.Client.{Client}
use mahina_os.Lgp.Messages.{Create, Commit}
use mahina_os.Lgp.Surface.{
  Status, ok, no_memory, Surface, cleared, Manager, Effect, validate_request, slot_at, filled,
  create, destroy, commit, owned, destroy_for_client,
}
use mahina_os.Lgp.Surface.Valid.{layer_fits, accepted}
use mahina_os.Lgp.Client.{has_bit, cap_canvas_surface, cap_luna_island, cap_layer_shell}
use mahina_os.Lgp.Surface.{
  system_chrome, luna_island, application_window, canvas_surface, overlay_surface,
}
use mahina_os.Lgp.Surface.Ops.{
  Created, refused, full, made, create_decides, Destroyed, absent, foreign, gone, destroy_decides,
}
use mahina_os.Lgp.Surface.Commits.{Committed, no_fd, unfit, stored, commit_decides}
use mahina_os.Lgp.Surface.Commits as Commits
use mahina_os.Lgp.Surface.Steps.{Step, creates, destroys, commits, leaves, release_owned-get}

-- A write at another index.
set_away :
    (xs : List Surface) (i j : ℕ) (v s : Surface)
    → get_elem? xs j ≡ some s
    → i ≢ j
    → get_elem? (set xs i v) j ≡ some s
set_away xs i j v s h ne = elim (Bool-cases (i == j)) [
  | inl e ↦ absurd (ne (ground arith))
  | inr e ↦ get_elem?-set xs i j v ∙ ground arith
]

-- Two readings of one slot.
same_slot :
    (m : Manager) (i j : ℕ) (s : Surface)
    → get_elem? m.surfaces i ≡ some (slot_at m i)
    → get_elem? m.surfaces j ≡ some s
    → i ≡ j
    → slot_at m i ≡ s
same_slot m i j s a b e =
    some-injective (slot_at m i) s (sym a ∙ subst (λ k. get_elem? m.surfaces k ≡ some s) (sym e) b)

module _ (client : Client) (m : Manager) (j : ℕ) (s : Surface)
    (got : get_elem? m.surfaces j ≡ some s) (used : s.in_use ≡ true)
    (other : s.owner ≢ client.session_id) where
  create_keeps : (p : Create) → get_elem? (create m client p).0.surfaces j ≡ some s
  create_keeps p = go (create m client p) (create_decides m client p)
    where
      go : (r : Manager × Status × ℕ) → Created m client p r → get_elem? r.0.surfaces j ≡ some s
      go _ (refused bad) = got
      go _ (full good all_used) = got
      go _ (made good i at free) =
          set_away m.surfaces i j (filled client p m.next_surface_id (slot_at m i)) s got
            (λ e. let same = ap (λ t. t.in_use) (same_slot m i j s at got e) in cc)

  destroy_keeps : (id : ℕ) → get_elem? (destroy m client id).0.surfaces j ≡ some s
  destroy_keeps id = go (destroy m client id) (destroy_decides m client id)
    where
      go :
          (r : Manager × Status × List Effect)
          → Destroyed m client id r
          → get_elem? r.0.surfaces j ≡ some s
      go _ (absent a) = got
      go _ (foreign i a b c) = got
      go _ (gone i at b own) =
          set_away m.surfaces i j cleared s got
            (λ e. other (sym (ap (λ t. t.owner) (same_slot m i j s at got e)) ∙ own))

  commit_keeps :
      (p : Commit) (fd : ℤ) (mapped : Option ℕ)
      → get_elem? (commit m client p fd mapped).0.surfaces j ≡ some s
  commit_keeps p fd mapped = go (commit m client p fd mapped) (commit_decides m client p fd mapped)
    where
      go :
          (r : Manager × Status × List Effect)
          → Committed m client p fd mapped r
          → get_elem? r.0.surfaces j ≡ some s
      go _ (no_fd e) = got
      go _ (Commits.absent e a) = got
      go _ (Commits.foreign e i a b c) = got
      go _ (unfit e i a b c d) = got
      go _ (stored e i address at b own shape size g) =
          set_away m.surfaces i j _ s got
            (λ e. other (sym (ap (λ t. t.owner) (same_slot m i j s at got e)) ∙ own))

  leave_keeps : get_elem? (destroy_for_client m client).0.surfaces j ≡ some s
  unfolding destroy_for_client
  leave_keeps =
      let h = release_owned-get client.session_id m.surfaces j s got in
      let not_own : owned client.session_id s ≡ false = ground arith in h ∙ rw not_own refl

-- No creation, destruction, commit or departure of a client changes a slot in use that another
-- session owns.
pub other_slots_unchanged :
    (client : Client) {m n : Manager}
    → Step client m n
    → (j : ℕ) (s : Surface) → get_elem? m.surfaces j ≡ some s
    → s.in_use ≡ true
    → s.owner ≢ client.session_id
    → get_elem? n.surfaces j ≡ some s
other_slots_unchanged client (creates m p) j s got used other =
    create_keeps client m j s got used other p
other_slots_unchanged client (destroys m id) j s got used other =
    destroy_keeps client m j s got used other id
other_slots_unchanged client (commits m p fd mapped) j s got used other =
    commit_keeps client m j s got used other p fd mapped
other_slots_unchanged client (leaves m) j s got used other = leave_keeps client m j s got used other

-- When a client leaves, every slot in use of its session is cleared and every other slot is as
-- before.
pub leave_clears :
    (m : Manager) (client : Client) (i : ℕ) (s : Surface)
    → get_elem? m.surfaces i ≡ some s
    → get_elem? (destroy_for_client m client).0.surfaces i
      ≡ some (if s.in_use && (s.owner == client.session_id) then cleared else s)
unfolding destroy_for_client
leave_clears m client i s got = release_owned-get client.session_id m.surfaces i s got

-- The capability that a surface type asks for.
abbrev pub has_cap_for : Client → ℕ → Bool
has_cap_for client type =
    if type == application_window
    then true
    else if type == canvas_surface
    then has_bit cap_canvas_surface client.caps_granted
    else if type == luna_island
    then has_bit cap_luna_island client.caps_granted
    else has_bit cap_layer_shell client.caps_granted

accepted_cap :
    (client : Client) (p : Create)
    → validate_request client p ≡ ok
    → (has_cap_for client p.surface_type ≡ true)
      × (leb system_chrome p.surface_type && leb p.surface_type overlay_surface ≡ true)
unfolding validate_request
accepted_cap client p h = ground arith

-- A surface is created only for a known type on a layer of that type, and, unless it is an
-- application window, only for a client with the capability of the type.
pub create_needs_cap :
    (m : Manager) (client : Client) (p : Create)
    → (create m client p).1 ≡ ok
    → (has_cap_for client p.surface_type ≡ true)
      × (layer_fits p.surface_type p.layer ≡ true)
      × (leb system_chrome p.surface_type && leb p.surface_type overlay_surface ≡ true)
create_needs_cap m client p = go (create m client p) (create_decides m client p)
  where
    go :
        (r : Manager × Status × ℕ)
        → Created m client p r
        → r.1 ≡ ok
        → (has_cap_for client p.surface_type ≡ true)
          × (layer_fits p.surface_type p.layer ≡ true)
          × (leb system_chrome p.surface_type && leb p.surface_type overlay_surface ≡ true)
    go _ (refused bad) h = absurd (bad h)
    go _ (full good used) h = absurd (let f : no_memory ≡ ok = h in cc)
    go _ (made good i at free) h =
        let (cap, known) = accepted_cap client p good in
        let (a, b, c, d, layer) = accepted client p good in (cap, layer, known)
