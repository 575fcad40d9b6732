-- ===== src/Lgp/Surface/Steps.antt =====
-- The requests on the surface table of src/lgp-compositor/scene/surface.c as steps of a client, and
-- what every step keeps.
use mathlib.Core.Option.{some-injective}
use mahina_os.Prelude.{
  ℕ, zero, suc, ◌^◌, ◌<◌, ◌≡◌, ◌∙◌, refl, sym, subst, ap, true, false, Option, some, List, [], ◌∷◌,
  if◌then◌else◌, get_elem?, length, get_elem?-lt, lt-length_of_get, inl, inr, Bool-cases, arith, ℤ,
}
use mahina_os.Lgp.Client.{Client}
use mahina_os.Lgp.Messages.{Create, Commit}
use mahina_os.Lgp.Surface.{
  Status, ok, Surface, cleared, Manager, Effect, init, validate_request, slot_at, next_id, filled,
  create, destroy, shape_ok, size_ok, commit, owned, release_owned, destroy_for_client,
}
use mahina_os.Lgp.Surface.Valid.{
  IsSurface, IsValid, set-IsValid, slot_at-IsSurface, accepted, cleared-IsSurface, init-IsValid,
}
use mahina_os.Lgp.Surface.Ops.{
  Created, refused, full, made, create_decides, Destroyed, absent, foreign, gone, destroy_decides,
}
use mahina_os.Lgp.Surface.Commits.{Committed, no_fd, unfit, stored, commit_decides, shape_fits}
use mahina_os.Lgp.Surface.Commits as Commits

-- A request of the client, with the part of its result that is the table.
pub data Step (client : Client) : Manager → Manager → Type 0 where
  creates : (m : Manager) (p : Create) → Step client m (create m client p).0
  destroys : (m : Manager) (id : ℕ) → Step client m (destroy m client id).0
  commits :
      (m : Manager) (p : Commit) (fd : ℤ) (mapped : Option ℕ)
      → Step client m (commit m client p fd mapped).0
  leaves : (m : Manager) → Step client m (destroy_for_client m client).0

-- What the compositor's table goes through.
pub data Reach : Manager → Type 0 where
  start : Reach init
  next : {m n : Manager} (client : Client) → Reach m → Step client m n → Reach n

filled-IsSurface :
    (client : Client) (p : Create) (id : ℕ) (s : Surface)
    → validate_request client p ≡ ok
    → (0 < id) × (id < 2 ^ 32)
    → IsSurface s
    → s.in_use ≡ false
    → IsSurface (filled client p id s)
filled-IsSurface client p id s good n v free =
    let (a, b, c, d, e) = accepted client p good in
    record {
      sized = λ h. (a, b, c, d);
      layered = λ h. e;
      mapped = λ map h. absurd (let (used, _, _) = v.mapped map h in cc);
      numbered = λ h. n;
    }

pub create-IsValid :
    (m : Manager) (client : Client) (p : Create) → IsValid m → IsValid (create m client p).0
create-IsValid m client p v = go (create m client p) (create_decides m client p)
  where
    go : (r : Manager × Status × ℕ) → Created m client p r → IsValid r.0
    go _ (refused bad) = v
    go _ (full good used) = v
    go _ (made good i got free) =
        set-IsValid m (next_id m.next_surface_id) i
          (filled client p m.next_surface_id (slot_at m i)) v (ground arith)
          (filled-IsSurface client p m.next_surface_id (slot_at m i) good v.next_ok
            (slot_at-IsSurface m i v) free)

pub destroy-IsValid :
    (m : Manager) (client : Client) (id : ℕ) → IsValid m → IsValid (destroy m client id).0
destroy-IsValid m client id v = go (destroy m client id) (destroy_decides m client id)
  where
    go : (r : Manager × Status × List Effect) → Destroyed m client id r → IsValid r.0
    go _ (absent a) = v
    go _ (foreign i a b c) = v
    go _ (gone i a b c) = set-IsValid m m.next_surface_id i cleared v v.next_ok cleared-IsSurface

stored-IsSurface :
    (s : Surface) (p : Commit) (address : ℕ)
    → IsSurface s
    → s.in_use ≡ true
    → shape_ok s p ≡ true
    → size_ok p ≡ true
    → IsSurface (record s {
      buffer_map = some address;
      buffer_size = p.byte_size;
      stride = p.stride;
      pixel_format = p.pixel_format;
    })
stored-IsSurface s p address v used shape size = record {
  sized = v.sized;
  layered = v.layered;
  mapped = λ map h. let (a, b) = shape_fits s p shape size (v.sized used).1 in (used, a, b);
  numbered = v.numbered;
}

pub commit-IsValid :
    (m : Manager) (client : Client) (p : Commit) (fd : ℤ) (mapped : Option ℕ)
    → IsValid m
    → IsValid (commit m client p fd mapped).0
commit-IsValid m client p fd mapped v =
    go (commit m client p fd mapped) (commit_decides m client p fd mapped)
  where
    go : (r : Manager × Status × List Effect) → Committed m client p fd mapped r → IsValid r.0
    go _ (no_fd e) = v
    go _ (Commits.absent e a) = v
    go _ (Commits.foreign e i a b c) = v
    go _ (unfit e i a b c d) = v
    go _ (stored e i address a b c shape size g) =
        set-IsValid m m.next_surface_id i
          (record (slot_at m i) {
            buffer_map = some address;
            buffer_size = p.byte_size;
            stride = p.stride;
            pixel_format = p.pixel_format;
          })
          v v.next_ok
          (stored-IsSurface (slot_at m i) p address (slot_at-IsSurface m i v) (ground arith) shape
            size)

-- The slots after a client has left.
pub release_owned-get :
    (session : ℕ) (xs : List Surface) (i : ℕ) (s : Surface)
    → get_elem? xs i ≡ some s
    → get_elem? (release_owned session xs).0 i ≡ some (if owned session s then cleared else s)
unfolding release_owned
release_owned-get session [] i s h = cc
release_owned-get session (x ∷ xs) zero s h = elim (Bool-cases (owned session x)) [
  | inl e ↦
      subst
        (λ t.
          get_elem? (release_owned session (x ∷ xs)).0 0
          ≡ some (if owned session t then cleared else t))
        (some-injective x s h) (rw e refl)
  | inr e ↦
      subst
        (λ t.
          get_elem? (release_owned session (x ∷ xs)).0 0
          ≡ some (if owned session t then cleared else t))
        (some-injective x s h) (rw e refl)
]
release_owned-get session (x ∷ xs) (suc i) s h = elim (Bool-cases (owned session x)) [
  | inl e ↦ rw e (release_owned-get session xs i s h)
  | inr e ↦ rw e (release_owned-get session xs i s h)
]

release_owned-length :
    (session : ℕ) (xs : List Surface) → length (release_owned session xs).0 ≡ length xs
unfolding release_owned
release_owned-length session [] = refl
release_owned-length session (x ∷ xs) = elim (Bool-cases (owned session x)) [
  | inl e ↦ rw e (ap suc (release_owned-length session xs))
  | inr e ↦ rw e (ap suc (release_owned-length session xs))
]

-- A slot of the table after a client has left, from the slot it was.
release_owned-from :
    (session : ℕ) (xs : List Surface) (i : ℕ) (t : Surface)
    → get_elem? (release_owned session xs).0 i ≡ some t
    → (s : Surface) × (get_elem? xs i ≡ some s) × (t ≡ (if owned session s then cleared else s))
release_owned-from session xs i t h =
    let bound = lt-length_of_get (release_owned session xs).0 i t h in
    let (s, got) = get_elem?-lt xs i (rw (sym (release_owned-length session xs)) bound) in
    (
      s,
      got,
      some-injective t (if owned session s then cleared else s)
          (sym h ∙ release_owned-get session xs i s got),
    )

pub leave-IsValid :
    (m : Manager) (client : Client) → IsValid m → IsValid (destroy_for_client m client).0
unfolding destroy_for_client
leave-IsValid m client v = record {
  slots = release_owned-length client.session_id m.surfaces ∙ v.slots;
  next_ok = v.next_ok;
  each = λ i t h.
      let (s, got, e) = release_owned-from client.session_id m.surfaces i t h in
      subst IsSurface (sym e) (elim (Bool-cases (owned client.session_id s)) [
        | inl o ↦ rw o cleared-IsSurface
        | inr o ↦ rw o (v.each i s got)
      ]);
}

pub Step-IsValid : (client : Client) {m n : Manager} → Step client m n → IsValid m → IsValid n
Step-IsValid client (creates m p) v = create-IsValid m client p v
Step-IsValid client (destroys m id) v = destroy-IsValid m client id v
Step-IsValid client (commits m p fd mapped) v = commit-IsValid m client p fd mapped v
Step-IsValid client (leaves m) v = leave-IsValid m client v

-- After any sequence of creations, destructions, commits and client departures from the initial
-- table: the table has 64 slots, every surface in use has 1 to 16384 pixels a side, a layer that
-- fits its type and a nonzero id, and every mapped buffer belongs to a surface in use, has rows of
-- at least 4 bytes a pixel and holds stride times height bytes.
pub reach-IsValid : {m : Manager} → Reach m → IsValid m
reach-IsValid start = init-IsValid
reach-IsValid (next client r s) = Step-IsValid client s (reach-IsValid r)
