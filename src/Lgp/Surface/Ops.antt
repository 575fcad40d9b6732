-- ===== src/Lgp/Surface/Ops.antt =====
-- The requests on the surface table of src/lgp-compositor/scene/surface.c, as steps of one client.
use mathlib.Core.Option.{some-injective}
use mahina_os.Prelude.{
  ℕ, zero, suc, ◌+◌, ◌≡◌, ◌≢◌, ◌∙◌, refl, sym, subst, Bool, true, false, Option, none, some, List,
  [], ◌∷◌, ◌==◌, ◌&&◌, ◌%◌, ◌^◌, if◌then◌else◌, get_elem?, set, ◌⊎◌, inl, inr, Bool-cases, arith,
}
use mahina_os.Lgp.Client.{Client}
use mahina_os.Lgp.Messages.{Create}
use mahina_os.Lgp.Surface.{
  unmap, Status, ok, denied, invalid, no_memory, not_found, bad_buffer, Surface, cleared, Manager,
  Effect, validate_request, find_slot, is_free, has_id, slot_at, fill_slot, if_ok, create,
  destroy_slot, destroy, release,
}

-- What a search of the table says: the slot passes the test and no earlier one does.
pub find_slot-some :
    (test : Surface → Bool) (i : ℕ) (xs : List Surface) (j : ℕ)
    → find_slot test i xs ≡ some j
    → (k : ℕ) × (s : Surface) × (j ≡ i + k) × (get_elem? xs k ≡ some s) × (test s ≡ true)
unfolding find_slot
find_slot-some test i [] j h = cc
find_slot-some test i (x ∷ xs) j h = elim (Bool-cases (test x)) [
  | inl e ↦ (0, x, sym (some-injective i j (rw e at h)) ∙ omega arith, refl, e)
  | inr e ↦
      let (k, s, at, got, passes) = find_slot-some test (suc i) xs j (rw e at h) in
      (suc k, s, omega arith, got, passes)
]

pub find_slot-none :
    (test : Surface → Bool) (i : ℕ) (xs : List Surface)
    → find_slot test i xs ≡ none
    → (k : ℕ) (s : Surface) → get_elem? xs k ≡ some s
    → test s ≡ false
unfolding find_slot
find_slot-none test i [] h k s got = cc
find_slot-none test i (x ∷ xs) h zero s got = elim (Bool-cases (test x)) [
  | inl e ↦ absurd (let f = rw e at h in cc)
  | inr e ↦ subst (λ t. test t ≡ false) (some-injective x s got) e
]
find_slot-none test i (x ∷ xs) h (suc k) s got = elim (Bool-cases (test x)) [
  | inl e ↦ absurd (let f = rw e at h in cc)
  | inr e ↦ find_slot-none test (suc i) xs (rw e at h) k s got
]

-- The slot that a successful search names.
pub found :
    (test : Surface → Bool) (m : Manager) (i : ℕ)
    → find_slot test 0 m.surfaces ≡ some i
    → (get_elem? m.surfaces i ≡ some (slot_at m i)) × (test (slot_at m i) ≡ true)
found test m i h =
    let (k, s, at, got, passes) = find_slot-some test 0 m.surfaces i h in
    let here : get_elem? m.surfaces i ≡ some s =
      subst (λ j. get_elem? m.surfaces j ≡ some s) (omega arith) got in
    (rw (here, slot_at) refl, rw (here, slot_at) passes)

-- The ways a creation ends.
pub data Created (m : Manager) (client : Client) (p : Create) : Manager × Status × ℕ → Type 0 where
  refused : validate_request client p ≢ ok → Created m client p (m, validate_request client p, 0)
  full :
      validate_request client p ≡ ok
      → ((i : ℕ) (s : Surface) → get_elem? m.surfaces i ≡ some s → s.in_use ≡ true)
      → Created m client p (m, no_memory, 0)
  made :
      validate_request client p ≡ ok
      → (i : ℕ) → get_elem? m.surfaces i ≡ some (slot_at m i)
      → (slot_at m i).in_use ≡ false
      → Created m client p (
        record {
          next_surface_id =
              if (m.next_surface_id + 1) % 2 ^ 32 == 0 then 1 else (m.next_surface_id + 1) % 2 ^ 32;
          surfaces = set m.surfaces i (record (slot_at m i) {
            in_use = true;
            id = m.next_surface_id;
            owner = client.session_id;
            surface_type = p.surface_type;
            x = p.x;
            y = p.y;
            width = p.width;
            height = p.height;
            layer = p.layer;
          });
        },
        ok,
        m.next_surface_id,
      )

-- The result of the validation, and what `if_ok` makes of it.
Status-cases :
    (s : Status)
    → (s ≡ ok) ⊎ ((s ≢ ok) × ((m : Manager) (r : Manager × Status × ℕ) → if_ok m s r ≡ (m, s, 0)))
Status-cases ok = inl refl
Status-cases invalid = inr ((λ e. cc), (λ m r. refl))
Status-cases denied = inr ((λ e. cc), (λ m r. refl))
Status-cases no_memory = inr ((λ e. cc), (λ m r. refl))
Status-cases not_found = inr ((λ e. cc), (λ m r. refl))
Status-cases bad_buffer = inr ((λ e. cc), (λ m r. refl))

fill_slot-Created :
    (m : Manager) (client : Client) (p : Create) (o : Option ℕ)
    → validate_request client p ≡ ok
    → find_slot is_free 0 m.surfaces ≡ o
    → Created m client p (fill_slot client p m o)
fill_slot-Created m client p none good e =
    full good (λ i s got. ground (arith, find_slot-none is_free 0 m.surfaces e i s got))
fill_slot-Created m client p (some i) good e =
    made good i (found is_free m i e).0 (ground (arith, found is_free m i e))

-- lgp_surface_manager_create refuses a request that does not pass its validation with the status of
-- that, answers NO_MEMORY when all slots are in use, both with id 0 and without a change, and
-- otherwise makes one free slot a surface in use with next_surface_id, the client's session and the
-- type, place, size and layer of the request, returns that id, and adds one to next_surface_id on
-- 32 bits, where 0 is made 1; the table changes in no other way.
pub create_decides :
    (m : Manager) (client : Client) (p : Create) → Created m client p (create m client p)
unfolding create
create_decides m client p = elim (Status-cases (validate_request client p)) [
  | inr (bad, e) ↦
      subst (Created m client p) (sym (e m (fill_slot client p m (find_slot is_free 0 m.surfaces))))
        (refused bad)
  | inl good ↦
      let inner = fill_slot-Created m client p (find_slot is_free 0 m.surfaces) good refl in
      subst
        (λ s.
          Created m client p (if_ok m s (fill_slot client p m (find_slot is_free 0 m.surfaces))))
        (sym good) inner
]

-- The mapping of a surface, as munmap takes it.
abbrev pub mapping_of : Surface → List Effect
mapping_of s = elim s.buffer_map [ none ↦ [] | some map ↦ unmap map s.buffer_size ∷ [] ]

pub release-mapping_of : (s : Surface) → release s ≡ mapping_of s
unfolding release
release-mapping_of s = refl

-- The ways a destruction ends.
pub data Destroyed (m : Manager) (client : Client) (id : ℕ)
    : Manager × Status × List Effect → Type 0 where
  absent :
      ((i : ℕ) (s : Surface) → get_elem? m.surfaces i ≡ some s → (s.in_use && (s.id == id)) ≡ false)
      → Destroyed m client id (m, not_found, [])
  foreign :
      (i : ℕ)
      → get_elem? m.surfaces i ≡ some (slot_at m i)
      → ((slot_at m i).in_use ≡ true) × ((slot_at m i).id ≡ id)
      → (slot_at m i).owner ≢ client.session_id
      → Destroyed m client id (m, denied, [])
  gone :
      (i : ℕ)
      → get_elem? m.surfaces i ≡ some (slot_at m i)
      → ((slot_at m i).in_use ≡ true) × ((slot_at m i).id ≡ id)
      → (slot_at m i).owner ≡ client.session_id
      → Destroyed m client id
          (record m { surfaces = set m.surfaces i cleared }, ok, mapping_of (slot_at m i))

has_id-both : (id : ℕ) (s : Surface) → has_id id s ≡ true → (s.in_use ≡ true) × (s.id ≡ id)
has_id-both id s h = both s.in_use h
  where
    both : (b : Bool) → (b && (s.id == id)) ≡ true → (b ≡ true) × (s.id ≡ id)
    both b e = (ground arith, ground arith)

destroy_slot-Destroyed :
    (m : Manager) (client : Client) (id : ℕ) (o : Option ℕ)
    → find_slot (has_id id) 0 m.surfaces ≡ o
    → Destroyed m client id (destroy_slot m client o)
destroy_slot-Destroyed m client id none e = absent (find_slot-none (has_id id) 0 m.surfaces e)
destroy_slot-Destroyed m client id (some i) e =
    let (got, is_it) = found (has_id id) m i e in
    let both = has_id-both id (slot_at m i) is_it in
    elim (Bool-cases ((slot_at m i).owner == client.session_id)) [
      | inl same ↦ rw (same, release-mapping_of (slot_at m i)) (gone i got both (ground arith))
      | inr other ↦ rw other (foreign i got both (ground arith))
    ]

-- lgp_surface_manager_destroy answers NOT_FOUND for an id of no surface in use and DENIED for a
-- surface of another session, both without a change, and otherwise clears the slot, changes no
-- other, and gives the slot's mapping, if it has one, back with the address and the size that the
-- slot holds.
pub destroy_decides :
    (m : Manager) (client : Client) (id : ℕ) → Destroyed m client id (destroy m client id)
unfolding destroy
destroy_decides m client id =
    destroy_slot-Destroyed m client id (find_slot (has_id id) 0 m.surfaces) refl
