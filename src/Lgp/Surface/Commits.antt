-- ===== src/Lgp/Surface/Commits.antt =====
-- lgp_surface_manager_commit of src/lgp-compositor/scene/surface.c: the ways it ends, the bytes that
-- a stored buffer covers, and the descriptors that are closed.
use mahina_os.Prelude.{
  ℕ, suc, ◌-◌, ◌*◌, ◌%◌, ◌^◌, ◌≤◌, ◌<◌, ◌≡◌, ◌≢◌, refl, subst, true, false, Option, none, some,
  List, [], ◌∷◌, ◌==◌, ◌&&◌, ◌||◌, not, ltb, if◌then◌else◌, get_elem?, set, ◌⊎◌, inl, inr,
  Bool-cases, Option-cases, arith, ℤ, pos, ltb_ℤ,
}
use mahina_os.Lgp.Client.{Client}
use mahina_os.Lgp.Messages.{Commit}
use mahina_os.Lgp.Surface.{
  Status, ok, denied, not_found, bad_buffer, Surface, Manager, Effect, find_slot, has_id, slot_at,
  shape_ok, size_ok, map_slot, commit_slot, commit,
}
use native.Mathlib.Nat.{le-div_iff_mul-le}
use mahina_os.Lgp.Surface.{close_fd, unmap, unmap_old}
use mahina_os.Lgp.Surface.Ops.{find_slot-none, found}

-- The ways a commit ends.
pub data Committed (m : Manager) (client : Client) (p : Commit) (fd : ℤ) (mapped : Option ℕ)
    : Manager × Status × List Effect → Type 0 where
  no_fd : ltb_ℤ fd (pos 0) ≡ true → Committed m client p fd mapped (m, bad_buffer, [])
  absent :
      ltb_ℤ fd (pos 0) ≡ false
      → ((i : ℕ) (s : Surface) → get_elem? m.surfaces i ≡ some s → has_id p.surface_id s ≡ false)
      → Committed m client p fd mapped (m, not_found, close_fd fd ∷ [])
  foreign :
      ltb_ℤ fd (pos 0) ≡ false
      → (i : ℕ) → get_elem? m.surfaces i ≡ some (slot_at m i)
      → has_id p.surface_id (slot_at m i) ≡ true
      → (slot_at m i).owner ≢ client.session_id
      → Committed m client p fd mapped (m, denied, close_fd fd ∷ [])
  unfit :
      ltb_ℤ fd (pos 0) ≡ false
      → (i : ℕ) → get_elem? m.surfaces i ≡ some (slot_at m i)
      → has_id p.surface_id (slot_at m i) ≡ true
      → (slot_at m i).owner ≡ client.session_id
      → (shape_ok (slot_at m i) p && size_ok p ≡ false) ⊎ (mapped ≡ none)
      → Committed m client p fd mapped (m, bad_buffer, close_fd fd ∷ [])
  stored :
      ltb_ℤ fd (pos 0) ≡ false
      → (i map : ℕ) → get_elem? m.surfaces i ≡ some (slot_at m i)
      → has_id p.surface_id (slot_at m i) ≡ true
      → (slot_at m i).owner ≡ client.session_id
      → shape_ok (slot_at m i) p ≡ true
      → size_ok p ≡ true
      → mapped ≡ some map
      → Committed m client p fd mapped (
        record m {
          surfaces = set m.surfaces i (record (slot_at m i) {
            buffer_map = some map;
            buffer_size = p.byte_size;
            stride = p.stride;
            pixel_format = p.pixel_format;
          });
        },
        ok,
        close_fd fd ∷ unmap_old (slot_at m i),
      )

module _ (m : Manager) (client : Client) (p : Commit) (fd : ℤ) (open_fd : ltb_ℤ fd (pos 0) ≡ false)
    (i : ℕ) (got : get_elem? m.surfaces i ≡ some (slot_at m i))
    (is_it : has_id p.surface_id (slot_at m i) ≡ true)
    (own : (slot_at m i).owner ≡ client.session_id) where
  map_slot-Committed :
      (mapped : Option ℕ)
      → shape_ok (slot_at m i) p ≡ true
      → size_ok p ≡ true
      → Committed m client p fd mapped (map_slot m i (slot_at m i) p fd mapped)
  map_slot-Committed none shape size = unfit open_fd i got is_it own (inr refl)
  map_slot-Committed (some map) shape size = stored open_fd i map got is_it own shape size refl

  own_slot-Committed :
      (mapped : Option ℕ)
      → Committed m client p fd mapped (
          if not (shape_ok (slot_at m i) p)
          then (m, bad_buffer, close_fd fd ∷ [])
          else if not (size_ok p)
          then (m, bad_buffer, close_fd fd ∷ [])
          else map_slot m i (slot_at m i) p fd mapped)
  own_slot-Committed mapped = elim (Bool-cases (shape_ok (slot_at m i) p)) [
    | inr bad ↦ rw bad (unfit open_fd i got is_it own (inl (rw bad refl)))
    | inl shape ↦ elim (Bool-cases (size_ok p)) [
      | inr bad ↦ rw (shape, bad) (unfit open_fd i got is_it own (inl (rw (shape, bad) refl)))
      | inl size ↦ rw (shape, size) (map_slot-Committed mapped shape size)
    ]
  ]

commit_slot-Committed :
    (m : Manager) (client : Client) (p : Commit) (fd : ℤ) (mapped : Option ℕ) (o : Option ℕ)
    → ltb_ℤ fd (pos 0) ≡ false
    → find_slot (has_id p.surface_id) 0 m.surfaces ≡ o
    → Committed m client p fd mapped (commit_slot m client p fd mapped o)
commit_slot-Committed m client p fd mapped none op e =
    absent op (find_slot-none (has_id p.surface_id) 0 m.surfaces e)
commit_slot-Committed m client p fd mapped (some i) op e =
    let (got, is_it) = found (has_id p.surface_id) m i e in
    elim (Bool-cases ((slot_at m i).owner == client.session_id)) [
      | inl same ↦ rw same (own_slot-Committed m client p fd op i got is_it (ground arith) mapped)
      | inr other ↦ rw other (foreign op i got is_it (ground arith))
    ]

-- lgp_surface_manager_commit ends in one of five ways, with the status, the table and the effects
-- of each: no descriptor; no surface of that id; a surface of another session; a shape or size that
-- does not fit, or a mapping that fails; or the buffer is stored in the client's own surface.
pub commit_decides :
    (m : Manager) (client : Client) (p : Commit) (fd : ℤ) (mapped : Option ℕ)
    → Committed m client p fd mapped (commit m client p fd mapped)
unfolding commit
commit_decides m client p fd mapped = elim (Bool-cases (ltb_ℤ fd (pos 0))) [
  | inl e ↦ rw e (no_fd e)
  | inr e ↦ rw e (
      commit_slot-Committed m client p fd mapped (find_slot (has_id p.surface_id) 0 m.surfaces) e
        refl)
]

-- How often a list of effects closes a descriptor.
abbrev pub closes : List Effect → ℕ
closes [] = 0
closes (close_fd fd ∷ rest) = suc (closes rest)
closes (unmap map size ∷ rest) = closes rest

unmap_old-closes : (s : Surface) → closes (unmap_old s) ≡ 0
unmap_old-closes s = elim (Option-cases s.buffer_map) [
  | inl e ↦ rw e refl
  | inr (map, e) ↦ rw e refl
]

-- lgp_surface_manager_commit closes one descriptor on every path, and none when it was given a
-- negative one.
pub closes-commit :
    (m : Manager) (client : Client) (p : Commit) (fd : ℤ) (mapped : Option ℕ)
    → closes (commit m client p fd mapped).2 ≡ (if ltb_ℤ fd (pos 0) then 0 else 1)
closes-commit m client p fd mapped =
    go (commit m client p fd mapped) (commit_decides m client p fd mapped)
  where
    go :
        (r : Manager × Status × List Effect)
        → Committed m client p fd mapped r
        → closes r.2 ≡ (if ltb_ℤ fd (pos 0) then 0 else 1)
    go _ (no_fd e) = rw e refl
    go _ (absent e a) = rw e refl
    go _ (foreign e i a b c) = rw e refl
    go _ (unfit e i a b c d) = rw e refl
    go _ (stored e i map a b c d f g) = rw (e, unmap_old-closes (slot_at m i)) refl

no_wrap :
    (n bytes : ℕ) → n ≤ 2 ^ 64 - 1 → not (ltb bytes (n % 2 ^ 64) || bytes == 0) ≡ true → n ≤ bytes
no_wrap n bytes fits h = ground arith

-- The tests of the commit, for a surface of at most 16384 pixels a side.
pub shape_fits :
    (s : Surface) (p : Commit)
    → shape_ok s p ≡ true
    → size_ok p ≡ true
    → s.width ≤ 16384
    → (s.width * 4 ≤ p.stride) × (p.stride * s.height ≤ p.byte_size)
shape_fits s p shape size wide =
    let high : 0 < p.height = ground arith in
    let same : p.height ≡ s.height = ground arith in
    let fits : p.stride * p.height ≤ 2 ^ 64 - 1 = (le-div_iff_mul-le high).0 (ground arith) in
    (
      ground arith,
      subst (λ h. p.stride * h ≤ p.byte_size) same
          (no_wrap (p.stride * p.height) p.byte_size fits size),
    )
