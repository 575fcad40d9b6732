-- ===== src/Lgp/Surface/Mappings.antt =====
-- The mappings that the table of src/lgp-compositor/scene/surface.c holds and gives back.
use mathlib.Core.Option.{some-injective}
use mahina_os.Prelude.{
  ℕ, zero, suc, ◌+◌, ◌==◌, ◌&&◌, ◌∙◌, ap, if◌then◌else◌, ◌≡◌, refl, subst, Option, none, some, List,
  [], ◌∷◌, get_elem?, set, inl, inr, Bool-cases, Option-cases, arith, ℤ,
}
use mahina_os.Lgp.Client.{Client}
use mahina_os.Lgp.Messages.{Commit}
use mahina_os.Lgp.Surface.{
  Status, ok, Surface, cleared, Manager, Effect, slot_at, destroy, commit, owned, release,
  release_owned, destroy_for_client,
}
use mahina_os.Prelude.{◌++◌}
use mahina_os.Lgp.Surface.{close_fd, unmap}
use mahina_os.Lgp.Surface.Ops.{
  Destroyed, absent, foreign, gone, destroy_decides, mapping_of, release-mapping_of,
}
use mahina_os.Lgp.Surface.Commits.{Committed, no_fd, unfit, stored, commit_decides}
use mahina_os.Lgp.Surface.Commits as Commits

-- How often a table holds the mapping of `n` bytes at `a`, how often a list of effects gives it back, and
-- how often a session's surfaces in use hold it.
abbrev pub is_at : ℕ → ℕ → ℕ → ℕ → ℕ
is_at a n map size = if map == a && size == n then 1 else 0

abbrev pub is_mapped : ℕ → ℕ → Surface → ℕ
is_mapped a n s = elim s.buffer_map [ none ↦ 0 | some map ↦ is_at a n map s.buffer_size ]

abbrev pub mapped_count : ℕ → ℕ → List Surface → ℕ
mapped_count a n [] = 0
mapped_count a n (s ∷ rest) = is_mapped a n s + mapped_count a n rest

abbrev pub unmaps : ℕ → ℕ → List Effect → ℕ
unmaps a n [] = 0
unmaps a n (close_fd fd ∷ rest) = unmaps a n rest
unmaps a n (unmap map size ∷ rest) = is_at a n map size + unmaps a n rest

abbrev pub mapped_by : ℕ → ℕ → ℕ → List Surface → ℕ
mapped_by session a n [] = 0
mapped_by session a n (s ∷ rest) =
    (if s.in_use && s.owner == session then is_mapped a n s else 0) + mapped_by session a n rest

-- The mapping that a commit stored.
abbrev pub new_mapping : ℕ → ℕ → Status → Option ℕ → ℕ → ℕ
new_mapping a n ok (some address) size = is_at a n address size
new_mapping a n status mapped size = 0

mapped_count-set :
    (a n : ℕ) (xs : List Surface) (i : ℕ) (old v : Surface)
    → get_elem? xs i ≡ some old
    → is_mapped a n old + mapped_count a n (set xs i v) ≡ is_mapped a n v + mapped_count a n xs
mapped_count-set a n [] i old v h = cc
mapped_count-set a n (x ∷ xs) zero old v h =
    subst
      (λ t.
        is_mapped a n t + (is_mapped a n v + mapped_count a n xs)
        ≡ is_mapped a n v + (is_mapped a n x + mapped_count a n xs))
      (some-injective x old h) (omega arith)
mapped_count-set a n (x ∷ xs) (suc i) old v h = omega (arith, mapped_count-set a n xs i old v h)

unmaps-mapping_of : (a n : ℕ) (s : Surface) → unmaps a n (mapping_of s) ≡ is_mapped a n s
unmaps-mapping_of a n s = elim (Option-cases s.buffer_map) [
  | inl e ↦ rw e refl
  | inr (map, e) ↦ rw e (omega arith)
]

unmaps-append :
    (a n : ℕ) (xs ys : List Effect) → unmaps a n (xs ++ ys) ≡ unmaps a n xs + unmaps a n ys
unmaps-append a n [] ys = omega arith
unmaps-append a n (close_fd fd ∷ xs) ys = unmaps-append a n xs ys
unmaps-append a n (unmap map size ∷ xs) ys = omega (arith, unmaps-append a n xs ys)

-- For every address and size, the mappings with them that a commit gives back and those that the
-- table holds after it are together as many as the table held before it, and one more exactly if
-- the commit succeeds and they are the address that mmap returned and the size of the request.
pub commit_balances :
    (m : Manager) (client : Client) (p : Commit) (fd : ℤ) (mapped : Option ℕ) (a n : ℕ)
    → let (after, status, effects) = commit m client p fd mapped in
      unmaps a n effects + mapped_count a n after.surfaces
      ≡ new_mapping a n status mapped p.byte_size + mapped_count a n m.surfaces
commit_balances m client p fd mapped a n =
    go (commit m client p fd mapped) (commit_decides m client p fd mapped)
  where
    go :
        (r : Manager × Status × List Effect)
        → Committed m client p fd mapped r
        → unmaps a n r.2 + mapped_count a n r.0.surfaces
          ≡ new_mapping a n r.1 mapped p.byte_size + mapped_count a n m.surfaces
    go _ (no_fd e) = omega arith
    go _ (Commits.absent e f) = omega arith
    go _ (Commits.foreign e i f b c) = omega arith
    go _ (unfit e i f b c d) = omega arith
    go _ (stored e i address at b c d f g) = rw g (
        omega (
          arith,
          unmaps-mapping_of a n (slot_at m i),
          mapped_count-set a n m.surfaces i (slot_at m i)
              (record (slot_at m i) {
                buffer_map = some address;
                buffer_size = p.byte_size;
                stride = p.stride;
                pixel_format = p.pixel_format;
              })
              at,
        ))

pub destroy_balances :
    (m : Manager) (client : Client) (id a n : ℕ)
    → let (after, status, effects) = destroy m client id in
      unmaps a n effects + mapped_count a n after.surfaces ≡ mapped_count a n m.surfaces
destroy_balances m client id a n = go (destroy m client id) (destroy_decides m client id)
  where
    go :
        (r : Manager × Status × List Effect)
        → Destroyed m client id r
        → unmaps a n r.2 + mapped_count a n r.0.surfaces ≡ mapped_count a n m.surfaces
    go _ (absent e) = omega arith
    go _ (foreign i e b c) = omega arith
    go _ (gone i at b c) = omega (
      arith,
      unmaps-mapping_of a n (slot_at m i),
      mapped_count-set a n m.surfaces i (slot_at m i) cleared at,
    )

-- The mappings of a session are given back, and with those still held they are all there were.
release_owned-balances :
    (session a n : ℕ) (xs : List Surface)
    → (unmaps a n (release_owned session xs).1 ≡ mapped_by session a n xs)
      × (unmaps a n (release_owned session xs).1 + mapped_count a n (release_owned session xs).0
          ≡ mapped_count a n xs)
unfolding release_owned
release_owned-balances session a n [] = (refl, refl)
release_owned-balances session a n (x ∷ xs) =
    let (ours, all) = release_owned-balances session a n xs in
    elim (Bool-cases (owned session x)) [
      | inl e ↦
          let given : unmaps a n (release x ++ (release_owned session xs).1)
              ≡ is_mapped a n x + unmaps a n (release_owned session xs).1 =
            unmaps-append a n (release x) (release_owned session xs).1
            ∙ ap (λ k. k + unmaps a n (release_owned session xs).1)
                (ap (unmaps a n) (release-mapping_of x) ∙ unmaps-mapping_of a n x) in
          rw e (omega (arith, given, ours), omega (arith, given, all))
      | inr e ↦ rw e (omega (arith, ours), omega (arith, all))
    ]

-- For every address and size, a client that leaves gives back exactly the mappings with them that
-- surfaces in use of its session hold, and these and the mappings that the table holds after it are
-- together as many as the table held before it.
pub leave_balances :
    (m : Manager) (client : Client) (a n : ℕ)
    → let (after, effects) = destroy_for_client m client in
      (unmaps a n effects ≡ mapped_by client.session_id a n m.surfaces)
      × (unmaps a n effects + mapped_count a n after.surfaces ≡ mapped_count a n m.surfaces)
unfolding destroy_for_client
leave_balances m client a n = release_owned-balances client.session_id a n m.surfaces
