-- ===== src/Init/Depgraph/Start.antt =====
-- The loops of src/luna-init/depgraph.c that fill the queue first.
use mahina_os.Prelude.{
  ℕ, zero, suc, ◌+◌, ◌<◌, ◌≡◌, refl, ap, subst, ◌∙◌, true, ◌&&◌, not, [], ◌∷◌, ◌==◌, ltb,
  if◌then◌else◌, length, elem, count_below, elem-append, IsDistinct, IsBelow, Bool-cases, inl, inr,
  ℕ_discrete, count_below-congr, length-append, arith,
}
use mahina_os.Init.Depgraph.{Graph, Queue, set_indegree, seed_one, blank, copy, seed, copy_seed}
use mahina_os.Init.Depgraph.Kahn.{Inv, IsDistinct-snoc, IsBelow-snoc}

-- `g_indegree` counts the edges of `g_edge`.
abbrev pub IsCounted : ℕ → Graph → Type 0
IsCounted n g = (v : ℕ) → v < n → g.indegree v ≡ count_below n (λ i. g.edge i v)

record Seeded (n : ℕ) (g : Graph) (s : Queue) (j : ℕ) : Type 0 where
  degrees : (v : ℕ) → v < j → s.indegree v ≡ g.indegree v
  members : (v : ℕ) → elem v s.pending ≡ (ltb v j && (g.indegree v == 0))
  distinct : IsDistinct s.pending
  below : IsBelow n s.pending
  slots : s.tail ≡ length s.pending

module _ (n : ℕ) (g : Graph) where
  seed_one-Seeded :
      (s : Queue) (j : ℕ)
      → j < n
      → s.indegree j ≡ g.indegree j
      → Seeded n g s j
      → Seeded n g (seed_one j s) (suc j)
  seed_one-Seeded s j lt e h = elim (Bool-cases (s.indegree j == 0)) [
    | inl z ↦ rw z (record {
      degrees = λ v l. elim (ℕ_discrete v j) [ yes p ↦ rw p e | no ne ↦ h.degrees v (omega arith) ];
      members = λ v. ground (arith, elem-append v s.pending (j ∷ []), h.members v);
      distinct = IsDistinct-snoc s.pending j h.distinct (ground (arith, h.members j));
      below = IsBelow-snoc n s.pending j h.below lt;
      slots = omega (arith, h.slots, length-append s.pending (j ∷ []));
    })
    | inr z ↦ rw z (record {
      degrees = λ v l. elim (ℕ_discrete v j) [ yes p ↦ rw p e | no ne ↦ h.degrees v (omega arith) ];
      members = λ v. ground (arith, h.members v);
      distinct = h.distinct;
      below = h.below;
      slots = h.slots;
    })
  ]

  seed-Seeded :
      (k j : ℕ) (s : Queue)
      → j + k ≡ n
      → ((v : ℕ) → v < n → s.indegree v ≡ g.indegree v)
      → Seeded n g s j
      → Seeded n g (seed k j s) n
  unfolding seed
  seed-Seeded zero j s e all h = subst (λ m. Seeded n g s m) (omega arith) h
  seed-Seeded (suc k) j s e all h =
      seed-Seeded k (suc j) (seed_one j s) (omega arith)
        (λ v lt. elim (Bool-cases (s.indegree j == 0)) [
          | inl z ↦ rw z (all v lt)
          | inr z ↦ rw z (all v lt)
        ])
        (seed_one-Seeded s j (omega arith) (all j (omega arith)) h)

  copy_seed-Seeded :
      (k j : ℕ) (s : Queue) → j + k ≡ n → Seeded n g s j → Seeded n g (copy_seed g k j s) n
  unfolding copy_seed
  copy_seed-Seeded zero j s e h = subst (λ m. Seeded n g s m) (omega arith) h
  copy_seed-Seeded (suc k) j s e h =
      copy_seed-Seeded k (suc j) (seed_one j (set_indegree j (g.indegree j) s)) (omega arith) (
        seed_one-Seeded (set_indegree j (g.indegree j) s) j (omega arith) (ground arith) (record {
          degrees = λ v lt. ground (arith, h.degrees v lt);
          members = h.members;
          distinct = h.distinct;
          below = h.below;
          slots = h.slots;
        }))

  -- A copied entry keeps its value while later ones are written.
  copy-degrees :
      (k j : ℕ) (s : Queue) (v : ℕ)
      → (copy g k j s).indegree v
        ≡ (if not (ltb v j) && ltb v (j + k) then g.indegree v else s.indegree v)
  unfolding copy
  copy-degrees zero j s v = ground arith
  copy-degrees (suc k) j s v = ground (
    arith,
    copy-degrees k (suc j) (set_indegree j (g.indegree j) s) v,
    ap g.indegree {x = v} {y = j},
  )

  copy-pending : (k j : ℕ) (s : Queue) → (copy g k j s).pending ≡ s.pending
  unfolding copy
  copy-pending zero j s = refl
  copy-pending (suc k) j s = copy-pending k (suc j) (set_indegree j (g.indegree j) s)

  copy-tail : (k j : ℕ) (s : Queue) → (copy g k j s).tail ≡ s.tail
  unfolding copy
  copy-tail zero j s = refl
  copy-tail (suc k) j s = copy-tail k (suc j) (set_indegree j (g.indegree j) s)

  Inv-Seeded : (s : Queue) → IsCounted n g → Seeded n g s n → Inv n g s []
  Inv-Seeded s counted h = record {
    distinct = h.distinct;
    below = h.below;
    counted = λ v lt.
        h.degrees v lt
        ∙ counted v lt
        ∙ count_below-congr n (λ i. g.edge i v) (λ i. g.edge i v && true) (λ i l. ground arith);
    ready = λ v lt. ground (arith, h.members v, h.degrees v lt);
    ordered = tt;
    slots = h.slots;
  }

  Seeded-empty : (s : Queue) → s.pending ≡ [] → s.tail ≡ 0 → Seeded n g s 0
  Seeded-empty s e t = record {
    degrees = λ v lt. absurd (omega arith);
    members = λ v. rw e (ground arith);
    distinct = rw e tt;
    below = rw e tt;
    slots = rw (e, t) refl;
  }

  pub topo_start : IsCounted n g → Inv n g (seed n 0 (copy g n 0 blank)) []
  topo_start counted =
      let copied = copy g n 0 blank in
      Inv-Seeded (seed n 0 copied) counted (
        seed-Seeded n 0 copied (omega arith) (λ v lt. ground (arith, copy-degrees n 0 blank v))
          (Seeded-empty copied (copy-pending n 0 blank) (copy-tail n 0 blank)))

  pub cycle_start : IsCounted n g → Inv n g (copy_seed g n 0 blank) []
  cycle_start counted =
      Inv-Seeded (copy_seed g n 0 blank) counted
        (copy_seed-Seeded n 0 blank (omega arith) (Seeded-empty blank refl refl))
