-- ===== src/Init/Depgraph/Topo.antt =====
-- What depgraph_topo_sort and depgraph_has_cycle of src/luna-init/depgraph.c compute.
use mathlib.Core.List.{append-nil}
use mathlib.Core.Option
use mahina_os.Prelude.{
  ℕ, zero, suc, ◌^◌, ◌≤◌, ◌<◌, ◌≡◌, ◌≢◌, refl, ap, sym, subst, ◌∙◌, Bool, true, false, ◌&&◌, not,
  some, List, [], ◌∷◌, ◌++◌, length, elem, count_below, elem-append, List-cases, IsDistinct,
  IsBelow, Bool-cases, ◌⊎◌, inl, inr, ℕ_discrete, count_below-zero, count_below-drop,
  count_below-full, count_below-all, count_below-elem, count_below-le, count_below-witness,
  count_below-gap, length-append, arith,
}
use mahina_os.Init.Depgraph.{
  Graph, Queue, loop, count_loop, expand, blank, copy, seed, copy_seed, sorted, refused,
  topo_result, topo_sort, cycle_result, has_cycle,
}
use mahina_os.Init.Depgraph.Start.{IsCounted, topo_start, cycle_start}
use mahina_os.Init.Depgraph.Kahn.{
  Inv, IsOrdered, missing, expand-Inv, IsBelow-middle, IsDistinct-middle,
}

-- A start order: every service once, each after all that must start before it.
pub record IsTopo (n : ℕ) (g : Graph) (l : List ℕ) : Type 0 where
  pub distinct : IsDistinct l
  pub below : IsBelow n l
  pub total : (v : ℕ) → v < n → elem v l ≡ true
  pub ordered : IsOrdered n g [] l

abbrev unplaced : ℕ → List ℕ → ℕ
unplaced n out = count_below n (λ v. not (elem v out))

module _ (n : ℕ) (g : Graph) (small : n < 2 ^ 32) where
  unplaced-pop :
      (s : Queue) (out : List ℕ) (node : ℕ) (rest : List ℕ)
      → Inv n g s out
      → s.pending ≡ node ∷ rest
      → unplaced n out ≡ suc (unplaced n (out ++ (node ∷ [])))
  unplaced-pop s out node rest h e =
      count_below-drop n node (λ v. not (elem v out)) (λ v. not (elem v (out ++ (node ∷ []))))
        (IsBelow-middle n out node rest (subst (λ p. IsBelow n (out ++ p)) e h.below))
        (ground (
          arith,
          IsDistinct-middle out node rest (subst (λ p. IsDistinct (out ++ p)) e h.distinct),
        ))
        (ground (arith, elem-append node out (node ∷ [])))
        (λ i lt ne. ground (arith, elem-append i out (node ∷ [])))

  -- The loop ends within as many rounds as nodes are left, with an empty queue.
  loop_ends :
      (fuel : ℕ) (s : Queue) (out : List ℕ)
      → Inv n g s out
      → unplaced n out ≤ fuel
      → (t : Queue) × (l : List ℕ) × (loop n g fuel s out ≡ some (t, l))
        × Inv n g t l
        × (t.pending ≡ [])
  unfolding loop
  loop_ends zero s out h m = elim (List-cases s.pending) [
    | inl e ↦ (s, out, simp (e, loop), h, e)
    | inr (node, rest, e) ↦ absurd (omega (arith, unplaced-pop s out node rest h e))
  ]
  loop_ends (suc fuel) s out h m = elim (List-cases s.pending) [
    | inl e ↦ (s, out, simp (e, loop), h, e)
    | inr (node, rest, e) ↦
        let (t, l, ends, inv, empty) =
          loop_ends fuel (expand n g node rest s) (out ++ (node ∷ []))
            (expand-Inv n g node rest s out small e h)
            (omega (arith, unplaced-pop s out node rest h e)) in
        (t, l, rw (e, loop) ends, inv, empty)
  ]

  -- The loop of has_cycle counts what the other one lists.
  count_loop-loop :
      (fuel : ℕ) (s : Queue) (out : List ℕ)
      → count_loop n g fuel s (length out)
        ≡ Option.map (λ (p : Queue × List ℕ). (p.0, length p.1)) (loop n g fuel s out)
  unfolding loop count_loop
  count_loop-loop zero s out = elim (List-cases s.pending) [
    | inl e ↦ rw (e, loop, count_loop) refl
    | inr (node, rest, e) ↦ rw (e, loop, count_loop) refl
  ]
  count_loop-loop (suc fuel) s out = elim (List-cases s.pending) [
    | inl e ↦ rw (e, loop, count_loop) refl
    | inr (node, rest, e) ↦
        let counted : length (out ++ (node ∷ [])) ≡ suc (length out) =
          omega (arith, length-append out (node ∷ [])) in
        let next = count_loop-loop fuel (expand n g node rest s) (out ++ (node ∷ [])) in
        rw (e, loop, count_loop) (rw counted at next)
  ]

-- What the loop leaves: with an empty queue, the placed nodes are closed.
module _ (n : ℕ) (g : Graph) (t : Queue) (l : List ℕ) (h : Inv n g t l)
    (empty : t.pending ≡ []) where
  all_listed : l ++ t.pending ≡ l
  all_listed = rw empty (append-nil l)

  listed-IsDistinct : IsDistinct l
  listed-IsDistinct = subst IsDistinct all_listed h.distinct

  listed-IsBelow : IsBelow n l
  listed-IsBelow = subst (IsBelow n) all_listed h.below

  listed_count : count_below n (λ v. elem v l) ≡ length l
  listed_count = count_below-elem n l listed-IsDistinct listed-IsBelow

  -- A node whose predecessors are all placed is placed.
  placed_closed :
      (v : ℕ) → v < n → ((i : ℕ) → i < n → g.edge i v ≡ true → elem i l ≡ true) → elem v l ≡ true
  placed_closed v lt preds =
      let none_missing : missing n g l v ≡ 0 =
        count_below-zero n (λ i. g.edge i v && not (elem i l))
          (λ i li. elim (Bool-cases (g.edge i v)) [
            | inl into ↦ ground (arith, preds i li into)
            | inr apart ↦ ground arith
          ]) in
      ground (arith, h.ready v lt, h.counted v lt, ap (elem v) all_listed)

  full-IsTopo : length l ≡ n → IsTopo n g l
  full-IsTopo e = record {
    distinct = listed-IsDistinct;
    below = listed-IsBelow;
    total = count_below-all n (λ v. elem v l) (listed_count ∙ e);
    ordered = h.ordered;
  }

  -- Whatever an order places, the loop has placed.
  order_placed :
      (done m : List ℕ)
      → IsOrdered n g done m
      → IsBelow n m
      → ((i : ℕ) → elem i done ≡ true → elem i l ≡ true)
      → (v : ℕ) → elem v m ≡ true
      → elem v l ≡ true
  order_placed done [] o b d v e = ground arith
  order_placed done (x ∷ m) o b d v e =
      let here = placed_closed x b.0 (λ i lt into. d i (o.0 i lt into)) in
      let grown : (i : ℕ) → elem i (x ∷ done) ≡ true → elem i l ≡ true = λ i p.
        elim (ℕ_discrete x i) [
          | yes same ↦ subst (λ k. elem k l ≡ true) same here
          | no other ↦ d i (ground arith)
        ] in
      elim (ℕ_discrete x v) [
        | yes same ↦ subst (λ k. elem k l ≡ true) same here
        | no other ↦ order_placed (x ∷ done) m o.1 b.1 grown v (ground arith)
      ]

  topo-full : (m : List ℕ) → IsTopo n g m → length l ≡ n
  topo-full m topo =
      sym listed_count
      ∙ count_below-full n (λ v. elem v l)
          (λ v lt.
            order_placed [] m topo.ordered topo.below (λ i e. absurd (ground arith)) v
              (topo.total v lt))

-- The in-degrees count the edges, and the table is not larger than a word counts.
module _ (n : ℕ) (g : Graph) (small : n < 2 ^ 32) (counted : IsCounted n g) where
  topo_run :
      (t : Queue) × (l : List ℕ) × (loop n g n (seed n 0 (copy g n 0 blank)) [] ≡ some (t, l))
      × Inv n g t l
      × (t.pending ≡ [])
  topo_run =
      loop_ends n g small n (seed n 0 (copy g n 0 blank)) [] (topo_start n g counted)
        (count_below-le n (λ v. not (elem v [])))

  cycle_run :
      (t : Queue) × (l : List ℕ) × (loop n g n (copy_seed g n 0 blank) [] ≡ some (t, l))
      × Inv n g t l
      × (t.pending ≡ [])
  cycle_run =
      loop_ends n g small n (copy_seed g n 0 blank) [] (cycle_start n g counted)
        (count_below-le n (λ v. not (elem v [])))

  -- For a graph of fewer than 2^32 services whose in-degrees count its edges, and an output array
  -- with room for them, depgraph_topo_sort ends and returns a topological order of all services, or
  -- it returns -1 and there is no topological order.
  pub topo_sort_decides :
      (room : ℕ)
      → n ≤ room
      → ((l : List ℕ) × (topo_sort n g room ≡ sorted l) × IsTopo n g l)
        ⊎ ((topo_sort n g room ≡ refused) × ((m : List ℕ) → ¬ IsTopo n g m))
  unfolding topo_sort
  topo_sort_decides room fits =
      let (t, l, ends, inv, empty) = topo_run in
      elim (ℕ_discrete (length l) n) [
        | yes e ↦ inl (l, simp (ends, topo_result) (ground arith), full-IsTopo n g t l inv empty e)
        | no ne ↦ inr (
          simp (ends, topo_result) (ground arith),
          λ m topo. ne (topo-full n g t l inv empty m topo),
        )
      ]

  -- For a graph of fewer than 2^32 services whose in-degrees count its edges, depgraph_has_cycle
  -- ends, and answers false exactly when there is a topological order.
  pub has_cycle_decides :
      ((has_cycle n g ≡ some false) × (m : List ℕ) × IsTopo n g m)
      ⊎ ((has_cycle n g ≡ some true) × ((m : List ℕ) → ¬ IsTopo n g m))
  unfolding has_cycle
  has_cycle_decides =
      let (t, l, ends, inv, empty) = cycle_run in
      let counts : count_loop n g n (copy_seed g n 0 blank) 0 ≡ some (t, length l) =
        count_loop-loop n g small n (copy_seed g n 0 blank) []
        ∙ ap (Option.map (λ (p : Queue × List ℕ). (p.0, length p.1))) ends in
      elim (ℕ_discrete (length l) n) [
        | yes e ↦
            inl (simp (counts, cycle_result) (ground arith), l, full-IsTopo n g t l inv empty e)
        | no ne ↦ inr (
          simp (counts, cycle_result) (ground arith),
          λ m topo. ne (topo-full n g t l inv empty m topo),
        )
      ]

  -- For a graph of fewer than 2^32 services whose in-degrees count its edges, the loop of
  -- depgraph_topo_sort writes at most one queue slot for each service.
  pub queue_within_table :
      (t : Queue) (l : List ℕ)
      → loop n g n (seed n 0 (copy g n 0 blank)) [] ≡ some (t, l)
      → t.tail ≤ n
  queue_within_table t l e =
      let (t', l', ends, inv, empty) = topo_run in
      let same : t' ≡ t = ground (arith, ends, e) in
      let placed = count_below-elem n (l' ++ t'.pending) inv.distinct inv.below in
      let most = count_below-le n (λ v. elem v (l' ++ t'.pending)) in
      subst (λ q. q.tail ≤ n) same (omega (arith, inv.slots))

  -- When depgraph_topo_sort returns -1 for a graph of fewer than 2^32 services with counted
  -- in-degrees and room for the order, there is a nonempty set of services of which each waits for
  -- another one of the set.
  pub refused_waits :
      (room : ℕ)
      → n ≤ room
      → topo_sort n g room ≡ refused
      → (stuck : ℕ → Bool) × ((v : ℕ) × (v < n) × (stuck v ≡ true))
        × ((v : ℕ)
            → v < n
            → stuck v ≡ true
            → (i : ℕ) × (i < n) × (g.edge i v ≡ true) × (stuck i ≡ true))
  unfolding topo_sort
  refused_waits room fits h =
      let (t, l, ends, inv, empty) = topo_run in
      let short : length l ≢ n = λ e.
        let made : topo_sort n g room ≡ sorted l = simp (ends, topo_result) (ground arith) in cc in
      let all = all_listed n g t l inv empty in
      let placed = listed_count n g t l inv empty in
      let most = count_below-le n (λ v. elem v l) in
      let (w, lw, off) = count_below-gap n (λ v. elem v l) (omega arith) in
      (
        λ v. not (elem v l),
        (w, lw, ground arith),
        λ v lt s.
            let held : 0 < missing n g l v =
              ground (arith, inv.ready v lt, inv.counted v lt, ap (elem v) all) in
            let (i, li, both) = count_below-witness n (λ i. g.edge i v && not (elem i l)) held in
            (i, li, ground arith, ground arith),
      )
