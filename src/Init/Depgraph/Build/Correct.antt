-- ===== src/Init/Depgraph/Build/Correct.antt =====
-- What depgraph_build of src/luna-init/depgraph.c returns.
use mahina_os.Prelude.{
  ℕ, ◌^◌, ◌≤◌, ◌<◌, ◌≡◌, refl, sym, subst, true, false, List, length, ◌⊎◌, inl, inr, ◌↔◌,
  count_below-zero, arith,
}
use mahina_os.Init.Service.{Service}
use mahina_os.Init.Depgraph.{sorted, topo_sort}
use mahina_os.Init.Depgraph.Start.{IsCounted}
use mahina_os.Init.Depgraph.Topo.{topo_sort_decides, has_cycle_decides}
use mahina_os.Init.Depgraph.Build.{
  Tables, resolved, missing_name, resolve_all, BuildResult, built, refused, zeroed, build,
}
use mahina_os.Init.Depgraph.Build.Grown.{bares, Grown-length}
use mahina_os.Init.Depgraph.Build.Loops.{IsSized, resolve_all-Ends}
use mahina_os.Init.Depgraph.Build.Spec.{
  MustPrecede, HasUnknown, IsStartOrder, edges_all→MustPrecede, MustPrecede→edges_all,
  found_all→HasUnknown, found_all_known,
}
use mahina_os.Init.Depgraph.Build.Order.{IsTopo→IsStartOrder, IsStartOrder→IsTopo}

module _ (services : List Service) where
  -- What a successful depgraph_build leaves for depgraph_topo_sort.
  pub record IsBuilt (t : Tables) : Type 0 where
    pub same : bares t.services ≡ bares services
    pub edges : (a b : ℕ) → (t.graph.edge a b ≡ true) ↔ MustPrecede services a b
    pub counts : IsCounted (length services) t.graph
    pub known : ¬ HasUnknown services

module _ (services : List Service) (small : length services < 2 ^ 32)
    (sized : IsSized services) where
  abbrev n : ℕ
  n = length services

  -- The tables after the loop over services: the edges are those asked for, and are counted.
  record Resolved (t : Tables) : Type 0 where
    same : bares t.services ≡ bares services
    size : length t.services ≡ length services
    edges : (a b : ℕ) → (t.graph.edge a b ≡ true) ↔ MustPrecede services a b
    counts : IsCounted (length services) t.graph

  resolve_ends :
      ((t : Tables) × (resolve_all n 0 (zeroed services) ≡ resolved t)
        × Resolved t
        × (¬ HasUnknown services))
      ⊎ ((t : Tables) × (resolve_all n 0 (zeroed services) ≡ missing_name t) × HasUnknown services)
  resolve_ends = elim (resolve_all-Ends services n 0 (zeroed services) refl sized (omega arith)) [
    | inl (t, e, found, grown) ↦ inl (
      t,
      e,
      record {
        same = grown.same;
        size = Grown-length grown;
        edges = λ a b. (
          λ h. edges_all→MustPrecede services n 0 a b (ground (arith, grown.edges a b)),
          λ h. ground (arith, grown.edges a b, MustPrecede→edges_all services a b h),
        );
        counts = grown.counts (λ v lt. sym (count_below-zero n (λ i. false) (λ i l. refl)));
      },
      found_all_known services found,
    )
    | inr (t, e, lost) ↦ inr (t, e, found_all→HasUnknown services n 0 (omega arith) lost)
  ]

  clash : {r : BuildResult} {t u : Tables} → r ≡ built t → r ≡ refused u → ⊥
  clash a b = cc

  -- For a service table whose counts stay within its name arrays, depgraph_build returns 0 and
  -- leaves the graph of the `after` and `before` lists, and there is a start order; or it returns
  -- -1, and a name is that of no service or there is no start order.
  pub build_decides :
      ((t : Tables) × (build services ≡ built t)
        × IsBuilt services t
        × (l : List ℕ) × IsStartOrder services l)
      ⊎ ((t : Tables) × (build services ≡ refused t)
          × (HasUnknown services ⊎ ((l : List ℕ) → ¬ IsStartOrder services l)))
  unfolding build
  build_decides = elim resolve_ends [
    | inr (t, e, lost) ↦ inr (t, rw e refl, inl lost)
    | inl (t, e, r, known) ↦ elim (has_cycle_decides n t.graph small r.counts) [
      | inl (free, m, topo) ↦ inl (
        t,
        rw (e, r.size) (rw free refl),
        record { same = r.same; edges = r.edges; counts = r.counts; known = known },
        m,
        IsTopo→IsStartOrder services t.graph r.edges m topo,
      )
      | inr (stuck, none_fits) ↦ inr (
        t,
        rw (e, r.size) (rw stuck refl),
        inr (λ l order. none_fits l (IsStartOrder→IsTopo services t.graph r.edges l order)),
      )
    ]
  ]

  -- For a table of fewer than 2^32 services whose counts of `after` and `before` names stay within
  -- the name arrays, after a depgraph_build that returns 0, depgraph_topo_sort with room for the
  -- table returns an order of all services in which each one comes after the services it lists
  -- under `after` and before those it lists under `before`.
  pub topo_sort-build :
      (t : Tables) (room : ℕ)
      → build services ≡ built t
      → length services ≤ room
      → (l : List ℕ) × (topo_sort (length services) t.graph room ≡ sorted l)
        × IsStartOrder services l
  topo_sort-build t room e fits = elim build_decides [
    | inr (u, gone, why) ↦ absurd (clash e gone)
    | inl (u, made, ok, m, order) ↦
        let same : u ≡ t = cc in
        let graph_ok = subst (IsBuilt services) same ok in
        elim (topo_sort_decides n t.graph small graph_ok.counts room fits) [
          | inl (l, found, topo) ↦
              (l, found, IsTopo→IsStartOrder services t.graph graph_ok.edges l topo)
          | inr (gone, none_fits) ↦
              absurd (none_fits m (IsStartOrder→IsTopo services t.graph graph_ok.edges m order))
        ]
  ]
