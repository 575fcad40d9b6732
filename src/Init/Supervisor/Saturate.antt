-- ===== src/Init/Supervisor/Saturate.antt =====
-- After one turn of supervisor_pump of src/luna-init/supervisor.c no startable service is left.
use mathlib.Core.Option.{some-injective}
use mahina_os.Prelude.{
  ℕ, ◌+◌, ◌≤◌, ◌<◌, ◌≡◌, refl, sym, subst, ap, ◌∙◌, Bool, true, false, ◌&&◌, some, List, [], ◌∷◌,
  get_elem?, set, length, get_elem?-lt, lt-length_of_get, elem, inl, inr, Option-cases, ℕ_discrete,
  arith,
}
use mahina_os.Init.Service.{pending, state_eq, Service, max_count}
use mahina_os.Init.Depgraph.{Graph}
use mahina_os.Init.Depgraph.Start.{IsCounted}
use mahina_os.Init.Depgraph.Topo.{IsTopo, topo_sort_decides}
use mahina_os.Init.Supervisor.{
  Table, Env, settle_all, dep_ok, deps_met, is_due, can_start, launch, try_start, start_order, pump,
}
use mahina_os.Init.Supervisor.Moves.{settle_state, launch_state}
use mahina_os.Prelude.{IsDistinct}
use mahina_os.Init.Depgraph.Kahn.{IsOrdered}
use mahina_os.Init.Supervisor.Turn.{settle_all-get, settle_all-length}
use mahina_os.Init.Supervisor.Pump.{
  Tried, absent, waits, launched, try_start_decides, stays, starts, start_order-Started,
  start_order-Kept, start_order-skip, launch_not_pending, Tried-Kept, Tried-Started, past_end,
  set_here,
}

-- The dependencies of every service are edges of the graph.
abbrev pub IsLinked : ℕ → Graph → List Service → Type 0
IsLinked n g xs =
    (i : ℕ) (s : Service)
    → get_elem? xs i ≡ some s
    → (d : ℕ) → elem d s.dep_indices ≡ true
    → d < n
    → g.edge d i ≡ true

-- Two tables that agree on some dependencies.
deps_met-same :
    (xs ys : List Service) (ds : List ℕ)
    → ((d : ℕ) → elem d ds ≡ true → get_elem? ys d ≡ get_elem? xs d)
    → deps_met ys ds ≡ deps_met xs ds
deps_met-same xs ys [] h = refl
deps_met-same xs ys (d ∷ ds) h =
    let here : get_elem? ys d ≡ get_elem? xs d = h d (ground arith) in
    let there = deps_met-same xs ys ds (λ e m. h e (ground arith)) in rw (here, there, dep_ok) refl

-- A service that is found pending behind the loop was pending, and has not been written.
still_pending :
    (env : Env) (l : List ℕ) (xs : List Service) (i : ℕ) (s u : Service)
    → get_elem? xs i ≡ some s
    → get_elem? (start_order env l xs) i ≡ some u
    → u.state ≡ pending
    → s ≡ u
still_pending env l xs i s u h g p = elim (start_order-Started env l xs i s h) [
  | stays k ↦ some-injective s u (sym k ∙ g)
  | starts a b c k ↦ absurd (
      launch_not_pending env i s
        (ap (λ v. v.state) (some-injective (launch env i s) u (sym k ∙ g)) ∙ p))
]

launch-deps : (env : Env) (i : ℕ) (s : Service) → (launch env i s).dep_indices ≡ s.dep_indices
launch-deps env i s = elim (launch_state env i s) [
  | inl e ↦ ap (λ v. v.dep_indices) e
  | inr (pid, f, e) ↦ ap (λ v. v.dep_indices) e
]

-- A service of the table behind, and the one it was.
before_try :
    {env : Env} {k : ℕ} {xs ys : List Service}
    → Tried env k xs ys
    → (i : ℕ) (u : Service) → get_elem? ys i ≡ some u
    → (s : Service) × (get_elem? xs i ≡ some s) × (u.dep_indices ≡ s.dep_indices)
before_try {env = env} {xs = xs} {ys = ys} tried i u h =
    let (s, g) =
      get_elem?-lt xs i (subst (λ n. i < n) (Tried-Kept tried).size (lt-length_of_get ys i u h)) in
    (
      s,
      g,
      elim (Tried-Started tried i s g) [
        | stays k ↦ ap (λ v. v.dep_indices) (some-injective u s (sym h ∙ k))
        | starts a b c k ↦
            ap (λ v. v.dep_indices) (some-injective u (launch env i s) (sym h ∙ k))
            ∙ launch-deps env i s
      ],
    )

module _ (env : Env) (n : ℕ) (g : Graph) where
  -- The hypotheses on the rest `l` of the order, `done` being the services that it has visited.
  record Rest (done l : List ℕ) (xs : List Service) : Type 0 where
    size : length xs ≡ n
    distinct : IsDistinct l
    ordered : IsOrdered n g done l
    apart : (d : ℕ) → elem d done ≡ true → elem d l ≡ false
    linked : IsLinked n g xs

  Rest-next :
      (k : ℕ) (done l : List ℕ) (xs ys : List Service)
      → Rest done (k ∷ l) xs
      → Tried env k xs ys
      → Rest (k ∷ done) l ys
  Rest-next k done l xs ys r tried = record {
    size = (Tried-Kept tried).size ∙ r.size;
    distinct = r.distinct.1;
    ordered = r.ordered.1;
    apart = λ d h. elim (ℕ_discrete k d) [
      | yes e ↦ subst (λ v. elem v l ≡ false) e r.distinct.0
      | no ne ↦ let away = r.apart d (ground arith) in ground arith
    ];
    linked = λ i u h d m lt.
        let (s, f, e) = before_try tried i u h in
        r.linked i s f d (subst (λ ds. elem d ds ≡ true) e m) lt;
  }

  -- The services that the rest of the order does not write.
  untouched_dep :
      (k : ℕ) (done l : List ℕ) (xs : List Service) (u : Service)
      → Rest done (k ∷ l) xs
      → get_elem? xs k ≡ some u
      → (d : ℕ) → elem d u.dep_indices ≡ true
      → get_elem? (start_order env l xs) d ≡ get_elem? xs d
  untouched_dep k done l xs u r h d m = elim (Option-cases (get_elem? xs d)) [
    | inl e ↦ past_end xs (start_order env l xs) d (start_order-Kept env l xs).size e ∙ sym e
    | inr (v, e) ↦
        let lt : d < n = subst (λ b. d < b) r.size (lt-length_of_get xs d v e) in
        let visited = r.ordered.0 d lt (r.linked k u h d m lt) in
        start_order-skip env l xs d (let away = r.apart d visited in ground arith)
  ]

  head_saturated :
      (k : ℕ) (done l : List ℕ) (xs ys : List Service) (u : Service)
      → Rest done (k ∷ l) xs
      → Tried env k xs ys
      → get_elem? xs k ≡ some u
      → get_elem? (start_order env l ys) k ≡ some u
      → u.state ≡ pending
      → is_due env u ≡ true
      → deps_met (start_order env l ys) u.dep_indices ≡ false
  head_saturated k done l xs ys u r (absent e) h f p due = absurd cc
  head_saturated k done l xs ys u r (waits t e c) h f p due =
      let was : t ≡ u = some-injective t u (sym e ∙ h) in
      let no_start : can_start env xs u ≡ false = subst (λ v. can_start env xs v ≡ false) was c in
      let is_pending : state_eq u.state pending ≡ true = ap (λ a. state_eq a pending) p in
      deps_met-same xs (start_order env l xs) u.dep_indices (untouched_dep k done l xs u r h)
      ∙ unmet is_pending due no_start
    where
      unmet : {a b c : Bool} → a ≡ true → b ≡ true → (a && (b && c)) ≡ false → c ≡ false
      unmet x y z = ground arith
  head_saturated k done l xs ys u r (launched t e c) h f p due =
      let here = set_here xs k t (launch env k t) e in
      absurd (
        launch_not_pending env k t (
          ap (λ v. v.state)
            (still_pending env l (set xs k (launch env k t)) k (launch env k t) u here f p)
          ∙ p))

  saturated :
      (l done : List ℕ) (xs : List Service)
      → Rest done l xs
      → (i : ℕ) → elem i l ≡ true
      → (u : Service) → get_elem? (start_order env l xs) i ≡ some u
      → u.state ≡ pending
      → is_due env u ≡ true
      → deps_met (start_order env l xs) u.dep_indices ≡ false
  unfolding start_order
  saturated [] done xs r i m u h p due = absurd cc
  saturated (k ∷ l) done xs r i m u h p due =
      let tried = try_start_decides env k xs in
      let rest =
        saturated l (k ∷ done) (try_start env k xs)
          (Rest-next k done l xs (try_start env k xs) r tried) in
      elim (ℕ_discrete k i) [
        | no ne ↦ rest i (ground arith) u h p due
        | yes e ↦
            let after = start_order env (k ∷ l) xs in
            let h_k : get_elem? after k ≡ some u =
              subst (λ j. get_elem? after j ≡ some u) (sym e) h in
            let bound =
              subst (λ b. k < b) (start_order-Kept env (k ∷ l) xs).size
                (lt-length_of_get after k u h_k) in
            let (s, f) = get_elem?-lt xs k bound in
            let was = still_pending env (k ∷ l) xs k s u f h_k p in
            head_saturated k done l xs (try_start env k xs) u r tried (f ∙ ap some was) h_k p due
      ]

settled-IsLinked :
    (env : Env) (signalled : List Bool) (n : ℕ) (g : Graph) (xs : List Service)
    → IsLinked n g xs
    → IsLinked n g (settle_all env signalled 0 xs)
settled-IsLinked env signalled n g xs linked i u h d m lt =
    let bound =
      subst (λ b. i < b) (settle_all-length env signalled 0 xs)
        (lt-length_of_get (settle_all env signalled 0 xs) i u h) in
    let (s, f) = get_elem?-lt xs i bound in
    let (b, e) = settle_state env signalled (0 + i) s in
    let built =
      some-injective u (record s { state = b })
        (sym h ∙ settle_all-get env signalled 0 xs i s f ∙ ap some e) in
    linked i s f d (subst (λ ds. elem d ds ≡ true) (ap (λ v. v.dep_indices) built) m) lt

-- For a table of at most 32 services whose graph has counted in-degrees and a topological order,
-- and whose dependency indices are edges of the graph, every service that supervisor_pump leaves
-- pending and due has a dependency that is neither running nor degraded: one pump starts all that
-- can be started. A dependency that is degraded counts as met, as in the code.
pub pump_saturates :
    (env : Env) (t : Table) (order : List ℕ)
    → length t.services ≤ max_count
    → IsCounted (length t.services) t.graph
    → IsTopo (length t.services) t.graph order
    → IsLinked (length t.services) t.graph t.services
    → (i : ℕ) (u : Service) → get_elem? (pump env t).services i ≡ some u
    → u.state ≡ pending
    → is_due env u ≡ true
    → deps_met (pump env t).services u.dep_indices ≡ false
unfolding pump
pump_saturates env t order fits counted topo linked i u =
    let n = length t.services in
    let settled = settle_all env t.signalled 0 t.services in
    elim (topo_sort_decides n t.graph (omega arith) counted max_count fits) [
      | inr (gone, none_fits) ↦ absurd (none_fits order topo)
      | inl (l, found, made) ↦ rw found (λ h p due.
          saturated env n t.graph l [] settled
            (record {
              size = settle_all-length env t.signalled 0 t.services;
              distinct = made.distinct;
              ordered = made.ordered;
              apart = λ d e. absurd cc;
              linked = settled-IsLinked env t.signalled n t.graph t.services linked;
            })
            i
            (made.total i (
              subst (λ b. i < b)
                ((start_order-Kept env l settled).size
                  ∙ settle_all-length env t.signalled 0 t.services)
                (lt-length_of_get (start_order env l settled) i u h)))
            u h p due)
    ]
