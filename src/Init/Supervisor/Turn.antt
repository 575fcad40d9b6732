-- ===== src/Init/Supervisor/Turn.antt =====
-- One turn of supervisor_pump of src/luna-init/supervisor.c, for each service of the table.
use mathlib.Core.Option.{some-injective}
use mahina_os.Prelude.{
  ℕ, zero, suc, ◌+◌, ◌≡◌, ◌≢◌, refl, sym, subst, ap, ◌∙◌, Bool, true, not, some, List, [], ◌∷◌,
  get_elem?, length, ltb_ℤ, inl, inr, arith,
}
use mahina_os.Init.Service.{State, pending, starting, running, degraded, Service, max_count}
use mahina_os.Init.Depgraph.{TopoResult, sorted, refused, out_of_fuel, topo_sort}
use mahina_os.Init.Supervisor.{
  Table, Env, settle, settle_all, deps_met, is_due, launch, start_sorted, pump,
}
use mahina_os.Init.Supervisor.Moves.{launch_state, Checked, settle-Checked}
use mahina_os.Init.Supervisor.Pump.{Started, stays, starts, start_order-Started}
use mahina_os.Init.Supervisor.Moves.{untouched, ready, timed_out}

pub settle_all-get :
    (env : Env) (signalled : List Bool) (k : ℕ) (xs : List Service) (i : ℕ) (s : Service)
    → get_elem? xs i ≡ some s
    → get_elem? (settle_all env signalled k xs) i ≡ some (settle env signalled (k + i) s)
unfolding settle_all
settle_all-get env signalled k [] i s h = cc
settle_all-get env signalled k (x ∷ xs) zero s h =
    let e : k ≡ k + 0 = omega arith in
    subst (λ j. some (settle env signalled k x) ≡ some (settle env signalled j s)) e
      (ap (λ t. some (settle env signalled k t)) (some-injective x s h))
settle_all-get env signalled k (x ∷ xs) (suc i) s h =
    let e : suc k + i ≡ k + suc i = omega arith in
    subst (λ j. get_elem? (settle_all env signalled (suc k) xs) i ≡ some (settle env signalled j s))
      e (settle_all-get env signalled (suc k) xs i s h)

pub settle_all-length :
    (env : Env) (signalled : List Bool) (k : ℕ) (xs : List Service)
    → length (settle_all env signalled k xs) ≡ length xs
unfolding settle_all
settle_all-length env signalled k [] = refl
settle_all-length env signalled k (x ∷ xs) = ap suc (settle_all-length env signalled (suc k) xs)

start_sorted-Started :
    (env : Env) (r : TopoResult) (xs : List Service) (i : ℕ) (s : Service)
    → get_elem? xs i ≡ some s
    → Started env i s (start_sorted env r xs)
start_sorted-Started env (sorted l) xs i s h = start_order-Started env l xs i s h
start_sorted-Started env refused xs i s h = stays h
start_sorted-Started env out_of_fuel xs i s h = stays h

pub pump-Started :
    (env : Env) (t : Table) (i : ℕ) (s : Service)
    → get_elem? t.services i ≡ some s
    → Started env i (settle env t.signalled i s) (pump env t).services
unfolding pump
pump-Started env t i s h =
    start_sorted-Started env (topo_sort (length t.services) t.graph max_count)
      (settle_all env t.signalled 0 t.services) i (settle env t.signalled i s)
      (subst
        (λ j.
          get_elem? (settle_all env t.signalled 0 t.services) i ≡ some (settle env t.signalled j s))
        (omega arith) (settle_all-get env t.signalled 0 t.services i s h))

-- The state changes that one pump makes.
pub data Edge : State → State → Type 0 where
  same : {a : State} → Edge a a
  readied : Edge starting running
  expired : Edge starting degraded
  spawned : Edge pending starting
  unspawned : Edge pending degraded

Checked→Edge : {a b : State} → Checked a b → Edge a b
Checked→Edge untouched = same
Checked→Edge ready = readied
Checked→Edge timed_out = expired

-- A service that the checks leave pending was pending.
Checked-pending : {a : State} → Checked a pending → a ≡ pending
Checked-pending untouched = refl

launch-Edge : (env : Env) (i : ℕ) (s : Service) → Edge pending (launch env i s).state
launch-Edge env i s = elim (launch_state env i s) [
  | inl e ↦ subst (Edge pending) (sym (ap (λ t. t.state) e)) unspawned
  | inr (pid, g, e) ↦ subst (Edge pending) (sym (ap (λ t. t.state) e)) spawned
]

-- One supervisor_pump moves a service only from STARTING to RUNNING or DEGRADED, or from PENDING to
-- STARTING or DEGRADED, and leaves every other state.
pub pump_edges :
    (env : Env) (t : Table) (i : ℕ) (s : Service)
    → get_elem? t.services i ≡ some s
    → (u : Service) × (get_elem? (pump env t).services i ≡ some u) × Edge s.state u.state
pump_edges env t i s h =
    let settled = settle env t.signalled i s in
    let checked = settle-Checked env t.signalled i s in
    elim (pump-Started env t i s h) [
      | stays g ↦ (settled, g, Checked→Edge checked)
      | starts p due met g ↦
          let was = Checked-pending (subst (Checked s.state) p checked) in
          (
            launch env i settled,
            g,
            subst (λ a. Edge a (launch env i settled).state) (sym was) (launch-Edge env i settled),
          )
    ]

Checked-starting : {a : State} → Checked a starting → a ≡ starting
Checked-starting untouched = refl

-- A service that supervisor_pump brings into the state STARTING is due, has the pid of its fork,
-- and all its dependencies in the table are RUNNING or DEGRADED after the pump.
pub pump_starts_after_deps :
    (env : Env) (t : Table) (i : ℕ) (s u : Service)
    → get_elem? t.services i ≡ some s
    → get_elem? (pump env t).services i ≡ some u
    → s.state ≢ starting
    → u.state ≡ starting
    → (deps_met (pump env t).services u.dep_indices ≡ true)
      × (is_due env u ≡ true)
      × (env.fork i ≡ some u.pid)
pump_starts_after_deps env t i s u h g was now_starting =
    let settled = settle env t.signalled i s in
    elim (pump-Started env t i s h) [
      | stays k ↦
          let same_u : settled ≡ u = some-injective settled u (sym k ∙ g) in
          let checked = settle-Checked env t.signalled i s in
          absurd (
            was (
              Checked-starting
                (subst (Checked s.state) (ap (λ v. v.state) same_u ∙ now_starting) checked)))
      | starts p due met k ↦
          let same_u : launch env i settled ≡ u =
            some-injective (launch env i settled) u (sym k ∙ g) in
          elim (launch_state env i settled) [
            | inl e ↦
                let f : degraded ≡ starting =
                  sym (ap (λ v. v.state) e) ∙ ap (λ v. v.state) same_u ∙ now_starting in
                absurd cc
            | inr (pid, forked, e) ↦
                let built = sym e ∙ same_u in
                (
                  subst (λ ds. deps_met (pump env t).services ds ≡ true)
                      (ap (λ v. v.dep_indices) built) met,
                  subst (λ at. not (ltb_ℤ env.now at) ≡ true) (ap (λ v. v.scheduled_start_ms) built)
                      due,
                  forked ∙ ap (λ v. some v.pid) built,
                )
          ]
    ]
