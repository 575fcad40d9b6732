-- ===== src/Init/Supervisor/Moves.antt =====
-- What one service goes through in supervisor_pump of src/luna-init/supervisor.c.
use mahina_os.Prelude.{
  ℕ, ◌≡◌, refl, sym, subst, ap, ◌∙◌, Bool, true, none, some, List, ltb_ℤ, ◌-ℤ◌, ◌⊎◌, inl, inr,
  Bool-cases, Option-cases, arith,
}
use mahina_os.Init.Service.{State, starting, running, degraded, state_eq, Service}
use mahina_os.Init.Supervisor.{
  Env, is_unchecked, check_ready, settle, spawn_service, after_spawn, launch,
}

-- Only the state of a service is written while it is checked.
pub settle_state :
    (env : Env) (signalled : List Bool) (i : ℕ) (svc : Service)
    → (b : State) × (settle env signalled i svc ≡ record svc { state = b })
unfolding settle
settle_state env signalled i svc = elim (Bool-cases (state_eq svc.state starting)) [
  | inr e ↦ (svc.state, rw e refl)
  | inl e ↦ elim (Bool-cases (is_unchecked svc.ready_method)) [
    | inl f ↦ (running, rw (e, f) refl)
    | inr f ↦ elim (Bool-cases (check_ready env signalled i svc)) [
      | inl g ↦ (running, rw (e, f, g) refl)
      | inr g ↦ elim (Bool-cases (ltb_ℤ (env.now -ℤ svc.start_time_ms) svc.ready_timeout_ms)) [
        | inl h ↦ (svc.state, rw (e, f, g, h) refl)
        | inr h ↦ (degraded, rw (e, f, g, h) refl)
      ]
    ]
  ]
]

not_spawned : (svc : Service) → after_spawn (svc, none) ≡ record svc { state = degraded }
not_spawned svc = elim (Bool-cases (state_eq svc.state degraded)) [
  | inl e ↦
      let p : svc.state ≡ degraded = is_degraded svc.state e in
      (rw e refl ∙ (λ k. record svc { state = p k }))
  | inr e ↦ rw e refl
]
  where
    is_degraded : (s : State) → state_eq s degraded ≡ true → s ≡ degraded
    is_degraded s h = ground arith

-- A launch ends in a degraded service, or in one that is starting under the pid of its fork.
pub launch_state :
    (env : Env) (i : ℕ) (svc : Service)
    → (launch env i svc ≡ record svc { state = degraded })
      ⊎ ((pid : ℕ) × (env.fork i ≡ some pid)
          × (launch env i svc
              ≡ record svc { pid = pid; state = starting; start_time_ms = env.start_time i }))
unfolding launch
launch_state env i svc = elim (Bool-cases (env.has_binary i)) [
  | inr e ↦ inl (rw e refl)
  | inl e ↦ elim (Option-cases (env.fork i)) [
    | inr (pid, f) ↦
        let t = record svc { pid = pid; state = starting; start_time_ms = env.start_time i } in
        let same : spawn_service env i svc ≡ (t, some pid) = rw (e, f) refl in
        inr (pid, f, ap after_spawn same)
    | inl f ↦
        let same : spawn_service env i svc ≡ (svc, none) = rw (e, f) refl in
        inl (ap after_spawn same ∙ not_spawned svc)
  ]
]

-- The state of a service after the checks, by the state that it had.
pub data Checked : State → State → Type 0 where
  untouched : {a : State} → Checked a a
  ready : Checked starting running
  timed_out : Checked starting degraded

pub settle-Checked :
    (env : Env) (signalled : List Bool) (i : ℕ) (svc : Service)
    → Checked svc.state (settle env signalled i svc).state
unfolding settle
settle-Checked env signalled i svc = elim (Bool-cases (state_eq svc.state starting)) [
  | inr e ↦ rw e untouched
  | inl e ↦
      let was : starting ≡ svc.state = sym (is_starting svc.state e) in
      elim (Bool-cases (is_unchecked svc.ready_method)) [
        | inl f ↦ rw (e, f) (subst (λ a. Checked a running) was ready)
        | inr f ↦ elim (Bool-cases (check_ready env signalled i svc)) [
          | inl g ↦ rw (e, f, g) (subst (λ a. Checked a running) was ready)
          | inr g ↦ elim (Bool-cases (ltb_ℤ (env.now -ℤ svc.start_time_ms) svc.ready_timeout_ms)) [
            | inl h ↦ rw (e, f, g, h) untouched
            | inr h ↦ rw (e, f, g, h) (subst (λ a. Checked a degraded) was timed_out)
          ]
        ]
      ]
]
  where
    is_starting : (s : State) → state_eq s starting ≡ true → s ≡ starting
    is_starting s h = ground arith
