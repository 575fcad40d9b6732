-- ===== src/Init/Supervisor/Exit.antt =====
-- reaper_on_exit of src/luna-init/supervisor.c: the restart policy, and how often it restarts.
use mahina_os.Prelude.{
  ℕ, zero, suc, ◌+◌, ◌≡◌, refl, Bool, true, false, ◌||◌, not, Option, none, some, List, ◌==◌,
  if◌then◌else◌, leb, inl, inr, set, get_elem?, ℤ, pos, negsuc, pos_part, ◌+ℤ◌, ltb_ℤ, arith,
  Bool-cases,
}
use mahina_os.Init.Service.{
  pending, degraded, stopping, stopped, state_eq, RestartPolicy, never, always, on_failure, Service,
  service_find_by_pid,
}
use mahina_os.Init.Supervisor.{Env, settle, launch}

-- The switch on restart_policy. `failure` is `exit_code != 0 || by_signal`.
abbrev pub should_restart : RestartPolicy → Bool → Bool
should_restart always failure = true
should_restart on_failure failure = failure
should_restart never failure = false

abbrev pub is_not_zero : ℤ → Bool
is_not_zero (pos n) = not (n == 0)
is_not_zero (negsuc n) = true

-- The part of reaper_on_exit behind the lookup: `now` and `later` are its two readings of now_ms().
unfoldable pub exited : ℤ → ℤ → ℤ → Bool → Service → Service
unfolding ◌+ℤ◌
exited now later exit_code by_signal svc =
    let gone = record svc { pid = 0; stop_time_ms = now } in
    if state_eq svc.state stopping || state_eq svc.state stopped
    then record gone { state = stopped }
    else if not (should_restart svc.restart_policy (is_not_zero exit_code || by_signal))
    then record gone { state = stopped }
    else (let counted = record gone { restart_count = suc svc.restart_count } in
        if ltb_ℤ svc.restart_attempts (pos (suc svc.restart_count))
        then record counted { state = degraded }
        else record counted { state = pending; scheduled_start_ms = later +ℤ svc.restart_delay_ms })

-- The part of reaper_on_exit behind the lookup.
abbrev pub exit_found : ℤ → ℤ → ℤ → Bool → List Service → Option ℕ → List Service
exit_found now later exit_code by_signal services none = services
exit_found now later exit_code by_signal services (some i) = elim (get_elem? services i) [
  | none ↦ services
  | some svc ↦ set services i (exited now later exit_code by_signal svc)
]

-- reaper_on_exit.
unfoldable pub on_exit : ℤ → ℤ → List Service → ℕ → ℤ → Bool → List Service
unfolding service_find_by_pid exited
on_exit now later services pid exit_code by_signal =
    exit_found now later exit_code by_signal services (service_find_by_pid services pid)

-- Which exits a policy restarts: none, each, or each but a return of 0.
abbrev pub wants_restart : RestartPolicy → ℤ → Bool → Bool
wants_restart never exit_code by_signal = false
wants_restart always exit_code by_signal = true
wants_restart on_failure (pos zero) by_signal = by_signal
wants_restart on_failure (pos (suc n)) by_signal = true
wants_restart on_failure (negsuc n) by_signal = true

pub should_restart-wants :
    (policy : RestartPolicy) (exit_code : ℤ) (by_signal : Bool)
    → should_restart policy (is_not_zero exit_code || by_signal)
      ≡ wants_restart policy exit_code by_signal
should_restart-wants never exit_code by_signal = refl
should_restart-wants always exit_code by_signal = refl
should_restart-wants on_failure (pos zero) by_signal = refl
should_restart-wants on_failure (pos (suc n)) by_signal = ground arith
should_restart-wants on_failure (negsuc n) by_signal = refl

-- After the exit of a service its pid is 0, and it is STOPPED if it was being stopped or its policy
-- wants no restart, PENDING with one more restart counted if its attempts allow that, and DEGRADED
-- otherwise.
pub exited_outcome :
    (now later exit_code : ℤ) (by_signal : Bool) (svc : Service)
    → let t = exited now later exit_code by_signal svc in
      let stopping_it = state_eq svc.state stopping || state_eq svc.state stopped in
      let wanted = wants_restart svc.restart_policy exit_code by_signal in
      let left = leb (suc svc.restart_count) (pos_part svc.restart_attempts) in
      (t.pid ≡ 0)
      × (t.state
          ≡ (if stopping_it || not wanted then stopped else if left then pending else degraded))
      × (t.restart_count
          ≡ (if stopping_it || not wanted then svc.restart_count else suc svc.restart_count))
unfolding exited
exited_outcome now later exit_code by_signal svc =
    elim (Bool-cases (state_eq svc.state stopping || state_eq svc.state stopped)) [
      | inl e ↦ rw e (refl, refl, refl)
      | inr e ↦
          let same = should_restart-wants svc.restart_policy exit_code by_signal in
          elim (Bool-cases (wants_restart svc.restart_policy exit_code by_signal)) [
            | inr f ↦ rw (same, e, f) (refl, refl, refl)
            | inl f ↦ elim (Bool-cases (ltb_ℤ svc.restart_attempts (pos (suc svc.restart_count)))) [
              | inl g ↦
                  let none_left : leb (suc svc.restart_count) (pos_part svc.restart_attempts)
                      ≡ false =
                    over svc.restart_attempts svc.restart_count g in
                  rw (same, e, f, g, none_left) (refl, refl, refl)
              | inr g ↦
                  let some_left : leb (suc svc.restart_count) (pos_part svc.restart_attempts)
                      ≡ true =
                    within svc.restart_attempts svc.restart_count g in
                  rw (same, e, f, g, some_left) (refl, refl, refl)
            ]
          ]
    ]
  where
    over : (a : ℤ) (c : ℕ) → ltb_ℤ a (pos (suc c)) ≡ true → leb (suc c) (pos_part a) ≡ false
    over (pos a) c h = ground arith
    over (negsuc a) c h = ground arith

    within : (a : ℤ) (c : ℕ) → ltb_ℤ a (pos (suc c)) ≡ false → leb (suc c) (pos_part a) ≡ true
    within (pos a) c h = ground arith
    within (negsuc a) c h = ground arith

-- The life of service `i` from a start on, and how often its exits have made it pending again.
pub data Life (i : ℕ) (s : Service) : ℕ → Service → Type 0 where
  born : Life i s 0 s
  settles :
      {n : ℕ} {t : Service} (env : Env) (signalled : List Bool)
      → Life i s n t
      → Life i s n (settle env signalled i t)
  launches : {n : ℕ} {t : Service} (env : Env) → Life i s n t → Life i s n (launch env i t)
  ends :
      {n : ℕ} {t : Service} (now later exit_code : ℤ) (by_signal : Bool)
      → Life i s n t
      → Life i s
          (n + (if state_eq (exited now later exit_code by_signal t).state pending then 1 else 0))
          (exited now later exit_code by_signal t)
