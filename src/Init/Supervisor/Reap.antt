-- ===== src/Init/Supervisor/Reap.antt =====
-- reaper_reap_all of src/luna-init/reaper.c over reaper_on_exit of src/luna-init/supervisor.c.
use mathlib.Core.Option.{some-injective}
use mahina_os.Prelude.{
  ℕ, suc, ◌+◌, ◌≡◌, ◌≢◌, ◌∙◌, refl, sym, subst, ap, Bool, true, false, ◌&&◌, Option, none, some,
  List, [], ◌∷◌, ◌==◌, if◌then◌else◌, ltb, length, get_elem?, get_elem?-set, elem, ℤ, pos,
  Bool-cases, Option-cases, ℕ_discrete, inl, inr, arith,
}
use mahina_os.Init.Service.{Service, find_pid_from, service_find_by_pid}
use mahina_os.Init.Supervisor.Exit.{exited, exit_found, on_exit}

-- What a wait status says: WIFEXITED with its code, WIFSIGNALED with its signal, or neither.
pub data WaitStatus : Type 0 where
  exit_status signal_status : ℕ → WaitStatus
  other_status : WaitStatus

-- One answer of waitpid(-1, _, WNOHANG) above 0, with the two readings of now_ms() in
-- reaper_on_exit.
pub record Reaped : Type 0 where
  pub pid : ℕ
  pub status : WaitStatus
  pub now : ℤ
  pub later : ℤ

-- The body of the loop.
abbrev pub reap_with : Reaped → WaitStatus → List Service → List Service
reap_with r (exit_status code) services = on_exit r.now r.later services r.pid (pos code) false
reap_with r (signal_status sig) services = on_exit r.now r.later services r.pid (pos sig) true
reap_with r other_status services = services

-- reaper_reap_all: the answers of waitpid until one is 0 or -1.
unfoldable pub reap_all : List Reaped → List Service → List Service
unfolding on_exit
reap_all [] services = services
reap_all (r ∷ rest) services = reap_all rest (reap_with r r.status services)

-- The service that a pid finds has that pid.
find_pid_from-has :
    (k pid : ℕ) (xs : List Service) (i : ℕ)
    → find_pid_from k pid xs ≡ some i
    → (j : ℕ) × (s : Service) × (i ≡ k + j) × (get_elem? xs j ≡ some s) × (s.pid ≡ pid)
unfolding find_pid_from
find_pid_from-has k pid [] i h = cc
find_pid_from-has k pid (x ∷ xs) i h = elim (Bool-cases (x.pid == pid)) [
  | inl e ↦ (0, x, sym (some-injective k i (rw e at h)) ∙ omega arith, refl, ground arith)
  | inr e ↦
      let (j, s, at, got, has) = find_pid_from-has (suc k) pid xs i (rw e at h) in
      (suc j, s, omega arith, got, has)
]

find_by_pid-has :
    (pid : ℕ) (xs : List Service) (i : ℕ) (s : Service)
    → service_find_by_pid xs pid ≡ some i
    → get_elem? xs i ≡ some s
    → s.pid ≡ pid
unfolding service_find_by_pid
find_by_pid-has pid xs i s h got = elim (Bool-cases (pid == 0)) [
  | inl e ↦ absurd (let x = rw e at h in cc)
  | inr e ↦
      let (j, t, at, found, has) = find_pid_from-has 0 pid xs i (rw e at h) in
      let same : i ≡ j = omega arith in
      let here : get_elem? xs i ≡ some t = subst (λ k. get_elem? xs k ≡ some t) (sym same) found in
      ap (λ v. v.pid) (some-injective s t (sym got ∙ here)) ∙ has
]

exit_found-others :
    (now later exit_code : ℤ) (by_signal : Bool) (services : List Service) (pid : ℕ) (o : Option ℕ)
    → service_find_by_pid services pid ≡ o
    → (i : ℕ) (s : Service) → get_elem? services i ≡ some s
    → s.pid ≢ pid
    → get_elem? (exit_found now later exit_code by_signal services o) i ≡ some s
exit_found-others now later exit_code by_signal services pid none e i s got ne = got
exit_found-others now later exit_code by_signal services pid (some k) e i s got ne =
    elim (Option-cases (get_elem? services k)) [
      | inl f ↦ rw (f, exit_found) got
      | inr (t, f) ↦ elim (ℕ_discrete k i) [
        | yes same ↦ absurd (
            ne (
              find_by_pid-has pid services k s e
                (subst (λ j. get_elem? services j ≡ some s) (sym same) got)))
        | no away ↦
            rw (f, exit_found)
              (get_elem?-set services k i (exited now later exit_code by_signal t)
                ∙ miss (some (exited now later exit_code by_signal t)) (ltb k (length services))
                    away
                ∙ got)
      ]
    ]
  where
    miss :
        (v : Option Service) (b : Bool)
        → k ≢ i
        → (if b && (k == i) then v else get_elem? services i) ≡ get_elem? services i
    miss v b away = ground arith

on_exit-others :
    (now later exit_code : ℤ) (by_signal : Bool) (services : List Service) (pid i : ℕ) (s : Service)
    → get_elem? services i ≡ some s
    → s.pid ≢ pid
    → get_elem? (on_exit now later services pid exit_code by_signal) i ≡ some s
unfolding on_exit
on_exit-others now later exit_code by_signal services pid i s got ne =
    exit_found-others now later exit_code by_signal services pid (service_find_by_pid services pid)
      refl i s got ne

-- The pids of the answers.
abbrev pub pids : List Reaped → List ℕ
pids [] = []
pids (r ∷ rest) = r.pid ∷ pids rest

-- reaper_reap_all leaves a service alone whose pid is none of those that waitpid returned.
pub reap_all_others :
    (answers : List Reaped) (services : List Service) (i : ℕ) (s : Service)
    → get_elem? services i ≡ some s
    → elem s.pid (pids answers) ≡ false
    → get_elem? (reap_all answers services) i ≡ some s
unfolding reap_all
reap_all_others [] services i s got out = got
reap_all_others (r ∷ rest) services i s got out =
    reap_all_others rest (reap_with r r.status services) i s
      (one r.status (λ e. absurd (let t : (r.pid == s.pid) ≡ true = ground arith in ground arith)))
      (ground arith)
  where
    one : (w : WaitStatus) → s.pid ≢ r.pid → get_elem? (reap_with r w services) i ≡ some s
    one (exit_status code) ne =
        on_exit-others r.now r.later (pos code) false services r.pid i s got ne
    one (signal_status sig) ne =
        on_exit-others r.now r.later (pos sig) true services r.pid i s got ne
    one other_status ne = got
