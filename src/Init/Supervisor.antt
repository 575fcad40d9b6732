-- ===== src/Init/Supervisor.antt =====
-- src/luna-init/supervisor.c: readiness, spawning, the pump, and the requests that start and stop a
-- service. What the kernel answers during one call is a record of the answers.
pub mod Moves
pub mod Exit
pub mod Ends
pub mod Child
pub mod Privileges
pub mod Reap
pub mod Stop
pub mod StartOne
pub mod Pump
pub mod Turn
pub mod Saturate
pub mod Boot
mod Tests
use mahina_os.Prelude.{
  ℕ, zero, suc, ◌+◌, Bool, true, false, ◌&&◌, ◌||◌, not, Option, none, some, List, [], ◌∷◌, ◌==◌,
  if◌then◌else◌, length, set, get_elem?, CString, str_eq, codes, ℤ, pos, negsuc, ◌-ℤ◌, ltb_ℤ,
}
use mahina_os.Init.Service.{
  State, pending, starting, running, degraded, stopping, stopped, failed, state_eq, ReadyMethod,
  ready_none, ready_file, ready_socket, ready_http, ready_signal, Service, max_count, service_find,
  find_pid_from,
}
use mahina_os.Init.Depgraph.{Graph, TopoResult, sorted, refused, out_of_fuel, topo_sort}

-- g_services with the tables of depgraph.c, and g_signal_ready.
pub record Table : Type 0 where
  pub services : List Service
  pub graph : Graph
  pub signalled : List Bool

-- The answers of the kernel during one pump, which visits each service at most once in each of its
-- two loops: now_ms() at the start, in supervisor_check_ready and in spawn_service, whether the file,
-- the socket or the server of a service answers, whether its binary is there, and its fork(), a
-- negative result being `none`.
pub record Env : Type 0 where
  pub now : ℤ
  pub check_time : ℕ → ℤ
  pub answers : ℕ → Bool
  pub has_binary : ℕ → Bool
  pub fork : ℕ → Option ℕ
  pub start_time : ℕ → ℤ

-- supervisor_signal_ready.
unfoldable pub signal_ready : List Service → List Bool → ℕ → List Bool
unfolding find_pid_from
signal_ready services signalled pid = elim (find_pid_from 0 pid services) [
  | none ↦ signalled
  | some i ↦ set signalled i true
]

abbrev pub flag_at : List Bool → ℕ → Bool
flag_at signalled i = elim (get_elem? signalled i) [ none ↦ false | some b ↦ b ]

-- The switch of supervisor_check_ready.
abbrev pub method_ready : Env → List Bool → ℕ → ReadyMethod → Bool
method_ready env signalled i ready_none = true
method_ready env signalled i ready_file = env.answers i
method_ready env signalled i ready_socket = env.answers i
method_ready env signalled i ready_http = env.answers i
method_ready env signalled i ready_signal = flag_at signalled i

-- supervisor_check_ready.
unfoldable pub check_ready : Env → List Bool → ℕ → Service → Bool
unfolding ◌-ℤ◌
check_ready env signalled i svc =
    if ltb_ℤ svc.ready_timeout_ms (env.check_time i -ℤ svc.start_time_ms)
    then false
    else method_ready env signalled i svc.ready_method

abbrev pub is_unchecked : ReadyMethod → Bool
is_unchecked ready_none = true
is_unchecked _ = false

-- The body of the first loop of supervisor_pump.
unfoldable pub settle : Env → List Bool → ℕ → Service → Service
unfolding check_ready
settle env signalled i svc =
    if not (state_eq svc.state starting)
    then svc
    else if is_unchecked svc.ready_method
    then record svc { state = running }
    else if check_ready env signalled i svc
    then record svc { state = running }
    else if not (ltb_ℤ (env.now -ℤ svc.start_time_ms) svc.ready_timeout_ms)
    then record svc { state = degraded }
    else svc

unfoldable pub settle_all : Env → List Bool → ℕ → List Service → List Service
unfolding settle
settle_all env signalled i [] = []
settle_all env signalled i (svc ∷ rest) =
    settle env signalled i svc ∷ settle_all env signalled (suc i) rest

-- The loop over dep_indices.
abbrev pub is_up : State → Bool
is_up s = state_eq s running || state_eq s degraded

abbrev pub dep_ok : List Service → ℕ → Bool
dep_ok services d = elim (get_elem? services d) [ none ↦ true | some dep ↦ is_up dep.state ]

abbrev pub deps_met : List Service → List ℕ → Bool
deps_met services [] = true
deps_met services (d ∷ rest) = dep_ok services d && deps_met services rest

-- The parent's part of spawn_service behind fork().
abbrev pub spawned_as : Env → ℕ → Service → ℕ → Service
spawned_as env i svc pid = record svc {
  pid = pid;
  state = starting;
  start_time_ms = env.start_time i;
}

-- spawn_service in the parent: the service, and the pid it returns, -1 being `none`.
unfoldable pub spawn_service : Env → ℕ → Service → Service × Option ℕ
spawn_service env i svc =
    if not (env.has_binary i)
    then (record svc { state = degraded }, none)
    else elim (env.fork i) [ none ↦ (svc, none) | some pid ↦ (spawned_as env i svc pid, some pid) ]

-- `if (can_start) { ... }` of supervisor_pump.
abbrev pub after_spawn : Service × Option ℕ → Service
after_spawn (svc, some pid) = svc
after_spawn (svc, none) =
    if not (state_eq svc.state degraded) then record svc { state = degraded } else svc

unfoldable pub launch : Env → ℕ → Service → Service
unfolding spawn_service
launch env i svc = after_spawn (spawn_service env i svc)

-- The body of the second loop of supervisor_pump.
abbrev pub is_due : Env → Service → Bool
is_due env svc = not (ltb_ℤ env.now svc.scheduled_start_ms)

abbrev pub can_start : Env → List Service → Service → Bool
can_start env services svc =
    state_eq svc.state pending && (is_due env svc && deps_met services svc.dep_indices)

unfoldable pub try_start : Env → ℕ → List Service → List Service
unfolding launch
try_start env i services = elim (get_elem? services i) [
  | none ↦ services
  | some svc ↦ if can_start env services svc then set services i (launch env i svc) else services
]

unfoldable pub start_order : Env → List ℕ → List Service → List Service
unfolding try_start
start_order env [] services = services
start_order env (i ∷ rest) services = start_order env rest (try_start env i services)

abbrev pub start_sorted : Env → TopoResult → List Service → List Service
start_sorted env (sorted order) services = start_order env order services
start_sorted env refused services = services
start_sorted env out_of_fuel services = services

-- supervisor_pump.
unfoldable pub pump : Env → Table → Table
unfolding settle_all topo_sort start_order
pump env t =
    let settled = settle_all env t.signalled 0 t.services in
    record t {
      services = start_sorted env (topo_sort (length t.services) t.graph max_count) settled;
    }

-- supervisor_is_boot_complete.
abbrev pub is_stopped_at : List Service → ℕ → Bool
is_stopped_at services d = elim (get_elem? services d) [
  | none ↦ false
  | some dep ↦ state_eq dep.state stopped
]

abbrev pub blocked_by_stopped : List Service → List ℕ → Bool
blocked_by_stopped services [] = false
blocked_by_stopped services (d ∷ rest) =
    is_stopped_at services d || blocked_by_stopped services rest

abbrev pub holds_boot : List Service → Service → Bool
holds_boot services svc =
    (state_eq svc.state pending || state_eq svc.state starting)
    && not (blocked_by_stopped services svc.dep_indices)

unfoldable pub boot_complete_from : List Service → List Service → Bool
boot_complete_from services [] = true
boot_complete_from services (svc ∷ rest) =
    let later = boot_complete_from services rest in if holds_boot services svc then false else later

unfoldable pub is_boot_complete : List Service → Bool
unfolding boot_complete_from
is_boot_complete services = boot_complete_from services services

-- The loop of supervisor_start_all, and supervisor_start_all.
abbrev pub prepare : Service → Service
prepare svc =
    let timed = record svc { scheduled_start_ms = pos 0 } in
    if str_eq svc.name (codes "lgp-compositor")
    then record timed { state = stopped }
    else if not (state_eq svc.state degraded)
    then record timed { state = pending }
    else timed

unfoldable pub prepare_all : List Service → List Service
prepare_all [] = []
prepare_all (svc ∷ rest) = prepare svc ∷ prepare_all rest

unfoldable pub start_all : Env → Table → Table
unfolding prepare_all pump
start_all env t = pump env (record t { services = prepare_all t.services })
