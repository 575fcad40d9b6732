-- ===== src/Init/Service.antt =====
-- The service table of src/luna-init/service.h and the lookups of service.c.
use mahina_os.Prelude.{
  ℕ, suc, Bool, true, false, Option, none, some, List, [], ◌∷◌, ◌==◌, if◌then◌else◌, CString,
  str_eq, codes, ℤ,
}

-- service_state_t
pub data State : Type 0 where
  pending starting running degraded stopping stopped failed : State

-- restart_policy_t
pub data RestartPolicy : Type 0 where
  never always on_failure : RestartPolicy

-- ready_method_t
pub data ReadyMethod : Type 0 where
  ready_none ready_file ready_socket ready_http ready_signal : ReadyMethod

pub State-discrete : Discrete State
State-discrete = hlevel

abbrev pub state_eq : State → State → Bool
state_eq pending pending = true
state_eq starting starting = true
state_eq running running = true
state_eq degraded degraded = true
state_eq stopping stopping = true
state_eq stopped stopped = true
state_eq failed failed = true
state_eq _ _ = false

-- SERVICE_MAX_COUNT, SERVICE_MAX_DEPS, SERVICE_MAX_ARGS and SERVICE_MAX_ENV_VARS.
abbrev pub max_count : ℕ
max_count = 32

abbrev pub max_deps : ℕ
max_deps = 8

abbrev pub max_args : ℕ
max_args = 16

abbrev pub max_env_vars : ℕ
max_env_vars = 8

-- service_t. A field `char a[N][M]` is the list of the entries that were written, beside its own
-- count; `dep_indices` has its count `dep_count` as its length, and so has `env`.
pub record Service : Type 0 where
  pub name : CString
  pub binary : CString
  pub description : CString
  pub args : List CString
  pub arg_count : ℕ
  pub workdir : CString
  pub env : List (CString × CString)
  pub run_user : CString
  pub run_group : CString
  pub after : List CString
  pub after_count : ℕ
  pub before : List CString
  pub before_count : ℕ
  pub restart_policy : RestartPolicy
  pub restart_attempts : ℤ
  pub restart_delay_ms : ℤ
  pub ready_method : ReadyMethod
  pub ready_path : CString
  pub ready_timeout_ms : ℤ
  pub stop_signal : ℕ
  pub stop_timeout_ms : ℤ
  pub state : State
  pub pid : ℕ
  pub restart_count : ℕ
  pub start_time_ms : ℤ
  pub stop_time_ms : ℤ
  pub scheduled_start_ms : ℤ
  pub dep_indices : List ℕ

-- service_find: the index of the pointer that it returns, counted from `i`.
unfoldable pub find_from : ℕ → CString → List Service → Option ℕ
find_from i name [] = none
find_from i name (s ∷ rest) =
    let later = find_from (suc i) name rest in if str_eq s.name name then some i else later

unfoldable pub service_find : List Service → CString → Option ℕ
unfolding find_from
service_find services name = find_from 0 name services

unfoldable pub find_pid_from : ℕ → ℕ → List Service → Option ℕ
find_pid_from i pid [] = none
find_pid_from i pid (s ∷ rest) =
    let later = find_pid_from (suc i) pid rest in if s.pid == pid then some i else later

-- service_find_by_pid. A pid is not negative here, so `pid <= 0` is `pid == 0`.
unfoldable pub service_find_by_pid : List Service → ℕ → Option ℕ
unfolding find_pid_from
service_find_by_pid services pid = if pid == 0 then none else find_pid_from 0 pid services

-- parse_restart_policy, parse_ready_method and parse_signal_name, over the numbers of Linux.
unfoldable pub parse_restart_policy : CString → RestartPolicy
parse_restart_policy s =
    if str_eq s (codes "always")
    then always
    else if str_eq s (codes "on-failure")
    then on_failure
    else never

unfoldable pub parse_ready_method : CString → ReadyMethod
parse_ready_method s =
    if str_eq s (codes "file")
    then ready_file
    else if str_eq s (codes "socket")
    then ready_socket
    else if str_eq s (codes "http")
    then ready_http
    else if str_eq s (codes "signal")
    then ready_signal
    else ready_none

unfoldable pub parse_signal_name : CString → ℕ
parse_signal_name s =
    if str_eq s (codes "SIGTERM")
    then 15
    else if str_eq s (codes "SIGKILL")
    then 9
    else if str_eq s (codes "SIGHUP")
    then 1
    else if str_eq s (codes "SIGQUIT")
    then 3
    else 15

-- service_state_name.
unfoldable pub state_name : State → CString
state_name pending = codes "PENDING"
state_name starting = codes "STARTING"
state_name running = codes "RUNNING"
state_name degraded = codes "DEGRADED"
state_name stopping = codes "STOPPING"
state_name stopped = codes "STOPPED"
state_name failed = codes "FAILED"
