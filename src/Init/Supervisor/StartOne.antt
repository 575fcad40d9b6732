-- ===== src/Init/Supervisor/StartOne.antt =====
-- supervisor_start_one of src/luna-init/supervisor.c.
use mahina_os.Prelude.{
  ℕ, ◌≡◌, refl, sym, subst, ap, ◌∙◌, Bool, true, false, not, ◌||◌, Option, none, some,
  if◌then◌else◌, get_elem?, set, CString, pos, List,
}
use mahina_os.Init.Service.{
  State, pending, starting, running, degraded, failed, state_eq, Service, service_find,
}
use mahina_os.Init.Supervisor.{Table, Env, pump}
use mahina_os.Init.Supervisor.Pump.{set_here}
use mahina_os.Init.Supervisor.Turn.{Edge, same, spawned, unspawned, pump_edges}

abbrev pub is_active : State → Bool
is_active a = state_eq a running || state_eq a starting

abbrev pub fresh : Service → Service
fresh svc = record svc { state = pending; restart_count = 0; scheduled_start_ms = pos 0 }

-- The return value behind the pump, 0 being `true` and -1 `false`.
abbrev pub is_started : List Service → ℕ → Bool
is_started services i = elim (get_elem? services i) [
  | none ↦ true
  | some svc ↦ not (state_eq svc.state degraded || state_eq svc.state failed)
]

abbrev pub start_at : Env → Table → ℕ → Service → Table × Bool
start_at env t i svc =
    if is_active svc.state
    then (t, true)
    else (let pumped = pump env (record t { services = set t.services i (fresh svc) }) in
        (pumped, is_started pumped.services i))

abbrev pub start_found : Env → Table → Option ℕ → Table × Bool
start_found env t none = (t, false)
start_found env t (some i) = elim (get_elem? t.services i) [
  | none ↦ (t, false)
  | some svc ↦ start_at env t i svc
]

-- supervisor_start_one.
unfoldable pub start_one : Env → Table → CString → Table × Bool
unfolding service_find pump
start_one env t name = start_found env t (service_find t.services name)

from_pending :
    {a : State} → Edge pending a → (state_eq a degraded || state_eq a failed) ≡ state_eq a degraded
from_pending same = refl
from_pending spawned = refl
from_pending unspawned = refl

start_at-idle :
    (env : Env) (t : Table) (i : ℕ) (svc : Service)
    → get_elem? t.services i ≡ some svc
    → is_active svc.state ≡ false
    → let (n, code) = start_at env t i svc in
      (u : Service) × (get_elem? n.services i ≡ some u)
      × Edge pending u.state
      × (code ≡ not (state_eq u.state degraded))
start_at-idle env t i svc got idle =
    let begun = record t { services = set t.services i (fresh svc) } in
    let (u, g, edge) =
      pump_edges env begun i (fresh svc) (set_here t.services i svc (fresh svc) got) in
    let code : is_started (pump env begun).services i ≡ not (state_eq u.state degraded) =
      rw (g, is_started) (ap not (from_pending edge)) in
    rw idle (u, g, edge, code)

-- For a service that is neither RUNNING nor STARTING, supervisor_start_one leaves it PENDING,
-- STARTING or DEGRADED, and returns -1 exactly when it is DEGRADED: it returns 0 for a service that
-- is left PENDING without a process, too.
pub start_one_outcome :
    (env : Env) (t : Table) (name : CString) (i : ℕ) (svc : Service)
    → service_find t.services name ≡ some i
    → get_elem? t.services i ≡ some svc
    → is_active svc.state ≡ false
    → let (n, code) = start_one env t name in
      (u : Service) × (get_elem? n.services i ≡ some u)
      × Edge pending u.state
      × (code ≡ not (state_eq u.state degraded))
unfolding start_one
start_one_outcome env t name i svc found got idle =
    let here : start_found env t (some i) ≡ start_at env t i svc = rw (got, start_found) refl in
    let run : start_found env t (service_find t.services name) ≡ start_at env t i svc =
      ap (start_found env t) found ∙ here in
    subst
      (λ (r : Table × Bool).
        (u : Service) × (get_elem? r.0.services i ≡ some u)
        × Edge pending u.state
        × (r.1 ≡ not (state_eq u.state degraded)))
      (sym run) (start_at-idle env t i svc got idle)
