-- ===== src/Init/Supervisor/Tests.antt =====
-- Runs of src/luna-init/supervisor.c, and the theorems at concrete inputs.
use mathlib.Core.Option.{some-injective}
use mahina_os.Prelude.{
  ◌++◌, ℕ, zero, suc, ◌+◌, ◌*◌, ◌≡◌, refl, subst, sym, ◌==◌, not, if◌then◌else◌, Bool, true, false,
  some, List, [], ◌∷◌, get_elem?, elem, codes, ℤ, pos, arith,
}
use mahina_os.Init.Sample.{blank_service, arrow, arrow-IsCounted}
use mahina_os.Init.Service.{
  Service, pending, starting, running, degraded, stopped, state_eq, ready_file,
}
use mahina_os.Init.Depgraph.Topo.{IsTopo}
use mahina_os.Init.Supervisor.{Table, Env, pump, deps_met, is_due, is_boot_complete, start_all}
use mahina_os.Init.Supervisor.Child.{ChildEnv, parse_id, child, enter_and_exec}
use mahina_os.Init.Supervisor.Privileges.{AllGranted, group_acts, user_acts, child_drops_privileges}
use mahina_os.Init.Supervisor.Reap.{Reaped, exit_status, reap_all}
use mahina_os.Init.Supervisor.Turn.{Edge, pump_edges, pump_starts_after_deps}
use mahina_os.Init.Supervisor.Saturate.{IsLinked, pump_saturates}
use mahina_os.Init.Supervisor.Boot.{start_all_spares_compositor}
use mahina_os.Init.Supervisor.Stop.{
  Wait, alive, reaped, stop_one, halted, signals_sent, EndsAt, stop_one_halts,
}
use mahina_os.Init.Supervisor.StartOne.{start_one, start_one_outcome}

-- Every fork succeeds, at time 1000.
abbrev calm : Env
calm = record {
  now = pos 1000;
  check_time = λ i. pos 1000;
  answers = λ i. false;
  has_binary = λ i. true;
  fork = λ i. some (100 + i);
  start_time = λ i. pos 1000;
}

-- The shell depends on the network, which is starting.
abbrev net : Service
net = record blank_service { name = codes "net"; state = starting; pid = 7 }

abbrev shell : Service
shell = record blank_service { name = codes "shell"; dep_indices = 0 ∷ [] }

abbrev pair : Table
pair = record { services = net ∷ shell ∷ []; graph = arrow; signalled = false ∷ false ∷ [] }

abbrev shell_started : Service
shell_started = record shell { state = starting; pid = 101; start_time_ms = pos 1000 }

pair_pumped : (pump calm pair).services ≡ (record net { state = running } ∷ shell_started ∷ [])
unfolding pump
pair_pumped = refl

pump_edges_example :
    (u : Service) × (get_elem? (pump calm pair).services 1 ≡ some u) × Edge pending u.state
pump_edges_example = pump_edges calm pair 1 shell refl

pump_starts_after_deps_example :
    (deps_met (pump calm pair).services (0 ∷ []) ≡ true)
    × (is_due calm shell_started ≡ true)
    × (calm.fork 1 ≡ some 101)
unfolding pump
pump_starts_after_deps_example =
    pump_starts_after_deps calm pair 1 shell shell_started refl refl (λ e. cc) refl

-- The network stays in its timeout, so the shell stays pending.
abbrev slow_net : Service
slow_net = record net { ready_method = ready_file; start_time_ms = pos 1000 }

abbrev slow : Table
slow = record { services = slow_net ∷ shell ∷ []; graph = arrow; signalled = false ∷ false ∷ [] }

slow-IsLinked : IsLinked 2 arrow (slow_net ∷ shell ∷ [])
slow-IsLinked zero s e d m lt = absurd (
    let f =
      subst (λ (v : Service). elem d v.dep_indices ≡ true) (sym (some-injective slow_net s e)) m in
    cc)
slow-IsLinked (suc zero) s e zero m lt = refl
slow-IsLinked (suc zero) s e (suc d) m lt = absurd (
    let f : elem (suc d) (0 ∷ []) ≡ true =
      subst (λ (v : Service). elem (suc d) v.dep_indices ≡ true) (sym (some-injective shell s e))
        m in
    ground arith)
slow-IsLinked (suc (suc i)) s e d m lt = cc

arrow-IsTopo : IsTopo 2 arrow (0 ∷ 1 ∷ [])
arrow-IsTopo = record {
  distinct = (refl, (refl, tt));
  below = (omega arith, (omega arith, tt));
  total = λ v lt. ground arith;
  ordered = (λ i lt e. absurd (ground arith), (λ i lt e. ground arith, tt));
}

pump_saturates_example : deps_met (pump calm slow).services (0 ∷ []) ≡ false
unfolding pump
pump_saturates_example =
    pump_saturates calm slow (0 ∷ 1 ∷ []) (omega arith) arrow-IsCounted arrow-IsTopo slow-IsLinked 1
      shell refl refl refl

-- The shell waits for a network that is stopped.
abbrev held : List Service
held = record net { state = stopped; pid = 0 } ∷ shell ∷ []

held_complete : is_boot_complete held ≡ true
unfolding is_boot_complete
held_complete = refl

abbrev compositor : Service
compositor = record blank_service { name = codes "lgp-compositor" }

abbrev desktop : Table
desktop = record {
  services = compositor ∷ shell ∷ [];
  graph = arrow;
  signalled = false ∷ false ∷ [];
}

start_all_spares_compositor_example :
    (u : Service) × (get_elem? (start_all calm desktop).services 0 ≡ some u) × (u.state ≡ stopped)
start_all_spares_compositor_example =
    start_all_spares_compositor calm desktop 0 compositor refl refl

-- The process ends in the second round.
abbrev answers : ℕ → ℤ × Wait
answers k = (pos (1000 * k), if k == 1 then reaped else alive)

stop_one_halts_example :
    (j : ℕ) × (in_time : Bool) × (stop_one 10 (pos 0) answers (net ∷ shell ∷ []) (codes "net")
      ≡ some (halted net ∷ shell ∷ [], signals_sent net in_time))
    × EndsAt (pos 0) (pos 3000) answers 0 j in_time
unfolding stop_one
stop_one_halts_example =
    stop_one_halts 10 (pos 0) answers (net ∷ shell ∷ []) (codes "net") 0 4 net refl refl
      (λ e. omega arith) refl (omega arith)

start_one_outcome_example :
    let (n, code) = start_one calm desktop (codes "shell") in
    (u : Service) × (get_elem? n.services 1 ≡ some u)
    × Edge pending u.state
    × (code ≡ not (state_eq u.state degraded))
unfolding start_one
start_one_outcome_example = start_one_outcome calm desktop (codes "shell") 1 shell refl refl refl

-- A service that runs as user luna and group 50.
abbrev guest : Service
guest = record shell { binary = codes "/bin/sh"; run_user = codes "luna"; run_group = codes "50" }

abbrev host : ChildEnv
host = record {
  passwd = codes "root:x:0:0:root" ∷ codes "luna:x:1001:1001:luna" ∷ [];
  groups = [];
  gid_set = true;
  groups_dropped = true;
  uid_set = true;
}

luna_id : parse_id host.passwd (codes "luna") ≡ 1001
unfolding parse_id
luna_id = refl

minus_two : parse_id [] (codes "-2") ≡ 4294967294
unfolding parse_id
minus_two = refl

child_drops_privileges_example :
    ((child host guest).0 ≡ group_acts host guest ++ (user_acts host guest ++ enter_and_exec guest))
    × AllGranted host (child host guest).0
unfolding child
child_drops_privileges_example = child_drops_privileges host guest refl

-- The process 101 ends while that of the network goes on.
abbrev ended : List Reaped
ended = record { pid = 101; status = exit_status 1; now = pos 9; later = pos 9 } ∷ []

ended_restarts : (reap_all ended (net ∷ shell_started ∷ [])) ≡ (
    net
    ∷ record shell_started {
      state = pending;
      pid = 0;
      stop_time_ms = pos 9;
      restart_count = 1;
      scheduled_start_ms = pos 1009;
    }
    ∷ [])
unfolding reap_all
ended_restarts = refl
