-- ===== src/Init/Sample.antt =====
-- A service as parse_service_file of src/luna-init/service.c prepares it, and a graph of one edge, for
-- the runs of the modules Tests.
use mahina_os.Prelude.{zero, suc, refl, ◌==◌, ◌&&◌, if◌then◌else◌, [], pos, arith}
use mahina_os.Init.Service.{Service, pending, on_failure, ready_none}
use mahina_os.Init.Depgraph.{Graph}
use mahina_os.Init.Depgraph.Start.{IsCounted}

abbrev pub blank_service : Service
blank_service = record {
  name = [];
  binary = [];
  description = [];
  args = [];
  arg_count = 0;
  workdir = [];
  env = [];
  run_user = [];
  run_group = [];
  after = [];
  after_count = 0;
  before = [];
  before_count = 0;
  restart_policy = on_failure;
  restart_attempts = pos 3;
  restart_delay_ms = pos 1000;
  ready_method = ready_none;
  ready_path = [];
  ready_timeout_ms = pos 5000;
  stop_signal = 15;
  stop_timeout_ms = pos 3000;
  state = pending;
  pid = 0;
  restart_count = 0;
  start_time_ms = pos 0;
  stop_time_ms = pos 0;
  scheduled_start_ms = pos 0;
  dep_indices = [];
}

-- An edge from node 0 to node 1.
abbrev pub arrow : Graph
arrow = record { edge = λ a b. (a == 0) && (b == 1); indegree = λ v. if v == 1 then 1 else 0 }

pub arrow-IsCounted : IsCounted 2 arrow
arrow-IsCounted zero lt = refl
arrow-IsCounted (suc zero) lt = refl
arrow-IsCounted (suc (suc v)) lt = absurd (omega arith)
