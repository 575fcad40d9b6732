-- ===== src/Init/Supervisor/Ends.antt =====
-- What reaper_on_exit of src/luna-init/supervisor.c makes of a service that ended.
use mahina_os.Prelude.{suc, ◌≤◌, ◌<◌, ◌≡◌, ◌≢◌, Bool, true, false, ◌⊎◌, ℤ, pos_part, ◌+ℤ◌}
use mahina_os.Init.Service.{pending, degraded, stopping, stopped, Service}
use mahina_os.Init.Supervisor.Exit.{wants_restart}

-- The ways a service ends: for good, to start again after its delay, or given up.
pub data Ended (now later exit_code : ℤ) (by_signal : Bool) (svc : Service) : Service → Type 0 where
  was_stopped :
      (svc.state ≡ stopping) ⊎ (svc.state ≡ stopped)
      → Ended now later exit_code by_signal svc
          (record svc { state = stopped; pid = 0; stop_time_ms = now })
  is_over :
      wants_restart svc.restart_policy exit_code by_signal ≡ false
      → Ended now later exit_code by_signal svc
          (record svc { state = stopped; pid = 0; stop_time_ms = now })
  starts_again :
      svc.state ≢ stopping
      → svc.state ≢ stopped
      → wants_restart svc.restart_policy exit_code by_signal ≡ true
      → svc.restart_count < pos_part svc.restart_attempts
      → Ended now later exit_code by_signal svc (record svc {
        state = pending;
        pid = 0;
        stop_time_ms = now;
        restart_count = suc svc.restart_count;
        scheduled_start_ms = later +ℤ svc.restart_delay_ms;
      })
  given_up :
      svc.state ≢ stopping
      → svc.state ≢ stopped
      → wants_restart svc.restart_policy exit_code by_signal ≡ true
      → pos_part svc.restart_attempts ≤ svc.restart_count
      → Ended now later exit_code by_signal svc (record svc {
        state = degraded;
        pid = 0;
        stop_time_ms = now;
        restart_count = suc svc.restart_count;
      })
