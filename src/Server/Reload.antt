-- ===== src/Server/Reload.antt =====
-- project/server/src/mohican_server.cpp: apply_config and server_reload.
pub mod Processes
pub mod Handover
use mohican.Common.{
  ℕ, ◌==◌, Bool, true, false, not, Option, none, some, List, [], ◌∷◌, if◌then◌else◌, ℤ, pos, negsuc,
}
use mohican.Server.{
  Level, soft_level, hard_level, null_level, reload_server, Signal, sighup, sigint, Arrival, kills,
  Master, Outcome, value, spins, Action, and_then, ◌>>=◌, ◌>>◌, pure, stop_with, get, set, call,
  failed, done, is_failed, deliver, deliver_all,
}
use mohican.Server.Start.{load_settings, daemonize, fill_pid_file, positive, add_work_processes}

abbrev pub has_workers : Option ℕ → Bool
has_workers none = false
has_workers (some n) = true

abbrev fail_or : ℤ → Action ℤ → Action ℤ
fail_or i next = if is_failed i then failed else next

-- apply_config; the level only names the log lines.
unfoldable pub apply_config : Action ℤ
apply_config = do
  set λ m. record m { count_workflows = m.mohican_settings.count_workflows }
  m ← get
  if has_workers (positive m.count_workflows)
      then (do
        added ← add_work_processes
        fail_or added (do filled ← fill_pid_file; fail_or filled done))
      else failed

abbrev pub set_reload : Level → ℕ → Action (Unit {0})
set_reload hard_level n = set λ m. record m { process_hard_reload = n }
set_reload soft_level n = set λ m. record m { process_soft_reload = n }
set_reload null_level n = pure tt

-- The signal to the old master.
abbrev pub stop_old_master : Level → Action (Unit {0})
stop_old_master hard_level = do m ← get; call (kills m.old_master_process sigint)
stop_old_master soft_level = do m ← get; call (kills m.old_master_process sighup)
stop_old_master null_level = pure tt

-- while (!has_old_master_stopped); with the signals that come meanwhile; it gives those that are
-- left when the loop ends.
unfoldable pub wait_for_old_master : List Arrival → Action (List Arrival)
wait_for_old_master [] m = if m.has_old_master_stopped then (value [], m) else (spins, m)
wait_for_old_master (a ∷ arrivals) m =
    let rest = wait_for_old_master arrivals (deliver a m) in
    if m.has_old_master_stopped then (value (a ∷ arrivals), m) else rest

-- The new master, from apply_config on.
unfoldable pub take_over : Level → List Arrival → Action ℤ
take_over level arrivals = do
  applied ← apply_config
  fail_or applied (do
    stop_old_master level
    later ← wait_for_old_master arrivals
    set λ m. record m { has_old_master_stopped = false }
    set (deliver_all later)
    filled ← fill_pid_file
    set λ m. record m { old_master_process = m.new_master_process }
    set λ m. record m { new_master_process = 0 }
    set_reload level 0
    done)

unfoldable pub server_reload : Level → List Arrival → Action ℤ
server_reload level arrivals = do
  load_settings
  status_daemonize ← daemonize reload_server
  fail_or status_daemonize (do
    m ← get
    if m.pid == m.old_master_process
        then (do set_reload level 2; done)
        else take_over level arrivals)
