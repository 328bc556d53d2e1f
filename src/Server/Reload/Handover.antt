-- ===== src/Server/Reload/Handover.antt =====
-- mohican_server.cpp: the new master of a reload takes over from the old one.
use mohican.Common.{ℕ, ◌≡◌, ◌≢◌, true, false, some, List, [], ◌∷◌, ◌++◌, length}
use mohican.Config.Main.{MainServerSettings}
use mohican.Server.{
  Level, soft_level, hard_level, null_level, Signal, sighup, sigint, sigchld, Arrival, Fork, Call,
  kills, sets_sid, writes_pid_file, Master,
}
use mohican.Server.Stop.Calls.{made}
use mohican.Server.Start.{positive}
use mohican.Server.Reload.Processes.{reloaded, with_reload}

abbrev pub stop_signal : Level → Signal
stop_signal hard_level = sigint
stop_signal soft_level = sighup
stop_signal null_level = sigchld

-- The child of an ended process says so.
abbrev pub ended_by : ℕ → Arrival
ended_by pid = record { signal = sigchld; si_pid = pid }

-- What the new master has called in the end.
abbrev pub new_calls : Level → ℕ → List ℕ → Master → List Call
new_calls level own pids m =
    sets_sid
    ∷ writes_pid_file (own ∷ pids)
    ∷ kills m.old_master_process (stop_signal level)
    ∷ writes_pid_file (own ∷ pids)
    ∷ []

-- The process that has taken over, with its own number, its workers and the settings of the file.
abbrev pub taken : Level → ℕ → List ℕ → List Fork → MainServerSettings → Master → Master
taken level own pids rest s m = with_reload level 0 (
    made (new_calls level own pids m) (record (reloaded s m) {
      pid = own;
      old_master_process = own;
      new_master_process = 0;
      workers_pid = pids;
      forks = rest;
      has_old_master_stopped = false;
    }))

module _ (level : Level) (own : ℕ) (pids : List ℕ) (rest : List Fork) (s : MainServerSettings)
    (m : Master) (known : level ≢ null_level)
    (count : positive s.count_workflows ≡ some (length pids)) (opens : m.is_pid_file_open ≡ true)
    (waits : m.has_old_master_stopped ≡ false) where
  -- The new master behind its wait.
  abbrev ready : Master
  ready = record (reloaded s m) {
    pid = own;
    new_master_process = own;
    workers_pid = pids;
    forks = rest;
    has_old_master_stopped = false;
    calls =
        m.calls
        ++ sets_sid ∷ []
        ++ writes_pid_file (own ∷ pids) ∷ []
        ++ kills m.old_master_process (stop_signal level) ∷ [];
  }
