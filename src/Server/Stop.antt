-- ===== src/Server/Stop.antt =====
-- project/server/src/mohican_server.cpp: server_stop. Signals that come while it waits are not modelled.
pub mod Calls
use mohican.Common.{ℕ, ◌==◌, Bool, true, false, List, [], ◌∷◌, if◌then◌else◌, ℤ, negsuc}
use mohican.Server.{
  Level, soft_level, hard_level, null_level, Signal, sighup, sigint, sigchld, closes, kills, waits,
  removes_pid_file, Master, exits, Action, and_then, ◌>>=◌, ◌>>◌, pure, stop_with, get, set, call,
  failed,
}

unfoldable pub kill_all : Signal → List ℕ → Action (Unit {0})
kill_all signal [] = pure tt
kill_all signal (pid ∷ pids) = do call (kills pid signal); kill_all signal pids

unfoldable pub wait_all : List ℕ → Action (Unit {0})
wait_all [] = pure tt
wait_all (pid ∷ pids) = do call (waits pid); wait_all pids

abbrev pub stop_workers : Signal → Action (Unit {0})
stop_workers signal = do m ← get; kill_all signal m.workers_pid; wait_all m.workers_pid

abbrev close_listen_sock : Action (Unit {0})
close_listen_sock = do m ← get; call (closes m.listen_sock)

-- kill(new_master_pid, SIGCHLD)
abbrev tell_new_master : Action (Unit {0})
tell_new_master = do m ← get; call (kills m.new_master_pid sigchld)

unfoldable pub server_stop : Level → Action ℤ
server_stop hard_level = do
  m ← get
  if m.process_hard_reload == 2 then pure tt else close_listen_sock
  stop_workers sigint
  if m.process_hard_reload == 2 then tell_new_master else call removes_pid_file
  stop_with (exits 0)
server_stop soft_level = do
  m ← get
  stop_workers sighup
  if m.process_soft_reload == 2
      then tell_new_master
      else (do close_listen_sock; call removes_pid_file)
  stop_with (exits 0)
server_stop null_level = failed
