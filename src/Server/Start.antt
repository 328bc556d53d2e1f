-- ===== src/Server/Start.antt =====
-- project/server/src/mohican_server.cpp: daemonize, the pid file, the worker processes and the
-- listening socket.
pub mod Workers
pub mod Socket
use mohican.Common.{
  ℕ, zero, suc, ◌==◌, Bool, true, false, not, ◌&&◌, Option, none, some, List, [], ◌∷◌, ◌++◌,
  if◌then◌else◌, ℤ, pos, negsuc, Result, ok, throw, undefined,
}
use mohican.Text.{Text, codes, text_eq}
use mohican.Config.Main.{MainServerSettings}
use mohican.Config.Parser.{read_settings}
use mohican.Server.{
  ServerAction, start_server, reload_server, Fork, fork_failed, parent_of, child_with, closes,
  sets_sid, writes_pid_file, removes_pid_file, Binding, Master, Outcome, value, thrown, unspecified,
  exits, serves, Action, and_then, ◌>>=◌, ◌>>◌, pure, stop_with, get, set, call, failed, done,
  is_failed,
}

-- MainServerSettings(CONFIG_FILE_PATH). The parser ends on every text, so the first case is none.
abbrev pub settings_of : Option (Result MainServerSettings) → Outcome MainServerSettings
settings_of none = unspecified
settings_of (some (ok settings)) = value settings
settings_of (some (throw e)) = thrown e
settings_of (some undefined) = unspecified

-- `mohican_settings = MainServerSettings(CONFIG_FILE_PATH)` and the two assignments behind it
unfoldable pub load_settings : Action (Unit {0})
load_settings = do
  m ← get
  settings ← stop_with (settings_of (read_settings m.config_file))
  set λ m. record m {
    mohican_settings = settings;
    count_workflows = settings.count_workflows;
    server = settings.server;
  }

-- fork; a child has its own number. Without a next outcome it fails.
abbrev pub next_fork : List Fork → Fork
next_fork [] = fork_failed
next_fork (f ∷ forks) = f

abbrev pub other_forks : List Fork → List Fork
other_forks [] = []
other_forks (f ∷ forks) = forks

abbrev pub pid_after : Fork → ℕ → ℕ
pid_after fork_failed pid = pid
pid_after (parent_of child) pid = pid
pid_after (child_with own) pid = own

unfoldable pub fork : Action Fork
fork m = (
  value (next_fork m.forks),
  record m { forks = other_forks m.forks; pid = pid_after (next_fork m.forks) m.pid },
)

abbrev start_daemon : Fork → Action ℤ
start_daemon fork_failed = failed
start_daemon (parent_of child) = stop_with (exits 0)
start_daemon (child_with own) = do
  call sets_sid
  set λ m. record m { old_master_process = m.pid }
  done

-- The second process, `pid_to_finish`, behind its fork.
abbrev new_master : ℕ → Fork → Action ℤ
new_master pid_to_finish fork_failed = failed
new_master pid_to_finish f = do
  m ← get
  if m.pid == pid_to_finish
      then stop_with (exits 0)
      else (do set λ m. record m { new_master_process = m.pid }; call sets_sid; pure (pos m.pid))

abbrev reload_daemon : Fork → Action ℤ
reload_daemon fork_failed = failed
reload_daemon f = do
  m ← get
  if m.pid == m.old_master_process then done else (do f' ← fork; new_master m.pid f')

unfoldable pub daemonize : ServerAction → Action ℤ
daemonize start_server = do
  call (closes (some 0))
  call (closes (some 1))
  call (closes (some 2))
  f ← fork
  start_daemon f
daemonize reload_server = do f ← fork; reload_daemon f

unfoldable pub fill_pid_file : Action ℤ
fill_pid_file = do
  m ← get
  if m.is_pid_file_open then (do call (writes_pid_file (m.pid ∷ m.workers_pid)); done) else failed

-- The loop of add_work_processes; the child runs a WorkerProcess, whose `run` does not return.
unfoldable pub add_workers : ℕ → Action ℤ
add_workers zero = done
add_workers (suc n) = do
  f ← fork
  let rest = add_workers n
  elim f [
    | fork_failed ↦ failed
    | parent_of pid ↦ (do set λ m. record m { workers_pid = m.workers_pid ++ pid ∷ [] }; rest)
    | child_with own ↦ stop_with serves
  ]

-- How many worker processes a positive number asks for.
unfoldable pub positive : ℤ → Option ℕ
positive (pos zero) = none
positive (pos (suc n)) = some (suc n)
positive (negsuc n) = none

abbrev start_workers : Option ℕ → Action ℤ
start_workers none = failed
start_workers (some n) = do set λ m. record m { workers_pid = [] }; add_workers n

unfoldable pub add_work_processes : Action ℤ
add_work_processes = do m ← get; start_workers (positive m.mohican_settings.count_workflows)

-- inet_aton gives 0 for an invalid address, and the code compares it with -1.
abbrev inet_aton : Bool → ℤ
inet_aton false = pos 0
inet_aton true = pos 1

unfoldable pub listens : Option ℕ → Binding → Bool
listens none b = false
listens (some fd) b =
    b.is_option_set && not (is_failed (inet_aton b.is_address)) && b.is_bound && b.is_listening

unfoldable pub bind_listen_sock : Action Bool
bind_listen_sock = do
  set λ m. record m { listen_sock = m.binding.socket }
  m ← get
  pure (listens m.binding.socket m.binding)
