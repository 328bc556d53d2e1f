-- ===== src/Server/Loop.antt =====
-- project/server/src/mohican_server.cpp: the constructor and server_start with its loop; main.cpp.
pub mod Orphans
pub mod Reloads
pub mod Leaves
use mohican.Common.{
  ℕ, ◌==◌, Bool, true, false, not, Option, none, some, List, [], ◌∷◌, if◌then◌else◌, ℤ, pos, negsuc,
}
use mohican.Server.{
  Level, soft_level, hard_level, null_level, start_server, Arrival, Master, Outcome, spins, Action,
  and_then, ◌>>=◌, ◌>>◌, pure, stop_with, get, set, failed, done, is_failed, is_zero, deliver_all,
}
use mohican.Server.Start.{
  load_settings, daemonize, bind_listen_sock, add_work_processes, fill_pid_file,
}
use mohican.Server.Stop.{server_stop}
use mohican.Server.Reload.{server_reload}

-- The tests of one round of the loop, in order.
pub data Check : Type 0 where
  soft_stop hard_stop soft_reload hard_reload : Check

-- The signals before a test, and those that come while a reload waits for the old master.
pub record Moment : Type 0 where
  pub before : List Arrival
  pub meanwhile : List Arrival

abbrev pub next_check : Check → Check
next_check soft_stop = hard_stop
next_check hard_stop = soft_reload
next_check soft_reload = hard_reload
next_check hard_reload = soft_stop

abbrev pub is_set : Check → Master → Bool
is_set soft_stop m = m.process_soft_stop == 1
is_set hard_stop m = m.process_hard_stop == 1
is_set soft_reload m = m.process_soft_reload == 1
is_set hard_reload m = m.process_hard_reload == 1

-- server_stop(level); return 0;
abbrev pub stop_and_return : Level → Action ℤ
stop_and_return level = do stopped ← server_stop level; done

-- if (server_reload(level) == -1) { server_stop(HARD_LEVEL); return -1; } and what follows
abbrev pub reload_and : Level → List Arrival → Action ℤ → Action ℤ
reload_and level arrivals rest = do
  reloaded ← server_reload level arrivals
  if is_failed reloaded then (do stopped ← server_stop hard_level; failed) else rest

-- The branch of a test whose flag is set; `rest` is the loop from the next test on.
abbrev pub branch : Check → List Arrival → Action ℤ → Action ℤ
branch soft_stop arrivals rest = stop_and_return soft_level
branch hard_stop arrivals rest = stop_and_return hard_level
branch soft_reload arrivals rest = reload_and soft_level arrivals rest
branch hard_reload arrivals rest = reload_and hard_level arrivals rest

-- The loop of server_start from one test on; each test has its moment, and without a moment
-- nothing comes any more.
unfoldable pub poll : Check → List Moment → Action ℤ
poll check [] = stop_with spins
poll check (moment ∷ moments) = do
  set (deliver_all moment.before)
  m ← get
  let rest = poll (next_check check) moments
  if is_set check m then branch check moment.meanwhile rest else rest

abbrev unless_zero : ℤ → Action ℤ → Action ℤ
unless_zero i next = if is_zero i then next else failed

unfoldable pub server_start : List Moment → Action ℤ
server_start moments = do
  daemonized ← daemonize start_server
  unless_zero daemonized (do
    bound ← bind_listen_sock
    if not bound then failed else (do
      added ← add_work_processes
      unless_zero added
          (do filled ← fill_pid_file; if is_failed filled then failed else poll soft_stop moments)))

-- MohicanServer() and main
unfoldable pub main : List Moment → Action ℤ
main moments = do
  load_settings
  started ← server_start moments
  if is_zero started then done else failed
