-- ===== src/Server.antt =====
-- project/server/include/mohican_server.h and the system around it: what a master process holds, the
-- signals that reach it and the calls that it makes. Log lines are not modelled.
pub mod Start
pub mod Stop
pub mod Reload
pub mod Loop
use mohican.Common.{
  ℕ, Bool, true, false, Option, none, some, List, [], ◌∷◌, ◌++◌, if◌then◌else◌, ◌==◌, is_int, ℤ,
  pos, negsuc, Exception, Result, ok, throw, undefined,
}
use mohican.Text.{Text, codes, text_eq}
use mohican.Config.Server.{ServerSettings}
use mohican.Config.Main.{MainServerSettings}

-- action_level_t
pub data Level : Type 0 where
  soft_level hard_level null_level : Level

-- status_server_action
pub data ServerAction : Type 0 where
  start_server reload_server : ServerAction

pub data Signal : Type 0 where
  sighup sigint sigpipe sigalrm sigchld : Signal

-- A signal and its sender, info->si_pid.
pub record Arrival : Type 0 where
  pub signal : Signal
  pub si_pid : ℕ

-- What fork gives: -1, the child's number to the parent, or a new process with its own number.
pub data Fork : Type 0 where
  fork_failed : Fork
  parent_of : ℕ → Fork
  child_with : ℕ → Fork

-- The calls that others see. A descriptor -1 is `none`.
pub data Call : Type 0 where
  closes : Option ℕ → Call
  sets_sid : Call
  kills : ℕ → Signal → Call
  waits : ℕ → Call
  writes_pid_file : List ℕ → Call
  removes_pid_file : Call

-- The outcomes of socket, setsockopt, inet_aton, bind and listen.
pub record Binding : Type 0 where
  pub socket : Option ℕ
  pub is_option_set : Bool
  pub is_address : Bool
  pub is_bound : Bool
  pub is_listening : Bool

-- One process: the members of MohicanServer, the globals, what fork gives it next, the
-- configuration file, the outcome of its calls, and the calls that it has made.
pub record Master : Type 0 where
  pub pid : ℕ
  pub old_master_process : ℕ
  pub new_master_process : ℕ
  pub workers_pid : List ℕ
  pub listen_sock : Option ℕ
  pub count_workflows : ℤ
  pub server : ServerSettings
  pub mohican_settings : MainServerSettings
  pub process_soft_stop : ℕ
  pub process_hard_stop : ℕ
  pub process_soft_reload : ℕ
  pub process_hard_reload : ℕ
  pub has_old_master_stopped : Bool
  pub new_master_pid : ℕ
  pub forks : List Fork
  pub config_file : Option Text
  pub is_pid_file_open : Bool
  pub binding : Binding
  pub calls : List Call

-- How a call ends: with a value, an exception, undefined behaviour, exit, as a worker process, or
-- it waits for a signal that does not come.
pub data Outcome (A : Type 0) : Type 0 where
  value : A → Outcome A
  thrown : Exception → Outcome A
  unspecified : Outcome A
  exits : ℕ → Outcome A
  serves : Outcome A
  spins : Outcome A

abbrev pub Action : Type 0 → Type 0
Action A = Master → Outcome A × Master

abbrev pub and_then : {A B : Type 0} → (A → Action B) → Outcome A × Master → Outcome B × Master
and_then f (value a, m) = f a m
and_then f (thrown e, m) = (thrown e, m)
and_then f (unspecified, m) = (unspecified, m)
and_then f (exits n, m) = (exits n, m)
and_then f (serves, m) = (serves, m)
and_then f (spins, m) = (spins, m)

infixl 5 ◌>>=◌ ◌>>◌
abbrev pub ◌>>=◌ : {A B : Type 0} → Action A → (A → Action B) → Action B
(m >>= f) s = and_then f (m s)

abbrev pub ◌>>◌ : {B : Type 0} → Action (Unit {0}) → Action B → Action B
m >> k = m >>= λ _. k

abbrev pub pure : {A : Type 0} → A → Action A
pure a m = (value a, m)

abbrev pub stop_with : {A : Type 0} → Outcome A → Action A
stop_with o m = (o, m)

abbrev pub get : Action Master
get m = (value m, m)

abbrev pub set : (Master → Master) → Action (Unit {0})
set f m = (value tt, f m)

-- A call that others see.
abbrev pub call : Call → Action (Unit {0})
call c = set λ m. record m { calls = m.calls ++ c ∷ [] }

-- -1, as a return value
abbrev pub failed : Action ℤ
failed = pure (negsuc 0)

abbrev pub done : Action ℤ
done = pure (pos 0)

-- result == -1
abbrev pub is_failed : ℤ → Bool
is_failed (pos n) = false
is_failed (negsuc n) = n == 0

-- result == 0
abbrev pub is_zero : ℤ → Bool
is_zero i = is_int i 0

-- The signal handlers.
unfoldable pub deliver : Arrival → Master → Master
deliver a m = elim a.signal [
  | sighup ↦ record m { process_soft_stop = 1; new_master_pid = a.si_pid }
  | sigint ↦ record m { process_hard_stop = 1; new_master_pid = a.si_pid }
  | sigpipe ↦ record m { process_soft_reload = 1 }
  | sigalrm ↦ record m { process_hard_reload = 1 }
  | sigchld ↦ record m { has_old_master_stopped = true }
]

unfoldable pub deliver_all : List Arrival → Master → Master
deliver_all [] m = m
deliver_all (a ∷ arrivals) m = deliver_all arrivals (deliver a m)
