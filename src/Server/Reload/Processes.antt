-- ===== src/Server/Reload/Processes.antt =====
-- mohican_server.cpp: the three processes of daemonize(RELOAD_SERVER), and what each makes of a
-- reload.
use mohican.Common.{ℕ, ◌==◌, ◌≡◌, refl, true, false, some, List, [], ◌∷◌, pos, ok}
use mohican.Config.Main.{MainServerSettings}
use mohican.Config.Parser.{read_settings}
use mohican.Server.{
  Level, soft_level, hard_level, null_level, Arrival, Fork, parent_of, child_with, sets_sid, Master,
  value,
}
use mohican.Server.Stop.Calls.{made}
use mohican.Server.Start.{load_settings, daemonize, fork}
use mohican.Server.Reload.{set_reload, take_over, server_reload}

-- The process with the settings of the file.
abbrev pub reloaded : MainServerSettings → Master → Master
reloaded s m = record m {
  mohican_settings = s;
  count_workflows = s.count_workflows;
  server = s.server;
}

load_settings-reloaded :
    (s : MainServerSettings) (m : Master)
    → read_settings m.config_file ≡ some (ok s)
    → load_settings m ≡ (value tt, reloaded s m)
unfolding load_settings
load_settings-reloaded s m e = rw e refl

-- The flag of a reload.
abbrev pub with_reload : Level → ℕ → Master → Master
with_reload hard_level n m = record m { process_hard_reload = n }
with_reload soft_level n m = record m { process_soft_reload = n }
with_reload null_level n m = m

pub set_reload-with_reload :
    (level : Level) (n : ℕ) (m : Master) → set_reload level n m ≡ (value tt, with_reload level n m)
set_reload-with_reload hard_level n m = refl
set_reload-with_reload soft_level n m = refl
set_reload-with_reload null_level n m = refl

-- The old master of a reload: the process that forks once, and is the parent.
pub server_reload-old :
    (level : Level) (arrivals : List Arrival) (child : ℕ) (forks : List Fork)
    (s : MainServerSettings) (m : Master)
    → read_settings m.config_file ≡ some (ok s)
    → (m.pid == m.old_master_process) ≡ true
    → server_reload level arrivals (record m { forks = parent_of child ∷ forks })
      ≡ (value (pos 0), with_reload level 2 (reloaded s (record m { forks = forks })))
unfolding server_reload daemonize fork
server_reload-old level arrivals child forks s m e own =
    rw (load_settings-reloaded s (record m { forks = parent_of child ∷ forks }) e, own, own)
      (rw set_reload-with_reload refl)

-- The new master behind daemonize: the child of a child.
abbrev pub born : ℕ → List Fork → Master → Master
born own forks m =
    made (sets_sid ∷ []) (record m { pid = own; forks = forks; new_master_process = own })

pub server_reload-new :
    (level : Level) (arrivals : List Arrival) (between own : ℕ) (forks : List Fork)
    (s : MainServerSettings) (m : Master)
    → read_settings m.config_file ≡ some (ok s)
    → (between == m.old_master_process) ≡ false
    → (own == m.old_master_process) ≡ false
    → (own == between) ≡ false
    → server_reload level arrivals
        (record m { forks = child_with between ∷ child_with own ∷ forks })
      ≡ take_over level arrivals (born own forks (reloaded s m))
unfolding server_reload daemonize fork
server_reload-new level arrivals between own forks s m e n1 n2 n3 =
    rw
      (
        load_settings-reloaded s (record m { forks = child_with between ∷ child_with own ∷ forks })
            e,
        n1,
        n3,
        n2,
      )
      refl
