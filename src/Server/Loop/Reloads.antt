-- ===== src/Server/Loop/Reloads.antt =====
-- mohican_server.cpp: a reload as the loop of server_start runs it, in the old master and in a new
-- one that refuses its settings.
use mohican.Common.{
  ℕ, ◌==◌, ◌≡◌, ◌≢◌, refl, ap, ◌∙◌, true, false, none, some, List, [], ◌∷◌, ◌++◌, negsuc, ok,
}
use mohican.Config.Main.{MainServerSettings}
use mohican.Config.Parser.{read_settings}
use mohican.Server.{
  Level, soft_level, hard_level, null_level, sigint, Arrival, Fork, child_with, closes, sets_sid,
  removes_pid_file, Master, value, exits, deliver_all,
}
use mohican.Server.Stop.{server_stop}
use mohican.Server.Stop.Calls.{made, made-made, stop_calls, server_stop-made}
use mohican.Server.Start.{positive}
use mohican.Server.Reload.{apply_config, take_over, server_reload}
use mohican.Server.Reload.Processes.{reloaded, born, server_reload-new}
use mohican.Server.Reload.Handover.{stop_signal}
use mohican.Server.Loop.{
  Check, soft_stop, hard_stop, soft_reload, hard_reload, Moment, next_check, is_set, reload_and,
  poll,
}

abbrev pub stop_check : Level → Check
stop_check hard_level = hard_stop
stop_check soft_level = soft_stop
stop_check null_level = soft_stop

abbrev pub reload_check : Level → Check
reload_check hard_level = hard_reload
reload_check soft_level = soft_reload
reload_check null_level = soft_reload

-- The signal with which the new master ends the old one.
abbrev pub sent_by : Level → ℕ → Arrival
sent_by level pid = record { signal = stop_signal level; si_pid = pid }

-- A test whose flag is set, with nothing that comes before it.
poll-reload_and :
    (level : Level) (moment : Moment) (moments : List Moment) (m : Master)
    → level ≢ null_level
    → moment.before ≡ []
    → is_set (reload_check level) m ≡ true
    → poll (reload_check level) (moment ∷ moments) m
      ≡ reload_and level moment.meanwhile (poll (next_check (reload_check level)) moments) m
unfolding poll deliver_all
poll-reload_and hard_level moment moments m n quiet flag = rw (quiet, flag) refl
poll-reload_and soft_level moment moments m n quiet flag = rw (quiet, flag) refl
poll-reload_and null_level moment moments m n quiet flag = absurd (n refl)

hard_not_null : hard_level ≢ null_level
hard_not_null e = cc

module _ (level : Level) (between own : ℕ) (forks : List Fork) (s : MainServerSettings) (m : Master)
    (known : level ≢ null_level) (read : read_settings m.config_file ≡ some (ok s))
    (count : positive s.count_workflows ≡ none) (n1 : (between == m.old_master_process) ≡ false)
    (n2 : (own == m.old_master_process) ≡ false) (n3 : (own == between) ≡ false) where
  abbrev pub forking : Master
  forking = record m { forks = child_with between ∷ child_with own ∷ forks }

  server_reload-refused :
      (arrivals : List Arrival)
      → server_reload level arrivals forking ≡ (value (negsuc 0), born own forks (reloaded s m))
  unfolding take_over apply_config
  server_reload-refused arrivals =
      server_reload-new level arrivals between own forks s m read n1 n2 n3 ∙ rw count refl

  -- The stop of the new master.
  refused-stops :
      (m.process_hard_reload == 2) ≡ false
      → server_stop hard_level (born own forks (reloaded s m)) ≡ (
        exits 0,
        made
            (sets_sid
              ∷ closes m.listen_sock
              ∷ (stop_calls sigint m.workers_pid ++ removes_pid_file ∷ []))
            (record (reloaded s m) { pid = own; new_master_process = own; forks = forks }),
      )
  refused-stops going =
      let base = record (reloaded s m) { pid = own; new_master_process = own; forks = forks } in
      let last =
        closes m.listen_sock ∷ (stop_calls sigint m.workers_pid ++ removes_pid_file ∷ []) in
      server_stop-made hard_level (born own forks (reloaded s m)) hard_not_null
      ∙ rw going (ap (λ x. (exits 0, x)) (made-made (sets_sid ∷ []) last base))

  -- A reload whose file asks for no worker at all. The new master refuses it before it has forgotten
  -- the workers that it knows from the old one, and stops them: it sends SIGINT to every worker of
  -- the old master, which goes on without them, and removes the pid file.
  pub poll-refused :
      (moment : Moment) (moments : List Moment)
      → moment.before ≡ []
      → is_set (reload_check level) forking ≡ true
      → (m.process_hard_reload == 2) ≡ false
      → poll (reload_check level) (moment ∷ moments) forking ≡ (
        exits 0,
        made
            (sets_sid
              ∷ closes m.listen_sock
              ∷ (stop_calls sigint m.workers_pid ++ removes_pid_file ∷ []))
            (record (reloaded s m) { pid = own; new_master_process = own; forks = forks }),
      )
  poll-refused moment moments quiet flag going =
      poll-reload_and level moment moments forking known quiet flag
      ∙ rw (server_reload-refused moment.meanwhile, refused-stops going) refl
