-- ===== src/Tests/Server.antt =====
-- A master process.
use mohican.Common.{arith, ℕ, ◌≡◌, refl, true, false, some, [], ◌∷◌, ◌++◌, pos, negsuc, ok, ◌>>=◌}
use mohican.Text.{
  Text, codes, skip_while, char_at, is_space, starts_with, text_eq, substr, scan_int, stoi,
}
use mohican.Config.Server.{new_server, get_number, trimmed, index_from}
use mohican.Config.Lexer.{lexem_at, value_end, property_at, lexem_of, get_lexem}
use mohican.Config.Main as Main
use mohican.Config.Main.{
  MainServerSettings, new_main, add_server, in_server, get_number_of_properties,
}
use mohican.Config.Parser.{parse_blocks, next, on_lexem, stages, parse_config, read_settings}
use mohican.Server.{
  soft_level, hard_level, sigint, sighup, sigchld, fork_failed, parent_of, child_with, closes,
  Master, value, exits, deliver, kills, sets_sid, removes_pid_file,
}
use mohican.Server.Stop.{server_stop}
use mohican.Server.Stop.Calls.{made, stopping, stop_calls, server_stop-made}
use mohican.Server.Start.{positive, bind_listen_sock}
use mohican.Server.Start.Socket.{bind_listen_sock-binds}
use mohican.Server.Reload.Processes.{reloaded, with_reload}
use mohican.Server.Loop.{Moment, soft_stop, hard_stop, soft_reload, hard_reload, poll, server_start}
use mohican.Server.Loop.Orphans.{daemon, server_start-orphans}
use mohican.Server.Loop.Reloads.{sent_by, poll-refused}
use mohican.Server.Loop.Leaves.{IsIdle, poll-leaves}

abbrev two_workers : Text
two_workers = codes "http {\ncount_workflows: 2;\n}"

abbrev no_workers : Text
no_workers = codes "http {\ncount_workflows: 0;\n}"

abbrev settings : ℕ → MainServerSettings
settings n = record new_main { count_workflows = pos n; is_any_server = true }

reads_none : read_settings (some no_workers) ≡ some (ok (settings 0))
unfolding read_settings add_server parse_config parse_blocks next on_lexem stages get_lexem
    skip_while char_at is_space lexem_at value_end starts_with property_at lexem_of text_eq substr
    get_number_of_properties get_number trimmed index_from Main.set_property Main.store_property
    stoi scan_int ◌>>=◌ in_server
reads_none = refl

-- Process 100 with two workers.
abbrev master : Text → Master
master config = record {
  pid = 100;
  old_master_process = 100;
  new_master_process = 0;
  workers_pid = 101 ∷ 102 ∷ [];
  listen_sock = some 3;
  count_workflows = pos 2;
  server = new_server;
  mohican_settings = settings 2;
  process_soft_stop = 0;
  process_hard_stop = 0;
  process_soft_reload = 1;
  process_hard_reload = 0;
  has_old_master_stopped = false;
  new_master_pid = 0;
  forks = [];
  config_file = some config;
  is_pid_file_open = true;
  binding = record {
    socket = some 3;
    is_option_set = true;
    is_address = false;
    is_bound = true;
    is_listening = true;
  };
  calls = [];
}

server_stop-made_example :
    server_stop hard_level (master two_workers)
    ≡ (exits 0, made (stopping hard_level (master two_workers)) (master two_workers))
server_stop-made_example = server_stop-made hard_level (master two_workers) (λ e. cc)

bind_listen_sock-binds_example :
    bind_listen_sock (master two_workers) ≡ (value true, master two_workers)
bind_listen_sock-binds_example = bind_listen_sock-binds (master two_workers)

server_start-orphans_example :
    server_start []
      (record (master two_workers) { forks = child_with 200 ∷ parent_of 201 ∷ fork_failed ∷ [] })
    ≡ (value (negsuc 0), record (daemon 200 [] (master two_workers)) { workers_pid = 201 ∷ [] })
unfolding positive
server_start-orphans_example =
    server_start-orphans [] 200 (201 ∷ []) [] 0 (master two_workers) refl refl

abbrev silence : Moment
silence = record { before = []; meanwhile = [] }

-- The old master of a soft reload.
abbrev old_master : Master
old_master = with_reload soft_level 2 (master two_workers)

old_master-IsIdle : IsIdle old_master
old_master-IsIdle soft_stop = refl
old_master-IsIdle hard_stop = refl
old_master-IsIdle soft_reload = refl
old_master-IsIdle hard_reload = refl

poll-leaves_example :
    poll hard_stop
      (silence
        ∷ silence
        ∷ record { before = sent_by soft_level 301 ∷ []; meanwhile = [] }
        ∷ silence
        ∷ silence
        ∷ silence
        ∷ [])
      old_master
    ≡ (
      exits 0,
      made
          (stop_calls sighup (101 ∷ 102 ∷ []) ++ kills 301 sigchld ∷ [])
          (deliver (sent_by soft_level 301) old_master),
    )
poll-leaves_example =
    poll-leaves soft_level 301 hard_stop (silence ∷ silence ∷ []) (silence ∷ silence ∷ silence ∷ [])
      [] old_master (λ e. cc) old_master-IsIdle refl (refl, (refl, tt)) (refl, (refl, (refl, tt)))
      (omega arith)

poll-refused_example :
    poll soft_reload
      (record { before = []; meanwhile = [] } ∷ [])
      (record (master no_workers) { forks = child_with 300 ∷ child_with 301 ∷ [] })
    ≡ (
      exits 0,
      made
          (sets_sid
            ∷ closes (some 3)
            ∷ (stop_calls sigint (101 ∷ 102 ∷ []) ++ removes_pid_file ∷ []))
          (record (reloaded (settings 0) (master no_workers)) {
            pid = 301;
            new_master_process = 301;
          }),
    )
unfolding positive
poll-refused_example =
    poll-refused soft_level 300 301 [] (settings 0) (master no_workers) (λ e. cc) reads_none refl
      refl refl refl (record { before = []; meanwhile = [] }) [] refl refl refl
