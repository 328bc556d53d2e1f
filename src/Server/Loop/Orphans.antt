-- ===== src/Server/Loop/Orphans.antt =====
-- mohican_server.cpp: server_start when a fork fails.
use mohican.Common.{
  ℕ, suc, ◌+◌, ◌≡◌, refl, ap, ◌∙◌, true, some, List, [], ◌∷◌, ◌++◌, map, length, pos, negsuc,
}
use mohican.Server.{
  start_server, Fork, fork_failed, parent_of, child_with, Call, closes, sets_sid, Master, value,
}
use mohican.Server.Stop.Calls.{made, made-made}
use mohican.Server.Start.{daemonize, positive, fork}
use mohican.Server.Start.Workers.{add_work_processes-IsForked}
use mohican.Server.Start.Socket.{binds, bind_listen_sock-binds}
use mohican.Server.Loop.{Moment, server_start}

-- The calls of daemonize in the daemon.
abbrev pub daemon_calls : List Call
daemon_calls = closes (some 0) ∷ closes (some 1) ∷ closes (some 2) ∷ sets_sid ∷ []

-- The daemon with the number own, behind daemonize.
abbrev pub daemon : ℕ → List Fork → Master → Master
daemon own rest m =
    made daemon_calls (record m { pid = own; forks = rest; old_master_process = own })

daemonize-daemon :
    (own : ℕ) (rest : List Fork) (m : Master)
    → daemonize start_server (record m { forks = child_with own ∷ rest })
      ≡ (value (pos 0), daemon own rest m)
unfolding daemonize fork
daemonize-daemon own rest m =
    let m' = record m { pid = own; forks = rest; old_master_process = own } in
    let first = closes (some 0) ∷ [] in
    let second = closes (some 1) ∷ [] in
    let third = closes (some 2) ∷ [] in
    ap (λ x. (value (pos 0), x))
      (made-made third (sets_sid ∷ []) (made second (made first m'))
        ∙ (made-made second _ (made first m') ∙ made-made first _ m'))

-- A daemon whose socket is ready, but whose n-th fork fails, gives up with the result -1: the
-- workers before it run on. It has sent no signal, waited for no process, and written no pid file.
pub server_start-orphans :
    (moments : List Moment) (own : ℕ) (pids : List ℕ) (more : List Fork) (n : ℕ) (m : Master)
    → binds m.binding ≡ true
    → positive m.mohican_settings.count_workflows ≡ some (length pids + suc n)
    → server_start moments
        (record m { forks = child_with own ∷ (map parent_of pids ++ fork_failed ∷ more) })
      ≡ (
        value (negsuc 0),
        record (daemon own more m) { listen_sock = m.binding.socket; workers_pid = pids },
      )
unfolding server_start
server_start-orphans moments own pids more n m ready count =
    let rest = map parent_of pids ++ fork_failed ∷ more in
    let d = daemon own rest m in
    let bound = record d { listen_sock = m.binding.socket } in
    rw
      (
        daemonize-daemon own rest m,
        bind_listen_sock-binds d,
        ready,
        (add_work_processes-IsForked pids (fork_failed ∷ more) bound).broken n more refl count,
      )
      refl
