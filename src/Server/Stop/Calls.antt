-- ===== src/Server/Stop/Calls.antt =====
-- mohican_server.cpp: the calls of server_stop, in order.
use mohican.Common.{
  ℕ, ◌==◌, ◌≡◌, ◌≢◌, refl, ap, sym, ◌∙◌, Bool, true, false, List, [], ◌∷◌, ◌++◌, map, if◌then◌else◌,
  ℤ,
}
use mathlib.Core.List.{append_assoc, append-nil}
use mohican.Server.{
  Level, soft_level, hard_level, null_level, Signal, sighup, sigint, sigchld, Call, closes, kills,
  waits, removes_pid_file, Master, Outcome, value, exits,
}
use mohican.Server.Stop.{stop_workers, kill_all, wait_all, server_stop}

-- A process that has made more calls.
abbrev pub made : List Call → Master → Master
made calls m = record m { calls = m.calls ++ calls }

-- Each process gets the signal, and then each is waited for.
abbrev pub stop_calls : Signal → List ℕ → List Call
stop_calls signal pids = map (λ pid. kills pid signal) pids ++ map waits pids

pub made-nil : (m : Master) → made [] m ≡ m
made-nil m = ap (λ c. record m { calls = c }) (append-nil m.calls)

pub made-made : (a b : List Call) (m : Master) → made b (made a m) ≡ made (a ++ b) m
made-made a b m = ap (λ c. record m { calls = c }) (append_assoc m.calls a b)

kill_all-made :
    (signal : Signal) (pids : List ℕ) (m : Master)
    → kill_all signal pids m ≡ (value tt, made (map (λ pid. kills pid signal) pids) m)
unfolding kill_all
kill_all-made signal [] m = ap (λ x. (value tt, x)) (sym (made-nil m))
kill_all-made signal (pid ∷ pids) m =
    kill_all-made signal pids (made (kills pid signal ∷ []) m)
    ∙ ap (λ x. (value tt, x)) (made-made (kills pid signal ∷ []) _ m)

wait_all-made : (pids : List ℕ) (m : Master) → wait_all pids m ≡ (value tt, made (map waits pids) m)
unfolding wait_all
wait_all-made [] m = ap (λ x. (value tt, x)) (sym (made-nil m))
wait_all-made (pid ∷ pids) m =
    wait_all-made pids (made (waits pid ∷ []) m)
    ∙ ap (λ x. (value tt, x)) (made-made (waits pid ∷ []) _ m)

-- The calls of each stop, with and without a reload that has made another master.
abbrev pub stopping : Level → Master → List Call
stopping hard_level m =
    if m.process_hard_reload == 2
    then stop_calls sigint m.workers_pid ++ kills m.new_master_pid sigchld ∷ []
    else closes m.listen_sock ∷ (stop_calls sigint m.workers_pid ++ removes_pid_file ∷ [])
stopping soft_level m =
    if m.process_soft_reload == 2
    then stop_calls sighup m.workers_pid ++ kills m.new_master_pid sigchld ∷ []
    else stop_calls sighup m.workers_pid ++ closes m.listen_sock ∷ removes_pid_file ∷ []
stopping null_level m = []

stop_workers-made :
    (signal : Signal) (m : Master)
    → stop_workers signal m ≡ (value tt, made (stop_calls signal m.workers_pid) m)
stop_workers-made signal m = rw (kill_all-made signal m.workers_pid m) (
    wait_all-made m.workers_pid (made (map (λ pid. kills pid signal) m.workers_pid) m)
    ∙ ap (λ x. (value tt, x)) (made-made _ _ m))

exit_with : {a b : Master} → a ≡ b → ◌≡◌ {A = Outcome ℤ × Master} (exits 0, a) (exits 0, b)
exit_with e = ap (λ x. (exits 0, x)) e

hard-stops :
    (b : Bool) (m : Master)
    → (m.process_hard_reload == 2) ≡ b
    → server_stop hard_level m ≡ (exits 0, made (stopping hard_level m) m)
unfolding server_stop
hard-stops true m e = rw (e, stop_workers-made sigint m) (exit_with (made-made _ _ m))
hard-stops false m e =
    let closed = made (closes m.listen_sock ∷ []) m in
    rw (e, stop_workers-made sigint closed)
      (exit_with (made-made _ (removes_pid_file ∷ []) closed ∙ made-made _ _ m))

soft-stops :
    (b : Bool) (m : Master)
    → (m.process_soft_reload == 2) ≡ b
    → server_stop soft_level m ≡ (exits 0, made (stopping soft_level m) m)
unfolding server_stop
soft-stops true m e = rw (e, stop_workers-made sighup m) (exit_with (made-made _ _ m))
soft-stops false m e =
    let stopped = made (stop_calls sighup m.workers_pid) m in
    let last = made-made (closes m.listen_sock ∷ []) (removes_pid_file ∷ []) stopped in
    rw (e, stop_workers-made sighup m) (exit_with (last ∙ made-made _ _ m))

-- A stop of either level exits. It sends its signal to every worker, and then waits for each in
-- the same order. When the reload flag of its own level is 2, it leaves the listening socket and the
-- pid file alone and sends SIGCHLD to the last sender of a stop signal. Otherwise, also after a
-- reload of the other level, it closes the socket, before it stops the workers when it is hard and
-- behind that when it is soft, and removes the pid file at last. It makes no other call.
pub server_stop-made :
    (level : Level) (m : Master)
    → level ≢ null_level
    → server_stop level m ≡ (exits 0, made (stopping level m) m)
server_stop-made hard_level m n = hard-stops (m.process_hard_reload == 2) m refl
server_stop-made soft_level m n = soft-stops (m.process_soft_reload == 2) m refl
server_stop-made null_level m n = absurd (n refl)
