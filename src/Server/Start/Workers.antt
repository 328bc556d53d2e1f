-- ===== src/Server/Start/Workers.antt =====
-- mohican_server.cpp: add_work_processes, by what fork gives.
use mohican.Common.{
  arith, ℕ, suc, ◌+◌, ◌≡◌, refl, ap, sym, ◌∙◌, none, some, List, [], ◌∷◌, ◌++◌, map, length, pos,
  negsuc,
}
use mathlib.Core.List.{append_assoc, append-nil}
use mohican.Server.{Fork, fork_failed, parent_of, child_with, Master, value, serves}
use mohican.Server.Start.{fork, add_workers, positive, add_work_processes}

-- The process whose next forks give the numbers pids and then what rest says.
abbrev pub forking : List ℕ → List Fork → Master → Master
forking pids rest m = record m { forks = map parent_of pids ++ rest }

-- The process behind these forks.
abbrev pub forked : List ℕ → List Fork → Master → Master
forked pids rest m = record m { forks = rest; workers_pid = m.workers_pid ++ pids }

add_workers-forked :
    (pids : List ℕ) (rest : List Fork) (n : ℕ) (m : Master)
    → add_workers (length pids + n) (forking pids rest m) ≡ add_workers n (forked pids rest m)
unfolding add_workers fork
add_workers-forked [] rest n m =
    let none_yet : 0 + n ≡ n = omega arith in
    ap (λ i. add_workers i (forking [] rest m)) none_yet
    ∙ ap (λ ws. add_workers n (record m { forks = rest; workers_pid = ws }))
        (sym (append-nil m.workers_pid))
add_workers-forked (pid ∷ pids) rest n m =
    let first : suc (length pids) + n ≡ suc (length pids + n) = omega arith in
    let m' = record m { workers_pid = m.workers_pid ++ pid ∷ [] } in
    ap (λ i. add_workers i (forking (pid ∷ pids) rest m)) first
    ∙ (add_workers-forked pids rest n m'
        ∙ ap (λ ws. add_workers n (record m { forks = rest; workers_pid = ws }))
            (append_assoc m.workers_pid (pid ∷ []) pids))

-- The process that add_work_processes starts with.
abbrev without_workers : Master → Master
without_workers m = record m { workers_pid = [] }

add_work_processes-some :
    (n : ℕ) (m : Master)
    → positive m.mohican_settings.count_workflows ≡ some n
    → add_work_processes m ≡ add_workers n (without_workers m)
unfolding add_work_processes
add_work_processes-some n m e = rw e refl

-- How add_work_processes ends where fork gives the numbers pids and then what rest says.
pub record IsForked (pids : List ℕ) (rest : List Fork) (m : Master) : Type 0 where
  -- The number of workers is not positive.
  pub refused :
      positive m.mohican_settings.count_workflows ≡ none
      → add_work_processes (forking pids rest m) ≡ (value (negsuc 0), forking pids rest m)
  -- Every fork succeeds.
  pub all :
      positive m.mohican_settings.count_workflows ≡ some (length pids)
      → add_work_processes (forking pids rest m)
        ≡ (value (pos 0), record m { forks = rest; workers_pid = pids })
  -- A fork fails before the last worker.
  pub broken :
      (n : ℕ) (more : List Fork)
      → rest ≡ fork_failed ∷ more
      → positive m.mohican_settings.count_workflows ≡ some (length pids + suc n)
      → add_work_processes (forking pids rest m)
        ≡ (value (negsuc 0), record m { forks = more; workers_pid = pids })
  -- This process is the child.
  pub child :
      (n own : ℕ) (more : List Fork)
      → rest ≡ child_with own ∷ more
      → positive m.mohican_settings.count_workflows ≡ some (length pids + suc n)
      → add_work_processes (forking pids rest m)
        ≡ (serves, record m { pid = own; forks = more; workers_pid = pids })

pub add_work_processes-IsForked :
    (pids : List ℕ) (rest : List Fork) (m : Master) → IsForked pids rest m
unfolding add_work_processes add_workers fork
add_work_processes-IsForked pids rest m = record {
  refused = λ e. rw e refl;
  all = λ e.
      let last : length pids ≡ length pids + 0 = omega arith in
      add_work_processes-some _ (forking pids rest m) (e ∙ ap some last)
      ∙ add_workers-forked pids rest 0 (without_workers m);
  broken = λ n more e e'.
      add_work_processes-some _ (forking pids rest m) e'
      ∙ (add_workers-forked pids rest (suc n) (without_workers m)
          ∙ ap (λ r. add_workers (suc n) (forked pids r (without_workers m))) e);
  child = λ n own more e e'.
      add_work_processes-some _ (forking pids rest m) e'
      ∙ (add_workers-forked pids rest (suc n) (without_workers m)
          ∙ ap (λ r. add_workers (suc n) (forked pids r (without_workers m))) e);
}
