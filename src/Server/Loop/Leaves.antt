-- ===== src/Server/Loop/Leaves.antt =====
-- mohican_server.cpp: the loop of server_start in the old master of a reload, until it exits.
use mohican.Common.{
  arith, ℕ, ◌≤◌, ◌<◌, ◌==◌, ◌≡◌, ◌≢◌, refl, ◌∙◌, Bool, true, false, All, List, [], ◌∷◌, ◌++◌,
  length,
}
use mohican.Server.{
  Level, soft_level, hard_level, null_level, sigchld, Arrival, kills, Master, exits, deliver,
  deliver_all,
}
use mohican.Server.Stop.Calls.{made, stop_calls, server_stop-made}
use mohican.Server.Reload.Handover.{stop_signal}
use mohican.Server.Loop.{
  Check, soft_stop, hard_stop, soft_reload, hard_reload, Moment, next_check, is_set,
  stop_and_return, poll,
}
use mohican.Server.Loop.Reloads.{stop_check, sent_by}

-- Moments in which no signal comes.
abbrev pub Quiet : List Moment → Type 0
Quiet = All (λ moment. moment.before ≡ [])

-- No test of the loop finds its flag.
abbrev pub IsIdle : Master → Type 0
IsIdle m = (check : Check) → is_set check m ≡ false

-- The flag of a reload that has made a new master, as server_stop tests it.
abbrev pub has_reloaded : Level → Master → Bool
has_reloaded hard_level m = m.process_hard_reload == 2
has_reloaded soft_level m = m.process_soft_reload == 2
has_reloaded null_level m = false

poll-passes :
    (check : Check) (moment : Moment) (moments : List Moment) (m : Master)
    → moment.before ≡ []
    → is_set check m ≡ false
    → poll check (moment ∷ moments) m ≡ poll (next_check check) moments m
unfolding poll deliver_all
poll-passes check moment moments m quiet unset = rw (quiet, unset) refl

-- The loop goes through quiet moments.
poll-Quiet :
    (quiet moments : List Moment) (check : Check) (m : Master)
    → IsIdle m
    → Quiet quiet
    → (check' : Check) × (poll check (quiet ++ moments) m ≡ poll check' moments m)
poll-Quiet [] moments check m idle q = (check, refl)
poll-Quiet (moment ∷ quiet) moments check m idle q =
    let (check', rest) = poll-Quiet quiet moments (next_check check) m idle q.1 in
    (check', poll-passes check moment (quiet ++ moments) m q.0 (idle check) ∙ rest)

-- The tests that come before the one for a stop of the level.
abbrev tests_before : Level → Check → ℕ
tests_before hard_level soft_stop = 1
tests_before hard_level hard_stop = 0
tests_before hard_level soft_reload = 3
tests_before hard_level hard_reload = 2
tests_before level soft_stop = 0
tests_before level hard_stop = 3
tests_before level soft_reload = 2
tests_before level hard_reload = 1

tests_before_le : (level : Level) (check : Check) → tests_before level check ≤ 3
tests_before_le hard_level soft_stop = omega arith
tests_before_le hard_level hard_stop = omega arith
tests_before_le hard_level soft_reload = omega arith
tests_before_le hard_level hard_reload = omega arith
tests_before_le soft_level soft_stop = omega arith
tests_before_le soft_level hard_stop = omega arith
tests_before_le soft_level soft_reload = omega arith
tests_before_le soft_level hard_reload = omega arith
tests_before_le null_level soft_stop = omega arith
tests_before_le null_level hard_stop = omega arith
tests_before_le null_level soft_reload = omega arith
tests_before_le null_level hard_reload = omega arith

-- A signal is delivered before the test of its moment.
poll-told :
    (level : Level) (own : ℕ) (check : Check) (meanwhile : List Arrival) (later : List Moment)
    (m : Master)
    → poll check (record { before = sent_by level own ∷ []; meanwhile = meanwhile } ∷ later) m
      ≡ poll check
          (record { before = []; meanwhile = meanwhile } ∷ later)
          (deliver (sent_by level own) m)
unfolding poll deliver_all
poll-told level own check meanwhile later m = refl

poll-fires :
    (level : Level) (moment : Moment) (moments : List Moment) (m : Master)
    → level ≢ null_level
    → moment.before ≡ []
    → is_set (stop_check level) m ≡ true
    → poll (stop_check level) (moment ∷ moments) m ≡ stop_and_return level m
unfolding poll deliver_all
poll-fires hard_level moment moments m n quiet flag = rw (quiet, flag) refl
poll-fires soft_level moment moments m n quiet flag = rw (quiet, flag) refl
poll-fires null_level moment moments m n quiet flag = absurd (n refl)

module _ (own : ℕ) (m : Master) (idle : IsIdle m) where
  abbrev told : Level → Master
  told level = deliver (sent_by level own) m

  -- The master that has got the signal reaches the test for it.
  told-reaches :
      (level : Level) (check : Check) (moments : List Moment)
      → level ≢ null_level
      → tests_before level check < length moments
      → Quiet moments
      → poll check moments (told level) ≡ stop_and_return level (told level)
  unfolding deliver
  told-reaches level check [] n h q = absurd (omega (arith, h))
  told-reaches hard_level soft_stop (moment ∷ moments) n h q =
      poll-passes soft_stop moment moments (told hard_level) q.0 (idle soft_stop)
      ∙ told-reaches hard_level hard_stop moments n (omega (arith, h)) q.1
  told-reaches hard_level hard_stop (moment ∷ moments) n h q =
      poll-fires hard_level moment moments (told hard_level) n q.0 refl
  told-reaches hard_level soft_reload (moment ∷ moments) n h q =
      poll-passes soft_reload moment moments (told hard_level) q.0 (idle soft_reload)
      ∙ told-reaches hard_level hard_reload moments n (omega (arith, h)) q.1
  told-reaches hard_level hard_reload (moment ∷ moments) n h q =
      poll-passes hard_reload moment moments (told hard_level) q.0 (idle hard_reload)
      ∙ told-reaches hard_level soft_stop moments n (omega (arith, h)) q.1
  told-reaches soft_level soft_stop (moment ∷ moments) n h q =
      poll-fires soft_level moment moments (told soft_level) n q.0 refl
  told-reaches soft_level hard_stop (moment ∷ moments) n h q =
      poll-passes hard_stop moment moments (told soft_level) q.0 (idle hard_stop)
      ∙ told-reaches soft_level soft_reload moments n (omega (arith, h)) q.1
  told-reaches soft_level soft_reload (moment ∷ moments) n h q =
      poll-passes soft_reload moment moments (told soft_level) q.0 (idle soft_reload)
      ∙ told-reaches soft_level hard_reload moments n (omega (arith, h)) q.1
  told-reaches soft_level hard_reload (moment ∷ moments) n h q =
      poll-passes hard_reload moment moments (told soft_level) q.0 (idle hard_reload)
      ∙ told-reaches soft_level soft_stop moments n (omega (arith, h)) q.1
  told-reaches null_level check (moment ∷ moments) n h q = absurd (n refl)

  told-stops :
      (level : Level)
      → level ≢ null_level
      → has_reloaded level m ≡ true
      → stop_and_return level (told level) ≡ (
        exits 0,
        made (stop_calls (stop_signal level) m.workers_pid ++ kills own sigchld ∷ []) (told level),
      )
  unfolding deliver
  told-stops hard_level n r = rw (server_stop-made hard_level (told hard_level) n, r) refl
  told-stops soft_level n r = rw (server_stop-made soft_level (told soft_level) n, r) refl
  told-stops null_level n r = absurd (n refl)

-- The old master of a reload that has made a new one, at any test of its loop, with no other flag
-- set. After any number of moments without a signal it gets the signal of the level from the new
-- master, and then no other within its next three tests: it exits, having sent that signal to each of its
-- workers, waited for them in the same order and sent SIGCHLD to the new master. It makes no other call, so that it neither closes the
-- listening socket nor removes the pid file.
pub poll-leaves :
    (level : Level) (own : ℕ) (check : Check) (quiet later : List Moment) (meanwhile : List Arrival)
    (m : Master)
    → level ≢ null_level
    → IsIdle m
    → has_reloaded level m ≡ true
    → Quiet quiet
    → Quiet later
    → 3 ≤ length later
    → poll check
        (quiet ++ (record { before = sent_by level own ∷ []; meanwhile = meanwhile } ∷ later))
        m
      ≡ (
        exits 0,
        made
            (stop_calls (stop_signal level) m.workers_pid ++ kills own sigchld ∷ [])
            (deliver (sent_by level own) m),
      )
poll-leaves level own check quiet later meanwhile m n idle r q q' enough =
    let silent : Moment = record { before = []; meanwhile = meanwhile } in
    let (check', waits) = poll-Quiet quiet _ check m idle q in
    let near : tests_before level check' ≤ 3 = tests_before_le level check' in
    waits
    ∙ poll-told level own check' meanwhile later m
    ∙ told-reaches own m idle level check' (silent ∷ later) n (omega (arith, near, enough))
        (refl, q')
    ∙ told-stops own m idle level n r
