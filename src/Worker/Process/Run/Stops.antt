-- ===== src/Worker/Process/Run/Stops.antt =====
-- worker_process.cpp: when `run` leaves its loop.
use mohican.Common.{
  arith, ℕ, ◌≡◌, refl, ap, sym, ◌∙◌, inl, inr, Bool, true, false, ◌||◌, Option, none, some, List,
  [], ◌∷◌, if◌then◌else◌, Bool-cases, Result, ok, throw, undefined, Method, then_do, ◌>>=◌, ◌>>◌,
  return, modify, Keeps, Keeps-bind, Keeps-lift, Keeps-return, Keeps-get, Keeps-modify,
}
use mathlib.Core.Path.{subst}
use mohican.Common.Table.{Table, lookup}
use mohican.Worker.Connection.Stage.{Status}
use mohican.Worker.Process.{
  Data, of_fd, of_ptr, Watch, Clients, Worker, Signal, sighup, sigint, sigpoll, Turn, Happening,
  signal, ready, Event, signalled, reported, End, exited, waiting,
}
use mohican.Worker.Process.Step.{
  close_if, deliver, epoll_add, accept_client, handle_accept, after_processing, process_client,
  handle_client, handle_event, is_stopping, handle_events,
}
use mohican.Worker.Process.Run.{report, epoll_wait, leave, handle_batch, loop, run}

-- SIGHUP or SIGINT comes in one of the batches.
abbrev pub stops : Signal → Bool
stops sighup = true
stops sigint = true
stops sigpoll = false

abbrev pub stops_in : {k : Clients} → List (Happening k) → Bool
stops_in [] = false
stops_in (signal s ∷ batch) = stops s || stops_in batch
stops_in (ready fd turn ∷ batch) = stops_in batch

abbrev pub stops_in_any : {k : Clients} → List (List (Happening k)) → Bool
stops_in_any [] = false
stops_in_any (batch ∷ script) = stops_in batch || stops_in_any script

-- An exit where the loop was left, or a wait where it goes on.
abbrev pub EndsBy : Bool → Result End → Type 0
EndsBy b (ok exited) = b ≡ true
EndsBy b (ok waiting) = b ≡ false
EndsBy b (throw e) = Unit
EndsBy b undefined = Unit

module _ {k : Clients} (b : Bool) where
  -- The flags that end the loop are as they were.
  abbrev Flags : Worker k → Type 0
  Flags w = is_stopping k w ≡ b

  Flags-Keeps :
      (f : Worker k → Worker k)
      → ((w : Worker k) → is_stopping k (f w) ≡ is_stopping k w)
      → Keeps Flags (modify f)
  Flags-Keeps f same = Keeps-modify f λ w h. same w ∙ h

  close_if-Keeps : (c : Bool) (fd : Option ℕ) → Keeps Flags (modify (close_if k c fd))
  close_if-Keeps false fd = Flags-Keeps _ λ w. refl
  close_if-Keeps true none = Flags-Keeps _ λ w. refl
  close_if-Keeps true (some fd) = Flags-Keeps _ λ w. refl

  ruleset flags =
      (Keeps-bind, Keeps-lift, Keeps-return, Keeps-get, Flags-Keeps, refl, close_if-Keeps)

  after_processing-Keeps : (status : Status) (p : ℕ) → Keeps Flags (after_processing k status p)
  unfolding after_processing
  after_processing-Keeps Status.connection_finished p = search (flags) depth 16
  after_processing-Keeps Status.connection_timeout_error p = search (flags) depth 16
  after_processing-Keeps Status.error_while_connection_processing p = search (flags) depth 16
  after_processing-Keeps Status.checkout_proxy_for_read p = search (flags) depth 16
  after_processing-Keeps Status.checkout_proxy_for_write p = search (flags) depth 16
  after_processing-Keeps Status.checkout_client_for_read p = search (flags) depth 16
  after_processing-Keeps Status.checkout_client_for_write p = search (flags) depth 16
  after_processing-Keeps Status.connection_processing p = Keeps-return _
  after_processing-Keeps Status.connection_proxy p = Keeps-return _

  process_client-Keeps : (p : ℕ) (world : k.World) → Keeps Flags (process_client k p world)
  unfolding process_client
  process_client-Keeps p world = search (flags) depth 16

  accept_client-Keeps : (accepted : Option ℕ) → Keeps Flags (accept_client k accepted)
  accept_client-Keeps none = search (flags) depth 16
  accept_client-Keeps (some fd) = search (flags) depth 16

  if-Keeps :
      {A : Type 0} (c : Bool) (m m' : Method (Worker k) A)
      → Keeps Flags m
      → Keeps Flags m'
      → Keeps Flags (if c then m else m')
  if-Keeps true m m' h h' = h
  if-Keeps false m m' h h' = h'

  handle_event-Keeps : (d : Data) (turn : Turn k) → Keeps Flags (handle_event k d turn)
  unfolding handle_event handle_client handle_accept
  handle_event-Keeps (of_fd fd) turn = search (flags, if-Keeps, accept_client-Keeps) depth 16
  handle_event-Keeps (of_ptr p) turn =
      search (flags, process_client-Keeps, after_processing-Keeps) depth 8

or_assoc : (a b c : Bool) → ((a || b) || c) ≡ (a || (b || c))
or_assoc a b c = ground arith

abbrev signals_in : {k : Clients} → List (Event k) → Bool
signals_in [] = false
signals_in (signalled s ∷ events) = stops s || signals_in events
signals_in (reported d turn ∷ events) = signals_in events

-- Where a method gives a value, the flags behind it.
abbrev FlagsBy : {k : Clients} {A : Type 0} → Bool → Result A × Worker k → Type 0
FlagsBy {k} b (ok a, w) = is_stopping k w ≡ b
FlagsBy b (throw e, w) = Unit
FlagsBy b (undefined, w) = Unit

module _ {k : Clients} where
  deliver-is_stopping :
      (s : Signal) (w : Worker k) → is_stopping k (deliver k s w) ≡ (is_stopping k w || stops s)
  unfolding deliver
  deliver-is_stopping sighup w = ground arith
  deliver-is_stopping sigint w = ground arith
  deliver-is_stopping sigpoll w = ground arith

  epoll_wait-signals_in :
      (watched : Table Watch) (batch : List (Happening k))
      → signals_in (epoll_wait watched batch) ≡ stops_in batch
  unfolding epoll_wait report
  epoll_wait-signals_in watched [] = refl
  epoll_wait-signals_in watched (signal s ∷ batch) =
      ap (◌||◌ (stops s)) (epoll_wait-signals_in watched batch)
  epoll_wait-signals_in watched (ready fd turn ∷ batch) =
      by_watch (lookup fd watched) (epoll_wait-signals_in watched batch)
    where
      by_watch :
          (o : Option Watch)
          → signals_in (epoll_wait watched batch) ≡ stops_in batch
          → signals_in (report o turn (epoll_wait watched batch)) ≡ stops_in batch
      by_watch none e = e
      by_watch (some v) e = e

  -- The event in front of the others, or its place when the worker stops.
  abbrev step : Data → Turn k → Worker k → Result (Unit {0}) × Worker k
  step d turn w = (if is_stopping k w then return tt else handle_event k d turn) w

  step-is_stopping :
      (d : Data) (turn : Turn k) (w : Worker k) → is_stopping k (step d turn w).1 ≡ is_stopping k w
  step-is_stopping d turn w =
      (if-Keeps (is_stopping k w) (is_stopping k w) (return tt) (handle_event k d turn)
          (Keeps-return _) (handle_event-Keeps (is_stopping k w) d turn)).at
        w refl

  handle_events-FlagsBy :
      (events : List (Event k)) (w : Worker k)
      → FlagsBy (is_stopping k w || signals_in events) (handle_events k events w)
  unfolding handle_events ◌>>=◌ return
  handle_events-FlagsBy [] w = ground arith
  handle_events-FlagsBy (signalled s ∷ events) w =
      subst (λ b. FlagsBy b (handle_events k events (deliver k s w)))
        (ap (λ b. b || signals_in events) (deliver-is_stopping s w)
          ∙ or_assoc (is_stopping k w) (stops s) (signals_in events))
        (handle_events-FlagsBy events (deliver k s w))
  handle_events-FlagsBy (reported d turn ∷ events) w =
      by_result (step d turn w).0 (handle_events-FlagsBy events (step d turn w).1)
    where
      by_result :
          (r : Result (Unit {0}))
          → FlagsBy
              (is_stopping k (step d turn w).1 || signals_in events)
              (handle_events k events (step d turn w).1)
          → FlagsBy
              (is_stopping k w || signals_in events)
              (then_do (λ done. handle_events k events) (r, (step d turn w).1))
      by_result (ok done) h =
          subst (λ b. FlagsBy (b || signals_in events) (handle_events k events (step d turn w).1))
            (step-is_stopping d turn w) h
      by_result (throw e) h = tt
      by_result undefined h = tt

  -- A method that is followed by exit(0).
  exits-EndsBy :
      (r : Result (Unit {0})) (w : Worker k)
      → EndsBy true (then_do (λ done. return {S = Worker k} exited) (r, w)).0
  unfolding return
  exits-EndsBy (ok done) w = refl
  exits-EndsBy (throw e) w = tt
  exits-EndsBy undefined w = tt

  leave-EndsBy :
      (script : List (List (Happening k))) (w : Worker k) → EndsBy true (leave k script w).0
  unfolding leave ◌>>=◌
  leave-EndsBy script w = exits-EndsBy _ _

  handle_batch-FlagsBy :
      (batch : List (Happening k)) (w : Worker k)
      → FlagsBy (is_stopping k w || stops_in batch) (handle_batch k batch w)
  unfolding handle_batch ◌>>=◌
  handle_batch-FlagsBy batch w =
      subst (λ b. FlagsBy (is_stopping k w || b) (handle_batch k batch w))
        (epoll_wait-signals_in w.watched batch)
        (handle_events-FlagsBy (epoll_wait w.watched batch) w)

  loop-EndsBy :
      (script : List (List (Happening k))) (w : Worker k)
      → EndsBy (is_stopping k w || stops_in_any script) (loop k script w).0
  unfolding loop ◌>>=◌ return
  loop-EndsBy [] w =
      let Goal : Bool → Type 0 =
        λ b. EndsBy (b || false) ((if b then leave k [] else return {S = Worker k} waiting) w).0 in
      elim (Bool-cases (is_stopping k w)) [
        | inl e ↦ subst Goal (sym e) (leave-EndsBy [] w)
        | inr e ↦ subst Goal (sym e) refl
      ]
  loop-EndsBy (batch ∷ script) w =
      let rest = stops_in batch || stops_in_any script in
      let Goal : Bool → Type 0 = λ b.
        EndsBy (b || rest)
          ((if b then leave k (batch ∷ script) else (do handle_batch k batch; loop k script))
            w).0 in
      elim (Bool-cases (is_stopping k w)) [
        | inl e ↦ subst Goal (sym e) (leave-EndsBy (batch ∷ script) w)
        | inr e ↦ subst Goal (sym e) (
            by_result (handle_batch k batch w).0
              (subst (λ b. FlagsBy (b || stops_in batch) (handle_batch k batch w)) e
                (handle_batch-FlagsBy batch w))
              (loop-EndsBy script (handle_batch k batch w).1))
      ]
    where
      by_result :
          (r : Result (Unit {0}))
          → FlagsBy (stops_in batch) (r, (handle_batch k batch w).1)
          → EndsBy
              (is_stopping k (handle_batch k batch w).1 || stops_in_any script)
              (loop k script (handle_batch k batch w).1).0
          → EndsBy
              (stops_in batch || stops_in_any script)
              (then_do (λ done. loop k script) (r, (handle_batch k batch w).1)).0
      by_result (ok done) h rest =
          subst
            (λ b. EndsBy (b || stops_in_any script) (loop k script (handle_batch k batch w).1).0) h
            rest
      by_result (throw e) h rest = tt
      by_result undefined h rest = tt

  -- Whatever happens, if `run` does not end in an exception or in undefined behaviour, it exits
  -- exactly when the worker was told to stop before or SIGHUP or SIGINT comes in one of the batches;
  -- otherwise it waits for the next event, also after SIGPOLL, the signal of a soft reload.
  pub run-EndsBy :
      (script : List (List (Happening k))) (w : Worker k)
      → EndsBy (is_stopping k w || stops_in_any script) (run k script w).0
  unfolding run ◌>>=◌
  run-EndsBy script w = loop-EndsBy script (epoll_add k w.listen_sock _ _ w)
