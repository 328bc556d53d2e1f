-- ===== src/Worker/Process/Run.antt =====
-- worker_process.cpp: run. It is given what happens between one epoll_wait and the next, as a list.
pub mod Stops
pub mod Reported
use mohican.Common.{
  ℕ, ◌==◌, Bool, true, false, ◌||◌, Option, none, some, List, [], ◌∷◌, if◌then◌else◌, Result, ok,
  undefined, Method, ◌>>=◌, ◌>>◌, return, lift, modify, get,
}
use mohican.Common.Table.{Table, lookup}
use mohican.Worker.Connection.Stage.{Status}
use mohican.Worker.Process.{
  epollin, Data, of_fd, of_ptr, Watch, Clients, Worker, Turn, Happening, signal, ready, Event,
  signalled, reported, End, exited, waiting,
}
use mohican.Worker.Process.Step.{
  epoll_add, epoll_del, deliver, process_client, end_client, is_stopping, handle_events,
}

-- The array that epoll_wait fills in: descriptors that are watched, with their data.
unfoldable pub report : {k : Clients} → Option Watch → Turn k → List (Event k) → List (Event k)
report none turn events = events
report (some watch) turn events = reported watch.event_data turn ∷ events

unfoldable pub epoll_wait : {k : Clients} → Table Watch → List (Happening k) → List (Event k)
unfolding report
epoll_wait watched [] = []
epoll_wait watched (signal s ∷ batch) = signalled s ∷ epoll_wait watched batch
epoll_wait watched (ready fd turn ∷ batch) =
    report (lookup fd watched) turn (epoll_wait watched batch)

module _ (k : Clients) where
  unfoldable pub after_last : Status → ℕ → Method (Worker k) (Unit {0})
  after_last Status.connection_finished p = end_client k p
  after_last Status.connection_timeout_error p = end_client k p
  after_last Status.error_while_connection_processing p = end_client k p
  after_last Status.checkout_proxy_for_read p = return tt
  after_last Status.checkout_proxy_for_write p = return tt
  after_last Status.checkout_client_for_read p = return tt
  after_last Status.checkout_client_for_write p = return tt
  after_last Status.connection_processing p = return tt
  after_last Status.connection_proxy p = return tt

  unfoldable pub last_event : Data → Turn k → Method (Worker k) (Unit {0})
  last_event (of_fd fd) turn = lift undefined
  last_event (of_ptr p) turn = do status ← process_client k p turn.world; after_last status p

  -- The loop over the events of the last epoll_wait.
  unfoldable pub last_events : List (Event k) → Method (Worker k) (Unit {0})
  last_events [] = return tt
  last_events (signalled s ∷ events) = do modify (deliver k s); last_events events
  last_events (reported d turn ∷ events) = do last_event d turn; last_events events

  abbrev pub first_batch : List (List (Happening k)) → List (Happening k)
  first_batch [] = []
  first_batch (batch ∷ script) = batch

  -- What follows the loop: a soft stop handles the events of one more epoll_wait.
  unfoldable pub leave : List (List (Happening k)) → Method (Worker k) End
  leave script = do
    w ← get
    if w.is_soft_stop || w.is_soft_reload
        then (do
          modify (epoll_del k w.listen_sock)
          w' ← get
          last_events (epoll_wait w'.watched (first_batch script)))
        else return tt
    return exited

  unfoldable pub handle_batch : List (Happening k) → Method (Worker k) (Unit {0})
  handle_batch batch = do w ← get; handle_events k (epoll_wait w.watched batch)

  unfoldable pub loop : List (List (Happening k)) → Method (Worker k) End
  loop [] = do w ← get; if is_stopping k w then leave [] else return waiting
  loop (batch ∷ script) = do
    w ← get
    if is_stopping k w then leave (batch ∷ script) else (do handle_batch batch; loop script)

  unfoldable pub run : List (List (Happening k)) → Method (Worker k) End
  run script = do
    w ← get
    modify (epoll_add k w.listen_sock epollin (of_fd w.listen_sock))
    loop script
