-- ===== src/Worker/Process/Step.antt =====
-- worker_process.cpp: the body of the loop over the events.
pub mod Sound
pub mod After
pub mod Events
pub mod Others
pub mod Batch
pub mod Checkout
pub mod Dangling
use mohican.Common.{
  ℕ, suc, ◌==◌, Bool, true, false, ◌||◌, Option, none, some, List, [], ◌∷◌, if◌then◌else◌, Result,
  ok, undefined, Method, ◌>>=◌, ◌>>◌, return, lift, modify, get,
}
use mohican.Common.Table.{Table, lookup, remove, add, store}
use mohican.Worker.Connection.Stage.{Status}
use mohican.Worker.Process.{
  Mask, epollin, epollin_et, epollout, Data, of_fd, of_ptr, Watch, Clients, Worker, Signal, sighup,
  sigint, sigpoll, Turn, Event, signalled, reported,
}

-- A read of a variable, or of what a pointer points to.
abbrev pub assigned : {A : Type 0} → Option A → Result A
assigned none = undefined
assigned (some a) = ok a

module _ (k : Clients) where
  abbrev pub Do : Type 0 → Type 0
  Do A = Method (Worker k) A

  -- epoll_ctl with EPOLL_CTL_ADD fails for a descriptor that is watched, EPOLL_CTL_DEL for one that
  -- is not; neither result is read.
  abbrev pub epoll_add : ℕ → Mask → Data → Worker k → Worker k
  epoll_add fd events d w = record w {
    watched = add fd (record { events = events; event_data = d }) w.watched;
  }

  abbrev pub epoll_del : ℕ → Worker k → Worker k
  epoll_del fd w = record w { watched = remove fd w.watched }

  -- The kernel forgets a descriptor that is closed.
  abbrev pub close : ℕ → Worker k → Worker k
  close fd w = record w { watched = remove fd w.watched }

  abbrev pub close_if : Bool → Option ℕ → Worker k → Worker k
  close_if false fd w = w
  close_if true none w = w
  close_if true (some fd) w = close fd w

  -- sighup_handler, sigint_handler and sigpoll_handler
  unfoldable pub deliver : Signal → Worker k → Worker k
  deliver sighup w = record w { is_soft_stop = true }
  deliver sigint w = record w { is_hard_stop = true }
  deliver sigpoll w = record w { is_soft_reload = true }

  abbrev pub put_client : ℕ → k.Client → Worker k → Worker k
  put_client p c w = record w { clients = store p c w.clients }

  abbrev pub delete : ℕ → Worker k → Worker k
  delete p w = record w { clients = remove p w.clients }

  abbrev pub the_client : ℕ → Do k.Client
  the_client p = do w ← get; lift (assigned (lookup p w.clients))

  abbrev pub client_sock : ℕ → Do ℕ
  client_sock p = do c ← the_client p; lift (assigned (k.sock c))

  abbrev pub upstream_sock : ℕ → Do ℕ
  upstream_sock p = do c ← the_client p; lift (assigned (k.proxy_sock c))

  -- A connection on a new socket; when accept fails its object stays.
  abbrev pub accept_client : Option ℕ → Do (Unit {0})
  accept_client accepted = do
    w ← get
    let p = w.next_pointer
    modify (λ w. record (put_client p k.create w) { next_pointer = suc p })
    elim accepted [
      | none ↦ return tt
      | some fd ↦ do
        modify (put_client p (k.set_socket fd k.create))
        modify (epoll_add fd epollin_et (of_ptr p))
    ]

  unfoldable pub handle_accept : Turn k → Do (Unit {0})
  handle_accept turn = if turn.is_allocated then accept_client turn.accepted else return tt

  abbrev pub end_client : ℕ → Do (Unit {0})
  end_client p = do fd ← client_sock p; modify (close fd); modify (epoll_del fd); modify (delete p)

  abbrev pub checkout_proxy : Mask → ℕ → Do (Unit {0})
  checkout_proxy events p = do
    fd ← client_sock p
    modify (epoll_del fd)
    upstream ← upstream_sock p
    modify (epoll_add upstream events (of_ptr p))

  abbrev pub checkout_client : Mask → ℕ → Do (Unit {0})
  checkout_client events p = do
    upstream ← upstream_sock p
    modify (epoll_del upstream)
    fd ← client_sock p
    modify (epoll_add fd events (of_ptr p))

  -- What follows a call of connection_processing, by the status it returned.
  unfoldable pub after_processing : Status → ℕ → Do (Unit {0})
  after_processing Status.connection_finished p = end_client p
  after_processing Status.connection_timeout_error p = end_client p
  after_processing Status.error_while_connection_processing p = end_client p
  after_processing Status.checkout_proxy_for_read p = checkout_proxy epollin p
  after_processing Status.checkout_proxy_for_write p = checkout_proxy epollout p
  after_processing Status.checkout_client_for_read p = checkout_client epollin p
  after_processing Status.checkout_client_for_write p = checkout_client epollout p
  after_processing Status.connection_processing p = return tt
  after_processing Status.connection_proxy p = return tt

  -- client_connection->connection_processing(), with what it does to the interest list.
  unfoldable pub process_client : ℕ → k.World → Do Status
  process_client p world = do
    c ← the_client p
    let (result, c') = k.connection_processing world c
    modify (put_client p c')
    modify (close_if (k.is_proxy_closed c') (k.proxy_sock c'))
    lift result

  unfoldable pub handle_client : ℕ → Turn k → Do (Unit {0})
  handle_client p turn = do status ← process_client p turn.world; after_processing status p

  unfoldable pub handle_event : Data → Turn k → Do (Unit {0})
  handle_event (of_fd fd) turn = do
    w ← get
    if fd == w.listen_sock then handle_accept turn else lift undefined
  handle_event (of_ptr p) turn = handle_client p turn

  abbrev pub is_stopping : Worker k → Bool
  is_stopping w = w.is_soft_stop || w.is_hard_stop

  -- The loop over the events of one epoll_wait. The flags are never reset, so that leaving the
  -- events behind a `break` is to skip each of them.
  unfoldable pub handle_events : List (Event k) → Do (Unit {0})
  handle_events [] = return tt
  handle_events (signalled s ∷ events) = do modify (deliver s); handle_events events
  handle_events (reported d turn ∷ events) = do
    w ← get
    if is_stopping w then return tt else handle_event d turn
    handle_events events
