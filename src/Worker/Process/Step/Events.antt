-- ===== src/Worker/Process/Step/Events.antt =====
-- worker_process.cpp: the interest list behind an event.
use mohican.Common.{
  arith, ℕ, suc, ◌≡◌, refl, inl, inr, true, Option, none, some, Result, ok, undefined, throw,
  then_do, ◌>>=◌, return,
}
use mohican.Common.Table.{store-same}
use mohican.Worker.Connection.Stage.{Status}
use mohican.Worker.Process.{epollin_et, Data, of_fd, of_ptr, Clients, Worker, Turn}
use mohican.Worker.Process.Step.{
  put_client, accept_client, handle_accept, after_processing, process_client, handle_client,
  handle_event,
}
use mohican.Worker.Process.Step.Sound.{
  IsLawful, Watches, Owns, IsSound, put_client-IsSound, epoll_add-IsSound, new-IsSound,
}
use mohican.Worker.Process.Step.After.{
  is_ending, process_client-IsSound, after_processing-IsSound, IsReleased,
}

module _ {k : Clients} (laws : IsLawful k) where
  -- The condition on an event: a connection that it ends is not watched on its upstream.
  abbrev pub Releases : Data → Turn k → Worker k → Type 0
  Releases (of_fd fd) turn w = Unit
  Releases (of_ptr p) turn w =
      (status : Status)
      → (process_client k p turn.world w).0 ≡ ok status
      → is_ending status ≡ true
      → IsReleased laws p (process_client k p turn.world w).1

  then_after-IsSound :
      (r : Result Status) (p : ℕ) (w : Worker k)
      → IsSound laws w
      → ((status : Status) → r ≡ ok status → is_ending status ≡ true → IsReleased laws p w)
      → IsSound laws (then_do (λ status. after_processing k status p) (r, w)).1
  then_after-IsSound (ok status) p w s h =
      after_processing-IsSound laws status p w s (h status refl)
  then_after-IsSound (throw e) p w s h = s
  then_after-IsSound undefined p w s h = s

  handle_client-IsSound :
      (p : ℕ) (turn : Turn k) (w : Worker k)
      → IsSound laws w
      → Releases (of_ptr p) turn w
      → IsSound laws (handle_client k p turn w).1
  unfolding handle_client ◌>>=◌
  handle_client-IsSound p turn w s h =
      then_after-IsSound (process_client k p turn.world w).0 p (process_client k p turn.world w).1
        (process_client-IsSound laws p turn.world w s) h

  -- No entry has the next address.
  next-IsReleased : (w : Worker k) (fd : ℕ) → IsSound laws w → ¬ Watches k w w.next_pointer fd
  next-IsReleased w fd s h =
      let (c, e, o) = s.live fd w.next_pointer h in
      let less = (s.valid w.next_pointer c e).1 in absurd (omega arith)

  -- A new object, before it has a socket.
  abbrev allocated : Worker k → Worker k
  allocated w = record (put_client k w.next_pointer k.create w) {
    next_pointer = suc w.next_pointer;
  }

  create-Owns : {P : Type 0} (fd : ℕ) → Owns k k.create fd → P
  create-Owns fd (inl e) = cc (laws.sock-create)
  create-Owns fd (inr e) = cc (laws.proxy_sock-create)

  accept_client-IsSound :
      (accepted : Option ℕ) (w : Worker k)
      → IsSound laws w
      → IsSound laws (accept_client k accepted w).1
  unfolding ◌>>=◌ return
  accept_client-IsSound none w s = new-IsSound laws k.create w laws.create-Valid s
  accept_client-IsSound (some fd) w s =
      let p = w.next_pointer in
      let c = k.set_socket fd k.create in
      let fresh = new-IsSound laws k.create w laws.create-Valid s in
      let at_socket =
        put_client-IsSound laws p k.create c (allocated w) (store-same p k.create w.clients)
          (laws.set_socket-Valid fd) (λ fd' o. create-Owns fd' o) fresh in
      epoll_add-IsSound laws fd p epollin_et c (put_client k p c (allocated w))
        (store-same p c (allocated w).clients) (inl (laws.sock-set_socket fd))
        (λ fd' h. absurd (next-IsReleased w fd' s h)) at_socket

  handle_accept-IsSound :
      (turn : Turn k) (w : Worker k) → IsSound laws w → IsSound laws (handle_accept k turn w).1
  unfolding handle_accept return
  handle_accept-IsSound turn w s = ground (arith, s, accept_client-IsSound turn.accepted w s)

  -- An event keeps the interest list sound, on every outcome, if a connection that it ends is not
  -- watched on its upstream any more.
  pub handle_event-IsSound :
      (d : Data) (turn : Turn k) (w : Worker k)
      → IsSound laws w
      → Releases d turn w
      → IsSound laws (handle_event k d turn w).1
  unfolding handle_event ◌>>=◌
  handle_event-IsSound (of_fd fd) turn w s h = ground (arith, s, handle_accept-IsSound turn w s)
  handle_event-IsSound (of_ptr p) turn w s h = handle_client-IsSound p turn w s h
