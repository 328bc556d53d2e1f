-- ===== src/Worker/Process/Step/Others.antt =====
-- worker_process.cpp: an event on one connection leaves the objects of the others alone.
use mohican.Common.{
  arith, ℕ, ◌<◌, ◌≡◌, ◌≢◌, refl, ap, ◌∙◌, Bool, true, false, Option, none, some, if◌then◌else◌,
  Method, ◌>>=◌, return, modify, Keeps, Keeps-bind, Keeps-lift, Keeps-return, Keeps-get,
  Keeps-modify,
}
use mohican.Common.Table.{lookup, store-other, remove-other}
use mohican.Worker.Connection.Stage.{Status}
use mohican.Worker.Process.{
  Mask, Data, of_fd, of_ptr, Clients, Worker, Signal, sighup, sigint, sigpoll, Turn,
}
use mohican.Worker.Process.Step.{
  close_if, deliver, put_client, delete, accept_client, handle_accept, end_client, checkout_proxy,
  checkout_client, after_processing, process_client, handle_client, handle_event,
}

-- An event for another object than the one at q, or for the listening socket.
abbrev pub IsOther : ℕ → Data → Type 0
IsOther q (of_fd fd) = Unit
IsOther q (of_ptr p) = p ≢ q

module _ {k : Clients} (q : ℕ) (c : k.Client) where
  -- The object at q is c, and q is an address that was given out.
  abbrev pub Holds : Worker k → Type 0
  Holds w = (lookup q w.clients ≡ some c) × (q < w.next_pointer)

  watching-Keeps :
      (f : Worker k → Worker k)
      → ((w : Worker k) → (f w).clients ≡ w.clients)
      → ((w : Worker k) → (f w).next_pointer ≡ w.next_pointer)
      → Keeps Holds (modify f)
  watching-Keeps f same same' =
      Keeps-modify f
        λ w h. (ap (lookup q) (same w) ∙ h.0, let e = same' w in let less = h.1 in omega arith)

  put_client-Keeps : (p : ℕ) (d : k.Client) → p ≢ q → Keeps Holds (modify (put_client k p d))
  put_client-Keeps p d n = Keeps-modify _ λ w h. (store-other q p d w.clients n ∙ h.0, h.1)

  delete-Keeps : (p : ℕ) → p ≢ q → Keeps Holds (modify (delete k p))
  delete-Keeps p n = Keeps-modify _ λ w h. (remove-other q p w.clients n ∙ h.0, h.1)

  close_if-Keeps : (b : Bool) (fd : Option ℕ) → Keeps Holds (modify (close_if k b fd))
  close_if-Keeps false fd = watching-Keeps _ (λ w. refl) (λ w. refl)
  close_if-Keeps true none = watching-Keeps _ (λ w. refl) (λ w. refl)
  close_if-Keeps true (some fd) = watching-Keeps _ (λ w. refl) (λ w. refl)

  ruleset holds = (
    Keeps-bind, Keeps-lift, Keeps-return, Keeps-get, watching-Keeps, refl, put_client-Keeps,
    delete-Keeps, close_if-Keeps,
  )

  end_client-Keeps : (p : ℕ) → p ≢ q → Keeps Holds (end_client k p)
  end_client-Keeps p n = search (holds, n) depth 14

  checkout_proxy-Keeps : (m : Mask) (p : ℕ) → Keeps Holds (checkout_proxy k m p)
  checkout_proxy-Keeps m p = search (holds) depth 14

  checkout_client-Keeps : (m : Mask) (p : ℕ) → Keeps Holds (checkout_client k m p)
  checkout_client-Keeps m p = search (holds) depth 14

  after_processing-Keeps :
      (status : Status) (p : ℕ) → p ≢ q → Keeps Holds (after_processing k status p)
  unfolding after_processing
  after_processing-Keeps Status.connection_finished p n = end_client-Keeps p n
  after_processing-Keeps Status.connection_timeout_error p n = end_client-Keeps p n
  after_processing-Keeps Status.error_while_connection_processing p n = end_client-Keeps p n
  after_processing-Keeps Status.checkout_proxy_for_read p n = checkout_proxy-Keeps _ p
  after_processing-Keeps Status.checkout_proxy_for_write p n = checkout_proxy-Keeps _ p
  after_processing-Keeps Status.checkout_client_for_read p n = checkout_client-Keeps _ p
  after_processing-Keeps Status.checkout_client_for_write p n = checkout_client-Keeps _ p
  after_processing-Keeps Status.connection_processing p n = Keeps-return _
  after_processing-Keeps Status.connection_proxy p n = Keeps-return _

  process_client-Keeps : (p : ℕ) (world : k.World) → p ≢ q → Keeps Holds (process_client k p world)
  unfolding process_client
  process_client-Keeps p world n = search (holds, n) depth 14

  handle_client-Keeps : (p : ℕ) (turn : Turn k) → p ≢ q → Keeps Holds (handle_client k p turn)
  unfolding handle_client
  handle_client-Keeps p turn n =
      search (holds, process_client-Keeps, after_processing-Keeps, n) depth 8

  accept_client-Holds :
      (accepted : Option ℕ) (w : Worker k) → Holds w → Holds (accept_client k accepted w).1
  unfolding ◌>>=◌ return
  accept_client-Holds none w (e, less) = (
    store-other q w.next_pointer k.create w.clients (λ same. absurd (omega arith)) ∙ e,
    omega arith,
  )
  accept_client-Holds (some fd) w (e, less) =
      let n : w.next_pointer ≢ q = λ same. absurd (omega arith) in
      let first = store-other q w.next_pointer k.create w.clients n ∙ e in
      (store-other q w.next_pointer _ _ n ∙ first, omega arith)

  handle_accept-Keeps : (turn : Turn k) → Keeps Holds (handle_accept k turn)
  unfolding handle_accept return
  handle_accept-Keeps turn = record {
    at = λ w h. ground (arith, h, accept_client-Holds turn.accepted w h);
  }

  if-Keeps :
      {A : Type 0} (b : Bool) (m m' : Method (Worker k) A)
      → Keeps Holds m
      → Keeps Holds m'
      → Keeps Holds (if b then m else m')
  if-Keeps true m m' h h' = h
  if-Keeps false m m' h h' = h'

  pub handle_event-Keeps :
      (d : Data) (turn : Turn k) → IsOther q d → Keeps Holds (handle_event k d turn)
  unfolding handle_event
  handle_event-Keeps (of_fd fd) turn n = search (holds, if-Keeps, handle_accept-Keeps) depth 8
  handle_event-Keeps (of_ptr p) turn n = handle_client-Keeps p turn n

  pub deliver-Holds : (s : Signal) (w : Worker k) → Holds w → Holds (deliver k s w)
  unfolding deliver
  deliver-Holds sighup w h = h
  deliver-Holds sigint w h = h
  deliver-Holds sigpoll w h = h
