-- ===== src/Worker/Process/Step/Dangling.antt =====
-- worker_process.cpp: a connection that ends while its upstream is watched.
use mohican.Common.{ℕ, ◌≡◌, ◌≢◌, refl, sym, ◌∙◌, true, false, none, some, ok, undefined, ◌>>=◌}
use mathlib.Core.Path.{subst}
use mohican.Common.Table.{lookup, store-same, remove-same, remove-other}
use mohican.Worker.Connection.Stage.{Status}
use mohican.Worker.Process.{of_ptr, Clients, Worker, Turn}
use mohican.Worker.Process.Step.{
  close, epoll_del, put_client, delete, end_client, after_processing, handle_client, handle_event,
}
use mohican.Worker.Process.Step.Sound.{Watches}
use mohican.Worker.Process.Step.After.{is_ending, process_client-some, process_client-none}

module _ {k : Clients} where
  handle_event-gone :
      (p : ℕ) (turn : Turn k) (w : Worker k)
      → lookup p w.clients ≡ none
      → (handle_event k (of_ptr p) turn w).0 ≡ undefined
  unfolding handle_event handle_client ◌>>=◌
  handle_event-gone p turn w e = rw (process_client-none k p turn.world w e) refl

  -- A descriptor is watched for an address without an object, and an event for it is undefined.
  abbrev pub Dangles : ℕ → ℕ → Worker k → Type 0
  Dangles p fd w =
      Watches k w p fd
      × (lookup p w.clients ≡ none)
      × ((turn : Turn k) → (handle_event k (of_ptr p) turn w).0 ≡ undefined)

module _ {k : Clients} (p : ℕ) (turn : Turn k) (w : Worker k) (c : k.Client) where
  -- The object behind the call of connection_processing.
  abbrev after : k.Client
  after = (k.connection_processing turn.world c).1

  -- The worker behind the end of the connection with the client socket fd.
  abbrev ended : ℕ → Worker k
  ended fd = delete k p (epoll_del k fd (close k fd (put_client k p after w)))

  end_client-ended :
      (fd : ℕ)
      → k.sock after ≡ some fd
      → end_client k p (put_client k p after w) ≡ (ok tt, ended fd)
  unfolding ◌>>=◌
  end_client-ended fd e = rw (store-same p after w.clients, e) refl

  ending-ended :
      (status : Status) (fd : ℕ)
      → k.sock after ≡ some fd
      → is_ending status ≡ true
      → after_processing k status p (put_client k p after w) ≡ (ok tt, ended fd)
  unfolding after_processing
  ending-ended Status.connection_finished fd e h = end_client-ended fd e
  ending-ended Status.connection_timeout_error fd e h = end_client-ended fd e
  ending-ended Status.error_while_connection_processing fd e h = end_client-ended fd e
  ending-ended Status.connection_processing fd e h = cc
  ending-ended Status.connection_proxy fd e h = cc
  ending-ended Status.checkout_client_for_read fd e h = cc
  ending-ended Status.checkout_client_for_write fd e h = cc
  ending-ended Status.checkout_proxy_for_read fd e h = cc
  ending-ended Status.checkout_proxy_for_write fd e h = cc

  handle_event-ended :
      (status : Status) (fd : ℕ)
      → lookup p w.clients ≡ some c
      → (k.connection_processing turn.world c).0 ≡ ok status
      → is_ending status ≡ true
      → k.is_proxy_closed after ≡ false
      → k.sock after ≡ some fd
      → handle_event k (of_ptr p) turn w ≡ (ok tt, ended fd)
  unfolding handle_event handle_client ◌>>=◌
  handle_event-ended status fd found e h opened at =
      rw (process_client-some k p turn.world c w found, e, opened) (ending-ended status fd at h)

  -- A connection that ends in an event, by any of the three statuses, and has not closed the socket
  -- of its upstream in it: if that socket, which is not the one of its client, was watched for it,
  -- it is still watched for the address of the deleted object, and handling an event for that
  -- address is undefined behaviour.
  pub handle_event-dangling :
      (status : Status) (fd upstream : ℕ)
      → lookup p w.clients ≡ some c
      → (k.connection_processing turn.world c).0 ≡ ok status
      → is_ending status ≡ true
      → k.is_proxy_closed after ≡ false
      → k.sock after ≡ some fd
      → fd ≢ upstream
      → Watches k w p upstream
      → Dangles p upstream (handle_event k (of_ptr p) turn w).1
  handle_event-dangling status fd upstream found e h opened at other (m, watched) =
      subst (λ r. Dangles p upstream r.1) (sym (handle_event-ended status fd found e h opened at))
        (
          (
            m,
            remove-other upstream fd _ other ∙ (remove-other upstream fd w.watched other ∙ watched),
          ),
          remove-same p (put_client k p after w).clients,
          λ later.
              handle_event-gone p later (ended fd) (remove-same p (put_client k p after w).clients),
        )
