-- ===== src/Tests/Process.antt =====
-- A worker process.
use mohican.Common.{
  ℕ, ◌≡◌, refl, ap, ◌∙◌, Option, none, true, false, some, List, [], ◌∷◌, ℤ, pos, ok, ◌>>=◌, arith,
}
use mohican.Common.Table.{lookup, add, has, store, remove}
use mohican.Text.{Text, codes}
use mohican.Worker.Banned.{contains, is_refusal, is_banned_upstream}
use mohican.Worker.Banned.Refines.{IsDistinct, call_all, put_all, call_all-put_all}
use mohican.Worker.Connection.Stage.{Stage, number, Status, Connection, new_connection}
use mohican.Worker.Connection.Processing.{connection_processing, in_order, at_stage, at_stages}
use mohican.Worker.Connection.Receive.{get_request, read_lines}
use mohican.Worker.Connection.Progress.{fail, is_timeout, read_clock, note_progress}
use mohican.Worker.Connection.Block.{attempt}
use mohican.Worker.Process.{
  epollin, epollout, of_fd, of_ptr, Clients, Worker, sighup, sigpoll, Turn, Happening, signal,
  ready,
}
use mohican.Worker.Process.Connections.{client_connections}
use mohican.Worker.Process.Lawful.{client_connections-IsLawful}
use mohican.Worker.Process.Step.{
  after_processing, handle_event, process_client, handle_events, handle_accept,
}
use mohican.Worker.Process.Step.Sound.{IsLawful, watch_of}
use mohican.Worker.Process.Step.After.{is_ending, IsReleased}
use mohican.Worker.Process.Run.Reported.{started, AllFair, AllSafe, started-AllSafe}
use mohican.Worker.Process.Step.Dangling.{Dangles, handle_event-dangling}
use mohican.Worker.Process.Step.Checkout.{proxy_for_write, IsMoved, after_processing-IsMoved}
use mohican.Worker.Process.Run.{run, handle_batch, epoll_wait, report}
use mohican.Worker.Process.Run.Stops.{EndsBy, run-EndsBy}
use mohican.Tests.Http.{as_given}
use mohican.Tests.Worker.{no_match, os, server}

abbrev pool : Clients
pool = client_connections no_match as_given server 0 0 os

-- A connection to an upstream whose last read has failed.
abbrev failing : Connection
failing = record (new_connection server 0 0 os) {
  stage = Stage.error_stage;
  sock = some 5;
  proxy_sock = some 9;
}

abbrev worker : Worker pool
worker = record {
  is_hard_stop = false;
  is_soft_stop = false;
  is_soft_reload = false;
  listen_sock = 3;
  watched = (9, watch_of epollin 0) ∷ (3, record { events = epollin; event_data = of_fd 3 }) ∷ [];
  clients = (0, failing) ∷ [];
  next_pointer = 1;
}

abbrev turn : Turn pool
turn = record { is_allocated = true; accepted = some 7; world = os }

failing-ends :
    (pool.connection_processing os failing).0 ≡ ok Status.error_while_connection_processing
unfolding connection_processing in_order at_stage number ◌>>=◌ new_connection
failing-ends = refl

handle_event-dangling_example : Dangles 0 9 (handle_event pool (of_ptr 0) turn worker).1
unfolding lookup connection_processing in_order at_stage number ◌>>=◌ new_connection
handle_event-dangling_example =
    handle_event-dangling 0 turn worker failing Status.error_while_connection_processing 5 9 refl
      failing-ends refl refl refl (λ e. absurd (omega (arith, e))) (epollin, refl)

found : lookup 0 worker.clients ≡ some failing
unfolding lookup
found = refl

after_processing-IsMoved_example :
    ((after_processing pool Status.checkout_proxy_for_write 0 worker).0 ≡ ok tt)
    × IsMoved 0 worker failing found epollout 5 9
        (after_processing pool Status.checkout_proxy_for_write 0 worker).1
after_processing-IsMoved_example =
    after_processing-IsMoved 0 worker failing found (proxy_for_write refl refl)
      (λ e. absurd (omega (arith, e)))

run-EndsBy_example :
    EndsBy true (run pool ((signal sigpoll ∷ []) ∷ (signal sighup ∷ []) ∷ []) worker).0
run-EndsBy_example = run-EndsBy ((signal sigpoll ∷ []) ∷ (signal sighup ∷ []) ∷ []) worker

call_all-put_all_example :
    IsDistinct (call_all ((codes "a", pos 404) ∷ (codes "b", pos 200) ∷ []) [])
    × ((x : Text)
        → contains x (call_all ((codes "a", pos 404) ∷ (codes "b", pos 200) ∷ []) [])
          ≡ put_all ((codes "a", pos 404) ∷ (codes "b", pos 200) ∷ []) (λ y. contains y []) x)
    × ((ip : Text) (code : ℤ)
        → (is_banned_upstream ip code
            (call_all ((codes "a", pos 404) ∷ (codes "b", pos 200) ∷ []) [])).0
          ≡ ok (is_refusal code))
call_all-put_all_example = call_all-put_all ((codes "a", pos 404) ∷ (codes "b", pos 200) ∷ []) [] tt

abbrev arrives : Turn pool
arrives = record { is_allocated = true; accepted = some 5; world = os }

-- A connection is accepted, and then has nothing to read.
abbrev script : List (List (Happening pool))
script = (ready 3 arrives ∷ []) ∷ (ready 5 arrives ∷ []) ∷ []

abbrev laws : IsLawful pool
laws = client_connections-IsLawful no_match as_given server 0 0 os

abbrev fresh : Worker pool
fresh = started laws worker

abbrev upstream_of : Option Connection → Option ℕ
upstream_of none = none
upstream_of (some c) = c.proxy_sock

-- The connection has read nothing for too long, and has no upstream.
times_out :
    (status : Status)
    → (process_client pool 1 os (handle_batch pool (ready 3 arrives ∷ []) fresh).1).0 ≡ ok status
    → is_ending status ≡ true
    → IsReleased laws 1
        (process_client pool 1 os (handle_batch pool (ready 3 arrives ∷ []) fresh).1).1
unfolding connection_processing in_order at_stage at_stages number ◌>>=◌ new_connection get_request
    read_lines fail is_timeout read_clock attempt note_progress process_client handle_batch
    handle_events handle_event handle_accept epoll_wait report lookup add has store remove
times_out status e h c fd there up watches =
    let none_there : none ≡ some fd = ap upstream_of there ∙ up in cc

fair : AllFair laws script fresh
unfolding epoll_wait report lookup handle_batch handle_events handle_event handle_accept add has
    store remove ◌>>=◌
fair = ((tt, tt), (λ _. tt, tt), ((tt, tt), (λ _. times_out, tt), tt))

started-AllSafe_example : AllSafe laws script fresh
started-AllSafe_example = started-AllSafe laws script worker fair

client_connections-IsLawful_example : IsLawful (client_connections no_match as_given server 0 0 os)
client_connections-IsLawful_example = client_connections-IsLawful no_match as_given server 0 0 os
