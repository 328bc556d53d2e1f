-- ===== src/Worker/Connection/Sockets.antt =====
-- client_connection.cpp: what the calls of connection_processing do to the sockets of a connection. A
-- predicate on the sockets and the stage that an error does not break is kept by each of them.
pub mod Late
pub mod Early
pub mod Once
pub mod Valid
use mohican.Common.{
  ◌≡◌, refl, sym, Bool, true, false, Option, none, some, Result, ok, Method, ◌>>=◌, modify, return,
  lift, get, if◌then◌else◌, Keeps, Keeps-bind, Keeps-modify, Keeps-require, Keeps-lift,
  Keeps-return, Keeps-raise, Keeps-get, arith, ℕ,
}
use mathlib.Core.Path.{subst}
use mohican.Worker.Os.{Socket}
use mohican.Worker.Connection.Stage.{Stage, Connection}
use mohican.Worker.Connection.Progress.{is_timeout, read_clock, note_progress, fail}
use mohican.Worker.Connection.Receive.{Ended, conclude, get_request, get_proxy_header, get_body}
use mohican.Worker.Connection.Send.{
  SendEnd, done, paused, broken, Sending, conclude_send, send_request_header, send_response_header,
}
use mohican.Worker.Connection.SendFile.{send_file}
use mohican.Worker.Connection.SendBody.{send_body}
use mohican.Worker.Connection.Block.{attempt}

module _ (Q : Option ℕ → Option ℕ → Stage → Type 0) where
  abbrev pub On : Connection → Type 0
  On c = Q c.sock c.proxy_sock c.stage

  pub keep :
      (f : Connection → Connection)
      → ((c : Connection) → (f c).sock ≡ c.sock)
      → ((c : Connection) → (f c).proxy_sock ≡ c.proxy_sock)
      → ((c : Connection) → (f c).stage ≡ c.stage)
      → Keeps On (modify f)
  keep f a b s = Keeps-modify f λ c h.
      subst (λ x. Q x (f c).proxy_sock (f c).stage) (sym (a c))
        (subst (λ x. Q c.sock x (f c).stage) (sym (b c))
          (subst (Q c.sock c.proxy_sock) (sym (s c)) h))

  pub ruleset leaf =
      (Keeps-bind, Keeps-require, Keeps-lift, Keeps-return, Keeps-raise, Keeps-get, keep, refl)

  pub if-Keeps :
      {A : Type 0} (b : Bool) (m k : Method Connection A)
      → Keeps On m
      → Keeps On k
      → Keeps On (if b then m else k)
  if-Keeps true m k h h' = h
  if-Keeps false m k h h' = h'

  read_clock-Keeps : Keeps On read_clock
  unfolding read_clock
  read_clock-Keeps = record { at = λ c h. h }

  pub is_timeout-Keeps : Keeps On is_timeout
  unfolding is_timeout
  is_timeout-Keeps = search (leaf, read_clock-Keeps) depth 8

  pub note_progress-Keeps : (moved : Bool) → Keeps On (note_progress moved)
  unfolding note_progress
  note_progress-Keeps true = search (leaf, read_clock-Keeps) depth 10
  note_progress-Keeps false = Keeps-return false

  pub attempt-Keeps :
      (m handler : Method Connection Bool)
      → Keeps On m
      → Keeps On handler
      → Keeps On (attempt m handler)
  unfolding attempt
  attempt-Keeps m handler h h' = record {
    at = λ c p. let q = h.at c p in let q' = h'.at (m c).1 q in ground arith;
  }

  module _ (errors : (a b : Option ℕ) (s : Stage) → Q a b s → Q a b Stage.error_stage) where
    fail-Keeps : Keeps On fail
    unfolding fail
    fail-Keeps =
        Keeps-bind _ _ (Keeps-modify _ λ c h. errors c.sock c.proxy_sock c.stage h)
          λ done. Keeps-return false

    ruleset calls = (leaf, if-Keeps, is_timeout-Keeps, note_progress-Keeps, fail-Keeps)

    conclude-Keeps : (ended : Bool) (e : Ended) → Keeps On (conclude ended e)
    conclude-Keeps true e = Keeps-return true
    conclude-Keeps false e = search (calls) depth 4

    ended-Keeps :
        (end : SendEnd) (moved : Bool)
        → Keeps On (elim end [ done ↦ return true | broken ↦ fail | paused ↦ note_progress moved ])
    ended-Keeps done moved = Keeps-return true
    ended-Keeps paused moved = note_progress-Keeps moved
    ended-Keeps broken moved = fail-Keeps

    conclude_send-Keeps : (s : Sending) → Keeps On (conclude_send s)
    conclude_send-Keeps s = ended-Keeps s.end s.is_write_data

    pub get_request-Keeps : Keeps On get_request
    unfolding get_request
    get_request-Keeps = search (calls, conclude-Keeps) depth 12

    pub get_proxy_header-Keeps : Keeps On get_proxy_header
    unfolding get_proxy_header
    get_proxy_header-Keeps = search (calls, conclude-Keeps) depth 12

    pub get_body-Keeps : (socket : Socket) → Keeps On (get_body socket)
    unfolding get_body
    get_body-Keeps socket = search (calls) depth 12

    pub send_request_header-Keeps : Keeps On send_request_header
    unfolding send_request_header
    send_request_header-Keeps = search (calls, conclude_send-Keeps) depth 12

    pub send_response_header-Keeps : Keeps On send_response_header
    unfolding send_response_header
    send_response_header-Keeps = search (calls, conclude_send-Keeps) depth 12

    pub send_file-Keeps : Keeps On send_file
    unfolding send_file
    send_file-Keeps = search (calls) depth 12

    pub send_body-Keeps : (socket : Socket) → Keeps On (send_body socket)
    unfolding send_body
    send_body-Keeps socket = search (calls) depth 12
