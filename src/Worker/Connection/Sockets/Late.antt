-- ===== src/Worker/Connection/Sockets/Late.antt =====
-- client_connection.cpp: the blocks behind the connection to an upstream, and how the blocks make up
-- connection_processing.
use mohican.Common.{
  ◌≡◌, refl, sym, leb, Bool, true, false, Option, modify, Keeps, Keeps-modify, Keeps-return, ℕ,
}
use mathlib.Core.Path.{subst}
use mohican.Http.Headers.{Headers}
use mohican.Worker.Connection.Stage.{Stage, number, Connection}
use mohican.Worker.Connection.Proxy.{
  begin_response, has_body, late_or_write, send_header_to_proxy_block, get_body_or_not_block,
  send_body_to_proxy_block, get_body_from_client_block, get_response_from_proxy_block,
  get_body_from_proxy_block, send_body_to_client_block, send_proxy_response_block,
}
use mohican.Worker.Connection.Sockets.{On, leaf}
use mohican.Worker.Connection.Sockets as Sockets

-- The stages from SEND_HEADER_TO_PROXY on: those that a connection has only once it has tried to
-- connect to its upstream, and ERROR_STAGE.
unfoldable pub is_late : Stage → Bool
unfolding number
is_late stage = leb 7 (number stage)

module _ (Q : Option ℕ → Option ℕ → Stage → Type 0)
    (moves : (t : Stage)
      → is_late t ≡ true
      → (a b : Option ℕ) (s : Stage) → Q a b s
      → Q a b t) where
  pub move :
      (f : Connection → Connection)
      → ((c : Connection) → (f c).sock ≡ c.sock)
      → ((c : Connection) → (f c).proxy_sock ≡ c.proxy_sock)
      → ((c : Connection) → is_late (f c).stage ≡ true)
      → Keeps (On Q) (modify f)
  move f a b s = Keeps-modify f λ c h.
      subst (λ x. Q x (f c).proxy_sock (f c).stage) (sym (a c))
        (subst (λ x. Q c.sock x (f c).stage) (sym (b c))
          (moves (f c).stage (s c) c.sock c.proxy_sock c.stage h))

  pub errors : (a b : Option ℕ) (s : Stage) → Q a b s → Q a b Stage.error_stage
  unfolding is_late number
  errors = moves Stage.error_stage refl

  ruleset late = (
    leaf, move, refl, errors, Sockets.if-Keeps, Sockets.is_timeout-Keeps, Sockets.attempt-Keeps,
    Sockets.get_proxy_header-Keeps, Sockets.get_body-Keeps, Sockets.send_request_header-Keeps,
    Sockets.send_response_header-Keeps, Sockets.send_body-Keeps,
  )

  pub send_proxy_response_block-Keeps : Keeps (On Q) send_proxy_response_block
  unfolding is_late number
  send_proxy_response_block-Keeps = search (late) depth 12

  pub send_body_to_client_block-Keeps : Keeps (On Q) send_body_to_client_block
  unfolding is_late number
  send_body_to_client_block-Keeps = search (late) depth 14

  pub get_body_from_client_block-Keeps : Keeps (On Q) get_body_from_client_block
  unfolding is_late number
  get_body_from_client_block-Keeps = search (late) depth 14

  pub send_body_to_proxy_block-Keeps : Keeps (On Q) send_body_to_proxy_block
  unfolding is_late number
  send_body_to_proxy_block-Keeps = search (late) depth 14

  pub send_header_to_proxy_block-Keeps : Keeps (On Q) send_header_to_proxy_block
  unfolding is_late number
  send_header_to_proxy_block-Keeps = search (late) depth 14

  has_body-Keeps : (b : Bool) → Keeps (On Q) (has_body b)
  unfolding is_late number
  has_body-Keeps true = search (late) depth 8
  has_body-Keeps false = search (late) depth 14

  pub get_body_or_not_block-Keeps : Keeps (On Q) get_body_or_not_block
  get_body_or_not_block-Keeps = search (leaf, has_body-Keeps) depth 8

  late_or_write-Keeps : (b : Bool) → Keeps (On Q) (late_or_write b)
  late_or_write-Keeps true = Keeps-return _
  late_or_write-Keeps false = Keeps-return _

  pub get_body_from_proxy_block-Keeps : Keeps (On Q) get_body_from_proxy_block
  unfolding is_late number
  get_body_from_proxy_block-Keeps = search (late, late_or_write-Keeps) depth 14

  begin_response-Keeps :
      (each : Headers → Headers) (b : Bool) → Keeps (On Q) (begin_response each b)
  unfolding is_late number
  begin_response-Keeps each true = search (late) depth 14
  begin_response-Keeps each false = search (late) depth 10

  pub get_response_from_proxy_block-Keeps :
      (each : Headers → Headers) → Keeps (On Q) (get_response_from_proxy_block each)
  get_response_from_proxy_block-Keeps each = search (late, begin_response-Keeps) depth 10
