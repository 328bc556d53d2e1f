-- ===== src/Worker/Connection/Proxy.antt =====
-- client_connection.cpp: the blocks that pass a request on to an upstream and its response back.
use mohican.Common.{
  ℕ, Bool, true, false, Option, none, some, not, ◌&&◌, List, [], ◌∷◌, leb, if◌then◌else◌, Result,
  ok, undefined, Method, ◌>>=◌, ◌>>◌, return, lift, modify, get,
}
use mohican.Text.{Text, codes, text_eq, stoul}
use mohican.Http.Headers.{Headers, index}
use mohican.Http.Request as HttpRequest
use mohican.Http.Request.{HttpRequest}
use mohican.Http.Response as HttpResponse
use mohican.Http.Response.{HttpResponse}
use mohican.Config.Upstream.{UpstreamSettings}
use mohican.Worker.Os.{Dial, client_socket, proxy_socket}
use mohican.Worker.Connection.Stage.{Stage, Status, Connection}
use mohican.Worker.Connection.Progress.{set_stage, is_timeout}
use mohican.Worker.Connection.Receive.{get_proxy_header, get_body}
use mohican.Worker.Connection.Send.{send_request_header, send_response_header}
use mohican.Worker.Connection.SendBody.{send_body}
use mohican.Worker.Connection.Block.{
  Block, go_on, exit_with, timeout_error, proxy_timeout, attempt, stale,
}
use mohican.Worker.Connection.Respond.{the_location}

abbrev content_length : Text
content_length = codes "Content-Length"

-- std::stoul(headers[CONTENT_LENGTH_HDR])
abbrev pub body_length_of : Headers → Result ℕ
body_length_of headers = stoul (index content_length headers)

abbrev first_upstream : List UpstreamSettings → Result UpstreamSettings
first_upstream [] = undefined
first_upstream (u ∷ us) = ok u

-- The calls between socket and connect, for an address of either form.
abbrev pub dials : Dial → Bool → Bool
dials dial is_ip = (if is_ip then dial.address_parsed else dial.resolved) && dial.connected

-- What socket gives.
abbrev pub opened : Dial → Option ℕ
opened dial = if dial.socket_opened then some dial.socket else none

unfoldable pub connect_to_upstream : Method Connection Bool
connect_to_upstream = do
  c ← get
  let dial = c.os.dial
  modify (λ c. record c { proxy_sock = opened dial })
  if not (dial.socket_opened && dial.option_set) then return false else (do
    location ← lift (the_location c.location)
    upstream ← lift (first_upstream location.upstreams)
    return (dials dial upstream.is_ip))

module _ (each : Headers → Headers) where
  abbrev pub pass_request : Block
  pass_request = do
    c ← get
    str ← lift (HttpRequest.get_string each c.request)
    modify (λ c. record c { request_str = str })
    exit_with Status.checkout_proxy_for_write

  abbrev pub begin_proxy : Bool → Block
  begin_proxy true = do set_stage Stage.send_header_to_proxy; pass_request
  begin_proxy false = do set_stage Stage.failed_to_connect; go_on

  abbrev pub pass_to_proxy_block : Block
  pass_to_proxy_block = do is_connected ← connect_to_upstream; begin_proxy is_connected

abbrev pub send_header_to_proxy_block : Block
send_header_to_proxy_block = do
  is_sent ← send_request_header
  if is_sent then (do set_stage Stage.get_body_or_not_from_client; go_on) else proxy_timeout

abbrev pub has_body : Bool → Block
has_body true = do set_stage Stage.get_response_from_proxy; exit_with Status.checkout_proxy_for_read
has_body false = do
  set_stage Stage.get_body_from_client
  c ← get
  n ← lift (body_length_of c.request.headers)
  modify (λ c. record c { body_length = n })
  exit_with Status.checkout_client_for_read

abbrev pub get_body_or_not_block : Block
get_body_or_not_block = do c ← get; has_body (text_eq c.request.method (codes "GET"))

abbrev all_received : Stage → Status → Stage → Status → Block
all_received last status next other = do
  modify (λ c. record c { get_body_ind = 0 })
  c ← get
  if leb c.body_length c.buffer_read_count
      then (do set_stage last; exit_with status)
      else (do set_stage next; exit_with other)

abbrev pub send_body_to_proxy_block : Block
send_body_to_proxy_block = do
  is_sent ← send_body proxy_socket
  if is_sent
      then all_received Stage.get_response_from_proxy Status.checkout_proxy_for_read
          Stage.get_body_from_client Status.checkout_client_for_read
      else proxy_timeout

abbrev pub get_body_from_client_block : Block
get_body_from_client_block = do
  modify (λ c. record c { send_body_ind = 0 })
  is_ready ← get_body client_socket
  if is_ready
      then (do set_stage Stage.send_body_to_proxy; exit_with Status.checkout_proxy_for_write)
      else timeout_error

module _ (each : Headers → Headers) where
  abbrev pub begin_response : Bool → Block
  begin_response true = do
    c ← get
    str ← lift (HttpResponse.get_string each c.response)
    modify (λ c. record c { response_str = str })
    n ← lift (body_length_of c.response.headers)
    modify (λ c. record c { body_length = n; stage = Stage.send_proxy_response_to_client })
    exit_with Status.checkout_client_for_write
  begin_response false = proxy_timeout

  abbrev pub get_response_from_proxy_block : Block
  get_response_from_proxy_block = do
    is_something ← attempt get_proxy_header stale
    begin_response is_something

abbrev pub late_or_write : Bool → Block
late_or_write true = exit_with Status.connection_timeout_error
late_or_write false = exit_with Status.checkout_client_for_write

abbrev pub get_body_from_proxy_block : Block
get_body_from_proxy_block = do
  modify (λ c. record c { send_body_ind = 0 })
  is_ready ← get_body proxy_socket
  if is_ready
      then (do set_stage Stage.send_body_to_client; exit_with Status.checkout_proxy_for_write)
      else (do late ← is_timeout; late_or_write late)

-- `get_body_ind = 0`, and the end of the connection or the next part of the body
abbrev pub body_sent : Block
body_sent = do
  modify (λ c. record c { get_body_ind = 0 })
  c ← get
  if leb c.body_length c.buffer_read_count
      then (do
        modify (λ c. record c { os = record c.os { is_proxy_closed = true } })
        exit_with Status.connection_finished)
      else (do set_stage Stage.get_body_from_proxy; exit_with Status.checkout_proxy_for_read)

abbrev pub send_body_to_client_block : Block
send_body_to_client_block = do
  is_sent ← send_body client_socket
  if is_sent then body_sent else proxy_timeout

abbrev pub send_proxy_response_block : Block
send_proxy_response_block = do
  is_sent ← send_response_header
  if is_sent
      then (do set_stage Stage.get_body_from_proxy; exit_with Status.checkout_proxy_for_read)
      else timeout_error
