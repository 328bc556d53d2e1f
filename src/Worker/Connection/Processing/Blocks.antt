-- ===== src/Worker/Connection/Processing/Blocks.antt =====
-- client_connection.cpp: no block of connection_processing gives a header field of the request a name
-- with a capital letter.
use mohican.Common.{
  Bool, true, false, Result, ok, throw, undefined, Method, Keeps, Keeps-return, Keeps-lift,
}
use mohican.Text.{Text}
use mohican.Http.Headers.{Headers}
use mohican.Config.Server.{Location}
use mohican.Worker.Connection.Stage.{Stage, Connection}
use mohican.Worker.Connection.Respond.{
  locate, when_stage, get_request_block, respond_block, process_location, choose_stage, answer_with,
  open_file, open_page_404, make_response_header,
}
use mohican.Worker.Connection.Proxy.{
  begin_proxy, begin_response, has_body, late_or_write, pass_to_proxy_block,
  send_header_to_proxy_block, get_body_or_not_block, send_body_to_proxy_block,
  get_body_from_client_block, get_response_from_proxy_block, get_body_from_proxy_block,
  send_body_to_client_block, send_proxy_response_block,
}
use mohican.Worker.Connection.Processing.{
  connection_processing, send_http_header_block, send_file_block,
}
use mohican.Worker.Connection.Processing.Chain.{in_order-Keeps, at_stage-Keeps, at_stages-Keeps}
use mohican.Worker.Connection.Processing.Names.{Lowers, steps}
use mohican.Worker.Connection.Processing.Names as Names

ruleset calls = (
  steps, Names.attempt-Keeps, Names.get_request-Keeps, Names.get_proxy_header-Keeps,
  Names.get_body-Keeps, Names.send_request_header-Keeps, Names.send_response_header-Keeps,
  Names.send_file-Keeps, Names.send_body-Keeps, Names.connect_to_upstream-Keeps,
)

choose_stage-Keeps : (r : Result Location) → Keeps Lowers (choose_stage r)
unfolding choose_stage
choose_stage-Keeps (ok l) = search (calls) depth 8
choose_stage-Keeps (throw e) = Keeps-return _
choose_stage-Keeps undefined = Keeps-lift _

send_file_block-Keeps : Keeps Lowers send_file_block
send_file_block-Keeps = search (calls) depth 8

send_http_header_block-Keeps : Keeps Lowers send_http_header_block
send_http_header_block-Keeps = search (calls) depth 8

send_proxy_response_block-Keeps : Keeps Lowers send_proxy_response_block
send_proxy_response_block-Keeps = search (calls) depth 8

send_body_to_client_block-Keeps : Keeps Lowers send_body_to_client_block
send_body_to_client_block-Keeps = search (calls) depth 10

get_body_from_client_block-Keeps : Keeps Lowers get_body_from_client_block
get_body_from_client_block-Keeps = search (calls) depth 10

send_body_to_proxy_block-Keeps : Keeps Lowers send_body_to_proxy_block
send_body_to_proxy_block-Keeps = search (calls) depth 10

send_header_to_proxy_block-Keeps : Keeps Lowers send_header_to_proxy_block
send_header_to_proxy_block-Keeps = search (calls) depth 10

module _ (regex : Text → Text → Result Bool) where
  process_location-Keeps : Keeps Lowers (process_location regex)
  unfolding process_location
  process_location-Keeps = search (calls, choose_stage-Keeps) depth 8

  locate-Keeps : (b : Bool) → Keeps Lowers (locate regex b)
  locate-Keeps true = search (calls, process_location-Keeps) depth 8
  locate-Keeps false = search (calls) depth 8

  get_request_block-Keeps : Keeps Lowers (get_request_block regex)
  get_request_block-Keeps = search (calls, locate-Keeps) depth 12

when_stage-Keeps :
    (s : Stage) (m : Method Connection (Unit {0})) → Keeps Lowers m → Keeps Lowers (when_stage s m)
unfolding when_stage
when_stage-Keeps s m h = search (calls) depth 8

has_body-Keeps : (b : Bool) → Keeps Lowers (has_body b)
has_body-Keeps true = search (calls) depth 8
has_body-Keeps false = search (calls) depth 12

get_body_or_not_block-Keeps : Keeps Lowers get_body_or_not_block
get_body_or_not_block-Keeps = search (calls, has_body-Keeps) depth 8

late_or_write-Keeps : (b : Bool) → Keeps Lowers (late_or_write b)
late_or_write-Keeps true = Keeps-return _
late_or_write-Keeps false = Keeps-return _

get_body_from_proxy_block-Keeps : Keeps Lowers get_body_from_proxy_block
get_body_from_proxy_block-Keeps = search (calls, late_or_write-Keeps) depth 12

module _ (each : Headers → Headers) where
  answer_with-Keeps : (root : Text) → Keeps Lowers (answer_with each root)
  unfolding answer_with
  answer_with-Keeps root = search (calls) depth 12

  open_file-Keeps : Keeps Lowers (open_file each)
  unfolding open_file
  open_file-Keeps = search (calls, answer_with-Keeps) depth 12

  open_page_404-Keeps : Keeps Lowers (open_page_404 each)
  unfolding open_page_404
  open_page_404-Keeps = search (calls, answer_with-Keeps) depth 12

  make_response_header-Keeps : Keeps Lowers (make_response_header each)
  unfolding make_response_header
  make_response_header-Keeps =
      search (calls, when_stage-Keeps, open_file-Keeps, open_page_404-Keeps) depth 12

  respond_block-Keeps : Keeps Lowers (respond_block each)
  respond_block-Keeps = search (calls, make_response_header-Keeps) depth 12

  begin_proxy-Keeps : (b : Bool) → Keeps Lowers (begin_proxy each b)
  begin_proxy-Keeps true = search (calls) depth 12
  begin_proxy-Keeps false = search (calls) depth 8

  pass_to_proxy_block-Keeps : Keeps Lowers (pass_to_proxy_block each)
  pass_to_proxy_block-Keeps = search (calls, begin_proxy-Keeps) depth 8

  begin_response-Keeps : (b : Bool) → Keeps Lowers (begin_response each b)
  begin_response-Keeps true = search (calls) depth 12
  begin_response-Keeps false = search (calls) depth 8

  get_response_from_proxy_block-Keeps : Keeps Lowers (get_response_from_proxy_block each)
  get_response_from_proxy_block-Keeps = search (calls, begin_response-Keeps) depth 8

-- If the names of the header fields of the request are in lower case before an event, they are
-- after it, however it ends.
pub connection_processing-Keeps :
    (regex : Text → Text → Result Bool) (each : Headers → Headers)
    → Keeps Lowers (connection_processing regex each)
unfolding connection_processing
connection_processing-Keeps regex each =
    search
      (
        in_order-Keeps, at_stage-Keeps, at_stages-Keeps, Keeps-return, get_request_block-Keeps,
        respond_block-Keeps, pass_to_proxy_block-Keeps, send_header_to_proxy_block-Keeps,
        get_body_or_not_block-Keeps, send_body_to_proxy_block-Keeps,
        get_body_from_client_block-Keeps, get_response_from_proxy_block-Keeps,
        get_body_from_proxy_block-Keeps, send_body_to_client_block-Keeps,
        send_proxy_response_block-Keeps, send_http_header_block-Keeps, send_file_block-Keeps,
      )
      depth 20
