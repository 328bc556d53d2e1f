-- ===== src/Worker/Connection/Processing.antt =====
-- client_connection.cpp: connection_processing. Log lines are not modelled.
-- `regex` is std::regex_match, and `each` the order in which an unordered_map gives its entries.
pub mod Events
pub mod Names
pub mod Chain
pub mod Serve
pub mod Pass
pub mod Relay
pub mod Blocks
pub mod Bodies
use mohican.Common.{
  ℕ, Bool, true, false, not, ◌&&◌, ◌||◌, ◌==◌, Option, none, some, List, [], ◌∷◌, ◌++◌, leb,
  if◌then◌else◌, Result, ok, throw, undefined, Method, then_do, ◌>>=◌, ◌>>◌, return, raise, lift,
  modify, get,
}
use mohican.Text.{Text, codes, text_eq, stoul}
use mohican.Http.Headers.{Headers, index}
use mohican.Http.Request as HttpRequest
use mohican.Http.Request.{HttpRequest}
use mohican.Http.Response as HttpResponse
use mohican.Http.Response.{HttpResponse}
use mohican.Http.Handler.{http_handler, no_root}
use mohican.Config.Upstream.{UpstreamSettings}
use mohican.Config.Server.{Location, ServerSettings, get_location}
use mohican.Worker.Os.{
  FileEntry, missing, directory, regular, Os, Dial, file_system, client_socket, proxy_socket,
}
use mohican.Worker.Connection.Stage.{Stage, number, Status, Connection}
use mohican.Worker.Connection.Progress.{set_stage, is_timeout}
use mohican.Worker.Connection.Receive.{get_request, get_proxy_header, get_body}
use mohican.Worker.Connection.Send.{send_request_header, send_response_header}
use mohican.Worker.Connection.SendFile.{send_file}
use mohican.Worker.Connection.SendBody.{send_body}
use mohican.Worker.Connection.Block.{
  Block, go_on, exit_with, timeout_error, proxy_timeout, attempt, stale,
}
use mohican.Worker.Connection.Respond.{get_request_block, respond_block}
use mohican.Worker.Connection.Proxy.{
  pass_to_proxy_block, send_header_to_proxy_block, get_body_or_not_block, send_body_to_proxy_block,
  get_body_from_client_block, get_response_from_proxy_block, get_body_from_proxy_block,
  send_body_to_client_block, send_proxy_response_block,
}

abbrev pub send_http_header_block : Block
send_http_header_block = do
  is_sent ← send_response_header
  if is_sent then (do set_stage Stage.send_file; go_on) else timeout_error

abbrev pub send_file_block : Block
send_file_block = do
  is_sent ← send_file
  if is_sent then exit_with Status.connection_finished else timeout_error

-- if (stage == s) { block }
unfoldable pub at_stage : Stage → Block → Block
unfolding number
at_stage s block = do c ← get; if number c.stage == number s then block else go_on

-- if (stage == s || stage == t) { block }
unfoldable pub at_stages : Stage → Stage → Block → Block
unfolding number
at_stages s t block = do
  c ← get
  if number c.stage == number s || number c.stage == number t then block else go_on

-- A block that returns a status ends the function; the others are tried in order.
unfoldable pub in_order : List Block → Method Connection Status
in_order [] = return Status.connection_processing
in_order (block ∷ blocks) = do
  returned ← block
  elim returned [ none ↦ in_order blocks | some status ↦ return status ]

module _ (regex : Text → Text → Result Bool) (each : Headers → Headers) where
  abbrev pub blocks : List Block
  blocks =
      at_stage Stage.error_stage (exit_with Status.error_while_connection_processing)
      ∷ at_stage Stage.get_request (get_request_block regex)
      ∷ at_stages Stage.root_found Stage.root_not_found (respond_block each)
      ∷ at_stage Stage.pass_to_proxy (pass_to_proxy_block each)
      ∷ at_stage Stage.send_header_to_proxy send_header_to_proxy_block
      ∷ at_stage Stage.get_body_or_not_from_client get_body_or_not_block
      ∷ at_stage Stage.send_body_to_proxy send_body_to_proxy_block
      ∷ at_stage Stage.get_body_from_client get_body_from_client_block
      ∷ at_stage Stage.get_response_from_proxy (get_response_from_proxy_block each)
      ∷ at_stage Stage.get_body_from_proxy get_body_from_proxy_block
      ∷ at_stage Stage.send_body_to_client send_body_to_client_block
      ∷ at_stage Stage.send_proxy_response_to_client send_proxy_response_block
      ∷ at_stage Stage.send_http_header_response send_http_header_block
      ∷ at_stage Stage.send_file send_file_block
      ∷ []

  unfoldable pub connection_processing : Method Connection Status
  connection_processing = in_order blocks
