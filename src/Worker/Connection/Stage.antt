-- ===== src/Worker/Connection/Stage.antt =====
-- project/workers/include/client_connection.h: the stages, the statuses and the state of a connection.
use mohican.Common.{ℕ, Option, none, some, []}
use mohican.Text.{Text}
use mohican.Http.Request.{HttpRequest, new_request}
use mohican.Http.Response.{HttpResponse, new_response}
use mohican.Config.Server.{Location, ServerSettings}
use mohican.Worker.Os.{FileEntry, missing, Os}

-- connection_stages_t
pub data Stage : Type 0 where
  get_request root_found root_not_found send_http_header_response send_file bad_request : Stage
  pass_to_proxy send_header_to_proxy get_body_from_client get_body_from_proxy : Stage
  send_body_to_proxy send_proxy_response_to_client get_body_or_not_from_client : Stage
  send_body_to_client failed_to_connect proxy_timeout get_response_from_proxy error_stage : Stage

-- The value of an enumerator, so that stages compare as in C++.
unfoldable pub number : Stage → ℕ
number Stage.get_request = 0
number Stage.root_found = 1
number Stage.root_not_found = 2
number Stage.send_http_header_response = 3
number Stage.send_file = 4
number Stage.bad_request = 5
number Stage.pass_to_proxy = 6
number Stage.send_header_to_proxy = 7
number Stage.get_body_from_client = 8
number Stage.get_body_from_proxy = 9
number Stage.send_body_to_proxy = 10
number Stage.send_proxy_response_to_client = 11
number Stage.get_body_or_not_from_client = 12
number Stage.send_body_to_client = 13
number Stage.failed_to_connect = 14
number Stage.proxy_timeout = 15
number Stage.get_response_from_proxy = 16
number Stage.error_stage = 17

-- connection_status_t
pub data Status : Type 0 where
  connection_processing connection_proxy connection_timeout_error connection_finished : Status
  error_while_connection_processing checkout_client_for_read checkout_client_for_write : Status
  checkout_proxy_for_read checkout_proxy_for_write : Status

pub record Connection : Type 0 where
  pub stage : Stage
  pub sock : Option ℕ  -- `none` until set_socket
  pub proxy_sock : Option ℕ  -- `none` until socket() has given a descriptor
  pub server_settings : ServerSettings
  pub timeout : ℕ
  pub line : Text
  pub request : HttpRequest
  pub response : HttpResponse
  pub location : Option Location
  pub request_str : Text
  pub response_str : Text
  pub request_pos : ℕ
  pub response_pos : ℕ
  pub upstream_buffer : Text
  pub buffer_read_count : ℕ
  pub get_body_ind : ℕ
  pub send_body_ind : ℕ
  pub body_length : ℕ
  pub file_fd : FileEntry
  pub os : Os

-- set_socket
abbrev pub set_socket : ℕ → Connection → Connection
set_socket socket c = record c { sock = some socket }

-- The constructor; it leaves `timeout` and `body_length` without a value, which may be any.
unfoldable pub new_connection : ServerSettings → ℕ → ℕ → Os → Connection
new_connection server_settings timeout body_length os = record {
  stage = Stage.get_request;
  sock = none;
  proxy_sock = none;
  server_settings = server_settings;
  timeout = timeout;
  line = [];
  request = new_request;
  response = new_response;
  location = none;
  request_str = [];
  response_str = [];
  request_pos = 0;
  response_pos = 0;
  upstream_buffer = [];
  buffer_read_count = 0;
  get_body_ind = 0;
  send_body_ind = 0;
  body_length = body_length;
  file_fd = missing;
  os = os;
}
