-- ===== src/Tests/Worker.antt =====
-- Connections.
use mohican.Common.{
  ℕ, zero, suc, ◌≡◌, refl, Bool, true, false, none, List, [], ◌∷◌, ◌++◌, length, drop, pos, Result,
  ok, Keeps, arith,
}
use mohican.Text.{
  sub_size, Text, rfind, substr, codes, text_eq, starts_with, to_string, to_string_onto,
  digits_onto, At-start,
}
use mohican.Http.Headers.{lookup}
use mohican.Http.Request as HttpRequest
use mohican.Http.Request.{
  HttpRequest, new_request, crlf, header_line, header_lines, first_line, get_string,
}
use mohican.Http.Response as HttpResponse
use mohican.Http.Response.{HttpResponse, new_response}
use mohican.Http.FileTypes.{types}
use mohican.Http.Date.{get_date}
use mohican.Http.Handler.{
  finish, http_handler, handle_version, answer, opened_answer, get_content_type,
}
use mohican.Config.Server.{Location, ServerSettings, new_server, first_location, get_location}
use mohican.Worker.Os.{
  Written, wrote, write_failed, file_system, missing, regular, Stream, Os, set_stream,
  client_socket,
}
use mohican.Worker.Connection.Stage.{Stage, Status, Connection}
use mohican.Worker.Connection.Receive.{get_request, took}
use mohican.Worker.Connection.Receive.Lines.{bytes}
use mohican.Worker.Connection.Receive.Request.{received, get_request-get_string}
use mohican.Worker.Connection.Send.{done, Sending, write_header}
use mohican.Worker.Connection.SendFile.{write_file}
use mohican.Worker.Connection.Send.Laws.{taken, write_header-At}
use mohican.Worker.Connection.SendFile.Chunks.{
  takes_chunks, write_file-chunks, write_file-write_failed,
}
use mohican.Worker.Connection.Processing.{connection_processing}
use mohican.Worker.Connection.Processing.Events.{now, event, is_bad_request, Later-IsUnhandled}
use mohican.Worker.Connection.Processing.Names.{Lowers}
use mohican.Worker.Connection.Processing.Blocks.{connection_processing-Keeps}
use mohican.Worker.Connection.Processing.Serve.{IsRequestFor, connection_processing-file}
use mohican.Tests.Http.{found, request, day, root, as_given, request_is_sendable}

abbrev pub no_match : Text → Text → Result Bool
no_match pattern url = ok false

abbrev idle : Stream
idle = record { arriving = []; accepting = []; sent = [] }

abbrev pub os : Os
os = record {
  client = idle;
  proxy = idle;
  files = λ path. regular (codes "hi");
  dial = record {
    socket_opened = true;
    socket = 9;
    option_set = true;
    resolved = true;
    address_parsed = true;
    connected = true;
  };
  is_proxy_closed = false;
  seconds = λ tick. 7;
  ticks = 0;
  now = day;
  stale_flag = false;
  stale_failed = false;
}

abbrev pub location : Location
location = record {
  url = codes "/";
  root = root;
  upstreams = [];
  case_sensitive = true;
  is_access_log = none;
  is_error_log = none;
  is_proxy = false;
}

abbrev pub server : ServerSettings
server = record new_server { prefix_match_urls = location ∷ [] }

abbrev bad : Connection
bad = record {
  sock = none;
  proxy_sock = none;
  stage = Stage.bad_request;
  server_settings = server;
  timeout = 0;
  line = [];
  request = new_request;
  response = new_response;
  location = none;
  request_str = [];
  response_str = [];
  request_pos = 0;
  response_pos = 0;
  upstream_buffer = [];
  buffer_read_count = 0;
  get_body_ind = 0;
  send_body_ind = 0;
  body_length = 0;
  file_fd = missing;
  os = os;
}

Later-IsUnhandled_example :
    ((connection_processing no_match as_given (record bad { os = os })).1.stage ≡ Stage.bad_request)
    × ((os' : Os)
        → (connection_processing no_match as_given
            (record (connection_processing no_match as_given (record bad { os = os })).1 {
              os = os';
            })).0
          ≡ ok Status.connection_processing)
Later-IsUnhandled_example =
    Later-IsUnhandled no_match as_given {c = bad} (event os now) is_bad_request

write_header_example :
    (s : Sending) × (write_header
        (codes "ab\n")
        0
        (wrote 1 ∷ taken (0 ∷ []) (wrote 2 ∷ []))
        []
        false
      ≡ ok s)
    × (s.end ≡ done)
    × (s.str ≡ [])
    × (s.unused ≡ [])
    × (s.out ≡ [] ++ (codes "ab" ++ crlf))
write_header_example =
    write_header-At (codes "ab\n") 0 b'a' (codes "b") b'\n' (0 ∷ []) 0 0 [] [] false
      (At-start (codes "ab\n")) (omega arith) refl

write_file_example :
    ((write_file (takes_chunks (0 ∷ []) []) (codes "hi") [] false false).out ≡ [] ++ codes "hi")
    × ((write_file (takes_chunks (0 ∷ []) []) (codes "hi") [] false false).at_end ≡ true)
write_file_example = write_file-chunks (0 ∷ []) [] (codes "hi") [] false false (omega arith)

write_file_failed_example :
    (let first = write_file (write_failed ∷ []) (codes "hi") [] false false in
      (write_file (takes_chunks (0 ∷ []) []) first.rest first.out false false).out)
    ≡ [] ++ drop 100 (codes "hi")
write_file_failed_example =
    write_file-write_failed [] (0 ∷ []) [] (codes "hi") [] false false false false (omega arith)

abbrev pub get_text : Text
get_text = codes "GET /a.txt HTTP/1.1\r\nHost: a\r\n\r\n"

pub get_text-written : HttpRequest.get_string as_given request ≡ ok get_text
unfolding get_string first_line header_lines header_line to_string to_string_onto digits_onto
get_text-written = refl

abbrev pub client_sends : Text → List Written → Os
client_sends str accepting = record os {
  client = record { arriving = bytes str []; accepting = accepting; sent = [] };
}

abbrev fresh : Os → Connection
fresh os = record bad { stage = Stage.get_request; os = os }

get_request_example : get_request (fresh (client_sends get_text [])) ≡ (
  ok true,
  record (fresh (client_sends get_text [])) {
    line = [];
    request = received as_given request (pos 1) (pos 1) request_is_sendable;
    os =
        set_stream client_socket
          (took [] (client_sends get_text []).client)
          (client_sends get_text []);
  },
)
get_request_example =
    get_request-get_string as_given request (pos 1) (pos 1) request_is_sendable
      (fresh (client_sends get_text [])) get_text get_text-written refl refl refl

connection_processing-Keeps_example : Keeps Lowers (connection_processing no_match as_given)
connection_processing-Keeps_example = connection_processing-Keeps no_match as_given

-- n writes that each take a byte
abbrev pub ones : ℕ → List ℕ
ones zero = []
ones (suc n) = 0 ∷ ones n

-- The header of the response, without its first and its last byte.
abbrev header_text : Text
header_text =
    codes
      "TTP/1.1 200 OK\r\nServer: mohican\r\nContent-Type: text/plain\r\nContent-Length: 2\r\nConnection: Close\r\nDate: Tue, 07 Jan 2021 09:05:30 GMT\r\n"

abbrev response : HttpResponse
response = finish day (pos 1) (pos 1) found

header-written : HttpResponse.get_string as_given response ≡ ok (b'H' ∷ (header_text ++ b'\n' ∷ []))
unfolding finish HttpResponse.get_string text_eq header_line get_date
header-written = refl

-- The socket takes the header, the line break and the file.
abbrev client_takes : List Written
client_takes = wrote 1 ∷ taken (ones (length header_text)) (wrote 2 ∷ takes_chunks (0 ∷ []) [])

abbrev getting : Connection
getting = fresh (client_sends get_text client_takes)

abbrev got : Connection
got = record getting {
  line = [];
  request = received as_given request (pos 1) (pos 1) request_is_sendable;
  os =
      set_stream client_socket (took [] (client_sends get_text client_takes).client)
        (client_sends get_text client_takes);
}

getting-got : get_request getting ≡ (ok true, got)
getting-got =
    get_request-get_string as_given request (pos 1) (pos 1) request_is_sendable getting get_text
      get_text-written refl refl refl

file_found : http_handler (file_system got.os) got.os.now got.request root ≡ ok response
unfolding http_handler handle_version answer text_eq opened_answer get_content_type rfind substr
    lookup types sub_size
file_found = refl

is_for_file :
    IsRequestFor no_match as_given got location (codes "hi") response b'H' header_text b'\n'
unfolding get_location first_location text_eq starts_with
is_for_file = record {
  located = refl;
  is_local = refl;
  answered = file_found;
  written = header-written;
  exists = refl;
  fits = omega arith;
  not_empty = omega arith;
  at_start = refl;
}

connection_processing-file_example :
    (c' : Connection) × (connection_processing no_match as_given getting
      ≡ (ok Status.connection_finished, c'))
    × (c'.os.client.sent ≡ ([] ++ (codes "H" ++ header_text ++ crlf)) ++ codes "hi")
connection_processing-file_example =
    connection_processing-file no_match as_given getting got location (codes "hi") response b'H'
      header_text b'\n' is_for_file 0 (ones (length header_text)) 0 (0 ∷ []) [] getting-got refl
      refl refl (omega arith)
