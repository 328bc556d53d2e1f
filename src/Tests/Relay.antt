-- ===== src/Tests/Relay.antt =====
-- A GET request that goes on to an upstream.
use mohican.Common.{◌≡◌, refl, [], ◌∷◌, ◌++◌, length, pos, ok, arith}
use mohican.Text.{
  Text, codes, text_eq, starts_with, to_string, to_string_onto, digits_onto, string_to_lower,
  to_lower,
}
use mohican.Http.Headers.{insert, insert_all}
use mohican.Http.Request as HttpRequest
use mohican.Http.Request.{crlf, header_line, header_lines, first_line, get_string}
use mohican.Config.Server.{first_location, get_location}
use mohican.Worker.Os.{wrote, Os}
use mohican.Worker.Connection.Stage.{Stage, Status, Connection, new_connection}
use mohican.Worker.Connection.Receive.Request.{received}
use mohican.Worker.Connection.Send.Laws.{taken}
use mohican.Worker.Connection.Processing.{connection_processing}
use mohican.Worker.Connection.Processing.Relay.{IsProxied, connection_processing-relayed}
use mohican.Tests.Http.{request, as_given, request_is_sendable}
use mohican.Tests.Worker.{no_match, os, client_sends, ones, get_text, get_text-written}
use mohican.Tests.Proxy.{upstream, proxy_location, fresh}

abbrev asking : Connection
asking = record fresh { os = client_sends get_text [] }

asking-IsProxied : IsProxied no_match as_given asking request proxy_location upstream []
unfolding new_connection get_location first_location text_eq starts_with
asking-IsProxied = record {
  at_first = refl;
  no_line = refl;
  no_request = refl;
  nothing_sent = refl;
  is_get = refl;
  located = refl;
  is_passed = refl;
  has_upstream = refl;
  opens = refl;
  connects = refl;
}

-- The text that goes on, without its first and its last byte.
abbrev relayed : Text
relayed = codes "ET /a.txt HTTP/1.1\r\nhost: a\r\n\r"

relayed-written :
    HttpRequest.get_string as_given (received as_given request (pos 1) (pos 1) request_is_sendable)
    ≡ ok (b'G' ∷ (relayed ++ b'\n' ∷ []))
unfolding get_string first_line header_lines header_line to_string to_string_onto digits_onto
    insert_all insert string_to_lower to_lower
relayed-written = refl

abbrev upstream_takes : Os
upstream_takes = record os {
  proxy = record {
    arriving = [];
    accepting = wrote 1 ∷ taken (ones (length relayed)) (wrote 2 ∷ []);
    sent = [];
  };
}

connection_processing-relayed_example :
    (c1 c2 : Connection) × (connection_processing no_match as_given asking
      ≡ (ok Status.checkout_proxy_for_write, c1))
    × (connection_processing no_match as_given (record c1 { os = upstream_takes })
        ≡ (ok Status.checkout_proxy_for_read, c2))
    × (c2.os.proxy.sent ≡ [] ++ (codes "G" ++ relayed ++ crlf))
    × (c2.stage ≡ Stage.get_response_from_proxy)
connection_processing-relayed_example =
    connection_processing-relayed no_match as_given asking request (pos 1) (pos 1)
      request_is_sendable proxy_location upstream [] asking-IsProxied get_text b'G' relayed b'\n'
      upstream_takes 0 (ones (length relayed)) 0 [] get_text-written refl relayed-written
      (omega arith) refl refl
