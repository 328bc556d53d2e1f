-- ===== src/Tests/Proxy.antt =====
-- Connections that pass their request on.
use mohican.Common.{
  ◌≡◌, ap, refl, Bool, true, false, [], ◌∷◌, pos, Result, ok, throw, invalid_argument, arith, ◌>>=◌,
}
use mathlib.Core.Path.{subst}
use mohican.Text.{
  sub_size, Text, codes, text_eq, char_at, starts_with, to_string, to_string_onto, digits_onto,
}
use mohican.Http.Headers.{insert_all}
use mohican.Http.Request as HttpRequest
use mohican.Http.Request.{
  HttpRequest, new_request, crlf, header_line, header_lines, first_line, get_string,
}
use mohican.Http.Request.Line.{protocol_of}
use mohican.Http.Request.RoundTrip.{IsSendable}
use mohican.Config.Upstream.{UpstreamSettings}
use mohican.Config.Server.{Location, ServerSettings, new_server, first_location, get_location}
use mohican.Worker.Os.{wrote, Os, set_stream, client_socket}
use mohican.Worker.Connection.Stage.{Status, Connection, new_connection, set_socket}
use mohican.Worker.Connection.Receive.{get_request, took}
use mohican.Worker.Connection.Receive.Request.{received, get_request-get_string}
use mohican.Worker.Connection.Send.{send_request_header, finish_header, write_header}
use mohican.Worker.Connection.Send.Laws.{taken}
use mohican.Worker.Connection.Processing.{connection_processing}
use mohican.Worker.Connection.Processing.Events.{Later, now, event}
use mohican.Worker.Connection.Processing.Bodies.{connection_processing-body}
use mohican.Worker.Connection.Processing.Pass.{
  IsRequestToPass, passed, connection_processing-passed,
}
use mohican.Tests.Http.{request, as_given, lacks-IsWord}
use mohican.Tests.Worker.{no_match, os, location, client_sends, ones}

-- The location that passes requests on, and its server.
abbrev pub upstream : UpstreamSettings
upstream = record { upstream_address = codes "a"; weight = pos 1; port = pos 80; is_ip = false }

abbrev pub proxy_location : Location
proxy_location = record location { is_proxy = true; upstreams = upstream ∷ [] }

abbrev proxy_server : ServerSettings
proxy_server = record new_server { prefix_match_urls = proxy_location ∷ [] }

abbrev post : HttpRequest
post = record request { headers = []; method = codes "POST"; url = codes "/" }

abbrev post_text : Text
post_text = codes "POST / HTTP/1.1\r\n\r\n"

post_is_sendable : IsSendable post (pos 1) (pos 1) []
unfolding protocol_of to_string to_string_onto
post_is_sendable = record {
  has_major = refl;
  has_minor = refl;
  request_line = record {
    method_word = lacks-IsWord (codes "POST") refl;
    url_word = lacks-IsWord (codes "/") refl;
    url_ne_nil = λ e. cc;
    major_int = refl;
    minor_int = refl;
    fits = omega arith;
  };
  fields = tt;
}

post_text-written : HttpRequest.get_string as_given post ≡ ok post_text
unfolding get_string first_line header_lines to_string to_string_onto digits_onto
post_text-written = refl

-- A connection as a worker makes it.
abbrev pub fresh : Connection
fresh = set_socket 5 (new_connection proxy_server 0 0 os)

abbrev posting : Connection
posting = record fresh { os = client_sends post_text [] }

abbrev posted : Connection
posted = record posting {
  line = [];
  request = received as_given post (pos 1) (pos 1) post_is_sendable;
  os =
      set_stream client_socket (took [] (client_sends post_text []).client)
        (client_sends post_text []);
}

posting-posted : get_request posting ≡ (ok true, posted)
unfolding new_connection
posting-posted =
    get_request-get_string as_given post (pos 1) (pos 1) post_is_sendable posting post_text
      post_text-written refl refl refl

is_to_pass : IsRequestToPass no_match as_given posted proxy_location upstream [] post_text
unfolding new_connection get_location first_location text_eq starts_with get_string first_line
    header_lines to_string to_string_onto digits_onto insert_all
is_to_pass = record { located = refl; is_passed = refl; has_upstream = refl; written = refl }

abbrev proxied : Connection
proxied = passed no_match as_given posting posted proxy_location upstream [] post_text is_to_pass

posting-passed :
    connection_processing no_match as_given posting ≡ (ok Status.checkout_proxy_for_write, proxied)
unfolding new_connection
posting-passed =
    connection_processing-passed no_match as_given posting posted proxy_location upstream []
      post_text is_to_pass posting-posted refl refl refl

abbrev proxy_takes : Os
proxy_takes = record os {
  proxy = record { arriving = []; accepting = taken (ones 18) (wrote 2 ∷ []); sent = [] };
}

proxied-Later : Later no_match as_given fresh proxied
proxied-Later =
    subst (Later no_match as_given fresh) (ap (λ p. p.1) posting-passed)
      (event (client_sends post_text []) now)

abbrev sent_request : Result Bool × Connection
sent_request = send_request_header (record proxied { os = proxy_takes })

sent_request-ok : sent_request ≡ (ok true, sent_request.1)
unfolding send_request_header write_header finish_header char_at sub_size new_connection ◌>>=◌
sent_request-ok = refl

sent_request-method : text_eq sent_request.1.request.method (codes "GET") ≡ false
unfolding send_request_header write_header finish_header char_at sub_size new_connection ◌>>=◌
    text_eq
sent_request-method = refl

connection_processing-body_example :
    (connection_processing no_match as_given (record proxied { os = proxy_takes })).0
    ≡ throw invalid_argument
connection_processing-body_example =
    connection_processing-body no_match as_given proxy_server 0 0 os 5 proxied-Later proxy_takes
      sent_request.1 refl sent_request-ok sent_request-method
