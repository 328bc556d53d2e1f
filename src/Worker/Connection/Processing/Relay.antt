-- ===== src/Worker/Connection/Processing/Relay.antt =====
-- client_connection.cpp: a GET request for a location that is passed on, from the bytes of the client
-- to the bytes that the upstream gets.
use mohican.Common.{
  ℕ, suc, ◌^◌, ◌<◌, ◌≡◌, refl, Bool, true, false, ◌&&◌, List, [], ◌∷◌, ◌++◌, length, Result, ok,
  ◌>>=◌, ℤ,
}
use mohican.Text.{Text, codes, text_eq, At-start}
use mohican.Http.Headers.{Headers}
use mohican.Http.Request as HttpRequest
use mohican.Http.Request.{HttpRequest, new_request, crlf}
use mohican.Http.Request.RoundTrip.{IsSendable}
use mohican.Config.Upstream.{UpstreamSettings}
use mohican.Config.Server.{Location, get_location}
use mohican.Worker.Os.{Os, Written, wrote, set_stream, client_socket}
use mohican.Worker.Connection.Stage.{Stage, Status, Connection}
use mohican.Worker.Connection.Receive.{took}
use mohican.Worker.Connection.Receive.Lines.{bytes}
use mohican.Worker.Connection.Receive.Request.{received, get_request-get_string}
use mohican.Worker.Connection.Send.{
  Sending, done, write_header, send_request_header, store_request_sending,
}
use mohican.Worker.Connection.Send.Laws.{taken, write_header-At}
use mohican.Worker.Connection.Proxy.{dials}
use mohican.Worker.Connection.Processing.{in_order, at_stage, at_stages, connection_processing}
use mohican.Worker.Connection.Processing.Pass.{
  IsRequestToPass, passed, connection_processing-passed,
}

send_request_header-done :
    (c : Connection) (s : Sending)
    → write_header c.request_str c.request_pos c.os.proxy.accepting c.os.proxy.sent false ≡ ok s
    → s.end ≡ done
    → send_request_header c ≡ (ok true, store_request_sending s c)
unfolding send_request_header ◌>>=◌
send_request_header-done c s e k = rw (e, k) refl

module _ (regex : Text → Text → Result Bool) (each : Headers → Headers) where
  -- The event that sends all of the header of a GET request.
  event-sent :
      (c c1 : Connection)
      → send_request_header (record c { stage = Stage.send_header_to_proxy }) ≡ (ok true, c1)
      → text_eq c1.request.method (codes "GET") ≡ true
      → connection_processing regex each (record c { stage = Stage.send_header_to_proxy })
        ≡ (ok Status.checkout_proxy_for_read, record c1 { stage = Stage.get_response_from_proxy })
  unfolding connection_processing in_order at_stage at_stages ◌>>=◌
  event-sent c c1 e m = rw (e, m) refl

-- The connection c has read nothing of the request r, which it will have to pass on to the upstream
-- u, with the text b ∷ (text ++ d ∷ []).
pub record IsProxied (regex : Text → Text → Result Bool) (each : Headers → Headers) (c : Connection)
    (r : HttpRequest) (l : Location) (u : UpstreamSettings) (us : List UpstreamSettings)
    : Type 0 where
  pub at_first : c.stage ≡ Stage.get_request
  pub no_line : c.line ≡ []
  pub no_request : c.request ≡ new_request
  pub nothing_sent : c.request_pos ≡ 0
  pub is_get : text_eq r.method (codes "GET") ≡ true
  pub located : get_location regex c.server_settings r.url ≡ ok l
  pub is_passed : l.is_proxy ≡ true
  pub has_upstream : l.upstreams ≡ u ∷ us
  pub opens : (c.os.dial.socket_opened && c.os.dial.option_set) ≡ true
  pub connects : dials c.os.dial u.is_ip ≡ true

module _ (regex : Text → Text → Result Bool) (each : Headers → Headers) (c : Connection)
    (r : HttpRequest) (major minor : ℤ) (h : IsSendable r major minor (each r.headers))
    (l : Location) (u : UpstreamSettings) (us : List UpstreamSettings)
    (p : IsProxied regex each c r l u us) where
  -- The connection with the request.
  abbrev read : Connection
  read = record c {
    line = [];
    request = received each r major minor h;
    os = set_stream client_socket (took [] c.os.client) c.os;
  }

  -- A connection that has read nothing gets the text that get_string writes of a GET request
  -- that can be sent, for a location that is passed on, and the calls to connect to its first
  -- upstream succeed: the event ends in a wait to write to the upstream. At the next event let the
  -- socket of the upstream take a byte or more at each write and then the line break. Then the
  -- upstream has got the text that get_string writes of the request as it was read, its last byte
  -- replaced by a line break, and the connection waits to read the response.
  pub connection_processing-relayed :
      (arrived : Text) (b : ℕ) (text : Text) (d : ℕ) (os : Os) (k : ℕ) (ks : List ℕ) (n : ℕ)
      (rest : List Written)
      → HttpRequest.get_string each r ≡ ok arrived
      → c.os.client.arriving ≡ bytes arrived []
      → HttpRequest.get_string each (received each r major minor h) ≡ ok (b ∷ (text ++ d ∷ []))
      → length (b ∷ (text ++ d ∷ [])) < 2 ^ 64
      → os.proxy.accepting ≡ wrote (suc k) ∷ taken ks (wrote (suc (suc n)) ∷ rest)
      → length ks ≡ length text
      → (c1 c2 : Connection) × (connection_processing regex each c
          ≡ (ok Status.checkout_proxy_for_write, c1))
        × (connection_processing regex each (record c1 { os = os })
            ≡ (ok Status.checkout_proxy_for_read, c2))
        × (c2.os.proxy.sent ≡ os.proxy.sent ++ ((b ∷ text) ++ crlf))
        × (c2.stage ≡ Stage.get_response_from_proxy)
  connection_processing-relayed arrived b text d os k ks n rest e a w fits takes el =
      let str : Text = b ∷ (text ++ d ∷ []) in
      let reads =
        get_request-get_string each r major minor h c arrived e p.no_line p.no_request a in
      let pass : IsRequestToPass regex each read l u us str = record {
        located = p.located;
        is_passed = p.is_passed;
        has_upstream = p.has_upstream;
        written = w;
      } in
      let waiting = passed regex each c read l u us str pass in
      let first =
        connection_processing-passed regex each c read l u us str pass reads p.at_first p.opens
          p.connects in
      let woken = record waiting { os = os } in
      let (s, runs, is_done, cleared, left, sent) =
        write_header-At str 0 b text d ks k n rest os.proxy.sent false (At-start _) fits el in
      let writes : write_header str c.request_pos os.proxy.accepting os.proxy.sent false ≡ ok s =
        rw (p.nothing_sent, takes) runs in
      let second =
        event-sent regex each woken (store_request_sending s woken)
          (send_request_header-done woken s writes is_done) p.is_get in
      (waiting, _, first, second, sent, refl)
