-- ===== src/Worker/Connection/Processing/Pass.antt =====
-- client_connection.cpp: a request for a location that is passed on to an upstream.
use mohican.Common.{
  ◌≡◌, refl, ◌∙◌, Bool, true, ◌&&◌, none, some, List, ◌∷◌, drop, Result, ok, ◌>>=◌, if◌then◌else◌,
}
use mohican.Text.{Text}
use mohican.Http.Headers.{Headers}
use mohican.Http.Request as HttpRequest
use mohican.Http.Request.{HttpRequest}
use mohican.Config.Upstream.{UpstreamSettings}
use mohican.Config.Server.{Location, get_location}
use mohican.Worker.Connection.Stage.{Stage, number, Status, Connection}
use mohican.Worker.Connection.Receive.{get_request}
use mohican.Worker.Connection.Respond.{get_request_block, process_location, choose_stage}
use mohican.Worker.Connection.Proxy.{connect_to_upstream, opened, pass_to_proxy_block}
use mohican.Worker.Connection.Processing.{
  blocks, in_order, at_stage, at_stages, connection_processing,
}
use mohican.Worker.Connection.Processing.Chain.{
  in_order-goes, in_order-returns, at_same, at_other, attempt-ok,
}

-- The connection c has read a whole request for the location l, whose first upstream is u.
pub record IsRequestToPass (regex : Text → Text → Result Bool) (each : Headers → Headers)
    (c : Connection) (l : Location) (u : UpstreamSettings) (us : List UpstreamSettings) (str : Text)
    : Type 0 where
  pub located : get_location regex c.server_settings c.request.url ≡ ok l
  pub is_passed : l.is_proxy ≡ true
  pub has_upstream : l.upstreams ≡ u ∷ us
  pub written : HttpRequest.get_string each c.request ≡ ok str

module _ (regex : Text → Text → Result Bool) (each : Headers → Headers) (c c1 : Connection)
    (l : Location) (u : UpstreamSettings) (us : List UpstreamSettings) (str : Text)
    (h : IsRequestToPass regex each c1 l u us str) where
  abbrev placed : Connection
  placed = record c1 { location = some l; stage = Stage.pass_to_proxy }

  -- The connection that waits for the upstream to take the header of the request.
  abbrev pub passed : Connection
  passed = record c1 {
    location = some l;
    stage = Stage.send_header_to_proxy;
    proxy_sock = opened c1.os.dial;
    request_str = str;
  }

  get_request_block-pass_to_proxy :
      get_request c ≡ (ok true, c1) → get_request_block regex c ≡ (ok none, placed)
  unfolding process_location choose_stage ◌>>=◌
  get_request_block-pass_to_proxy e =
      rw (attempt-ok get_request _ c c1 true e, h.located, h.is_passed) refl

  pass_to_proxy_block-passed :
      (c1.os.dial.socket_opened && c1.os.dial.option_set) ≡ true
      → ((if u.is_ip then c1.os.dial.address_parsed else c1.os.dial.resolved)
          && c1.os.dial.connected)
        ≡ true
      → pass_to_proxy_block each placed ≡ (ok (some Status.checkout_proxy_for_write), passed)
  unfolding connect_to_upstream ◌>>=◌
  pass_to_proxy_block-passed opens dials = rw (opens, h.has_upstream, dials, h.written) refl

  -- A connection in the first stage whose event brings a whole request for a location that is
  -- passed on, and whose calls to reach the first upstream of the location succeed, ends the event
  -- waiting to write to the upstream, with its location and the text of the request.
  pub connection_processing-passed :
      get_request c ≡ (ok true, c1)
      → c.stage ≡ Stage.get_request
      → (c1.os.dial.socket_opened && c1.os.dial.option_set) ≡ true
      → ((if u.is_ip then c1.os.dial.address_parsed else c1.os.dial.resolved)
          && c1.os.dial.connected)
        ≡ true
      → connection_processing regex each c ≡ (ok Status.checkout_proxy_for_write, passed)
  unfolding connection_processing in_order at_stage at_stages ◌>>=◌ number
  connection_processing-passed e at_first opens dials =
      let all = blocks regex each in
      in_order-goes (at_stage Stage.error_stage _) (drop 1 all) c c
        (at_other Stage.error_stage _ c Stage.get_request at_first refl)
      ∙ in_order-goes (at_stage Stage.get_request (get_request_block regex)) (drop 2 all) c placed
          (at_same Stage.get_request _ c at_first ∙ get_request_block-pass_to_proxy e)
      ∙ in_order-returns (at_stage Stage.pass_to_proxy (pass_to_proxy_block each)) (drop 4 all)
          placed passed Status.checkout_proxy_for_write (pass_to_proxy_block-passed opens dials)
