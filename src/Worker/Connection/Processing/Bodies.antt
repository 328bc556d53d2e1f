-- ===== src/Worker/Connection/Processing/Bodies.antt =====
-- client_connection.cpp: the length of a body, as the field "Content-Length" gives it.
use mathlib.Core.Path.{subst}
use mohican.Common.{
  arith, ℕ, ◌≡◌, refl, sym, ap, ◌∙◌, Bool, true, false, [], ◌∷◌, Result, ok, throw,
  invalid_argument, ◌>>=◌,
}
use mohican.Text.{Text, codes, text_eq, stoul, scan_int, string_to_lower, to_lower}
use mohican.Http.Headers.{Headers, index}
use mohican.Http.Headers.LowerNames.{IsLower, HasLowerNames, lookup-HasLowerNames}
use mohican.Config.Server.{ServerSettings}
use mohican.Worker.Os.{Os}
use mohican.Worker.Connection.Stage.{Stage, Connection, new_connection, set_socket}
use mohican.Worker.Connection.Send.{send_request_header}
use mohican.Worker.Connection.Proxy.{body_length_of}
use mohican.Worker.Connection.Processing.{in_order, at_stage, at_stages, connection_processing}
use mohican.Worker.Connection.Processing.Events.{Later, now, event}
use mohican.Worker.Connection.Processing.Names.{Lowers, send_request_header-Keeps}
use mohican.Worker.Connection.Processing.Blocks.{connection_processing-Keeps}

abbrev first : Text → ℕ
first [] = 0
first (c ∷ cs) = c

content_length-IsLower-absurd : ¬ IsLower (codes "Content-Length")
unfolding string_to_lower to_lower
content_length-IsLower-absurd h = let e : 99 ≡ 67 = ap first h in absurd (omega (arith, e))

body_length_of-HasLowerNames :
    (hs : Headers) → HasLowerNames hs → body_length_of hs ≡ throw invalid_argument
unfolding index stoul scan_int
body_length_of-HasLowerNames hs h =
    rw (lookup-HasLowerNames (codes "Content-Length") hs content_length-IsLower-absurd h) refl

module _ (regex : Text → Text → Result Bool) (each : Headers → Headers) where
  at_send_header :
      (c c1 : Connection)
      → send_request_header (record c { stage = Stage.send_header_to_proxy }) ≡ (ok true, c1)
      → text_eq c1.request.method (codes "GET") ≡ false
      → Lowers c1
      → (connection_processing regex each (record c { stage = Stage.send_header_to_proxy })).0
        ≡ throw invalid_argument
  unfolding connection_processing in_order at_stage at_stages ◌>>=◌
  at_send_header c c1 e m h = rw (e, m, body_length_of-HasLowerNames c1.request.headers h) refl

  Later-Lowers : {c d : Connection} (later : Later regex each c d) → Lowers c → Lowers d
  Later-Lowers now h = h
  Later-Lowers (event {d = d} os later) h =
      (connection_processing-Keeps regex each).at (record d { os = os }) (Later-Lowers later h)

  -- Take a connection as a worker makes it, new and with the socket of its client, and any events
  -- since then. If the connection has the stage in which it sends the header of its request to the
  -- upstream, the header goes out in full, and the method is not GET, then the same event ends in
  -- the exception of std::stoul.
  pub connection_processing-body :
      (server_settings : ServerSettings) (timeout body_length : ℕ) (os : Os) (socket : ℕ)
      {d : Connection}
      (later : Later regex each
        (set_socket socket (new_connection server_settings timeout body_length os))
        d)
      (os' : Os) (c1 : Connection)
      → d.stage ≡ Stage.send_header_to_proxy
      → send_request_header (record d { os = os' }) ≡ (ok true, c1)
      → text_eq c1.request.method (codes "GET") ≡ false
      → (connection_processing regex each (record d { os = os' })).0 ≡ throw invalid_argument
  unfolding new_connection
  connection_processing-body settings timeout body_length os socket {d} later os' c1 s e m =
      let d' = record d { os = os' } in
      let at : Stage → Connection = λ s. record d { os = os'; stage = s } in
      let kept : Lowers (send_request_header d').1 =
        send_request_header-Keeps.at d' (Later-Lowers later tt) in
      ap (λ s. (connection_processing regex each (at s)).0) s
      ∙ at_send_header d' c1 (ap (λ s. send_request_header (at s)) (sym s) ∙ e) m
          (subst (λ p. Lowers p.1) e kept)
