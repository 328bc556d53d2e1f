-- ===== src/Worker/Connection/Processing/Events.antt =====
-- client_connection.cpp: the events of a connection in a row. Between two calls of
-- connection_processing anything may arrive, and the sockets may take anything.
use mohican.Common.{◌>>=◌, ◌≡◌, ap, refl, sym, ◌∙◌, Bool, Result, ok}
use mathlib.Core.Path.{subst}
use mohican.Text.{Text}
use mohican.Http.Headers.{Headers}
use mohican.Worker.Os.{Os}
use mohican.Worker.Connection.Stage.{Stage, Status, Connection}
use mohican.Worker.Connection.Processing.{connection_processing, in_order, at_stage, at_stages}

-- The object after one event, whatever the call gave back.
abbrev pub after_event :
    (Text → Text → Result Bool) → (Headers → Headers) → Connection → Os → Connection
after_event regex each c os = (connection_processing regex each (record c { os = os })).1

pub data Later (regex : Text → Text → Result Bool) (each : Headers → Headers) (c : Connection)
    : Connection → Type 0 where
  now : Later regex each c c
  event :
      {d : Connection} (os : Os)
      → Later regex each c d
      → Later regex each c (after_event regex each d os)

-- The stages that no block of connection_processing tests for.
pub data IsUnhandled : Stage → Type 0 where
  is_bad_request : IsUnhandled Stage.bad_request
  is_failed_to_connect : IsUnhandled Stage.failed_to_connect
  is_proxy_timeout : IsUnhandled Stage.proxy_timeout

module _ (regex : Text → Text → Result Bool) (each : Headers → Headers) where
  at_unhandled :
      {s : Stage} (h : IsUnhandled s) (c : Connection)
      → connection_processing regex each (record c { stage = s })
        ≡ (ok Status.connection_processing, record c { stage = s })
  unfolding connection_processing in_order at_stage at_stages ◌>>=◌
  at_unhandled is_bad_request c = refl
  at_unhandled is_failed_to_connect c = refl
  at_unhandled is_proxy_timeout c = refl

  event-unhandled :
      (c : Connection) (os : Os)
      → IsUnhandled c.stage
      → connection_processing regex each (record c { os = os })
        ≡ (ok Status.connection_processing, record c { os = os })
  event-unhandled c os h = at_unhandled h (record c { os = os })

  Later-stage :
      {c d : Connection} (later : Later regex each c d) → IsUnhandled c.stage → d.stage ≡ c.stage
  Later-stage now h = refl
  Later-stage (event {d = d} os later) h =
      let same = Later-stage later h in
      ap (λ p. p.1.stage) (event-unhandled d os (subst IsUnhandled (sym same) h)) ∙ same

  -- A connection whose stage no block handles keeps that stage at every later event, and each
  -- event answers "connection processing".
  pub Later-IsUnhandled :
      {c d : Connection} (later : Later regex each c d)
      → IsUnhandled c.stage
      → (d.stage ≡ c.stage)
        × ((os : Os)
            → (connection_processing regex each (record d { os = os })).0
              ≡ ok Status.connection_processing)
  Later-IsUnhandled {d = d} later h =
      let same = Later-stage later h in
      (same, λ os. ap (λ p. p.0) (event-unhandled d os (subst IsUnhandled (sym same) h)))
