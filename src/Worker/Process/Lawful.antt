-- ===== src/Worker/Process/Lawful.antt =====
-- ClientConnection as the class of the connections of a worker process: the laws of that class.
use mohican.Common.{
  ℕ, ◌≡◌, ◌⊎◌, inl, inr, refl, Bool, true, Option, none, some, Result, ok, throw, undefined,
}
use mohican.Text.{Text}
use mohican.Http.Headers.{Headers}
use mohican.Config.Server.{ServerSettings}
use mohican.Worker.Os.{Os}
use mohican.Worker.Connection.Stage.{Status, Connection, new_connection}
use mohican.Worker.Connection.Processing.{connection_processing}
use mohican.Worker.Connection.Sockets.Late.{is_late}
use mohican.Worker.Connection.Sockets.Once.{Connected, Connected-Keeps}
use mohican.Worker.Connection.Sockets.Valid.{IsValid, connection_processing-Stays}
use mohican.Worker.Process.Connections.{at_event, or_before, client_connections}
use mohican.Worker.Process.Step.Sound.{IsLawful}

-- The invariant of a connection, whatever its client socket.
abbrev pub Valid : Connection → Type 0
Valid c = (c.proxy_sock ≡ none) ⊎ (is_late c.stage ≡ true)

or_before-IsValid :
    {x : Option ℕ} (c : Connection) (r : Result Status) (c' : Connection)
    → IsValid x c
    → (r ≡ undefined) ⊎ IsValid x c'
    → IsValid x (or_before c (r, c')).1
or_before-IsValid c (ok status) c' v (inr h) = h
or_before-IsValid c (ok status) c' v (inl e) = cc
or_before-IsValid c (throw e) c' v (inr h) = h
or_before-IsValid c (throw e) c' v (inl e') = cc
or_before-IsValid c undefined c' v h = v

or_before-Connected :
    {x y : Option ℕ} (c : Connection) (r : Result Status) (c' : Connection)
    → c.proxy_sock ≡ y
    → Connected x y c'
    → (or_before c (r, c')).1.proxy_sock ≡ y
or_before-Connected c (ok status) c' e h = h.1
or_before-Connected c (throw e') c' e h = h.1
or_before-Connected c undefined c' e h = e

module _ (regex : Text → Text → Result Bool) (each : Headers → Headers) where
  event-IsValid :
      (os : Os) (c : Connection)
      → Valid c
      → IsValid c.sock (or_before c (connection_processing regex each (at_event os c))).1
  event-IsValid os c v =
      let c' = at_event os c in
      or_before-IsValid c (connection_processing regex each c').0
        (connection_processing regex each c').1 (refl, v)
        ((connection_processing-Stays regex each).at c' (refl, v))

  event-proxy_sock :
      (os : Os) (c : Connection) (fd : ℕ)
      → Valid c
      → c.proxy_sock ≡ some fd
      → (or_before c (connection_processing regex each (at_event os c))).1.proxy_sock ≡ some fd
  event-proxy_sock os c fd (inl e) h = cc
  event-proxy_sock os c fd (inr late) h =
      let c' = at_event os c in
      or_before-Connected c (connection_processing regex each c').0
        (connection_processing regex each c').1 h
        ((Connected-Keeps regex each).at c' (refl, h, late))

  -- A connection keeps its client socket, and the socket of its upstream from the first event on
  -- that gave it one, on every outcome that is not undefined behaviour.
  pub client_connections-IsLawful :
      (server_settings : ServerSettings) (timeout body_length : ℕ) (os : Os)
      → IsLawful (client_connections regex each server_settings timeout body_length os)
  unfolding new_connection
  client_connections-IsLawful server_settings timeout body_length os = record {
    Valid = Valid;
    create-Valid = inl refl;
    sock-create = refl;
    proxy_sock-create = refl;
    set_socket-Valid = λ fd. inl refl;
    sock-set_socket = λ fd. refl;
    processing-Valid = λ world c v. (event-IsValid world c v).1;
    sock-processing = λ world c v. (event-IsValid world c v).0;
    proxy_sock-processing = λ world c fd v h. event-proxy_sock world c fd v h;
  }
