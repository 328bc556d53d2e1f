-- ===== src/Worker/Process/Connections.antt =====
-- The connections of a worker process: ClientConnection as the loop of worker_process.cpp calls it.
use mohican.Common.{ℕ, Bool, false, Result, ok, throw, undefined}
use mohican.Text.{Text}
use mohican.Http.Headers.{Headers}
use mohican.Config.Server.{ServerSettings}
use mohican.Worker.Os.{Os}
use mohican.Worker.Connection.Stage.{Status, Connection, new_connection, set_socket}
use mohican.Worker.Connection.Processing.{connection_processing}
use mohican.Worker.Process.{Clients}

-- An event brings the state of the sockets that the connection then sees.
abbrev pub at_event : Os → Connection → Connection
at_event os c = record c { os = record os { is_proxy_closed = false } }

-- Undefined behaviour leaves no object to speak of; here it leaves the one before the event.
abbrev pub or_before : Connection → Result Status × Connection → Result Status × Connection
or_before c (ok status, c') = (ok status, c')
or_before c (throw e, c') = (throw e, c')
or_before c (undefined, c') = (undefined, c)

-- `timeout` and `body_length` are the values that the constructor leaves without one, and `os` is
-- replaced at the first event.
abbrev pub client_connections :
    (Text → Text → Result Bool) → (Headers → Headers) → ServerSettings → ℕ → ℕ → Os → Clients
client_connections regex each server_settings timeout body_length os = record {
  Client = Connection;
  World = Os;
  create = new_connection server_settings timeout body_length os;
  set_socket = set_socket;
  connection_processing =
      λ world c. or_before c (connection_processing regex each (at_event world c));
  sock = λ c. c.sock;
  proxy_sock = λ c. c.proxy_sock;
  is_proxy_closed = λ c. c.os.is_proxy_closed;
}
