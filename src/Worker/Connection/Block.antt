-- ===== src/Worker/Connection/Block.antt =====
-- client_connection.cpp: what a block of connection_processing gives back, and how a block ends
-- that waits or whose call threw.
use mohican.Common.{
  Bool, Option, none, some, if◌then◌else◌, ok, throw, undefined, Method, ◌>>=◌, ◌>>◌, return, get,
}
use mohican.Worker.Connection.Stage.{Stage, Status, Connection}
use mohican.Worker.Connection.Progress.{set_stage, is_timeout}

-- What one block of connection_processing does: it returns a status, or the next block goes on.
abbrev pub Block : Type 0
Block = Method Connection (Option Status)

abbrev pub go_on : Block
go_on = return none

abbrev pub exit_with : Status → Block
exit_with status = return (some status)

abbrev pub timeout_error : Block
timeout_error = do
  late ← is_timeout
  if late then exit_with Status.connection_timeout_error else go_on

abbrev pub proxy_timeout : Block
proxy_timeout = do
  late ← is_timeout
  if late then (do set_stage Stage.proxy_timeout; go_on) else go_on

-- try { b = m(); } catch (std::exception &) { handler } with the value that b has behind it
unfoldable pub attempt : Method Connection Bool → Method Connection Bool → Method Connection Bool
attempt m handler c = elim (m c).0 [
  | ok b ↦ (ok b, (m c).1)
  | throw e ↦ handler (m c).1
  | undefined ↦ (undefined, (m c).1)
]

-- The value of a bool that was never assigned.
abbrev pub stale : Method Connection Bool
stale = do c ← get; return c.os.stale_flag
