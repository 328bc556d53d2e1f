-- ===== src/Worker/Connection/Progress.antt =====
-- client_connection.cpp: the timeout of a connection and the ends of its transfers.
use mohican.Common.{ℕ, ◌+◌, Bool, true, false, ltb, ok, Method, ◌>>=◌, ◌>>◌, return, modify, get}
use mohican.Worker.Connection.Stage.{Stage, Connection}

abbrev pub set_stage : Stage → Method Connection (Unit {0})
set_stage stage = modify (λ c. record c { stage = stage })

-- clock() / CLOCKS_PER_SEC
unfoldable pub read_clock : Method Connection ℕ
read_clock c =
    (ok (c.os.seconds c.os.ticks), record c { os = record (c.os) { ticks = c.os.ticks + 1 } })

-- is_timeout, with CLIENT_SEC_TIMEOUT = 5
unfoldable pub is_timeout : Method Connection Bool
is_timeout = do seconds ← read_clock; c ← get; return (ltb (c.timeout + 5) seconds)

-- `if (is_data) timeout = clock() / CLOCKS_PER_SEC; return false;`
unfoldable pub note_progress : Bool → Method Connection Bool
note_progress true = do
  seconds ← read_clock
  modify (λ c. record c { timeout = seconds })
  return false
note_progress false = return false

-- `stage = ERROR_STAGE; return false;`
unfoldable pub fail : Method Connection Bool
fail = do set_stage Stage.error_stage; return false
