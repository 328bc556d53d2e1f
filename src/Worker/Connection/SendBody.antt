-- ===== src/Worker/Connection/SendBody.antt =====
-- client_connection.cpp: send_body, the loop that writes the buffer of a body to a socket.
use mohican.Common.{
  ℕ, zero, suc, ◌+◌, Bool, true, false, List, [], ◌∷◌, ◌++◌, ◌==◌, if◌then◌else◌, Result, ok, throw,
  undefined, Method, ◌>>=◌, ◌>>◌, return, lift, modify, get,
}
use mohican.Text.{Text, char_at}
use mohican.Worker.Os.{Written, wrote, write_failed, Socket, stream, set_stream}
use mohican.Worker.Connection.Send.{gave}
use mohican.Worker.Connection.Stage.{Connection}
use mohican.Worker.Connection.Progress.{note_progress, fail}

pub record BodySending : Type 0 where
  pub index : ℕ
  pub unused : List Written
  pub out : Text
  pub failed : Bool  -- write_result == -1
  pub is_write_data : Bool

-- The loop of send_body over the buffer from send_body_ind on, up to get_body_ind.
unfoldable pub write_body : Text → ℕ → ℕ → List Written → Text → Bool → Result BodySending
write_body buffer last index [] out moved =
    ok (record { index = index; unused = []; out = out; failed = true; is_write_data = moved })
write_body buffer last index (write_failed ∷ tape) out moved =
    ok (record { index = index; unused = tape; out = out; failed = true; is_write_data = moved })
write_body buffer last index (wrote zero ∷ tape) out moved =
    ok (record { index = index; unused = tape; out = out; failed = false; is_write_data = moved })
write_body buffer last index (wrote (suc n) ∷ tape) out moved = elim (char_at buffer index) [
  | ok c ↦ elim (index + 1 == last) [
    | true ↦ ok (record {
      index = index + 1;
      unused = tape;
      out = out ++ c ∷ [];
      failed = false;
      is_write_data = moved;
    })
    | false ↦ write_body buffer last (index + 1) tape (out ++ c ∷ []) true
  ]
  | throw e ↦ throw e
  | undefined ↦ undefined
]

abbrev store_body_sending : Socket → BodySending → Connection → Connection
store_body_sending socket b c = record c {
  send_body_ind = b.index;
  os = set_stream socket (gave b.unused b.out (stream socket c.os)) c.os;
}

unfoldable pub send_body : Socket → Method Connection Bool
send_body socket = do
  c ← get
  b ← lift (
      write_body c.upstream_buffer c.get_body_ind c.send_body_ind (stream socket c.os).accepting
        (stream socket c.os).sent false)
  modify (store_body_sending socket b)
  if b.failed
      then fail
      else (do moved ← note_progress b.is_write_data; return (b.index == c.get_body_ind))
