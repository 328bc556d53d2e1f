-- ===== src/Worker/Connection/Send.antt =====
-- client_connection.cpp: send_header, the loop that writes a header to a socket. Log lines are not
-- modelled.
pub mod Laws
use mohican.Common.{
  ℕ, zero, suc, ◌+◌, ◌-◌, ◌≡◌, Bool, true, false, not, ◌&&◌, ◌||◌, Option, none, some, List, [],
  ◌∷◌, ◌++◌, ◌==◌, ltb, leb, if◌then◌else◌, length, take, drop, Result, ok, throw, undefined,
  Method, ◌>>=◌, ◌>>◌, return, raise, lift, modify, get,
}
use mohican.Text.{Text, codes, char_at, sub_size}
use mohican.Http.Request as HttpRequest
use mohican.Http.Request.{HttpRequest, crlf}
use mohican.Http.Response as HttpResponse
use mohican.Http.Response.{HttpResponse}
use mohican.Worker.Os.{
  Received, byte, end_of_stream, read_failed, Written, wrote, write_failed, FileEntry, missing,
  directory, regular, Stream, Os, Socket, client_socket, proxy_socket, stream, set_stream,
}
use mohican.Worker.Connection.Stage.{Stage, Connection}
use mohican.Worker.Connection.Progress.{set_stage, read_clock, note_progress, fail}

-- A write loop: how it ended, and what it left. `str` is cleared before the last write.
pub data SendEnd : Type 0 where
  done paused broken : SendEnd

pub record Sending : Type 0 where
  pub end : SendEnd
  pub str : Text
  pub pos : ℕ
  pub unused : List Written
  pub out : Text
  pub is_write_data : Bool

-- write(socket, "\r\n", 2) behind the last byte but one
unfoldable pub finish_header : ℕ → List Written → Text → Bool → Sending
finish_header pos [] out moved = record {
  end = broken;
  str = [];
  pos = pos;
  unused = [];
  out = out;
  is_write_data = moved;
}
finish_header pos (write_failed ∷ tape) out moved = record {
  end = broken;
  str = [];
  pos = pos;
  unused = tape;
  out = out;
  is_write_data = moved;
}
finish_header pos (wrote n ∷ tape) out moved = record {
  end = done;
  str = [];
  pos = pos;
  unused = tape;
  out = out ++ take n crlf;
  is_write_data = moved;
}

-- The loop of send_header, a byte at a time from `pos` on.
unfoldable pub write_header : Text → ℕ → List Written → Text → Bool → Result Sending
write_header str pos [] out moved =
    ok
      (record { end = broken; str = str; pos = pos; unused = []; out = out; is_write_data = moved })
write_header str pos (write_failed ∷ tape) out moved =
    ok (record {
      end = broken;
      str = str;
      pos = pos;
      unused = tape;
      out = out;
      is_write_data = moved;
    })
write_header str pos (wrote zero ∷ tape) out moved =
    ok (record {
      end = paused;
      str = str;
      pos = pos;
      unused = tape;
      out = out;
      is_write_data = moved;
    })
write_header str pos (wrote (suc n) ∷ tape) out moved = elim (char_at str pos) [
  | ok c ↦ elim (pos + 1 == sub_size (length str) 1) [
    | true ↦ ok (finish_header (pos + 1) tape (out ++ c ∷ []) moved)
    | false ↦ write_header str (pos + 1) tape (out ++ c ∷ []) true
  ]
  | throw e ↦ throw e
  | undefined ↦ undefined
]

-- What a write loop did to a stream.
abbrev pub gave : List Written → Text → Stream → Stream
gave unused out s = record s { accepting = unused; sent = out }

abbrev pub conclude_send : Sending → Method Connection Bool
conclude_send s = elim s.end [
  | done ↦ return true
  | broken ↦ fail
  | paused ↦ note_progress s.is_write_data
]

abbrev pub store_request_sending : Sending → Connection → Connection
store_request_sending s c = record c {
  request_str = s.str;
  request_pos = s.pos;
  os = set_stream proxy_socket (gave s.unused s.out c.os.proxy) c.os;
}

-- send_header(request_str_, proxy_sock, request_pos)
unfoldable pub send_request_header : Method Connection Bool
send_request_header = do
  c ← get
  s ← lift (write_header c.request_str c.request_pos c.os.proxy.accepting c.os.proxy.sent false)
  modify (store_request_sending s)
  conclude_send s

abbrev store_response_sending : Sending → Connection → Connection
store_response_sending s c = record c {
  response_str = s.str;
  response_pos = s.pos;
  os = set_stream client_socket (gave s.unused s.out c.os.client) c.os;
}

-- send_header(response_str_, sock, response_pos)
unfoldable pub send_response_header : Method Connection Bool
send_response_header = do
  c ← get
  s ← lift (write_header c.response_str c.response_pos c.os.client.accepting c.os.client.sent false)
  modify (store_response_sending s)
  conclude_send s
