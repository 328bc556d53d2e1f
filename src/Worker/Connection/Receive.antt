-- ===== src/Worker/Connection/Receive.antt =====
-- client_connection.cpp: the loops that read from the sockets. Log lines are not modelled.
pub mod Lines
pub mod Request
use mohican.Common.{
  ℕ, zero, suc, ◌+◌, ◌-◌, ◌≡◌, Bool, true, false, not, ◌&&◌, ◌||◌, Option, none, some, List, [],
  ◌∷◌, ◌++◌, ◌==◌, ltb, leb, if◌then◌else◌, length, take, drop, Result, ok, throw, undefined,
  Method, ◌>>=◌, ◌>>◌, return, raise, lift, modify, get,
}
use mohican.Text.{Text, codes, char_at, sub_size}
use mohican.Http.Request as HttpRequest
use mohican.Http.Request.{HttpRequest, crlf}
use mohican.Http.Response as HttpResponse
use mohican.Http.Response.{HttpResponse}
use mohican.Worker.Os.{
  Received, byte, end_of_stream, read_failed, Written, wrote, write_failed, FileEntry, missing,
  directory, regular, Stream, Os, Socket, client_socket, proxy_socket, stream, set_stream,
}
use mohican.Worker.Connection.Stage.{Stage, Connection}
use mohican.Worker.Connection.Progress.{set_stage, read_clock, note_progress, fail}

-- The end of a read loop: was the last result -1, and was a byte read?
pub record Ended : Type 0 where
  pub failed : Bool
  pub is_read_data : Bool

pub record Intake (M : Type 0) : Type 0 where
  pub unread : List Received
  pub partial_line : Text
  pub message : M

-- The loop over the bytes of a message of type M. A line feed ends a line, unless it stands alone.
module _ {M : Type 0} (add_line : Text → Method M (Unit {0})) where
  unfoldable pub read_lines : List Received → Text → M → Bool → Result Ended × Intake M
  read_lines [] line m moved = (
    ok (record { failed = true; is_read_data = moved }),
    record { unread = []; partial_line = line; message = m },
  )
  read_lines (end_of_stream ∷ tape) line m moved = (
    ok (record { failed = false; is_read_data = moved }),
    record { unread = end_of_stream ∷ tape; partial_line = line; message = m },
  )
  read_lines (read_failed ∷ tape) line m moved = (
    ok (record { failed = true; is_read_data = moved }),
    record { unread = tape; partial_line = line; message = m },
  )
  read_lines (byte c ∷ tape) line m moved =
      let line' = line ++ c ∷ [] in
      let m' = (add_line line' m).1 in
      let stop : Intake M = record { unread = tape; partial_line = line'; message = m' } in
      elim (c == b'\n' && not (length line' == 1)) [
        | false ↦ read_lines tape line' m true
        | true ↦ elim (add_line line' m).0 [
          | ok done ↦ read_lines tape [] m' true
          | throw e ↦ (throw e, stop)
          | undefined ↦ (undefined, stop)
        ]
      ]

-- What a read loop took off a stream.
abbrev pub took : List Received → Stream → Stream
took unread s = record s { arriving = unread }

abbrev store_request : Intake HttpRequest → Connection → Connection
store_request i c = record c {
  line = i.partial_line;
  request = i.message;
  os = set_stream client_socket (took i.unread c.os.client) c.os;
}

-- The end of get_request and of get_proxy_header.
abbrev pub conclude : Bool → Ended → Method Connection Bool
conclude true e = return true
conclude false e = if e.failed then fail else note_progress e.is_read_data

unfoldable pub get_request : Method Connection Bool
get_request = do
  c ← get
  let (result, intake) = read_lines HttpRequest.add_line c.os.client.arriving c.line c.request false
  modify (store_request intake)
  ended ← lift result
  conclude intake.message.request_ended ended

abbrev store_response : Intake HttpResponse → Connection → Connection
store_response i c = record c {
  upstream_buffer = i.partial_line;
  response = i.message;
  os = set_stream proxy_socket (took i.unread c.os.proxy) c.os;
}

unfoldable pub get_proxy_header : Method Connection Bool
get_proxy_header = do
  c ← get
  let (result, intake) =
      read_lines HttpResponse.add_line c.os.proxy.arriving c.upstream_buffer c.response false
  modify (store_response intake)
  ended ← lift result
  conclude intake.message.response_ended ended

abbrev pub buffer_length : ℕ
buffer_length = 1024

pub record BodyIntake : Type 0 where
  pub unread : List Received
  pub buffer : Text
  pub count : ℕ  -- get_body_ind
  pub failed : Bool  -- result_read == -1
  pub is_read_data : Bool

-- The loop of get_body; `failed` is the test of result_read if the loop ends before a read.
unfoldable pub read_body : List Received → Text → ℕ → Bool → Bool → BodyIntake
read_body [] buffer count failed moved = record {
  unread = [];
  buffer = buffer;
  count = count;
  failed = if ltb count buffer_length then true else failed;
  is_read_data = moved;
}
read_body (end_of_stream ∷ tape) buffer count failed moved = record {
  unread = end_of_stream ∷ tape;
  buffer = buffer;
  count = count;
  failed = if ltb count buffer_length then false else failed;
  is_read_data = moved;
}
read_body (read_failed ∷ tape) buffer count failed moved = record {
  unread = if ltb count buffer_length then tape else read_failed ∷ tape;
  buffer = buffer;
  count = count;
  failed = if ltb count buffer_length then true else failed;
  is_read_data = moved;
}
read_body (byte c ∷ tape) buffer count failed moved = elim (ltb count buffer_length) [
  | true ↦ read_body tape (buffer ++ c ∷ []) (count + 1) false true
  | false ↦ record {
    unread = byte c ∷ tape;
    buffer = buffer;
    count = count;
    failed = failed;
    is_read_data = moved;
  }
]

abbrev store_body : Socket → BodyIntake → Connection → Connection
store_body socket b c = record c {
  upstream_buffer = b.buffer;
  buffer_read_count = c.buffer_read_count + (b.count - c.get_body_ind);
  get_body_ind = b.count;
  os = set_stream socket (took b.unread (stream socket c.os)) c.os;
}

-- `get_body_ind >= BUFFER_LENGTH || buffer_read_count >= body_length`
abbrev pub is_body_ready : Connection → Bool
is_body_ready c = leb buffer_length c.get_body_ind || leb c.body_length c.buffer_read_count

unfoldable pub get_body : Socket → Method Connection Bool
get_body socket = do
  c ← get
  let b =
      read_body (stream socket c.os).arriving c.upstream_buffer c.get_body_ind c.os.stale_failed
        false
  modify (store_body socket b)
  if b.failed
      then fail
      else (do moved ← note_progress b.is_read_data; c' ← get; return (is_body_ready c'))
