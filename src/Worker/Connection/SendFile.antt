-- ===== src/Worker/Connection/SendFile.antt =====
-- client_connection.cpp: send_file, the loop that writes a file to the client.
pub mod Chunks
use mohican.Common.{
  ℕ, zero, suc, ◌+◌, ◌-◌, ◌≡◌, Bool, true, false, not, ◌&&◌, ◌||◌, Option, none, some, List, [],
  ◌∷◌, ◌++◌, ◌==◌, ltb, leb, if◌then◌else◌, length, take, drop, Result, ok, throw, undefined,
  Method, ◌>>=◌, ◌>>◌, return, raise, lift, modify, get,
}
use mohican.Text.{Text, codes, char_at, sub_size}
use mohican.Http.Request as HttpRequest
use mohican.Http.Request.{HttpRequest, crlf}
use mohican.Http.Response as HttpResponse
use mohican.Http.Response.{HttpResponse}
use mohican.Worker.Os.{
  Received, byte, end_of_stream, read_failed, Written, wrote, write_failed, FileEntry, missing,
  directory, regular, Stream, Os, Socket, client_socket, proxy_socket, stream, set_stream,
}
use mohican.Worker.Connection.Send.{gave}
use mohican.Worker.Connection.Stage.{Stage, Connection}
use mohican.Worker.Connection.Progress.{set_stage, read_clock, note_progress, fail}

pub record FileSending : Type 0 where
  pub rest : Text
  pub unused : List Written
  pub out : Text
  pub at_end : Bool  -- read_code == 0
  pub wrote_once : Bool  -- write_result was assigned
  pub is_write_data : Bool

-- The loop of send_file over a regular file: 100 bytes are read, then as many are written as the
-- socket takes. A chunk that was read and not written is not read again.
unfoldable pub write_file : List Written → Text → Text → Bool → Bool → FileSending
write_file tape [] out once moved = record {
  rest = [];
  unused = tape;
  out = out;
  at_end = true;
  wrote_once = once;
  is_write_data = moved;
}
write_file [] (c ∷ cs) out once moved = record {
  rest = drop 100 (c ∷ cs);
  unused = [];
  out = out;
  at_end = false;
  wrote_once = true;
  is_write_data = moved;
}
write_file (write_failed ∷ tape) (c ∷ cs) out once moved = record {
  rest = drop 100 (c ∷ cs);
  unused = tape;
  out = out;
  at_end = false;
  wrote_once = true;
  is_write_data = moved;
}
write_file (wrote zero ∷ tape) (c ∷ cs) out once moved = record {
  rest = drop 100 (c ∷ cs);
  unused = tape;
  out = out;
  at_end = false;
  wrote_once = true;
  is_write_data = moved;
}
write_file (wrote (suc n) ∷ tape) (c ∷ cs) out once moved =
    write_file tape (drop 100 (c ∷ cs)) (out ++ take (suc n) (take 100 (c ∷ cs))) true true

-- The loop over what the descriptor names; a read of a directory or of -1 fails.
abbrev pub write_entry : FileEntry → List Written → Text → FileSending
write_entry (regular content) tape out = write_file tape content out false false
write_entry missing tape out = record {
  rest = [];
  unused = tape;
  out = out;
  at_end = false;
  wrote_once = false;
  is_write_data = false;
}
write_entry (directory size) tape out = record {
  rest = [];
  unused = tape;
  out = out;
  at_end = false;
  wrote_once = false;
  is_write_data = false;
}

abbrev pub rest_of : FileEntry → Text → FileEntry
rest_of (regular content) rest = regular rest
rest_of missing rest = missing
rest_of (directory size) rest = directory size

abbrev store_file : FileSending → Connection → Connection
store_file f c = record c {
  file_fd = rest_of c.file_fd f.rest;
  os = set_stream client_socket (gave f.unused f.out c.os.client) c.os;
}

-- `write_result` holds the value of `write(...) > 0`, so it equals -1 only if it was never assigned
-- and holds that by chance.
unfoldable pub send_file : Method Connection Bool
send_file = do
  c ← get
  let f = write_entry c.file_fd c.os.client.accepting c.os.client.sent
  modify (store_file f)
  if not f.wrote_once && c.os.stale_failed
      then fail
      else if f.at_end
      then return true
      else note_progress f.is_write_data
