-- ===== src/Worker/Connection/Processing/Names.antt =====
-- client_connection.cpp: the names of the header fields that a connection keeps.
use mohican.Common.{
  ℕ, ◌≡◌, ◌≢◌, ◌&&◌, not, ◌==◌, ◌++◌, length, sym, refl, Bool, true, false, Option, none, some,
  List, [], ◌∷◌, Result, ok, throw, undefined, Method, ◌>>=◌, modify, return, raise, lift, get,
  if◌then◌else◌, Exception, Keeps, Keeps-bind, Keeps-modify, Keeps-require, Keeps-lift,
  Keeps-return, Keeps-raise, Keeps-get, arith,
}
use mathlib.Core.Path.{subst}
use mohican.Text.{Text}
use mohican.Http.Headers.LowerNames.{HasLowerNames}
use mohican.Http.Request.{add_line}
use mohican.Http.Request.Names.{add_line-HasLowerNames}
use mohican.Worker.Os.{Received, byte, end_of_stream, read_failed, Socket}
use mohican.Worker.Connection.Stage.{Stage, Connection}
use mohican.Worker.Connection.Progress.{is_timeout, read_clock, note_progress, fail}
use mohican.Worker.Connection.Receive.{
  Ended, conclude, read_lines, get_request, get_proxy_header, get_body,
}
use mohican.Worker.Connection.Send.{
  SendEnd, done, paused, broken, Sending, conclude_send, send_request_header, send_response_header,
}
use mohican.Worker.Connection.SendFile.{send_file}
use mohican.Worker.Connection.SendBody.{send_body}
use mohican.Worker.Connection.Block.{attempt}
use mohican.Worker.Connection.Proxy.{connect_to_upstream}

-- The request that a connection has read so far has names in lower case.
abbrev pub Lowers : Connection → Type 0
Lowers c = HasLowerNames c.request.headers

pub keep :
    (f : Connection → Connection)
    → ((c : Connection) → (f c).request ≡ c.request)
    → Keeps Lowers (modify f)
keep f same = Keeps-modify f λ c h. subst (λ r. HasLowerNames r.headers) (sym (same c)) h

pub ruleset keeps = (Keeps-bind, Keeps-require, Keeps-lift, Keeps-return, Keeps-raise, Keeps-get)

module _ {M : Type 0} (P : M → Type 0) (add_line : Text → Method M (Unit {0}))
    (kept : (line : Text) (m : M) → P m → P (add_line line m).1) where
  read_lines-kept :
      (tape : List Received) (line : Text) (m : M) (moved : Bool)
      → P m
      → P (read_lines add_line tape line m moved).1.message
  unfolding read_lines
  read_lines-kept [] line m moved h = h
  read_lines-kept (end_of_stream ∷ tape) line m moved h = h
  read_lines-kept (read_failed ∷ tape) line m moved h = h
  read_lines-kept (byte c ∷ tape) line m moved h =
      let h' = kept (line ++ c ∷ []) m h in
      ground (
        arith,
        h',
        read_lines-kept tape (line ++ c ∷ []) m true h,
        read_lines-kept tape [] (add_line (line ++ c ∷ []) m).1 true h',
      )

pub read_clock-Keeps : Keeps Lowers read_clock
unfolding read_clock
read_clock-Keeps = record { at = λ c h. h }

pub is_timeout-Keeps : Keeps Lowers is_timeout
unfolding is_timeout
is_timeout-Keeps = search (keeps, read_clock-Keeps) depth 8

pub set_stage-Keeps : (stage : Stage) → Keeps Lowers (modify λ c. record c { stage = stage })
set_stage-Keeps stage = keep _ λ c. refl

pub note_progress-Keeps : (moved : Bool) → Keeps Lowers (note_progress moved)
unfolding note_progress
note_progress-Keeps true =
    Keeps-bind _ _ read_clock-Keeps
      λ seconds. Keeps-bind _ _ (keep _ λ c. refl) λ done. Keeps-return false
note_progress-Keeps false = Keeps-return false

pub fail-Keeps : Keeps Lowers fail
unfolding fail
fail-Keeps = Keeps-bind _ _ (set_stage-Keeps _) λ done. Keeps-return false

pub if-Keeps :
    {A : Type 0} (b : Bool) (m k : Method Connection A)
    → Keeps Lowers m
    → Keeps Lowers k
    → Keeps Lowers (if b then m else k)
if-Keeps true m k h h' = h
if-Keeps false m k h h' = h'

pub ruleset steps = (keeps, if-Keeps, keep, refl, is_timeout-Keeps, note_progress-Keeps, fail-Keeps)

pub conclude-Keeps : (ended : Bool) (e : Ended) → Keeps Lowers (conclude ended e)
conclude-Keeps true e = Keeps-return true
conclude-Keeps false e = search (steps) depth 4

pub ended-Keeps :
    (end : SendEnd) (moved : Bool)
    → Keeps Lowers (elim end [ done ↦ return true | broken ↦ fail | paused ↦ note_progress moved ])
ended-Keeps done moved = Keeps-return true
ended-Keeps paused moved = note_progress-Keeps moved
ended-Keeps broken moved = fail-Keeps

pub conclude_send-Keeps : (s : Sending) → Keeps Lowers (conclude_send s)
conclude_send-Keeps s = ended-Keeps s.end s.is_write_data

-- A reader replaces the request by what its loop leaves.
pub get_request-Keeps : Keeps Lowers get_request
unfolding get_request ◌>>=◌
get_request-Keeps = record {
  at = λ c h.
      let i = read_lines add_line c.os.client.arriving c.line c.request false in
      let h' =
        read_lines-kept (λ r. HasLowerNames r.headers) add_line add_line-HasLowerNames
          c.os.client.arriving c.line c.request false h in
      (Keeps-bind _ _ (Keeps-lift i.0) λ ended. conclude-Keeps i.1.message.request_ended ended).at _
        h';
}

pub get_proxy_header-Keeps : Keeps Lowers get_proxy_header
unfolding get_proxy_header
get_proxy_header-Keeps = search (steps, conclude-Keeps) depth 12

pub get_body-Keeps : (socket : Socket) → Keeps Lowers (get_body socket)
unfolding get_body
get_body-Keeps socket = search (steps) depth 12

pub send_request_header-Keeps : Keeps Lowers send_request_header
unfolding send_request_header
send_request_header-Keeps = search (steps, conclude_send-Keeps) depth 12

pub send_response_header-Keeps : Keeps Lowers send_response_header
unfolding send_response_header
send_response_header-Keeps = search (steps, conclude_send-Keeps) depth 12

pub send_file-Keeps : Keeps Lowers send_file
unfolding send_file
send_file-Keeps = search (steps) depth 12

pub send_body-Keeps : (socket : Socket) → Keeps Lowers (send_body socket)
unfolding send_body
send_body-Keeps socket = search (steps) depth 12

pub connect_to_upstream-Keeps : Keeps Lowers connect_to_upstream
unfolding connect_to_upstream
connect_to_upstream-Keeps = search (steps) depth 12

pub attempt-Keeps :
    (m handler : Method Connection Bool)
    → Keeps Lowers m
    → Keeps Lowers handler
    → Keeps Lowers (attempt m handler)
unfolding attempt
attempt-Keeps m handler h h' = record {
  at = λ c p. let q = h.at c p in let q' = h'.at (m c).1 q in ground arith;
}
