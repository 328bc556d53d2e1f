-- ===== src/Http/Request/Whole.antt =====
-- project/http/src/http_request.cpp: the constructor of HttpRequest from the text of a whole request.
pub mod Fields
pub mod RoundTrip
pub mod Ends
use mohican.Common.{
  require, ℕ, zero, suc, ◌+◌, Bool, true, false, ◌||◌, Option, none, some, List, [], ◌∷◌, ◌==◌,
  if◌then◌else◌, length, Exception, delim_exception, Method, ◌>>=◌, ◌>>◌, return, lift, modify,
}
use mohican.Text.{Text, char_at, find, substr, sub_size, skip_while, is_blank, string_to_lower}
use mohican.Http.Headers.{insert}
use mohican.Http.Request.{HttpRequest, read_first_line}

-- The field that begins at start_pos, for a line feed at lf_pos. The colon is looked for in all that
-- follows, also behind the line feed.
unfoldable pub read_field : Text → ℕ → ℕ → Method HttpRequest (Unit {0})
read_field str start_pos lf_pos = do
  colon_pos ← require (find str b':' start_pos) (delim_exception "Colon not found")
  header_name ← lift (substr str start_pos (sub_size colon_pos start_pos))
  value_pos ← lift (skip_while is_blank str (colon_pos + 1))
  header_value ← lift (substr str value_pos (sub_size (sub_size lf_pos 1) value_pos))
  modify (λ r. record r {
    headers = insert (string_to_lower header_name) (string_to_lower header_value) r.headers;
  })

-- One iteration, for the result of str.find('\n', start_pos); `next` goes on from a position.
unfoldable pub read_line_at :
    Text → ℕ → (ℕ → Method HttpRequest Bool) → Option ℕ → Method HttpRequest Bool
read_line_at str start_pos next none = return true
read_line_at str start_pos next (some lf_pos) = do
  first ← lift (char_at str start_pos)
  if lf_pos == start_pos || first == b'\r'
      then return true
      else (do read_field str start_pos lf_pos; next (lf_pos + 1))

-- while (true) { ... }, with fuel; `false` says that the fuel has run out.
unfoldable pub read_fields : ℕ → Text → ℕ → Method HttpRequest Bool
read_fields zero str start_pos = return false
read_fields (suc fuel) str start_pos =
    read_line_at str start_pos (read_fields fuel str) (find str b'\n' start_pos)

-- HttpRequest(str): the position of the first line feed serves the request line, where
-- read_first_line finds it again, and the loop.
unfoldable pub make_request : Text → Method HttpRequest Bool
make_request str = do
  lf_pos ← require (find str b'\n' 0) (delim_exception "Line feed not found")
  read_first_line str
  read_fields (suc (length str)) str (lf_pos + 1)
