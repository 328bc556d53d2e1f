-- ===== src/Http/Response.antt =====
-- project/http/src/http_response.cpp: HttpResponse with its base HttpBase.
pub mod Names
pub mod Message
use mohican.Common.{
  ℕ, ◌+◌, Bool, true, false, not, ◌&&◌, ◌||◌, Option, none, some, List, [], ◌∷◌, ◌++◌, ◌==◌,
  if◌then◌else◌, length, ℤ, pos, Exception, delim_exception, read_exception, Result, ok, throw,
  undefined, Method, ◌>>=◌, ◌>>◌, return, raise, lift, modify, require,
}
use mohican.Text.{
  Text, codes, char_at, find, rfind, substr, sub_size, skip_while, is_blank, string_to_lower,
  to_string, c_str, sscanf, Directive, int, white, literal, literals,
}
use mohican.Http.Headers.{Header, Headers, insert}
use mohican.Http.Request.{is_byte, crlf, header_lines, with_versions}

pub record HttpResponse : Type 0 where
  pub version_major : Option ℤ
  pub version_minor : Option ℤ
  pub headers : Headers
  pub status : ℤ
  pub message : Text
  pub first_line_added : Bool
  pub headers_read : Bool
  pub response_ended : Bool

-- HttpResponse() = default
abbrev pub new_response : HttpResponse
new_response = record {
  version_major = none;
  version_minor = none;
  headers = [];
  status = pos 0;
  message = [];
  first_line_added = false;
  headers_read = false;
  response_ended = false;
}

-- HttpResponse(headers, major, minor, status, message)
unfoldable pub make_response : Headers → ℤ → ℤ → ℕ → Text → HttpResponse
make_response headers major minor status message = record new_response {
  version_major = some major;
  version_minor = some minor;
  headers = headers;
  status = pos status;
  message = message;
}

abbrev pub status_format : List Directive
status_format = literals (codes "HTTP/") ++ (int ∷ literal b'.' ∷ int ∷ white ∷ int ∷ [])

-- What sscanf stores: it leaves the variables behind the first failure as they were.
abbrev pub store_status : List ℤ → HttpResponse → HttpResponse
store_status [] r = r
store_status (major ∷ []) r = record r { version_major = some major }
store_status (major ∷ minor ∷ []) r = record r {
  version_major = some major;
  version_minor = some minor;
}
store_status (major ∷ minor ∷ status ∷ rest) r = record r {
  version_major = some major;
  version_minor = some minor;
  status = status;
}

-- The test `sscanf(...) != 3`.
abbrev pub require_three : List ℤ → Method HttpResponse (Unit {0})
require_three (major ∷ minor ∷ status ∷ []) = return tt
require_three _ = raise (read_exception "Error while reading from file descriptor")

unfoldable pub add_first_line : Text → Method HttpResponse (Unit {0})
add_first_line line = do
  lf_pos ← require (find line b'\n' 0) (delim_exception "Line feed not found")
  is ← lift (sscanf status_format (c_str line))
  modify (store_status is)
  require_three is
  start_pos ← require (rfind line b' ') (delim_exception "Space not found")
  message ← lift (substr line (start_pos + 1) (sub_size (sub_size lf_pos 1) start_pos))
  modify (λ r. record r { message = message; first_line_added = true })

-- The part of add_header behind the test for the blank line.
unfoldable pub read_header : Text → ℕ → Method HttpResponse (Unit {0})
read_header line lf_pos = do
  colon_pos ← require (find line b':' 0) (delim_exception "Colon not found")
  header_name ← lift (substr line 0 colon_pos)
  start_pos ← lift (skip_while is_blank line (colon_pos + 1))
  header_value ← lift (substr line start_pos (sub_size (sub_size lf_pos 1) start_pos))
  modify (λ r. record r { headers = insert (string_to_lower header_name) header_value r.headers })

unfoldable pub add_header : Text → Method HttpResponse (Unit {0})
add_header line = do
  lf_pos ← require (find line b'\n' 0) (delim_exception "Line feed not found")
  first ← lift (char_at line 0)
  if lf_pos == 0 || first == b'\r'
      then modify (λ r. record r { headers_read = true })
      else read_header line lf_pos

-- The line that ends the header: two bytes, the first a carriage return.
unfoldable pub is_last_line : Text → Bool
is_last_line line = length line == 2 && is_byte line 0 b'\r'

unfoldable pub add_line : Text → Method HttpResponse (Unit {0})
unfolding modify
add_line line r =
    if is_last_line line
    then modify (λ r. record r { response_ended = true }) r
    else if not r.first_line_added
    then add_first_line line r
    else if not r.headers_read
    then add_header line r
    else (ok tt, r)

-- The lines of a message, given one after the other.
unfoldable pub add_lines : List Text → Method HttpResponse (Unit {0})
add_lines [] = return tt
add_lines (line ∷ lines) = do add_line line; add_lines lines

unfoldable pub status_line : HttpResponse → ℤ → ℤ → Text
unfolding to_string
status_line r major minor =
    codes "HTTP/"
    ++ (to_string major
        ++ (codes "."
            ++ (to_string minor
                ++ (codes " " ++ (to_string r.status ++ (codes " " ++ (r.message ++ crlf)))))))

-- get_string; `each` is the order in which the container gives its entries
unfoldable pub get_string : (Headers → Headers) → HttpResponse → Result Text
unfolding status_line header_lines
get_string each r =
    with_versions r.version_major r.version_minor
      λ major minor. status_line r major minor ++ (header_lines (each r.headers) ++ codes "\n")
