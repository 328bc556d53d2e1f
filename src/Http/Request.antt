-- ===== src/Http/Request.antt =====
-- project/http/src/http_request.cpp: HttpRequest with its base HttpBase. The version numbers have
-- no value until the request line is read; a read of them before that is undefined.
pub mod Line
pub mod RoundTrip
pub mod Field
pub mod Names
pub mod Whole
use mohican.Common.{
  require, ℕ, ◌+◌, ◌-◌, Bool, true, false, not, ◌&&◌, ◌||◌, Option, none, some, List, [], ◌∷◌, ◌++◌,
  ◌==◌, if◌then◌else◌, length, ℤ, Exception, delim_exception, read_exception, Result, ok, throw,
  undefined, Method, ◌>>=◌, ◌>>◌, return, raise, lift, modify, bind, String,
}
use mohican.Text.{
  Text, codes, char_at, find, substr, sub_size, skip_while, is_blank, string_to_lower, to_string,
  c_str, sscanf, Directive, int, literal, literals,
}
use mohican.Http.Headers.{Header, Headers, insert}

pub record HttpRequest : Type 0 where
  pub version_major : Option ℤ
  pub version_minor : Option ℤ
  pub headers : Headers
  pub method : Text
  pub url : Text
  pub first_line_added : Bool
  pub headers_read : Bool
  pub request_ended : Bool

-- HttpRequest() = default
abbrev pub new_request : HttpRequest
new_request = record {
  version_major = none;
  version_minor = none;
  headers = [];
  method = [];
  url = [];
  first_line_added = false;
  headers_read = false;
  request_ended = false;
}

-- A byte inside the string; the callers check the length.
abbrev pub is_byte : Text → ℕ → ℕ → Bool
is_byte line i c = elim (char_at line i) [ ok b ↦ b == c | _ ↦ false ]

abbrev pub protocol_format : List Directive
protocol_format = literals (codes "HTTP/") ++ (int ∷ literal b'.' ∷ int ∷ [])

-- What sscanf stores: it leaves the variables behind the first failure as they were.
abbrev pub store_version : List ℤ → HttpRequest → HttpRequest
store_version [] r = r
store_version (major ∷ []) r = record r { version_major = some major }
store_version (major ∷ minor ∷ rest) r = record r {
  version_major = some major;
  version_minor = some minor;
}

-- The test `sscanf(...) != 2`.
abbrev pub require_two : List ℤ → Method HttpRequest (Unit {0})
require_two (major ∷ minor ∷ []) = return tt
require_two _ = raise (read_exception "Error while reading from file descriptor")

unfoldable pub scan_protocol : Text → Method HttpRequest (Unit {0})
scan_protocol protocol = do
  is ← lift (sscanf protocol_format (c_str protocol))
  modify (store_version is)
  require_two is

-- The request line, from byte `start` of `line` on: method, url and protocol between spaces.
unfoldable pub read_first_line : Text → Method HttpRequest (Unit {0})
read_first_line line = do
  lf_pos ← require (find line b'\n' 0) (delim_exception "Line feed not found")
  method_end ← require (find line b' ' 0) (delim_exception "Space not found")
  method ← lift (substr line 0 method_end)
  modify (λ r. record r { method = method })
  url_start ← lift (skip_while is_blank line (method_end + 1))
  url_end ← require (find line b' ' url_start) (delim_exception "Space not found")
  url ← lift (substr line url_start (sub_size url_end url_start))
  modify (λ r. record r { url = url })
  protocol_start ← lift (skip_while is_blank line (url_end + 1))
  protocol ← lift (substr line protocol_start (sub_size (sub_size lf_pos 1) protocol_start))
  scan_protocol protocol

unfoldable pub add_first_line : Text → Method HttpRequest (Unit {0})
add_first_line line = do read_first_line line; modify (λ r. record r { first_line_added = true })

-- The part of add_header behind the test for the blank line.
unfoldable pub read_header : Text → ℕ → Method HttpRequest (Unit {0})
read_header line lf_pos = do
  colon_pos ← require (find line b':' 0) (delim_exception "Colon not found")
  header_name ← lift (substr line 0 colon_pos)
  start_pos ← lift (skip_while is_blank line (colon_pos + 1))
  header_value ← lift (substr line start_pos (sub_size (sub_size lf_pos 1) start_pos))
  modify (λ r. record r {
    headers = insert (string_to_lower header_name) (string_to_lower header_value) r.headers;
  })

unfoldable pub add_header : Text → Method HttpRequest (Unit {0})
add_header line = do
  lf_pos ← require (find line b'\n' 0) (delim_exception "Line feed not found")
  first ← lift (char_at line 0)
  if lf_pos == 0 || first == b'\r'
      then modify (λ r. record r { headers_read = true })
      else read_header line lf_pos

-- The line that ends a request: two or three bytes with a carriage return.
unfoldable pub is_last_line : Text → Bool
is_last_line line =
    (length line == 2 || length line == 3) && (is_byte line 0 b'\r' || is_byte line 1 b'\r')

abbrev end_request : Method HttpRequest (Unit {0})
end_request = modify (λ r. record r { request_ended = true })

unfoldable pub add_line : Text → Method HttpRequest (Unit {0})
unfolding modify
add_line line r =
    if is_last_line line
    then end_request r
    else if not r.first_line_added
    then add_first_line line r
    else if not r.headers_read
    then add_header line r
    else end_request r

abbrev pub crlf : Text
crlf = b'\r' ∷ b'\n' ∷ []

unfoldable pub first_line : HttpRequest → ℤ → ℤ → Text
first_line r major minor =
    r.method
    ++ (codes " "
        ++ (r.url
            ++ (codes " HTTP/" ++ (to_string major ++ (codes "." ++ (to_string minor ++ crlf))))))

unfoldable pub header_line : Header → Text
header_line (name, value) = name ++ (codes ": " ++ (value ++ crlf))

unfoldable pub header_lines : Headers → Text
header_lines [] = []
header_lines (h ∷ hs) = header_line h ++ header_lines hs

abbrev pub with_versions : {A : Type 0} → Option ℤ → Option ℤ → (ℤ → ℤ → A) → Result A
with_versions (some major) (some minor) f = ok (f major minor)
with_versions none minor f = undefined
with_versions (some major) none f = undefined

-- get_string; `each` is the order in which the container gives its entries
unfoldable pub get_string : (Headers → Headers) → HttpRequest → Result Text
get_string each r =
    with_versions r.version_major r.version_minor
      λ major minor. first_line r major minor ++ (header_lines (each r.headers) ++ crlf)

-- The lines of a message, given one after the other.
unfoldable pub add_lines : List Text → Method HttpRequest (Unit {0})
add_lines [] = return tt
add_lines (line ∷ lines) = do add_line line; add_lines lines
