-- ===== src/Tests/Http.antt =====
-- Requests and responses.
use mohican.Common.{
  ℕ, ◌≡◌, refl, ap, ◌^◌, ◌<◌, length, Bool, true, false, none, some, ◌==◌, ◌&&◌, not, map, List, [],
  ◌∷◌, ◌++◌, if◌then◌else◌, pos, negsuc, ok, arith,
}
use mohican.Text.{
  Text, codes, text_eq, rfind, substr, sub_size, Lacks, string_to_lower, to_lower, stoi, to_string,
  to_string_onto, digits_onto, stoi-to_string,
}
use mohican.Http.Headers.{
  Headers, HasDistinctNames, lookup, insert, insert_all, lookup-insert, insert-HasDistinctNames,
  lookup-insert_all,
}
use mohican.Http.Headers.LowerNames.{IsLower}
use mohican.Http.FileTypes.{types}
use mohican.Http.Date.{Tm}
use mohican.Http.Handler.ContentType.{file_extension, type_for, get_content_type-file_extension}
use mohican.Http.Handler.Outcomes.{Explains, Replies, answer-Explains, http_handler-Replies}
use mohican.Http.Request.Line.{IsWord, protocol_of}
use mohican.Http.Request.Field.{IsField}
use mohican.Http.Request.RoundTrip.{
  IsRequestLine, IsSendable, lines_of, lowered, add_lines-lines_of,
}
use mohican.Http.Request.Names.{lookup-add_lines}
use mohican.Http.Response.Names.{lookup-add_lines_response}
use mohican.Http.Response.Message.{message-add_first_line}
use mohican.Http.Request as HttpRequest
use mohican.Http.Request.{HttpRequest, new_request, first_line, header_line, crlf}
use mohican.Http.Response as HttpResponse
use mohican.Http.Response.{HttpResponse, new_response, make_response, status_line}
use mohican.Http.Handler.{
  FileSystem, st_size, Answer, opened_answer, handle_version, http_handler, finish, answer,
  get_content_type,
}

abbrev pub host : Headers
host = (codes "Host", codes "a") ∷ []

abbrev pub request : HttpRequest
request = record {
  version_major = some (pos 1);
  version_minor = some (pos 1);
  headers = host;
  method = codes "GET";
  url = codes "/a.txt";
  first_line_added = true;
  headers_read = false;
  request_ended = true;
}

abbrev pub day : Tm
day = record {
  tm_wday = 2;
  tm_mday = 7;
  tm_mon = 0;
  tm_year = 121;
  tm_hour = 9;
  tm_min = 5;
  tm_sec = 30;
}

-- One file of two bytes.
abbrev pub files : FileSystem
files path = st_size 2

abbrev pub root : Text
root = codes "srv"

abbrev pub found : Answer
found = record {
  status = 200;
  message = codes "OK";
  headers =
      (codes "Server", codes "mohican")
      ∷ (codes "Content-Type", codes "text/plain")
      ∷ (codes "Content-Length", codes "2")
      ∷ (codes "Connection", codes "Close")
      ∷ [];
}

pub answers : answer files request root ≡ ok found
unfolding answer text_eq opened_answer get_content_type rfind substr lookup types sub_size
answers = refl

pub handles : http_handler files day request root ≡ ok (finish day (pos 1) (pos 1) found)
unfolding http_handler handle_version answer text_eq opened_answer get_content_type rfind substr
    lookup types sub_size
handles = refl

answer-Explains_example : Explains files request root found
answer-Explains_example = answer-Explains files request root answers

http_handler-Replies_example : Replies files day request root (finish day (pos 1) (pos 1) found)
http_handler-Replies_example = http_handler-Replies files day request root handles

get_content_type_example :
    get_content_type (codes "/a.d/b") ≡ type_for (file_extension (codes "/a.d/b"))
get_content_type_example = get_content_type-file_extension (codes "/a.d/b") (omega arith)

lookup-insert_example : lookup (codes "Host") (insert (codes "Date") (codes "now") host) ≡ (
    if text_eq (codes "Date") (codes "Host")
    then some (codes "now")
    else lookup (codes "Host") host)
lookup-insert_example = lookup-insert (codes "Date") (codes "Host") (codes "now") host

host-HasDistinctNames : HasDistinctNames host
unfolding lookup
host-HasDistinctNames = (refl, tt)

insert-HasDistinctNames_example : HasDistinctNames (insert (codes "Date") (codes "now") host)
insert-HasDistinctNames_example =
    insert-HasDistinctNames (codes "Date") (codes "now") host host-HasDistinctNames

lookup-insert_all_example :
    lookup (codes "Host") (insert_all host host)
    ≡ (elim (lookup (codes "Host") host) [ none ↦ lookup (codes "Host") host | some v ↦ some v ])
lookup-insert_all_example = lookup-insert_all (codes "Host") host host host-HasDistinctNames

stoi-to_string_example : stoi (to_string (negsuc 41)) ≡ ok (negsuc 41)
stoi-to_string_example = stoi-to_string (negsuc 41) refl

-- A test that a byte does not occur.
abbrev lacks : ℕ → Text → Bool
lacks c [] = true
lacks c (x ∷ xs) = not (x == c) && lacks c xs

lacks_lem : (c : ℕ) (text : Text) → lacks c text ≡ true → Lacks c text
lacks_lem c [] h = tt
lacks_lem c (x ∷ xs) h = ground (arith, lacks_lem c xs)

pub lacks-IsWord : (text : Text) → (lacks b' ' text && lacks b'\n' text) ≡ true → IsWord text
lacks-IsWord text h = record {
  one_word = lacks_lem b' ' text (ground arith);
  one_line = lacks_lem b'\n' text (ground arith);
}

get_is_line : IsRequestLine request.method request.url (pos 1) (pos 1)
unfolding protocol_of to_string to_string_onto
get_is_line = record {
  method_word = lacks-IsWord (codes "GET") refl;
  url_word = lacks-IsWord (codes "/a.txt") refl;
  url_ne_nil = λ e. cc;
  major_int = refl;
  minor_int = refl;
  fits = omega arith;
}

abbrev first : Text → ℕ
first [] = 0
first (c ∷ cs) = c

host-IsField : IsField (codes "Host", codes "a")
unfolding header_line
host-IsField = record {
  name_word = lacks_lem b':' (codes "Host") refl;
  name_line = lacks_lem b'\n' (codes "Host") refl;
  no_return = lacks_lem b'\r' (codes "Host") refl;
  value_line = lacks_lem b'\n' (codes "a") refl;
  value_start = λ c cs e. let same : 97 ≡ c = ap first e in ground arith;
  fits = omega arith;
}

abbrev pub as_given : Headers → Headers
as_given hs = hs

pub request_is_sendable : IsSendable request (pos 1) (pos 1) host
request_is_sendable = record {
  has_major = refl;
  has_minor = refl;
  request_line = get_is_line;
  fields = (host-IsField, tt);
}

add_lines-lines_of_example :
    HttpRequest.add_lines (lines_of request (pos 1) (pos 1) host) new_request
    ≡ (ok tt, record request { headers = insert_all (map lowered host) [] })
add_lines-lines_of_example = add_lines-lines_of request (pos 1) (pos 1) host request_is_sendable

host-IsLower-absurd : ¬ IsLower (codes "Host")
unfolding string_to_lower to_lower
host-IsLower-absurd h = let e : 104 ≡ 72 = ap first h in absurd (omega (arith, e))

abbrev host_lines : List Text
host_lines = codes "GET / HTTP/1.1\r\n" ∷ codes "Host: a\r\n" ∷ codes "\r\n" ∷ []

lookup-add_lines_example :
    lookup (codes "Host") (HttpRequest.add_lines host_lines new_request).1.headers ≡ none
lookup-add_lines_example = lookup-add_lines (codes "Host") host_lines host-IsLower-absurd

lookup-add_lines_response_example :
    lookup (codes "Host") (HttpResponse.add_lines host_lines new_response).1.headers ≡ none
lookup-add_lines_response_example =
    lookup-add_lines_response (codes "Host") host_lines host-IsLower-absurd

abbrev not_found : HttpResponse
not_found = record new_response {
  version_major = some (pos 1);
  version_minor = some (pos 1);
  status = pos 404;
  message = codes "not found";
}

short : length (status_line not_found (pos 1) (pos 1)) < 2 ^ 64
unfolding status_line to_string to_string_onto digits_onto
short = omega arith

message-add_first_line_example :
    HttpResponse.add_first_line (status_line not_found (pos 1) (pos 1)) new_response ≡ (
      ok tt,
      record new_response {
        version_major = some (pos 1);
        version_minor = some (pos 1);
        status = pos 404;
        message = codes "found" ++ codes "\r";
        first_line_added = true;
      },
    )
message-add_first_line_example =
    message-add_first_line not_found (pos 1) (pos 1) new_response (codes " not") (codes "found")
      refl (lacks_lem b' ' (codes "found") refl) (lacks_lem 0 (codes "not found") refl)
      (lacks_lem b'\n' (codes "not found") refl) refl refl refl short
