-- ===== src/Tests/Request.antt =====
-- Concrete inputs for the constructor of HttpRequest from a whole text.
use mohican.Common.{◌>>=◌, ◌≡◌, refl, true, some, [], ◌∷◌, map, pos, ok, arith}
use mohican.Text.{
  Text, codes, to_string, digits_onto, find, find_from, substr, sub_size, skip_while, skip_from,
  string_to_lower, to_lower, char_at, text_eq, sscanf, is_digit, c_str, scan_int,
}
use mohican.Http.Headers.{insert, insert_all}
use mohican.Http.Request.{
  new_request, first_line, header_line, header_lines, get_string, read_first_line, scan_protocol,
}
use mohican.Http.Request.RoundTrip.{lowered}
use mohican.Http.Request.Whole.{make_request, read_field, read_line_at, read_fields}
use mohican.Http.Request.Whole.RoundTrip.{make_request-get_string}
use mohican.Http.Request.Whole.Ends.{Ends, make_request-Ends}
use mohican.Tests.Http.{host, request, request_is_sendable, as_given}

abbrev written : Text
written = codes "GET /a.txt HTTP/1.1\r\nHost: a\r\n\r\n"

written-get_string : get_string as_given request ≡ ok written
unfolding get_string first_line header_lines header_line to_string digits_onto
written-get_string = refl

make_request-get_string_example : make_request written new_request ≡ (
  ok true,
  record new_request {
    version_major = some (pos 1);
    version_minor = some (pos 1);
    headers = insert_all (map lowered host) [];
    method = codes "GET";
    url = codes "/a.txt";
  },
)
make_request-get_string_example =
    make_request-get_string as_given request (pos 1) (pos 1) written request_is_sendable
      written-get_string (omega arith)

-- The colon of a field may stand behind its line feed; the value then is all the rest, and the
-- line of the colon is read once more.
make_request-late_colon :
    (make_request (codes "GET / HTTP/1.1\r\nHost\r\nA: b\r\n\r\n") new_request).1.headers
    ≡ (codes "host\r\na", codes "b\r\n\r\n") ∷ (codes "a", codes "b") ∷ []
unfolding make_request ◌>>=◌ read_first_line scan_protocol read_fields read_line_at read_field find
    find_from substr sub_size skip_while skip_from string_to_lower to_lower char_at insert text_eq
    sscanf is_digit c_str scan_int
make_request-late_colon = refl

make_request-Ends_example : Ends (make_request written)
make_request-Ends_example = make_request-Ends written
