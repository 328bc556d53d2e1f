-- ===== src/Http/Request/Whole/RoundTrip.antt =====
-- http_request.cpp: the constructor of HttpRequest on the text that get_string writes.
use mathlib.Core.Path.{subst}
use mathlib.Core.List.{append_assoc}
use mohican.Common.{
  ◌>>=◌, suc, ◌+◌, ◌<◌, ◌≤◌, ◌^◌, ◌≡◌, refl, sym, ◌∙◌, true, some, [], ◌∷◌, ◌++◌, arith, length,
  map, ℤ, length-append, ok,
}
use mohican.Text.{Text, find, At, length-At}
use mohican.Http.Headers.{Header, Headers, insert_all}
use mohican.Http.Request.{
  HttpRequest, new_request, read_first_line, first_line, header_line, header_lines, get_string,
  crlf,
}
use mohican.Http.Request.Line.{
  line_of, length-line_of, text_of, find_line_feed-text_of, read_first_line-words, protocol_of,
  protocol_of-Lacks, protocol_of-cons, scan_protocol-protocol_of,
}
use mohican.Http.Request.RoundTrip.{
  IsRequestLine, IsSendable, lowered, url_start, first_line-line_of,
}
use mohican.Http.Request.Whole.{make_request}
use mohican.Http.Request.Whole.Fields.{read_fields-header_lines}

length-header_line : (h : Header) → 0 < length (header_line h)
unfolding header_line
length-header_line (name, value) = omega (arith, length-append name (b':' ∷ b' ' ∷ (value ++ crlf)))

-- There are not more fields than bytes.
length-header_lines : (es : Headers) → length es ≤ length (header_lines es)
unfolding header_lines
length-header_lines [] = omega arith
length-header_lines (h ∷ es) = omega (
  arith,
  length-header_line h,
  length-append (header_line h) (header_lines es),
  length-header_lines es,
)

module _ (r : HttpRequest) (major minor : ℤ) (h : IsRequestLine r.method r.url major minor)
    (more : Text) where
  first_line-text_of :
      first_line r major minor ++ more ≡ text_of r.method r.url (protocol_of major minor) more
  first_line-text_of = rw (first_line-line_of r major minor) (simp append_assoc)

  read_first_line-text_of :
      (r0 : HttpRequest)
      → read_first_line (text_of r.method r.url (protocol_of major minor) more) r0 ≡ (
        ok tt,
        record r0 {
          version_major = some major;
          version_minor = some minor;
          method = r.method;
          url = r.url;
        },
      )
  read_first_line-text_of r0 =
      let (c, cs, form, solid) = url_start r.url h.url_word h.url_ne_nil in
      let (ds, starts) = protocol_of-cons major minor in
      read_first_line-words r.method r.url (protocol_of major minor) more r0 c b'H' cs ds h.fits
        h.method_word h.url_word form solid (protocol_of-Lacks major minor b'\n' (omega arith))
        starts refl
      ∙ scan_protocol-protocol_of major minor h.major_int h.minor_int _

  text_feed :
      find (text_of r.method r.url (protocol_of major minor) more) b'\n' 0
      ≡ some (length r.method + length r.url + length (protocol_of major minor) + 3)
  text_feed =
      find_line_feed-text_of r.method r.url (protocol_of major minor) more h.method_word h.url_word
        (protocol_of-Lacks major minor b'\n' (omega arith))

  -- What follows the request line begins behind its line feed.
  tail_of :
      At
        (text_of r.method r.url (protocol_of major minor) more)
        (length r.method + length r.url + length (protocol_of major minor) + 3 + 1)
        more
  tail_of = record {
    before = line_of r.method r.url (protocol_of major minor);
    whole = simp append_assoc;
    place = omega (arith, length-line_of r.method r.url (protocol_of major minor));
  }

-- What get_string gives of a request with its versions.
get_string-text :
    (each : Headers → Headers) (r : HttpRequest) (major minor : ℤ) (str : Text)
    → IsSendable r major minor (each r.headers)
    → get_string each r ≡ ok str
    → str ≡ text_of r.method r.url (protocol_of major minor) (header_lines (each r.headers) ++ crlf)
unfolding get_string
get_string-text each r major minor str h e =
    let more = header_lines (each r.headers) ++ crlf in
    let both : ok (first_line r major minor ++ more) ≡ ok str =
      simp (h.has_major, h.has_minor) at e in
    let same : first_line r major minor ++ more ≡ str = cc in
    sym same ∙ first_line-text_of r major minor h.request_line more

make_request-text_of :
    (r : HttpRequest) (major minor : ℤ) (es : Headers)
    → IsSendable r major minor es
    → let str = text_of r.method r.url (protocol_of major minor) (header_lines es ++ crlf) in
      length str < 2 ^ 64
      → make_request str new_request ≡ (
        ok true,
        record new_request {
          version_major = some major;
          version_minor = some minor;
          headers = insert_all (map lowered es) [];
          method = r.method;
          url = r.url;
        },
      )
unfolding make_request ◌>>=◌
make_request-text_of r major minor es h small =
    let more = header_lines es ++ crlf in
    let str = text_of r.method r.url (protocol_of major minor) more in
    let place = tail_of r major minor h.request_line more in
    let enough : length es < suc (length str) =
      omega (
        arith,
        length-header_lines es,
        length-append (header_lines es) crlf,
        length-At more place,
      ) in
    rw
      (
        text_feed r major minor h.request_line more,
        read_first_line-text_of r major minor h.request_line more new_request,
      )
      (read_fields-header_lines str es (suc (length str)) _ _ small h.fields enough place)

-- The constructor reads the text that get_string gives of a request that can be sent, when the text
-- is shorter than 2 ^ 64 bytes: its loop ends with the fuel given, and the new object has the versions, the
-- method and the url, and the fields in order, their names and values in lower case. It does not
-- note that the request line was read.
pub make_request-get_string :
    (each : Headers → Headers) (r : HttpRequest) (major minor : ℤ) (str : Text)
    → IsSendable r major minor (each r.headers)
    → get_string each r ≡ ok str
    → length str < 2 ^ 64
    → make_request str new_request ≡ (
      ok true,
      record new_request {
        version_major = some major;
        version_minor = some minor;
        headers = insert_all (map lowered (each r.headers)) [];
        method = r.method;
        url = r.url;
      },
    )
make_request-get_string each r major minor str h e small =
    let same = get_string-text each r major minor str h e in
    rw same (
      make_request-text_of r major minor (each r.headers) h
        (subst (λ s. length s < 2 ^ 64) same small))
