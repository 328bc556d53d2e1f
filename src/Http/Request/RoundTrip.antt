-- ===== src/Http/Request/RoundTrip.antt =====
-- http_request.cpp: add_line on the lines that get_string writes.
use mathlib.Core.List.{append_assoc}
use mohican.Common.{
  ◌>>=◌, ℕ, ◌<◌, ◌^◌, ◌≡◌, ◌≢◌, refl, ap, ◌∙◌, true, false, some, List, [], ◌∷◌, ◌++◌, arith,
  length, map, All, ℤ, in_int_range, ok,
}
use mohican.Text.{Text, is_blank, char_at, string_to_lower}
use mohican.Http.Headers.{Header, Headers, insert, insert_all}
use mohican.Http.Request.{
  HttpRequest, new_request, add_line, add_lines, add_first_line, read_first_line, scan_protocol,
  is_last_line, first_line, header_line, header_lines, get_string, crlf,
}
use mohican.Http.Request.Line.{
  IsWord, line_of, length-line_of, read_first_line-words, protocol_of, protocol_of-Lacks,
  protocol_of-cons, is_last_line-long, scan_protocol-protocol_of,
}
use mohican.Http.Request.Field.{IsField, add_line-header_line}

-- The request line can be written and read back.
pub record IsRequestLine (method url : Text) (major minor : ℤ) : Type 0 where
  pub method_word : IsWord method
  pub url_word : IsWord url
  pub url_ne_nil : url ≢ []
  pub major_int : in_int_range major ≡ true
  pub minor_int : in_int_range minor ≡ true
  pub fits : length (line_of method url (protocol_of major minor)) < 2 ^ 64

pub first_line-line_of :
    (r : HttpRequest) (major minor : ℤ)
    → first_line r major minor ≡ line_of r.method r.url (protocol_of major minor)
unfolding first_line protocol_of
first_line-line_of r major minor = simp append_assoc

pub url_start :
    (url : Text)
    → IsWord url
    → url ≢ []
    → (c : ℕ) × (cs : Text) × (url ≡ c ∷ cs) × (is_blank c ≡ false)
url_start [] w h = absurd (h refl)
url_start (c ∷ cs) w h = let ne = w.one_word.0 in (c, cs, refl, ground arith)

module _ (r r0 : HttpRequest) (major minor : ℤ) (h : IsRequestLine r.method r.url major minor) where
  add_first_line-first_line : add_first_line (first_line r major minor) r0 ≡ (
    ok tt,
    record r0 {
      version_major = some major;
      version_minor = some minor;
      method = r.method;
      url = r.url;
      first_line_added = true;
    },
  )
  unfolding add_first_line ◌>>=◌
  add_first_line-first_line =
      let (c, cs, form, solid) = url_start r.url h.url_word h.url_ne_nil in
      let (ds, starts) = protocol_of-cons major minor in
      let read : read_first_line (line_of r.method r.url (protocol_of major minor)) r0
          ≡ scan_protocol (protocol_of major minor) (record r0 { method = r.method; url = r.url }) =
        read_first_line-words r.method r.url (protocol_of major minor) [] r0 c b'H' cs ds h.fits
          h.method_word h.url_word form solid (protocol_of-Lacks major minor b'\n' (omega arith))
          starts refl in
      rw (
        first_line-line_of r major minor,
        read,
        scan_protocol-protocol_of major minor h.major_int h.minor_int,
      )

  pub add_line-first_line :
      r0.first_line_added ≡ false
      → add_line (first_line r major minor) r0 ≡ (
        ok tt,
        record r0 {
          version_major = some major;
          version_minor = some minor;
          method = r.method;
          url = r.url;
          first_line_added = true;
        },
      )
  unfolding add_line ◌>>=◌
  add_line-first_line e =
      let long = is_last_line-long (first_line r major minor) (
        rw (first_line-line_of r major minor)
          (omega (arith, length-line_of r.method r.url (protocol_of major minor)))) in
      simp (long, e) add_first_line-first_line

abbrev pub lowered : Header → Header
lowered (name, value) = (string_to_lower name, string_to_lower value)

-- The lines of header fields are read in order.
add_lines-header_lines :
    (es : Headers) (more : List Text) (r : HttpRequest)
    → All IsField es
    → r.first_line_added ≡ true
    → r.headers_read ≡ false
    → add_lines (map header_line es ++ more) r
      ≡ add_lines more (record r { headers = insert_all (map lowered es) r.headers })
unfolding add_lines insert_all ◌>>=◌
add_lines-header_lines [] more r h e f = refl
add_lines-header_lines ((name, value) ∷ es) more r h e f =
    rw (add_line-header_line name value h.0 r e f) (
      add_lines-header_lines es more
        (record r { headers = insert (string_to_lower name) (string_to_lower value) r.headers }) h.1
        e f)

-- The last line ends the request, whatever was read before.
add_line-crlf : (r : HttpRequest) → add_line crlf r ≡ (ok tt, record r { request_ended = true })
unfolding add_line is_last_line char_at ◌>>=◌
add_line-crlf r = refl

-- The lines of get_string.
abbrev pub lines_of : HttpRequest → ℤ → ℤ → Headers → List Text
lines_of r major minor es = first_line r major minor ∷ (map header_line es ++ (crlf ∷ []))

abbrev pub concat : List Text → Text
concat [] = []
concat (line ∷ lines) = line ++ concat lines

header_lines-concat :
    (es : Headers) → header_lines es ++ crlf ≡ concat (map header_line es ++ (crlf ∷ []))
unfolding header_lines
header_lines-concat [] = refl
header_lines-concat (h ∷ es) =
    append_assoc (header_line h) (header_lines es) crlf
    ∙ ap (λ t. header_line h ++ t) (header_lines-concat es)

-- A request that can be sent: a request line and header fields that read back.
pub record IsSendable (r : HttpRequest) (major minor : ℤ) (es : Headers) : Type 0 where
  pub has_major : r.version_major ≡ some major
  pub has_minor : r.version_minor ≡ some minor
  pub request_line : IsRequestLine r.method r.url major minor
  pub fields : All IsField es

-- get_string of a request with a version is its request line, the line of each field in the order
-- of the container, and an empty line.
pub get_string-lines :
    (each : Headers → Headers) (r : HttpRequest) (major minor : ℤ)
    → r.version_major ≡ some major
    → r.version_minor ≡ some minor
    → get_string each r ≡ ok (concat (lines_of r major minor (each r.headers)))
unfolding get_string
get_string-lines each r major minor h k =
    simp (h, k)
      (ap (λ t. ok (first_line r major minor ++ t)) (header_lines-concat (each r.headers)))

-- add_line reads the lines of a request that can be sent into a new one: the versions, the method
-- and the url, and the fields in order, their names and values in lower case.
pub add_lines-lines_of :
    (r : HttpRequest) (major minor : ℤ) (es : Headers)
    → IsSendable r major minor es
    → add_lines (lines_of r major minor es) new_request ≡ (
      ok tt,
      record {
        version_major = some major;
        version_minor = some minor;
        headers = insert_all (map lowered es) [];
        method = r.method;
        url = r.url;
        first_line_added = true;
        headers_read = false;
        request_ended = true;
      },
    )
unfolding add_lines ◌>>=◌
add_lines-lines_of r major minor es h =
    rw (add_line-first_line r new_request major minor h.request_line refl)
      (add_lines-header_lines es (crlf ∷ []) _ h.fields refl refl ∙ rw (add_line-crlf) refl)
