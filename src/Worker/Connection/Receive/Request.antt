-- ===== src/Worker/Connection/Receive/Request.antt =====
-- client_connection.cpp: get_request on the bytes of a request that HttpRequest::get_string wrote.
use mathlib.Core.List.{append_assoc}
use mohican.Common.{
  ◌≡◌, refl, sym, ap, ◌∙◌, true, false, some, List, [], ◌∷◌, ◌++◌, map, All, ℤ, Result, ok, throw,
  undefined, ◌>>=◌, arith, length-append,
}
use mohican.Text.{Text, Lacks}
use mohican.Http.Headers.{Header, Headers, insert_all}
use mohican.Http.Request.{
  HttpRequest, new_request, add_line, first_line, header_line, get_string, crlf,
}
use mohican.Http.Request.Line.{All-append, protocol_of, protocol_of-Lacks}
use mohican.Http.Request.Field.{IsField}
use mohican.Http.Request.RoundTrip.{
  IsRequestLine, IsSendable, lowered, lines_of, concat, first_line-line_of, get_string-lines,
  add_lines-lines_of,
}
use mohican.Worker.Os.{Received, set_stream, client_socket}
use mohican.Worker.Connection.Stage.{Connection}
use mohican.Worker.Connection.Receive.{read_lines, get_request, took}
use mohican.Worker.Connection.Receive.Lines.{bytes, IsLine, read_lines-lines}

crlf-IsLine : (line body : Text) → line ≡ body ++ crlf → Lacks b'\n' body → IsLine line
crlf-IsLine line body e h = record {
  body = body ++ b'\r' ∷ [];
  form = e ∙ sym (append_assoc body (b'\r' ∷ []) (b'\n' ∷ []));
  one_line = All-append _ body _ h ((λ e. cc), tt);
  not_empty = omega (arith, length-append body (b'\r' ∷ []));
}

first_line-IsLine :
    (r : HttpRequest) (major minor : ℤ)
    → IsRequestLine r.method r.url major minor
    → IsLine (first_line r major minor)
first_line-IsLine r major minor h =
    let protocol = protocol_of major minor in
    crlf-IsLine _ (r.method ++ (b' ' ∷ (r.url ++ (b' ' ∷ protocol))))
      (first_line-line_of r major minor ∙ simp append_assoc)
      (All-append _ r.method _ h.method_word.one_line (
        (λ e. cc),
        All-append _ r.url _ h.url_word.one_line
            ((λ e. cc), protocol_of-Lacks major minor b'\n' (omega arith)),
      ))

header_line-IsLine : (h : Header) → IsField h → IsLine (header_line h)
unfolding header_line
header_line-IsLine (name, value) h =
    crlf-IsLine _ (name ++ (b':' ∷ b' ' ∷ value)) (simp append_assoc)
      (All-append _ name _ h.name_line ((λ e. cc), ((λ e. cc), h.value_line)))

header_lines-IsLine : (es : Headers) → All IsField es → All IsLine (map header_line es ++ crlf ∷ [])
header_lines-IsLine [] h = (crlf-IsLine crlf [] refl tt, tt)
header_lines-IsLine (e ∷ es) h = (header_line-IsLine e h.0, header_lines-IsLine es h.1)

abbrev text_of : Result Text → Text
text_of (ok t) = t
text_of (throw e) = []
text_of undefined = []

-- The arguments of the loop, one after the other.
cong_reads :
    {t t' : List Received} {line line' : Text} {m m' : HttpRequest}
    → t ≡ t'
    → line ≡ line'
    → m ≡ m'
    → read_lines add_line t line m false ≡ read_lines add_line t' line' m' false
cong_reads e f g = cc

module _ (each : Headers → Headers) (r : HttpRequest) (major minor : ℤ)
    (h : IsSendable r major minor (each r.headers)) where
  -- What add_line leaves of the request.
  abbrev pub received : HttpRequest
  received = record {
    version_major = some major;
    version_minor = some minor;
    headers = insert_all (map lowered (each r.headers)) [];
    method = r.method;
    url = r.url;
    first_line_added = true;
    headers_read = false;
    request_ended = true;
  }

  -- When the text that get_string writes of a request that can be sent arrives on the socket of a
  -- connection that has read nothing, get_request succeeds at once: the request has the same
  -- method, url and version, and the fields in the order of the text, their names and values in
  -- lower case.
  pub get_request-get_string :
      (c : Connection) (str : Text)
      → get_string each r ≡ ok str
      → c.line ≡ []
      → c.request ≡ new_request
      → c.os.client.arriving ≡ bytes str []
      → get_request c ≡ (
        ok true,
        record c {
          line = [];
          request = received;
          os = set_stream client_socket (took [] c.os.client) c.os;
        },
      )
  unfolding get_request read_lines ◌>>=◌
  get_request-get_string c str e l n a =
      let text = sym e ∙ get_string-lines each r major minor h.has_major h.has_minor in
      let arrives : c.os.client.arriving
          ≡ bytes (concat (lines_of r major minor (each r.headers))) [] =
        a ∙ ap (λ t. bytes (text_of t) []) text in
      let lines =
        read_lines-lines (first_line r major minor) (map header_line (each r.headers) ++ crlf ∷ [])
          [] new_request received false
          (
            first_line-IsLine r major minor h.request_line,
            header_lines-IsLine (each r.headers) h.fields,
          )
          (add_lines-lines_of r major minor (each r.headers) h) in
      let reads = cong_reads arrives l n ∙ lines in rw reads refl
