-- ===== src/Http/Request/Whole/Fields.antt =====
-- http_request.cpp: the loop of the constructor over the lines of header fields.
use mathlib.Core.Path.{subst}
use mathlib.Core.List.{append_assoc}
use mohican.Common.{
  Method, ◌>>=◌, ℕ, zero, suc, ◌+◌, ◌<◌, ◌^◌, ◌≡◌, refl, sym, ap, ◌∙◌, Bool, true, false, ◌==◌,
  some, [], ◌∷◌, ◌++◌, arith, length, map, All, length-append, ok,
}
use mohican.Text.{
  Text, find, is_blank, string_to_lower, Lacks, At, At-skip, At-next, find-At, substr-At, length-At,
  skip_while-run, char_at-At, sub_size-before, sub_size-add,
}
use mohican.Http.Headers.{Headers, insert, insert_all}
use mohican.Http.Request.{HttpRequest, header_line, header_lines, crlf}
use mohican.Http.Request.Line.{All-append, find_line_feed-At}
use mohican.Http.Request.Field.{IsField, line, length-line, value_start-crlf, first_byte}
use mohican.Http.Request.RoundTrip.{lowered}
use mohican.Http.Request.Whole.{read_field, read_line_at, read_fields}

module _ (str : Text) (name value : Text) (h : IsField (name, value)) where
  -- The line feed of the field that begins at pos.
  abbrev feed_of : ℕ → ℕ
  feed_of pos = pos + (length name + length value + 3)

  find_line_feed-field :
      (pos : ℕ) (rest : Text)
      → At str pos (line name value h ++ rest)
      → find str b'\n' pos ≡ some (feed_of pos)
  find_line_feed-field pos rest a =
      let body = name ++ (b':' ∷ b' ' ∷ value) in
      let lacks : Lacks b'\n' body =
        All-append _ name _ h.name_line ((λ e. cc), ((λ e. cc), h.value_line)) in
      let split : line name value h ++ rest ≡ body ++ (crlf ++ rest) = simp append_assoc in
      let place : length body + 1 ≡ length name + length value + 3 =
        omega (arith, length-append name (b':' ∷ b' ' ∷ value)) in
      find_line_feed-At body rest (subst (At str pos) split a) lacks
      ∙ ap (λ n. some (pos + n)) place

  read_field-field :
      (pos : ℕ) (rest : Text) (r : HttpRequest)
      → length str < 2 ^ 64
      → At str pos (line name value h ++ rest)
      → read_field str pos (feed_of pos) r ≡ (
        ok tt,
        record r { headers = insert (string_to_lower name) (string_to_lower value) r.headers },
      )
  unfolding read_field ◌>>=◌
  read_field-field pos rest r small a =
      let (c, cs, form, solid) = value_start-crlf value h.value_start in
      let value_at : ℕ = pos + length name + 1 + 1 in
      let rest' : Text = b' ' ∷ (value ++ (crlf ++ rest)) in
      let split : line name value h ++ rest ≡ name ++ (b':' ∷ rest') = simp append_assoc in
      let a0 : At str pos (name ++ (b':' ∷ rest')) = subst (At str pos) split a in
      let a1 = At-next b':' _ (At-skip name _ a0) in
      let a2 = At-next b' ' _ a1 in
      let form' : value ++ (crlf ++ rest) ≡ c ∷ (cs ++ rest) =
        sym (append_assoc value crlf rest) ∙ ap (λ t. t ++ rest) form in
      let size = length-At _ a in
      let long = length-append (line name value h) rest in
      let e1 = find-At b':' name _ a0 h.name_word in
      let e2 = substr-At name _ _ a0 (
        sub_size-add pos (length name)
          (omega (arith, small, size, long, length-line name value h))) in
      let e3 =
        skip_while-run is_blank (b' ' ∷ []) c (cs ++ rest)
          (subst (λ t. At str (pos + length name + 1) (b' ' ∷ t)) form' a1) (refl, tt) solid in
      let e4 = substr-At value (crlf ++ rest) _ a2 (
        sub_size-before (feed_of pos) value_at (length value) (omega arith)
          (omega (arith, small, size, long, length-line name value h))) in
      rw (e1, e2, e3, e4)

  -- A field is read, and the loop goes on behind its line feed.
  read_line_at-field :
      (pos : ℕ) (rest : Text) (next : ℕ → Method HttpRequest Bool) (r : HttpRequest)
      → length str < 2 ^ 64
      → At str pos (line name value h ++ rest)
      → read_line_at str pos next (find str b'\n' pos) r
        ≡ next
            (feed_of pos + 1)
            (record r { headers = insert (string_to_lower name) (string_to_lower value) r.headers })
  unfolding read_line_at ◌>>=◌
  read_line_at-field pos rest next r small a =
      let rest' : Text = b' ' ∷ (value ++ (crlf ++ rest)) in
      let split : line name value h ++ rest ≡ name ++ (b':' ∷ rest') = simp append_assoc in
      let (c, cs, form, k) = first_byte name rest' h.no_return in
      let first = char_at-At c cs (subst (At str pos) (split ∙ form) a) in
      let later : (feed_of pos == pos) ≡ false = ground arith in
      let other : (c == b'\r') ≡ false = ground (arith, k) in
      rw (find_line_feed-field pos rest a, first, later, other, read_field-field pos rest r small a)

-- The empty line ends the loop.
read_line_at-crlf :
    {str : Text} {pos : ℕ} (next : ℕ → Method HttpRequest Bool) (r : HttpRequest)
    → At str pos crlf
    → read_line_at str pos next (find str b'\n' pos) r ≡ (ok true, r)
unfolding read_line_at ◌>>=◌
read_line_at-crlf {str} {pos} next r a =
    let feed = find-At b'\n' (b'\r' ∷ []) [] a ((λ e. cc), tt) in
    let first = char_at-At b'\r' (b'\n' ∷ []) a in
    let later : (pos + 1 == pos) ≡ false = ground arith in rw (feed, first, later)

-- The loop reads the fields in order up to the empty line, with more fuel than there are fields.
pub read_fields-header_lines :
    (str : Text) (es : Headers) (fuel pos : ℕ) (r : HttpRequest)
    → length str < 2 ^ 64
    → All IsField es
    → length es < fuel
    → At str pos (header_lines es ++ crlf)
    → read_fields fuel str pos r
      ≡ (ok true, record r { headers = insert_all (map lowered es) r.headers })
unfolding read_fields header_lines header_line insert_all
read_fields-header_lines str es zero pos r small h more a = absurd (omega (arith, more))
read_fields-header_lines str [] (suc fuel) pos r small h more a =
    read_line_at-crlf (read_fields fuel str) r a
read_fields-header_lines str ((name, value) ∷ es) (suc fuel) pos r small h more a =
    let one = line name value h.0 in
    let next = header_lines es ++ crlf in
    let split : header_line (name, value) ++ header_lines es ++ crlf ≡ one ++ next =
      append_assoc one (header_lines es) crlf in
    let a0 : At str pos (one ++ next) = subst (At str pos) split a in
    let place : pos + length one ≡ pos + (length name + length value + 3) + 1 =
      omega (arith, length-line name value h.0) in
    let a1 = subst (λ n. At str n next) place (At-skip one next a0) in
    read_line_at-field str name value h.0 pos next (read_fields fuel str) r small a0
    ∙ read_fields-header_lines str es fuel _ _ small h.1 (omega (arith, more)) a1
