-- ===== src/Http/Request/Field.antt =====
-- http_request.cpp: add_line on the header fields that get_string writes.
use mathlib.Core.Path.{subst}
use mathlib.Core.List.{append_assoc}
use mohican.Common.{
  ◌>>=◌, ℕ, ◌+◌, ◌<◌, ◌^◌, ◌≡◌, ◌≢◌, refl, ap, ◌∙◌, true, false, some, [], ◌∷◌, ◌++◌, arith, length,
  length-append, ok,
}
use mohican.Text.{
  Text, find, is_blank, string_to_lower, Lacks, At, At-start, At-skip, At-next, find-At, substr-At,
  skip_while-run, char_at-At, sub_size-before,
}
use mohican.Http.Headers.{Header, insert}
use mohican.Http.Request.{HttpRequest, add_line, add_header, read_header, header_line, crlf}
use mohican.Http.Request.Line.{All-append, find_line_feed, is_last_line-long}

-- The header field can be written and read back.
pub record IsField (h : Header) : Type 0 where
  pub name_word : Lacks b':' h.0
  pub name_line : Lacks b'\n' h.0
  pub no_return : Lacks b'\r' h.0
  pub value_line : Lacks b'\n' h.1
  pub value_start : (c : ℕ) (cs : Text) → h.1 ≡ c ∷ cs → is_blank c ≡ false
  pub fits : length (header_line h) < 2 ^ 64

pub value_start-crlf :
    (value : Text)
    → ((c : ℕ) (cs : Text) → value ≡ c ∷ cs → is_blank c ≡ false)
    → (c : ℕ) × (cs : Text) × (value ++ crlf ≡ c ∷ cs) × (is_blank c ≡ false)
value_start-crlf [] h = (b'\r', _, refl, refl)
value_start-crlf (c ∷ cs) h = (c, cs ++ crlf, refl, h c cs refl)

-- The first byte of a header line is no carriage return.
pub first_byte :
    (name rest : Text)
    → Lacks b'\r' name
    → (c : ℕ) × (cs : Text) × (name ++ (b':' ∷ rest) ≡ c ∷ cs) × (c ≢ b'\r')
first_byte [] rest h = (b':', rest, refl, λ e. cc)
first_byte (c ∷ name) rest h = (c, name ++ (b':' ∷ rest), refl, h.0)

module _ (name value : Text) (h : IsField (name, value)) where
  abbrev pub line : Text
  line = name ++ (b':' ∷ b' ' ∷ (value ++ crlf))

  pub header_line-line : header_line (name, value) ≡ line
  unfolding header_line
  header_line-line = refl

  pub length-line : length line ≡ length name + length value + 4
  length-line =
      omega (arith, length-append name (b':' ∷ b' ' ∷ (value ++ crlf)), length-append value crlf)

  find_line_feed-line : find line b'\n' 0 ≡ some (length name + length value + 3)
  find_line_feed-line =
      let body = name ++ (b':' ∷ b' ' ∷ value) in
      let lacks : Lacks b'\n' body =
        All-append _ name _ h.name_line ((λ e. cc), ((λ e. cc), h.value_line)) in
      let split : line ≡ body ++ crlf = simp append_assoc in
      let place : length body + 1 ≡ length name + length value + 3 =
        omega (arith, length-append name (b':' ∷ b' ' ∷ value)) in
      rw split (find_line_feed body lacks ∙ ap some place)

  read_header-line :
      (r : HttpRequest)
      → read_header line (length name + length value + 3) r ≡ (
        ok tt,
        record r { headers = insert (string_to_lower name) (string_to_lower value) r.headers },
      )
  unfolding read_header ◌>>=◌
  read_header-line r =
      let (c, cs, form, solid) = value_start-crlf value h.value_start in
      let value_at : ℕ = 0 + length name + 1 + 1 in
      let a0 = At-start line in
      let a1 = At-next b':' _ (At-skip name _ a0) in
      let a2 = At-next b' ' _ a1 in
      let e1 = find-At b':' name _ a0 h.name_word in
      let e2 = substr-At name _ (0 + length name) a0 (omega arith) in
      let e3 =
        skip_while-run is_blank (b' ' ∷ []) c cs
          (subst (λ t. At line (0 + length name + 1) (b' ' ∷ t)) form a1) (refl, tt) solid in
      let e4 = substr-At value crlf _ a2 (
        sub_size-before (length name + length value + 3) value_at (length value) (omega arith)
          (omega (arith, rw header_line-line at h.fits, length-line))) in
      rw (e1, e2, e3, e4)

  pub add_line-header_line :
      (r : HttpRequest)
      → r.first_line_added ≡ true
      → r.headers_read ≡ false
      → add_line (header_line (name, value)) r ≡ (
        ok tt,
        record r { headers = insert (string_to_lower name) (string_to_lower value) r.headers },
      )
  unfolding add_line add_header ◌>>=◌
  add_line-header_line r e f =
      let long = is_last_line-long line (rw length-line (omega arith)) in
      let (c, cs, form, k) = first_byte name (b' ' ∷ (value ++ crlf)) h.no_return in
      let first = char_at-At c cs (subst (At line 0) form (At-start line)) in
      rw header_line-line
        (simp (long, e, f, find_line_feed-line, first) (ground (arith, read_header-line r)))
