-- ===== src/Http/Request/Line.antt =====
-- Reading the lines that get_string writes: the request line and a header line.
use mathlib.Core.List.{append_assoc, append-nil}
use mathlib.Core.Path.{subst}
use mohican.Common.{
  ◌>>=◌, ℕ, ◌+◌, ◌<◌, ◌^◌, ◌≡◌, refl, sym, ap, ◌∙◌, ◌≢◌, true, false, some, List, [], ◌∷◌, ◌++◌,
  arith, length, All, ℤ, in_int_range, length-append, ok,
}
use mohican.Text.{
  OfNumerals, All-to_string_onto, to_string-append, sscanf-int, c_str-Lacks, is_digit, literal, int,
  Text, codes, find, skip_while, is_blank, sscanf, Lacks, At, At-start, At-skip, At-next, find-At,
  substr-At, skip_while-At, sub_size-add, sub_size-before, to_string, to_string_onto,
}
use mohican.Http.Request.{
  is_last_line, protocol_format, HttpRequest, read_first_line, scan_protocol, crlf,
}

pub All-append {ℓ κ} :
    {A : Type ℓ} (P : A → Type κ) (xs ys : List A) → All P xs → All P ys → All P (xs ++ ys)
All-append P [] ys h k = k
All-append P (x ∷ xs) ys h k = (h.0, All-append P xs ys h.1 k)

-- The end of a line that is `body` and a line break.
pub find_line_feed :
    (body : Text) → Lacks b'\n' body → find (body ++ crlf) b'\n' 0 ≡ some (length body + 1)
find_line_feed body h =
    let split : At (body ++ crlf) 0 ((body ++ b'\r' ∷ []) ++ b'\n' ∷ []) =
      rw append_assoc (At-start (body ++ crlf)) in
    let place : 0 + length (body ++ b'\r' ∷ []) ≡ length body + 1 =
      omega (arith, length-append body (b'\r' ∷ [])) in
    find-At b'\n' (body ++ b'\r' ∷ []) [] split (All-append _ body _ h ((λ e. cc), tt))
    ∙ ap some place

-- A part between spaces: it is not empty, and holds no space and no line feed.
pub record IsWord (word : Text) : Type 0 where
  pub one_word : Lacks b' ' word
  pub one_line : Lacks b'\n' word

pub skip_while-word :
    {line : Text} {pos : ℕ} (word rest : Text)
    → At line pos (word ++ rest)
    → (c : ℕ) (cs : Text) → word ≡ c ∷ cs
    → is_blank c ≡ false
    → skip_while is_blank line pos ≡ ok pos
skip_while-word {line} {pos} word rest a c cs e h =
    skip_while-At is_blank c (cs ++ rest) (subst (λ w. At line pos (w ++ rest)) e a) h

module _ (method url protocol : Text) where
  abbrev pub line_of : Text
  line_of = method ++ (b' ' ∷ (url ++ (b' ' ∷ (protocol ++ crlf))))

  pub length-line_of : length line_of ≡ length method + length url + length protocol + 4
  length-line_of = omega (
    arith,
    length-append method (b' ' ∷ (url ++ (b' ' ∷ (protocol ++ crlf)))),
    length-append url (b' ' ∷ (protocol ++ crlf)),
    length-append protocol crlf,
  )

-- A request line with what stands behind it.
abbrev pub text_of : Text → Text → Text → Text → Text
text_of method url protocol more = method ++ (b' ' ∷ (url ++ (b' ' ∷ (protocol ++ (crlf ++ more)))))

-- The end of a line, wherever it begins.
pub find_line_feed-At :
    {str : Text} {pos : ℕ} (body more : Text)
    → At str pos (body ++ (crlf ++ more))
    → Lacks b'\n' body
    → find str b'\n' pos ≡ some (pos + (length body + 1))
find_line_feed-At {str} {pos} body more a h =
    let split : At str pos ((body ++ b'\r' ∷ []) ++ (b'\n' ∷ more)) = rw append_assoc a in
    let place : pos + length (body ++ b'\r' ∷ []) ≡ pos + (length body + 1) =
      omega (arith, length-append body (b'\r' ∷ [])) in
    find-At b'\n' (body ++ b'\r' ∷ []) more split (All-append _ body _ h ((λ e. cc), tt))
    ∙ ap some place

module _ (method url protocol more : Text) where
  pub find_line_feed-text_of :
      IsWord method
      → IsWord url
      → Lacks b'\n' protocol
      → find (text_of method url protocol more) b'\n' 0
        ≡ some (length method + length url + length protocol + 3)
  find_line_feed-text_of m u p =
      let body = method ++ (b' ' ∷ (url ++ (b' ' ∷ protocol))) in
      let lacks : Lacks b'\n' body =
        All-append _ method _ m.one_line
          ((λ e. cc), All-append _ url _ u.one_line ((λ e. cc), p)) in
      let split : text_of method url protocol more ≡ body ++ (crlf ++ more) = simp append_assoc in
      let place : 0 + (length body + 1) ≡ length method + length url + length protocol + 3 = omega (
        arith,
        length-append method (b' ' ∷ (url ++ (b' ' ∷ protocol))),
        length-append url (b' ' ∷ protocol),
      ) in
      rw split
        (find_line_feed-At body more (At-start (body ++ (crlf ++ more))) lacks ∙ ap some place)

  pub read_first_line-words :
      (r : HttpRequest) (c d : ℕ) (cs ds : Text)
      → length (line_of method url protocol) < 2 ^ 64
      → IsWord method
      → IsWord url
      → url ≡ c ∷ cs
      → is_blank c ≡ false
      → Lacks b'\n' protocol
      → protocol ≡ d ∷ ds
      → is_blank d ≡ false
      → read_first_line (text_of method url protocol more) r
        ≡ scan_protocol protocol (record r { method = method; url = url })
  unfolding read_first_line ◌>>=◌
  read_first_line-words r c d cs ds small m u uc cn pl pd dn =
      let a0 = At-start (text_of method url protocol more) in
      let a1 = At-skip method _ a0 in
      let a2 = At-next b' ' _ a1 in
      let a3 = At-skip url _ a2 in
      let a4 = At-next b' ' _ a3 in
      let url_at : ℕ = 0 + length method + 1 in
      let protocol_at : ℕ = url_at + length url + 1 in
      let size = length-line_of method url protocol in
      let e1 = find_line_feed-text_of m u pl in
      let e2 = find-At b' ' method _ a0 m.one_word in
      let e3 = substr-At method _ (0 + length method) a0 (omega arith) in
      let e4 = skip_while-word url _ a2 c cs uc cn in
      let e5 = find-At b' ' url _ a2 u.one_word in
      let e6 = substr-At url _ _ a2 (sub_size-add url_at (length url) (omega (arith, size))) in
      let e7 = skip_while-word protocol _ a4 d ds pd dn in
      let e8 = substr-At protocol _ _ a4 (
        sub_size-before (length method + length url + length protocol + 3) protocol_at
          (length protocol) (omega arith) (omega (arith, size))) in
      rw (e1, e2, e3, e4, e5, e6, e7, e8)

-- The protocol of a request line, as get_string writes it.
unfoldable pub protocol_of : ℤ → ℤ → Text
protocol_of major minor = codes "HTTP/" ++ (to_string major ++ (codes "." ++ to_string minor))

protocol_of-onto :
    (major minor : ℤ)
    → protocol_of major minor
      ≡ codes "HTTP/" ++ to_string_onto major (b'.' ∷ to_string_onto minor [])
unfolding protocol_of
protocol_of-onto major minor =
    ap (λ t. codes "HTTP/" ++ t)
      (to_string-append major (codes "." ++ to_string minor)
        ∙ ap (λ t. to_string_onto major (b'.' ∷ t))
            (sym (append-nil (to_string minor)) ∙ to_string-append minor []))

protocol_of-All :
    (P : ℕ → Type 0) (major minor : ℤ)
    → OfNumerals P
    → P b'.'
    → All P (codes "HTTP/")
    → All P (protocol_of major minor)
protocol_of-All P major minor p dot name = rw (protocol_of-onto major minor) (
    All-append P (codes "HTTP/") _ name
      (All-to_string_onto P major _ p (dot, All-to_string_onto P minor [] p tt)))

not_in_numerals : (c : ℕ) → c < 45 → OfNumerals (λ x. x ≢ c)
not_in_numerals c h = (omega arith, λ d k. omega arith)

pub protocol_of-Lacks : (major minor : ℤ) (c : ℕ) → c < 45 → Lacks c (protocol_of major minor)
protocol_of-Lacks major minor c h =
    protocol_of-All (λ x. x ≢ c) major minor (not_in_numerals c h) (omega arith) (omega arith)

module _ (major minor : ℤ) (h : in_int_range major ≡ true) (k : in_int_range minor ≡ true) where
  sscanf-protocol_of : sscanf protocol_format (protocol_of major minor) ≡ ok (major ∷ minor ∷ [])
  unfolding sscanf is_digit
  sscanf-protocol_of = rw (protocol_of-onto major minor) (
      sscanf-int (literal b'.' ∷ int ∷ []) major (b'.' ∷ to_string_onto minor []) h refl
      ∙ rw (sscanf-int [] minor [] k refl) refl)

  pub scan_protocol-protocol_of :
      (r : HttpRequest)
      → scan_protocol (protocol_of major minor) r
        ≡ (ok tt, record r { version_major = some major; version_minor = some minor })
  unfolding scan_protocol ◌>>=◌
  scan_protocol-protocol_of r =
      rw (c_str-Lacks _ (protocol_of-Lacks major minor 0 (omega arith)), sscanf-protocol_of)

pub protocol_of-cons : (major minor : ℤ) → (ds : Text) × (protocol_of major minor ≡ b'H' ∷ ds)
unfolding protocol_of
protocol_of-cons major minor = (_, refl)

-- A longer line is not the last one, whatever it holds.
pub is_last_line-long : (line : Text) → 3 < length line → is_last_line line ≡ false
unfolding is_last_line
is_last_line-long line h = ground arith
