-- ===== src/Http/Response/Message.antt =====
-- What the status line of a response leaves in the response that reads it.
use mathlib.Core.Path.{subst}
use mathlib.Core.List.{append_assoc, append-nil}
use mohican.Common.{
  ℕ, ◌+◌, ◌<◌, ◌^◌, ◌≢◌, ◌≡◌, refl, sym, ap, ◌∙◌, true, some, List, [], ◌∷◌, ◌++◌, arith, length,
  All, ℤ, in_int_range, length-append, ok, ◌>>=◌, bind,
}
use mohican.Text.{
  Text, codes, find, rfind, substr, sub_size, sscanf, c_str, Lacks, At, At-start, At-skip, At-next,
  substr-At, sub_size-before, to_string, to_string_onto, to_string-append, sscanf-int,
  sscanf-white_int, literal, int, white, rfind-Lacks, is_digit, c_str-Lacks, OfNumerals,
  All-to_string_onto,
}
use mohican.Http.Request.{crlf}
use mohican.Http.Request.Line.{find_line_feed, All-append}
use mohican.Http.Response.{HttpResponse, add_first_line, status_line, status_format}

-- The numbers of a status line, and what follows the status.
module _ (major minor status : ℤ) (rest : Text) where
  abbrev numbers : Text
  numbers =
      codes "HTTP/"
      ++ to_string_onto major
          (b'.' ∷ to_string_onto minor (b' ' ∷ to_string_onto status (b' ' ∷ rest)))

  sscanf-numbers :
      in_int_range major ≡ true
      → in_int_range minor ≡ true
      → in_int_range status ≡ true
      → sscanf status_format numbers ≡ ok (major ∷ minor ∷ status ∷ [])
  unfolding sscanf is_digit
  sscanf-numbers h k l =
      sscanf-int (literal b'.' ∷ int ∷ white ∷ int ∷ []) major _ h refl
      ∙ ap (λ r. bind r (λ is. ok (major ∷ is)))
          (sscanf-int (white ∷ int ∷ []) minor _ k refl
            ∙ ap (λ r. bind r (λ is. ok (minor ∷ is))) (sscanf-white_int [] status _ l refl))

  -- The message that is kept is the part behind the last space, with the carriage return.
  pub add_first_line-numbers :
      (r : HttpResponse) (body word : Text)
      → numbers ≡ body ++ (b' ' ∷ (word ++ crlf))
      → in_int_range major ≡ true
      → in_int_range minor ≡ true
      → in_int_range status ≡ true
      → Lacks 0 numbers
      → Lacks b'\n' body
      → Lacks b'\n' word
      → Lacks b' ' word
      → length numbers < 2 ^ 64
      → add_first_line numbers r ≡ (
        ok tt,
        record r {
          version_major = some major;
          version_minor = some minor;
          status = status;
          message = word ++ codes "\r";
          first_line_added = true;
        },
      )
  unfolding add_first_line ◌>>=◌
  add_first_line-numbers r body word split h k l z bn wn ws small = rw (e1, e2, e3, e4, e5)
    where
      line : Text
      line = body ++ (b' ' ∷ (word ++ crlf))

      length_line : length line ≡ length body + length word + 3
      length_line =
          omega (arith, length-append body (b' ' ∷ (word ++ crlf)), length-append word crlf)

      place : length word + 1 ≡ length (word ++ codes "\r")
      place = omega (arith, length-append word (codes "\r"))

      start : 0 + length body + 1 ≡ length body + 1
      start = omega arith

      e1 : find numbers b'\n' 0 ≡ some (length body + length word + 2)
      e1 =
          let front = body ++ (b' ' ∷ word) in
          let whole : numbers ≡ front ++ crlf =
            split ∙ sym (append_assoc body (b' ' ∷ word) crlf) in
          let place : length front + 1 ≡ length body + length word + 2 =
            omega (arith, length-append body (b' ' ∷ word)) in
          subst (λ t. find t b'\n' 0 ≡ some (length body + length word + 2)) (sym whole)
            (find_line_feed front (All-append _ body _ bn ((λ e. cc), wn)) ∙ ap some place)

      e2 : c_str numbers ≡ numbers
      e2 = c_str-Lacks numbers z

      e3 : sscanf status_format numbers ≡ ok (major ∷ minor ∷ status ∷ [])
      e3 = sscanf-numbers h k l

      e4 : rfind numbers b' ' ≡ some (length body)
      e4 =
          subst (λ t. rfind t b' ' ≡ some (length body)) (sym split)
            (rfind-Lacks b' ' body (word ++ crlf)
              (All-append _ word _ ws ((λ e. cc), ((λ e. cc), tt))))

      e5 :
          substr numbers
            (length body + 1)
            (sub_size (sub_size (length body + length word + 2) 1) (length body))
          ≡ ok (word ++ codes "\r")
      e5 =
          let a1 =
            At-next b' ' _ (At-skip body _ (subst (At numbers 0) split (At-start numbers))) in
          let parts : word ++ crlf ≡ (word ++ codes "\r") ++ codes "\n" =
            sym (append_assoc word (codes "\r") (codes "\n")) in
          let a2 = subst (At numbers (0 + length body + 1)) parts a1 in
          let count : sub_size (sub_size (length body + length word + 2) 1) (length body)
              ≡ length (word ++ codes "\r") =
            sub_size-before (length body + length word + 2) (length body) (length word + 1)
              (omega arith) (omega (arith, length_line, ap length split))
            ∙ place in
          subst
            (λ n.
              substr numbers n (sub_size (sub_size (length body + length word + 2) 1) (length body))
              ≡ ok (word ++ codes "\r"))
            start (substr-At (word ++ codes "\r") (codes "\n") _ a2 count)

All-left {ℓ κ} : {A : Type ℓ} (P : A → Type κ) (xs ys : List A) → All P (xs ++ ys) → All P xs
All-left P [] ys h = tt
All-left P (x ∷ xs) ys h = (h.0, All-left P xs ys h.1)

All-right {ℓ κ} : {A : Type ℓ} (P : A → Type κ) (xs ys : List A) → All P (xs ++ ys) → All P ys
All-right P [] ys h = h
All-right P (x ∷ xs) ys h = All-right P xs ys h.1

module _ (r : HttpResponse) (major minor : ℤ) where
  -- A status line up to the status.
  abbrev lead : Text
  lead =
      codes "HTTP/"
      ++ (to_string major ++ (codes "." ++ (to_string minor ++ (codes " " ++ to_string r.status))))

  status_line-numbers : status_line r major minor ≡ numbers major minor r.status (r.message ++ crlf)
  unfolding status_line
  status_line-numbers = simp to_string-append

  status_line-lead : status_line r major minor ≡ lead ++ ((b' ' ∷ r.message) ++ crlf)
  unfolding status_line
  status_line-lead = simp append_assoc

  lead-onto :
      lead
      ≡ codes "HTTP/"
        ++ to_string_onto major (b'.' ∷ to_string_onto minor (b' ' ∷ to_string_onto r.status []))
  lead-onto =
      ap
        (λ t.
          codes "HTTP/"
          ++ (to_string major ++ (codes "." ++ (to_string minor ++ (codes " " ++ t)))))
        (sym (append-nil (to_string r.status)) ∙ to_string-append r.status [])
      ∙ simp to_string-append

  lead-All : (c : ℕ) → c < 32 → Lacks c lead
  lead-All c h =
      let numerals : OfNumerals (λ x. x ≢ c) = (omega arith, λ d k. omega arith) in
      subst (Lacks c) (sym lead-onto) (
        All-append _ (codes "HTTP/") _ (omega arith) (
          All-to_string_onto _ major _ numerals (
            omega arith,
            All-to_string_onto _ minor _ numerals
                (omega arith, All-to_string_onto _ r.status [] numerals tt),
          )))

  status_line-Lacks :
      (c : ℕ)
      → c < 32
      → c ≢ b'\r'
      → c ≢ b'\n'
      → Lacks c r.message
      → Lacks c (status_line r major minor)
  status_line-Lacks c h cr lf m = subst (Lacks c) (sym status_line-lead) (
      All-append _ lead _ (lead-All c h) (
        All-append _ (b' ' ∷ r.message) _ (omega arith, m)
          ((λ e. cr (sym e)), ((λ e. lf (sym e)), tt))))

  -- Of a status line that the response itself would write, of fewer than 2 ^ 64 bytes, with a message
  -- without zero bytes and line feeds and numbers in the range of int, add_first_line keeps the
  -- versions, the status, and as the message the part behind its last space, `word`, and the
  -- carriage return of the line.
  pub message-add_first_line :
      (r' : HttpResponse) (front word : Text)
      → b' ' ∷ r.message ≡ front ++ (b' ' ∷ word)
      → Lacks b' ' word
      → Lacks 0 r.message
      → Lacks b'\n' r.message
      → in_int_range major ≡ true
      → in_int_range minor ≡ true
      → in_int_range r.status ≡ true
      → length (status_line r major minor) < 2 ^ 64
      → add_first_line (status_line r major minor) r' ≡ (
        ok tt,
        record r' {
          version_major = some major;
          version_minor = some minor;
          status = r.status;
          message = word ++ codes "\r";
          first_line_added = true;
        },
      )
  message-add_first_line r' front word split ws z n h k l small =
      let same = status_line-numbers in
      let lacks : Lacks b'\n' (front ++ (b' ' ∷ word)) = subst (Lacks b'\n') split ((λ e. cc), n) in
      let whole =
        sym same
        ∙ status_line-lead
        ∙ ap (λ t. lead ++ (t ++ crlf)) split
        ∙ ap (λ t. lead ++ t) (append_assoc front (b' ' ∷ word) crlf)
        ∙ sym (append_assoc lead front (b' ' ∷ (word ++ crlf))) in
      subst
        (λ t. add_first_line t r' ≡ (
          ok tt,
          record r' {
            version_major = some major;
            version_minor = some minor;
            status = r.status;
            message = word ++ codes "\r";
            first_line_added = true;
          },
        ))
        (sym same)
        (add_first_line-numbers major minor r.status (r.message ++ crlf) r' (lead ++ front) word
          whole h k l
          (subst (Lacks 0) same (status_line-Lacks 0 (omega arith) (omega arith) (omega arith) z))
          (All-append _ lead front (lead-All b'\n' (omega arith)) (All-left _ front _ lacks))
          (All-right _ front _ lacks).1 ws (omega (arith, ap length same)))
