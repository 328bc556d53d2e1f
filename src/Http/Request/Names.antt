-- ===== src/Http/Request/Names.antt =====
-- http_request.cpp: the names under which a request keeps its header fields.
use mohican.Common.{
  ℤ, ℕ, ◌≡◌, refl, Bool, true, false, none, List, [], ◌∷◌, arith, if◌then◌else◌, Keeps,
  Keeps-require, Keeps-return, Keeps-raise, Keeps-lift, Keeps-modify, Keeps-bind, modify,
}
use mohican.Text.{Text, string_to_lower}
use mohican.Http.Headers.{insert, lookup}
use mohican.Http.Headers.LowerNames.{
  IsLower, HasLowerNames, string_to_lower-IsLower, insert-HasLowerNames, lookup-HasLowerNames,
}
use mohican.Http.Request.{
  HttpRequest, new_request, add_line, add_lines, add_first_line, read_first_line, scan_protocol,
  add_header, read_header, store_version, require_two,
}

abbrev Lowers : HttpRequest → Type 0
Lowers r = HasLowerNames r.headers

keep :
    (f : HttpRequest → HttpRequest)
    → ((r : HttpRequest) → (f r).headers ≡ r.headers)
    → Keeps Lowers (modify f)
keep f e = Keeps-modify f λ r h. rw (e r) h

store_header-Keeps :
    (name value : Text)
    → Keeps Lowers (
        modify λ r. record r {
          headers = insert (string_to_lower name) (string_to_lower value) r.headers;
        })
store_header-Keeps name value =
    Keeps-modify _ λ r h. insert-HasLowerNames _ _ r.headers (string_to_lower-IsLower name) h

ruleset keeps = (Keeps-bind, Keeps-require, Keeps-lift, Keeps-return, Keeps-raise)

read_header-Keeps : (line : Text) (lf_pos : ℕ) → Keeps Lowers (read_header line lf_pos)
unfolding read_header
read_header-Keeps line lf_pos = search (keeps, store_header-Keeps) depth 12

method-Keeps : (method : Text) → Keeps Lowers (modify λ r. record r { method = method })
method-Keeps method = keep _ λ r. refl

url-Keeps : (url : Text) → Keeps Lowers (modify λ r. record r { url = url })
url-Keeps url = keep _ λ r. refl

store_version-headers : (is : List ℤ) (r : HttpRequest) → (store_version is r).headers ≡ r.headers
store_version-headers [] r = refl
store_version-headers (i ∷ []) r = refl
store_version-headers (i ∷ j ∷ is) r = refl

require_two-Keeps : (is : List ℤ) → Keeps Lowers (require_two is)
require_two-Keeps [] = Keeps-raise _
require_two-Keeps (i ∷ []) = Keeps-raise _
require_two-Keeps (i ∷ j ∷ []) = Keeps-return tt
require_two-Keeps (i ∷ j ∷ k ∷ is) = Keeps-raise _

scan_protocol-Keeps : (protocol : Text) → Keeps Lowers (scan_protocol protocol)
unfolding scan_protocol
scan_protocol-Keeps protocol = Keeps-bind _ _ (Keeps-lift _) λ is.
    Keeps-bind _ _ (keep (store_version is) (store_version-headers is)) λ done. require_two-Keeps is

read_first_line-Keeps : (line : Text) → Keeps Lowers (read_first_line line)
unfolding read_first_line
read_first_line-Keeps line = search (keeps, method-Keeps, url-Keeps, scan_protocol-Keeps) depth 20

add_first_line-Keeps : (line : Text) → Keeps Lowers (add_first_line line)
unfolding add_first_line
add_first_line-Keeps line = Keeps-bind _ _ (read_first_line-Keeps line) λ done. keep _ λ r. refl

read_or_end-Keeps :
    (end : Bool) (line : Text) (lf_pos : ℕ)
    → Keeps Lowers
        (if end then modify (λ r. record r { headers_read = true }) else read_header line lf_pos)
read_or_end-Keeps true line lf_pos = keep _ λ r. refl
read_or_end-Keeps false line lf_pos = read_header-Keeps line lf_pos

add_header-Keeps : (line : Text) → Keeps Lowers (add_header line)
unfolding add_header
add_header-Keeps line = search (keeps, read_or_end-Keeps) depth 8

-- A line of any content, read or refused, leaves the names in lower case.
pub add_line-HasLowerNames :
    (line : Text) (r : HttpRequest)
    → HasLowerNames r.headers
    → HasLowerNames (add_line line r).1.headers
unfolding add_line
add_line-HasLowerNames line r h =
    ground (arith, (add_first_line-Keeps line).at r h, (add_header-Keeps line).at r h)

add_lines-Keeps : (lines : List Text) → Keeps Lowers (add_lines lines)
unfolding add_lines
add_lines-Keeps [] = Keeps-return tt
add_lines-Keeps (line ∷ lines) =
    Keeps-bind _ _ (record { at = add_line-HasLowerNames line }) λ done. add_lines-Keeps lines

-- Whatever lines a client sends, and however reading them ends, a name with a capital letter is
-- never found among the header fields.
pub lookup-add_lines :
    (name : Text) (lines : List Text)
    → ¬ IsLower name
    → lookup name (add_lines lines new_request).1.headers ≡ none
lookup-add_lines name lines n =
    lookup-HasLowerNames name _ n ((add_lines-Keeps lines).at new_request tt)
