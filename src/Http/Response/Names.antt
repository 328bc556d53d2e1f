-- ===== src/Http/Response/Names.antt =====
-- http_response.cpp: the names under which a response keeps its header fields.
use mohican.Common.{
  ℤ, ℕ, ◌≡◌, refl, Bool, true, false, none, List, [], ◌∷◌, arith, if◌then◌else◌, Keeps,
  Keeps-require, Keeps-return, Keeps-raise, Keeps-lift, Keeps-modify, Keeps-bind, modify,
}
use mohican.Text.{Text, string_to_lower}
use mohican.Http.Headers.{insert, lookup}
use mohican.Http.Headers.LowerNames.{
  IsLower, HasLowerNames, string_to_lower-IsLower, insert-HasLowerNames, lookup-HasLowerNames,
}
use mohican.Http.Response.{
  HttpResponse, new_response, add_line, add_lines, add_first_line, add_header, read_header,
  store_status, require_three,
}

abbrev Lowers : HttpResponse → Type 0
Lowers r = HasLowerNames r.headers

keep :
    (f : HttpResponse → HttpResponse)
    → ((r : HttpResponse) → (f r).headers ≡ r.headers)
    → Keeps Lowers (modify f)
keep f e = Keeps-modify f λ r h. rw (e r) h

store_header-Keeps :
    (name value : Text)
    → Keeps Lowers
        (modify λ r. record r { headers = insert (string_to_lower name) value r.headers })
store_header-Keeps name value =
    Keeps-modify _ λ r h. insert-HasLowerNames _ _ r.headers (string_to_lower-IsLower name) h

ruleset keeps = (Keeps-bind, Keeps-require, Keeps-lift, Keeps-return, Keeps-raise)

read_header-Keeps : (line : Text) (lf_pos : ℕ) → Keeps Lowers (read_header line lf_pos)
unfolding read_header
read_header-Keeps line lf_pos = search (keeps, store_header-Keeps) depth 12

store_status-headers : (is : List ℤ) (r : HttpResponse) → (store_status is r).headers ≡ r.headers
store_status-headers [] r = refl
store_status-headers (i ∷ []) r = refl
store_status-headers (i ∷ j ∷ []) r = refl
store_status-headers (i ∷ j ∷ k ∷ is) r = refl

require_three-Keeps : (is : List ℤ) → Keeps Lowers (require_three is)
require_three-Keeps [] = Keeps-raise _
require_three-Keeps (i ∷ []) = Keeps-raise _
require_three-Keeps (i ∷ j ∷ []) = Keeps-raise _
require_three-Keeps (i ∷ j ∷ k ∷ []) = Keeps-return tt
require_three-Keeps (i ∷ j ∷ k ∷ l ∷ is) = Keeps-raise _

store_status-Keeps : (is : List ℤ) → Keeps Lowers (modify (store_status is))
store_status-Keeps is = keep (store_status is) (store_status-headers is)

message-Keeps :
    (message : Text)
    → Keeps Lowers (modify λ r. record r { message = message; first_line_added = true })
message-Keeps message = keep _ λ r. refl

add_first_line-Keeps : (line : Text) → Keeps Lowers (add_first_line line)
unfolding add_first_line
add_first_line-Keeps line =
    search (keeps, store_status-Keeps, require_three-Keeps, message-Keeps) depth 16

read_or_end-Keeps :
    (end : Bool) (line : Text) (lf_pos : ℕ)
    → Keeps Lowers
        (if end then modify (λ r. record r { headers_read = true }) else read_header line lf_pos)
read_or_end-Keeps true line lf_pos = keep _ λ r. refl
read_or_end-Keeps false line lf_pos = read_header-Keeps line lf_pos

add_header-Keeps : (line : Text) → Keeps Lowers (add_header line)
unfolding add_header
add_header-Keeps line = search (keeps, read_or_end-Keeps) depth 8

-- A line of any content, read or refused, leaves the names in lower case.
pub add_line-HasLowerNames :
    (line : Text) (r : HttpResponse)
    → HasLowerNames r.headers
    → HasLowerNames (add_line line r).1.headers
unfolding add_line
add_line-HasLowerNames line r h =
    ground (arith, (add_first_line-Keeps line).at r h, (add_header-Keeps line).at r h)

add_lines-Keeps : (lines : List Text) → Keeps Lowers (add_lines lines)
unfolding add_lines
add_lines-Keeps [] = Keeps-return tt
add_lines-Keeps (line ∷ lines) =
    Keeps-bind _ _ (record { at = add_line-HasLowerNames line }) λ done. add_lines-Keeps lines

-- Whatever lines an upstream sends, and however reading them ends, a name with a capital letter is
-- never found among the header fields.
pub lookup-add_lines_response :
    (name : Text) (lines : List Text)
    → ¬ IsLower name
    → lookup name (add_lines lines new_response).1.headers ≡ none
lookup-add_lines_response name lines n =
    lookup-HasLowerNames name _ n ((add_lines-Keeps lines).at new_response tt)
