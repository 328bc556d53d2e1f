-- ===== src/Http/Headers/LowerNames.antt =====
-- Header fields whose names are in lower case.
use mohican.Common.{ℕ, ◌≡◌, refl, none, [], ◌∷◌, arith, All}
use mohican.Text.{Text, string_to_lower, to_lower, text_eq_iff}
use mohican.Http.Headers.{Headers, insert, lookup}

abbrev pub IsLower : Text → Type 0
IsLower name = string_to_lower name ≡ name

abbrev pub HasLowerNames : Headers → Type 0
HasLowerNames = All (λ h. IsLower h.0)

to_lower_idem : (c : ℕ) → to_lower (to_lower c) ≡ to_lower c
unfolding to_lower
to_lower_idem c = ground arith

pub string_to_lower-IsLower : (str : Text) → IsLower (string_to_lower str)
unfolding string_to_lower
string_to_lower-IsLower [] = refl
string_to_lower-IsLower (c ∷ cs) = cc (to_lower_idem c, string_to_lower-IsLower cs)

pub insert-HasLowerNames :
    (name value : Text) (hs : Headers)
    → IsLower name
    → HasLowerNames hs
    → HasLowerNames (insert name value hs)
unfolding insert
insert-HasLowerNames name value [] n h = (n, tt)
insert-HasLowerNames name value ((k, v) ∷ hs) n h =
    ground (arith, text_eq_iff k name, insert-HasLowerNames name value hs n h.1)

-- A name that is not in lower case is never found.
pub lookup-HasLowerNames :
    (name : Text) (hs : Headers) → ¬ IsLower name → HasLowerNames hs → lookup name hs ≡ none
unfolding lookup
lookup-HasLowerNames name [] n h = refl
lookup-HasLowerNames name ((k, v) ∷ hs) n h =
    ground (arith, text_eq_iff k name, lookup-HasLowerNames name hs n h.1)
