-- ===== src/Http/Headers.antt =====
-- The header fields of project/http/include/http_base.h: std::unordered_map<string, string>, kept
-- as an association list with at most one entry for a name.
pub mod LowerNames
use mohican.Common.{
  ℕ, suc, ◌+◌, ◌≡◌, refl, ◌≢◌, Bool, true, false, Option, none, some, List, [], ◌∷◌, ◌++◌, arith,
  if◌then◌else◌, All,
}
use mohican.Text.{Text, text_eq, text_eq_iff, text_eq_refl}

abbrev pub Header : Type 0
Header = Text × Text

abbrev pub Headers : Type 0
Headers = List Header

-- find
unfoldable pub lookup : Text → Headers → Option Text
lookup name [] = none
lookup name ((k, v) ∷ hs) = if text_eq k name then some v else lookup name hs

-- headers[name] = value
unfoldable pub insert : Text → Text → Headers → Headers
insert name value [] = (name, value) ∷ []
insert name value ((k, v) ∷ hs) =
    if text_eq k name then (k, value) ∷ hs else (k, v) ∷ insert name value hs

-- headers[name] as a value: an absent name reads as the empty string
abbrev pub or_empty : Option Text → Text
or_empty none = []
or_empty (some v) = v

unfoldable pub index : Text → Headers → Text
unfolding lookup
index name hs = or_empty (lookup name hs)

pub lookup-insert :
    (name other value : Text) (hs : Headers)
    → lookup other (insert name value hs)
      ≡ (if text_eq name other then some value else lookup other hs)
unfolding lookup insert
lookup-insert name other value [] = refl
lookup-insert name other value ((k, v) ∷ hs) = ground (
  arith,
  text_eq_iff k name,
  text_eq_iff k other,
  text_eq_iff name other,
  lookup-insert name other value hs,
)

-- Inserts a sequence of entries in order.
unfoldable pub insert_all : Headers → Headers → Headers
insert_all [] hs = hs
insert_all ((k, v) ∷ es) hs = insert_all es (insert k v hs)

abbrev pub Absent : Text → Headers → Type 0
Absent name hs = lookup name hs ≡ none

-- No name occurs twice.
abbrev pub HasDistinctNames : Headers → Type 0
HasDistinctNames [] = Unit
HasDistinctNames ((k, v) ∷ hs) = Absent k hs × HasDistinctNames hs

pub insert-HasDistinctNames :
    (name value : Text) (hs : Headers)
    → HasDistinctNames hs
    → HasDistinctNames (insert name value hs)
unfolding insert lookup
insert-HasDistinctNames name value [] h = (refl, tt)
insert-HasDistinctNames name value ((k, v) ∷ hs) h = ground (
  arith,
  lookup-insert name k value hs,
  insert-HasDistinctNames name value hs h.1,
  text_eq_iff k name,
  text_eq_iff name k,
)

-- Inserting entries with distinct names finds each of them, and leaves the others.
pub lookup-insert_all :
    (name : Text) (es hs : Headers)
    → HasDistinctNames es
    → lookup name (insert_all es hs)
      ≡ (elim (lookup name es) [ none ↦ lookup name hs | some v ↦ some v ])
unfolding insert_all lookup
lookup-insert_all name [] hs h = refl
lookup-insert_all name ((k, v) ∷ es) hs h = ground (
  arith,
  lookup-insert_all name es (insert k v hs) h.1,
  lookup-insert k name v hs,
  text_eq_iff k name,
)

-- The order in which a range-for visits an unordered_map is the container's own: every entry once.
pub record IsEnumeration (each : Headers → Headers) : Type 0 where
  pub same_entries : (hs : Headers) (name : Text) → lookup name (each hs) ≡ lookup name hs
  pub once : (hs : Headers) → HasDistinctNames hs → HasDistinctNames (each hs)
