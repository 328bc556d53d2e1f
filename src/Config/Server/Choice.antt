-- ===== src/Config/Server/Choice.antt =====
-- Which location get_location chooses.
use mohican.Common.{
  ◌≡◌, refl, sym, ap, ◌∙◌, ◌↔◌, Bool, true, false, List, [], ◌∷◌, ◌++◌, if◌then◌else◌, All,
  root_not_found_exception, Result, ok, throw, undefined, bind,
}
use mathlib.Core.List.{append-nil}
use mathlib.Core.Path.{subst}
use mohican.Text.{Text}
use mohican.Config.Server.{
  Location, ServerSettings, LocationType, exact_match, preferential_prefix, regex_match,
  prefix_match, matches_exactly, matches_prefix, matches_regex, first_location, get_location,
}

abbrev pub Candidate : Type 0
Candidate = LocationType × Location

abbrev tagged : LocationType → List Location → List Candidate
tagged t [] = []
tagged t (l ∷ ls) = (t, l) ∷ tagged t ls

-- The locations of a server in the order of their precedence.
abbrev pub candidates : ServerSettings → List Candidate
candidates s =
    tagged exact_match s.exact_match_urls
    ++ (tagged preferential_prefix s.preferential_prefix_urls
        ++ (tagged regex_match s.regex_match_urls ++ tagged prefix_match s.prefix_match_urls))

ok-injective : {a b : Location} → ok a ≡ ok b → a ≡ b
ok-injective h = cc

module _ (regex : Text → Text → Result Bool) (url : Text) where
  abbrev pub fits : Candidate → Result Bool
  fits (exact_match, l) = matches_exactly url l
  fits (preferential_prefix, l) = matches_prefix url l
  fits (regex_match, l) = matches_regex regex url l
  fits (prefix_match, l) = matches_prefix url l

  first_fit : List Candidate → Result Location
  first_fit [] = throw (root_not_found_exception "404")
  first_fit (c ∷ cs) =
      let later = first_fit cs in bind (fits c) λ found. if found then ok c.1 else later

  first_location-tagged :
      (t : LocationType) (m : Location → Result Bool) (ls : List Location) (cs : List Candidate)
      → ((l : Location) → m l ≡ fits (t, l))
      → first_location m ls (first_fit cs) ≡ first_fit (tagged t ls ++ cs)
  unfolding first_location first_fit
  first_location-tagged t m [] cs h = refl
  first_location-tagged t m (l ∷ ls) cs h = rw (h l, first_location-tagged t m ls cs h)

  get_location-first_fit :
      (s : ServerSettings) → get_location regex s url ≡ first_fit (candidates s)
  unfolding get_location first_fit
  get_location-first_fit s =
      ap (λ r. exacts (preferred (regexes r))) plain
      ∙ ap (λ r. exacts (preferred r))
          (first_location-tagged regex_match _ s.regex_match_urls _ (λ l. refl))
      ∙ ap exacts
          (first_location-tagged preferential_prefix _ s.preferential_prefix_urls _ (λ l. refl))
      ∙ first_location-tagged exact_match _ s.exact_match_urls _ (λ l. refl)
    where
      exacts : Result Location → Result Location
      exacts = first_location (matches_exactly url) s.exact_match_urls

      preferred : Result Location → Result Location
      preferred = first_location (matches_prefix url) s.preferential_prefix_urls

      regexes : Result Location → Result Location
      regexes = first_location (matches_regex regex url) s.regex_match_urls

      plain :
          first_location
            (matches_prefix url)
            s.prefix_match_urls
            (throw (root_not_found_exception "404"))
          ≡ first_fit (tagged prefix_match s.prefix_match_urls)
      plain =
          first_location-tagged prefix_match _ s.prefix_match_urls [] (λ l. refl)
          ∙ ap first_fit (append-nil (tagged prefix_match s.prefix_match_urls))

  -- The first candidate that fits, with those in front of it.
  pub record IsFirst (cs : List Candidate) (l : Location) : Type 0 where
    pub before : List Candidate
    pub type : LocationType
    pub after : List Candidate
    pub splits : cs ≡ before ++ ((type, l) ∷ after)
    pub refused : All (λ c. fits c ≡ ok false) before
    pub accepted : fits (type, l) ≡ ok true

  IsFirst-cons :
      (c : Candidate) {cs : List Candidate} {l : Location}
      → fits c ≡ ok false
      → IsFirst cs l
      → IsFirst (c ∷ cs) l
  IsFirst-cons c h f = record {
    before = c ∷ f.before;
    type = f.type;
    after = f.after;
    splits = ap (◌∷◌ c) f.splits;
    refused = (h, f.refused);
    accepted = f.accepted;
  }

  IsFirst-here :
      (c : Candidate) (cs : List Candidate) {l : Location}
      → fits c ≡ ok true
      → c.1 ≡ l
      → IsFirst (c ∷ cs) l
  IsFirst-here (t, l') cs h e =
      subst (IsFirst ((t, l') ∷ cs)) e
        (record { before = []; type = t; after = cs; splits = refl; refused = tt; accepted = h })

  first_fit-IsFirst : (cs : List Candidate) {l : Location} → first_fit cs ≡ ok l → IsFirst cs l
  unfolding first_fit
  first_fit-IsFirst [] h = cc
  first_fit-IsFirst (c ∷ cs) {l} h = by_test (first_fit-IsFirst cs) (fits c) refl h
    where
      by_test :
          (first_fit cs ≡ ok l → IsFirst cs l)
          → (r : Result Bool) → fits c ≡ r
          → bind r (λ found. if found then ok c.1 else first_fit cs) ≡ ok l
          → IsFirst (c ∷ cs) l
      by_test later (ok true) e k = IsFirst-here c cs e (ok-injective k)
      by_test later (ok false) e k = IsFirst-cons c e (later k)
      by_test later (throw x) e k = cc
      by_test later undefined e k = cc

  IsFirst-first_fit :
      (before : List Candidate) (t : LocationType) (l : Location) (after : List Candidate)
      → All (λ c. fits c ≡ ok false) before
      → fits (t, l) ≡ ok true
      → first_fit (before ++ ((t, l) ∷ after)) ≡ ok l
  unfolding first_fit
  IsFirst-first_fit [] t l after h a = rw a
  IsFirst-first_fit (c ∷ cs) t l after h a = rw h.0 (IsFirst-first_fit cs t l after h.1 a)

  -- get_location gives a location exactly when it fits the url and each location before it is
  -- refused, in the order exact, preferential prefix, regular expression, prefix, and in the order
  -- of the file in each.
  pub get_location_iff :
      (s : ServerSettings) (l : Location)
      → (get_location regex s url ≡ ok l) ↔ IsFirst (candidates s) l
  get_location_iff s l = (
    λ h. first_fit-IsFirst (candidates s) (sym (get_location-first_fit s) ∙ h),
    λ f.
        get_location-first_fit s
        ∙ ap first_fit f.splits
        ∙ IsFirst-first_fit f.before f.type l f.after f.refused f.accepted,
  )

  first_fit-none :
      (cs : List Candidate)
      → All (λ c. fits c ≡ ok false) cs
      → first_fit cs ≡ throw (root_not_found_exception "404")
  unfolding first_fit
  first_fit-none [] h = refl
  first_fit-none (c ∷ cs) h = rw h.0 (first_fit-none cs h.1)

  -- A url that no location fits gets the exception for 404.
  pub get_location-none :
      (s : ServerSettings)
      → All (λ c. fits c ≡ ok false) (candidates s)
      → get_location regex s url ≡ throw (root_not_found_exception "404")
  get_location-none s h = get_location-first_fit s ∙ first_fit-none (candidates s) h
