-- ===== src/Config/Location/Head.antt =====
-- parse_functions.cpp: the positions that the head of a location leaves.
use mohican.Common.{
  ℕ, ◌+◌, ◌-◌, ◌≡◌, ◌≤◌, ap, Bool, Option, none, some, [], ◌∷◌, drop, ◌==◌, not, if◌then◌else◌, ok,
  bind-eq-ok, arith,
}
use mohican.Text.{Text, char_at, substr}
use mohican.Config.Server.{Location, ServerSettings, LocationType}
use mohican.Config.Lexer.{prefix_status, get_prefix_status, skip_isspace}
use mohican.Config.Lexer.Progress.{skip_isspace_le, ok-injective, by_test}
use mohican.Config.Location.{url_end, get_url, open_brace, location_head}

prefix_status_le : (pos c next : ℕ) → pos ≤ (prefix_status pos c next).1
unfolding prefix_status
prefix_status_le pos c next = ground arith

get_prefix_status_le :
    (config : Text) (pos : ℕ) {r : LocationType × ℕ}
    → get_prefix_status config pos ≡ ok r
    → pos ≤ r.1
unfolding get_prefix_status
get_prefix_status_le config pos {r} h =
    let (c, e0, h0) = bind-eq-ok (char_at config pos) _ h in
    by_test (c == b'^') h0
      (λ e.
        let (next, e1, h1) = bind-eq-ok (char_at config (pos + 1)) _ e in
        omega (arith, prefix_status_le pos c next, ap (λ q. q.1) (ok-injective h1)))
      (λ e. omega (arith, prefix_status_le pos c 0, ap (λ q. q.1) (ok-injective e)))

url_end_le : (pos : ℕ) (text : Text) (end : ℕ) → url_end pos text ≡ ok end → pos ≤ end
unfolding url_end
url_end_le pos [] end h = cc
url_end_le pos (c ∷ cs) end h = ground (arith, url_end_le (pos + 1) cs end)

abbrev url_place : Option (Text × ℕ) → ℕ → ℕ
url_place none pos = pos
url_place (some (url, end)) pos = end

get_url_le :
    (config : Text) (pos : ℕ) {r : Option (Text × ℕ)}
    → get_url config pos ≡ ok r
    → pos ≤ url_place r pos
unfolding get_url
get_url_le config pos {r} h =
    let (c, e0, h0) = bind-eq-ok (char_at config pos) _ h in
    by_test (c == b'/') h0
      (λ e.
        let (end, e1, h1) = bind-eq-ok (url_end pos (drop pos config)) _ e in
        let (url, e2, h2) = bind-eq-ok (substr config pos (end - pos)) _ h1 in
        omega (
          arith,
          url_end_le pos (drop pos config) end e1,
          ap (λ o. url_place o pos) (ok-injective h2),
        ))
      (λ e. omega (arith, ap (λ o. url_place o pos) (ok-injective e)))

abbrev head_place : Option (LocationType × Location × ℕ) → ℕ → ℕ
head_place none pos = pos
head_place (some (type, l, end)) pos = end

open_brace_le :
    (s : ServerSettings) (config : Text) (sensitive : Bool) (type : LocationType) (n : ℕ)
    (o : Option (Text × ℕ)) {type' : LocationType} {l : Location} {end : ℕ}
    → n ≤ url_place o n
    → open_brace s config sensitive type o ≡ ok (some (type', l, end))
    → n ≤ end
open_brace_le s config sensitive type n none k h = cc
open_brace_le s config sensitive type n (some (url, p)) {type'} {l} {end} k h =
    let (p', e0, h0) = bind-eq-ok (skip_isspace config p) _ h in
    let (c, e1, h1) = bind-eq-ok (char_at config p') _ h0 in
    let forward = skip_isspace_le config p e0 in ground (arith, forward, k, h1)

pub location_head_le :
    (s : ServerSettings) (config : Text) (start : ℕ) {type : LocationType} {l : Location} {end : ℕ}
    → location_head s config start ≡ ok (some (type, l, end))
    → start ≤ end
unfolding location_head
location_head_le s config start {type} {l} {end} h =
    let (pos, e0, h0) = bind-eq-ok (skip_isspace config start) _ h in
    let (c, e1, h1) = bind-eq-ok (char_at config pos) _ h0 in
    let (status, e2, h2) =
      bind-eq-ok (get_prefix_status config (if c == b'*' then pos + 1 else pos)) _ h1 in
    let (pos', e3, h3) = bind-eq-ok (skip_isspace config status.1) _ h2 in
    let (url, e4, h4) = bind-eq-ok (get_url config pos') _ h3 in
    let star : pos ≤ (if c == b'*' then pos + 1 else pos) = ground arith in
    let brace : pos' ≤ end =
      open_brace_le s config (not (c == b'*')) status.0 pos' url (get_url_le config pos' e4) h4 in
    omega (
      arith,
      skip_isspace_le config start e0,
      star,
      get_prefix_status_le config _ e2,
      skip_isspace_le config status.1 e3,
      brace,
    )
