-- ===== src/Config/Location/Total.antt =====
-- parse_functions.cpp: the fuel of parse_location and the position that it leaves.
use mohican.Common.{
  ℕ, zero, suc, ◌+◌, ◌-◌, ◌≡◌, ◌≢◌, ◌≤◌, ◌<◌, refl, true, false, Option, none, some, length, Result,
  ok, throw, undefined, arith,
}
use mohican.Text.{Text, substr}
use mohican.Config.Server.{
  Location, ServerSettings, LocationType, valid_location_properties,
  get_number_of_location_property, set_location_property,
}
use mohican.Config.Lexer.{Lexem, l_brace_close, l_new_line, l_key, l_value, l_err, get_lexem}
use mohican.Config.Lexer.Progress.{get_lexem_lt, get_lexem_bound}
use mohican.Config.Location.{
  LocationState, s_key, s_value, LocationEnd, key_read, value_read, with_text, on_lexem, on_read,
  parse_properties, properties_of, locate_end, location_head, parse_location,
}
use mohican.Config.Location.Head.{location_head_le}

-- The loop has ended, and in S_END not before n.
abbrev Ends : ℕ → LocationEnd → Type 0
Ends n none = ⊥
Ends n (some (ok (true, l, end))) = n ≤ end
Ends n (some (ok (false, l, end))) = Unit
Ends n (some (throw e)) = Unit
Ends n (some undefined) = Unit

-- The same of a whole block.
abbrev pub BlockEnds : ℕ → Option (Result (Option (ServerSettings × ℕ))) → Type 0
BlockEnds n none = ⊥
BlockEnds n (some (ok (some (s, end)))) = n ≤ end
BlockEnds n (some (ok none)) = Unit
BlockEnds n (some (throw e)) = Unit
BlockEnds n (some undefined) = Unit

module _ (config : Text) (s : ServerSettings) (go : LocationState → Location → ℕ → LocationEnd)
    (l : Location) (before pos n : ℕ) where
  key_read-Ends :
      (r : Result (Option ℕ))
      → ((state' : LocationState) (l' : Location) → Ends n (go state' l' pos))
      → Ends n (key_read config s go l before pos r)
  key_read-Ends (ok number) h = h (s_value number) l
  key_read-Ends (throw e) h = tt
  key_read-Ends undefined h = tt

  value_read-Ends :
      (r : Result (Unit {0}) × Location)
      → ((state' : LocationState) (l' : Location) → Ends n (go state' l' pos))
      → Ends n (value_read config s go l before pos r)
  value_read-Ends (ok done, l') h = h s_key l'
  value_read-Ends (throw e, l') h = tt
  value_read-Ends (undefined, l') h = tt

  with_text-Ends :
      (f : Text → LocationEnd) (r : Result Text)
      → ((text : Text) → Ends n (f text))
      → Ends n (with_text config s go l before pos f r)
  with_text-Ends f (ok text) h = h text
  with_text-Ends f (throw e) h = tt
  with_text-Ends f undefined h = tt

  -- An iteration goes on only behind a lexem that is not the error.
  on_lexem-Ends :
      (state : LocationState) (lexem : Lexem)
      → (lexem ≢ l_err → n ≤ pos)
      → (lexem ≢ l_err → (state' : LocationState) (l' : Location) → Ends n (go state' l' pos))
      → Ends n (on_lexem config s go l before pos state lexem)
  unfolding on_lexem
  on_lexem-Ends s_key l_new_line k h = h (λ e. cc) s_key l
  on_lexem-Ends s_key l_key k h =
      with_text-Ends _ (substr config before (pos - before))
        λ text. key_read-Ends (get_number_of_location_property text) (h λ e. cc)
  on_lexem-Ends s_key l_brace_close k h = k λ e. cc
  on_lexem-Ends (s_value number) l_value k h =
      with_text-Ends _ (substr config before (pos - before))
        λ text. value_read-Ends (set_location_property s number text l) (h λ e. cc)
  on_lexem-Ends _ _ k h = tt

Ends-mono : (m n : ℕ) (e : LocationEnd) → m ≤ n → Ends n e → Ends m e
Ends-mono m n none k h = elim h [ ]
Ends-mono m n (some (ok (true, l, end))) k h = omega arith
Ends-mono m n (some (ok (false, l, end))) k h = tt
Ends-mono m n (some (throw e)) k h = tt
Ends-mono m n (some undefined) k h = tt

-- The loop ends if its fuel exceeds what is left of the text by two.
parse_properties-Ends :
    (fuel : ℕ) (config : Text) (s : ServerSettings) (state : LocationState) (l : Location) (pos : ℕ)
    → length config + 1 - pos < fuel
    → Ends pos (parse_properties fuel config s state l pos)
unfolding parse_properties
parse_properties-Ends zero config s state l pos h = absurd (omega (arith, h))
parse_properties-Ends (suc fuel) config s state l pos h =
    by_lexem (get_lexem config pos valid_location_properties) refl
      (parse_properties-Ends fuel config s)
  where
    by_lexem :
        (r : Result (Lexem × ℕ))
        → get_lexem config pos valid_location_properties ≡ r
        → ((state' : LocationState) (l' : Location) (pos' : ℕ)
            → length config + 1 - pos' < fuel
            → Ends pos' (parse_properties fuel config s state' l' pos'))
        → Ends pos (on_read config s (parse_properties fuel config s) l pos state r)
    by_lexem (ok (lexem, pos')) e more =
        let bound = get_lexem_bound config pos valid_location_properties e in
        let forward : lexem ≢ l_err → pos < pos' =
          get_lexem_lt config pos valid_location_properties e in
        on_lexem-Ends config s (parse_properties fuel config s) l pos pos' pos state lexem
          (λ k. omega (arith, forward k))
          λ k state' l'.
            Ends-mono pos pos' _ (omega (arith, forward k))
              (more state' l' pos' (omega (arith, h, bound, forward k)))
    by_lexem (throw x) e more = tt
    by_lexem undefined e more = tt

add_location-BlockEnds :
    (s : ServerSettings) (type : LocationType) (n : ℕ) (end : LocationEnd)
    → Ends n end
    → BlockEnds n (locate_end s type end)
add_location-BlockEnds s type n none h = elim h [ ]
add_location-BlockEnds s type n (some (ok (true, l, end))) h = ground (arith, h)
add_location-BlockEnds s type n (some (ok (false, l, end))) h = ground arith
add_location-BlockEnds s type n (some (throw e)) h = tt
add_location-BlockEnds s type n (some undefined) h = tt

pub BlockEnds-mono :
    (m n : ℕ) (r : Option (Result (Option (ServerSettings × ℕ))))
    → m ≤ n
    → BlockEnds n r
    → BlockEnds m r
BlockEnds-mono m n none k h = elim h [ ]
BlockEnds-mono m n (some (ok (some (s, end)))) k h = omega arith
BlockEnds-mono m n (some (ok none)) k h = tt
BlockEnds-mono m n (some (throw e)) k h = tt
BlockEnds-mono m n (some undefined) k h = tt

-- At any position of any text parse_location does not run out of fuel: it gives the server and a
-- position that is not before its beginning, L_ERR, an exception, or `undefined`, which stands for a
-- read behind the end of the text. What the source does behind such a read, as in a url that ends
-- the text, is not said.
pub parse_location-BlockEnds :
    (s : ServerSettings) (config : Text) (pos : ℕ) → BlockEnds pos (parse_location s config pos)
unfolding parse_location
parse_location-BlockEnds s config pos = by_head (location_head s config pos) refl
  where
    by_head :
        (r : Result (Option (LocationType × Location × ℕ)))
        → location_head s config pos ≡ r
        → BlockEnds pos (properties_of (length config + 2) config s r)
    by_head (ok (some (type, l, pos'))) e =
        BlockEnds-mono pos pos' _ (location_head_le s config pos e) (
          add_location-BlockEnds s type pos' _
            (parse_properties-Ends (length config + 2) config s s_key l pos' (omega arith)))
    by_head (ok none) e = tt
    by_head (throw x) e = tt
    by_head undefined e = tt
