-- ===== src/Config/Upstream.antt =====
-- project/config/src/upstream_settings.cpp: an upstream and the test for a dotted IPv4 address.
pub mod Dotted
use mohican.Common.{
  ℕ, zero, suc, ◌+◌, ◌-◌, Bool, true, false, not, ◌&&◌, ◌||◌, Option, none, some, List, [], ◌∷◌,
  ◌==◌, ltb, if◌then◌else◌, length, take, drop, ℤ, pos, negsuc, Result, ok, throw, undefined, bind,
}
use mohican.Text.{Text, is_digit, char_at, substr, skip_from, stoi}

pub record UpstreamSettings : Type 0 where
  pub upstream_address : Text
  pub weight : ℤ
  pub port : ℤ
  pub is_ip : Bool

-- num < 0 || num > 255
abbrev pub out_of_byte : ℤ → Bool
out_of_byte (pos n) = ltb 255 n
out_of_byte (negsuc n) = true

abbrev is_dot : Result ℕ → Bool
is_dot (ok c) = c == b'.'
is_dot (throw e) = false
is_dot undefined = false

-- The length of a number up to 255 and its dot; `none` is -1.
unfoldable pub is_sub_ip_num : Text → Result (Option ℕ)
is_sub_ip_num sub_ip_num =
    let i = skip_from is_digit 0 sub_ip_num in
    if i == 0
    then ok none
    else bind (bind (substr sub_ip_num 0 i) stoi) λ num. ok (
        if out_of_byte num
        then none
        else if i == length sub_ip_num || not (is_dot (char_at sub_ip_num i))
        then none
        else some (i + 1))

-- The loop over the digits behind the third dot: does it reach the end?
unfoldable pub all_digits : Text → Bool
all_digits [] = true
all_digits (c ∷ cs) = is_digit c && all_digits cs

-- The part of set_upstream_address behind the loop, from position i = j on.
unfoldable pub check_last : Text → ℕ → Result Bool
check_last address j =
    if all_digits (drop j address)
    then bind (bind (substr address j (length address)) stoi) (λ num. ok (not (out_of_byte num)))
    else ok false

-- is_ip: `rounds` more numbers with a dot from position i on, then the last one.
unfoldable pub check_ip : ℕ → Text → ℕ → Result Bool
check_ip zero address i = check_last address i
check_ip (suc rounds) address i =
    bind (bind (substr address i (length address - i)) is_sub_ip_num)
      λ res. elim res [ none ↦ ok false | some n ↦ check_ip rounds address (i + n) ]

-- set_upstream_address, and the constructor that calls it
unfoldable pub make_upstream : Text → ℤ → ℤ → Result UpstreamSettings
make_upstream address weight port =
    bind (check_ip 3 address 0) λ is_ip.
      ok (record { upstream_address = address; weight = weight; port = port; is_ip = is_ip })

-- set_weight, which nothing calls
abbrev set_weight : ℤ → UpstreamSettings → UpstreamSettings
set_weight weight upstream = record upstream { weight = weight }
