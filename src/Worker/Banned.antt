-- ===== src/Worker/Banned.antt =====
-- project/workers/src/worker_process.cpp: is_banned_upstream and its list of addresses.
pub mod Refines
use mohican.Common.{
  ℕ, ◌%◌, Bool, true, false, ◌||◌, List, [], ◌∷◌, ◌++◌, ◌==◌, if◌then◌else◌, ℤ, pos, negsuc, Result,
  ok, Method, ◌>>=◌, ◌>>◌, return, modify, get,
}
use mohican.Text.{Text, text_eq}

-- banned_upstreams
abbrev pub Banned : Type 0
Banned = List Text

-- std::find(begin, end, ip) != end
unfoldable pub contains : Text → Banned → Bool
contains ip [] = false
contains ip (x ∷ xs) = text_eq x ip || contains ip xs

-- erase(iter), for the first occurrence
unfoldable pub erase : Text → Banned → Banned
erase ip [] = []
erase ip (x ∷ xs) = if text_eq x ip then xs else x ∷ erase ip xs

-- result_code % 100 == 4 || result_code % 100 == 5; the remainder of a negative code is not positive.
unfoldable pub is_refusal : ℤ → Bool
is_refusal (pos n) = n % 100 == 4 || n % 100 == 5
is_refusal (negsuc n) = false

abbrev pub ban : Text → Banned → Banned
ban ip banned = if contains ip banned then banned else banned ++ ip ∷ []

abbrev pub unban : Text → Banned → Banned
unban ip banned = if contains ip banned then erase ip banned else banned

unfoldable pub is_banned_upstream : Text → ℤ → Method Banned Bool
is_banned_upstream ip result_code =
    if is_refusal result_code
    then (do modify (ban ip); return true)
    else (do modify (unban ip); return false)
