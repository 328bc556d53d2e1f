-- ===== src/Http/Date/Days.antt =====
-- http_date.cpp: the day of the week in a date.
use mohican.Common.{ℕ, zero, suc, ◌≡◌, ◌<◌, ◌↔◌, refl, ap, [], ◌∷◌, arith}
use mohican.Text.{Text, codes}
use mohican.Http.Date.{get_week_day}

-- The day of the week in a date of HTTP, for the weekdays of gmtime, which begin with Sunday = 0.
abbrev pub day_name : ℕ → Text
day_name zero = codes "Sun"
day_name (suc zero) = codes "Mon"
day_name (suc (suc zero)) = codes "Tue"
day_name (suc (suc (suc zero))) = codes "Wed"
day_name (suc (suc (suc (suc zero)))) = codes "Thu"
day_name (suc (suc (suc (suc (suc zero))))) = codes "Fri"
day_name (suc (suc (suc (suc (suc (suc n)))))) = codes "Sat"

abbrev first : Text → ℕ
first [] = 0
first (c ∷ cs) = c

-- For a weekday of gmtime, 0 to 6, the name is right exactly when the day is not a Sunday.
pub get_week_day_iff : (day : ℕ) → day < 7 → (get_week_day day ≡ day_name day) ↔ (0 < day)
unfolding get_week_day
get_week_day_iff zero h = (
  λ e. let same : 85 ≡ 83 = ap first e in absurd (omega (arith, same)),
  λ k. absurd (omega (arith, k)),
)
get_week_day_iff (suc zero) h = (λ e. omega arith, λ k. refl)
get_week_day_iff (suc (suc zero)) h = (λ e. omega arith, λ k. refl)
get_week_day_iff (suc (suc (suc zero))) h = (λ e. omega arith, λ k. refl)
get_week_day_iff (suc (suc (suc (suc zero)))) h = (λ e. omega arith, λ k. refl)
get_week_day_iff (suc (suc (suc (suc (suc zero))))) h = (λ e. omega arith, λ k. refl)
get_week_day_iff (suc (suc (suc (suc (suc (suc zero)))))) h = (λ e. omega arith, λ k. refl)
get_week_day_iff (suc (suc (suc (suc (suc (suc (suc n))))))) h = absurd (omega (arith, h))
