-- ===== src/Http/Date.antt =====
-- project/http/src/http_date.cpp: the date of a response. `Tm` holds the fields of `struct tm` that
-- gmtime gives: the weekday counts from Sunday = 0, the month from January = 0.
pub mod Days
use mohican.Common.{
  ℕ, ◌+◌, ◌%◌, none, some, List, [], ◌∷◌, ◌++◌, ltb, if◌then◌else◌, get_elem?, pos, String,
}
use mohican.Text.{Text, codes, to_string}

pub record Tm : Type 0 where
  pub tm_wday : ℕ
  pub tm_mday : ℕ
  pub tm_mon : ℕ
  pub tm_year : ℕ
  pub tm_hour : ℕ
  pub tm_min : ℕ
  pub tm_sec : ℕ

abbrev pub months : List String
months =
    "Jan" ∷ "Feb" ∷ "Mar" ∷ "Apr" ∷ "May" ∷ "Jun" ∷ "Jul" ∷ "Aug" ∷ "Sep" ∷ "Oct" ∷ "Nov" ∷ "Dec"
    ∷ []

abbrev pub week_days : List String
week_days = "Unknown" ∷ "Mon" ∷ "Tue" ∷ "Wed" ∷ "Thu" ∷ "Fri" ∷ "Sat" ∷ "Sun" ∷ []

-- operator[] of a vector; the indices below are in range
abbrev name_at : List String → ℕ → Text
name_at names i = elim (get_elem? names i) [ some name ↦ codes name | none ↦ [] ]

unfoldable pub get_week_day : ℕ → Text
get_week_day week_day = name_at week_days (week_day % 8)

unfoldable pub get_month : ℕ → Text
get_month month = name_at months (month % 12)

unfoldable pub add_leading_zero : ℕ → Text
unfolding to_string
add_leading_zero num = if ltb num 10 then codes "0" ++ to_string (pos num) else to_string (pos num)

unfoldable pub get_date : Tm → Text
unfolding get_week_day get_month add_leading_zero
get_date tm =
    get_week_day tm.tm_wday
    ++ (codes ", "
        ++ (add_leading_zero tm.tm_mday
            ++ (codes " "
                ++ (get_month tm.tm_mon
                    ++ (codes " "
                        ++ (to_string (pos (1900 + tm.tm_year))
                            ++ (codes " "
                                ++ (add_leading_zero tm.tm_hour
                                    ++ (codes ":"
                                        ++ (add_leading_zero tm.tm_min
                                            ++ (codes ":"
                                                ++ (add_leading_zero tm.tm_sec
                                                    ++ codes " GMT"))))))))))))
