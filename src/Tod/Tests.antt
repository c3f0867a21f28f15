-- ===== src/Tod/Tests.antt =====
-- The time-of-day restrictions at fixed days and texts.
use hylafaxplus.Prelude.{ℕ, ◌+◌, ◌*◌, ◌<◌, true, false, some, [], ◌∷◌, ◌==◌, ◌≡◌, refl, arith}
use hylafaxplus.Tod.{
  Tod, day_minutes, has_day, first_day, next_day, next_time_from, next_time, next_time_of_day,
}
use hylafaxplus.Tod.Landing.{accepts_at, next_time_lands}
use hylafaxplus.Tod.Nearest.{next_time_nearest}
use hylafaxplus.Tod.Union.{any_accepts, next_time_of_day_lands}
use hylafaxplus.Tod.Parse.{TimeOfDay, codes, init, ranges, parse}
use hylafaxplus.Tod.Total.{AllHaveDay, parse-next_time_of_day}

-- Monday to Friday, 0800 to 1700.
abbrev office : Tod
office = record { days = 62; start = 480; end = 1020 }

-- Saturday night, over midnight.
abbrev night : Tod
night = record { days = 64; start = 1320; end = 120 }

-- From Friday at 1800 it is 62 hours to Monday at 0800.
after_hours : next_time office 5 1080 ≡ some 3720
unfolding next_time first_day has_day next_time_from next_day
after_hours = refl

next_time_lands_example :
    (n : ℕ) × (next_time office 5 1080 ≡ some n)
    × (n < 7 * day_minutes)
    × (accepts_at office 5 (1080 + n) ≡ true)
unfolding has_day
next_time_lands_example =
    next_time_lands office 5 1080 1 (omega arith) (omega arith) (omega arith) (omega arith) refl

next_time_nearest_example : accepts_at office 5 4000 ≡ false
unfolding has_day
next_time_nearest_example =
    next_time_nearest office 5 1080 1 3720 4000 (omega arith) (omega arith) (omega arith)
      (omega arith) refl after_hours (omega arith) (omega arith)

next_time_of_day_lands_example :
    (n : ℕ) × (next_time_of_day (office ∷ night ∷ []) 5 1080 900 ≡ some (900 + 60 * n))
    × (n < 7 * day_minutes)
    × (any_accepts (office ∷ night ∷ []) 5 (1080 + n) ≡ true)
    × (any_accepts (office ∷ night ∷ []) 5 1080 ≡ (n == 0))
unfolding has_day
next_time_of_day_lands_example =
    next_time_of_day_lands 5 1080 (omega arith) (omega arith) office (night ∷ []) 900
      (((1, omega arith, refl), omega arith), (((6, omega arith, refl), omega arith), tt))

parse-next_time_of_day_example :
    (t' : TimeOfDay) × (r : ℕ) × (parse (codes "Wk0800-1700,Sat2200-0200") init ≡ some t')
    × AllHaveDay (ranges t')
    × (next_time_of_day (ranges t') 5 1080 900 ≡ some r)
unfolding init
parse-next_time_of_day_example =
    parse-next_time_of_day (codes "Wk0800-1700,Sat2200-0200") init 5 1080 900 (omega arith) tt
