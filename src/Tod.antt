-- ===== src/Tod.antt =====
-- Time-of-day restrictions (util/TimeOfDay.h, util/TimeOfDay.c++): when a job may be sent.
-- Days are a bit vector with Sunday at bit 0; times are minutes since midnight.
-- The searches over the days of a week run on seven rounds of fuel.
use hylafaxplus.Prelude.{
  ℕ, zero, suc, ◌+◌, ◌-◌, ◌*◌, ◌/◌, ◌%◌, ◌^◌, Bool, Option, none, some, List, [], ◌∷◌, ltb, leb,
  ◌==◌, if◌then◌else◌,
}
pub mod Days
pub mod Landing
pub mod Total
pub mod Parse
pub mod Union
pub mod Nearest
mod Tests

-- class _tod; its `next` link is the tail of a list.
pub record Tod : Type 0 where
  pub days : ℕ
  pub start : ℕ
  pub end : ℕ

abbrev pub day_minutes : ℕ
day_minutes = 1440

-- days & BIT(w)
unfoldable pub has_day : ℕ → ℕ → Bool
has_day days w = (days / 2 ^ w) % 2 == 1

-- The loop of _tod::nextDay, at offset d and week day w.
unfoldable pub next_day_loop : ℕ → ℕ → ℕ → ℕ → Option ℕ
next_day_loop zero days d w = none
next_day_loop (suc fuel) days d w =
    let rest = next_day_loop fuel days (d + 1) ((w + 1) % 7) in
    if has_day days w then some d else rest

-- _tod::nextDay
unfoldable pub next_day : ℕ → ℕ → ℕ → Option ℕ
unfolding next_day_loop
next_day days d wday = next_day_loop 7 days d ((wday + d) % 7)

-- The day offset with which _tod::nextTime starts.
unfoldable pub first_day : ℕ → ℕ → Option ℕ
first_day days wday = if has_day days wday then some 0 else next_day days 1 wday

infixl 5 ◌>>=◌
abbrev ◌>>=◌ : Option ℕ → (ℕ → Option ℕ) → Option ℕ
none >>= f = none
some a >>= f = f a

-- The branch of _tod::nextTime for a time behind the range.
unfoldable pub after_range : Tod → ℕ → ℕ → ℕ → Option ℕ
after_range td wday hm d = do
  d' ← if d == 0 then next_day td.days (d + 1) wday else some d
  some ((d' - 1) * day_minutes + (day_minutes - hm + td.start))

-- The rest of _tod::nextTime, from the day offset d.
unfoldable pub next_time_from : Tod → ℕ → ℕ → ℕ → Option ℕ
unfolding after_range
next_time_from td wday hm d =
    if leb td.start td.end
    then if leb td.start hm
      then if ltb td.end hm
        then after_range td wday hm d
        else if d == 0
        then some 0
        else some ((d - 1) * day_minutes + (day_minutes - hm + td.start))
      else some (d * day_minutes + (td.start - hm))
    else if leb td.start hm
    then if d == 0 then some 0 else some ((d - 1) * day_minutes + (day_minutes - hm + td.start))
    else if ltb td.end hm
    then some (d * day_minutes + (td.start - hm))
    else some (d * day_minutes)

-- _tod::nextTime: the minutes from <wday,hm> to the next acceptable time.
unfoldable pub next_time : Tod → ℕ → ℕ → Option ℕ
next_time td wday hm = do d ← first_day td.days wday; next_time_from td wday hm d

-- TimeOfDay::nextTimeOfDay, with the week day and the minute that localtime gives for t.
unfoldable pub best_time : List Tod → ℕ → ℕ → ℕ → Option ℕ
best_time [] wday hm best = some best
best_time (td ∷ tds) wday hm best = do
  diff ← next_time td wday hm
  best_time tds wday hm (if ltb diff best then diff else best)

unfoldable pub next_time_of_day : List Tod → ℕ → ℕ → ℕ → Option ℕ
unfolding best_time
next_time_of_day tds wday hm t = do
  best ← best_time tds wday hm (7 * 24 * 60 + 1)
  some (t + 60 * best)
