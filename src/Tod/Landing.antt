-- ===== src/Tod/Landing.antt =====
-- The time that _tod::nextTime leads to (util/TimeOfDay.c++).
use hylafaxplus.Prelude.{
  ℕ, ◌+◌, ◌-◌, ◌*◌, ◌/◌, ◌%◌, ◌≤◌, ◌<◌, ◌≡◌, Bool, true, ◌&&◌, ◌||◌, Option, some, arith, ◌≢◌, ◌⊎◌,
  inl, inr, leb, ◌==◌, if◌then◌else◌,
}
use hylafaxplus.Tod.{Tod, day_minutes, has_day, after_range, next_time_from, next_time}
use native.Mathlib.Decide.{ℕ_discrete}
use hylafaxplus.Tod.Days.{next_day_lem, first_day_lem}

-- The minute m of a day lies in the range; a range whose start is behind its end passes midnight.
abbrev pub in_range : Tod → ℕ → Bool
in_range td m =
    if leb td.start td.end then leb td.start m && leb m td.end else leb td.start m || leb m td.end

-- The restriction allows the time x minutes after the midnight that began the week day wday.
abbrev pub accepts_at : Tod → ℕ → ℕ → Bool
accepts_at td wday x =
    has_day td.days ((wday + x / day_minutes) % 7) && in_range td (x % day_minutes)

accepts_at_lem :
    (td : Tod) (wday x d m : ℕ)
    → x ≡ d * day_minutes + m
    → m < day_minutes
    → has_day td.days ((wday + d) % 7) ≡ true
    → in_range td m ≡ true
    → accepts_at td wday x ≡ true
accepts_at_lem td wday x d m e hm set fits =
    let day : x / day_minutes ≡ d = omega arith in
    let minute : x % day_minutes ≡ m = omega arith in rw (day, minute, set) fits

pub le_or_lt : (a b : ℕ) → (a ≤ b) ⊎ (b < a)
le_or_lt a b = omega arith

-- A result that is found, within the week, and acceptable.
abbrev Lands : Tod → ℕ → ℕ → Option ℕ → Type 0
Lands td wday hm r =
    (n : ℕ) × (r ≡ some n) × (n < 7 * day_minutes) × (accepts_at td wday (hm + n) ≡ true)

module _ (td : Tod) (wday hm d : ℕ) (hhm : hm < day_minutes) (hs : td.start < day_minutes)
    (hd : d ≤ 6) (set : has_day td.days ((wday + d) % 7) ≡ true) where
  -- Pushed to the start of the range on the day d.
  push_start : (n : ℕ) → hm + n ≡ d * day_minutes + td.start → accepts_at td wday (hm + n) ≡ true
  push_start n e = accepts_at_lem td wday (hm + n) d td.start e hs set (ground arith)

  stays : in_range td hm ≡ true → accepts_at td wday (hm + d * day_minutes) ≡ true
  stays fits = accepts_at_lem td wday (hm + d * day_minutes) d hm (omega arith) hhm set fits

  -- Behind the range of the day: the next day set that is not before tomorrow.
  after_range-Lands :
      (j : ℕ)
      → j < 7
      → has_day td.days j ≡ true
      → td.start ≤ td.end
      → td.end < hm
      → Lands td wday hm (after_range td wday hm d)
  unfolding after_range
  after_range-Lands j hj sj ordered late = elim (ℕ_discrete d 0) [
    | yes today ↦
        let (e, found, le, near, at, before) = next_day_lem td.days 1 wday j hj sj in
        let n : ℕ = (e - 1) * day_minutes + (day_minutes - hm + td.start) in
        (
          n,
          rw (today, found),
          omega arith,
          accepts_at_lem td wday (hm + n) e td.start (omega arith) hs at (ground arith),
        )
    | no later ↦
        let n : ℕ = (d - 1) * day_minutes + (day_minutes - hm + td.start) in
        (n, ground arith, omega arith, push_start n (omega arith))
  ]

  next_time_from-Lands :
      (j : ℕ) → j < 7 → has_day td.days j ≡ true → Lands td wday hm (next_time_from td wday hm d)
  unfolding next_time_from
  next_time_from-Lands j hj sj = elim (le_or_lt td.start td.end) [
    | inl ordered ↦ elim (le_or_lt td.start hm) [
      | inl begun ↦ elim (le_or_lt hm td.end) [
        | inl inside ↦ started (ground arith) (λ h. omega arith) (ground arith)
        | inr late ↦
            let (n, e, small, ok) = after_range-Lands j hj sj ordered late in
            (n, ground arith, small, ok)
      ]
      | inr early ↦
          let n : ℕ = d * day_minutes + (td.start - hm) in
          (n, ground arith, omega arith, push_start n (omega arith))
    ]
    | inr wraps ↦ elim (le_or_lt td.start hm) [
      | inl begun ↦ started (ground arith) (λ h. omega arith) (ground arith)
      | inr early ↦ elim (le_or_lt hm td.end) [
        | inl inside ↦ (d * day_minutes, ground arith, omega arith, stays (ground arith))
        | inr outside ↦
            let n : ℕ = d * day_minutes + (td.start - hm) in
            (n, ground arith, omega arith, push_start n (omega arith))
      ]
    ]
  ]
    where
      started :
          in_range td hm ≡ true
          → (d ≢ 0 → (d - 1) * day_minutes + (day_minutes - hm + td.start) < 7 * day_minutes)
          → next_time_from td wday hm d ≡ (
              if d == 0
              then some 0
              else some ((d - 1) * day_minutes + (day_minutes - hm + td.start)))
          → Lands td wday hm (next_time_from td wday hm d)
      started fits behind e = elim (ℕ_discrete d 0) [
        | yes today ↦ (
          0,
          ground arith,
          omega arith,
          accepts_at_lem td wday (hm + 0) d hm (omega arith) hhm set fits,
        )
        | no later ↦
            let n : ℕ = (d - 1) * day_minutes + (day_minutes - hm + td.start) in
            (n, ground arith, behind later, push_start n (omega arith))
      ]

-- For a restriction with some week day set and its start within a day, at any day and minute of a
-- week: nextTime ends, its result is less than a week, and the time it leads to is acceptable.
pub next_time_lands :
    (td : Tod) (wday hm j : ℕ)
    → wday < 7
    → hm < day_minutes
    → td.start < day_minutes
    → j < 7
    → has_day td.days j ≡ true
    → (n : ℕ) × (next_time td wday hm ≡ some n)
      × (n < 7 * day_minutes)
      × (accepts_at td wday (hm + n) ≡ true)
unfolding next_time
next_time_lands td wday hm j hw hhm hs hj sj =
    let (d, found, near, set, before) = first_day_lem td.days wday j hw hj sj in
    rw found (next_time_from-Lands td wday hm d hhm hs near set j hj sj)
