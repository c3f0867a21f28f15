-- ===== src/Tod/Nearest.antt =====
-- The times before the one that _tod::nextTime leads to (util/TimeOfDay.c++).
use native.Mathlib.Decide.{ℕ_discrete}
use hylafaxplus.Prelude.{
  ℕ, ◌+◌, ◌-◌, ◌*◌, ◌/◌, ◌%◌, ◌≤◌, ◌<◌, ◌≡◌, true, false, Option, some, arith, ◌⊎◌, inl, inr,
}
use hylafaxplus.Tod.{Tod, day_minutes, has_day, after_range, next_time_from, next_time}
use hylafaxplus.Tod.Days.{next_day_lem, first_day_lem}
use hylafaxplus.Tod.Landing.{accepts_at, le_or_lt}

-- A time before the start of the range on the day d, when every day before d is unset or, for the
-- day of x itself, x is behind the range.
early_refused :
    (td : Tod) (wday d x : ℕ)
    → td.start ≤ td.end
    → x < d * day_minutes + td.start
    → (x / day_minutes < d
        → (has_day td.days ((wday + x / day_minutes) % 7) ≡ false) ⊎ (td.end < x % day_minutes))
    → accepts_at td wday x ≡ false
early_refused td wday d x ordered below before = elim (le_or_lt d (x / day_minutes)) [
  | inl same ↦ let under : x % day_minutes < td.start = omega arith in ground arith
  | inr sooner ↦ elim (before sooner) [ inl unset ↦ rw unset | inr late ↦ ground arith ]
]

-- No earlier time of the result is acceptable.
abbrev Nearest : Tod → ℕ → ℕ → Option ℕ → Type 0
Nearest td wday hm r =
    (n : ℕ) → r ≡ some n → (x : ℕ) → hm ≤ x → x < hm + n → accepts_at td wday x ≡ false

module _ (td : Tod) (wday hm d : ℕ) (hhm : hm < day_minutes) (ordered : td.start ≤ td.end)
    (before : (k : ℕ) → k < d → has_day td.days ((wday + k) % 7) ≡ false) where
  pushed :
      (r : Option ℕ) (n : ℕ)
      → r ≡ some n
      → hm + n ≡ d * day_minutes + td.start
      → Nearest td wday hm r
  pushed r n e lands m em x after below =
      early_refused td wday d x ordered (ground arith) (λ h. inl (before (x / day_minutes) h))

  after_range-Nearest :
      (j : ℕ)
      → j < 7
      → has_day td.days j ≡ true
      → td.end < hm
      → Nearest td wday hm (after_range td wday hm d)
  unfolding after_range
  after_range-Nearest j hj sj late = elim (ℕ_discrete d 0) [
    | yes today ↦
        let (e, found, le, near, at, unset) = next_day_lem td.days 1 wday j hj sj in
        λ m em x after below.
          let n_eq : m ≡ (e - 1) * day_minutes + (day_minutes - hm + td.start) = ground arith in
          early_refused td wday e x ordered (omega arith) (λ h.
            elim (ℕ_discrete (x / day_minutes) 0) [
              | yes same ↦ inr (omega arith)
              | no other ↦ inl (unset (x / day_minutes) (omega arith) h)
            ])
    | no later ↦
        pushed _ ((d - 1) * day_minutes + (day_minutes - hm + td.start)) (ground arith)
          (omega arith)
  ]

  next_time_from-Nearest :
      (j : ℕ) → j < 7 → has_day td.days j ≡ true → Nearest td wday hm (next_time_from td wday hm d)
  unfolding next_time_from
  next_time_from-Nearest j hj sj = elim (le_or_lt td.start hm) [
    | inl begun ↦ elim (le_or_lt hm td.end) [
      | inl inside ↦ elim (ℕ_discrete d 0) [
        | yes today ↦ λ m em x after below. absurd (ground arith)
        | no later ↦
            pushed _ ((d - 1) * day_minutes + (day_minutes - hm + td.start)) (ground arith)
              (omega arith)
      ]
      | inr late ↦
          let same : next_time_from td wday hm d ≡ after_range td wday hm d = ground arith in
          rw same (after_range-Nearest j hj sj late)
    ]
    | inr early ↦ pushed _ (d * day_minutes + (td.start - hm)) (ground arith) (omega arith)
  ]

-- For a restriction whose range lies within one day and with some week day set: no time from the
-- present minute up to the result of nextTime is acceptable.
pub next_time_nearest :
    (td : Tod) (wday hm j n x : ℕ)
    → wday < 7
    → hm < day_minutes
    → td.start ≤ td.end
    → j < 7
    → has_day td.days j ≡ true
    → next_time td wday hm ≡ some n
    → hm ≤ x
    → x < hm + n
    → accepts_at td wday x ≡ false
unfolding next_time
next_time_nearest td wday hm j n x hw hhm ordered hj sj e after below =
    let (d, found, near, set, before) = first_day_lem td.days wday j hw hj sj in
    next_time_from-Nearest td wday hm d hhm ordered before j hj sj n (rw found at e) x after below
