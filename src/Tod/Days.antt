-- ===== src/Tod/Days.antt =====
-- The days that _tod::nextDay finds (util/TimeOfDay.c++).
use hylafaxplus.Prelude.{
  ℕ, zero, suc, ◌+◌, ◌-◌, ◌%◌, ◌≤◌, ◌<◌, ◌≡◌, true, false, some, arith, Bool-cases, inl, inr, sym,
  ◌∙◌,
}
use mathlib.Core.Bool.{false≢true}
use native.Mathlib.Decide.{ℕ_discrete}
use hylafaxplus.Tod.{has_day, next_day_loop, next_day, first_day}

-- Enough fuel: a day that is set k days on is found in more than k rounds.
next_day_loop_total :
    (k fuel days d w : ℕ)
    → k < fuel
    → has_day days ((w + k) % 7) ≡ true
    → w < 7
    → (e : ℕ) × (next_day_loop fuel days d w ≡ some e) × (e ≤ d + k)
unfolding next_day_loop
next_day_loop_total k zero days d w h set hw = elim h [ ]
next_day_loop_total zero (suc fuel) days d w h set hw =
    let here : (w + 0) % 7 ≡ w = omega arith in (d, rw (rw here at set), omega arith)
next_day_loop_total (suc k) (suc fuel) days d w h set hw = elim (Bool-cases (has_day days w)) [
  | inl now ↦ (d, rw now, omega arith)
  | inr later ↦
      let step : (w + suc k) % 7 ≡ ((w + 1) % 7 + k) % 7 = omega arith in
      let (e, found, near) =
        next_day_loop_total k fuel days (d + 1) ((w + 1) % 7) (omega arith) (rw step at set)
          (omega arith) in
      (e, rw (later, found), omega arith)
]

-- One more round behind the days already skipped.
skipped :
    (days d w e : ℕ)
    → w < 7
    → has_day days w ≡ false
    → ((k : ℕ) → d + 1 + k < e → has_day days (((w + 1) % 7 + k) % 7) ≡ false)
    → (k : ℕ) → d + k < e
    → has_day days ((w + k) % 7) ≡ false
skipped days d w e hw now before zero h = let here : (w + 0) % 7 ≡ w = omega arith in rw here now
skipped days d w e hw now before (suc k) h =
    let step : (w + suc k) % 7 ≡ ((w + 1) % 7 + k) % 7 = omega arith in
    rw step (before k (omega arith))

-- What the loop returns is set, not before its start, and the first such day.
next_day_loop_first :
    (fuel days d w e : ℕ)
    → w < 7
    → next_day_loop fuel days d w ≡ some e
    → (d ≤ e)
      × (has_day days ((w + (e - d)) % 7) ≡ true)
      × ((k : ℕ) → d + k < e → has_day days ((w + k) % 7) ≡ false)
unfolding next_day_loop
next_day_loop_first zero days d w e hw found = cc
next_day_loop_first (suc fuel) days d w e hw found = elim (Bool-cases (has_day days w)) [
  | inl now ↦
      let same : e ≡ d = ground arith in
      let here : (w + (e - d)) % 7 ≡ w = omega arith in
      (omega arith, rw here now, λ k h. absurd (omega arith))
  | inr later ↦
      let (le, set, before) =
        next_day_loop_first fuel days (d + 1) ((w + 1) % 7) e (omega arith) (rw later at found) in
      let step : (w + (e - d)) % 7 ≡ ((w + 1) % 7 + (e - (d + 1))) % 7 = omega arith in
      (omega arith, rw step set, skipped days d w e hw later before)
]

-- A day set within the week: nextDay returns the first one from its offset on.
pub next_day_lem :
    (days d wday j : ℕ)
    → j < 7
    → has_day days j ≡ true
    → (e : ℕ) × (next_day days d wday ≡ some e)
      × (d ≤ e)
      × (e ≤ d + 6)
      × (has_day days ((wday + e) % 7) ≡ true)
      × ((k : ℕ) → d ≤ k → k < e → has_day days ((wday + k) % 7) ≡ false)
unfolding next_day
next_day_lem days d wday j hj set =
    let w : ℕ = (wday + d) % 7 in
    let hw : w < 7 = omega arith in
    let reach : (w + (j + 7 - w) % 7) % 7 ≡ j = omega arith in
    let (e, found, near) =
      next_day_loop_total ((j + 7 - w) % 7) 7 days d w (omega arith) (rw reach set) hw in
    let (le, here, before) = next_day_loop_first 7 days d w e hw found in
    let at : (wday + e) % 7 ≡ (w + (e - d)) % 7 = omega arith in
    (
      e,
      found,
      le,
      omega arith,
      rw at here,
      λ k hk he.
          let back : (wday + k) % 7 ≡ (w + (k - d)) % 7 = omega arith in
          rw back (before (k - d) (omega arith)),
    )

unset_below :
    (days wday e : ℕ)
    → wday < 7
    → has_day days wday ≡ false
    → ((k : ℕ) → 1 ≤ k → k < e → has_day days ((wday + k) % 7) ≡ false)
    → (k : ℕ) → k < e
    → has_day days ((wday + k) % 7) ≡ false
unset_below days wday e hw later before zero h =
    let here : (wday + 0) % 7 ≡ wday = omega arith in rw here later
unset_below days wday e hw later before (suc k) h = before (suc k) (omega arith) h

-- Today is not set, so the day found is not today's in a week.
not_week :
    (days wday e : ℕ)
    → wday < 7
    → has_day days wday ≡ false
    → has_day days ((wday + e) % 7) ≡ true
    → e ≤ 1 + 6
    → e ≤ 6
not_week days wday e hw later at near = elim (ℕ_discrete e 7) [
  | yes week ↦
      let here : (wday + e) % 7 ≡ wday = omega arith in
      absurd (false≢true (sym later ∙ rw here at at))
  | no other ↦ omega arith
]

-- The offset with which nextTime starts is that of the first day set, today's included.
pub first_day_lem :
    (days wday j : ℕ)
    → wday < 7
    → j < 7
    → has_day days j ≡ true
    → (e : ℕ) × (first_day days wday ≡ some e)
      × (e ≤ 6)
      × (has_day days ((wday + e) % 7) ≡ true)
      × ((k : ℕ) → k < e → has_day days ((wday + k) % 7) ≡ false)
unfolding first_day
first_day_lem days wday j hw hj set = elim (Bool-cases (has_day days wday)) [
  | inl now ↦
      let here : (wday + 0) % 7 ≡ wday = omega arith in
      (0, rw now, omega arith, rw here now, λ k h. elim h [ ])
  | inr later ↦
      let (e, found, le, near, at, before) = next_day_lem days 1 wday j hj set in
      let none_now : (k : ℕ) → k < e → has_day days ((wday + k) % 7) ≡ false =
        unset_below days wday e hw later before in
      (e, rw (later, found), not_week days wday e hw later at near, at, none_now)
]
