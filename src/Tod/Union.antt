-- ===== src/Tod/Union.antt =====
-- TimeOfDay::nextTimeOfDay over all the ranges of a restriction.
use hylafaxplus.Prelude.{
  ℕ, ◌+◌, ◌*◌, ◌≤◌, ◌<◌, ◌≡◌, refl, Bool, true, false, ◌||◌, some, List, [], ◌∷◌, arith, Bool-cases,
  ◌⊎◌, inl, inr, ltb, ◌==◌, if◌then◌else◌,
}
use hylafaxplus.Tod.{
  Tod, day_minutes, has_day, first_day, next_time_from, next_time, best_time, next_time_of_day,
}
use hylafaxplus.Tod.Landing.{accepts_at, next_time_lands}

-- Some week day is set.
abbrev pub HasDay : ℕ → Type 0
HasDay days = (j : ℕ) × (j < 7) × (has_day days j ≡ true)

abbrev pub IsValid : Tod → Type 0
IsValid td = HasDay td.days × (td.start < day_minutes)

abbrev pub AllValid : List Tod → Type 0
AllValid [] = Unit {0}
AllValid (td ∷ tds) = IsValid td × AllValid tds

-- Some range of the restriction allows the time.
abbrev pub any_accepts : List Tod → ℕ → ℕ → Bool
any_accepts [] wday x = false
any_accepts (td ∷ tds) wday x = accepts_at td wday x || any_accepts tds wday x

-- A time that is acceptable now needs no wait.
pub next_time_now :
    (td : Tod) (wday hm : ℕ)
    → wday < 7
    → hm < day_minutes
    → accepts_at td wday hm ≡ true
    → next_time td wday hm ≡ some 0
unfolding next_time next_time_from first_day
next_time_now td wday hm hw hhm ok = ground arith

module _ (wday hm : ℕ) (hw : wday < 7) (hhm : hm < day_minutes) where
  -- The loop ends, with its start value or with a time that some range allows.
  best_time_lem :
      (tds : List Tod) (best : ℕ)
      → AllValid tds
      → (b : ℕ) × (best_time tds wday hm best ≡ some b)
        × (b ≤ best)
        × ((b ≡ best) ⊎ (any_accepts tds wday (hm + b) ≡ true))
        × (any_accepts tds wday hm ≡ true → b ≡ 0)
  unfolding best_time
  best_time_lem [] best v = (best, refl, omega arith, inl refl, λ h. cc)
  best_time_lem (td ∷ tds) best v =
      let ((j, hj, sj), hs) = v.0 in
      let (n, e, small, ok) = next_time_lands td wday hm j hw hhm hs hj sj in
      let (b, eb, le, from, now) = best_time_lem tds (if ltb n best then n else best) v.1 in
      let none_now : any_accepts (td ∷ tds) wday hm ≡ true → b ≡ 0 = λ h. stop b n e le now h in
      (b, rw e eb, ground arith, origin b n ok from, none_now)
    where
      origin :
          (b n : ℕ)
          → accepts_at td wday (hm + n) ≡ true
          → (b ≡ (if ltb n best then n else best)) ⊎ (any_accepts tds wday (hm + b) ≡ true)
          → (b ≡ best) ⊎ (any_accepts (td ∷ tds) wday (hm + b) ≡ true)
      origin b n ok from = elim (Bool-cases (ltb n best)) [
        | inl less ↦ elim from [
          | inl same ↦ let e : b ≡ n = ground arith in inr (rw (e, ok))
          | inr rest ↦ inr (ground arith)
        ]
        | inr not_less ↦ elim from [ inl same ↦ inl (ground arith) | inr rest ↦ inr (ground arith) ]
      ]

      stop :
          (b n : ℕ)
          → next_time td wday hm ≡ some n
          → b ≤ (if ltb n best then n else best)
          → (any_accepts tds wday hm ≡ true → b ≡ 0)
          → any_accepts (td ∷ tds) wday hm ≡ true
          → b ≡ 0
      stop b n e le now h = elim (Bool-cases (accepts_at td wday hm)) [
        | inl ok ↦ let zero_wait : n ≡ 0 = cc (next_time_now td wday hm hw hhm ok) in ground arith
        | inr refused ↦ now (rw refused at h)
      ]

  -- For a restriction of one range or more, each with some week day set and its start within a day:
  -- nextTimeOfDay ends; the time it returns is n minutes on, n less than a week; some range allows
  -- that time; and n is 0 exactly when some range allows the present time.
  pub next_time_of_day_lands :
      (td : Tod) (tds : List Tod) (t : ℕ)
      → AllValid (td ∷ tds)
      → (n : ℕ) × (next_time_of_day (td ∷ tds) wday hm t ≡ some (t + 60 * n))
        × (n < 7 * day_minutes)
        × (any_accepts (td ∷ tds) wday (hm + n) ≡ true)
        × (any_accepts (td ∷ tds) wday hm ≡ (n == 0))
  unfolding next_time_of_day best_time
  next_time_of_day_lands td tds t v =
      let ((j, hj, sj), hs) = v.0 in
      let (n, e, small, ok) = next_time_lands td wday hm j hw hhm hs hj sj in
      let (b, eb, le, from, now) = best_time_lem (td ∷ tds) (7 * 24 * 60 + 1) v in
      let (m, em, lem, fromm, nowm) = best_time_lem tds n v.1 in
      let first : (if ltb n (7 * 24 * 60 + 1) then n else 7 * 24 * 60 + 1) ≡ n = ground arith in
      let same : b ≡ m = cc (em, rw (e, first) at eb) in
      let lands : any_accepts (td ∷ tds) wday (hm + b) ≡ true = elim from [
        | inl far ↦ absurd (omega arith)
        | inr near ↦ near
      ] in
      (b, rw eb, omega arith, lands, exactly _ b now (λ z. rw (zero_add hm b z) at lands))
    where
      exactly : (a : Bool) (b : ℕ) → (a ≡ true → b ≡ 0) → (b ≡ 0 → a ≡ true) → a ≡ (b == 0)
      exactly true b h k = ground (arith, h refl)
      exactly false b h k = ground (arith, k)

      zero_add : (a b : ℕ) → b ≡ 0 → a + b ≡ a
      zero_add a b z = omega arith
