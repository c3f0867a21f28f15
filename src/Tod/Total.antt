-- ===== src/Tod/Total.antt =====
-- Whether TimeOfDay::parse and TimeOfDay::nextTimeOfDay end (util/TimeOfDay.c++).
use hylafaxplus.Prelude.{
  ℕ, zero, suc, ◌+◌, ◌-◌, ◌*◌, ◌≤◌, ◌<◌, ◌≡◌, refl, Bool, true, false, ◌&&◌, ◌||◌, not, Option,
  none, some, List, [], ◌∷◌, ◌++◌, length, ltb, ◌==◌, if◌then◌else◌, arith, Bool-cases,
  Option-cases, ◌⊎◌, inl, inr,
}
use hylafaxplus.Tod.{
  Tod, has_day, next_day, after_range, next_time_from, next_time, best_time, next_time_of_day,
}
use hylafaxplus.Tod.Days.{next_day_lem, first_day_lem}
use hylafaxplus.Tod.Union.{HasDay}
use hylafaxplus.Tod.Parse.{
  TimeOfDay, ranges, reset, add, skip_while, after_word, find_day, day_names, set_day, third_letter,
  is_alpha, is_separator, is_space, is_digit, comma, codes, day_list, day_spec, scan_range,
  make_range, behind_comma, parse_range, parse_loop, parse,
}

length-skip_while : (test : ℕ → Bool) (cs : List ℕ) → length (skip_while test cs) ≤ length cs
unfolding skip_while
length-skip_while test [] = omega arith
length-skip_while test (c ∷ cs) = ground (arith, length-skip_while test cs)

length-third_letter : (z : ℕ) (cs : List ℕ) → length (third_letter z cs) ≤ length cs
unfolding third_letter
length-third_letter z [] = omega arith
length-third_letter z (c ∷ cs) = ground arith

length-behind_comma : (cs : List ℕ) → length (behind_comma cs) ≤ length cs - 1
unfolding behind_comma
length-behind_comma [] = omega arith
length-behind_comma (c ∷ cs) = ground (arith, length-behind_comma cs)

length-after_word : (ws cs rest : List ℕ) → after_word ws cs ≡ some rest → length rest ≤ length cs
unfolding after_word
length-after_word [] cs rest e = ground arith
length-after_word (w ∷ ws) [] rest e = cc
length-after_word (w ∷ ws) (c ∷ cs) rest e = ground (arith, length-after_word ws cs rest)

-- What the loop over day names keeps: no day, or a day of the week.
abbrev NoneOrSome : ℕ → Type 0
NoneOrSome days = (days ≡ 0) ⊎ HasDay days

find_day_bound :
    (i : ℕ) (names : List (ℕ × ℕ × ℕ)) (a b k z : ℕ)
    → find_day i names a b ≡ some (k, z)
    → k < i + length names
unfolding find_day
find_day_bound i [] a b k z e = cc
find_day_bound i ((x, y, w) ∷ names) a b k z e =
    ground (arith, find_day_bound (i + 1) names a b k z)

has_day-set_day : (days i : ℕ) → i < 7 → has_day (set_day days i) i ≡ true
unfolding has_day set_day
has_day-set_day days zero h = ground arith
has_day-set_day days (suc zero) h = ground arith
has_day-set_day days (suc (suc zero)) h = ground arith
has_day-set_day days (suc (suc (suc zero))) h = ground arith
has_day-set_day days (suc (suc (suc (suc zero)))) h = ground arith
has_day-set_day days (suc (suc (suc (suc (suc zero))))) h = ground arith
has_day-set_day days (suc (suc (suc (suc (suc (suc zero)))))) h = ground arith
has_day-set_day days (suc (suc (suc (suc (suc (suc (suc i))))))) h = absurd (omega arith)

-- A place at which the loop over day names stops by its own tests.
abbrev stops : List ℕ → Bool
stops [] = true
stops (a ∷ []) = true
stops (a ∷ b ∷ cs) =
    not (is_alpha a) || elim (find_day 0 day_names a b) [ none ↦ true | some _ ↦ false ]

day_list_lem :
    (fuel days : ℕ) (cs : List ℕ)
    → NoneOrSome days
    → length cs ≤ fuel
    → NoneOrSome (day_list fuel days cs).0
      × (length (day_list fuel days cs).1 ≤ length cs)
      × (stops (day_list fuel days cs).1 ≡ true)
unfolding day_list
day_list_lem zero days [] v h = (v, omega arith, refl)
day_list_lem zero days (c ∷ cs) v h = absurd (omega arith)
day_list_lem (suc fuel) days [] v h = (v, omega arith, refl)
day_list_lem (suc fuel) days (a ∷ []) v h = (v, omega arith, refl)
day_list_lem (suc fuel) days (a ∷ b ∷ cs) v h = elim (Bool-cases (is_alpha a)) [
  | inr digit ↦ (rw digit v, rw digit (omega arith), rw digit (rw digit))
  | inl letter ↦ elim (Option-cases (find_day 0 day_names a b)) [
    | inl unknown ↦ (
      rw (letter, unknown) v,
      rw (letter, unknown) (omega arith),
      rw (letter, unknown) (rw (letter, unknown)),
    )
    | inr ((i, z), known) ↦
        let more : List ℕ = skip_while is_separator (third_letter z cs) in
        let shorter : length more ≤ length cs =
          omega
            (arith, length-skip_while is_separator (third_letter z cs), length-third_letter z cs) in
        let bound : i < 7 = omega (arith, find_day_bound 0 day_names a b i z known) in
        let ih =
          day_list_lem fuel (set_day days i) more (inr (i, bound, has_day-set_day days i bound))
            (omega arith) in
        (rw (letter, known) ih.0, rw (letter, known) (omega arith), rw (letter, known) ih.2)
  ]
]

day_spec_lem : (cs : List ℕ) → NoneOrSome (day_spec cs).0 × (length (day_spec cs).1 ≤ length cs)
unfolding day_spec
day_spec_lem cs = elim (Option-cases (after_word (codes "Any") cs)) [
  | inr (rest, any) ↦ (
    rw any (inr (0, omega arith, every_day)),
    rw any (length-after_word (codes "Any") cs rest any),
  )
  | inl not_any ↦ elim (Option-cases (after_word (codes "Wk") cs)) [
    | inr (rest, week) ↦ (
      rw (not_any, week) (inr (1, omega arith, monday)),
      rw (not_any, week) (length-after_word (codes "Wk") cs rest week),
    )
    | inl listed ↦
        let days = day_list_lem (length cs) 0 cs (inl refl) (omega arith) in
        (rw (not_any, listed) days.0, rw (not_any, listed) days.1)
  ]
]
  where
    every_day : has_day 127 0 ≡ true
    every_day = unfold has_day in refl

    monday : has_day 62 1 ≡ true
    monday = unfold has_day in refl

default_days : (days : ℕ) → NoneOrSome days → HasDay (if days == 0 then 127 else days)
unfolding has_day
default_days days (inl e) = rw e (0, omega arith, refl)
default_days days (inr (j, hj, sj)) = elim (Bool-cases (days == 0)) [
  | inl e ↦ rw e (0, omega arith, refl)
  | inr e ↦ rw e (j, hj, sj)
]

make_range_days :
    (days : ℕ) (r : Option (ℕ × ℕ)) → NoneOrSome days → HasDay (make_range days r).days
unfolding make_range
make_range_days days (some (start, end)) v = default_days days v
make_range_days days none v = default_days days v

parse_range_lem :
    (c : ℕ) (cs : List ℕ)
    → HasDay (parse_range (c ∷ cs)).0.days × (length (parse_range (c ∷ cs)).1 ≤ length cs)
unfolding parse_range
parse_range_lem c cs =
    let blank : List ℕ = skip_while is_space (c ∷ cs) in
    let days = day_spec_lem blank in
    let test = λ (x : ℕ). not (x == comma) && not (is_digit x) in
    let rest : List ℕ = skip_while test (day_spec blank).1 in
    (
      make_range_days (day_spec blank).0 (scan_range rest) days.0,
      omega (
        arith,
        length-behind_comma rest,
        length-skip_while test (day_spec blank).1,
        days.1,
        length-skip_while is_space (c ∷ cs),
      ),
    )

-- Every range of the list has some week day set.
abbrev pub AllHaveDay : List Tod → Type 0
AllHaveDay [] = Unit {0}
AllHaveDay (r ∷ rs) = HasDay r.days × AllHaveDay rs

AllHaveDay-append :
    (rs : List Tod) (r : Tod) → AllHaveDay rs → HasDay r.days → AllHaveDay (rs ++ r ∷ [])
AllHaveDay-append [] r all h = (h, tt)
AllHaveDay-append (x ∷ rs) r all h = (all.0, AllHaveDay-append rs r all.1 h)

add-AllHaveDay :
    (r : Tod) (t : TimeOfDay)
    → AllHaveDay (ranges t)
    → HasDay r.days
    → AllHaveDay (ranges (add r t))
unfolding add
add-AllHaveDay r t all h = elim (Bool-cases (t.tod.days == 255)) [
  | inl first ↦ rw first (h, all.1)
  | inr other ↦ rw other (all.0, AllHaveDay-append t.next r all.1 h)
]

reset-AllHaveDay : (t : TimeOfDay) → AllHaveDay t.next → AllHaveDay (ranges (reset t))
unfolding reset has_day
reset-AllHaveDay t all = elim (Bool-cases (t.tod.days == 255)) [
  | inl first ↦
      let full : t.tod.days ≡ 255 = ground arith in rw first ((0, omega arith, rw full refl), all)
  | inr other ↦ rw other ((0, omega arith, refl), tt)
]

parse_loop_lem :
    (fuel : ℕ) (cs : List ℕ) (t : TimeOfDay)
    → length cs ≤ fuel
    → AllHaveDay (ranges t)
    → (t' : TimeOfDay) × (parse_loop fuel cs t ≡ some t') × AllHaveDay (ranges t')
unfolding parse_loop
parse_loop_lem zero [] t h all = (t, refl, all)
parse_loop_lem (suc fuel) [] t h all = (t, refl, all)
parse_loop_lem zero (c ∷ cs) t h all = absurd (omega arith)
parse_loop_lem (suc fuel) (c ∷ cs) t h all =
    let (day, shorter) = parse_range_lem c cs in
    parse_loop_lem fuel (parse_range (c ∷ cs)).1 (add (parse_range (c ∷ cs)).0 t) (omega arith)
      (add-AllHaveDay (parse_range (c ∷ cs)).0 t all day)

next_time_total :
    (td : Tod) (wday hm : ℕ) → wday < 7 → HasDay td.days → (n : ℕ) × (next_time td wday hm ≡ some n)
unfolding next_time next_time_from after_range
next_time_total td wday hm hw (j, hj, sj) =
    let (d, found, near, set, before) = first_day_lem td.days wday j hw hj sj in
    let (e, later, le, within, at, unset) = next_day_lem td.days (d + 1) wday j hj sj in
    rw found (some_time d e later)
  where
    some_time :
        (d e : ℕ)
        → next_day td.days (d + 1) wday ≡ some e
        → (n : ℕ) × (next_time_from td wday hm d ≡ some n)
    some_time d e later = elim (Option-cases (next_time_from td wday hm d)) [
      | inl stuck ↦ absurd (ground arith)
      | inr found ↦ found
    ]

best_time_total :
    (rs : List Tod) (wday hm best : ℕ)
    → wday < 7
    → AllHaveDay rs
    → (b : ℕ) × (best_time rs wday hm best ≡ some b)
unfolding best_time
best_time_total [] wday hm best hw all = (best, refl)
best_time_total (td ∷ rs) wday hm best hw all =
    let (n, e) = next_time_total td wday hm hw all.0 in
    rw e (best_time_total rs wday hm (if ltb n best then n else best) hw all.1)

-- For every text and week day: parse ends, and on the ranges that it leaves nextTimeOfDay ends too,
-- so that no restriction that a client can give stops the server.
pub parse-next_time_of_day :
    (cs : List ℕ) (t : TimeOfDay) (wday hm now : ℕ)
    → wday < 7
    → AllHaveDay t.next
    → (t' : TimeOfDay) × (r : ℕ) × (parse cs t ≡ some t')
      × AllHaveDay (ranges t')
      × (next_time_of_day (ranges t') wday hm now ≡ some r)
unfolding parse next_time_of_day
parse-next_time_of_day cs t wday hm now hw all =
    let (t', e, days) =
      parse_loop_lem (length cs) cs (reset t) (omega arith) (reset-AllHaveDay t all) in
    let (b, eb) = best_time_total (ranges t') wday hm (7 * 24 * 60 + 1) hw days in
    (t', now + 60 * b, e, days, rw eb)
