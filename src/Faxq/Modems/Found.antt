-- ===== src/Faxq/Modems/Found.antt =====
-- What findModem finds, and what it leaves of the list (faxd/Modem.c++).
use hylafaxplus.Prelude.{
  ℕ, ◌+◌, ◌≤◌, Bool, true, false, none, some, List, [], ◌∷◌, ltb, ◌==◌, if◌then◌else◌, ◌≡◌, refl,
  sym, ap, ◌∙◌, arith, Bool-cases, Option-cases, ◌⊎◌, inl, inr,
}
use mathlib.Core.Path.{subst}
use mathlib.Core.Option.{some-injective}
use hylafaxplus.Faxq.Modems.{
  Modem, Wanted, first_modem, take_out, put_back, in_class, find_in_class, find_by, find_modem,
}

-- How many modems pass a test.
abbrev pub tally : (Modem → Bool) → List Modem → ℕ
tally p [] = 0
tally p (m ∷ ms) = (if p m then 1 else 0) + tally p ms

-- The priorities ascend.
abbrev pub AllFrom : ℕ → List Modem → Type 0
AllFrom k [] = Unit {0}
AllFrom k (m ∷ ms) = (k ≤ m.priority) × AllFrom k ms

abbrev pub IsAscending : List Modem → Type 0
IsAscending [] = Unit {0}
IsAscending (m ∷ ms) = AllFrom m.priority ms × IsAscending ms

-- No two modems have the same name.
abbrev pub named : ℕ → Modem → Bool
named d m = d == m.dev_id

abbrev pub AllNamed : List Modem → Type 0
AllNamed ms = (d : ℕ) → tally (named d) ms ≤ 1

pub tally-put_back :
    (p : Modem → Bool) (m : Modem) (ms : List Modem)
    → tally p (put_back m ms) ≡ (if p m then 1 else 0) + tally p ms
unfolding put_back
tally-put_back p m [] = refl
tally-put_back p m (x ∷ xs) = ground (arith, tally-put_back p m xs)

AllFrom-put_back :
    (k : ℕ) (m : Modem) (ms : List Modem)
    → k ≤ m.priority
    → AllFrom k ms
    → AllFrom k (put_back m ms)
unfolding put_back
AllFrom-put_back k m [] h all = (h, tt)
AllFrom-put_back k m (x ∷ xs) h all = elim (Bool-cases (ltb m.priority x.priority)) [
  | inl here ↦ rw here (h, all)
  | inr on ↦ rw on (all.0, AllFrom-put_back k m xs h all.1)
]

AllFrom-le : (j k : ℕ) (ms : List Modem) → j ≤ k → AllFrom k ms → AllFrom j ms
AllFrom-le j k [] h all = tt
AllFrom-le j k (m ∷ ms) h all = (omega (arith, all.0), AllFrom-le j k ms h all.1)

put_back-IsAscending : (m : Modem) (ms : List Modem) → IsAscending ms → IsAscending (put_back m ms)
unfolding put_back
put_back-IsAscending m [] up = (tt, tt)
put_back-IsAscending m (x ∷ xs) up = elim (Bool-cases (ltb m.priority x.priority)) [
  | inl here ↦
      let le : m.priority ≤ x.priority = ground (arith, here) in
      rw here ((le, AllFrom-le m.priority x.priority xs le up.0), up)
  | inr on ↦
      rw on
        (AllFrom-put_back x.priority m xs (ground (arith, on)) up.0, put_back-IsAscending m xs up.1)
]

AllFrom-take_out : (k d : ℕ) (ms : List Modem) → AllFrom k ms → AllFrom k (take_out d ms)
unfolding take_out
AllFrom-take_out k d [] all = tt
AllFrom-take_out k d (m ∷ ms) all = elim (Bool-cases (d == m.dev_id)) [
  | inl here ↦ rw here all.1
  | inr on ↦ rw on (all.0, AllFrom-take_out k d ms all.1)
]

take_out-IsAscending : (d : ℕ) (ms : List Modem) → IsAscending ms → IsAscending (take_out d ms)
unfolding take_out
take_out-IsAscending d [] up = tt
take_out-IsAscending d (m ∷ ms) up = elim (Bool-cases (d == m.dev_id)) [
  | inl here ↦ rw here up.1
  | inr on ↦ rw on (AllFrom-take_out m.priority d ms up.0, take_out-IsAscending d ms up.1)
]

-- A modem that is found passes the test; if none is, none does.
first_modem-none : (p : Modem → Bool) (ms : List Modem) → first_modem p ms ≡ none → tally p ms ≡ 0
unfolding first_modem
first_modem-none p [] h = refl
first_modem-none p (m ∷ ms) h = ground (arith, first_modem-none p ms)

pub first_modem-passes :
    (p : Modem → Bool) (ms : List Modem) (m : Modem) → first_modem p ms ≡ some m → p m ≡ true
unfolding first_modem
first_modem-passes p [] m h = cc
first_modem-passes p (x ∷ xs) m h = elim (Bool-cases (p x)) [
  | inl on ↦ subst (λ y. p y ≡ true) (some-injective x m (rw on at h)) on
  | inr off ↦ first_modem-passes p xs m (rw off at h)
]

pub first_modem-counted :
    (p q : Modem → Bool) (ms : List Modem) (m : Modem)
    → first_modem p ms ≡ some m
    → q m ≡ true
    → 1 ≤ tally q ms
unfolding first_modem
first_modem-counted p q [] m h k = cc
first_modem-counted p q (x ∷ xs) m h k = elim (Bool-cases (p x)) [
  | inl on ↦
      let same : q x ≡ true = subst (λ y. q y ≡ true) (sym (some-injective x m (rw on at h))) k in
      ground (arith, same)
  | inr off ↦ ground (arith, first_modem-counted p q xs m (rw off at h) k)
]

-- Taking out the modem that was found, by its name, takes out that one.
pub tally-take_out :
    (p q : Modem → Bool) (ms : List Modem) (m : Modem)
    → AllNamed ms
    → first_modem p ms ≡ some m
    → tally q ms ≡ (if q m then 1 else 0) + tally q (take_out m.dev_id ms)
unfolding first_modem take_out
tally-take_out p q [] m once h = cc
tally-take_out p q (x ∷ xs) m once h = elim (Bool-cases (p x)) [
  | inl on ↦
      subst (λ y. tally q (x ∷ xs) ≡ (if q y then 1 else 0) + tally q (take_out y.dev_id (x ∷ xs)))
        (some-injective x m (rw on at h)) (ground arith)
  | inr off ↦
      let h' : first_modem p xs ≡ some m = rw off at h in
      let inside = first_modem-counted p (named m.dev_id) xs m h' (ground arith) in
      let apart : (m.dev_id == x.dev_id) ≡ false = ground (arith, inside, once m.dev_id) in
      let rest = tally-take_out p q xs m (λ d. ground (arith, once d)) h' in
      rw apart (ground (arith, rest))
]

-- For modems of different names in the order of their priorities, and a job for a class of modems:
-- a modem that findModem gives is of the class, capable and ready, and the list afterwards holds the
-- same modems, still in the order of the priorities; if it gives none, no modem of the class is
-- capable and ready, and the list is unchanged.
pub find_modem-class :
    (ignorebusy : Bool) (w : Wanted) (c : ℕ → Bool) (ms : List Modem)
    → w.group ≡ some c
    → AllNamed ms
    → IsAscending ms
    → ((m : Modem) × (ms' : List Modem) × (find_modem ignorebusy w ms ≡ (some m, ms'))
        × (in_class w c m ≡ true)
        × ((q : Modem → Bool) → tally q ms' ≡ tally q ms)
        × IsAscending ms')
      ⊎ ((find_modem ignorebusy w ms ≡ (none, ms)) × (tally (in_class w c) ms ≡ 0))
unfolding find_modem find_by find_in_class
find_modem-class ignorebusy w c ms g once up = elim (Option-cases (first_modem (in_class w c) ms)) [
  | inl no_modem ↦ inr (
    ap (λ k. find_by ignorebusy w k ms) g ∙ ap (λ o. find_in_class o ms) no_modem,
    first_modem-none (in_class w c) ms no_modem,
  )
  | inr (m, found) ↦ inl (
    m,
    put_back m (take_out m.dev_id ms),
    ap (λ k. find_by ignorebusy w k ms) g ∙ ap (λ o. find_in_class o ms) found,
    first_modem-passes (in_class w c) ms m found,
    (λ q.
        tally-put_back q m (take_out m.dev_id ms)
        ∙ sym (tally-take_out (in_class w c) q ms m once found)),
    put_back-IsAscending m (take_out m.dev_id ms) (take_out-IsAscending m.dev_id ms up),
  )
]
