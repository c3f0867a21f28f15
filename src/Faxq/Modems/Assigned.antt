-- ===== src/Faxq/Modems/Assigned.antt =====
-- Whether assignModem ends, and what it assigns (faxd/faxQueueApp.c++).
use hylafaxplus.Prelude.{
  ℕ, zero, suc, ◌+◌, ◌≤◌, ◌<◌, Bool, true, false, ◌&&◌, ◌||◌, Option, none, some, List, [], ◌∷◌,
  ◌≡◌, refl, sym, ◌∙◌, arith, Bool-cases, inl, inr,
}
use hylafaxplus.Faxq.Modems.{
  Modem, Wanted, is_ready, is_busy, is_exempt, first_modem, is_capable, take_out, in_class,
  is_usable, find_in_class, find_named, find_by, find_modem, mark_busy, Assignment, assigned,
  is_exempted, none_found, out_of_fuel, try_modem, assign_modem,
}
use hylafaxplus.Faxq.Modems.Found.{
  tally, named, AllNamed, tally-put_back, tally-take_out, first_modem-passes, first_modem-counted,
}

abbrev pub free : Modem → Bool
free m = is_ready m.state

-- A modem that findModem may give.
abbrev pub offered : Bool → Modem → Bool
offered ignorebusy m = is_ready m.state || is_exempt m.state || ignorebusy && is_busy m.state

abbrev pub SameNames : List Modem → List Modem → Type 0
SameNames ms ms' = (d : ℕ) → tally (named d) ms' ≡ tally (named d) ms

-- The modem that is found passes what findModem asks of it and is of the list, which keeps its modems.
abbrev Offer : Bool → Wanted → List Modem → Option Modem × List Modem → Type 0
Offer ignorebusy w ms (none, ms') = SameNames ms ms'
Offer ignorebusy w ms (some m, ms') =
    ((q : Modem → Bool) → tally q ms' ≡ tally q ms)
    × (offered ignorebusy m ≡ true)
    × (is_capable w m ≡ true)
    × ((q : Modem → Bool) → q m ≡ true → 1 ≤ tally q ms)

class-Offer :
    (ignorebusy : Bool) (w : Wanted) (c : ℕ → Bool) (ms : List Modem)
    → AllNamed ms
    → (o : Option Modem) → first_modem (in_class w c) ms ≡ o
    → Offer ignorebusy w ms (find_in_class o ms)
unfolding find_in_class in_class
class-Offer ignorebusy w c ms once none e = λ d. refl
class-Offer ignorebusy w c ms once (some m) e =
    let passes = first_modem-passes (in_class w c) ms m e in
    (
      (λ q.
          tally-put_back q m (take_out m.dev_id ms)
          ∙ sym (tally-take_out (in_class w c) q ms m once e)),
      ground (arith, passes),
      ground (arith, passes),
      λ q h. first_modem-counted (in_class w c) q ms m e h,
    )

named-Offer :
    (ignorebusy : Bool) (w : Wanted) (ms : List Modem) (o : Option Modem)
    → first_modem (is_usable ignorebusy w) ms ≡ o
    → Offer ignorebusy w ms (find_named w o ms)
unfolding find_named is_usable
named-Offer ignorebusy w ms none e = λ d. refl
named-Offer ignorebusy w ms (some m) e = elim (Bool-cases (is_capable w m)) [
  | inl able ↦
      let passes = first_modem-passes (is_usable ignorebusy w) ms m e in
      rw able (
        (λ q. refl),
        ground (arith, passes),
        able,
        λ q h. first_modem-counted (is_usable ignorebusy w) q ms m e h,
      )
  | inr unable ↦ rw unable (λ d. refl)
]

find_by-Offer :
    (ignorebusy : Bool) (w : Wanted) (g : Option (ℕ → Bool)) (ms : List Modem)
    → AllNamed ms
    → Offer ignorebusy w ms (find_by ignorebusy w g ms)
unfolding find_by
find_by-Offer ignorebusy w none ms once = named-Offer ignorebusy w ms _ refl
find_by-Offer ignorebusy w (some c) ms once = class-Offer ignorebusy w c ms once _ refl

-- Marking a modem busy takes it from those that are ready, and no other.
free-mark_busy :
    (d : ℕ) (ms : List Modem)
    → tally free (mark_busy d ms) + tally (λ m. named d m && free m) ms ≡ tally free ms
unfolding mark_busy
free-mark_busy d [] = refl
free-mark_busy d (m ∷ ms) = ground (arith, free-mark_busy d ms)

mark_busy-SameNames : (d : ℕ) (ms : List Modem) → SameNames ms (mark_busy d ms)
unfolding mark_busy
mark_busy-SameNames d [] k = refl
mark_busy-SameNames d (m ∷ ms) k = ground (arith, mark_busy-SameNames d ms k)

-- What assignModem may come to. A run that ends by its fuel is none of it.
abbrev pub Settled : Bool → Wanted → (ℕ → Bool) → List Modem → Assignment → Type 0
Settled ignorebusy w lock ms (assigned m ms') =
    ((is_ready m.state || ignorebusy && is_busy m.state) ≡ true)
    × (is_capable w m ≡ true)
    × ((is_busy m.state && ignorebusy || lock m.dev_id) ≡ true)
    × SameNames ms ms'
Settled ignorebusy w lock ms (is_exempted ms') = SameNames ms ms'
Settled ignorebusy w lock ms (none_found ms') = SameNames ms ms'
Settled ignorebusy w lock ms (out_of_fuel ms') = true ≡ false

Settled-SameNames :
    (ignorebusy : Bool) (w : Wanted) (lock : ℕ → Bool) (ms ns : List Modem) (a : Assignment)
    → SameNames ms ns
    → Settled ignorebusy w lock ns a
    → Settled ignorebusy w lock ms a
Settled-SameNames ignorebusy w lock ms ns (assigned m ms') h s = (s.0, s.1, s.2, λ d. s.3 d ∙ h d)
Settled-SameNames ignorebusy w lock ms ns (is_exempted ms') h s = λ d. s d ∙ h d
Settled-SameNames ignorebusy w lock ms ns (none_found ms') h s = λ d. s d ∙ h d
Settled-SameNames ignorebusy w lock ms ns (out_of_fuel ms') h s = s

module _ (ignorebusy : Bool) (w : Wanted) (lock : ℕ → Bool) where
  try_modem-Settled :
      (again : List Modem → Assignment) (ms : List Modem) (r : Option Modem × List Modem)
      → AllNamed ms
      → Offer ignorebusy w ms r
      → ((ns : List Modem)
          → AllNamed ns
          → tally free ns < tally free ms
          → Settled ignorebusy w lock ns (again ns))
      → Settled ignorebusy w lock ms (try_modem again ignorebusy lock r)
  unfolding try_modem
  try_modem-Settled again ms (none, ms') once offer rest = offer
  try_modem-Settled again ms (some m, ms') once offer rest = elim (Bool-cases (is_exempt m.state)) [
    | inl spared ↦ rw spared (λ d. offer.0 (named d))
    | inr usual ↦ elim (Bool-cases (is_busy m.state && ignorebusy || lock m.dev_id)) [
      | inl got ↦
          rw (usual, got)
            (
              ground (arith, offer.1, usual),
              offer.2,
              got,
              λ d. mark_busy-SameNames m.dev_id ms' d ∙ offer.0 (named d),
            )
      | inr locked ↦
          let names : SameNames ms (mark_busy m.dev_id ms') =
            λ d. mark_busy-SameNames m.dev_id ms' d ∙ offer.0 (named d) in
          let was_free : free m ≡ true = ground (arith, offer.1, usual, locked) in
          let here = offer.3 (λ x. named m.dev_id x && free x) (ground (arith, was_free)) in
          let fewer : tally free (mark_busy m.dev_id ms') < tally free ms = omega (
            arith,
            free-mark_busy m.dev_id ms',
            offer.0 free,
            offer.0 (λ x. named m.dev_id x && free x),
            here,
          ) in
          rw (usual, locked)
            (Settled-SameNames ignorebusy w lock ms _ _ names
              (rest _ (λ d. omega (arith, names d, once d)) fewer))
    ]
  ]

  -- For modems of different names and fuel beyond the number of those that are ready: assignModem
  -- ends; no modem leaves the list; and a modem that it assigns was ready, or
  -- busy where that is to be ignored, is capable of the job, and its lock was got or not needed.
  pub assign_modem-Settled :
      (fuel : ℕ) (ms : List Modem)
      → AllNamed ms
      → tally free ms < fuel
      → Settled ignorebusy w lock ms (assign_modem fuel ignorebusy w lock ms)
  unfolding assign_modem find_modem
  assign_modem-Settled zero ms once enough = absurd (omega arith)
  assign_modem-Settled (suc fuel) ms once enough =
      try_modem-Settled (assign_modem fuel ignorebusy w lock) ms _ once
        (find_by-Offer ignorebusy w w.group ms once)
        (λ ns all fewer. assign_modem-Settled fuel ns all (omega arith))
