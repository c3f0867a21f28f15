-- ===== src/Triggers/Parsed.antt =====
-- The specifications of triggers that Trigger::parse reads (faxd/Trigger.c++).
use mathlib.Core.Path.{subst}
use hylafaxplus.Prelude.{
  put, ℕ, zero, suc, ◌+◌, ◌/◌, ◌≤◌, ◌<◌, true, false, not, Option, none, some, List, [], ◌∷◌, ◌++◌,
  length, length-append, count, leb, ◌==◌, if◌then◌else◌, ◌≡◌, ◌≢◌, refl, ap, ◌∙◌, arith,
  Bool-cases, Option-cases, inl, inr, ◌▷◌,
}
use hylafaxplus.Triggers.{
  Triggers, set_refs, set_interest, new_ref, hook_modem, hook_job, hook_ref, after_mask, after_name,
  parse_item, and_on, parse_spec, parse_trigger, class_of, read_name,
}
use hylafaxplus.Triggers.Written.{
  Interest, IsName, letter, hex_char, print_mask, print_name, print_interests, read_mask-print,
  read_name-print, hex_char_other,
}

print-named :
    (name : List ℕ) (m : ℕ) (rest : List ℕ)
    → IsName name
    → read_name (print_name name ++ (print_mask m ++ rest)) ≡ some (name, print_mask m ++ rest)
unfolding print_mask
print-named name m rest ok =
    read_name-print name _ (hex_char (m / 4096)) ok (hex_char_other (m / 4096))

class_of-letter : (k : ℕ) → k < 4 → class_of (letter k) ≡ some k
unfolding class_of letter
class_of-letter zero h = refl
class_of-letter (suc zero) h = refl
class_of-letter (suc (suc zero)) h = refl
class_of-letter (suc (suc (suc zero))) h = refl
class_of-letter (suc (suc (suc (suc k)))) h = absurd (omega (arith, h))

module _ (job_number : List ℕ → Option ℕ) (modem_number : List ℕ → ℕ) where
  -- A job that an interest names is known.
  abbrev pub IsKnown : Interest → Type 0
  IsKnown i = i.class < 2 → length i.name ≢ 0 → job_number i.name ≢ none

  -- The reference is hung up, and the trigger has the mask.
  hook_ref-known :
      (k t m : ℕ) (name : List ℕ) (s : Triggers)
      → (k < 2 → length name ≢ 0 → job_number name ≢ none)
      → (r : Triggers) × (hook_ref job_number modem_number k t name s ≡ (true, r))
        × (r.trigger ≡ s.trigger)
  unfolding hook_ref hook_job hook_modem
  hook_ref-known k t m [] s known = (_, refl, refl)
  hook_ref-known k t m (c ∷ cs) s known = elim (Bool-cases (leb 2 k)) [
    | inl modem ↦
        (hook_modem job_number modem_number (modem_number (c ∷ cs)) t s, rw modem refl, refl)
    | inr job ↦ elim (Option-cases (job_number (c ∷ cs))) [
      | inl unknown ↦ absurd (known (ground (arith, job)) (omega arith) unknown)
      | inr (j, found) ↦ (
        record s { job_triggers = put j (s.job_triggers j ++ t ∷ []) s.job_triggers },
        rw (job, found) refl,
        refl,
      )
    ]
  ]

  -- The trigger has the mask for its class.
  masked :
      (k t m : ℕ) (s : Triggers) (j : ℕ)
      → ((s ▷ set_interest t k m ▷ new_ref t).trigger t).interests j
        ≡ (if j == k then m else (s.trigger t).interests j)
  unfolding set_interest new_ref set_refs put
  masked k t m s j = let same : (t == t) ≡ true = ground arith in rw same refl

  item-parsed :
      (i : Interest) (t : ℕ) (rest : List ℕ) (s : Triggers)
      → i.class < 4
      → IsName i.name
      → i.mask < 65536
      → IsKnown i
      → (s.trigger t).interests i.class ≡ 0
      → (r : Triggers) × (parse_item job_number modem_number
            (letter i.class)
            t
            (print_name i.name ++ (print_mask i.mask ++ rest))
            s
          ≡ (some rest, r))
        × ((k : ℕ)
            → (r.trigger t).interests k
              ≡ (if k == i.class then i.mask else (s.trigger t).interests k))
  unfolding parse_item after_name after_mask
  item-parsed i t rest s class name mask known clear =
      let s' = s ▷ set_interest t i.class i.mask ▷ new_ref t in
      let (r, hung, kept) = hook_ref-known i.class t i.mask i.name s' known in
      let off : not ((s.trigger t).interests i.class == 0) ≡ false = ground (arith, clear) in
      let named = print-named i.name i.mask rest name in
      (
        r,
        rw (class_of-letter i.class class, named, off, read_mask-print i.mask rest mask, hung) refl,
        λ k. ap (λ f. (f t).interests k) kept ∙ masked i.class t i.mask s k,
      )

-- The classes of the interests, and the mask that they give a class.
abbrev pub classes : List Interest → List ℕ
classes [] = []
classes (i ∷ is) = i.class ∷ classes is

abbrev pub mask_of : ℕ → List Interest → ℕ
mask_of k [] = 0
mask_of k (i ∷ is) = if k == i.class then i.mask else mask_of k is

class_at : (k : ℕ) (i : Interest) → (k == i.class) ≡ true → i.class ≡ k
class_at k i h = ground (arith, h)

mask_of-none : (k : ℕ) (is : List Interest) → count k (classes is) ≡ 0 → mask_of k is ≡ 0
mask_of-none k [] h = refl
mask_of-none k (i ∷ is) h = ground (arith, h, mask_of-none k is (ground (arith, h)))

module _ (job_number : List ℕ → Option ℕ) (modem_number : List ℕ → ℕ) where
  -- Interests in different classes, in a form that can be written.
  abbrev pub Writable : List Interest → Type 0
  Writable [] = Unit
  Writable (i ∷ is) =
      (i.class < 4)
      × IsName i.name
      × (i.mask < 65536)
      × IsKnown job_number modem_number i
      × (count i.class (classes is) ≡ 0)
      × Writable is

  loop-parsed :
      (fuel t : ℕ) (is : List Interest) (s : Triggers)
      → length is ≤ fuel
      → Writable is
      → ((k : ℕ) → count k (classes is) ≢ 0 → (s.trigger t).interests k ≡ 0)
      → (r : Triggers) × (parse_spec job_number modem_number fuel t (print_interests is) s
          ≡ (true, r))
        × ((k : ℕ) → (r.trigger t).interests k ≡ (s.trigger t).interests k + mask_of k is)
  unfolding parse_spec print_interests and_on
  loop-parsed fuel t [] s enough ok clear = (s, refl, λ k. omega arith)
  loop-parsed zero t (i ∷ is) s enough ok clear = absurd (omega (arith, enough))
  loop-parsed (suc fuel) t (i ∷ is) s enough (class, name, mask, known, apart, ok) clear =
      let old : (s.trigger t).interests i.class ≡ 0 = clear i.class (ground arith) in
      let (r, one, has) =
        item-parsed job_number modem_number i t (print_interests is) s class name mask known old in
      let (u, rest, more) = loop-parsed fuel t is r (omega (arith, enough)) ok (λ k among.
        elim (Bool-cases (k == i.class)) [
          | inl own ↦
              absurd (among (subst (λ j. count j (classes is) ≡ 0) (class_at k i own) apart))
          | inr other ↦ has k ∙ rw other (clear k (ground (arith, among, other)))
        ]) in
      (
        u,
        rw one rest,
        λ k. elim (Bool-cases (k == i.class)) [
          | inl own ↦
              let at = class_at k i own in
              let none_more = mask_of-none k is (subst (λ j. count j (classes is) ≡ 0) at apart) in
              let before = subst (λ j. (s.trigger t).interests j ≡ 0) at old in
              let now : (r.trigger t).interests k ≡ i.mask = has k ∙ rw own refl in
              rw own (omega (arith, more k, none_more, before, now))
          | inr other ↦
              let now : (r.trigger t).interests k ≡ (s.trigger t).interests k =
                has k ∙ rw other refl in
              rw other (omega (arith, more k, now))
        ],
      )

  print_interests-length : (is : List Interest) → length is ≤ length (print_interests is)
  unfolding print_interests
  print_interests-length [] = omega arith
  print_interests-length (i ∷ is) =
      let one = length-append {0} (print_name i.name) (print_mask i.mask ++ print_interests is) in
      let two = length-append {0} (print_mask i.mask) (print_interests is) in
      omega (arith, one, two, print_interests-length is)

  -- For interests in different classes, with names that have no '>' and jobs that are known, and
  -- masks of 16 bits, and a trigger with no interests in these classes yet: parse accepts what they
  -- are written as, and then the trigger's mask of each class is the one it had, if no interest is of
  -- this class, and else the interest's.
  pub parse_trigger-print :
      (t : ℕ) (is : List Interest) (s : Triggers)
      → Writable is
      → ((k : ℕ) → count k (classes is) ≢ 0 → (s.trigger t).interests k ≡ 0)
      → (r : Triggers) × (parse_trigger job_number modem_number t (print_interests is) s
          ≡ (true, r))
        × ((k : ℕ) → (r.trigger t).interests k ≡ (s.trigger t).interests k + mask_of k is)
  parse_trigger-print t is s ok clear =
      loop-parsed (length (print_interests is)) t is s (print_interests-length is) ok clear
