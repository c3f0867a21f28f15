-- ===== src/Dictionary/Visited.antt =====
-- What an iteration over a table visits (fxDictIter of util/Dictionary.c++).
use native.Mathlib.Nat.{mod-lt}
use hylafaxplus.Prelude.{
  ℕ, zero, suc, ◌+◌, ◌-◌, ◌≤◌, ◌<◌, true, Option, none, some, List, [], ◌∷◌, ◌++◌, length, ltb, leb,
  ◌&&◌, ◌==◌, if◌then◌else◌, case_option, count, ◌≡◌, ◌≢◌, refl, sym, ap, ◌∙◌, arith, Bool-cases,
  Option-cases, inl, inr,
}
use hylafaxplus.Dictionary.{
  Dictionary, find, find_chain, index, advance_bucket, settle, stand, iter_start, visit,
}
use hylafaxplus.Dictionary.Refines.{keys, find-none, absent-find, Map, Refines}

keys-append :
    {V : Type 0} (k : ℕ) (c e : List (ℕ × V))
    → count k (keys (c ++ e)) ≡ count k (keys c) + count k (keys e)
keys-append k [] e = omega arith
keys-append k (x ∷ xs) e = omega (arith, keys-append k xs e)

module _ {V : Type 0} (d : Dictionary V) where
  -- The n chains from bucket b on.
  unfoldable pub chains : ℕ → ℕ → List (ℕ × V)
  chains b zero = []
  chains b (suc n) = d.buckets b ++ chains (suc b) n

  -- What is left from where an iterator stands.
  rest_of : Option (ℕ × List (ℕ × V)) → List (ℕ × V)
  rest_of none = []
  rest_of (some (b, c)) = c ++ chains (suc b) (d.buckets_length - suc b)

  Inside : Option (ℕ × List (ℕ × V)) → Type 0
  Inside none = Unit
  Inside (some (b, c)) = (b < d.buckets_length) × (1 ≤ length c)

  chains_step :
      (b : ℕ)
      → b < d.buckets_length
      → chains b (d.buckets_length - b) ≡ d.buckets b ++ chains (suc b) (d.buckets_length - suc b)
  unfolding chains
  chains_step b less =
      let one_more : d.buckets_length - b ≡ suc (d.buckets_length - suc b) = omega (arith, less) in
      ap (chains b) one_more

  stand-rest :
      (b : ℕ) (c : List (ℕ × V)) (next : Option (ℕ × List (ℕ × V)))
      → b < d.buckets_length
      → (rest_of next ≡ chains (suc b) (d.buckets_length - suc b)) × Inside next
      → (rest_of (stand b c next) ≡ c ++ chains (suc b) (d.buckets_length - suc b))
        × Inside (stand b c next)
  unfolding stand rest_of Inside
  stand-rest b [] next less h = h
  stand-rest b (e ∷ es) next less h = (refl, (less, omega arith))

  -- At the last bucket.
  end_rest :
      (b : ℕ)
      → 0 ≡ d.buckets_length - b
      → (rest_of none ≡ chains b (d.buckets_length - b)) × Inside none
  unfolding rest_of Inside chains
  end_rest b h = (ap (chains b) h, record {})

  advance_bucket-rest :
      (fuel bucket : ℕ)
      → bucket < d.buckets_length
      → d.buckets_length ≤ fuel + bucket
      → (rest_of (advance_bucket fuel bucket d)
          ≡ chains (suc bucket) (d.buckets_length - suc bucket))
        × Inside (advance_bucket fuel bucket d)
  unfolding advance_bucket chains
  advance_bucket-rest zero bucket less enough = absurd (omega (arith, less, enough))
  advance_bucket-rest (suc fuel) bucket less enough =
      elim (Bool-cases (suc bucket == d.buckets_length)) [
        | inl over ↦
            let none_left : 0 ≡ d.buckets_length - suc bucket = ground (arith, over) in
            rw over (end_rest (suc bucket) none_left)
        | inr on ↦
            let inside : suc bucket < d.buckets_length = ground (arith, on, less) in
            let next =
              stand-rest (suc bucket) (d.buckets (suc bucket)) _ inside
                (advance_bucket-rest fuel (suc bucket) inside (omega (arith, enough))) in
            rw on (next.0 ∙ sym (chains_step (suc bucket) inside), next.1)
      ]

  settle-rest :
      (b : ℕ) (c : List (ℕ × V))
      → b < d.buckets_length
      → (rest_of (settle b c d) ≡ c ++ chains (suc b) (d.buckets_length - suc b))
        × Inside (settle b c d)
  unfolding settle
  settle-rest b c less =
      stand-rest b c _ less (advance_bucket-rest d.buckets_length b less (omega arith))

  visit-rest :
      (fuel : ℕ) (at : Option (ℕ × List (ℕ × V)))
      → Inside at
      → length (rest_of at) ≤ fuel
      → visit fuel at d ≡ rest_of at
  unfolding visit rest_of Inside
  visit-rest fuel none inside enough = refl
  visit-rest fuel (some (b, [])) inside enough = absurd (omega (arith, inside.1))
  visit-rest zero (some (b, e ∷ es)) inside enough = absurd (omega (arith, enough))
  visit-rest (suc fuel) (some (b, e ∷ es)) inside enough =
      let next = settle-rest b es inside.0 in
      ap (λ l. e ∷ l)
        (visit-rest fuel (settle b es d) next.1 (omega (arith, enough, ap length next.0)) ∙ next.0)

  -- With a key in a bucket other than its own there is none in the chains that leave this one out.
  count-chains :
      (k b n i : ℕ)
      → ((j : ℕ) → j ≢ i → count k (keys (d.buckets j)) ≡ 0)
      → count k (keys (chains b n))
        ≡ (if leb b i && ltb i (b + n) then count k (keys (d.buckets i)) else 0)
  unfolding chains
  count-chains k b zero i h = ground arith
  count-chains k b (suc n) i h =
      let ih = count-chains k (suc b) n i h in
      elim (Bool-cases (b == i)) [
        | inl here ↦
            let at : b ≡ i = ground (arith, here) in
            let same = ap (λ j. count k (keys (d.buckets j))) at in
            ground (arith, keys-append k (d.buckets b) (chains (suc b) n), same, ih, here)
        | inr there ↦
            let other = h b (λ e. ground (arith, there, e)) in
            ground (arith, keys-append k (d.buckets b) (chains (suc b) n), other, ih, there)
      ]

elsewhere :
    {V : Type 0} (hash_key : ℕ → ℕ) (d : Dictionary V) (m : Map V)
    → Refines hash_key d m
    → (k j : ℕ) → j ≢ index hash_key k d
    → count k (keys (d.buckets j)) ≡ 0
elsewhere hash_key d m r k j apart = elim (Bool-cases (count k (keys (d.buckets j)) == 0)) [
  | inl zero_k ↦ ground (arith, zero_k)
  | inr some_k ↦ absurd (apart (sym (r.placed j k (λ e. ground (arith, some_k, e)))))
]

own_bucket :
    {V : Type 0} (hash_key : ℕ → ℕ) (d : Dictionary V) (m : Map V)
    → Refines hash_key d m
    → (k : ℕ)
    → count k (keys (d.buckets (index hash_key k d))) ≡ case_option (m.lookup k) 0 (λ v. 1)
unfolding find
own_bucket hash_key d m r k =
    let c = d.buckets (index hash_key k d) in
    elim (Option-cases (find_chain k c)) [
      | inl absent ↦
          let new_key : m.lookup k ≡ none = sym (r.agree k) ∙ absent in
          rw new_key (find-none k c absent)
      | inr (v, present) ↦
          let old_key : m.lookup k ≡ some v = sym (r.agree k) ∙ present in
          let some_k : count k (keys c) ≢ 0 =
            λ e. none-some v (sym (absent-find k c e) ∙ present) in
          rw old_key (omega (arith, some_k, r.once (index hash_key k d) k))
    ]
  where
    none-some : {V : Type 0} (v : V) → ¬ (none ≡ some v)
    none-some v e = ground (arith, e)

-- For a table with at least one bucket that refines a finite map, and at least as many rounds as the
-- chains have items: an iteration from the start visits the items in the order of the chains, and each
-- key that the map has exactly once, and no other key.
pub visit-once :
    {V : Type 0} (hash_key : ℕ → ℕ) (d : Dictionary V) (m : Map V) (fuel : ℕ)
    → Refines hash_key d m
    → 1 ≤ d.buckets_length
    → length (chains d 0 d.buckets_length) ≤ fuel
    → (visit fuel (iter_start d) d ≡ chains d 0 d.buckets_length)
      × ((k : ℕ)
          → count k (keys (visit fuel (iter_start d) d)) ≡ case_option (m.lookup k) 0 (λ v. 1))
visit-once hash_key d m fuel r some_bucket enough =
    let start = settle-rest d 0 (d.buckets 0) some_bucket in
    let whole = start.0 ∙ sym (chains_step d 0 some_bucket) in
    let all : d.buckets_length - 0 ≡ d.buckets_length = omega arith in
    let rest = whole ∙ ap (chains d 0) all in
    let visited =
      visit-rest d fuel (iter_start d) start.1 (omega (arith, enough, ap length rest)) ∙ rest in
    (
      visited,
      λ k.
          let i = index hash_key k d in
          let low : i < d.buckets_length = mod-lt (hash_key k) some_bucket in
          let in_range : (leb 0 i && ltb i (0 + d.buckets_length)) ≡ true = ground (arith, low) in
          ap (λ l. count k (keys l)) visited
          ∙ count-chains d k 0 d.buckets_length i (λ j apart. elsewhere hash_key d m r k j apart)
          ∙ rw in_range (own_bucket hash_key d m r k),
    )
