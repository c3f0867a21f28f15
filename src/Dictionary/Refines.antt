-- ===== src/Dictionary/Refines.antt =====
-- The hash table as a finite map (fxDictionary of util/Dictionary.c++).
use mathlib.Core.Path.{subst}
use hylafaxplus.Prelude.{
  ℕ, ◌-◌, ◌%◌, ◌≤◌, true, false, Option, none, some, List, [], ◌∷◌, ◌==◌, if◌then◌else◌,
  case_option, put, put-own, put-other, count, ◌≡◌, ◌≢◌, refl, sym, ap, ◌∙◌, arith, Bool-cases, ◌⊎◌,
  inl, inr,
}
use hylafaxplus.Dictionary.{
  Dictionary, find_chain, set_chain, unlink_chain, index, set_bucket, chain_of, find, item_added,
  item_removed,
}

module _ {V : Type 0} where
  abbrev pub keys : List (ℕ × V) → List ℕ
  keys [] = []
  keys (e ∷ es) = e.0 ∷ keys es

  pub find-none : (k : ℕ) (c : List (ℕ × V)) → find_chain k c ≡ none → count k (keys c) ≡ 0
  unfolding find_chain
  find-none k [] h = refl
  find-none k (e ∷ es) h = elim (Bool-cases (k == e.0)) [
    | inl here ↦ absurd (ground (arith, h, here))
    | inr there ↦ rw there (omega (arith, find-none k es (ground (arith, h, there))))
  ]

  pub absent-find : (k : ℕ) (c : List (ℕ × V)) → count k (keys c) ≡ 0 → find_chain k c ≡ none
  unfolding find_chain
  absent-find k [] h = refl
  absent-find k (e ∷ es) h = elim (Bool-cases (k == e.0)) [
    | inl here ↦ absurd (ground (arith, h, here))
    | inr there ↦ rw there (absent-find k es (ground (arith, h, there)))
  ]

  pub keys-set_chain : (k : ℕ) (v : V) (c : List (ℕ × V)) → keys (set_chain k v c) ≡ keys c
  unfolding set_chain
  keys-set_chain k v [] = refl
  keys-set_chain k v (e ∷ es) = elim (Bool-cases (k == e.0)) [
    | inl here ↦ rw here refl
    | inr there ↦ rw there (ap (λ l. e.0 ∷ l) (keys-set_chain k v es))
  ]

  pub find-set_chain :
      (k j : ℕ) (v old : V) (c : List (ℕ × V))
      → find_chain k c ≡ some old
      → find_chain j (set_chain k v c) ≡ (if j == k then some v else find_chain j c)
  unfolding find_chain set_chain
  find-set_chain k j v old [] h = absurd (ground (arith, h))
  find-set_chain k j v old (e ∷ es) h = elim (Bool-cases (k == e.0)) [
    | inl here ↦
        let same : (j == e.0) ≡ (j == k) = ground (arith, here) in
        rw (here, same)
          (elim (Bool-cases (j == k)) [ inl own ↦ rw own refl | inr other ↦ rw other refl ])
    | inr there ↦ rw there (elim (Bool-cases (j == e.0)) [
      | inl at ↦ let off : (j == k) ≡ false = ground (arith, at, there) in rw (at, off) refl
      | inr past ↦ rw past (find-set_chain k j v old es (sym (rw there refl) ∙ h))
    ])
  ]

  pub count-unlink_chain :
      (k j : ℕ) (c : List (ℕ × V))
      → count j (keys (unlink_chain k c))
        ≡ (if j == k then count j (keys c) - 1 else count j (keys c))
  unfolding unlink_chain
  count-unlink_chain k j [] = ground arith
  count-unlink_chain k j (e ∷ es) = elim (Bool-cases (k == e.0)) [
    | inl here ↦ rw here (ground (arith, here))
    | inr there ↦ rw there (ground (arith, there, count-unlink_chain k j es))
  ]

  pub find-unlink_chain :
      (k j : ℕ) (c : List (ℕ × V))
      → count k (keys c) ≤ 1
      → find_chain j (unlink_chain k c) ≡ (if j == k then none else find_chain j c)
  unfolding find_chain unlink_chain
  find-unlink_chain k j [] h = ground arith
  find-unlink_chain k j (e ∷ es) h = elim (Bool-cases (k == e.0)) [
    | inl here ↦
        let same : (j == e.0) ≡ (j == k) = ground (arith, here) in
        rw (here, same)
          (elim (Bool-cases (j == k)) [
            | inl own ↦
                let at : k ≡ j = ground (arith, own) in
                let once : count k (keys es) ≡ 0 = ground (arith, h, here) in
                rw own (absent-find j es (subst (λ k. count k (keys es) ≡ 0) at once))
            | inr other ↦ rw other refl
          ])
    | inr there ↦ rw there (elim (Bool-cases (j == e.0)) [
      | inl at ↦ let off : (j == k) ≡ false = ground (arith, at, there) in rw (at, off) refl
      | inr past ↦ rw past (find-unlink_chain k j es (ground (arith, h, there)))
    ])
  ]

same_bucket : (i b : ℕ) → i ≡ b → (i == b) ≡ true
same_bucket i b h = ground (arith, h)

-- A finite map, and how many keys it has, modulo 2 ^ 32.
pub record Map (V : Type 0) : Type 0 where
  pub lookup : ℕ → Option V
  pub size : ℕ

module _ {V : Type 0} where
  unfoldable pub map_add : ℕ → V → Map V → Map V
  map_add k v m = record {
    lookup = put k (some v) m.lookup;
    size = case_option (m.lookup k) (item_added m.size) (λ old. m.size);
  }

  unfoldable pub map_remove : ℕ → Map V → Map V
  map_remove k m = record {
    lookup = put k none m.lookup;
    size = case_option (m.lookup k) m.size (λ old. item_removed m.size);
  }

  module _ (hash_key : ℕ → ℕ) where
    -- The table finds what the map has; each key stands once, in the bucket of its hash.
    pub record Refines (d : Dictionary V) (m : Map V) : Type 0 where
      pub agree : (k : ℕ) → find hash_key k d ≡ m.lookup k
      pub size : d.num_items ≡ m.size
      pub once : (i k : ℕ) → count k (keys (d.buckets i)) ≤ 1
      pub placed : (i k : ℕ) → count k (keys (d.buckets i)) ≢ 0 → hash_key k % d.buckets_length ≡ i

    -- A chain that differs from the key's one at this key only.
    pub set_bucket-Refines :
        (k n : ℕ) (x : Option V) (c : List (ℕ × V)) (d : Dictionary V) (m : Map V)
        → Refines d m
        → ((j : ℕ) → find_chain j c ≡ (if j == k then x else find_chain j (chain_of hash_key k d)))
        → ((j : ℕ) → count j (keys c) ≤ 1)
        → ((j : ℕ) → count j (keys c) ≢ 0 → (j ≡ k) ⊎ (count j (keys (chain_of hash_key k d)) ≢ 0))
        → Refines (set_bucket hash_key k c n d) (record { lookup = put k x m.lookup; size = n })
    unfolding find set_bucket
    set_bucket-Refines k n x c d m r h one within =
        let b = index hash_key k d in
        record {
          agree = λ j.
              let i = index hash_key j d in
              elim (Bool-cases (j == k)) [
                | inl own ↦
                    let at : j ≡ k = ground (arith, own) in
                    let here = same_bucket i b (ap (λ j. index hash_key j d) at) in
                    ap (find_chain j) (put-own b i c d.buckets here)
                    ∙ (h j ∙ rw own refl)
                    ∙ sym (put-own k j x m.lookup own)
                | inr other ↦
                    elim (Bool-cases (i == b)) [
                      | inl here ↦
                          let at : b ≡ i = ground (arith, here) in
                          ap (find_chain j) (put-own b i c d.buckets here)
                          ∙ (h j ∙ rw other refl)
                          ∙ ap (λ i. find_chain j (d.buckets i)) at
                          ∙ r.agree j
                      | inr there ↦ ap (find_chain j) (put-other b i c d.buckets there) ∙ r.agree j
                    ]
                    ∙ sym (put-other k j x m.lookup other)
              ];
          size = refl;
          once = λ i j. elim (Bool-cases (i == b)) [
            | inl here ↦
                subst (λ l. count j (keys l) ≤ 1) (sym (put-own b i c d.buckets here)) (one j)
            | inr there ↦
                subst (λ l. count j (keys l) ≤ 1) (sym (put-other b i c d.buckets there))
                  (r.once i j)
          ];
          placed = λ i j among. elim (Bool-cases (i == b)) [
            | inl here ↦
                let at : b ≡ i = ground (arith, here) in
                elim (within j
                  (subst (λ l. count j (keys l) ≢ 0) (put-own b i c d.buckets here) among)) [
                    | inl own ↦ ap (λ j. index hash_key j d) own ∙ at
                    | inr old ↦ r.placed b j old ∙ at
                  ]
            | inr there ↦
                r.placed i j
                  (subst (λ l. count j (keys l) ≢ 0) (put-other b i c d.buckets there) among)
          ];
        }
