-- ===== src/Dictionary/Served.antt =====
-- The operations of the hash table, one by one and in any order, as those of a finite map
-- (fxDictionary of util/Dictionary.c++).
use mathlib.Core.Path.{subst}
use hylafaxplus.Prelude.{
  ℕ, ◌≤◌, Option, none, some, List, [], ◌∷◌, ◌==◌, case_option, put-own, put-other, count, ◌≡◌, ◌≢◌,
  refl, sym, ap, ◌∙◌, arith, Bool-cases, Option-cases, inl, inr,
}
use hylafaxplus.Dictionary.{
  Dictionary, new_dictionary, find_chain, set_chain, unlink_chain, index, set_bucket, chain_of,
  find, item_added, item_removed, add_internal, find_create, cut, remove_key,
}
use hylafaxplus.Dictionary.Refines.{
  keys, find-none, keys-set_chain, find-set_chain, count-unlink_chain, find-unlink_chain, Map,
  map_add, map_remove, Refines, set_bucket-Refines,
}

map_remove-absent :
    {V : Type 0} (k j : ℕ) (m : Map V) → m.lookup k ≡ none → (map_remove k m).lookup j ≡ m.lookup j
unfolding map_remove
map_remove-absent k j m e = elim (Bool-cases (j == k)) [
  | inl own ↦
      let at : k ≡ j = ground (arith, own) in put-own k j none m.lookup own ∙ sym e ∙ ap m.lookup at
  | inr other ↦ put-other k j none m.lookup other
]

map_remove-size :
    {V : Type 0} (k : ℕ) (m : Map V) → m.lookup k ≡ none → (map_remove k m).size ≡ m.size
unfolding map_remove
map_remove-size k m e = rw e refl

module _ {V : Type 0} (hash_key : ℕ → ℕ) where
  sized :
      (d : Dictionary V) (f : ℕ → Option V) (n n' : ℕ)
      → n ≡ n'
      → Refines hash_key d (record { lookup = f; size = n })
      → Refines hash_key d (record { lookup = f; size = n' })
  sized d f n n' e r = subst (λ n. Refines hash_key d (record { lookup = f; size = n })) e r

  new-Refines :
      (initsize : ℕ)
      → Refines {V = V} hash_key (new_dictionary initsize) (record { lookup = λ k. none; size = 0 })
  unfolding new_dictionary find find_chain
  new-Refines initsize = record {
    agree = λ k. refl;
    size = refl;
    once = λ i k. omega arith;
    placed = λ i k among. absurd (among refl);
  }

  -- A key that the table does not have yet.
  cons-Refines :
      (k : ℕ) (v : V) (d : Dictionary V) (m : Map V)
      → Refines hash_key d m
      → find hash_key k d ≡ none
      → Refines hash_key
          (set_bucket hash_key k ((k, v) ∷ chain_of hash_key k d) (item_added d.num_items) d)
          (map_add k v m)
  unfolding find find_chain map_add
  cons-Refines k v d m r e =
      let new_key : m.lookup k ≡ none = sym (r.agree k) ∙ e in
      let absent = find-none k (chain_of hash_key k d) e in
      rw new_key (
        sized _ _ _ _ (ap item_added r.size) (
          set_bucket-Refines hash_key k (item_added d.num_items) (some v)
            ((k, v) ∷ chain_of hash_key k d) d m r (λ j. refl)
            (λ j. cons_once j (r.once (index hash_key k d) j) absent)
            (λ j among. elim (Bool-cases (j == k)) [
              | inl own ↦ inl (ground (arith, own))
              | inr other ↦ inr (λ zero_j. among (rw other (omega (arith, zero_j))))
            ])))
    where
      cons_once :
          (j : ℕ)
          → count j (keys (chain_of hash_key k d)) ≤ 1
          → count k (keys (chain_of hash_key k d)) ≡ 0
          → count j (k ∷ keys (chain_of hash_key k d)) ≤ 1
      cons_once j one absent = elim (Bool-cases (j == k)) [
        | inl own ↦
            let at : k ≡ j = ground (arith, own) in
            let none_j = subst (λ i. count i (keys (chain_of hash_key k d)) ≡ 0) at absent in
            rw own (omega (arith, none_j))
        | inr other ↦ rw other (omega (arith, one))
      ]

  -- A new value for a key of the table.
  set-Refines :
      (k : ℕ) (v old : V) (d : Dictionary V) (m : Map V)
      → Refines hash_key d m
      → find hash_key k d ≡ some old
      → Refines hash_key
          (set_bucket hash_key k (set_chain k v (chain_of hash_key k d)) d.num_items d)
          (map_add k v m)
  unfolding find map_add
  set-Refines k v old d m r e =
      let old_key : m.lookup k ≡ some old = sym (r.agree k) ∙ e in
      let same = keys-set_chain k v (chain_of hash_key k d) in
      rw old_key (
        sized _ _ _ _ r.size (
          set_bucket-Refines hash_key k d.num_items (some v) (set_chain k v (chain_of hash_key k d))
            d m r (λ j. find-set_chain k j v old (chain_of hash_key k d) e)
            (λ j. subst (λ l. count j l ≤ 1) (sym same) (r.once (index hash_key k d) j))
            (λ j among. inr (subst (λ l. count j l ≢ 0) same among))))

  -- A key of the table taken out.
  unlink-Refines :
      (k : ℕ) (old : V) (d : Dictionary V) (m : Map V)
      → Refines hash_key d m
      → find hash_key k d ≡ some old
      → Refines hash_key
          (set_bucket hash_key k
            (unlink_chain k (chain_of hash_key k d))
            (item_removed d.num_items)
            d)
          (map_remove k m)
  unfolding find map_remove
  unlink-Refines k old d m r e =
      let old_key : m.lookup k ≡ some old = sym (r.agree k) ∙ e in
      let c = chain_of hash_key k d in
      let b = index hash_key k d in
      rw old_key (
        sized _ _ _ _ (ap item_removed r.size) (
          set_bucket-Refines hash_key k (item_removed d.num_items) none (unlink_chain k c) d m r
            (λ j. find-unlink_chain k j c (r.once b k))
            (λ j. ground (arith, count-unlink_chain k j c, r.once b j))
            (λ j among. inr (λ zero_j. among (ground (arith, count-unlink_chain k j c, zero_j))))))

  add-Refines :
      (k : ℕ) (v : V) (d : Dictionary V) (m : Map V)
      → Refines hash_key d m
      → Refines hash_key (add_internal hash_key k v d) (map_add k v m)
  unfolding add_internal
  add-Refines k v d m r = elim (Option-cases (find hash_key k d)) [
    | inl absent ↦ rw absent (cons-Refines k v d m r absent)
    | inr (old, present) ↦ rw present (set-Refines k v old d m r present)
  ]

  -- What does not change a map.
  same-Refines :
      (d : Dictionary V) (m m' : Map V)
      → Refines hash_key d m
      → ((k : ℕ) → m'.lookup k ≡ m.lookup k)
      → m'.size ≡ m.size
      → Refines hash_key d m'
  same-Refines d m m' r same size = record {
    agree = λ k. r.agree k ∙ sym (same k);
    size = r.size ∙ sym size;
    once = r.once;
    placed = r.placed;
  }

  remove-Refines :
      (k : ℕ) (d : Dictionary V) (m : Map V)
      → Refines hash_key d m
      → (Refines hash_key (remove_key hash_key k d) (map_remove k m))
        × (Refines hash_key (cut hash_key k d).1 (map_remove k m))
        × ((cut hash_key k d).0 ≡ m.lookup k)
  unfolding remove_key cut
  remove-Refines k d m r = elim (Option-cases (find hash_key k d)) [
    | inl absent ↦
        let new_key : m.lookup k ≡ none = sym (r.agree k) ∙ absent in
        let kept = absent-Refines k d m r new_key in rw absent (kept, kept, sym new_key)
    | inr (old, present) ↦
        let gone = unlink-Refines k old d m r present in
        rw present (gone, gone, sym present ∙ r.agree k)
  ]
    where
      absent-Refines :
          (k : ℕ) (d : Dictionary V) (m : Map V)
          → Refines hash_key d m
          → m.lookup k ≡ none
          → Refines hash_key d (map_remove k m)
      absent-Refines k d m r e =
          same-Refines d m (map_remove k m) r (λ j. map_remove-absent k j m e)
            (map_remove-size k m e)

-- The operations of a table.
pub data DictionaryRequest (V : Type 0) : Type 0 where
  add : ℕ → V → DictionaryRequest V
  create : ℕ → V → DictionaryRequest V
  remove : ℕ → DictionaryRequest V
  take : ℕ → DictionaryRequest V

module _ {V : Type 0} (hash_key : ℕ → ℕ) where
  -- What an operation gives back, and the table behind it.
  unfoldable pub serve_dictionary : DictionaryRequest V → Dictionary V → Option V × Dictionary V
  serve_dictionary (add k v) d = (none, add_internal hash_key k v d)
  serve_dictionary (create k fresh) d = let r = find_create hash_key fresh k d in (some r.0, r.1)
  serve_dictionary (remove k) d = (none, remove_key hash_key k d)
  serve_dictionary (take k) d = cut hash_key k d

  -- The same of a map.
  unfoldable pub serve_map : DictionaryRequest V → Map V → Option V × Map V
  serve_map (add k v) m = (none, map_add k v m)
  serve_map (create k fresh) m =
      case_option (m.lookup k) (some fresh, map_add k fresh m) (λ v. (some v, m))
  serve_map (remove k) m = (none, map_remove k m)
  serve_map (take k) m = (m.lookup k, map_remove k m)

  serve-Refines :
      (q : DictionaryRequest V) (d : Dictionary V) (m : Map V)
      → Refines hash_key d m
      → ((serve_dictionary q d).0 ≡ (serve_map q m).0)
        × Refines hash_key (serve_dictionary q d).1 (serve_map q m).1
  unfolding serve_dictionary serve_map find_create
  serve-Refines (add k v) d m r = (refl, add-Refines hash_key k v d m r)
  serve-Refines (create k fresh) d m r = elim (Option-cases (find hash_key k d)) [
    | inl absent ↦
        let new_key : m.lookup k ≡ none = sym (r.agree k) ∙ absent in
        rw (absent, new_key) (refl, cons-Refines hash_key k fresh d m r absent)
    | inr (old, present) ↦
        let old_key : m.lookup k ≡ some old = sym (r.agree k) ∙ present in
        rw (present, old_key) (refl, r)
  ]
  serve-Refines (remove k) d m r = (refl, (remove-Refines hash_key k d m r).0)
  serve-Refines (take k) d m r = let gone = remove-Refines hash_key k d m r in (gone.2, gone.1)

  -- The answers of a run, and the state at its end.
  unfoldable pub run_dictionary :
      List (DictionaryRequest V) → Dictionary V → List (Option V) × Dictionary V
  run_dictionary [] d = ([], d)
  run_dictionary (q ∷ qs) d =
      let r = serve_dictionary q d in let rest = run_dictionary qs r.1 in (r.0 ∷ rest.0, rest.1)

  unfoldable pub run_map : List (DictionaryRequest V) → Map V → List (Option V) × Map V
  run_map [] m = ([], m)
  run_map (q ∷ qs) m = let r = serve_map q m in let rest = run_map qs r.1 in (r.0 ∷ rest.0, rest.1)

  run-Refines :
      (qs : List (DictionaryRequest V)) (d : Dictionary V) (m : Map V)
      → Refines hash_key d m
      → ((run_dictionary qs d).0 ≡ (run_map qs m).0)
        × Refines hash_key (run_dictionary qs d).1 (run_map qs m).1
  unfolding run_dictionary run_map
  run-Refines [] d m r = (refl, r)
  run-Refines (q ∷ qs) d m r =
      let one = serve-Refines q d m r in
      let rest = run-Refines qs (serve_dictionary q d).1 (serve_map q m).1 one.1 in
      (
        ap (λ a. a ∷ (run_dictionary qs (serve_dictionary q d).1).0) one.0
            ∙ ap (λ l. (serve_map q m).0 ∷ l) rest.0,
        rest.1,
      )

  -- For any hash function, number of buckets and sequence of operations on a new table: each operation
  -- gives what it gives on a finite map, and in the end the table finds for every key what the map has,
  -- counts its keys modulo 2 ^ 32, and holds each key once, in the bucket of its hash.
  pub run_new-Refines :
      (initsize : ℕ) (qs : List (DictionaryRequest V))
      → ((run_dictionary qs (new_dictionary initsize)).0
          ≡ (run_map qs (record { lookup = λ k. none; size = 0 })).0)
        × Refines hash_key
            (run_dictionary qs (new_dictionary initsize)).1
            (run_map qs (record { lookup = λ k. none; size = 0 })).1
  run_new-Refines initsize qs =
      run-Refines qs (new_dictionary initsize) _ (new-Refines hash_key initsize)
