-- ===== src/Dictionary.antt =====
-- The hash tables of the support library (util/Dictionary.c++, util/Dictionary.h), which hold the jobs,
-- the clients and the destinations. Keys are numbers, with the hash of the key's class as a function;
-- compareKeys is 0 for the same number. The buckets are chains of keys and values. An iterator is the
-- rest of the chain it stands in and the number of its bucket; what a removal does to the iterators
-- that stand on the bucket is left out.
pub mod Refines
pub mod Served
pub mod Visited
mod Tests
use hylafaxplus.Prelude.{
  ℕ, zero, suc, ◌+◌, ◌-◌, ◌%◌, Bool, true, false, ◌||◌, Option, none, some, List, [], ◌∷◌, ◌==◌,
  if◌then◌else◌, case_option, put,
}

pub record Dictionary (V : Type 0) : Type 0 where
  pub buckets : ℕ → List (ℕ × V)
  pub buckets_length : ℕ
  pub num_items : ℕ

-- numItems++ and numItems--
abbrev pub item_added : ℕ → ℕ
item_added n = (n + 1) % 4294967296

abbrev pub item_removed : ℕ → ℕ
item_removed n = (n + 4294967295) % 4294967296

module _ {V : Type 0} where
  -- fxDictionary::fxDictionary, with DEFAULTSIZE.
  unfoldable pub new_dictionary : ℕ → Dictionary V
  new_dictionary initsize = record {
    buckets = λ i. [];
    buckets_length = (if initsize == 0 then 31 else initsize);
    num_items = 0;
  }

  -- The walks down a chain.
  unfoldable pub find_chain : ℕ → List (ℕ × V) → Option V
  find_chain k [] = none
  find_chain k (e ∷ es) = let rest = find_chain k es in if k == e.0 then some e.1 else rest

  unfoldable pub set_chain : ℕ → V → List (ℕ × V) → List (ℕ × V)
  set_chain k v [] = []
  set_chain k v (e ∷ es) =
      let rest = set_chain k v es in if k == e.0 then (e.0, v) ∷ es else e ∷ rest

  unfoldable pub unlink_chain : ℕ → List (ℕ × V) → List (ℕ × V)
  unlink_chain k [] = []
  unlink_chain k (e ∷ es) = let rest = unlink_chain k es in if k == e.0 then es else e ∷ rest

  module _ (hash_key : ℕ → ℕ) where
    abbrev pub index : ℕ → Dictionary V → ℕ
    index k d = hash_key k % d.buckets_length

    unfoldable pub set_bucket : ℕ → List (ℕ × V) → ℕ → Dictionary V → Dictionary V
    set_bucket k c n d = record d { buckets = put (index k d) c d.buckets; num_items = n }

    abbrev pub chain_of : ℕ → Dictionary V → List (ℕ × V)
    chain_of k d = d.buckets (index k d)

    -- fxDictionary::find
    unfoldable pub find : ℕ → Dictionary V → Option V
    find k d = find_chain k (chain_of k d)

    -- fxDictionary::addInternal
    unfoldable pub add_internal : ℕ → V → Dictionary V → Dictionary V
    add_internal k v d =
        case_option (find k d) (set_bucket k ((k, v) ∷ chain_of k d) (item_added d.num_items) d)
          (λ old. set_bucket k (set_chain k v (chain_of k d)) d.num_items d)

    -- fxDictionary::findCreate; `fresh` is what createValue makes.
    unfoldable pub find_create : V → ℕ → Dictionary V → V × Dictionary V
    find_create fresh k d =
        case_option (find k d)
          (fresh, set_bucket k ((k, fresh) ∷ chain_of k d) (item_added d.num_items) d) (λ v. (v, d))

    -- fxDictionary::cut; fxDictionary::remove is the same without the value.
    unfoldable pub cut : ℕ → Dictionary V → Option V × Dictionary V
    cut k d =
        case_option (find k d) (none, d)
          (λ v. (some v, set_bucket k (unlink_chain k (chain_of k d)) (item_removed d.num_items) d))

    unfoldable pub remove_key : ℕ → Dictionary V → Dictionary V
    remove_key k d =
        case_option (find k d) d
          (λ v. set_bucket k (unlink_chain k (chain_of k d)) (item_removed d.num_items) d)

  -- The iterator stands in this chain, or goes on if it is empty.
  unfoldable pub stand : ℕ → List (ℕ × V) → Option (ℕ × List (ℕ × V)) → Option (ℕ × List (ℕ × V))
  stand bucket [] next = next
  stand bucket (e ∷ es) next = some (bucket, e ∷ es)

  -- fxDictIter::advanceToValid: the next bucket that is not empty.
  unfoldable pub advance_bucket : ℕ → ℕ → Dictionary V → Option (ℕ × List (ℕ × V))
  advance_bucket zero bucket d = none
  advance_bucket (suc fuel) bucket d =
      let rest = advance_bucket fuel (suc bucket) d in
      if suc bucket == d.buckets_length
      then none
      else stand (suc bucket) (d.buckets (suc bucket)) rest

  -- fxDictIter::fxDictIter, and fxDictIter::increment: where the iterator stands, or none at the end.
  unfoldable pub settle : ℕ → List (ℕ × V) → Dictionary V → Option (ℕ × List (ℕ × V))
  settle bucket node d = stand bucket node (advance_bucket d.buckets_length bucket d)

  abbrev pub iter_start : Dictionary V → Option (ℕ × List (ℕ × V))
  iter_start d = settle 0 (d.buckets 0) d

  -- The items that an iteration visits.
  unfoldable pub visit : ℕ → Option (ℕ × List (ℕ × V)) → Dictionary V → List (ℕ × V)
  visit fuel none d = []
  visit fuel (some (bucket, [])) d = []
  visit zero (some (bucket, e ∷ es)) d = []
  visit (suc fuel) (some (bucket, e ∷ es)) d = e ∷ visit fuel (settle bucket es d) d
