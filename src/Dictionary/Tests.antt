-- ===== src/Dictionary/Tests.antt =====
-- Tables at fixed keys.
use hylafaxplus.Prelude.{ℕ, none, List, [], ◌∷◌, put, case_option, count, ◌≡◌, arith}
use hylafaxplus.Dictionary.{
  Dictionary, new_dictionary, set_bucket, add_internal, find, find_chain, visit, iter_start,
  set_chain, find_create, cut, remove_key, unlink_chain,
}
use hylafaxplus.Dictionary.Refines.{keys, Map, Refines}
use hylafaxplus.Dictionary.Served.{
  DictionaryRequest, add, create, remove, take, run_dictionary, serve_dictionary, run_map,
  run_new-Refines,
}
use hylafaxplus.Dictionary.Visited.{chains, visit-once}

abbrev same_key : ℕ → ℕ
same_key k = k

-- 5 and 8 meet in a bucket of three.
abbrev requests : List (DictionaryRequest ℕ)
requests = add 5 50 ∷ add 8 80 ∷ add 5 55 ∷ create 6 60 ∷ take 8 ∷ remove 7 ∷ []

run_new-Refines_example :
    ((run_dictionary same_key requests (new_dictionary 3)).0
      ≡ (run_map same_key requests (record { lookup = λ k. none; size = 0 })).0)
    × Refines same_key
        (run_dictionary same_key requests (new_dictionary 3)).1
        (run_map same_key requests (record { lookup = λ k. none; size = 0 })).1
run_new-Refines_example = run_new-Refines same_key 3 requests

abbrev table : Dictionary ℕ
table = (run_dictionary same_key requests (new_dictionary 3)).1

abbrev map : Map ℕ
map = (run_map same_key requests (record { lookup = λ k. none; size = 0 })).1

visit-once_example :
    (visit 2 (iter_start table) table ≡ chains table 0 table.buckets_length)
    × ((k : ℕ)
        → count k (keys (visit 2 (iter_start table) table)) ≡ case_option (map.lookup k) 0 (λ v. 1))
unfolding run_dictionary serve_dictionary new_dictionary add_internal find find_chain set_bucket
    set_chain find_create cut remove_key unlink_chain put chains
visit-once_example =
    visit-once same_key table map 2 (run_new-Refines same_key 3 requests).1 (omega arith)
      (omega arith)
