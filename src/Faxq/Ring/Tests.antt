-- ===== src/Faxq/Ring/Tests.antt =====
-- A run queue of two jobs as nodes and pointers: the head is node 0.
use hylafaxplus.Prelude.{
  some, [], ◌∷◌, erase, insert_after, ltb, ◌==◌, if◌then◌else◌, ◌≡◌, refl, arith,
}
use hylafaxplus.Faxq.Ring.{QLink, insert_sorted, remove_link}
use hylafaxplus.Faxq.Ring.Refines.{IsRing, insert_sorted-IsRing, remove_link-IsRing}

-- Jobs 10 and 30.
abbrev two_jobs : QLink
two_jobs = record {
  next = λ i. if i == 0 then 10 else if i == 10 then 30 else if i == 30 then 0 else i;
  prev = λ i. if i == 0 then 30 else if i == 10 then 0 else if i == 30 then 10 else i;
}

two_jobs-IsRing : IsRing two_jobs 0 (10 ∷ 30 ∷ [])
two_jobs-IsRing = record {
  linked = (refl, refl, (refl, refl, (refl, refl)));
  once = λ i. ground arith;
}

-- The job identifiers serve as their priorities.
insert_sorted-IsRing_example :
    (r : QLink) × (insert_sorted 3 0 (λ i. ltb i 20) 20 two_jobs ≡ some r)
    × IsRing r 0 (insert_after (λ i. ltb i 20) 20 (10 ∷ 30 ∷ []))
insert_sorted-IsRing_example =
    insert_sorted-IsRing 3 0 20 (λ i. ltb i 20) two_jobs (10 ∷ 30 ∷ []) two_jobs-IsRing refl refl
      (ground arith)

remove_link-IsRing_example :
    (r : QLink) × (remove_link 10 two_jobs ≡ some r)
    × IsRing r 0 (erase 10 (10 ∷ 30 ∷ []))
    × (r.next 10 ≡ 10)
remove_link-IsRing_example =
    remove_link-IsRing 0 10 two_jobs (10 ∷ 30 ∷ []) two_jobs-IsRing (ground arith)
