-- ===== src/Faxq/Counts.antt =====
-- The list and the count of the active jobs of a destination (DestInfo::active and DestInfo::done of
-- faxd/DestInfo.c++).
use hylafaxplus.Prelude.{
  ℕ, ◌+◌, ◌-◌, ◌%◌, ◌<◌, true, false, List, [], ◌∷◌, ◌++◌, length, count, erase, ◌≡◌, refl, arith,
  length-append,
}
use hylafaxplus.Faxq.State.{DestInfo}
use hylafaxplus.Faxq.Dest.{mem, active, done_job}

count-append : (j : ℕ) (xs ys : List ℕ) → count j (xs ++ ys) ≡ count j xs + count j ys
count-append j [] ys = omega arith
count-append j (x ∷ xs) ys = ground (arith, count-append j xs ys)

erase-append : (j : ℕ) (xs : List ℕ) → count j xs ≡ 0 → erase j (xs ++ j ∷ []) ≡ xs
unfolding erase
erase-append j [] h = ground arith
erase-append j (x ∷ xs) h = ground (arith, erase-append j xs (ground arith))

rejoin :
    (di : DestInfo) (running : List ℕ) (n : ℕ)
    → running ≡ di.running
    → n ≡ di.active_count
    → (record di { running = running; active_count = n }) ≡ di
rejoin di running n h k = rw (h, k) refl

-- For a destination whose count is the length of its list, with less than 65535 jobs on it, and a
-- job that is not on it: active counts the job, and done gives back the destination as it was.
pub done_job-active :
    (j : ℕ) (di : DestInfo)
    → di.active_count ≡ length di.running
    → length di.running < 65535
    → mem j di.running ≡ false
    → ((active j di).active_count ≡ length (active j di).running) × (done_job j (active j di) ≡ di)
unfolding active done_job
done_job-active j di counted small away =
    let added : mem j (di.running ++ j ∷ []) ≡ true =
      ground (arith, count-append j di.running (j ∷ [])) in
    let gone : erase j (di.running ++ j ∷ []) ≡ di.running =
      erase-append j di.running (ground arith) in
    let longer = length-append di.running (j ∷ []) in
    let back : (di.active_count + 1) % 65536 - 1 ≡ di.active_count = omega (arith, counted) in
    (rw away (omega (arith, longer, counted)), rw (away, added) (rejoin di _ _ gone back))
