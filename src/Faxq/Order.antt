-- ===== src/Faxq/Order.antt =====
-- Where the run queues and the sleep queue take a job in (ctrlJobDone and setSleep of
-- faxd/faxQueueApp.c++).
use hylafaxplus.Prelude.{
  ℕ, Bool, true, false, not, none, List, [], ◌∷◌, ◌++◌, leb, ◌≡◌, refl, sym, ◌∙◌, arith,
  insert_after, count, Bool-cases, inl, inr,
}
use mathlib.Core.Path.{subst}
use hylafaxplus.Faxq.State.{QueueId, runq, sleepq, Job, Server, job_hash, put, modify, emit}
use hylafaxplus.Faxq.Link.{on, Linked, insert_in}
use hylafaxplus.Faxq.Place.{runs_before, set_state, ctrl_job_done, post, start_tts_timer, set_sleep}

-- Every element passes the test.
abbrev pub All : (ℕ → Bool) → List ℕ → Type 0
All test [] = Unit {0}
All test (x ∷ xs) = (test x ≡ true) × All test xs

-- Each element comes before all behind it.
abbrev pub Ordered : (ℕ → ℕ → Bool) → List ℕ → Type 0
Ordered before [] = Unit {0}
Ordered before (x ∷ xs) = All (before x) xs × Ordered before xs

All-map : (p q : ℕ → Bool) (xs : List ℕ) → ((i : ℕ) → p i ≡ true → q i ≡ true) → All p xs → All q xs
All-map p q [] h a = tt
All-map p q (x ∷ xs) h a = (h x a.0, All-map p q xs h a.1)

Ordered-map :
    (p q : ℕ → ℕ → Bool) (xs : List ℕ)
    → ((i k : ℕ) → p i k ≡ true → q i k ≡ true)
    → Ordered p xs
    → Ordered q xs
Ordered-map p q [] h o = tt
Ordered-map p q (x ∷ xs) h o = (All-map (p x) (q x) xs (h x) o.0, Ordered-map p q xs h o.1)

-- before is a total preorder.
record IsOrder (before : ℕ → ℕ → Bool) : Type 0 where
  total : (i k : ℕ) → before i k ≡ false → before k i ≡ true
  trans : (i k l : ℕ) → before i k ≡ true → before k l ≡ true → before i l ≡ true

module _ (before : ℕ → ℕ → Bool) (o : IsOrder before) where
  insert-All :
      (p skip : ℕ → Bool) (a : ℕ) (xs : List ℕ)
      → p a ≡ true
      → All p xs
      → All p (insert_after skip a xs)
  unfolding insert_after
  insert-All p skip a [] h all = (h, tt)
  insert-All p skip a (x ∷ xs) h all = elim (Bool-cases (skip x)) [
    | inl on ↦ rw on (all.0, insert-All p skip a xs h all.1)
    | inr here ↦ rw here (h, all)
  ]

  -- The place of an element: behind all that come before it or are level with it, in front of those
  -- that come after; and the list stays ordered.
  insert-place :
      (a : ℕ) (xs : List ℕ)
      → Ordered before xs
      → (front back : List ℕ) × (xs ≡ front ++ back)
        × (insert_after (λ i. before i a) a xs ≡ front ++ a ∷ back)
        × All (λ i. before i a) front
        × All (λ i. not (before i a)) back
        × Ordered before (insert_after (λ i. before i a) a xs)
  unfolding insert_after
  insert-place a [] h = ([], [], refl, refl, tt, tt, (tt, tt))
  insert-place a (x ∷ xs) h = elim (Bool-cases (before x a)) [
    | inl on ↦
        let (front, back, e, f, all, none_back, order) = insert-place a xs h.1 in
        (
          x ∷ front,
          back,
          cc,
          rw (on, f) refl,
          (on, all),
          none_back,
          rw on (insert-All (before x) (λ i. before i a) a xs on h.0, order),
        )
    | inr here ↦
        let first = o.total x a here in
        let later : (y : ℕ) → before x y ≡ true → not (before y a) ≡ true =
          λ y k. behind x y a k here in
        (
          [],
          x ∷ xs,
          refl,
          rw here refl,
          tt,
          (ground arith, All-map (before x) (λ y. not (before y a)) xs later h.0),
          rw here ((first, All-map (before x) (before a) xs (λ i. o.trans a x i first) h.0), h),
        )
  ]
    where
      behind : (x y a : ℕ) → before x y ≡ true → before x a ≡ false → not (before y a) ≡ true
      behind x y a k here = ground (arith, o.trans x y a k)

-- The order of the run queues and of the sleep queue.
abbrev pub by_run : (ℕ → Job) → ℕ → ℕ → Bool
by_run job i k = runs_before (job i) (job k)

abbrev pub by_tts : (ℕ → Job) → ℕ → ℕ → Bool
by_tts job i k = leb (job i).tts (job k).tts

by_run-IsOrder : (job : ℕ → Job) → IsOrder (by_run job)
by_run-IsOrder job = record { total = λ i k h. ground arith; trans = λ i k l h m. ground arith }

by_tts-IsOrder : (job : ℕ → Job) → IsOrder (by_tts job)
by_tts-IsOrder job = record { total = λ i k h. ground arith; trans = λ i k l h m. ground arith }

insert_in-queue :
    (q : QueueId) (skip : ℕ → Bool) (j : ℕ) (s : Server)
    → (s.job j).link ≡ none
    → (insert_in q skip j s).queue q ≡ insert_after skip j (s.queue q)
unfolding insert_in modify
insert_in-queue q skip j s free = ground arith

ctrl_job_done-queue :
    (j : ℕ) (s : Server)
    → (s.job j).link ≡ none
    → (ctrl_job_done j s).queue (runq (job_hash (s.job j).pri))
      ≡ insert_after (λ i. by_run s.job i j) j (s.queue (runq (job_hash (s.job j).pri)))
unfolding ctrl_job_done set_state post modify emit
ctrl_job_done-queue j s free = insert_in-queue _ _ j _ (ground arith)

set_sleep-queue :
    (j tts : ℕ) (s : Server)
    → (s.job j).link ≡ none
    → (set_sleep j tts s).queue sleepq
      ≡ insert_after (λ i. leb (s.job i).tts tts) j (s.queue sleepq)
unfolding set_sleep start_tts_timer post modify emit
set_sleep-queue j tts s free = insert_in-queue sleepq _ j s free

-- For a job on no list, and a run queue of its priority that is ordered: ctrlJobDone puts it behind
-- all jobs that run before it or are level with it and in front of all others, nothing else moves,
-- and the queue is ordered again.
pub ctrl_job_done-place :
    (j : ℕ) (s : Server)
    → (s.job j).link ≡ none
    → Ordered (by_run s.job) (s.queue (runq (job_hash (s.job j).pri)))
    → (front back : List ℕ) × (s.queue (runq (job_hash (s.job j).pri)) ≡ front ++ back)
      × ((ctrl_job_done j s).queue (runq (job_hash (s.job j).pri)) ≡ front ++ j ∷ back)
      × All (λ i. by_run s.job i j) front
      × All (λ i. not (by_run s.job i j)) back
      × Ordered (by_run s.job) ((ctrl_job_done j s).queue (runq (job_hash (s.job j).pri)))
ctrl_job_done-place j s free h =
    let (front, back, e, f, all, later, order) =
      insert-place (by_run s.job) (by_run-IsOrder s.job) j _ h in
    let queue = ctrl_job_done-queue j s free in
    (front, back, e, queue ∙ f, all, later, subst (Ordered (by_run s.job)) (sym queue) order)

module _ (j tts : ℕ) (s : Server) where
  -- The jobs once j has its new time.
  abbrev pub sleeping : ℕ → Job
  sleeping = put s.job j (record (s.job j) { tts = tts })

  sleeping-All :
      (x : ℕ) (xs : List ℕ)
      → count j (x ∷ xs) ≡ 0
      → All (by_tts s.job x) xs
      → All (by_tts sleeping x) xs
  sleeping-All x [] h all = tt
  sleeping-All x (y ∷ ys) h all = (ground (arith, all.0), sleeping-All x ys (ground arith) all.1)

  sleeping-Ordered :
      (xs : List ℕ) → count j xs ≡ 0 → Ordered (by_tts s.job) xs → Ordered (by_tts sleeping) xs
  sleeping-Ordered [] h o = tt
  sleeping-Ordered (x ∷ xs) h o = (sleeping-All x xs h o.0, sleeping-Ordered xs (ground arith) o.1)

  same_place :
      (xs : List ℕ)
      → count j xs ≡ 0
      → insert_after (λ i. leb (s.job i).tts tts) j xs
        ≡ insert_after (λ i. by_tts sleeping i j) j xs
  unfolding insert_after
  same_place [] h = refl
  same_place (x ∷ xs) h = ground (arith, same_place xs (ground arith))

  sleeping-tts : (i k : ℕ) → by_tts sleeping i k ≡ true → by_tts (set_sleep j tts s).job i k ≡ true
  unfolding set_sleep start_tts_timer post modify emit insert_in
  sleeping-tts i k h = ground arith

  -- For a server with intact links, a job on no list and a sleep queue that is ordered by time to
  -- send: setSleep puts the job at its place, and the queue is ordered again by the times that the
  -- jobs have then.
  pub set_sleep-Ordered :
      Linked s.registered s
      → (s.job j).link ≡ none
      → Ordered (by_tts s.job) (s.queue sleepq)
      → (front back : List ℕ) × (s.queue sleepq ≡ front ++ back)
        × ((set_sleep j tts s).queue sleepq ≡ front ++ j ∷ back)
        × Ordered (by_tts (set_sleep j tts s).job) ((set_sleep j tts s).queue sleepq)
  set_sleep-Ordered l free h =
      let away : count j (s.queue sleepq) ≡ 0 = ground (arith, l.at sleepq j) in
      let before = sleeping-Ordered (s.queue sleepq) away h in
      let (front, back, e, f, all, later, order) =
        insert-place (by_tts sleeping) (by_tts-IsOrder sleeping) j _ before in
      let queue = set_sleep-queue j tts s free ∙ same_place (s.queue sleepq) away in
      (
        front,
        back,
        e,
        queue ∙ f,
        subst (Ordered (by_tts (set_sleep j tts s).job)) (sym queue)
            (Ordered-map (by_tts sleeping) _ _ sleeping-tts order),
      )
