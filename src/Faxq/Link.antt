-- ===== src/Faxq/Link.antt =====
-- Putting jobs on lists and taking them off (faxd/QLink.c++, Job::remove of faxd/Job.c++).
use hylafaxplus.Prelude.{
  ℕ, ◌≡◌, ◌≢◌, refl, sym, ◌∙◌, Bool, true, false, Option, none, some, ◌==◌, if◌then◌else◌, ite,
  count, erase, insert_after, count-erase, count-insert_after, arith, Bool-cases, inl, inr,
}
use hylafaxplus.Faxq.State.{QueueId, QueueId-discrete, Job, Server, put_queue, modify}

-- QLink::isOnList
abbrev pub is_on_list : Job → Bool
is_on_list b = elim b.link [ none ↦ false | some _ ↦ true ]

-- QLink::insert: the job goes before the first element that fails the test, or last.
unfoldable pub insert_in : QueueId → (ℕ → Bool) → ℕ → Server → Server
insert_in q skip j s =
    if is_on_list (s.job j)
    then record s { relinked = true }
    else modify j (λ b. record b { link = some q })
        (record s { queue = put_queue s.queue q (insert_after skip j (s.queue q)) })

-- QLink::remove
unfoldable pub unlink_from : Option QueueId → ℕ → Server → Server
unlink_from none j s = record s { faulted = true }
unlink_from (some q) j s =
    modify j (λ b. record b { link = none })
      (record s { queue = put_queue s.queue q (erase j (s.queue q)) })

unfoldable pub set_bprev : Option ℕ → Option ℕ → Server → Server
set_bprev none p s = s
set_bprev (some n) p s = modify n (λ b. record b { bprev = p }) s

unfoldable pub set_bnext : Option ℕ → Option ℕ → Server → Server
set_bnext none n s = s
set_bnext (some p) n s = modify p (λ b. record b { bnext = n }) s

-- Job::remove: the job leaves its batch, and its list.
unfoldable pub remove : ℕ → Server → Server
remove j s =
    let b = s.job j in
    let s1 = set_bnext b.bprev b.bnext (set_bprev b.bnext b.bprev s) in
    unlink_from b.link j (modify j (λ x. record x { bnext = none; bprev = none }) s1)

-- if (job.isOnList()) job.remove();
unfoldable pub remove_if_on_list : ℕ → Server → Server
remove_if_on_list j s = if is_on_list (s.job j) then remove j s else s

-- 1 for the list that the link names, 0 for every other.
abbrev pub on : QueueId → Option QueueId → ℕ
on q none = 0
on q (some r) = ite (QueueId-discrete q r) 1 0

-- Every job stands once on the list that its link names, and on no other; the jobs on lists, and the
-- successors in a batch, are among the registered ones, which are those of `reg`. No job that was on
-- a list has ever been put on another.
pub record Linked (reg : ℕ → Bool) (s : Server) : Type 0 where
  pub at : (q : QueueId) (j : ℕ) → count j (s.queue q) ≡ on q (s.job j).link
  pub same : (j : ℕ) → s.registered j ≡ reg j
  pub free : (j : ℕ) → reg j ≡ false → (s.job j).link ≡ none
  pub batch : (j n : ℕ) → (s.job j).bnext ≡ some n → reg n ≡ true
  pub sound : s.relinked ≡ false

-- The job is on no list.
pub record Off (j : ℕ) (s : Server) : Type 0 where
  pub link : (s.job j).link ≡ none

-- A change of a job that keeps its link, and points to a registered successor or none.
pub modify_batch-Linked :
    {reg : ℕ → Bool} (j : ℕ) (f : Job → Job) (s : Server)
    → ((f (s.job j)).link ≡ (s.job j).link)
    → ((n : ℕ) → (f (s.job j)).bnext ≡ some n → reg n ≡ true)
    → Linked reg s
    → Linked reg (modify j f s)
unfolding modify
modify_batch-Linked j f s keep next l = record {
  at = λ q i. ground (arith, l.at q i, keep);
  same = l.same;
  free = λ i h. ground (arith, l.free i h, keep);
  batch = λ i n h. ground (arith, l.batch i n, next n);
  sound = l.sound;
}

pub modify-Linked :
    {reg : ℕ → Bool} (j : ℕ) (f : Job → Job) (s : Server)
    → ((b : Job) → ((f b).link ≡ b.link) × ((f b).bnext ≡ b.bnext))
    → Linked reg s
    → Linked reg (modify j f s)
modify-Linked j f s keep l =
    modify_batch-Linked j f s (keep (s.job j)).0 (λ n h. l.batch j n (sym (keep (s.job j)).1 ∙ h)) l

pub insert_in-Linked :
    {reg : ℕ → Bool} (q : QueueId) (skip : ℕ → Bool) (j : ℕ) (s : Server)
    → reg j ≡ true
    → Off j s
    → Linked reg s
    → Linked reg (insert_in q skip j s)
unfolding insert_in modify
insert_in-Linked q skip j s r o l = record {
  at = λ p i. ground (arith, l.at p i, l.at q i, l.at p j, count-insert_after skip j i (s.queue q));
  same = λ i. ground (arith, l.same i);
  free = λ i h. ground (arith, l.free i h);
  batch = λ i n h. ground (arith, l.batch i n);
  sound = ground (arith, l.sound, o.link);
}

pub unlink_from-Linked :
    {reg : ℕ → Bool} (o : Option QueueId) (j : ℕ) (s : Server)
    → o ≡ (s.job j).link
    → Linked reg s
    → Linked reg (unlink_from o j s)
unfolding unlink_from modify
unlink_from-Linked none j s e l = record {
  at = l.at;
  same = l.same;
  free = l.free;
  batch = l.batch;
  sound = l.sound;
}
unlink_from-Linked (some q) j s e l = record {
  at = λ r i. ground (arith, l.at r i, l.at q i, l.at r j, count-erase j i (s.queue q));
  same = l.same;
  free = λ i h. ground (arith, l.free i h);
  batch = λ i n h. ground (arith, l.batch i n);
  sound = l.sound;
}

set_bprev-Linked :
    {reg : ℕ → Bool} (o p : Option ℕ) (s : Server) → Linked reg s → Linked reg (set_bprev o p s)
unfolding set_bprev
set_bprev-Linked none p s l = l
set_bprev-Linked (some n) p s l = modify-Linked n _ s (λ b. (refl, refl)) l

set_bnext-Linked :
    {reg : ℕ → Bool} (o n : Option ℕ) (s : Server)
    → ((m : ℕ) → n ≡ some m → reg m ≡ true)
    → Linked reg s
    → Linked reg (set_bnext o n s)
unfolding set_bnext
set_bnext-Linked none n s next l = l
set_bnext-Linked (some p) n s next l = modify_batch-Linked p _ s refl next l

-- The links of the neighbours in the batch change, the list of no job does.
batch-link :
    (o p o' p' : Option ℕ) (j : ℕ) (s : Server)
    → ((set_bnext o p (set_bprev o' p' s)).job j).link ≡ (s.job j).link
unfolding set_bnext set_bprev modify
batch-link o p o' p' j s = ground arith

pub remove-Linked : {reg : ℕ → Bool} (j : ℕ) (s : Server) → Linked reg s → Linked reg (remove j s)
unfolding remove
remove-Linked {reg} j s l =
    let b = s.job j in
    let s1 = set_bnext b.bprev b.bnext (set_bprev b.bnext b.bprev s) in
    let l1 : Linked reg s1 =
      set_bnext-Linked b.bprev b.bnext _ (l.batch j) (set_bprev-Linked b.bnext b.bprev s l) in
    unlink_from-Linked b.link j _
      (unfold modify in ground (arith, batch-link b.bprev b.bnext b.bnext b.bprev j s))
      (modify_batch-Linked j _ s1 refl (λ n h. cc) l1)

pub remove_if_on_list-Linked :
    {reg : ℕ → Bool} (j : ℕ) (s : Server) → Linked reg s → Linked reg (remove_if_on_list j s)
unfolding remove_if_on_list
remove_if_on_list-Linked j s l = elim (Bool-cases (is_on_list (s.job j))) [
  | inl onlist ↦ rw onlist (remove-Linked j s l)
  | inr free ↦ rw free l
]

-- Whatever the job was on, it is on no list afterwards; no other job's place changes.
pub remove_if_on_list-link :
    (j i : ℕ) (s : Server)
    → ((remove_if_on_list j s).job i).link ≡ (if i == j then none else (s.job i).link)
unfolding remove_if_on_list remove unlink_from modify
remove_if_on_list-link j i s = ground (
  arith,
  batch-link (s.job j).bprev (s.job j).bnext (s.job j).bnext (s.job j).bprev i s,
  batch-link (s.job j).bprev (s.job j).bnext (s.job j).bnext (s.job j).bprev j s,
)

pub remove-link :
    (j i : ℕ) (s : Server) → ((remove j s).job i).link ≡ (if i == j then none else (s.job i).link)
unfolding remove unlink_from modify
remove-link j i s = ground (
  arith,
  batch-link (s.job j).bprev (s.job j).bnext (s.job j).bnext (s.job j).bprev i s,
  batch-link (s.job j).bprev (s.job j).bnext (s.job j).bnext (s.job j).bprev j s,
)

-- A job that was no other's successor in a batch is none after it is removed.
pub remove-alone :
    (j i : ℕ) (s : Server)
    → ((k : ℕ) → (s.job k).bnext ≢ some j)
    → ((remove j s).job i).bnext ≢ some j
unfolding remove unlink_from set_bnext set_bprev modify
remove-alone j i s alone = ground (arith, alone i, alone j)
