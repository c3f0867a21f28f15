-- ===== src/Faxq/Runs.antt =====
-- The runs of the queue manager: clients' requests, timers, ends of sends and the reaping of dead
-- jobs, in any order and each with its own environment.
use hylafaxplus.Prelude.{
  ℕ, Bool, true, false, Option, some, List, if◌then◌else◌, ◌==◌, ◌≡◌, ◌≢◌, refl, sym, ◌∙◌, arith,
  Bool-cases, inl, inr,
}
use hylafaxplus.Faxq.State.{
  JobStatus, FaxRequest, QFile, absent, garbled, good, bad, rejected, deadq, job_create, Server,
  Env,
}
use hylafaxplus.Faxq.Link.{
  remove-link, remove-alone, modify-Linked, modify_batch-Linked, remove_if_on_list-Linked, Linked,
  Off, remove-Linked,
}
use hylafaxplus.Faxq.Linked.Off.{post-Off, off_rules}
use hylafaxplus.Faxq.State.{emit, QueueId, runq}
use hylafaxplus.Faxq.Start.{assign, clear_bnext, start_job}
use mathlib.Core.Path.{subst}
use hylafaxplus.Faxq.Place.{post}
use hylafaxplus.Faxq.State.{job_reap}
use hylafaxplus.Faxq.Request.{read_request}
use hylafaxplus.Faxq.Submit.{
  new_job, update_job, create_job, submit_new, discard, submit_file, submit_by_id, is_final, reap,
}
use hylafaxplus.Faxq.Suspend.{Event, handle, suspend_by_id, terminate_job}
use hylafaxplus.Faxq.Linked.Place.{
  set_active-Linked, update_request-Linked, modify_dest-Linked, if-Linked, post-Linked, emit-Linked,
  delete_request-Linked,
}
use hylafaxplus.Faxq.Schedule.{Limits, consider}
use hylafaxplus.Faxq.Linked.Schedule.{clear_commid-Linked, consider-Linked}
use hylafaxplus.Faxq.Linked.Client.{submit_job-Linked, resubmit-Linked}
use hylafaxplus.Faxq.Reach.{
  event_job, EventsRegistered, AfterCall, handle-Linked, suspend_by_id-Linked, terminate_job-Linked,
}

-- The links, with the registered jobs that the server itself names.
abbrev pub WellLinked : Server → Type 0
WellLinked s = Linked s.registered s

registered-WellLinked : {reg : ℕ → Bool} (s : Server) → Linked reg s → WellLinked s
registered-WellLinked s l = record {
  at = l.at;
  same = λ j. refl;
  free = λ j h. l.free j (sym (l.same j) ∙ h);
  batch = λ j n h. l.same n ∙ l.batch j n h;
  sound = l.sound;
}

-- The registered jobs and one more.
abbrev pub with_job : ℕ → (ℕ → Bool) → ℕ → Bool
with_job j reg i = if i == j then true else reg i

create_job-Linked :
    {reg : ℕ → Bool} (e : Env) (j : ℕ) (r : FaxRequest) (s : Server)
    → reg j ≡ false
    → Linked reg s
    → Linked (with_job j reg) (create_job e j r s)
unfolding create_job new_job update_job
create_job-Linked e j r s h l = record {
  at = λ q i. ground (arith, l.at q i, l.free j h);
  same = λ i. ground (arith, l.same i);
  free = λ i k. ground (arith, l.free i);
  batch = λ i n k. ground (arith, l.batch i n);
  sound = l.sound;
}

-- A job is made on no list.
create_job-Off : (e : Env) (j : ℕ) (r : FaxRequest) (s : Server) → Off j (create_job e j r s)
unfolding create_job new_job update_job
create_job-Off e j r s = record { link = ground arith }

discard-Linked :
    {reg : ℕ → Bool} (e : Env) (j : ℕ) (r : FaxRequest) (s : Server)
    → reg j ≡ false
    → Linked reg s
    → Linked reg (discard e j r s)
unfolding discard new_job update_job
discard-Linked e j r s h l = delete_request-Linked e j _ rejected true _ (record {
  at = λ q i. ground (arith, l.at q i, l.free j h);
  same = l.same;
  free = λ i k. ground (arith, l.free i k);
  batch = λ i n k. ground (arith, l.batch i n);
  sound = l.sound;
})

pub submit_new-Linked :
    {reg : ℕ → Bool} (e : Env) (j : ℕ) (r : FaxRequest) (check : Bool) (s : Server)
    → reg j ≡ false
    → Linked reg s
    → Linked (with_job j reg) (submit_new e j r check s).1
unfolding submit_new
submit_new-Linked e j r check s h l =
    (submit_job-Linked e j (ground arith) r check _ (post-Off job_create j (create_job-Off e j r s))
      (post-Linked job_create j _ (create_job-Linked e j r s h l))).linked

-- A call whose answer is about a server that is linked.
submit_file-WellLinked :
    (e : Env) (j : ℕ) (check nascent : Bool) (f : QFile) (s : Server)
    → s.registered j ≡ false
    → WellLinked s
    → WellLinked (submit_file e j check nascent f s).1
unfolding submit_file
submit_file-WellLinked e j check nascent absent s h l = l
submit_file-WellLinked e j check nascent garbled s h l = l
submit_file-WellLinked e j check nascent (bad r) s h l =
    registered-WellLinked _ (discard-Linked e j r s h l)
submit_file-WellLinked e j check nascent (good r) s h l = elim (Bool-cases (is_final r.state)) [
  | inl over ↦ rw over l
  | inr going ↦ rw going (registered-WellLinked _ (if-Linked nascent (emit-Linked _ _ new) new))
]
  where
    new : Linked (with_job j s.registered) (submit_new e j r check s).1
    new = submit_new-Linked e j r check s h l

submit_by_id-WellLinked :
    (e : Env) (j : ℕ) (check nascent : Bool) (s : Server)
    → WellLinked s
    → WellLinked (submit_by_id e j check nascent s).1
unfolding submit_by_id
submit_by_id-WellLinked e j check nascent s l = elim (Bool-cases (s.registered j)) [
  | inl known ↦
      rw known (registered-WellLinked _ (resubmit-Linked e j known (s.job j).state s l).linked)
  | inr free ↦ rw free (submit_file-WellLinked e j check nascent (s.file j) s free l)
]

reap-WellLinked :
    (j : ℕ) (s : Server)
    → ((i : ℕ) → (s.job i).bnext ≢ some j)
    → WellLinked s
    → WellLinked (reap j s)
unfolding reap
reap-WellLinked j s alone l =
    let r = post-Linked job_reap j _ (remove-Linked j s l) in
    record {
      at = r.at;
      same = λ i. refl;
      free = λ i k. unfold post emit in ground (arith, remove-link j i s, r.free i, r.same i);
      batch = λ i n k.
          unfold post emit in ground (arith, r.batch i n, r.same n, remove-alone j i s alone);
      sound = r.sound;
    }

assign-Linked : {reg : ℕ → Bool} (m j : ℕ) (s : Server) → Linked reg s → Linked reg (assign m j s)
unfolding assign
assign-Linked m j s l =
    modify-Linked j _ _ (λ b. (refl, refl))
      (record { at = l.at; same = l.same; free = l.free; batch = l.batch; sound = l.sound })

clear_bnext-Linked :
    {reg : ℕ → Bool} (j : ℕ) (s : Server) → Linked reg s → Linked reg (clear_bnext j s)
unfolding clear_bnext
clear_bnext-Linked j s l = modify_batch-Linked j _ s refl (λ n h. cc) l

start_job-Linked :
    {reg : ℕ → Bool} (m : ℕ) (r : FaxRequest) (j : ℕ) (s : Server)
    → reg j ≡ true
    → Linked reg s
    → Linked reg (start_job m r j s)
unfolding start_job
start_job-Linked m r j s h l =
    search
      (
        assign-Linked, post-Linked, remove_if_on_list-Linked, clear_bnext-Linked,
        modify_dest-Linked, clear_commid-Linked, set_active-Linked, update_request-Linked,
        off_rules,
      )
      depth 14

-- One step of the server: a request of a client that returns, an event, the scheduler's decision on
-- a job of a run queue, the start of such a job, and the reaping of a job on the dead list that
-- no job names as the next of its batch (runScheduler reaps every job on that list).
pub data Step : Server → Server → Type 0 where
  submits :
      (e : Env) (j : ℕ) (check nascent : Bool) (s : Server)
      → Step s (submit_by_id e j check nascent s).1
  suspends :
      (e : Env) (j : ℕ) (abort : Bool) (events : List Event) (s : Server) (r : Bool × Server)
      → EventsRegistered s.registered events
      → suspend_by_id e j abort events s ≡ some r
      → Step s r.1
  terminates :
      (e : Env) (j : ℕ) (why : JobStatus) (events : List Event) (s : Server) (r : Bool × Server)
      → EventsRegistered s.registered events
      → terminate_job e j why events s ≡ some r
      → Step s r.1
  handles :
      (e : Env) (x : Event) (s : Server) → s.registered (event_job x) ≡ true → Step s (handle e x s)
  considers :
      (e : Env) (g : Limits) (j h : ℕ) (s : Server)
      → (s.job j).link ≡ some (runq h)
      → Step s (consider e g j s).1
  starts :
      (m : ℕ) (r : FaxRequest) (j h : ℕ) (s : Server)
      → (s.job j).link ≡ some (runq h)
      → read_request j s ≡ some r
      → Step s (start_job m r j s)
  reaps :
      (j : ℕ) (s : Server)
      → (s.job j).link ≡ some deadq
      → ((i : ℕ) → (s.job i).bnext ≢ some j)
      → Step s (reap j s)

pub data Reach (first : Server) : Server → Type 0 where
  begin : Reach first first
  step : (s t : Server) → Reach first s → Step s t → Reach first t

-- The registered jobs include those on lists.
listed-registered :
    (j : ℕ) (q : QueueId) (s : Server)
    → WellLinked s
    → (s.job j).link ≡ some q
    → s.registered j ≡ true
listed-registered j q s l h = ground (arith, l.free j)

finished-Linked :
    (reg : ℕ → Bool) {o : Option (Bool × Server)} (r : Bool × Server)
    → AfterCall reg o
    → o ≡ some r
    → WellLinked r.1
finished-Linked reg r a h = registered-WellLinked r.1 (subst (AfterCall reg) h a).linked

pub Step-WellLinked : (s t : Server) → Step s t → WellLinked s → WellLinked t
Step-WellLinked s _ (submits e j check nascent _) l = submit_by_id-WellLinked e j check nascent s l
Step-WellLinked s _ (suspends e j abort events _ r all h) l =
    finished-Linked s.registered r (suspend_by_id-Linked e j abort events s all l) h
Step-WellLinked s _ (terminates e j why events _ r all h) l =
    finished-Linked s.registered r (terminate_job-Linked e j why events s all l) h
Step-WellLinked s _ (handles e x _ h) l = registered-WellLinked _ (handle-Linked e x s h l)
Step-WellLinked s _ (considers e g j q _ h) l =
    registered-WellLinked _ (consider-Linked e g j s (listed-registered j (runq q) s l h) l)
Step-WellLinked s _ (starts m r j q _ h k) l =
    registered-WellLinked _ (start_job-Linked m r j s (listed-registered j (runq q) s l h) l)
Step-WellLinked s _ (reaps j _ h alone) l = reap-WellLinked j s alone l

-- Whatever the clients, the timers and the send programs do, in any order, as long as no job is reaped
-- that another names as the next of its batch: a server that is reached from one with intact links has
-- intact links, so each job stands once on the list that its link names and on no other, jobs that are
-- not registered are on none, and no job was ever put on a list while it was on one.
pub Reach-WellLinked : (first s : Server) → WellLinked first → Reach first s → WellLinked s
Reach-WellLinked first _ l begin = l
Reach-WellLinked first t l (step s _ r x) = Step-WellLinked s t x (Reach-WellLinked first s l r)
