-- ===== src/Faxq/Tests.antt =====
-- Runs of the queue manager at fixed servers.
use native.Mathlib.Decide.{ℕ_discrete}
use hylafaxplus.Prelude.{
  length, ◌||◌, ℕ, ◌+◌, ◌≤◌, Bool, true, false, Option, none, some, List, [], ◌∷◌, ◌++◌, ◌==◌,
  if◌then◌else◌, ite, ◌≡◌, refl, arith, count, ◌⊎◌, not,
}
use hylafaxplus.Faxq.State.{
  state_pending, state_sleeping, send_retry, other_error, no_notice, send_fax, send_tiff,
  send_data_saved, FaxRequest, absent, good, JobControlInfo, QueueId, QueueId-discrete, runq,
  sleepq, deadq, removed, down, Job, Server, no_command, Env,
}
use hylafaxplus.Faxq.State.{blockedq, state_failed}
use hylafaxplus.Faxq.SendDone.{settle_blocked}
use hylafaxplus.Faxq.Suspend.{terminate_job}
use hylafaxplus.Prelude.{erase}
use hylafaxplus.Faxq.Failed.{settled, send_job_done-asleep}
use hylafaxplus.Faxq.State.{modify_dest}
use hylafaxplus.Faxq.Link.{insert_in, remove, unlink_from, set_bnext, set_bprev}
use hylafaxplus.Faxq.Dest.{next_blocked, next_blocked_of, discount_blocked}
use hylafaxplus.Faxq.Request.{is_notify, write_file, update_request, notify_sender}
use hylafaxplus.Faxq.Place.{batch_chain, release_if_held, set_state, start_tts_timer}
use hylafaxplus.Faxq.Delay.{delay_job, notify_requeued}
use hylafaxplus.Faxq.SendDone.{
  delay_blocked, delay_next, delay_blocked_one, end_call, send_job_done,
}
use hylafaxplus.Faxq.Ended.{terminate_job-ends}
use hylafaxplus.Faxq.State.{DestInfo}
use hylafaxplus.Faxq.Counts.{done_job-active}
use hylafaxplus.Faxq.Dest.{active, done_job}
use hylafaxplus.Faxq.Link.{on, Linked}
use hylafaxplus.Faxq.Dest.{fresh}
use hylafaxplus.Faxq.Request.{delete_request, final_state}
use hylafaxplus.Faxq.Place.{ctrl_job_done, set_sleep, set_dead, dead_state}
use hylafaxplus.Faxq.Submit.{submit_new, submit_by_id}
use hylafaxplus.Faxq.Runs.{WellLinked, begin, step, submits, Reach-WellLinked}
use hylafaxplus.Faxq.Start.{start_job}
use hylafaxplus.Faxq.State.{modify, emit}
use hylafaxplus.Faxq.Request.{usable, read_request}
use hylafaxplus.Faxq.Place.{post}
use hylafaxplus.Faxq.Delay.{set_tts}
use hylafaxplus.Faxq.Unblock.{is_ok_to_call}
use hylafaxplus.Faxq.Schedule.{
  Limits, for_modem, refusal, is_held, is_staggered, when_free, verdict, clamp_tts, consider_read,
  consider,
}
use hylafaxplus.Faxq.Grounds.{IsGrounded}
use hylafaxplus.Faxq.Decided.{meant, consider-place}
use hylafaxplus.Faxq.Limit.{start_job-calls}
use hylafaxplus.Faxq.Accepted.{submit_new-placed}
use hylafaxplus.Faxq.Dead.{set_dead_lem}
use hylafaxplus.Faxq.Filing.{sources, delete_request-file}
use hylafaxplus.Faxq.Order.{All, Ordered, by_run, by_tts, ctrl_job_done-place, set_sleep-Ordered}

abbrev control_info : JobControlInfo
control_info = record {
  priority = none;
  notify = none;
  max_concurrent_calls = 1;
  max_dials = 12;
  max_tries = 3;
  max_send_pages = 99;
  reject_notice = false;
}

-- At noon, with modem 1; destinations are their numbers, and job 9's file cannot be renamed.
abbrev env : Env
env = record {
  now = 43200;
  random = 17;
  requeue_interval = 300;
  canonicalize = λ n. some n;
  modem_known = λ m. m == 1;
  default_jci = control_info;
  control = λ j. no_command;
  cover_template = false;
  cover_name = λ j. j;
  base_name = λ n. n + 100;
  rename_done = λ j. not (j == 9);
  batching = λ d. false;
  max_batch_jobs = 64;
  share_failure = λ c. false;
}

abbrev request : FaxRequest
request = record {
  state = state_pending;
  status = send_retry;
  errorcode = other_error;
  notice = no_notice;
  number = 5551234;
  canonical = 0;
  external = none;
  modem = 1;
  commid = 0;
  pri = 127;
  tts = 0;
  killtime = 50000;
  retrytime = 0;
  notify = 0;
  pagewidth = 209;
  totpages = 2;
  npages = 0;
  totdials = 0;
  maxdials = 12;
  tottries = 0;
  maxtries = 3;
  useccover = false;
  serverdocover = false;
  skippedpages = 0;
  skippages = 0;
  cover = none;
  pagehandling = none;
  items =
      record { op = send_data_saved; item = 4 }
      ∷ record { op = send_fax; item = 5 }
      ∷ record { op = send_tiff; item = 6 }
      ∷ [];
}

abbrev job_at : ℕ → ℕ → Option QueueId → Job
job_at pri tts link = record {
  tts = tts;
  killtime = 50000;
  start = 0;
  pri = pri;
  state = state_sleeping;
  suspend_pending = false;
  in_doneq = false;
  dest = 5551234;
  commid = 0;
  modem = none;
  bprev = none;
  bnext = none;
  jci = control_info;
  link = link;
  tts_timer = none;
  kill_timer = some 50000;
}

-- A server with the given jobs and lists; the file of each job is there.
abbrev server : (ℕ → Job) → (ℕ → Bool) → (QueueId → List ℕ) → Server
server job registered queue = record {
  job = job;
  registered = registered;
  queue = queue;
  dests = λ d. fresh;
  file = λ j. good request;
  doneq = λ j. absent;
  modem_state = λ m. down;
  num_proxy_jobs = 0;
  poked = false;
  faulted = false;
  relinked = false;
  effects = [];
}

abbrev empty : Server
empty = server (λ j. job_at 127 0 none) (λ j. false) (λ q. [])

empty-WellLinked : WellLinked empty
empty-WellLinked = record {
  at = λ q j. refl;
  same = λ j. refl;
  free = λ j h. refl;
  batch = λ j n h. ground arith;
  sound = refl;
}

-- Jobs 1 and 2 wait to be run, 3 sleeps, and 4 is on no list.
abbrev busy_jobs : ℕ → Job
busy_jobs j =
    if j == 1
    then job_at 120 10 (some (runq 7))
    else if j == 2
    then job_at 127 30 (some (runq 7))
    else if j == 3
    then job_at 127 60000 (some sleepq)
    else job_at 127 20 none

abbrev busy_queues : QueueId → List ℕ
busy_queues q =
    ite (QueueId-discrete q (runq 7)) (1 ∷ 2 ∷ []) (ite (QueueId-discrete q sleepq) (3 ∷ []) [])

abbrev known : ℕ → Bool
known j = j == 1 || j == 2 || j == 3 || j == 4

abbrev working : Server
working = server busy_jobs known busy_queues

working-WellLinked : WellLinked working
working-WellLinked = record {
  at = λ q j. ground arith;
  same = λ j. refl;
  free = λ j h. ground arith;
  batch = λ j n h. ground arith;
  sound = refl;
}

-- Jobs 3 and 4 wait for their destination.
abbrev crowded : Server
crowded =
    server
      (λ j.
        if j == 3 || j == 4 then job_at 127 20 (some (blockedq 5551234)) else job_at 127 20 none)
      known (λ q. ite (QueueId-discrete q (blockedq 5551234)) (3 ∷ 4 ∷ []) [])

crowded-Linked : Linked known crowded
crowded-Linked = record {
  at = λ q j. ground arith;
  same = λ j. refl;
  free = λ j h. ground arith;
  batch = λ j n h. ground arith;
  sound = refl;
}

Reach-WellLinked_example : WellLinked (submit_by_id env 7 false true empty).1
Reach-WellLinked_example =
    Reach-WellLinked empty (submit_by_id env 7 false true empty).1 empty-WellLinked
      (step empty (submit_by_id env 7 false true empty).1 begin (submits env 7 false true empty))

submit_new-placed_example :
    (q : QueueId) × ((p : QueueId)
      → count 7 ((submit_new env 7 request false working).1.queue p) ≡ on p (some q))
    × (((submit_new env 7 request false working).0 ≡ true)
        ⊎ (((submit_new env 7 request false working).0 ≡ false) × (q ≡ deadq)))
submit_new-placed_example = submit_new-placed env 7 request false working refl working-WellLinked

set_dead_lem_example :
    ((q : QueueId) → count 3 ((set_dead 3 working).queue q) ≡ on q (some deadq))
    × (((set_dead 3 working).job 3).state ≡ dead_state (working.job 3).state)
    × (((set_dead 3 working).job 3).suspend_pending ≡ false)
    × (((set_dead 3 working).job 3).tts_timer ≡ none)
    × ((set_dead 3 working).poked ≡ true)
set_dead_lem_example = set_dead_lem known 3 working refl working-WellLinked

ctrl_job_done-place_example :
    (front back : List ℕ) × (working.queue (runq 7) ≡ front ++ back)
    × ((ctrl_job_done 4 working).queue (runq 7) ≡ front ++ 4 ∷ back)
    × All (λ i. by_run working.job i 4) front
    × All (λ i. not (by_run working.job i 4)) back
    × Ordered (by_run working.job) ((ctrl_job_done 4 working).queue (runq 7))
unfolding QueueId-discrete ℕ_discrete
ctrl_job_done-place_example = ctrl_job_done-place 4 working refl ((refl, tt), (tt, tt))

set_sleep-Ordered_example :
    (front back : List ℕ) × (working.queue sleepq ≡ front ++ back)
    × ((set_sleep 4 50000 working).queue sleepq ≡ front ++ 4 ∷ back)
    × Ordered (by_tts (set_sleep 4 50000 working).job) ((set_sleep 4 50000 working).queue sleepq)
unfolding QueueId-discrete
set_sleep-Ordered_example = set_sleep-Ordered 4 50000 working working-WellLinked refl (tt, tt)

delete_request-file_example :
    ((delete_request env 3 request removed true working).file 3 ≡ absent)
    × (((env.rename_done 3 ≡ true)
          × (q : FaxRequest) × ((delete_request env 3 request removed true working).doneq 3
              ≡ good q)
          × (((delete_request env 3 request removed true working).job 3).in_doneq ≡ true)
          × (q.state ≡ final_state removed)
          × (q.tts ≡ env.now)
          × (q.items ≡ sources env.base_name request.items))
        ⊎ ((env.rename_done 3 ≡ false)
            × ((delete_request env 3 request removed true working).doneq ≡ working.doneq)))
delete_request-file_example = delete_request-file env 3 request removed true working refl

abbrev read_back : FaxRequest
read_back = record request { external = some 5551234 }

-- Job 2 was sent alone.
alone : count 4 (batch_chain 64 (settled env 2 false read_back crowded) 2) ≡ 0
unfolding QueueId-discrete ℕ_discrete batch_chain end_call modify_dest release_if_held
    settle_blocked delay_blocked next_blocked next_blocked_of delay_next delay_blocked_one
    read_request usable delay_job set_state set_tts update_request write_file set_sleep insert_in
    start_tts_timer post emit notify_requeued notify_sender remove unlink_from set_bnext set_bprev
    modify discount_blocked is_notify erase
alone = refl

send_job_done-asleep_example :
    ((settled env 2 false read_back crowded).queue (blockedq (crowded.job 2).dest) ≡ [])
    × ((p : QueueId) → count 4 ((send_job_done env 2 false crowded).queue p) ≡ on p (some sleepq))
    × (((send_job_done env 2 false crowded).job 4).tts ≡ read_back.tts)
    × (((send_job_done env 2 false crowded).job 4).state ≡ state_sleeping)
unfolding read_request usable
send_job_done-asleep_example =
    send_job_done-asleep known env 2 false read_back crowded refl crowded-Linked refl refl 4
      read_back refl refl alone

terminate_job-ends_example :
    (t : Server) × (terminate_job env 3 removed [] working ≡ some (true, t))
    × ((t.job 3).state ≡ state_failed)
    × ((q : QueueId) → count 3 (t.queue q) ≡ on q (some deadq))
terminate_job-ends_example =
    terminate_job-ends env 3 removed [] working refl refl refl working-WellLinked

-- A server that allows calls at any time and has no proxy.
abbrev limits : Limits
limits = record {
  stagger_calls = 0;
  last_call = 0;
  max_proxy_jobs = 0;
  proxy = λ j. false;
  next_send = λ j. 43200;
  next_tod = λ j. 43200;
}

consider-place_example :
    (count 2 ((consider env limits 2 working).1.queue (runq 7))
      ≡ on
          (runq 7)
          (meant (consider env limits 2 working).0 (working.job 2).dest (working.job 2).link))
    × IsGrounded env limits 2 working (read_request 2 working) (consider env limits 2 working).0
consider-place_example = consider-place known env limits 2 working refl working-WellLinked (runq 7)

-- Job 2 passes every check.
may_have_modem : (consider env limits 2 working).0 ≡ for_modem
unfolding QueueId-discrete ℕ_discrete consider consider_read read_request usable post emit verdict
    refusal clamp_tts set_tts modify is_held is_ok_to_call fresh when_free is_staggered
may_have_modem = refl

start_job-calls_example :
    let di = (start_job 1 request 2 (consider env limits 2 working).1).dests (working.job 2).dest in
    (di.call_count ≡ (working.dests (working.job 2).dest).call_count + 1)
    × (di.call_count ≤ (working.job 2).jci.max_concurrent_calls)
start_job-calls_example =
    start_job-calls env limits 1 request 2 working may_have_modem (ground arith) (ground arith)

-- A destination that job 2 is being sent to.
abbrev called : DestInfo
called = record {
  active_count = 1;
  blocked_count = 0;
  call_count = 1;
  running = 2 ∷ [];
  pending_connection = false;
}

done_job-active_example :
    ((active 3 called).active_count ≡ length (active 3 called).running)
    × (done_job 3 (active 3 called) ≡ called)
done_job-active_example = done_job-active 3 called refl (omega arith) refl
