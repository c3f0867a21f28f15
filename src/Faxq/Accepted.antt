-- ===== src/Faxq/Accepted.antt =====
-- Where a submission puts its job (the functions submitJob of faxd/faxQueueApp.c++).
use hylafaxplus.Prelude.{
  ℕ, Bool, true, false, not, none, some, ltb, leb, ◌-◌, if◌then◌else◌, ◌▷◌, ◌≡◌, refl, ap, ◌∙◌,
  arith, count, Option-cases, ◌⊎◌, inl, inr,
}
use hylafaxplus.Faxq.State.{
  JobState, state_suspended, state_done, state_failed, state_pending, Notice, FaxRequest, QueueId,
  deadq, suspendq, sleepq, runq, job_hash, job_create, Server, ControlRun, no_command, no_child,
  ran, Env, one_year, modify, emit, poke_scheduler,
}
use hylafaxplus.Faxq.Link.{on, Linked}
use hylafaxplus.Faxq.Request.{update_request, write_file}
use hylafaxplus.Faxq.Place.{
  post, set_state, ctrl_job_done, ready_after, set_ready_to_run, set_sleep, set_suspend,
  start_tts_timer, start_kill_timer,
}
use hylafaxplus.Faxq.Delay.{reject_submission, timeout_submission}
use hylafaxplus.Faxq.Submit.{
  update_job, new_job, create_job, reject, schedule, schedule_by_state, no_items, submit_checked,
  set_dest, submit_job, submit_new,
}
use hylafaxplus.Faxq.Runs.{submit_new-Linked}
use hylafaxplus.Faxq.Dead.{insert_in-link, set_dead-view}

-- The job stands on a list that the answer allows: the dead list, or after `true` any.
record Placed (j : ℕ) (r : Bool × Server) : Type 0 where
  place : QueueId
  link : (r.1.job j).link ≡ some place
  answer : (r.0 ≡ true) ⊎ ((r.0 ≡ false) × (place ≡ deadq))

module _ (j : ℕ) where
  accepted : (t : Server) (q : QueueId) → (t.job j).link ≡ some q → Placed j (true, t)
  accepted t q h = record { place = q; link = h; answer = inl refl }

  refused : (t : Server) → (t.job j).link ≡ some deadq → Placed j (false, t)
  refused t h = record { place = deadq; link = h; answer = inr (refl, refl) }

  if-Placed :
      {x y : Bool × Server} (b : Bool) → Placed j x → Placed j y → Placed j (if b then x else y)
  if-Placed true h k = h
  if-Placed false h k = k

  pub update_request-link :
      (r : FaxRequest) (s : Server) → ((update_request j r s).job j).link ≡ (s.job j).link
  unfolding update_request write_file
  update_request-link r s = ground arith

  ctrl_job_done-link :
      (s : Server)
      → (s.job j).link ≡ none
      → ((ctrl_job_done j s).job j).link ≡ some (runq (job_hash (s.job j).pri))
  unfolding ctrl_job_done set_state post modify emit
  ctrl_job_done-link s h = insert_in-link j _ _ _ (ground arith)

  ready_after-link :
      (c : ControlRun) (s : Server)
      → (s.job j).link ≡ none
      → (h : ℕ) × (((ready_after c j s).job j).link ≡ some (runq h))
  unfolding ready_after modify
  ready_after-link no_command s h = (_, ctrl_job_done-link s h)
  ready_after-link no_child s h = (_, ctrl_job_done-link s h)
  ready_after-link (ran jci status) s h = (_, ctrl_job_done-link _ (ground arith))

  set_ready_to_run-link :
      (e : Env) (s : Server)
      → (s.job j).link ≡ none
      → (h : ℕ) × (((set_ready_to_run e j s).job j).link ≡ some (runq h))
  unfolding set_ready_to_run
  set_ready_to_run-link e s h = ready_after-link (e.control j) s h

  pub set_sleep-link :
      (tts : ℕ) (s : Server)
      → (s.job j).link ≡ none
      → ((set_sleep j tts s).job j).link ≡ some sleepq
  unfolding set_sleep start_tts_timer post modify emit
  set_sleep-link tts s h = ground (arith, insert_in-link j sleepq (λ i. leb (s.job i).tts tts) s h)

  set_suspend-link :
      (s : Server) → (s.job j).link ≡ none → ((set_suspend j s).job j).link ≡ some suspendq
  unfolding set_suspend set_state post modify emit
  set_suspend-link s h = insert_in-link j suspendq _ _ (ground arith)

  start_kill_timer-link :
      (t : ℕ) (s : Server) → ((start_kill_timer t j s).job j).link ≡ (s.job j).link
  unfolding start_kill_timer modify
  start_kill_timer-link t s = ground arith

  pub set_state-link :
      (st : JobState) (s : Server) → ((set_state st j s).job j).link ≡ (s.job j).link
  unfolding set_state modify
  set_state-link st s = ground arith

  module _ (e : Env) (r : FaxRequest) where
    reject-Placed : (r : FaxRequest) (mesg : Notice) (s : Server) → Placed j (reject e j r mesg s)
    unfolding reject reject_submission
    reject-Placed r mesg s = refused _ (set_dead-view j _).1

    timeout-Placed : (s : Server) → Placed j (false, timeout_submission e j r s)
    unfolding timeout_submission
    timeout-Placed s = refused _ (set_dead-view j _).1

    schedule-Placed : (s : Server) → (s.job j).link ≡ none → Placed j (schedule e j r s)
    unfolding schedule poke_scheduler
    schedule-Placed s h =
        if-Placed (ltb e.now r.tts)
          (if-Placed (ltb one_year (r.tts - e.now)) (reject-Placed _ _ s) (
            accepted _ sleepq (
              update_request-link _ _
              ∙ set_sleep-link _ _
                  (set_state-link state_pending _ ∙ start_kill_timer-link r.killtime s ∙ h))))
          (let (q, k) = set_ready_to_run-link e _ (start_kill_timer-link r.killtime s ∙ h) in
            accepted _ (runq q) (update_request-link _ _ ∙ k))

    schedule_by_state-Placed :
        (st : JobState) (s : Server)
        → (s.job j).link ≡ none
        → Placed j (schedule_by_state e j r st s)
    unfolding schedule_by_state
    schedule_by_state-Placed state_suspended s h = accepted _ suspendq (set_suspend-link s h)
    schedule_by_state-Placed state_done s h = accepted _ deadq (set_dead-view j s).1
    schedule_by_state-Placed state_failed s h = accepted _ deadq (set_dead-view j s).1
    schedule_by_state-Placed _ s h = schedule-Placed s h

    submit_checked-Placed :
        (check : Bool) (s : Server)
        → (s.job j).link ≡ none
        → Placed j (submit_checked e j r check s)
    unfolding submit_checked
    submit_checked-Placed check s h = if-Placed (leb r.killtime e.now) (timeout-Placed s) (
        if-Placed (not (e.modem_known r.modem)) (reject-Placed _ _ s) (
          if-Placed (no_items r) (reject-Placed _ _ s) (
            if-Placed (ltb 303 r.pagewidth) (reject-Placed _ _ s) (
              if-Placed (ltb one_year (r.killtime - e.now)) (reject-Placed _ _ s)
                (if-Placed check (schedule_by_state-Placed r.state s h) (schedule-Placed s h))))))

  set_dest-link : (d : ℕ) (s : Server) → ((set_dest d j s).job j).link ≡ (s.job j).link
  unfolding set_dest modify
  set_dest-link d s = ground arith

  submit_job-Placed :
      (e : Env) (r : FaxRequest) (check : Bool) (s : Server)
      → (s.job j).link ≡ none
      → Placed j (submit_job e j r check s)
  unfolding submit_job
  submit_job-Placed e r check s h = elim (Option-cases (e.canonicalize r.number)) [
    | inl unknown ↦ rw unknown (reject-Placed e r _ _ _)
    | inr (d, known) ↦
        rw known (submit_checked-Placed e _ check (set_dest d j s) (set_dest-link d s ∙ h))
  ]

  new_job-link :
      (e : Env) (r : FaxRequest) (s : Server)
      → ((s ▷ create_job e j r ▷ post job_create j).job j).link ≡ none
  unfolding create_job new_job update_job post emit
  new_job-link e r s = ground arith

-- For a server with intact links, a job that it does not know and any request: once the submission
-- returns, the job is once on some list and on no other; and if the answer is that it was refused,
-- that is the dead list.
pub submit_new-placed :
    (e : Env) (j : ℕ) (r : FaxRequest) (check : Bool) (s : Server)
    → s.registered j ≡ false
    → Linked s.registered s
    → (q : QueueId) × ((p : QueueId)
        → count j ((submit_new e j r check s).1.queue p) ≡ on p (some q))
      × (((submit_new e j r check s).0 ≡ true)
          ⊎ (((submit_new e j r check s).0 ≡ false) × (q ≡ deadq)))
submit_new-placed e j r check s h l =
    let there : Placed j (submit_new e j r check s) =
      unfold submit_new in submit_job-Placed j e r check _ (new_job-link j e r s) in
    let l' = submit_new-Linked e j r check s h l in
    (there.place, λ p. l'.at p j ∙ ap (on p) there.link, there.answer)
