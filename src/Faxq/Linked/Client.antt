-- ===== src/Faxq/Linked/Client.antt =====
-- The links under what clients ask for: submit, suspend, terminate (faxd/faxQueueApp.c++).
use hylafaxplus.Prelude.{
  ℕ, Bool, true, false, not, Option, none, some, if◌then◌else◌, case_option, ◌▷◌, ◌≡◌, refl, ltb,
  leb, ◌-◌,
}
use hylafaxplus.Faxq.State.{
  JobState, state_suspended, state_done, state_failed, JobStatus, Notice, not_canonical,
  not_registered, no_work, page_width, killtime_invalid, tts_invalid, FaxRequest, job_kill, aborted,
  Server, Env, modify, one_year,
}
use hylafaxplus.Faxq.Link.{Linked, Off, modify-Linked, remove-Linked, remove_if_on_list-Linked}
use hylafaxplus.Faxq.Request.{read_request}
use hylafaxplus.Faxq.Place.{set_suspend}
use hylafaxplus.Faxq.Delay.{update_if_read}
use hylafaxplus.Faxq.Submit.{
  update_job, reject, schedule, schedule_by_state, no_items, submit_checked, set_dest, submit_job,
  resubmit, is_final,
}
use hylafaxplus.Faxq.Suspend.{
  detach, mark_pending, signal_job, after_wait, finish_suspend, finish_terminate,
}
use hylafaxplus.Faxq.Linked.Off.{remove-Off, set_dest-Off, update_job-Off, off_rules}
use hylafaxplus.Faxq.Linked.Place.{
  if-Linked, emit-Linked, poke_scheduler-Linked, post-Linked, set_state-Linked,
  update_request-Linked, remove_dest_info_job-Linked, set_ready_to_run-Linked, set_sleep-Linked,
  set_suspend-Linked, set_dead-Linked, start_kill_timer-Linked, stop_kill_timer-Linked,
  stop_tts_timer-Linked,
}
use hylafaxplus.Faxq.Linked.Jobs.{
  delete_if_read-Linked, update_if_read-Linked, reject_submission-Linked, timeout_submission-Linked,
}
use hylafaxplus.Faxq.Linked.Blocked.{unblock-Linked}

-- The server behind the answer to a client is linked.
pub record After (reg : ℕ → Bool) (t : Bool × Server) : Type 0 where
  pub linked : Linked reg t.1

pub after : {reg : ℕ → Bool} {s : Server} (answer : Bool) → Linked reg s → After reg (answer, s)
after answer l = record { linked = l }

if-After :
    {reg : ℕ → Bool} {x y : Bool × Server} (b : Bool)
    → After reg x
    → After reg y
    → After reg (if b then x else y)
if-After true l m = l
if-After false l m = m

case_option-After {ℓ} :
    {reg : ℕ → Bool} {A : Type ℓ} {x : Bool × Server} {f : A → Bool × Server} (o : Option A)
    → After reg x
    → ((a : A) → After reg (f a))
    → After reg (case_option o x f)
case_option-After none l m = l
case_option-After (some a) l m = m a

module _ {reg : ℕ → Bool} (e : Env) (j : ℕ) (h : reg j ≡ true) where
  ruleset client_rules = (
    set_state-Linked, post-Linked, update_request-Linked, set_sleep-Linked, set_dead-Linked,
    set_suspend-Linked, set_ready_to_run-Linked, poke_scheduler-Linked, start_kill_timer-Linked,
    stop_kill_timer-Linked, stop_tts_timer-Linked, remove_dest_info_job-Linked,
    remove_if_on_list-Linked, delete_if_read-Linked, update_if_read-Linked, unblock-Linked,
  )

  reject-Linked :
      (r : FaxRequest) (mesg : Notice) (s : Server) → Linked reg s → After reg (reject e j r mesg s)
  unfolding reject
  reject-Linked r mesg s l = after false (reject_submission-Linked e j r mesg s h l)

  schedule-Linked :
      (r : FaxRequest) (s : Server) → Off j s → Linked reg s → After reg (schedule e j r s)
  unfolding schedule
  schedule-Linked r s o l =
      if-After (ltb e.now r.tts)
        (if-After (ltb one_year (r.tts - e.now)) (reject-Linked _ (tts_invalid r.tts) s l)
          (after true (search (client_rules, off_rules) depth 8)))
        (after true (search (client_rules, off_rules) depth 8))

  schedule_by_state-Linked :
      (r : FaxRequest) (st : JobState) (s : Server)
      → Off j s
      → Linked reg s
      → After reg (schedule_by_state e j r st s)
  unfolding schedule_by_state
  schedule_by_state-Linked r state_suspended s o l = after true (set_suspend-Linked j s h o l)
  schedule_by_state-Linked r state_done s o l = after true (set_dead-Linked j s h l)
  schedule_by_state-Linked r state_failed s o l = after true (set_dead-Linked j s h l)
  schedule_by_state-Linked r _ s o l = schedule-Linked r s o l

  submit_checked-Linked :
      (r : FaxRequest) (check : Bool) (s : Server)
      → Off j s
      → Linked reg s
      → After reg (submit_checked e j r check s)
  unfolding submit_checked
  submit_checked-Linked r check s o l =
      if-After (leb r.killtime e.now) (after false (timeout_submission-Linked e j r s h l)) (
        if-After (not (e.modem_known r.modem)) (reject-Linked r not_registered s l) (
          if-After (no_items r) (reject-Linked r no_work s l) (
            if-After (ltb 303 r.pagewidth) (reject-Linked r (page_width r.pagewidth) s l) (
              if-After (ltb one_year (r.killtime - e.now))
                (reject-Linked r (killtime_invalid r.killtime) s l)
                (if-After check (schedule_by_state-Linked r r.state s o l)
                  (schedule-Linked r s o l))))))

  set_dest-Linked : (d : ℕ) (s : Server) → Linked reg s → Linked reg (set_dest d j s)
  unfolding set_dest
  set_dest-Linked d s l = modify-Linked j _ s (λ b. (refl, refl)) l

  pub submit_job-Linked :
      (r : FaxRequest) (check : Bool) (s : Server)
      → Off j s
      → Linked reg s
      → After reg (submit_job e j r check s)
  unfolding submit_job
  submit_job-Linked r check s o l =
      case_option-After (e.canonicalize r.number)
        (reject-Linked _ not_canonical _ (set_dest-Linked 0 s l))
        (λ d. submit_checked-Linked _ check _ (set_dest-Off d j s o) (set_dest-Linked d s l))

  pub resubmit-Linked : (st : JobState) (s : Server) → Linked reg s → After reg (resubmit e j st s)
  unfolding resubmit
  resubmit-Linked state_suspended s l =
      let l' = remove-Linked j s l in
      case_option-After (read_request j _) (after false (set_dead-Linked j _ h l'))
        (λ r. submit_job-Linked r false _ (update_job-Off e r j _ (remove-Off j s)) (again r _ l'))
    where
      again :
          (r : FaxRequest) (t : Server) → Linked reg t → Linked reg (modify j (update_job e r) t)
      again r t l' = modify-Linked j _ t (unfold update_job in λ b. (refl, refl)) l'
  resubmit-Linked state_done s l = after false l
  resubmit-Linked state_failed s l = after false l
  resubmit-Linked _ s l = after true l

  pub detach-Linked : (s : Server) → Linked reg s → Linked reg (detach j s)
  unfolding detach
  detach-Linked s l = search client_rules

  pub signal_job-Linked :
      (abort : Bool) (s : Server) → Linked reg s → Linked reg (signal_job j abort s)
  unfolding signal_job mark_pending
  signal_job-Linked abort s l =
      let l' = modify-Linked j _ s (λ b. (refl, refl)) l in
      stop_kill_timer-Linked j _ (if-Linked abort (emit-Linked _ _ l') l')

  pub after_wait-Linked : (s : Server) → Linked reg s → After reg (after_wait j s)
  unfolding after_wait
  after_wait-Linked s l =
      if-After (is_final (s.job j).state) (after false l) (after true (detach-Linked s l))

  pub finish_suspend-Linked :
      (r : Bool × Server) → (r.0 ≡ true → Off j r.1) → After reg r → After reg (finish_suspend j r)
  unfolding finish_suspend
  finish_suspend-Linked (false, s) o l = l
  finish_suspend-Linked (true, s) o l = after true (follow s (o refl) l.linked)
    where
      follow :
          (s : Server) → Off j s → Linked reg s → Linked reg (s ▷ set_suspend j ▷ update_if_read j)
      follow s o l = search (client_rules, off_rules)

  pub finish_terminate-Linked :
      (why : JobStatus) (r : Bool × Server) → After reg r → After reg (finish_terminate e j why r)
  unfolding finish_terminate
  finish_terminate-Linked why (false, s) l = l
  finish_terminate-Linked why (true, s) l = after true (
      set_dead-Linked j _ h (
        delete_if_read-Linked e j aborted why _ _
          (post-Linked job_kill j _ (set_state-Linked state_failed j s l.linked))))
