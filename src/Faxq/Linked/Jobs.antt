-- ===== src/Faxq/Linked/Jobs.antt =====
-- The links under the operations of Delay (faxd/faxQueueApp.c++).
use hylafaxplus.Prelude.{ℕ, Bool, true, ◌≡◌, refl}
use hylafaxplus.Faxq.State.{JobStatus, Notice, FaxRequest, Server, Env}
use hylafaxplus.Faxq.Link.{Linked, Off, modify-Linked, remove_if_on_list-Linked}
use hylafaxplus.Faxq.Delay.{
  notify_requeued, set_tts, delay_job, block_job, reject_job, reject_submission, timeout_submission,
  delete_if_read, mark_killed, timeout_job, update_if_read, run_job,
}
use hylafaxplus.Faxq.Linked.Off.{off_rules}
use hylafaxplus.Faxq.Linked.Place.{
  if-Linked, case_option-Linked, poke_scheduler-Linked, post-Linked, set_state-Linked,
  update_request-Linked, notify_sender-Linked, delete_request-Linked, delete_request_ptr-Linked,
  release_if_held-Linked, set_ready_to_run-Linked, set_sleep-Linked, set_dead-Linked,
}

module _ {reg : ℕ → Bool} where
  pub notify_requeued-Linked :
      (j : ℕ) (r : FaxRequest) (why : JobStatus) (s : Server)
      → Linked reg s
      → Linked reg (notify_requeued j r why s)
  unfolding notify_requeued
  notify_requeued-Linked j r why s l = if-Linked _ (notify_sender-Linked j why s l) l

  pub set_tts-Linked : (t j : ℕ) (s : Server) → Linked reg s → Linked reg (set_tts t j s)
  unfolding set_tts
  set_tts-Linked t j s l = modify-Linked j _ s (λ b. (refl, refl)) l

  mark_killed-Linked : (j : ℕ) (s : Server) → Linked reg s → Linked reg (mark_killed j s)
  unfolding mark_killed
  mark_killed-Linked j s l = modify-Linked j _ s (λ b. (refl, refl)) l

  pub delete_if_read-Linked :
      (e : Env) (j : ℕ) (mesg : Notice) (why : JobStatus) (force : Bool) (s : Server)
      → Linked reg s
      → Linked reg (delete_if_read e j mesg why force s)
  unfolding delete_if_read
  delete_if_read-Linked e j mesg why force s l =
      case_option-Linked _ l (λ r. delete_request_ptr-Linked e j _ why force s l)

  pub update_if_read-Linked : (j : ℕ) (s : Server) → Linked reg s → Linked reg (update_if_read j s)
  unfolding update_if_read
  update_if_read-Linked j s l = case_option-Linked _ l (λ r. update_request-Linked j r s l)

  ruleset job_rules = (
    set_state-Linked, post-Linked, update_request-Linked, set_sleep-Linked, set_dead-Linked,
    set_ready_to_run-Linked, release_if_held-Linked, poke_scheduler-Linked, delete_request-Linked,
    remove_if_on_list-Linked, if-Linked, notify_requeued-Linked, set_tts-Linked, mark_killed-Linked,
    delete_if_read-Linked, update_if_read-Linked,
  )

  pub delay_job-Linked :
      (j : ℕ) (r : FaxRequest) (mesg : Notice) (t : ℕ) (s : Server)
      → reg j ≡ true
      → Off j s
      → Linked reg s
      → Linked reg (delay_job j r mesg t s)
  unfolding delay_job
  delay_job-Linked j r mesg t s h o l = search (job_rules, off_rules) depth 12

  pub block_job-Linked :
      (j : ℕ) (r : FaxRequest) (mesg : Notice) (s : Server)
      → Linked reg s
      → Linked reg (block_job j r mesg s)
  unfolding block_job
  block_job-Linked j r mesg s l = search job_rules depth 12

  pub reject_job-Linked :
      (j : ℕ) (s : Server) → reg j ≡ true → Linked reg s → Linked reg (reject_job j s)
  unfolding reject_job
  reject_job-Linked j s h l = search job_rules

  pub reject_submission-Linked :
      (e : Env) (j : ℕ) (r : FaxRequest) (mesg : Notice) (s : Server)
      → reg j ≡ true
      → Linked reg s
      → Linked reg (reject_submission e j r mesg s)
  unfolding reject_submission
  reject_submission-Linked e j r mesg s h l = search job_rules

  pub timeout_submission-Linked :
      (e : Env) (j : ℕ) (r : FaxRequest) (s : Server)
      → reg j ≡ true
      → Linked reg s
      → Linked reg (timeout_submission e j r s)
  unfolding timeout_submission
  timeout_submission-Linked e j r s h l = search job_rules

  pub timeout_job-Linked :
      (e : Env) (j : ℕ) (s : Server) → reg j ≡ true → Linked reg s → Linked reg (timeout_job e j s)
  unfolding timeout_job
  timeout_job-Linked e j s h l = search job_rules depth 8

  pub run_job-Linked :
      (e : Env) (j : ℕ) (s : Server) → reg j ≡ true → Linked reg s → Linked reg (run_job e j s)
  unfolding run_job
  run_job-Linked e j s h l = search (job_rules, off_rules) depth 8
