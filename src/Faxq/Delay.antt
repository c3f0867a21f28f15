-- ===== src/Faxq/Delay.antt =====
-- Delaying, blocking and rejecting a job, and its timeouts (faxd/faxQueueApp.c++: delayJob,
-- blockJob, rejectJob, both functions timeoutJob, runJob, rejectSubmission).
use hylafaxplus.Prelude.{ℕ, Bool, true, false, if◌then◌else◌, case_option, ◌▷◌}
use hylafaxplus.Faxq.State.{
  JobState, state_blocked, state_sleeping, state_active, state_failed, send_failed, JobStatus,
  requeued, blocked, timedout, rejected, Notice, killtime_expired, FaxRequest, job_blocked,
  job_delayed, job_timedout, job_reject, Server, Env, modify, poke_scheduler,
}
use hylafaxplus.Faxq.Link.{remove_if_on_list}
use hylafaxplus.Faxq.Request.{
  is_notify, when_requeued, read_request, update_request, notify_sender, delete_request,
  delete_request_ptr,
}
use hylafaxplus.Faxq.Place.{post, set_state, release_if_held, set_ready_to_run, set_sleep, set_dead}

abbrev pub is_blocked : JobState → Bool
is_blocked state_blocked = true
is_blocked _ = false

abbrev pub is_active_state : JobState → Bool
is_active_state state_active = true
is_active_state _ = false

abbrev pub is_failed : JobState → Bool
is_failed state_failed = true
is_failed _ = false

-- notifySender, if requeues are to be reported
unfoldable pub notify_requeued : ℕ → FaxRequest → JobStatus → Server → Server
notify_requeued j r why s = if is_notify when_requeued (s.job j) r then notify_sender j why s else s

unfoldable pub set_tts : ℕ → ℕ → Server → Server
set_tts tts j s = modify j (λ b. record b { tts = tts }) s

-- faxQueueApp::delayJob
unfoldable pub delay_job : ℕ → FaxRequest → Notice → ℕ → Server → Server
delay_job j r mesg tts s =
    s
    ▷ set_state state_sleeping j
    ▷ set_tts tts j
    ▷ update_request j (record r { tts = tts; notice = mesg })
    ▷ set_sleep j tts
    ▷ post job_delayed j
    ▷ notify_requeued j r requeued
    ▷ release_if_held j

-- faxQueueApp::blockJob
unfoldable pub block_job : ℕ → FaxRequest → Notice → Server → Server
block_job j r mesg s =
    s
    ▷ set_state state_blocked j
    ▷ update_request j (record r { notice = mesg })
    ▷ (λ s'. if is_blocked (s.job j).state then s' else notify_requeued j r blocked s')
    ▷ post job_blocked j

-- faxQueueApp::rejectJob; the reason goes into the request, which the caller deletes.
unfoldable pub reject_job : ℕ → Server → Server
reject_job j s = s ▷ set_state state_failed j ▷ post job_reject j ▷ set_dead j

-- faxQueueApp::rejectSubmission
unfoldable pub reject_submission : Env → ℕ → FaxRequest → Notice → Server → Server
reject_submission e j r reason s =
    s
    ▷ post job_reject j
    ▷ delete_request e j (record r { status = send_failed; notice = reason }) rejected true
    ▷ set_dead j

-- faxQueueApp::timeoutJob, for a job that times out as it is submitted.
unfoldable pub timeout_submission : Env → ℕ → FaxRequest → Server → Server
timeout_submission e j r s =
    s
    ▷ set_state state_failed j
    ▷ post job_timedout j
    ▷ delete_request e j (record r { notice = killtime_expired }) timedout true
    ▷ set_dead j

unfoldable pub delete_if_read : Env → ℕ → Notice → JobStatus → Bool → Server → Server
delete_if_read e j mesg why force s =
    case_option (read_request j s) s
      (λ r. delete_request_ptr e j (record r { notice = mesg }) why force s)

unfoldable pub mark_killed : ℕ → Server → Server
mark_killed j s = modify j (λ b. record b { killtime = 0 }) s

-- faxQueueApp::timeoutJob, when the kill timer goes off.
unfoldable pub timeout_job : Env → ℕ → Server → Server
timeout_job e j s =
    if is_active_state (s.job j).state
    then s ▷ post job_timedout j ▷ mark_killed j
    else s
      ▷ post job_timedout j
      ▷ remove_if_on_list j
      ▷ set_state state_failed j
      ▷ delete_if_read e j killtime_expired timedout true
      ▷ set_dead j

unfoldable pub update_if_read : ℕ → Server → Server
update_if_read j s = case_option (read_request j s) s (λ r. update_request j r s)

-- faxQueueApp::runJob, when the time-to-send timer goes off.
unfoldable pub run_job : Env → ℕ → Server → Server
run_job e j s = poke_scheduler (
    if is_failed (s.job j).state
    then s
    else s ▷ remove_if_on_list j ▷ set_ready_to_run e j ▷ update_if_read j)
