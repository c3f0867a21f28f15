-- ===== src/Faxq/Suspend.antt =====
-- Suspending and terminating a job (faxd/faxQueueApp.c++: both functions suspendJob, terminateJob),
-- and the events that the dispatcher handles while suspendJob waits for a subprocess to end.
use hylafaxplus.Prelude.{
  ℕ, Bool, true, false, not, Option, none, some, List, [], ◌∷◌, if◌then◌else◌, case_option, ◌▷◌,
}
use hylafaxplus.Faxq.State.{
  JobState, state_pending, state_sleeping, state_blocked, state_active, state_done, state_failed,
  JobStatus, removed, aborted, job_kill, terminated, Server, Env, modify, emit,
}
use hylafaxplus.Faxq.Link.{remove_if_on_list}
use hylafaxplus.Faxq.Dest.{unblock}
use hylafaxplus.Faxq.Place.{
  post, set_state, set_suspend, set_dead, remove_dest_info_job, stop_tts_timer, stop_kill_timer,
}
use hylafaxplus.Faxq.Delay.{timeout_job, run_job, delete_if_read, update_if_read}
use hylafaxplus.Faxq.Submit.{is_final}
use hylafaxplus.Faxq.SendDone.{send_job_done}

-- A child of the server ends a send, or a timer goes off.
pub data Event : Type 0 where
  send_ended : ℕ → Bool → Event
  tts_expired kill_expired : ℕ → Event

unfoldable pub handle : Env → Event → Server → Server
handle e (send_ended j proxied) s = send_job_done e j proxied s
handle e (tts_expired j) s = s ▷ stop_tts_timer j ▷ run_job e j
handle e (kill_expired j) s = s ▷ stop_kill_timer j ▷ timeout_job e j

-- while (job.suspendPending) Dispatcher::instance().dispatch(); none: the events end before the wait.
unfoldable pub wait_for : Env → ℕ → List Event → Server → Option Server
wait_for e j [] s = if (s.job j).suspend_pending then none else some s
wait_for e j (x ∷ xs) s =
    let rest = wait_for e j xs (handle e x s) in if (s.job j).suspend_pending then rest else some s

-- The end of suspendJob: the job leaves its destination and its queue.
unfoldable pub detach : ℕ → Server → Server
detach j s = s ▷ remove_dest_info_job j ▷ remove_if_on_list j ▷ stop_kill_timer j

unfoldable pub mark_pending : ℕ → Server → Server
mark_pending j s = modify j (λ b. record b { suspend_pending = true }) s

-- The subprocess of an active job is signalled, and the kill timer cannot end the job meanwhile.
unfoldable pub signal_job : ℕ → Bool → Server → Server
signal_job j abort s =
    s ▷ mark_pending j ▷ (λ t. if abort then emit (terminated j) t else t) ▷ stop_kill_timer j

-- suspendJob for an active job, from the end of the wait on.
unfoldable pub after_wait : ℕ → Server → Bool × Server
after_wait j s = if is_final (s.job j).state then (false, s) else (true, detach j s)

-- The switch of suspendJob. none: it is waiting still.
unfoldable pub suspend_in_state :
    Env → ℕ → Bool → List Event → JobState → Server → Option (Bool × Server)
suspend_in_state e j abort events state_active s =
    case_option (wait_for e j events (signal_job j abort s)) none (λ t. some (after_wait j t))
suspend_in_state e j abort events state_done s = some (false, s)
suspend_in_state e j abort events state_failed s = some (false, s)
suspend_in_state e j abort events state_sleeping s = some (true, s ▷ stop_tts_timer j ▷ detach j)
suspend_in_state e j abort events state_pending s = some (true, s ▷ stop_tts_timer j ▷ detach j)
suspend_in_state e j abort events state_blocked s =
    some (true, s ▷ unblock (s.job j).dest j ▷ detach j)
suspend_in_state e j abort events _ s = some (true, detach j s)

-- faxQueueApp::suspendJob(Job&, bool)
unfoldable pub suspend_job : Env → ℕ → Bool → List Event → Server → Option (Bool × Server)
suspend_job e j abort events s =
    if (s.job j).suspend_pending
    then some (false, s)
    else suspend_in_state e j abort events (s.job j).state s

unfoldable pub finish_suspend : ℕ → Bool × Server → Bool × Server
finish_suspend j (false, s) = (false, s)
finish_suspend j (true, s) = (true, s ▷ set_suspend j ▷ update_if_read j)

-- faxQueueApp::suspendJob(const fxStr&, bool)
unfoldable pub suspend_by_id : Env → ℕ → Bool → List Event → Server → Option (Bool × Server)
suspend_by_id e j abort events s =
    if s.registered j
    then case_option (suspend_job e j abort events s) none (λ r. some (finish_suspend j r))
    else some (false, s)

abbrev pub is_removed : JobStatus → Bool
is_removed removed = true
is_removed _ = false

unfoldable pub finish_terminate : Env → ℕ → JobStatus → Bool × Server → Bool × Server
finish_terminate e j why (false, s) = (false, s)
finish_terminate e j why (true, s) = (
  true,
  s
      ▷ set_state state_failed j
      ▷ post job_kill j
      ▷ delete_if_read e j aborted why (not (is_removed why))
      ▷ set_dead j,
)

-- faxQueueApp::terminateJob
unfoldable pub terminate_job : Env → ℕ → JobStatus → List Event → Server → Option (Bool × Server)
terminate_job e j why events s =
    if s.registered j
    then case_option (suspend_job e j true events s) none (λ r. some (finish_terminate e j why r))
    else some (false, s)
