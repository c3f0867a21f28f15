-- ===== src/Faxq/Ended.antt =====
-- What terminating a job that no subprocess works on comes to (terminateJob of
-- faxd/faxQueueApp.c++).
use hylafaxplus.Prelude.{
  ℕ, Bool, true, false, not, some, List, ◌▷◌, ◌≡◌, refl, ap, ◌∙◌, arith, count, Option-cases, inl,
  inr,
}
use hylafaxplus.Faxq.State.{
  JobState, state_active, state_done, state_failed, state_sleeping, state_pending, state_blocked,
  Notice, FaxRequest, JobStatus, aborted, job_kill, QueueId, deadq, Server, Env, modify, emit,
}
use hylafaxplus.Faxq.Link.{on, Linked}
use hylafaxplus.Faxq.Request.{
  read_request, notify_sender, tell, move_to_doneq, purge_file, delete_request, delete_request_ptr,
}
use hylafaxplus.Faxq.Place.{post, set_state, dead_state}
use hylafaxplus.Faxq.Delay.{delete_if_read}
use hylafaxplus.Faxq.Suspend.{
  Event, suspend_in_state, suspend_job, finish_terminate, terminate_job, is_removed,
}
use hylafaxplus.Faxq.Dead.{set_dead-view}
use hylafaxplus.Faxq.Linked.Client.{after, detach-Linked, finish_terminate-Linked}
use hylafaxplus.Faxq.Linked.Place.{stop_tts_timer-Linked}
use hylafaxplus.Faxq.Linked.Blocked.{unblock-Linked}

-- No subprocess works on the job, and it is not finished.
abbrev pub is_idle : JobState → Bool
is_idle state_active = false
is_idle state_done = false
is_idle state_failed = false
is_idle _ = true

module _ {reg : ℕ → Bool} (e : Env) (j : ℕ) (h : reg j ≡ true) (events : List Event) where
  suspend_in_state-idle :
      (st : JobState) (s : Server)
      → is_idle st ≡ true
      → Linked reg s
      → (t : Server) × (suspend_in_state e j true events st s ≡ some (true, t)) × Linked reg t
  unfolding suspend_in_state
  suspend_in_state-idle state_active s idle l = absurd (ground arith)
  suspend_in_state-idle state_done s idle l = absurd (ground arith)
  suspend_in_state-idle state_failed s idle l = absurd (ground arith)
  suspend_in_state-idle state_sleeping s idle l =
      (_, refl, detach-Linked e j h _ (stop_tts_timer-Linked j s l))
  suspend_in_state-idle state_pending s idle l =
      (_, refl, detach-Linked e j h _ (stop_tts_timer-Linked j s l))
  suspend_in_state-idle state_blocked s idle l =
      (_, refl, detach-Linked e j h _ (unblock-Linked _ j s l))
  suspend_in_state-idle _ s idle l = (_, refl, detach-Linked e j h s l)

delete_request-state :
    (e : Env) (j : ℕ) (r : FaxRequest) (why : JobStatus) (force : Bool) (s : Server)
    → ((delete_request e j r why force s).job j).state ≡ (s.job j).state
unfolding delete_request move_to_doneq tell notify_sender purge_file modify emit
delete_request-state e j r why force s = ground arith

delete_request_ptr-state :
    (e : Env) (j : ℕ) (r : FaxRequest) (why : JobStatus) (force : Bool) (s : Server)
    → ((delete_request_ptr e j r why force s).job j).state ≡ (s.job j).state
unfolding delete_request_ptr emit
delete_request_ptr-state e j r JobStatus.done force s = delete_request-state e j r _ force s
delete_request_ptr-state e j r _ force s = delete_request-state e j r _ force _

delete_if_read-state :
    (e : Env) (j : ℕ) (mesg : Notice) (why : JobStatus) (force : Bool) (s : Server)
    → ((delete_if_read e j mesg why force s).job j).state ≡ (s.job j).state
unfolding delete_if_read
delete_if_read-state e j mesg why force s = elim (Option-cases (read_request j s)) [
  | inl unread ↦ rw unread refl
  | inr (r, found) ↦ rw found (delete_request_ptr-state e j _ why force s)
]

failed_state :
    (j : ℕ) (s : Server)
    → ((s ▷ set_state state_failed j ▷ post job_kill j).job j).state ≡ state_failed
unfolding set_state post modify emit
failed_state j s = ground arith

finish_terminate-answer :
    (e : Env) (j : ℕ) (why : JobStatus) (s : Server)
    → finish_terminate e j why (true, s) ≡ (true, (finish_terminate e j why (true, s)).1)
unfolding finish_terminate
finish_terminate-answer e j why s = refl

finish_terminate-dead :
    (e : Env) (j : ℕ) (why : JobStatus) (s : Server)
    → (((finish_terminate e j why (true, s)).1.job j).state ≡ state_failed)
      × (((finish_terminate e j why (true, s)).1.job j).link ≡ some deadq)
unfolding finish_terminate dead_state
finish_terminate-dead e j why s =
    let s1 = s ▷ set_state state_failed j ▷ post job_kill j in
    let s2 = delete_if_read e j aborted why (not (is_removed why)) s1 in
    let dead = set_dead-view j s2 in
    (
      ap (λ v. v.0) dead.0
          ∙ ap dead_state
              (delete_if_read-state e j aborted why (not (is_removed why)) s1 ∙ failed_state j s),
      dead.1,
    )

-- For a server with intact links and a registered job that is not finished, that no subprocess works
-- on and that no suspension waits for: terminateJob returns at once with the answer true, and the
-- job is in state_failed, once on the dead list and on no other.
pub terminate_job-ends :
    (e : Env) (j : ℕ) (why : JobStatus) (events : List Event) (s : Server)
    → s.registered j ≡ true
    → (s.job j).suspend_pending ≡ false
    → is_idle (s.job j).state ≡ true
    → Linked s.registered s
    → (t : Server) × (terminate_job e j why events s ≡ some (true, t))
      × ((t.job j).state ≡ state_failed)
      × ((q : QueueId) → count j (t.queue q) ≡ on q (some deadq))
unfolding terminate_job suspend_job
terminate_job-ends e j why events s known free idle l =
    let (t, left, l') = suspend_in_state-idle e j known events (s.job j).state s idle l in
    let dead = finish_terminate-dead e j why t in
    let l'' = (finish_terminate-Linked e j known why (true, t) (after true l')).linked in
    (
      (finish_terminate e j why (true, t)).1,
      rw (known, free, left) (ap some (finish_terminate-answer e j why t)),
      dead.0,
      λ q. l''.at q j ∙ ap (on q) dead.1,
    )
