-- ===== src/Faxq/Reach.antt =====
-- The links while suspendJob waits, and under suspendJob and terminateJob (faxd/faxQueueApp.c++).
use hylafaxplus.Prelude.{
  ℕ, Bool, true, false, Option, none, some, List, [], ◌∷◌, case_option, ◌≡◌, refl, sym, arith, ◌∙◌,
  Bool-cases, inl, inr,
}
use hylafaxplus.Faxq.State.{
  JobState, state_pending, state_sleeping, state_blocked, state_active, state_done, state_failed,
  JobStatus, Server, Env,
}
use hylafaxplus.Faxq.Link.{Linked, Off}
use hylafaxplus.Faxq.Suspend.{
  Event, send_ended, tts_expired, kill_expired, handle, wait_for, suspend_in_state, suspend_job,
  suspend_by_id, terminate_job, after_wait, finish_suspend, finish_terminate, detach,
}
use hylafaxplus.Faxq.Submit.{is_final}
use hylafaxplus.Faxq.Place.{stop_kill_timer}
use hylafaxplus.Faxq.Linked.Off.{modify-Off, remove_if_on_list-Off}
use hylafaxplus.Faxq.Linked.Place.{stop_tts_timer-Linked, stop_kill_timer-Linked}
use hylafaxplus.Faxq.Linked.Jobs.{timeout_job-Linked, run_job-Linked}
use hylafaxplus.Faxq.Linked.Blocked.{unblock-Linked}
use hylafaxplus.Faxq.Linked.Sent.{send_job_done-Linked}
use hylafaxplus.Faxq.Linked.Client.{
  After, after, detach-Linked, signal_job-Linked, after_wait-Linked, finish_suspend-Linked,
  finish_terminate-Linked,
}

-- The job that an event is about.
abbrev pub event_job : Event → ℕ
event_job (send_ended j proxied) = j
event_job (tts_expired j) = j
event_job (kill_expired j) = j

abbrev pub EventsRegistered : (ℕ → Bool) → List Event → Type 0
EventsRegistered reg [] = Unit {0}
EventsRegistered reg (x ∷ xs) = (reg (event_job x) ≡ true) × EventsRegistered reg xs

-- An answer, if the call has returned.
abbrev pub AfterCall : (ℕ → Bool) → Option (Bool × Server) → Type 0
AfterCall reg none = Unit {0}
AfterCall reg (some r) = After reg r

abbrev AfterWait : (ℕ → Bool) → Option Server → Type 0
AfterWait reg none = Unit {0}
AfterWait reg (some s) = Linked reg s

-- A job that has been suspended is on no list.
abbrev OffCall : ℕ → Option (Bool × Server) → Type 0
OffCall j none = Unit {0}
OffCall j (some r) = r.0 ≡ true → Off j r.1

detach-Off : (j : ℕ) (s : Server) → Off j (detach j s)
unfolding detach stop_kill_timer
detach-Off j s = modify-Off j _ _ (λ b. refl) (remove_if_on_list-Off j _)

waited-OffCall :
    (j : ℕ) (o : Option Server) → OffCall j (case_option o none (λ t. some (after_wait j t)))
unfolding after_wait
waited-OffCall j none = tt
waited-OffCall j (some t) = elim (Bool-cases (is_final (t.job j).state)) [
  | inl over ↦ rw over (λ h. absurd (ground arith))
  | inr going ↦ rw going (λ h. detach-Off j t)
]

suspend_in_state-OffCall :
    (e : Env) (j : ℕ) (abort : Bool) (events : List Event) (st : JobState) (s : Server)
    → OffCall j (suspend_in_state e j abort events st s)
unfolding suspend_in_state
suspend_in_state-OffCall e j abort events state_active s = waited-OffCall j _
suspend_in_state-OffCall e j abort events state_done s = λ h. absurd (ground arith)
suspend_in_state-OffCall e j abort events state_failed s = λ h. absurd (ground arith)
suspend_in_state-OffCall e j abort events state_sleeping s = λ h. detach-Off j _
suspend_in_state-OffCall e j abort events state_pending s = λ h. detach-Off j _
suspend_in_state-OffCall e j abort events state_blocked s = λ h. detach-Off j _
suspend_in_state-OffCall e j abort events _ s = λ h. detach-Off j s

suspend_job-OffCall :
    (e : Env) (j : ℕ) (abort : Bool) (events : List Event) (s : Server)
    → OffCall j (suspend_job e j abort events s)
unfolding suspend_job
suspend_job-OffCall e j abort events s = elim (Bool-cases (s.job j).suspend_pending) [
  | inl pending ↦ rw pending (λ h. absurd (ground arith))
  | inr free ↦ rw free (suspend_in_state-OffCall e j abort events (s.job j).state s)
]

waited :
    (reg : ℕ → Bool) (e : Env) (j : ℕ) (h : reg j ≡ true) (o : Option Server)
    → AfterWait reg o
    → AfterCall reg (case_option o none (λ t. some (after_wait j t)))
waited reg e j h none l = tt
waited reg e j h (some t) l = after_wait-Linked e j h t l

module _ {reg : ℕ → Bool} (e : Env) where
  pub handle-Linked :
      (x : Event) (s : Server) → reg (event_job x) ≡ true → Linked reg s → Linked reg (handle e x s)
  unfolding handle
  handle-Linked (send_ended j proxied) s h l = send_job_done-Linked e j proxied s h l
  handle-Linked (tts_expired j) s h l = run_job-Linked e j _ h (stop_tts_timer-Linked j s l)
  handle-Linked (kill_expired j) s h l = timeout_job-Linked e j _ h (stop_kill_timer-Linked j s l)

  wait_for-Linked :
      (j : ℕ) (events : List Event) (s : Server)
      → EventsRegistered reg events
      → Linked reg s
      → AfterWait reg (wait_for e j events s)
  unfolding wait_for
  wait_for-Linked j [] s all l = elim (Bool-cases (s.job j).suspend_pending) [
    | inl waiting ↦ rw waiting tt
    | inr over ↦ rw over l
  ]
  wait_for-Linked j (x ∷ xs) s all l = elim (Bool-cases (s.job j).suspend_pending) [
    | inl waiting ↦ rw waiting (wait_for-Linked j xs _ all.1 (handle-Linked x s all.0 l))
    | inr over ↦ rw over l
  ]

  module _ (j : ℕ) (h : reg j ≡ true) (abort : Bool) (events : List Event)
      (all : EventsRegistered reg events) where
    suspend_in_state-Linked :
        (st : JobState) (s : Server)
        → Linked reg s
        → AfterCall reg (suspend_in_state e j abort events st s)
    unfolding suspend_in_state
    suspend_in_state-Linked state_active s l =
        waited reg e j h _ (wait_for-Linked j events _ all (signal_job-Linked e j h abort s l))
    suspend_in_state-Linked state_done s l = after false l
    suspend_in_state-Linked state_failed s l = after false l
    suspend_in_state-Linked state_sleeping s l =
        after true (detach-Linked e j h _ (stop_tts_timer-Linked j s l))
    suspend_in_state-Linked state_pending s l =
        after true (detach-Linked e j h _ (stop_tts_timer-Linked j s l))
    suspend_in_state-Linked state_blocked s l =
        after true (detach-Linked e j h _ (unblock-Linked _ j s l))
    suspend_in_state-Linked _ s l = after true (detach-Linked e j h s l)

    suspend_job-Linked :
        (s : Server) → Linked reg s → AfterCall reg (suspend_job e j abort events s)
    unfolding suspend_job
    suspend_job-Linked s l = elim (Bool-cases (s.job j).suspend_pending) [
      | inl pending ↦ rw pending (after false l)
      | inr free ↦ rw free (suspend_in_state-Linked (s.job j).state s l)
    ]

  pub suspend_by_id-Linked :
      (j : ℕ) (abort : Bool) (events : List Event) (s : Server)
      → EventsRegistered reg events
      → Linked reg s
      → AfterCall reg (suspend_by_id e j abort events s)
  unfolding suspend_by_id
  suspend_by_id-Linked j abort events s all l = elim (Bool-cases (s.registered j)) [
    | inl known ↦ rw known (
        let h = sym (l.same j) ∙ known in
        finished h _ (suspend_job-OffCall e j abort events s)
          (suspend_job-Linked j h abort events all s l))
    | inr free ↦ rw free (after false l)
  ]
    where
      finished :
          (h : reg j ≡ true) (o : Option (Bool × Server))
          → OffCall j o
          → AfterCall reg o
          → AfterCall reg (case_option o none (λ r. some (finish_suspend j r)))
      finished h none off l = tt
      finished h (some r) off l = finish_suspend-Linked e j h r off l

  pub terminate_job-Linked :
      (j : ℕ) (why : JobStatus) (events : List Event) (s : Server)
      → EventsRegistered reg events
      → Linked reg s
      → AfterCall reg (terminate_job e j why events s)
  unfolding terminate_job
  terminate_job-Linked j why events s all l = elim (Bool-cases (s.registered j)) [
    | inl known ↦
        let h = sym (l.same j) ∙ known in
        rw known (finished h _ (suspend_job-Linked j h true events all s l))
    | inr free ↦ rw free (after false l)
  ]
    where
      finished :
          (h : reg j ≡ true) (o : Option (Bool × Server))
          → AfterCall reg o
          → AfterCall reg (case_option o none (λ r. some (finish_terminate e j why r)))
      finished h none l = tt
      finished h (some r) l = finish_terminate-Linked e j h why r l
