-- ===== src/Faxq/Decided.antt =====
-- Where the scheduler's decision puts a job (runScheduler of faxd/faxQueueApp.c++).
use hylafaxplus.Prelude.{
  ℕ, Bool, true, false, Option, none, some, if◌then◌else◌, ◌≡◌, refl, sym, ap, ◌∙◌, arith, count,
}
use hylafaxplus.Faxq.State.{
  JobStatus, requeued, Notice, concurrent_calls, FaxRequest, state_sleeping, QueueId, deadq, sleepq,
  activeq, blockedq, Server, Env, modify, modify_dest, emit, poke_scheduler,
}
use hylafaxplus.Faxq.Link.{on, Linked, remove_if_on_list-link}
use hylafaxplus.Faxq.Dest.{block}
use hylafaxplus.Faxq.Request.{
  notify_sender, read_request, tell, move_to_doneq, purge_file, delete_request, delete_request_ptr,
}
use hylafaxplus.Faxq.Place.{post, set_state, set_active}
use hylafaxplus.Faxq.Delay.{notify_requeued, set_tts, delay_job, block_job, reject_job}
use hylafaxplus.Faxq.Start.{clear_commid}
use hylafaxplus.Faxq.Unblock.{unblock_dest_jobs}
use hylafaxplus.Faxq.Schedule.{
  Limits, Verdict, vanished, held_back, by_proxy, for_modem, refused, postponed, clamp_tts,
  set_start, refuse, hold_back, count_proxy_job, give_to_proxy, carry_out, consider_read, consider,
}
use hylafaxplus.Faxq.Grounds.{IsGrounded, consider-IsGrounded}
use hylafaxplus.Faxq.Linked.Schedule.{consider-Linked}
use hylafaxplus.Faxq.Dead.{insert_in-link, set_dead-view, release_if_held-view}
use hylafaxplus.Faxq.Accepted.{update_request-link, set_sleep-link, set_state-link}

-- The list that a verdict means; a job that may have a modem stays on its run queue.
abbrev pub meant : Verdict → ℕ → Option QueueId → Option QueueId
meant vanished d q = some deadq
meant held_back d q = some (blockedq d)
meant by_proxy d q = some activeq
meant for_modem d q = q
meant (refused reason) d q = some deadq
meant (postponed mesg tts) d q = some sleepq

module _ (j : ℕ) where
  if-link :
      (q : Option QueueId) (b : Bool) (x y : Server)
      → (x.job j).link ≡ q
      → (y.job j).link ≡ q
      → ((if b then x else y).job j).link ≡ q
  if-link q true x y h k = h
  if-link q false x y h k = k

  delete_request-link :
      (e : Env) (r : FaxRequest) (why : JobStatus) (force : Bool) (s : Server)
      → ((delete_request e j r why force s).job j).link ≡ (s.job j).link
  unfolding delete_request tell move_to_doneq purge_file notify_sender modify emit
  delete_request-link e r why force s = ground arith

  delete_request_ptr-link :
      (e : Env) (r : FaxRequest) (why : JobStatus) (force : Bool) (s : Server)
      → ((delete_request_ptr e j r why force s).job j).link ≡ (s.job j).link
  unfolding delete_request_ptr emit
  delete_request_ptr-link e r JobStatus.done force s = delete_request-link e r _ force s
  delete_request_ptr-link e r _ force s = delete_request-link e r _ force _

  clamp_tts-link :
      (now : ℕ) (s : Server)
      → (((clamp_tts now j s).job j).link ≡ (s.job j).link)
        × (((clamp_tts now j s).job j).dest ≡ (s.job j).dest)
  unfolding clamp_tts set_tts modify
  clamp_tts-link now s = (ground arith, ground arith)

  notify_requeued-link :
      (r : FaxRequest) (why : JobStatus) (s : Server)
      → ((notify_requeued j r why s).job j).link ≡ (s.job j).link
  unfolding notify_requeued notify_sender emit
  notify_requeued-link r why s = ground arith

  set_tts-link : (t : ℕ) (s : Server) → ((set_tts t j s).job j).link ≡ (s.job j).link
  unfolding set_tts modify
  set_tts-link t s = ground arith

  pub delay_job-link :
      (r : FaxRequest) (mesg : Notice) (tts : ℕ) (s : Server)
      → (s.job j).link ≡ none
      → ((delay_job j r mesg tts s).job j).link ≡ some sleepq
  unfolding delay_job post emit
  delay_job-link r mesg tts s h =
      (release_if_held-view j j _).1
      ∙ notify_requeued-link r requeued _
      ∙ set_sleep-link j tts _
          (update_request-link j _ _ ∙ set_tts-link tts _ ∙ set_state-link j state_sleeping s ∙ h)

  hold_back-link :
      (r : FaxRequest) (s : Server)
      → ((hold_back j r s).job j).link ≡ some (blockedq (s.job j).dest)
  unfolding hold_back block modify_dest
  hold_back-link r s =
      insert_in-link j _ _ _
        (ground (arith, remove_if_on_list-link j j (block_job j r concurrent_calls s)))

  give_to_proxy-link :
      (e : Env) (r : FaxRequest) (s : Server) → ((give_to_proxy e j r s).job j).link ≡ some activeq
  unfolding give_to_proxy count_proxy_job modify_dest set_active set_start clear_commid set_state
      post emit modify
  give_to_proxy-link e r s =
      let s' = poke_scheduler (unblock_dest_jobs e (s.job j).dest 0 s) in
      update_request-link j _ _
      ∙ insert_in-link j activeq _ _ (ground (arith, remove_if_on_list-link j j s'))

  carry_out-link :
      (e : Env) (r : FaxRequest) (v : Verdict) (s : Server)
      → ((carry_out e j r v s).job j).link ≡ meant v (s.job j).dest (s.job j).link
  unfolding carry_out refuse reject_job
  carry_out-link e r vanished s = (set_dead-view j s).1
  carry_out-link e r held_back s = hold_back-link r s
  carry_out-link e r by_proxy s = give_to_proxy-link e r s
  carry_out-link e r for_modem s = refl
  carry_out-link e r (refused reason) s =
      delete_request_ptr-link e _ _ true _ ∙ (set_dead-view j _).1
  carry_out-link e r (postponed mesg tts) s =
      delay_job-link r mesg tts _ (ground (arith, remove_if_on_list-link j j s))

  consider_read-link :
      (e : Env) (g : Limits) (o : Option FaxRequest) (s : Server)
      → (((consider_read e g j o s).1.job j).link)
        ≡ meant (consider_read e g j o s).0 (s.job j).dest (s.job j).link
  unfolding consider_read
  consider_read-link e g none s = (set_dead-view j s).1
  consider_read-link e g (some r) s =
      let same = clamp_tts-link e.now s in rw (sym same.0, sym same.1) (carry_out-link e r _ _)

-- For a server with intact links and a registered job: when the scheduler has considered the job, it
-- is once on the list that the verdict means and on no other. That is the dead list, if it has
-- vanished or is refused; the list of its destination, if it is held back; the sleep queue, if it is
-- postponed; the active list, if a proxy sends it; and the list it was on, if it may have a modem. The
-- verdict is the one that the job's circumstances call for: vanished, if no request can be read;
-- refused, for the reason found in it; otherwise held back, if the destination has all the calls it
-- may have; and if it has room, postponed when its time has not come, calls are staggered or the
-- proxies have all the jobs they may have, with the time of the next attempt; by proxy, if there is one
-- with room, or for a modem, if there is none.
pub consider-place :
    (reg : ℕ → Bool) (e : Env) (g : Limits) (j : ℕ) (s : Server)
    → reg j ≡ true
    → Linked reg s
    → (q : QueueId)
    → (count j ((consider e g j s).1.queue q)
        ≡ on q (meant (consider e g j s).0 (s.job j).dest (s.job j).link))
      × IsGrounded e g j s (read_request j s) (consider e g j s).0
consider-place reg e g j s h l q = (
  (consider-Linked e g j s h l).at q j
      ∙ ap (on q) (unfold consider in unfold post in unfold emit in consider_read-link j e g _ _),
  consider-IsGrounded e g j s,
)
