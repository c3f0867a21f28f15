-- ===== src/Faxq/Asleep/Ended.antt =====
-- The end of one job of a batch leaves another job asleep (sendJobDone(Job&, FaxRequest*) and setDead of
-- faxd/faxQueueApp.c++).
use hylafaxplus.Prelude.{
  ℕ, Bool, true, false, Option, none, some, List, [], ◌∷◌, if◌then◌else◌, ◌&&◌, not, ◌==◌, ◌≡◌, ◌≢◌,
  refl, sym, ap, ◌∙◌, arith, Bool-cases, inl, inr,
}
use hylafaxplus.Faxq.State.{
  JobState, state_failed, FaxRequest, JobStatus, timedout, done, failed, killtime_expired,
  state_done, deadq, blockedq, sleepq, Server, Env, job_dead, send_end, send_reformatted,
  send_finished, modify, modify_dest, poke_scheduler,
}
use hylafaxplus.Faxq.Link.{Linked, insert_in, unlink_from, remove_if_on_list, modify-Linked}
use hylafaxplus.Faxq.Dest
use hylafaxplus.Faxq.Dest.{unhead, drop}
use hylafaxplus.Faxq.Request.{update_request, delete_request_ptr}
use hylafaxplus.Faxq.Place.{
  post, set_state, remove_dest_info_job, stop_tts_timer, dead_state, set_dead,
}
use hylafaxplus.Faxq.SendDone.{
  close_job, finish_send, leave_batch, kill_sent, dispose, is_retry, is_send_failed, is_reformat,
  send_job_done_one, done_if_read,
}
use hylafaxplus.Faxq.Linked.Place.{
  if-Linked, modify_dest-Linked, post-Linked, set_state-Linked, update_request-Linked,
  stop_tts_timer-Linked, delete_request_ptr-Linked,
}
use hylafaxplus.Faxq.Linked.Sent.{leave_batch-Linked}
use hylafaxplus.Faxq.Waiting.{first-link}
use hylafaxplus.Faxq.Slept.{
  seen, release_if_held-seen, set_state-seen, update_request-seen, post-seen, if-seen,
}
use hylafaxplus.Faxq.Asleep.{
  modify-seen, insert_in-seen, remove_if_on_list-seen, delete_request_ptr-seen, retry_send-seen,
}

module _ (j c : ℕ) (apart : c ≢ j) where
  -- A destination's list head that goes takes no sleeping job with it.
  module _ {reg : ℕ → Bool} where
    unhead-seen :
        (d : ℕ) (is : List ℕ) (s : Server)
        → Linked reg s
        → (s.job j).link ≡ some sleepq
        → s.queue (blockedq d) ≡ is
        → seen j (unhead is d s) ≡ seen j s
    unfolding unhead unlink_from modify
    unhead-seen d [] s l asleep h = refl
    unhead-seen d (i ∷ []) s l asleep h =
        let blocked = first-link d i [] s l h in
        elim (Bool-cases (i == j)) [
          | inl own ↦
              let at : i ≡ j = ground (arith, own) in
              absurd (ground (arith, sym (ap (λ k. (s.job k).link) at) ∙ blocked, asleep))
          | inr other ↦ ground (arith, other)
        ]
    unhead-seen d (i ∷ k ∷ is) s l asleep h = refl

    drop-seen :
        (d : ℕ) (s : Server)
        → Linked reg s
        → (s.job j).link ≡ some sleepq
        → seen j (drop d s) ≡ seen j s
    unfolding drop modify_dest
    drop-seen d s l asleep = unhead-seen d (s.queue (blockedq d)) s l asleep refl

    remove_dest_info_job-seen :
        (s : Server)
        → Linked reg s
        → (s.job j).link ≡ some sleepq
        → seen j (remove_dest_info_job c s) ≡ seen j s
    unfolding remove_dest_info_job
    remove_dest_info_job-seen s l asleep =
        let d = (s.job c).dest in
        let s' = modify_dest d (Dest.done_job c) s in
        let l' : Linked reg s' = modify_dest-Linked d (Dest.done_job c) s l in
        let same : seen j s' ≡ seen j s = unfold modify_dest in refl in
        if-seen j c apart (Dest.is_empty (s'.dests d)) (drop d s') s' s
          (drop-seen d s' l' (ap (λ v. v.0) same ∙ asleep) ∙ same) same

    set_dead-seen :
        (s : Server)
        → Linked reg s
        → (s.job j).link ≡ some sleepq
        → seen j (set_dead c s) ≡ seen j s
    unfolding set_dead stop_tts_timer poke_scheduler
    set_dead-seen s l asleep =
        let s1 = stop_tts_timer c s in
        let s2 =
          modify c (λ b. record b { state = dead_state b.state; suspend_pending = false }) s1 in
        let s3 = post job_dead c s2 in
        let l3 : Linked reg s3 =
          post-Linked job_dead c s2
            (modify-Linked c _ s1 (λ b. (refl, refl)) (stop_tts_timer-Linked c s l)) in
        let kept : seen j s3 ≡ seen j s =
          post-seen j c apart job_dead s2
          ∙ modify-seen j c apart _ s1
          ∙ modify-seen j c apart _ s in
        let s4 = remove_dest_info_job c s3 in
        let s5 = remove_if_on_list c s4 in
        release_if_held-seen j c (insert_in deadq (λ _. false) c s5)
        ∙ insert_in-seen j c apart deadq (λ _. false) s5
        ∙ remove_if_on_list-seen j c apart s4
        ∙ remove_dest_info_job-seen s3 l3 (ap (λ v. v.0) kept ∙ asleep)
        ∙ kept

    kill_sent-seen :
        (e : Env) (r : FaxRequest) (s : Server)
        → Linked reg s
        → (s.job j).link ≡ some sleepq
        → seen j (kill_sent e c r s) ≡ seen j s
    unfolding kill_sent
    kill_sent-seen e r s l asleep =
        let r' = record r { notice = killtime_expired } in
        let s1 = update_request c r' s in
        let s2 = set_state state_failed c s1 in
        let s3 = delete_request_ptr e c r' timedout true s2 in
        let l3 : Linked reg s3 =
          delete_request_ptr-Linked e c r' timedout true s2
            (set_state-Linked state_failed c s1 (update_request-Linked c r' s l)) in
        let kept : seen j s3 ≡ seen j s =
          delete_request_ptr-seen j c apart e r' timedout true s2
          ∙ set_state-seen j c apart state_failed s1
          ∙ update_request-seen j c apart r' s in
        set_dead-seen s3 l3 (ap (λ v. v.0) kept ∙ asleep) ∙ kept

    close_job-seen :
        (e : Env) (st : JobState) (why : JobStatus) (force : Bool) (r : FaxRequest) (s : Server)
        → Linked reg s
        → (s.job j).link ≡ some sleepq
        → seen j (close_job e c st why force r s) ≡ seen j s
    unfolding close_job
    close_job-seen e st why force r s l asleep =
        let s1 = set_state st c s in
        let s2 = delete_request_ptr e c r why force s1 in
        let s3 = post send_finished c s2 in
        let l3 : Linked reg s3 =
          post-Linked send_finished c s2
            (delete_request_ptr-Linked e c r why force s1 (set_state-Linked st c s l)) in
        let kept : seen j s3 ≡ seen j s =
          post-seen j c apart send_finished s2
          ∙ delete_request_ptr-seen j c apart e r why force s1
          ∙ set_state-seen j c apart st s in
        set_dead-seen s3 l3 (ap (λ v. v.0) kept ∙ asleep) ∙ kept

    finish_send-seen :
        (e : Env) (r : FaxRequest) (s : Server)
        → Linked reg s
        → (s.job j).link ≡ some sleepq
        → seen j (finish_send e c r s) ≡ seen j s
    unfolding finish_send
    finish_send-seen e r s l asleep =
        if-seen j c apart (is_send_failed r.status) _ _ s
          (close_job-seen e state_failed failed true r s l asleep)
          (close_job-seen e state_done done false r s l asleep)

    dispose-seen :
        (e : Env) (r : FaxRequest) (s : Server)
        → Linked reg s
        → (s.job j).link ≡ some sleepq
        → seen j (dispose e c r s) ≡ seen j s
    unfolding dispose
    dispose-seen e r s l asleep =
        let b = s.job c in
        if-seen j c apart (b.killtime == 0 && not b.suspend_pending && is_retry r.status) _ _ s
          (kill_sent-seen e r s l asleep)
          (if-seen j c apart (is_retry r.status) _ _ s (retry_send-seen j c apart e r s)
            (finish_send-seen e r s l asleep))

    pub done_if_read-seen :
        (e : Env) (o : Option FaxRequest) (s : Server)
        → Linked reg s
        → (s.job j).link ≡ some sleepq
        → seen j (done_if_read e c o s) ≡ seen j s
    unfolding done_if_read send_job_done_one
    done_if_read-seen e none s l asleep = set_dead-seen s l asleep
    done_if_read-seen e (some r) s l asleep =
        let s1 = leave_batch r.commid c s in
        let s2 = post send_end c s1 in
        let s3 = if is_reformat r.status then post send_reformatted c s2 else s2 in
        let l2 : Linked reg s2 = post-Linked send_end c s1 (leave_batch-Linked r.commid c s l) in
        let l3 : Linked reg s3 =
          if-Linked (is_reformat r.status) (post-Linked send_reformatted c s2 l2) l2 in
        let left : seen j s2 ≡ seen j s =
          post-seen j c apart send_end s1 ∙ unfold leave_batch in modify-seen j c apart _ s in
        let kept : seen j s3 ≡ seen j s =
          if-seen j c apart (is_reformat r.status) (post send_reformatted c s2) s2 s
            (post-seen j c apart send_reformatted s2 ∙ left) left in
        dispose-seen e _ s3 l3 (ap (λ v. v.0) kept ∙ asleep) ∙ kept
