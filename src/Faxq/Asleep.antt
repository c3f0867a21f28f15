-- ===== src/Faxq/Asleep.antt =====
-- The end of a failed send leaves the jobs asleep that waited for the same destination (sendJobDone of
-- faxd/faxQueueApp.c++, with the loop over the batch that comes behind the blocked jobs).
pub mod Ended
use hylafaxplus.Prelude.{
  ℕ, Bool, true, false, Option, none, some, List, [], ◌∷◌, count, if◌then◌else◌, ltb, ◌&&◌, not,
  ◌▷◌, ◌==◌, ◌≡◌, ◌≢◌, refl, sym, ap, ◌∙◌, arith, Bool-cases, Option-cases, inl, inr,
}
use hylafaxplus.Faxq.State.{
  JobState, state_failed, state_ready, state_sleeping, FaxRequest, JobStatus, requeued, timedout,
  done, failed, killtime_expired, state_done, deadq, QueueId, blockedq, sleepq, Job, Server,
  ControlRun, no_command, no_child, ran, Env, job_dead, job_ready, send_end, send_reformatted,
  send_requeue, send_finished, modify, modify_dest, emit, poke_scheduler,
}
use hylafaxplus.Faxq.Link.{
  on, Linked, is_on_list, insert_in, unlink_from, remove, remove_if_on_list, modify-Linked,
}
use hylafaxplus.Faxq.Dest
use hylafaxplus.Faxq.Dest.{unhead, drop}
use hylafaxplus.Faxq.Request.{
  read_request, update_request, tell, move_to_doneq, purge_file, notify_sender, delete_request,
  delete_request_ptr,
}
use hylafaxplus.Faxq.Place.{
  post, set_state, release_if_held, remove_dest_info_job, ctrl_job_done, ready_after, set_sleep,
  set_ready_to_run, stop_tts_timer, stop_kill_timer, dead_state, set_dead, batch_chain,
}
use hylafaxplus.Faxq.SendDone.{
  retry_cover, retry_tts, set_retry, requeue, end_suspend, retry_send, close_job, finish_send,
  leave_batch, kill_sent, dispose, is_retry, is_send_failed, is_reformat, send_job_done_one,
  done_if_read, done_rest, done_batch,
}
use hylafaxplus.Faxq.Linked.Place.{
  if-Linked, modify_dest-Linked, post-Linked, set_state-Linked, update_request-Linked,
  stop_tts_timer-Linked, delete_request_ptr-Linked,
}
use hylafaxplus.Faxq.Linked.Sent.{AllRegistered, done_if_read-Linked, leave_batch-Linked}
use hylafaxplus.Faxq.Delay.{notify_requeued}
use hylafaxplus.Faxq.Waiting.{first-link}
use hylafaxplus.Faxq.Slept.{
  seen, release_if_held-seen, notify_requeued-seen, set_state-seen, update_request-seen,
  set_sleep-seen, post-seen, if-seen, remove-seen,
}

module _ (j c : ℕ) (apart : c ≢ j) where
  pub modify-seen : (f : Job → Job) (s : Server) → seen j (modify c f s) ≡ seen j s
  unfolding modify
  modify-seen f s = ground (arith, apart)

  pub insert_in-seen :
      (q : QueueId) (skip : ℕ → Bool) (s : Server) → seen j (insert_in q skip c s) ≡ seen j s
  unfolding insert_in modify
  insert_in-seen q skip s = ground (arith, apart)

  pub remove_if_on_list-seen : (s : Server) → seen j (remove_if_on_list c s) ≡ seen j s
  unfolding remove_if_on_list
  remove_if_on_list-seen s =
      if-seen j c apart (is_on_list (s.job c)) _ _ s (remove-seen j c apart s) refl

  tell-seen :
      (r : FaxRequest) (why : JobStatus) (force : Bool) (s : Server)
      → seen j (tell c r why force s) ≡ seen j s
  unfolding tell notify_sender emit
  tell-seen r why force s = ground arith

  move_to_doneq-seen :
      (e : Env) (r : FaxRequest) (why : JobStatus) (s : Server)
      → seen j (move_to_doneq e c r why s) ≡ seen j s
  unfolding move_to_doneq modify
  move_to_doneq-seen e r why s = ground (arith, apart)

  purge_file-seen : (s : Server) → seen j (purge_file c s) ≡ seen j s
  unfolding purge_file
  purge_file-seen s = ground (arith, apart)

  delete_request-seen :
      (e : Env) (r : FaxRequest) (why : JobStatus) (force : Bool) (s : Server)
      → seen j (delete_request e c r why force s) ≡ seen j s
  unfolding delete_request
  delete_request-seen e r why force s =
      if-seen j c apart (e.rename_done c) _ _ s
        (tell-seen r why force _ ∙ move_to_doneq-seen e r why s)
        (purge_file-seen _ ∙ tell-seen r why force s)

  pub delete_request_ptr-seen :
      (e : Env) (r : FaxRequest) (why : JobStatus) (force : Bool) (s : Server)
      → seen j (delete_request_ptr e c r why force s) ≡ seen j s
  unfolding delete_request_ptr emit
  delete_request_ptr-seen e r JobStatus.done force s = delete_request-seen e r _ force s
  delete_request_ptr-seen e r _ force s = delete_request-seen e r _ force _

  ctrl_job_done-seen : (s : Server) → seen j (ctrl_job_done c s) ≡ seen j s
  unfolding ctrl_job_done
  ctrl_job_done-seen s =
      post-seen j c apart job_ready _
      ∙ insert_in-seen _ _ _
      ∙ set_state-seen j c apart state_ready s

  ready_after-seen : (r : ControlRun) (s : Server) → seen j (ready_after r c s) ≡ seen j s
  unfolding ready_after
  ready_after-seen no_command s = ctrl_job_done-seen s
  ready_after-seen no_child s = ctrl_job_done-seen s
  ready_after-seen (ran jci status) s = ctrl_job_done-seen _ ∙ modify-seen _ s

  requeue-seen : (e : Env) (r : FaxRequest) (s : Server) → seen j (requeue e c r s) ≡ seen j s
  unfolding requeue set_ready_to_run
  requeue-seen e r s =
      let s1 = set_sleep c r.tts s in
      let s2 = post send_requeue c s1 in
      let slept : seen j (notify_requeued c r requeued s2) ≡ seen j s =
        notify_requeued-seen j c r requeued s2
        ∙ post-seen j c apart send_requeue s1
        ∙ set_sleep-seen j c apart r.tts s in
      if-seen j c apart (ltb e.now r.tts) _ _ s slept (ready_after-seen (e.control c) s)

  pub retry_send-seen :
      (e : Env) (r : FaxRequest) (s : Server) → seen j (retry_send e c r s) ≡ seen j s
  unfolding retry_send end_suspend
  retry_send-seen e r s =
      let r' = record (retry_cover e c r) { tts = retry_tts e r } in
      let s1 = modify c (set_retry e r) s in
      let s2 = update_request c r' s1 in
      let kept : seen j s2 ≡ seen j s =
        update_request-seen j c apart r' s1 ∙ modify-seen (set_retry e r) s in
      if-seen j c apart (s.job c).suspend_pending _ _ s (modify-seen _ s2 ∙ kept)
        (requeue-seen e r' (remove_if_on_list c s2) ∙ remove_if_on_list-seen s2 ∙ kept)
