-- ===== src/Faxq/Linked/Sent.antt =====
-- The links under the end of a send (sendJobDone of faxd/faxQueueApp.c++).
use hylafaxplus.Prelude.{
  ℕ, zero, suc, Bool, true, Option, List, [], ◌∷◌, ◌≡◌, refl, Option-cases, inl, inr,
}
use hylafaxplus.Faxq.State.{
  JobState, JobStatus, send_end, send_reformatted, FaxRequest, Server, Env, modify,
}
use hylafaxplus.Faxq.Link.{
  Linked, Off, modify-Linked, modify_batch-Linked, remove_if_on_list-Linked,
}
use hylafaxplus.Faxq.Request.{read_request}
use hylafaxplus.Faxq.Place.{batch_chain}
use hylafaxplus.Faxq.SendDone.{
  is_reformat, set_retry, retry_cover, retry_tts, requeue, end_suspend, retry_send, close_job,
  finish_send, leave_batch, kill_sent, dispose, send_job_done_one, done_if_read, done_rest,
  done_batch, end_call, send_job_done,
}
use hylafaxplus.Faxq.Linked.Off.{remove_if_on_list-Off}
use hylafaxplus.Faxq.Linked.Place.{
  if-Linked, case_option-Linked, modify_dest-Linked, poke_scheduler-Linked, post-Linked,
  set_state-Linked, update_request-Linked, delete_request_ptr-Linked, release_if_held-Linked,
  set_ready_to_run-Linked, set_sleep-Linked, set_dead-Linked,
}
use hylafaxplus.Faxq.Linked.Jobs.{notify_requeued-Linked}
use hylafaxplus.Faxq.Linked.Blocked.{settle_blocked-Linked}

-- Every job of the list is registered.
abbrev pub AllRegistered : (ℕ → Bool) → List ℕ → Type 0
AllRegistered reg [] = Unit {0}
AllRegistered reg (j ∷ js) = (reg j ≡ true) × AllRegistered reg js

module _ {reg : ℕ → Bool} where
  ruleset sent_rules = (
    set_state-Linked, post-Linked, update_request-Linked, set_sleep-Linked, set_dead-Linked,
    set_ready_to_run-Linked, poke_scheduler-Linked, delete_request_ptr-Linked,
    remove_if_on_list-Linked, if-Linked, notify_requeued-Linked,
  )

  requeue-Linked :
      (e : Env) (j : ℕ) (r : FaxRequest) (s : Server)
      → reg j ≡ true
      → Off j s
      → Linked reg s
      → Linked reg (requeue e j r s)
  unfolding requeue
  requeue-Linked e j r s h o l = search sent_rules depth 8

  end_suspend-Linked : (j : ℕ) (s : Server) → Linked reg s → Linked reg (end_suspend j s)
  unfolding end_suspend
  end_suspend-Linked j s l = modify-Linked j _ s (λ b. (refl, refl)) l

  set_retry-Linked :
      (e : Env) (j : ℕ) (r : FaxRequest) (s : Server)
      → Linked reg s
      → Linked reg (modify j (set_retry e r) s)
  unfolding set_retry
  set_retry-Linked e j r s l = modify-Linked j _ s (λ b. (refl, refl)) l

  retry_send-Linked :
      (e : Env) (j : ℕ) (r : FaxRequest) (s : Server)
      → reg j ≡ true
      → Linked reg s
      → Linked reg (retry_send e j r s)
  unfolding retry_send
  retry_send-Linked e j r s h l =
      let r' = record (retry_cover e j r) { tts = retry_tts e r } in
      let l' = update_request-Linked j r' _ (set_retry-Linked e j r s l) in
      if-Linked _ (end_suspend-Linked j _ l')
        (requeue-Linked e j r' _ h (remove_if_on_list-Off j _) (remove_if_on_list-Linked j _ l'))

  pub leave_batch-Linked : (c j : ℕ) (s : Server) → Linked reg s → Linked reg (leave_batch c j s)
  unfolding leave_batch
  leave_batch-Linked c j s l = modify_batch-Linked j _ s refl (λ n h. cc) l

  kill_sent-Linked :
      (e : Env) (j : ℕ) (r : FaxRequest) (s : Server)
      → reg j ≡ true
      → Linked reg s
      → Linked reg (kill_sent e j r s)
  unfolding kill_sent
  kill_sent-Linked e j r s h l = search sent_rules depth 8

  close_job-Linked :
      (e : Env) (j : ℕ) (st : JobState) (why : JobStatus) (force : Bool) (r : FaxRequest)
      (s : Server)
      → reg j ≡ true
      → Linked reg s
      → Linked reg (close_job e j st why force r s)
  unfolding close_job
  close_job-Linked e j st why force r s h l = search sent_rules depth 8

  finish_send-Linked :
      (e : Env) (j : ℕ) (r : FaxRequest) (s : Server)
      → reg j ≡ true
      → Linked reg s
      → Linked reg (finish_send e j r s)
  unfolding finish_send
  finish_send-Linked e j r s h l = search (if-Linked, close_job-Linked)

  dispose-Linked :
      (e : Env) (j : ℕ) (r : FaxRequest) (s : Server)
      → reg j ≡ true
      → Linked reg s
      → Linked reg (dispose e j r s)
  unfolding dispose
  dispose-Linked e j r s h l =
      search (if-Linked, kill_sent-Linked, retry_send-Linked, finish_send-Linked)

  pub send_job_done_one-Linked :
      (e : Env) (j : ℕ) (r : FaxRequest) (s : Server)
      → reg j ≡ true
      → Linked reg s
      → Linked reg (send_job_done_one e j r s)
  unfolding send_job_done_one
  send_job_done_one-Linked e j r s h l =
      let ended = post-Linked send_end j _ (leave_batch-Linked r.commid j s l) in
      dispose-Linked e j _ _ h
        (if-Linked (is_reformat r.status) (post-Linked send_reformatted j _ ended) ended)

  pub done_if_read-Linked :
      (e : Env) (j : ℕ) (r : Option FaxRequest) (s : Server)
      → reg j ≡ true
      → Linked reg s
      → Linked reg (done_if_read e j r s)
  unfolding done_if_read
  done_if_read-Linked e j r s h l =
      case_option-Linked r (set_dead-Linked j s h l) (λ q. send_job_done_one-Linked e j q s h l)

  done_rest-Linked :
      (e : Env) (js : List ℕ) (s : Server)
      → AllRegistered reg js
      → Linked reg s
      → Linked reg (done_rest e js s)
  unfolding done_rest
  done_rest-Linked e [] s all l = l
  done_rest-Linked e (j ∷ js) s all l =
      done_rest-Linked e js _ all.1 (done_if_read-Linked e j (read_request j s) s all.0 l)

  done_batch-Linked :
      (e : Env) (r : Option FaxRequest) (js : List ℕ) (s : Server)
      → AllRegistered reg js
      → Linked reg s
      → Linked reg (done_batch e r js s)
  unfolding done_batch
  done_batch-Linked e r [] s all l = l
  done_batch-Linked e r (j ∷ js) s all l =
      done_rest-Linked e js _ all.1 (done_if_read-Linked e j r s all.0 l)

  pub end_call-Linked :
      (proxied : Bool) (d : ℕ) (s : Server) → Linked reg s → Linked reg (end_call proxied d s)
  unfolding end_call
  end_call-Linked proxied d s l =
      if-Linked proxied
        (modify_dest-Linked d _ _
          (record { at = l.at; same = l.same; free = l.free; batch = l.batch; sound = l.sound }))
        (modify_dest-Linked d _ s l)

  pub batch_chain-AllRegistered :
      (fuel : ℕ) (s : Server) (j : ℕ)
      → reg j ≡ true
      → Linked reg s
      → AllRegistered reg (batch_chain fuel s j)
  unfolding batch_chain
  batch_chain-AllRegistered zero s j h l = tt
  batch_chain-AllRegistered (suc fuel) s j h l = elim (Option-cases (s.job j).bnext) [
    | inl last ↦ rw last (h, tt)
    | inr (n, next) ↦ rw next (h, batch_chain-AllRegistered fuel s n (l.batch j n next) l)
  ]

  -- For a registered job: the end of its send keeps the links, on every branch and for the whole
  -- batch and all blocked jobs.
  pub send_job_done-Linked :
      (e : Env) (j : ℕ) (proxied : Bool) (s : Server)
      → reg j ≡ true
      → Linked reg s
      → Linked reg (send_job_done e j proxied s)
  unfolding send_job_done
  send_job_done-Linked e j proxied s h l =
      let l1 = release_if_held-Linked j _ (end_call-Linked proxied (s.job j).dest s l) in
      let l2 = settle_blocked-Linked e (s.job j).dest (read_request j _) _ l1 in
      poke_scheduler-Linked _
        (done_batch-Linked e (read_request j _) _ _ (batch_chain-AllRegistered 64 _ j h l2) l2)
