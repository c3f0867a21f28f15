-- ===== src/Faxq/SendDone.antt =====
-- The end of a send (faxd/faxQueueApp.c++: both functions sendJobDone).
use hylafaxplus.Prelude.{
  ℕ, zero, suc, ◌+◌, ◌-◌, ◌/◌, ◌%◌, Bool, true, false, ◌&&◌, ◌||◌, not, Option, none, some, List,
  [], ◌∷◌, length, ltb, ◌==◌, if◌then◌else◌, case_option, ◌▷◌,
}
use hylafaxplus.Faxq.State.{
  JobState, state_sleeping, state_ready, state_done, state_failed, SendStatus, send_retry,
  send_failed, send_done, send_reformat, send_not_run, JobStatus, done, requeued, timedout, failed,
  killtime_expired, interrupted, not_run, delayed_by_call, SendOp, send_tiff, send_tiff_saved,
  send_pdf, send_pdf_saved, send_postscript, send_postscript_saved, send_pcl, send_pcl_saved,
  send_data, send_data_saved, send_page, send_page_saved, FaxItem, FaxRequest, blockedq, Job,
  send_end, send_reformatted, send_requeue, send_finished, Server, Env, modify, modify_dest,
  poke_scheduler,
}
use hylafaxplus.Faxq.Link.{remove_if_on_list}
use hylafaxplus.Faxq.Dest.{u16, hangup, proxy_hangup, next_blocked}
use hylafaxplus.Faxq.Request.{is_fax, read_request, update_request, delete_request_ptr}
use hylafaxplus.Faxq.Place.{
  post, set_state, batch_chain, release_if_held, set_ready_to_run, set_sleep, set_dead,
}
use hylafaxplus.Faxq.Delay.{notify_requeued, delay_job}
use hylafaxplus.Faxq.Unblock.{unblock_dest_jobs}

abbrev pub is_retry : SendStatus → Bool
is_retry send_retry = true
is_retry _ = false

abbrev pub is_send_done : SendStatus → Bool
is_send_done send_done = true
is_send_done _ = false

-- The request of a blocked job that is delayed by the failed call of another.
unfoldable pub delay_blocked_one : Env → FaxRequest → ℕ → Server → Server
delay_blocked_one e req c s = case_option (read_request c s) s (λ r.
    if e.share_failure req.errorcode
    then delay_job c (record r { status = send_retry; totdials = u16 (r.totdials + 1) }) req.notice
        req.tts s
    else delay_job c r delayed_by_call req.tts s)

-- The loop of sendJobDone over the blocked jobs; each round takes one off their list.
unfoldable pub delay_next : (Server → Server) → Env → FaxRequest → Option ℕ × Server → Server
delay_next again e req (none, s) = s
delay_next again e req (some c, s) = again (delay_blocked_one e req c s)

unfoldable pub delay_blocked : ℕ → Env → ℕ → FaxRequest → Server → Server
delay_blocked zero e d req s = s
delay_blocked (suc fuel) e d req s =
    delay_next (delay_blocked fuel e d req) e req (next_blocked d s)

-- A send program that could not be run.
unfoldable pub check_run : FaxRequest → FaxRequest
check_run r = elim r.status [
  | send_not_run ↦ record r { status = send_failed; notice = not_run }
  | _ ↦ r
]

-- fitem.op--, of a saved operation
unfoldable pub unsaved : SendOp → SendOp
unsaved send_tiff_saved = send_tiff
unsaved send_pdf_saved = send_pdf
unsaved send_postscript_saved = send_postscript
unsaved send_pcl_saved = send_pcl
unsaved send_data_saved = send_data
unsaved send_page_saved = send_page
unsaved op = op

-- The items without the formatted documents, the sources as they were submitted.
unfoldable pub unformat : List FaxItem → List FaxItem
unformat [] = []
unformat (x ∷ xs) =
    let rest = unformat xs in if is_fax x.op then rest else record x { op = unsaved x.op } ∷ rest

-- A job that has to be formatted again is retried.
unfoldable pub reformat : FaxRequest → FaxRequest
reformat r = elim r.status [
  | send_reformat ↦ record r { items = unformat r.items; pagehandling = none; status = send_retry }
  | _ ↦ r
]

-- A job that is to be suspended is retried too, unless it is done.
unfoldable pub interrupt : Bool → FaxRequest → FaxRequest
interrupt pending r =
    if not (is_send_done r.status) && pending
    then record r { notice = interrupted; status = send_retry }
    else r

abbrev pub starts_with : ℕ → List FaxItem → Bool
starts_with c [] = false
starts_with c (x ∷ xs) = x.item == c

abbrev pub drop_first : List FaxItem → List FaxItem
drop_first [] = []
drop_first (x ∷ xs) = xs

-- The continuation cover page of the retransmission.
unfoldable pub retry_cover : Env → ℕ → FaxRequest → FaxRequest
retry_cover e j r =
    case_option r.cover
      (if r.useccover && ltb 0 r.npages && e.cover_template
        then record r { cover = some (e.cover_name j) }
        else r)
      (λ c. if starts_with c r.items then record r { items = drop_first r.items } else r)

-- The time of the retry, if the send program set none.
unfoldable pub retry_tts : Env → FaxRequest → ℕ
retry_tts e r =
    if ltb r.tts e.now
    then e.now
      + (if r.retrytime == 0
          then e.requeue_interval / 2 + e.random % e.requeue_interval
          else r.retrytime)
    else r.tts

-- The priority of the retry: bulk jobs yield, others gain.
unfoldable pub retry_priority : ℕ → ℕ
retry_priority pri =
    if not (pri == 255) && ltb 190 pri then pri + 1 else if ltb 0 pri then pri - 1 else pri

-- The job gets the time of its request only where the server set it.
unfoldable pub set_retry : Env → FaxRequest → Job → Job
set_retry e r b = record b {
  tts = if ltb r.tts e.now then retry_tts e r else b.tts;
  pri = retry_priority b.pri;
  state = if ltb e.now (retry_tts e r) then state_sleeping else state_ready;
}

-- Back on a queue.
unfoldable pub requeue : Env → ℕ → FaxRequest → Server → Server
requeue e j r s =
    if ltb e.now r.tts
    then s ▷ set_sleep j r.tts ▷ post send_requeue j ▷ notify_requeued j r requeued
    else set_ready_to_run e j s

unfoldable pub end_suspend : ℕ → Server → Server
end_suspend j s = modify j (λ b. record b { suspend_pending = false }) s

-- The branch of sendJobDone for a job that is retried.
unfoldable pub retry_send : Env → ℕ → FaxRequest → Server → Server
retry_send e j r s =
    let r' = record (retry_cover e j r) { tts = retry_tts e r } in
    let s' = s ▷ modify j (set_retry e r) ▷ update_request j r' in
    if (s.job j).suspend_pending
    then end_suspend j s'
    else s' ▷ remove_if_on_list j ▷ requeue e j r'

abbrev pub is_send_failed : SendStatus → Bool
is_send_failed send_failed = true
is_send_failed _ = false

unfoldable pub close_job : Env → ℕ → JobState → JobStatus → Bool → FaxRequest → Server → Server
close_job e j st why force r s =
    s ▷ set_state st j ▷ delete_request_ptr e j r why force ▷ post send_finished j ▷ set_dead j

-- The branch for a job that is finished.
unfoldable pub finish_send : Env → ℕ → FaxRequest → Server → Server
finish_send e j r s =
    if is_send_failed r.status
    then close_job e j state_failed failed true r s
    else close_job e j state_done done false r s

unfoldable pub leave_batch : ℕ → ℕ → Server → Server
leave_batch commid j s = modify j (λ b. record b { bnext = none; bprev = none; commid = commid }) s

-- The branch for a job whose kill time went by during the send.
unfoldable pub kill_sent : Env → ℕ → FaxRequest → Server → Server
kill_sent e j r s =
    let r' = record r { notice = killtime_expired } in
    s
    ▷ update_request j r'
    ▷ set_state state_failed j
    ▷ delete_request_ptr e j r' timedout true
    ▷ set_dead j

unfoldable pub dispose : Env → ℕ → FaxRequest → Server → Server
dispose e j r s =
    let b = s.job j in
    if b.killtime == 0 && not b.suspend_pending && is_retry r.status
    then kill_sent e j r s
    else if is_retry r.status
    then retry_send e j r s
    else finish_send e j r s

abbrev pub is_reformat : SendStatus → Bool
is_reformat send_reformat = true
is_reformat _ = false

-- faxQueueApp::sendJobDone(Job&, FaxRequest*)
unfoldable pub send_job_done_one : Env → ℕ → FaxRequest → Server → Server
send_job_done_one e j r s =
    let r' = interrupt (s.job j).suspend_pending (reformat (check_run r)) in
    s
    ▷ leave_batch r.commid j
    ▷ post send_end j
    ▷ (λ t. if is_reformat r.status then post send_reformatted j t else t)
    ▷ dispose e j r'

unfoldable pub done_if_read : Env → ℕ → Option FaxRequest → Server → Server
done_if_read e j r s = case_option r (set_dead j s) (λ q. send_job_done_one e j q s)

-- The rest of the batch; each request is read when its turn comes.
unfoldable pub done_rest : Env → List ℕ → Server → Server
done_rest e [] s = s
done_rest e (j ∷ js) s = s ▷ done_if_read e j (read_request j s) ▷ done_rest e js

unfoldable pub done_batch : Env → Option FaxRequest → List ℕ → Server → Server
done_batch e r [] s = s
done_batch e r (j ∷ js) s = s ▷ done_if_read e j r ▷ done_rest e js

abbrev pub call_failed : FaxRequest → Bool
call_failed r = not (is_send_done r.status || is_reformat r.status)

-- What becomes of the jobs blocked on the destination.
unfoldable pub settle_blocked : Env → ℕ → Option FaxRequest → Server → Server
settle_blocked e d none s = unblock_dest_jobs e d 1 s
settle_blocked e d (some r) s =
    if call_failed r
    then delay_blocked (length (s.queue (blockedq d))) e d r s
    else unblock_dest_jobs e d 1 s

unfoldable pub end_call : Bool → ℕ → Server → Server
end_call proxied d s =
    if proxied
    then modify_dest d proxy_hangup (record s { num_proxy_jobs = s.num_proxy_jobs - 1 })
    else modify_dest d hangup s

-- faxQueueApp::sendJobDone(Job&, int); the exit status says whether the job was sent by proxy.
unfoldable pub send_job_done : Env → ℕ → Bool → Server → Server
send_job_done e j proxied s =
    let d = (s.job j).dest in
    let s1 = s ▷ end_call proxied d ▷ release_if_held j in
    let r = read_request j s1 in
    let s2 = settle_blocked e d r s1 in s2 ▷ done_batch e r (batch_chain 64 s2 j) ▷ poke_scheduler
