-- ===== src/Faxq/Schedule.antt =====
-- What the scheduler decides about a job on a run queue, and what it then does with the job (the loop
-- of runScheduler in faxd/faxQueueApp.c++, up to the assignment of a modem).
use hylafaxplus.Prelude.{
  ℕ, ◌+◌, ◌%◌, ◌^◌, Bool, true, ◌&&◌, not, Option, none, some, ltb, leb, ◌==◌, if◌then◌else◌,
  case_option, ◌▷◌,
}
use hylafaxplus.Faxq.State.{
  send_failed, Notice, no_notice, concurrent_calls, time_of_day, staggering, proxy_limit,
  by_control, too_many_dials, too_many_tries, too_many_pages, rejected, FaxRequest, JobControlInfo,
  DestInfo, job_process, Server, Env, modify, modify_dest, poke_scheduler,
}
use hylafaxplus.Faxq.Link.{remove_if_on_list}
use hylafaxplus.Faxq.Dest.{u16, proxy_call, block}
use hylafaxplus.Faxq.Request.{read_request, update_request, delete_request_ptr}
use hylafaxplus.Faxq.Place.{post, set_active, set_dead}
use hylafaxplus.Faxq.Delay.{set_tts, delay_job, block_job, reject_job}
use hylafaxplus.Faxq.Start.{clear_commid}
use hylafaxplus.Faxq.Unblock.{is_ok_to_call, unblock_dest_jobs}

-- The rest of what the loop reads. `next_send` and `next_tod` are the next times at which job control
-- and the job's own restrictions allow it to start.
pub record Limits : Type 0 where
  pub stagger_calls : ℕ
  pub last_call : ℕ
  pub max_proxy_jobs : ℕ
  pub proxy : ℕ → Bool
  pub next_send : ℕ → ℕ
  pub next_tod : ℕ → ℕ

-- What becomes of the job.
pub data Verdict : Type 0 where
  vanished held_back by_proxy for_modem : Verdict
  refused : Notice → Verdict
  postponed : Notice → ℕ → Verdict

abbrev pub u32 : ℕ → ℕ
u32 n = n % 2 ^ 32

-- fxmin((u_short) a, b)
abbrev pub capped : ℕ → ℕ → ℕ
capped a b = if ltb (u16 a) b then u16 a else b

-- The four reasons for which a job is rejected.
unfoldable pub refusal : JobControlInfo → FaxRequest → Option Notice
refusal jci r =
    let max_dials = capped jci.max_dials r.maxdials in
    let max_tries = capped jci.max_tries r.maxtries in
    if leb max_dials r.totdials
    then some (too_many_dials r.totdials max_dials)
    else if leb max_tries r.tottries
    then some (too_many_tries r.tottries max_tries)
    else if ltb jci.max_send_pages r.totpages
    then some (too_many_pages r.totpages jci.max_send_pages)
    else if jci.reject_notice
    then some by_control
    else none

-- Would the job exceed the calls that its destination may have?
unfoldable pub is_held : JobControlInfo → DestInfo → Bool
is_held jci di =
    if jci.max_concurrent_calls == 0 then di.pending_connection else not (is_ok_to_call di jci 1)

unfoldable pub is_staggered : Limits → ℕ → Bool
is_staggered g now =
    not (g.stagger_calls == 0) && ltb (u32 now) (u32 (u32 g.last_call + g.stagger_calls))

-- The branches behind the concurrent calls.
unfoldable pub when_free : Env → Limits → ℕ → Server → Verdict
when_free e g j s =
    if not (g.next_send j == e.now)
    then postponed time_of_day (g.next_send j)
    else if not (g.next_tod j == e.now)
    then postponed time_of_day (g.next_tod j)
    else if is_staggered g e.now
    then postponed staggering (g.last_call + g.stagger_calls)
    else if not (g.proxy j)
    then for_modem
    else if leb g.max_proxy_jobs s.num_proxy_jobs
    then postponed proxy_limit (e.now + e.random % e.requeue_interval)
    else by_proxy

unfoldable pub verdict : Env → Limits → ℕ → FaxRequest → Server → Verdict
verdict e g j r s =
    let b = s.job j in
    case_option (refusal b.jci r)
      (if is_held b.jci (s.dests b.dest) then held_back else when_free e g j s) refused

-- job.tts is not in the future.
unfoldable pub clamp_tts : ℕ → ℕ → Server → Server
clamp_tts now j s = if ltb now (s.job j).tts then set_tts now j s else s

unfoldable pub set_start : ℕ → ℕ → Server → Server
set_start now j s = modify j (λ b. record b { start = now }) s

unfoldable pub refuse : Env → ℕ → FaxRequest → Notice → Server → Server
refuse e j r reason s =
    s
    ▷ reject_job j
    ▷ delete_request_ptr e j (record r { status = send_failed; notice = reason }) rejected true

unfoldable pub hold_back : ℕ → FaxRequest → Server → Server
hold_back j r s = s ▷ block_job j r concurrent_calls ▷ remove_if_on_list j ▷ block (s.job j).dest j

-- What the parent does at the end of sendViaProxy, when the child has been started.
unfoldable pub count_proxy_job : ℕ → Server → Server
count_proxy_job d s =
    let s' = modify_dest d proxy_call s in
    record s' { num_proxy_jobs = u32 (s'.num_proxy_jobs + 1) }

unfoldable pub give_to_proxy : Env → ℕ → FaxRequest → Server → Server
give_to_proxy e j r s =
    s
    ▷ unblock_dest_jobs e (s.job j).dest 0
    ▷ poke_scheduler
    ▷ remove_if_on_list j
    ▷ clear_commid j
    ▷ set_start e.now j
    ▷ set_active j
    ▷ update_request j (record r { notice = no_notice })
    ▷ count_proxy_job (s.job j).dest

unfoldable pub carry_out : Env → ℕ → FaxRequest → Verdict → Server → Server
carry_out e j r vanished s = set_dead j s
carry_out e j r held_back s = hold_back j r s
carry_out e j r by_proxy s = give_to_proxy e j r s
carry_out e j r for_modem s = s
carry_out e j r (refused reason) s = refuse e j r reason s
carry_out e j r (postponed mesg tts) s = s ▷ remove_if_on_list j ▷ delay_job j r mesg tts

-- One job of the loop: the verdict, and the server afterwards.
unfoldable pub consider_read : Env → Limits → ℕ → Option FaxRequest → Server → Verdict × Server
consider_read e g j none s = (vanished, set_dead j s)
consider_read e g j (some r) s =
    let s' = clamp_tts e.now j s in let v = verdict e g j r s' in (v, carry_out e j r v s')

unfoldable pub consider : Env → Limits → ℕ → Server → Verdict × Server
consider e g j s = s ▷ post job_process j ▷ (λ s'. consider_read e g j (read_request j s') s')
