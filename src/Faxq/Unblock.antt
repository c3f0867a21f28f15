-- ===== src/Faxq/Unblock.antt =====
-- Jobs that wait for a destination (faxd/faxQueueApp.c++: unblockDestJobs). The loop takes a job
-- off the blocked list in each round; its fuel is the length of that list.
use hylafaxplus.Prelude.{
  ℕ, zero, suc, ◌+◌, ◌-◌, Bool, ◌&&◌, ◌||◌, not, Option, none, some, length, ltb, leb, ◌==◌,
  if◌then◌else◌, case_option, ◌▷◌,
}
use hylafaxplus.Faxq.State.{no_notice, FaxRequest, JobControlInfo, DestInfo, blockedq, Server, Env}
use hylafaxplus.Faxq.Dest.{block, next_blocked}
use hylafaxplus.Faxq.Request.{read_request, update_request}
use hylafaxplus.Faxq.Place.{set_ready_to_run, set_dead}

-- isOKToCall
unfoldable pub is_ok_to_call : DestInfo → JobControlInfo → ℕ → Bool
is_ok_to_call di jci n = leb (di.call_count + n) jci.max_concurrent_calls

-- The calls n that the jobs released so far will need, and the jobs b in the last of them.
unfoldable pub count_call : Bool → ℕ → ℕ × ℕ → ℕ × ℕ
count_call batching max (n, b) =
    if not batching
    then (n + 1, b)
    else if ltb max (b + 1)
    then (n + 1, b + 1 - max)
    else (n, b + 1)

-- The test behind a job that was released: is the loop left?
unfoldable pub stop_unblocking : ℕ → ℕ → ℕ → ℕ → Server → Bool
stop_unblocking d j n force s =
    let di = s.dests d in
    let jci = (s.job j).jci in
    ltb 0 di.blocked_count
    && force == 0
    && not (jci.max_concurrent_calls == 0)
    && not (is_ok_to_call di jci n)

unfoldable pub make_ready : Env → ℕ → FaxRequest → Server → Server
make_ready e j r s = s ▷ set_ready_to_run e j ▷ update_request j (record r { notice = no_notice })

-- The test behind a released job, with the calls counted anew; `again` is the rest of the loop.
unfoldable pub go_on : (ℕ × ℕ → ℕ → Server → Server) → ℕ → ℕ × ℕ → ℕ → ℕ → Server → Server
go_on again d c force j s = if stop_unblocking d j c.0 force s then s else again c force s

-- A job that may run now.
unfoldable pub unblock_job :
    (ℕ × ℕ → ℕ → Server → Server) → Env → ℕ → ℕ × ℕ → ℕ → ℕ → Server → Server
unblock_job again e d c force j s =
    case_option (read_request j s) (again c force (set_dead j s)) (λ r.
      go_on again d (count_call (e.batching d) e.max_batch_jobs c) (force - 1) j
        (make_ready e j r s))

unfoldable pub may_unblock : ℕ → ℕ → ℕ → ℕ → Server → Bool
may_unblock d j n force s =
    let jci = (s.job j).jci in
    ltb 0 force || jci.max_concurrent_calls == 0 || is_ok_to_call (s.dests d) jci n

unfoldable pub unblock_next :
    (ℕ × ℕ → ℕ → Server → Server) → Env → ℕ → ℕ × ℕ → ℕ → Option ℕ × Server → Server
unblock_next again e d c force (none, s) = s
unblock_next again e d c force (some j, s) =
    if may_unblock d j c.0 force s then unblock_job again e d c force j s else block d j s

unfoldable pub unblock_loop : ℕ → Env → ℕ → ℕ × ℕ → ℕ → Server → Server
unblock_loop zero e d c force s = s
unblock_loop (suc fuel) e d c force s =
    unblock_next (unblock_loop fuel e d) e d c force (next_blocked d s)

-- faxQueueApp::unblockDestJobs
unfoldable pub unblock_dest_jobs : Env → ℕ → ℕ → Server → Server
unblock_dest_jobs e d force s = unblock_loop (length (s.queue (blockedq d))) e d (1, 1) force s
