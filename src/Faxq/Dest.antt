-- ===== src/Faxq/Dest.antt =====
-- Per-destination bookkeeping (faxd/DestInfo.c++, faxd/DestInfo.h). The counts are u_short.
use hylafaxplus.Prelude.{
  ℕ, ◌+◌, ◌-◌, ◌%◌, Bool, true, false, Option, none, some, List, [], ◌∷◌, ◌++◌, ltb, leb, ◌==◌,
  if◌then◌else◌, count, erase, ◌▷◌,
}
use hylafaxplus.Faxq.State.{DestInfo, Server, blockedq, modify_dest}
use hylafaxplus.Faxq.Link.{insert_in, unlink_from, remove}

abbrev pub u16 : ℕ → ℕ
u16 n = n % 65536

abbrev pub mem : ℕ → List ℕ → Bool
mem j js = ltb 0 (count j js)

-- DestInfo::DestInfo()
unfoldable pub fresh : DestInfo
fresh = record {
  active_count = 0;
  blocked_count = 0;
  call_count = 0;
  running = [];
  pending_connection = false;
}

-- DestInfo::isActive
unfoldable pub is_active : ℕ → DestInfo → Bool
is_active j di = mem j di.running

-- DestInfo::active: the job goes to the end of the list, unless it is there.
unfoldable pub active : ℕ → DestInfo → DestInfo
active j di =
    if mem j di.running
    then di
    else record di { running = di.running ++ j ∷ []; active_count = u16 (di.active_count + 1) }

-- DestInfo::done
unfoldable pub done_job : ℕ → DestInfo → DestInfo
done_job j di =
    if mem j di.running
    then record di { running = erase j di.running; active_count = di.active_count - 1 }
    else di

-- DestInfo::isEmpty
unfoldable pub is_empty : DestInfo → Bool
is_empty di = di.active_count + di.blocked_count == 0

-- DestInfo::proxyCall, proxyHangup, call and hangup
unfoldable pub proxy_call : DestInfo → DestInfo
proxy_call di = record di { call_count = u16 (di.call_count + 1) }

unfoldable pub proxy_hangup : DestInfo → DestInfo
proxy_hangup di = record di { call_count = di.call_count - 1 }

unfoldable pub call : DestInfo → DestInfo
call di = record di { call_count = u16 (di.call_count + 1); pending_connection = true }

unfoldable pub hangup : DestInfo → DestInfo
hangup di = record di { call_count = di.call_count - 1; pending_connection = false }

unfoldable pub count_blocked : DestInfo → DestInfo
count_blocked di = record di { blocked_count = u16 (di.blocked_count + 1) }

-- if (blockedCount) blockedCount--;
unfoldable pub discount_blocked : DestInfo → DestInfo
discount_blocked di = record di { blocked_count = di.blocked_count - 1 }

-- DestInfo::block: in front of the first job of a higher priority number.
unfoldable pub block : ℕ → ℕ → Server → Server
block d j s =
    s
    ▷ insert_in (blockedq d) (λ i. leb (s.job i).pri (s.job j).pri) j
    ▷ modify_dest d count_blocked

-- DestInfo::nextBlocked
unfoldable pub next_blocked_of : List ℕ → ℕ → Server → Option ℕ × Server
next_blocked_of [] d s = (none, s)
next_blocked_of (j ∷ js) d s = (some j, s ▷ remove j ▷ modify_dest d discount_blocked)

unfoldable pub next_blocked : ℕ → Server → Option ℕ × Server
next_blocked d s = next_blocked_of (s.queue (blockedq d)) d s

-- DestInfo::unblock: the count only; the caller takes the job off the list.
unfoldable pub unblock : ℕ → ℕ → Server → Server
unblock d j s = if mem j (s.queue (blockedq d)) then modify_dest d discount_blocked s else s

-- DestInfo::~DestInfo and the removal from destJobs: the list head leaves its list. A job that was
-- alone with it is linked to itself afterwards; several jobs would be left with no head.
unfoldable pub unhead : List ℕ → ℕ → Server → Server
unhead [] d s = s
unhead (j ∷ []) d s = unlink_from (some (blockedq d)) j s
unhead (j ∷ i ∷ js) d s = record s { faulted = true }

unfoldable pub drop : ℕ → Server → Server
drop d s = s ▷ unhead (s.queue (blockedq d)) d ▷ modify_dest d (λ _. fresh)
