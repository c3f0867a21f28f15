-- ===== src/Faxq/Start.antt =====
-- Starting a job that is sent by itself: the end of runScheduler's loop for a job that gets a modem
-- (faxd/faxQueueApp.c++: runScheduler, processJob; Modem::assign of faxd/Modem.c++).
use hylafaxplus.Prelude.{ℕ, none, some, ◌▷◌}
use hylafaxplus.Faxq.State.{
  busy, no_notice, FaxRequest, modem_assign, Server, put, modify, modify_dest,
}
use hylafaxplus.Faxq.Link.{remove_if_on_list}
use hylafaxplus.Faxq.Dest
use hylafaxplus.Faxq.Request.{update_request}
use hylafaxplus.Faxq.Place.{post, set_active}

-- Modem::assign, when the lock on the modem is got.
unfoldable pub assign : ℕ → ℕ → Server → Server
assign m j s =
    modify j (λ b. record b { modem = some m })
      (record s { modem_state = put s.modem_state m busy })

unfoldable pub clear_bnext : ℕ → Server → Server
clear_bnext j s = modify j (λ b. record b { bnext = none }) s

unfoldable pub clear_commid : ℕ → Server → Server
clear_commid j s = modify j (λ b. record b { commid = 0 }) s

-- From the assignment of modem m until the job is on the active list and its file says so.
unfoldable pub start_job : ℕ → FaxRequest → ℕ → Server → Server
start_job m r j s =
    s
    ▷ assign m j
    ▷ post modem_assign m
    ▷ remove_if_on_list j
    ▷ clear_bnext j
    ▷ modify_dest (s.job j).dest Dest.call
    ▷ clear_commid j
    ▷ modify_dest (s.job j).dest (Dest.active j)
    ▷ set_active j
    ▷ update_request j (record r { notice = no_notice })
