-- ===== src/Faxq/Linked/Blocked.antt =====
-- The links under the loops over the jobs blocked on a destination (faxd/faxQueueApp.c++).
use hylafaxplus.Prelude.{
  ℕ, zero, suc, ◌<◌, Bool, true, Option, none, some, List, [], ◌∷◌, count, ◌≡◌, refl, ◌-◌, arith,
  Bool-cases, inl, inr,
}
use hylafaxplus.Faxq.State.{FaxRequest, QueueId, Server, Env, blockedq, delayed_by_call}
use hylafaxplus.Faxq.Request.{read_request}
use hylafaxplus.Faxq.Link.{Linked, Off, insert_in-Linked, remove-Linked}
use hylafaxplus.Faxq.Dest.{block, unblock, next_blocked, next_blocked_of}
use hylafaxplus.Faxq.Unblock.{
  go_on, make_ready, unblock_job, unblock_next, unblock_loop, unblock_dest_jobs,
}
use hylafaxplus.Faxq.SendDone.{delay_blocked_one, delay_next, delay_blocked, settle_blocked}
use hylafaxplus.Faxq.Linked.Off.{modify_dest-Off, remove-Off}
use hylafaxplus.Faxq.Linked.Place.{
  if-Linked, case_option-Linked, modify_dest-Linked, update_request-Linked, set_ready_to_run-Linked,
  set_dead-Linked,
}
use hylafaxplus.Faxq.Linked.Jobs.{delay_job-Linked}

-- What nextBlocked returns: a registered job that is on no list now, or none.
abbrev Taken : (ℕ → Bool) → Option ℕ × Server → Type 0
Taken reg (none, s) = Linked reg s
Taken reg (some j, s) = (reg j ≡ true) × Off j s × Linked reg s

module _ {reg : ℕ → Bool} where
  -- A job on a list is registered.
  pub listed :
      (q : QueueId) (j : ℕ) (s : Server) → Linked reg s → 0 < count j (s.queue q) → reg j ≡ true
  listed q j s l h = elim (Bool-cases (reg j)) [
    | inl yes_reg ↦ yes_reg
    | inr not_reg ↦ absurd (ground (arith, l.free j not_reg, l.at q j))
  ]

  pub block-Linked :
      (d j : ℕ) (s : Server) → reg j ≡ true → Off j s → Linked reg s → Linked reg (block d j s)
  unfolding block
  block-Linked d j s h o l = modify_dest-Linked d _ _ (insert_in-Linked (blockedq d) _ j s h o l)

  pub unblock-Linked : (d j : ℕ) (s : Server) → Linked reg s → Linked reg (unblock d j s)
  unfolding unblock
  unblock-Linked d j s l = if-Linked _ (modify_dest-Linked d _ s l) l

  next_blocked-Taken : (d : ℕ) (s : Server) → Linked reg s → Taken reg (next_blocked d s)
  unfolding next_blocked next_blocked_of
  next_blocked-Taken d s l = go (s.queue (blockedq d)) refl
    where
      go : (js : List ℕ) → s.queue (blockedq d) ≡ js → Taken reg (next_blocked_of js d s)
      go [] e = l
      go (j ∷ js) e = (
        listed (blockedq d) j s l (rw e (ground arith)),
        modify_dest-Off d _ _ (remove-Off j s),
        modify_dest-Linked d _ _ (remove-Linked j s l),
      )

  make_ready-Linked :
      (e : Env) (j : ℕ) (r : FaxRequest) (s : Server)
      → reg j ≡ true
      → Off j s
      → Linked reg s
      → Linked reg (make_ready e j r s)
  unfolding make_ready
  make_ready-Linked e j r s h o l =
      update_request-Linked j _ _ (set_ready_to_run-Linked e j s h o l)

  module _ (again : ℕ × ℕ → ℕ → Server → Server)
      (keeps : (c : ℕ × ℕ) (force : ℕ) (s : Server)
        → Linked reg s
        → Linked reg (again c force s)) where
    go_on-Linked :
        (d : ℕ) (c : ℕ × ℕ) (force j : ℕ) (s : Server)
        → Linked reg s
        → Linked reg (go_on again d c force j s)
    unfolding go_on
    go_on-Linked d c force j s l = if-Linked _ l (keeps c force s l)

    unblock_job-Linked :
        (e : Env) (d : ℕ) (c : ℕ × ℕ) (force j : ℕ) (s : Server)
        → reg j ≡ true
        → Off j s
        → Linked reg s
        → Linked reg (unblock_job again e d c force j s)
    unfolding unblock_job
    unblock_job-Linked e d c force j s h o l =
        case_option-Linked (read_request j s) (keeps c force _ (set_dead-Linked j s h l))
          (λ r. go_on-Linked d _ (force - 1) j _ (make_ready-Linked e j r s h o l))

    unblock_next-Linked :
        (e : Env) (d : ℕ) (c : ℕ × ℕ) (force : ℕ) (t : Option ℕ × Server)
        → Taken reg t
        → Linked reg (unblock_next again e d c force t)
    unfolding unblock_next
    unblock_next-Linked e d c force (none, s) t = t
    unblock_next-Linked e d c force (some j, s) t =
        let (h, o, l) = t in
        if-Linked _ (unblock_job-Linked e d c force j s h o l) (block-Linked d j s h o l)

  unblock_loop-Linked :
      (fuel : ℕ) (e : Env) (d : ℕ) (c : ℕ × ℕ) (force : ℕ) (s : Server)
      → Linked reg s
      → Linked reg (unblock_loop fuel e d c force s)
  unfolding unblock_loop
  unblock_loop-Linked zero e d c force s l = l
  unblock_loop-Linked (suc fuel) e d c force s l =
      unblock_next-Linked (unblock_loop fuel e d) (unblock_loop-Linked fuel e d) e d c force _
        (next_blocked-Taken d s l)

  pub unblock_dest_jobs-Linked :
      (e : Env) (d force : ℕ) (s : Server)
      → Linked reg s
      → Linked reg (unblock_dest_jobs e d force s)
  unfolding unblock_dest_jobs
  unblock_dest_jobs-Linked e d force s l = unblock_loop-Linked _ e d (1, 1) force s l

  pub delay_blocked_one-Linked :
      (e : Env) (req : FaxRequest) (c : ℕ) (s : Server)
      → reg c ≡ true
      → Off c s
      → Linked reg s
      → Linked reg (delay_blocked_one e req c s)
  unfolding delay_blocked_one
  delay_blocked_one-Linked e req c s h o l = case_option-Linked (read_request c s) l (λ r.
      if-Linked (e.share_failure req.errorcode) (delay_job-Linked c _ req.notice req.tts s h o l)
        (delay_job-Linked c r delayed_by_call req.tts s h o l))

  delay_next-Linked :
      (again : Server → Server)
      → ((s : Server) → Linked reg s → Linked reg (again s))
      → (e : Env) (req : FaxRequest) (t : Option ℕ × Server) → Taken reg t
      → Linked reg (delay_next again e req t)
  unfolding delay_next
  delay_next-Linked again keeps e req (none, s) t = t
  delay_next-Linked again keeps e req (some c, s) t =
      let (h, o, l) = t in keeps _ (delay_blocked_one-Linked e req c s h o l)

  pub delay_blocked-Linked :
      (fuel : ℕ) (e : Env) (d : ℕ) (req : FaxRequest) (s : Server)
      → Linked reg s
      → Linked reg (delay_blocked fuel e d req s)
  unfolding delay_blocked
  delay_blocked-Linked zero e d req s l = l
  delay_blocked-Linked (suc fuel) e d req s l =
      delay_next-Linked (delay_blocked fuel e d req) (delay_blocked-Linked fuel e d req) e req _
        (next_blocked-Taken d s l)

  pub settle_blocked-Linked :
      (e : Env) (d : ℕ) (r : Option FaxRequest) (s : Server)
      → Linked reg s
      → Linked reg (settle_blocked e d r s)
  unfolding settle_blocked
  settle_blocked-Linked e d none s l = unblock_dest_jobs-Linked e d 1 s l
  settle_blocked-Linked e d (some r) s l =
      if-Linked _ (delay_blocked-Linked _ e d r s l) (unblock_dest_jobs-Linked e d 1 s l)
