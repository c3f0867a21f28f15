-- ===== src/Faxq/Waiting.antt =====
-- The jobs that wait for a destination, when a call to it has failed (sendJobDone of
-- faxd/faxQueueApp.c++).
use hylafaxplus.Prelude.{
  ℕ, Bool, true, false, Option, none, some, List, [], ◌∷◌, length, count, erase, if◌then◌else◌, ◌≡◌,
  refl, sym, ap, ◌∙◌, arith, Option-cases, inl, inr,
}
use hylafaxplus.Faxq.State.{
  JobState, FaxRequest, Notice, JobStatus, requeued, delayed_by_call, QueueId, blockedq, DestInfo,
  Server, TriggerEvent, Env, modify, modify_dest, emit, poke_scheduler,
}
use hylafaxplus.Faxq.Link.{on, Linked, insert_in, unlink_from, remove, set_bnext, set_bprev}
use hylafaxplus.Faxq.Dest.{discount_blocked, next_blocked, next_blocked_of}
use hylafaxplus.Faxq.Request.{read_request, write_file, update_request, notify_sender}
use hylafaxplus.Faxq.Place.{
  post, set_state, clear_modem, clear_modems, release, release_modem_of, release_modem,
  release_if_held, start_tts_timer, set_sleep,
}
use hylafaxplus.Faxq.Delay.{notify_requeued, set_tts, delay_job}
use hylafaxplus.Faxq.SendDone.{
  call_failed, delay_blocked_one, delay_next, delay_blocked, settle_blocked,
}
use hylafaxplus.Faxq.Linked.Off.{modify_dest-Off, remove-Off}
use hylafaxplus.Faxq.Linked.Place.{modify_dest-Linked}
use hylafaxplus.Faxq.Link.{remove-Linked}
use hylafaxplus.Faxq.Linked.Blocked.{listed, delay_blocked_one-Linked}

erase-head : (j : ℕ) (js : List ℕ) → erase j (j ∷ js) ≡ js
unfolding erase
erase-head j js = ground arith

module _ (d : ℕ) where
  abbrev pub waiting : Server → List ℕ
  waiting s = s.queue (blockedq d)

  if-waiting :
      (b : Bool) (x y : Server) (js : List ℕ)
      → waiting x ≡ js
      → waiting y ≡ js
      → waiting (if b then x else y) ≡ js
  if-waiting true x y js h k = h
  if-waiting false x y js h k = k

  -- Releasing a modem and putting a job to sleep leave the blocked list alone.
  clear_modem-waiting : (j : ℕ) (s : Server) → waiting (clear_modem j s) ≡ waiting s
  unfolding clear_modem modify
  clear_modem-waiting j s = ground arith

  clear_modems-waiting : (js : List ℕ) (s : Server) → waiting (clear_modems js s) ≡ waiting s
  unfolding clear_modems
  clear_modems-waiting [] s = refl
  clear_modems-waiting (j ∷ js) s =
      clear_modems-waiting js (clear_modem j s) ∙ clear_modem-waiting j s

  release_if_held-waiting : (j : ℕ) (s : Server) → waiting (release_if_held j s) ≡ waiting s
  unfolding release_if_held release_modem release_modem_of post emit release poke_scheduler
  release_if_held-waiting j s = elim (Option-cases (s.job j).modem) [
    | inl none_held ↦ rw none_held refl
    | inr (m, held) ↦ rw held (clear_modems-waiting _ _)
  ]

  set_sleep-waiting : (j tts : ℕ) (s : Server) → waiting (set_sleep j tts s) ≡ waiting s
  unfolding set_sleep insert_in start_tts_timer post modify emit
  set_sleep-waiting j tts s = ground arith

  update_request-waiting :
      (j : ℕ) (r : FaxRequest) (s : Server) → waiting (update_request j r s) ≡ waiting s
  unfolding update_request write_file
  update_request-waiting j r s = ground arith

  notify_requeued-waiting :
      (j : ℕ) (r : FaxRequest) (why : JobStatus) (s : Server)
      → waiting (notify_requeued j r why s) ≡ waiting s
  unfolding notify_requeued notify_sender emit
  notify_requeued-waiting j r why s = ground arith

  set_tts-waiting : (tts j : ℕ) (s : Server) → waiting (set_tts tts j s) ≡ waiting s
  unfolding set_tts modify
  set_tts-waiting tts j s = refl

  set_state-waiting : (st : JobState) (j : ℕ) (s : Server) → waiting (set_state st j s) ≡ waiting s
  unfolding set_state modify
  set_state-waiting st j s = refl

  post-waiting : (t : TriggerEvent) (j : ℕ) (s : Server) → waiting (post t j s) ≡ waiting s
  unfolding post emit
  post-waiting t j s = refl

  delay_job-waiting :
      (j : ℕ) (r : FaxRequest) (mesg : Notice) (tts : ℕ) (s : Server)
      → waiting (delay_job j r mesg tts s) ≡ waiting s
  unfolding delay_job
  delay_job-waiting j r mesg tts s =
      release_if_held-waiting j _
      ∙ notify_requeued-waiting j r requeued _
      ∙ post-waiting _ j _
      ∙ set_sleep-waiting j tts _
      ∙ update_request-waiting j _ _
      ∙ set_tts-waiting tts j _
      ∙ set_state-waiting _ j s

  pub delay_blocked_one-waiting :
      (e : Env) (req : FaxRequest) (c : ℕ) (s : Server)
      → waiting (delay_blocked_one e req c s) ≡ waiting s
  unfolding delay_blocked_one
  delay_blocked_one-waiting e req c s = elim (Option-cases (read_request c s)) [
    | inl unread ↦ rw unread refl
    | inr (r, found) ↦ rw found (
        if-waiting (e.share_failure req.errorcode) _ _ (waiting s)
          (delay_job-waiting c _ req.notice req.tts s)
          (delay_job-waiting c r delayed_by_call req.tts s))
  ]

  set_bprev-waiting : (o p : Option ℕ) (s : Server) → waiting (set_bprev o p s) ≡ waiting s
  unfolding set_bprev modify
  set_bprev-waiting none p s = refl
  set_bprev-waiting (some n) p s = refl

  set_bnext-waiting : (o n : Option ℕ) (s : Server) → waiting (set_bnext o n s) ≡ waiting s
  unfolding set_bnext modify
  set_bnext-waiting none n s = refl
  set_bnext-waiting (some p) n s = refl

  unlink_from-waiting :
      (o : Option QueueId) (j : ℕ) (s : Server)
      → o ≡ some (blockedq d)
      → waiting (unlink_from o j s) ≡ erase j (waiting s)
  unfolding unlink_from modify
  unlink_from-waiting o j s h = rw h (ground arith)

  on_some :
      (j : ℕ) (js : List ℕ) (o : Option QueueId)
      → count j (j ∷ js) ≡ on (blockedq d) o
      → o ≡ some (blockedq d)
  on_some j js none h = absurd (ground arith)
  on_some j js (some q) h = ground arith

  pub modify_dest-waiting :
      (f : DestInfo → DestInfo) (s : Server) → waiting (modify_dest d f s) ≡ waiting s
  unfolding modify_dest
  modify_dest-waiting f s = refl

  -- Taking the first job of the list leaves the others.
  pub remove-waiting :
      (j : ℕ) (js : List ℕ) (s : Server)
      → (s.job j).link ≡ some (blockedq d)
      → waiting s ≡ j ∷ js
      → waiting (remove j s) ≡ js
  unfolding remove modify
  remove-waiting j js s h e =
      let b = s.job j in
      unlink_from-waiting b.link j _ h
      ∙ ap (erase j) (set_bnext-waiting b.bprev b.bnext _ ∙ set_bprev-waiting b.bnext b.bprev s ∙ e)
      ∙ erase-head j js

  module _ {reg : ℕ → Bool} where
    pub first-link :
        (j : ℕ) (js : List ℕ) (s : Server)
        → Linked reg s
        → waiting s ≡ j ∷ js
        → (s.job j).link ≡ some (blockedq d)
    first-link j js s l e = on_some j js (s.job j).link (sym (ap (count j) e) ∙ l.at (blockedq d) j)

    delay_blocked-waiting :
        (js : List ℕ) (e : Env) (req : FaxRequest) (s : Server)
        → Linked reg s
        → waiting s ≡ js
        → waiting (delay_blocked (length js) e d req s) ≡ []
    unfolding delay_blocked next_blocked next_blocked_of delay_next
    delay_blocked-waiting [] e req s l h = h
    delay_blocked-waiting (j ∷ js) e req s l h =
        let l' = modify_dest-Linked d discount_blocked _ (remove-Linked j s l) in
        let off = modify_dest-Off d discount_blocked _ (remove-Off j s) in
        let left = remove-waiting j js s (first-link j js s l h) h in
        let known = listed (blockedq d) j s l (rw h (ground arith)) in
        let rest =
          delay_blocked-waiting js e req _ (delay_blocked_one-Linked e req j _ known off l')
            (delay_blocked_one-waiting e req j _ ∙ modify_dest-waiting _ _ ∙ left) in
        rw h rest

    pub settle_blocked-waiting :
        (e : Env) (r : FaxRequest) (s : Server)
        → call_failed r ≡ true
        → Linked reg s
        → waiting (settle_blocked e d (some r) s) ≡ []
    unfolding settle_blocked
    settle_blocked-waiting e r s failed l =
        rw failed (delay_blocked-waiting (waiting s) e r s l refl)
