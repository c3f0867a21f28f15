-- ===== src/Faxq/Slept.antt =====
-- Where the jobs that were blocked on a destination are, when a call to it has failed (sendJobDone of
-- faxd/faxQueueApp.c++, the loop over di.nextBlocked()).
use mathlib.Core.Path.{subst}
use hylafaxplus.Prelude.{
  ℕ, Bool, true, false, Option, some, List, [], ◌∷◌, length, count, if◌then◌else◌, ◌==◌, ◌≡◌, ◌≢◌,
  refl, sym, ap, ◌∙◌, arith, Bool-cases, Option-cases, ◌⊎◌, inl, inr,
}
use hylafaxplus.Faxq.State.{
  JobState, state_sleeping, FaxRequest, QFile, Notice, JobStatus, requeued, delayed_by_call,
  QueueId, blockedq, sleepq, job_delayed, Server, TriggerEvent, Env, modify, modify_dest, emit,
  poke_scheduler,
}
use hylafaxplus.Faxq.Link.{
  Linked, Off, insert_in, unlink_from, remove, set_bnext, set_bprev, remove-Linked,
}
use hylafaxplus.Faxq.Dest.{discount_blocked, next_blocked, next_blocked_of}
use hylafaxplus.Faxq.Request.{usable, read_request, write_file, update_request, notify_sender}
use hylafaxplus.Faxq.Place.{
  post, set_state, clear_modem, clear_modems, release, release_modem_of, release_modem,
  release_if_held, start_tts_timer, set_sleep,
}
use hylafaxplus.Faxq.Delay.{notify_requeued, set_tts, delay_job}
use hylafaxplus.Faxq.SendDone.{
  call_failed, delay_blocked_one, delay_next, delay_blocked, settle_blocked,
}
use hylafaxplus.Faxq.Linked.Off.{modify_dest-Off, remove-Off}
use hylafaxplus.Faxq.Linked.Place.{modify_dest-Linked}
use hylafaxplus.Faxq.Linked.Blocked.{listed, delay_blocked_one-Linked}
use hylafaxplus.Faxq.Waiting.{
  waiting, first-link, delay_blocked_one-waiting, modify_dest-waiting, remove-waiting,
}
use hylafaxplus.Faxq.Decided.{delay_job-link}

-- What is known of a job: its list, time, state and files.
abbrev Seen : Type 0
Seen = Option QueueId × ℕ × JobState × Bool × ℕ × QFile × QFile

module _ (j : ℕ) where
  abbrev pub seen : Server → Seen
  seen s = let b = s.job j in (b.link, b.tts, b.state, b.in_doneq, b.dest, s.file j, s.doneq j)

  pub seen-read : (s t : Server) → seen t ≡ seen s → read_request j t ≡ read_request j s
  unfolding read_request
  seen-read s t h = ap (λ v. usable v.4 (if v.3 then v.6 else v.5)) h

  clear_modem-seen : (c : ℕ) (s : Server) → seen (clear_modem c s) ≡ seen s
  unfolding clear_modem modify
  clear_modem-seen c s = ground arith

  clear_modems-seen : (cs : List ℕ) (s : Server) → seen (clear_modems cs s) ≡ seen s
  unfolding clear_modems
  clear_modems-seen [] s = refl
  clear_modems-seen (c ∷ cs) s = clear_modems-seen cs (clear_modem c s) ∙ clear_modem-seen c s

  pub release_if_held-seen : (c : ℕ) (s : Server) → seen (release_if_held c s) ≡ seen s
  unfolding release_if_held release_modem release_modem_of post emit release poke_scheduler
  release_if_held-seen c s = elim (Option-cases (s.job c).modem) [
    | inl none_held ↦ rw none_held refl
    | inr (m, held) ↦ rw held (clear_modems-seen _ _)
  ]

  pub notify_requeued-seen :
      (c : ℕ) (r : FaxRequest) (why : JobStatus) (s : Server)
      → seen (notify_requeued c r why s) ≡ seen s
  unfolding notify_requeued notify_sender emit
  notify_requeued-seen c r why s = ground arith

  -- What is done to another job.
  module _ (c : ℕ) (apart : c ≢ j) where
    pub set_state-seen : (st : JobState) (s : Server) → seen (set_state st c s) ≡ seen s
    unfolding set_state modify
    set_state-seen st s = ground (arith, apart)

    set_tts-seen : (t : ℕ) (s : Server) → seen (set_tts t c s) ≡ seen s
    unfolding set_tts modify
    set_tts-seen t s = ground (arith, apart)

    pub update_request-seen : (r : FaxRequest) (s : Server) → seen (update_request c r s) ≡ seen s
    unfolding update_request write_file
    update_request-seen r s = ground (arith, apart)

    pub set_sleep-seen : (t : ℕ) (s : Server) → seen (set_sleep c t s) ≡ seen s
    unfolding set_sleep insert_in start_tts_timer post modify emit
    set_sleep-seen t s = ground (arith, apart)

    pub post-seen : (t : TriggerEvent) (s : Server) → seen (post t c s) ≡ seen s
    unfolding post emit
    post-seen t s = refl

    delay_job-seen :
        (r : FaxRequest) (mesg : Notice) (t : ℕ) (s : Server)
        → seen (delay_job c r mesg t s) ≡ seen s
    unfolding delay_job
    delay_job-seen r mesg t s =
        release_if_held-seen c _
        ∙ notify_requeued-seen c r requeued _
        ∙ post-seen job_delayed _
        ∙ set_sleep-seen t _
        ∙ update_request-seen _ _
        ∙ set_tts-seen t _
        ∙ set_state-seen _ s

    pub if-seen :
        (b : Bool) (x y s : Server)
        → seen x ≡ seen s
        → seen y ≡ seen s
        → seen (if b then x else y) ≡ seen s
    if-seen true x y s h k = h
    if-seen false x y s h k = k

    delay_blocked_one-seen :
        (e : Env) (req : FaxRequest) (s : Server) → seen (delay_blocked_one e req c s) ≡ seen s
    unfolding delay_blocked_one
    delay_blocked_one-seen e req s = elim (Option-cases (read_request c s)) [
      | inl unread ↦ rw unread refl
      | inr (r, found) ↦ rw found (
          if-seen (e.share_failure req.errorcode) _ _ s (delay_job-seen _ req.notice req.tts s)
            (delay_job-seen r delayed_by_call req.tts s))
    ]

    pub remove-seen : (s : Server) → seen (remove c s) ≡ seen s
    unfolding remove unlink_from set_bnext set_bprev modify
    remove-seen s = ground (arith, apart)

  -- The job that is delayed sleeps until the time given.
  abbrev pub IsAsleep : ℕ → Server → Type 0
  IsAsleep t s =
      ((s.job j).link ≡ some sleepq) × ((s.job j).tts ≡ t) × ((s.job j).state ≡ state_sleeping)

  pub IsAsleep-seen : (t : ℕ) (s u : Server) → seen u ≡ seen s → IsAsleep t s → IsAsleep t u
  IsAsleep-seen t s u h (a, b, c) = (ap (λ v. v.0) h ∙ a, ap (λ v. v.1) h ∙ b, ap (λ v. v.2) h ∙ c)

  set_sleep-own :
      (t : ℕ) (s : Server)
      → (((set_sleep j t s).job j).tts ≡ t) × (((set_sleep j t s).job j).state ≡ (s.job j).state)
  unfolding set_sleep insert_in start_tts_timer post modify emit
  set_sleep-own t s = (ground arith, ground arith)

  delayed-state :
      (r : FaxRequest) (t : ℕ) (s : Server)
      → ((update_request j r (set_tts t j (set_state state_sleeping j s))).job j).state
        ≡ state_sleeping
  unfolding update_request write_file set_tts set_state modify
  delayed-state r t s = ground arith

  delay_job-IsAsleep :
      (r : FaxRequest) (mesg : Notice) (t : ℕ) (s : Server)
      → Off j s
      → IsAsleep t (delay_job j r mesg t s)
  unfolding delay_job post emit
  delay_job-IsAsleep r mesg t s o = (
    delay_job-link j r mesg t s o.link,
    ap (λ v. v.1) (release_if_held-seen j _ ∙ notify_requeued-seen j r requeued _)
        ∙ (set_sleep-own t _).0,
    ap (λ v. v.2) (release_if_held-seen j _ ∙ notify_requeued-seen j r requeued _)
        ∙ (set_sleep-own t _).1
        ∙ delayed-state _ t s,
  )

  if-IsAsleep :
      (t : ℕ) (b : Bool) (x y : Server)
      → IsAsleep t x
      → IsAsleep t y
      → IsAsleep t (if b then x else y)
  if-IsAsleep t true x y h k = h
  if-IsAsleep t false x y h k = k

  delay_blocked_one-IsAsleep :
      (e : Env) (req q : FaxRequest) (s : Server)
      → Off j s
      → read_request j s ≡ some q
      → IsAsleep req.tts (delay_blocked_one e req j s)
  unfolding delay_blocked_one
  delay_blocked_one-IsAsleep e req q s o found = rw found (
      if-IsAsleep req.tts (e.share_failure req.errorcode) _ _
        (delay_job-IsAsleep _ req.notice req.tts s o)
        (delay_job-IsAsleep q delayed_by_call req.tts s o))

  -- Taking a job off its list keeps what its request is read from.
  remove-read : (s : Server) → read_request j (remove j s) ≡ read_request j s
  unfolding read_request remove unlink_from set_bnext set_bprev modify
  remove-read s = ground arith

  modify_dest-read :
      (d : ℕ) (s : Server) → read_request j (modify_dest d discount_blocked s) ≡ read_request j s
  unfolding read_request modify_dest
  modify_dest-read d s = refl

  module _ (d : ℕ) (e : Env) (req q : FaxRequest) where
    -- The job waits, with the request q, or has been put to sleep.
    abbrev IsDue : Server → Type 0
    IsDue s =
        (((s.job j).link ≡ some (blockedq d)) × (read_request j s ≡ some q)) ⊎ IsAsleep req.tts s

    abbrev next_round : ℕ → Server → Server
    next_round c s = delay_blocked_one e req c (modify_dest d discount_blocked (remove c s))

    next_round-seen : (c : ℕ) (s : Server) → c ≢ j → seen (next_round c s) ≡ seen s
    next_round-seen c s apart =
        delay_blocked_one-seen c apart e req _ ∙ unfold modify_dest in remove-seen c apart s

    IsDue-seen : (s t : Server) → seen t ≡ seen s → IsDue s → IsDue t
    IsDue-seen s t h (inl (link, found)) = inl (ap (λ v. v.0) h ∙ link, seen-read s t h ∙ found)
    IsDue-seen s t h (inr asleep) = inr (IsAsleep-seen req.tts s t h asleep)

    own-round : (s : Server) → (s.job j).link ≡ some (blockedq d) → IsDue s → IsDue (next_round j s)
    own-round s link (inl (h, found)) = inr (
        delay_blocked_one-IsAsleep e req q _ (modify_dest-Off d discount_blocked _ (remove-Off j s))
          (modify_dest-read d _ ∙ remove-read s ∙ found))
    own-round s link (inr (a, b, c)) = absurd (ground (arith, link, a))

    next_round-IsDue :
        (c : ℕ) (s : Server) → (s.job c).link ≡ some (blockedq d) → IsDue s → IsDue (next_round c s)
    next_round-IsDue c s link due = elim (Bool-cases (c == j)) [
      | inl own ↦
          let at : c ≡ j = ground (arith, own) in
          subst (λ i. IsDue (next_round i s)) (sym at)
            (own-round s (ap (λ i. (s.job i).link) (sym at) ∙ link) due)
      | inr other ↦ IsDue-seen s _ (next_round-seen c s (λ h. ground (arith, other, h))) due
    ]

    delay_blocked-IsAsleep :
        {reg : ℕ → Bool} (js : List ℕ) (s : Server)
        → Linked reg s
        → waiting d s ≡ js
        → IsDue s
        → IsAsleep req.tts (delay_blocked (length js) e d req s)
    unfolding delay_blocked next_blocked next_blocked_of delay_next
    delay_blocked-IsAsleep [] s l h (inl (link, found)) =
        absurd (ground (arith, ap (count j) h, l.at (blockedq d) j, link))
    delay_blocked-IsAsleep [] s l h (inr asleep) = asleep
    delay_blocked-IsAsleep (c ∷ js) s l h due =
        let link = first-link d c js s l h in
        let known = listed (blockedq d) c s l (rw h (ground arith)) in
        let l' = modify_dest-Linked d discount_blocked _ (remove-Linked c s l) in
        let off = modify_dest-Off d discount_blocked _ (remove-Off c s) in
        let rest =
          delay_blocked-IsAsleep js (next_round c s)
            (delay_blocked_one-Linked e req c _ known off l')
            (delay_blocked_one-waiting d e req c _
              ∙ modify_dest-waiting d _ _
              ∙ remove-waiting d c js s link h)
            (next_round-IsDue c s link due) in
        rw h rest

-- After a failed call, a job that is blocked on the destination and can be read is put to sleep.
pub settle_blocked-IsAsleep :
    {reg : ℕ → Bool} (e : Env) (d : ℕ) (r : FaxRequest) (s : Server)
    → call_failed r ≡ true
    → Linked reg s
    → (j : ℕ) (q : FaxRequest) → (s.job j).link ≡ some (blockedq d)
    → read_request j s ≡ some q
    → IsAsleep j r.tts (settle_blocked e d (some r) s)
unfolding settle_blocked
settle_blocked-IsAsleep e d r s failed l j q link found =
    rw failed (delay_blocked-IsAsleep j d e r q (waiting d s) s l refl (inl (link, found)))
