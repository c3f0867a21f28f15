-- ===== src/Faxq/Dead.antt =====
-- What setDead does to a job, whatever it was (faxd/faxQueueApp.c++).
use hylafaxplus.Prelude.{
  ℕ, Bool, true, false, Option, none, some, List, [], ◌∷◌, if◌then◌else◌, ◌▷◌, ◌≡◌, refl, ap, ◌∙◌,
  arith, count, Option-cases, inl, inr,
}
use hylafaxplus.Faxq.State.{
  JobState, QueueId, deadq, blockedq, Job, Server, modify, modify_dest, emit, poke_scheduler,
  job_dead,
}
use hylafaxplus.Faxq.Link.{
  on, Linked, insert_in, unlink_from, remove, remove_if_on_list, set_bnext, set_bprev,
  remove_if_on_list-link,
}
use hylafaxplus.Faxq.Dest
use hylafaxplus.Faxq.Dest.{unhead, drop}
use hylafaxplus.Faxq.Linked.Place.{set_dead-Linked}
use hylafaxplus.Faxq.Place.{
  post, release, release_modem_of, release_modem, release_if_held, clear_modem, clear_modems,
  remove_dest_info_job, stop_tts_timer, dead_state, set_dead,
}

-- The fields of a job that clients and timers look at.
abbrev pub view : Job → JobState × Bool × Option ℕ
view b = (b.state, b.suspend_pending, b.tts_timer)

-- The start of setDead.
abbrev finished : ℕ → Server → Server
finished j s =
    s
    ▷ stop_tts_timer j
    ▷ modify j (λ b. record b { state = dead_state b.state; suspend_pending = false })
    ▷ post job_dead j

finished-view :
    (j : ℕ) (s : Server) → view ((finished j s).job j) ≡ (dead_state (s.job j).state, false, none)
unfolding stop_tts_timer modify post emit
finished-view j s = ground arith

module _ (j : ℕ) where
  insert_in-view :
      (q : QueueId) (skip : ℕ → Bool) (i : ℕ) (s : Server)
      → view ((insert_in q skip i s).job j) ≡ view (s.job j)
  unfolding insert_in modify
  insert_in-view q skip i s = ground arith

  pub insert_in-link :
      (q : QueueId) (skip : ℕ → Bool) (s : Server)
      → (s.job j).link ≡ none
      → ((insert_in q skip j s).job j).link ≡ some q
  unfolding insert_in modify
  insert_in-link q skip s h = ground arith

  unlink_from-view :
      (o : Option QueueId) (i : ℕ) (s : Server) → view ((unlink_from o i s).job j) ≡ view (s.job j)
  unfolding unlink_from modify
  unlink_from-view none i s = refl
  unlink_from-view (some q) i s = ground arith

  remove_if_on_list-view :
      (i : ℕ) (s : Server) → view ((remove_if_on_list i s).job j) ≡ view (s.job j)
  unfolding remove_if_on_list remove unlink_from set_bnext set_bprev modify
  remove_if_on_list-view i s = ground arith

  unhead-view : (js : List ℕ) (d : ℕ) (s : Server) → view ((unhead js d s).job j) ≡ view (s.job j)
  unfolding unhead
  unhead-view [] d s = refl
  unhead-view (i ∷ []) d s = unlink_from-view _ i s
  unhead-view (i ∷ k ∷ js) d s = refl

  drop-view : (d : ℕ) (s : Server) → view ((drop d s).job j) ≡ view (s.job j)
  unfolding drop modify_dest
  drop-view d s = unhead-view (s.queue (blockedq d)) d s

  if-view :
      (b : Bool) (x y s : Server)
      → view (x.job j) ≡ view (s.job j)
      → view (y.job j) ≡ view (s.job j)
      → view ((if b then x else y).job j) ≡ view (s.job j)
  if-view true x y s h k = h
  if-view false x y s h k = k

  remove_dest_info_job-view :
      (i : ℕ) (s : Server) → view ((remove_dest_info_job i s).job j) ≡ view (s.job j)
  unfolding remove_dest_info_job modify_dest
  remove_dest_info_job-view i s =
      let d = (s.job i).dest in
      let s' = modify_dest d (Dest.done_job i) s in
      if-view (Dest.is_empty (s'.dests d)) (drop d s') s' s (drop-view d s') refl

  -- Releasing a modem keeps the link and the view of every job.
  clear_modem-view :
      (i : ℕ) (s : Server)
      → (view ((clear_modem i s).job j) ≡ view (s.job j))
        × (((clear_modem i s).job j).link ≡ (s.job j).link)
  unfolding clear_modem modify
  clear_modem-view i s = (ground arith, ground arith)

  clear_modems-view :
      (js : List ℕ) (s : Server)
      → (view ((clear_modems js s).job j) ≡ view (s.job j))
        × (((clear_modems js s).job j).link ≡ (s.job j).link)
  unfolding clear_modems
  clear_modems-view [] s = (refl, refl)
  clear_modems-view (i ∷ js) s =
      let a = clear_modem-view i s in
      let b = clear_modems-view js (clear_modem i s) in (b.0 ∙ a.0, b.1 ∙ a.1)

  pub release_if_held-view :
      (i : ℕ) (s : Server)
      → (view ((release_if_held i s).job j) ≡ view (s.job j))
        × (((release_if_held i s).job j).link ≡ (s.job j).link)
  unfolding release_if_held release_modem release_modem_of post emit release poke_scheduler
  release_if_held-view i s = elim (Option-cases (s.job i).modem) [
    | inl none_held ↦ rw none_held (refl, refl)
    | inr (m, held) ↦ rw held (clear_modems-view _ _)
  ]

  pub set_dead-view :
      (s : Server)
      → (view ((set_dead j s).job j) ≡ (dead_state (s.job j).state, false, none))
        × (((set_dead j s).job j).link ≡ some deadq)
        × ((set_dead j s).poked ≡ true)
  unfolding set_dead poke_scheduler
  set_dead-view s =
      let s1 = remove_dest_info_job j (finished j s) in
      let s2 = remove_if_on_list j s1 in
      let s3 = insert_in deadq (λ _. false) j s2 in
      let free : (s2.job j).link ≡ none = ground (arith, remove_if_on_list-link j j s1) in
      let kept = release_if_held-view j s3 in
      (
        kept.0
            ∙ insert_in-view deadq _ j s2
            ∙ remove_if_on_list-view j s1
            ∙ remove_dest_info_job-view j (finished j s)
            ∙ finished-view j s,
        kept.1 ∙ insert_in-link deadq _ s2 free,
        refl,
      )

-- For a server with intact links and a registered job in any state, on any list or none: after
-- setDead the job is once on the dead list and on no other; its state is final (state_done if it was
-- that, else state_failed), no suspension is pending, its time-to-send timer is stopped, and the
-- scheduler will run.
pub set_dead_lem :
    (reg : ℕ → Bool) (j : ℕ) (s : Server)
    → reg j ≡ true
    → Linked reg s
    → ((q : QueueId) → count j ((set_dead j s).queue q) ≡ on q (some deadq))
      × (((set_dead j s).job j).state ≡ dead_state (s.job j).state)
      × (((set_dead j s).job j).suspend_pending ≡ false)
      × (((set_dead j s).job j).tts_timer ≡ none)
      × ((set_dead j s).poked ≡ true)
set_dead_lem reg j s h l =
    let (same, link, poked) = set_dead-view j s in
    let l' = set_dead-Linked j s h l in
    (
      λ q. l'.at q j ∙ ap (on q) link,
      ap (λ v. v.0) same,
      ap (λ v. v.1) same,
      ap (λ v. v.2) same,
      poked,
    )
