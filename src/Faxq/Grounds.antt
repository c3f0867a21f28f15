-- ===== src/Faxq/Grounds.antt =====
-- Why the scheduler decides about a job as it does (the conditions in the loop of runScheduler,
-- faxd/faxQueueApp.c++), stated verdict by verdict.
use mathlib.Core.Path.{subst}
use hylafaxplus.Prelude.{
  ℕ, ◌+◌, ◌%◌, ◌≤◌, ◌<◌, true, false, Option, none, some, leb, ◌==◌, ◌≡◌, ◌≢◌, refl, arith,
  Bool-cases, Option-cases, ◌⊎◌, inl, inr,
}
use hylafaxplus.Faxq.State.{
  Notice, time_of_day, staggering, proxy_limit, FaxRequest, JobControlInfo, DestInfo, job_process,
  Server, Env, modify, emit,
}
use hylafaxplus.Faxq.Place.{post}
use hylafaxplus.Faxq.Request.{read_request}
use hylafaxplus.Faxq.Delay.{set_tts}
use hylafaxplus.Faxq.Unblock.{is_ok_to_call}
use hylafaxplus.Faxq.Schedule.{
  Limits, Verdict, vanished, held_back, by_proxy, for_modem, refused, postponed, refusal, is_held,
  is_staggered, when_free, verdict, clamp_tts, consider_read, consider,
}

-- The destination has all the calls it may have: with no limit, a call that is not yet connected.
abbrev pub HasAllCalls : JobControlInfo → DestInfo → Type 0
HasAllCalls jci di =
    ((jci.max_concurrent_calls ≡ 0) × (di.pending_connection ≡ true))
    ⊎ ((0 < jci.max_concurrent_calls) × (jci.max_concurrent_calls ≤ di.call_count))

abbrev pub HasRoom : JobControlInfo → DestInfo → Type 0
HasRoom jci di =
    ((jci.max_concurrent_calls ≡ 0) × (di.pending_connection ≡ false))
    ⊎ ((0 < jci.max_concurrent_calls) × (di.call_count < jci.max_concurrent_calls))

module _ (e : Env) (g : Limits) (j : ℕ) where
  -- Neither job control nor the job's own restrictions nor the staggering of calls ask for a later
  -- start.
  abbrev pub IsInTime : Type 0
  IsInTime = (g.next_send j ≡ e.now) × (g.next_tod j ≡ e.now) × (is_staggered g e.now ≡ false)

  -- Why a job is to be tried at a later time; n jobs are with proxies.
  abbrev pub IsLater : ℕ → Notice → ℕ → Type 0
  IsLater n mesg tts =
      ((g.next_send j ≢ e.now) × (mesg ≡ time_of_day) × (tts ≡ g.next_send j))
      ⊎ ((g.next_tod j ≢ e.now) × (mesg ≡ time_of_day) × (tts ≡ g.next_tod j))
      ⊎ ((is_staggered g e.now ≡ true)
          × (mesg ≡ staggering)
          × (tts ≡ g.last_call + g.stagger_calls))
      ⊎ ((g.proxy j ≡ true)
          × (g.max_proxy_jobs ≤ n)
          × (mesg ≡ proxy_limit)
          × (tts ≡ e.now + e.random % e.requeue_interval))

  -- The grounds of the verdicts for a job with a request.
  abbrev pub IsGround : JobControlInfo → DestInfo → ℕ → FaxRequest → Verdict → Type 0
  IsGround jci di n r vanished = true ≡ false
  IsGround jci di n r (refused reason) = refusal jci r ≡ some reason
  IsGround jci di n r held_back = (refusal jci r ≡ none) × HasAllCalls jci di
  IsGround jci di n r (postponed mesg tts) =
      (refusal jci r ≡ none) × HasRoom jci di × IsLater n mesg tts
  IsGround jci di n r by_proxy =
      (refusal jci r ≡ none)
      × HasRoom jci di
      × IsInTime
      × (g.proxy j ≡ true)
      × (n < g.max_proxy_jobs)
  IsGround jci di n r for_modem =
      (refusal jci r ≡ none) × HasRoom jci di × IsInTime × (g.proxy j ≡ false)

  -- A job with no request that can be read has vanished.
  abbrev pub IsGrounded : Server → Option FaxRequest → Verdict → Type 0
  IsGrounded s none v = v ≡ vanished
  IsGrounded s (some r) v = IsGround (s.job j).jci (s.dests (s.job j).dest) s.num_proxy_jobs r v

  is_held-HasAllCalls :
      (jci : JobControlInfo) (di : DestInfo) → is_held jci di ≡ true → HasAllCalls jci di
  unfolding is_held is_ok_to_call
  is_held-HasAllCalls jci di h = elim (Bool-cases (jci.max_concurrent_calls == 0)) [
    | inl unlimited ↦ inl (ground (arith, unlimited), ground (arith, unlimited, h))
    | inr limited ↦ inr (ground (arith, limited), ground (arith, limited, h))
  ]

  is_held-HasRoom : (jci : JobControlInfo) (di : DestInfo) → is_held jci di ≡ false → HasRoom jci di
  unfolding is_held is_ok_to_call
  is_held-HasRoom jci di h = elim (Bool-cases (jci.max_concurrent_calls == 0)) [
    | inl unlimited ↦ inl (ground (arith, unlimited), ground (arith, unlimited, h))
    | inr limited ↦ inr (ground (arith, limited), ground (arith, limited, h))
  ]

  module _ (r : FaxRequest) (s : Server) where
    abbrev jci : JobControlInfo
    jci = (s.job j).jci

    abbrev di : DestInfo
    di = s.dests (s.job j).dest

    when_free-IsGround :
        refusal jci r ≡ none
        → HasRoom jci di
        → IsGround jci di s.num_proxy_jobs r (when_free e g j s)
    unfolding when_free
    when_free-IsGround ok room = elim (Bool-cases (g.next_send j == e.now)) [
      | inr later ↦ rw later (ok, room, inl ((λ h. ground (arith, later, h)), refl, refl))
      | inl control ↦ elim (Bool-cases (g.next_tod j == e.now)) [
        | inr later ↦
            rw (control, later) (ok, room, inr (inl ((λ h. ground (arith, later, h)), refl, refl)))
        | inl tod ↦ elim (Bool-cases (is_staggered g e.now)) [
          | inl staggered ↦
              rw (control, tod, staggered) (ok, room, inr (inr (inl (staggered, refl, refl))))
          | inr free ↦
              let in_time : IsInTime = (ground (arith, control), ground (arith, tod), free) in
              elim (Bool-cases (g.proxy j)) [
                | inr no_proxy ↦ rw (control, tod, free, no_proxy) (ok, room, in_time, no_proxy)
                | inl proxied ↦ elim (Bool-cases (leb g.max_proxy_jobs s.num_proxy_jobs)) [
                  | inl full ↦
                      rw (control, tod, free, proxied, full)
                        (ok, room, inr (inr (inr (proxied, ground (arith, full), refl, refl))))
                  | inr few ↦
                      rw (control, tod, free, proxied, few)
                        (ok, room, in_time, proxied, ground (arith, few))
                ]
              ]
        ]
      ]
    ]

    verdict-IsGround : IsGround jci di s.num_proxy_jobs r (verdict e g j r s)
    unfolding verdict
    verdict-IsGround = elim (Option-cases (refusal jci r)) [
      | inr (reason, refuses) ↦ rw refuses refuses
      | inl ok ↦ elim (Bool-cases (is_held jci di)) [
        | inl held ↦ rw (ok, held) (ok, is_held-HasAllCalls jci di held)
        | inr free ↦ rw (ok, free) (when_free-IsGround ok (is_held-HasRoom jci di free))
      ]
    ]

  clamp_tts-same :
      (s : Server)
      → (((clamp_tts e.now j s).job j).jci ≡ (s.job j).jci)
        × ((clamp_tts e.now j s).dests ((clamp_tts e.now j s).job j).dest ≡ s.dests (s.job j).dest)
        × ((clamp_tts e.now j s).num_proxy_jobs ≡ s.num_proxy_jobs)
  unfolding clamp_tts set_tts modify
  clamp_tts-same s = (ground arith, ground arith, ground arith)

  IsGround-along :
      {a b : JobControlInfo} {x y : DestInfo} {n m : ℕ} (r : FaxRequest) (v : Verdict)
      → a ≡ b
      → x ≡ y
      → n ≡ m
      → IsGround a x n r v
      → IsGround b y m r v
  IsGround-along {b = b} {x = x} {y = y} {n = n} r v p q w h =
      subst (λ k. IsGround b y k r v) w
        (subst (λ z. IsGround b z n r v) q (subst (λ c. IsGround c x n r v) p h))

  consider_read-IsGrounded :
      (o : Option FaxRequest) (s : Server) → IsGrounded s o (consider_read e g j o s).0
  unfolding consider_read
  consider_read-IsGrounded none s = refl
  consider_read-IsGrounded (some r) s =
      let (a, b, c) = clamp_tts-same s in
      IsGround-along r _ a b c (verdict-IsGround r (clamp_tts e.now j s))

  posted-IsGrounded :
      (o : Option FaxRequest) (s : Server)
      → IsGrounded s o (consider_read e g j o (post job_process j s)).0
  unfolding post emit
  posted-IsGrounded none s = consider_read-IsGrounded none (post job_process j s)
  posted-IsGrounded (some r) s = consider_read-IsGrounded (some r) (post job_process j s)

  pub consider-IsGrounded : (s : Server) → IsGrounded s (read_request j s) (consider e g j s).0
  unfolding consider post emit read_request
  consider-IsGrounded s = posted-IsGrounded (read_request j s) s
