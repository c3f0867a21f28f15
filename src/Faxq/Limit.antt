-- ===== src/Faxq/Limit.antt =====
-- The limit on the calls to a destination, from the scheduler's decision to the start of the job
-- (runScheduler and isOKToCall of faxd/faxQueueApp.c++, DestInfo::call of faxd/DestInfo.c++).
use mathlib.Core.Path.{subst}
use hylafaxplus.Prelude.{
  ℕ, ◌+◌, ◌≤◌, ◌<◌, false, Option, none, some, ◌▷◌, ◌≡◌, ◌≢◌, refl, sym, ap, ◌∙◌, arith, Bool-cases,
  Option-cases, inl, inr,
}
use hylafaxplus.Faxq.State.{
  FaxRequest, JobControlInfo, DestInfo, Server, Env, modify, modify_dest, emit,
}
use hylafaxplus.Faxq.Link.{set_bprev, set_bnext, unlink_from, remove, remove_if_on_list, insert_in}
use hylafaxplus.Faxq.Dest
use hylafaxplus.Faxq.Request.{update_request, write_file}
use hylafaxplus.Faxq.Place.{post, set_state, set_active}
use hylafaxplus.Faxq.Start.{assign, clear_bnext, clear_commid, start_job}
use hylafaxplus.Faxq.Unblock.{is_ok_to_call}
use hylafaxplus.Faxq.Delay.{set_tts}
use hylafaxplus.Faxq.Schedule.{
  Limits, Verdict, vanished, held_back, by_proxy, for_modem, refused, postponed, refusal, is_held,
  verdict, clamp_tts, carry_out, consider_read, consider,
}

-- A number that tells for_modem and the verdicts of the earlier branches apart.
abbrev kind : Verdict → ℕ
kind vanished = 0
kind held_back = 1
kind by_proxy = 2
kind for_modem = 3
kind (refused reason) = 4
kind (postponed mesg tts) = 5

remove_if_on_list-dests : (j : ℕ) (s : Server) → (remove_if_on_list j s).dests ≡ s.dests
unfolding remove_if_on_list remove unlink_from set_bprev set_bnext modify
remove_if_on_list-dests j s = ground arith

update_request-dests :
    (j : ℕ) (r : FaxRequest) (s : Server) → (update_request j r s).dests ≡ s.dests
unfolding update_request write_file
update_request-dests j r s = ground arith

called :
    (d j : ℕ) (s : Server)
    → ((s
          ▷ modify_dest d Dest.call
          ▷ clear_commid j
          ▷ modify_dest d (Dest.active j)
          ▷ set_active j).dests
        d).call_count
      ≡ Dest.u16 ((s.dests d).call_count + 1)
unfolding set_active insert_in set_state clear_commid post emit modify modify_dest Dest.call
    Dest.active
called d j s = ground arith

-- The destination of a job that starts has one call more.
start_job-dest :
    (m : ℕ) (r : FaxRequest) (j : ℕ) (s : Server)
    → ((start_job m r j s).dests (s.job j).dest).call_count
      ≡ Dest.u16 ((s.dests (s.job j).dest).call_count + 1)
unfolding start_job assign clear_bnext post emit modify
start_job-dest m r j s =
    let d = (s.job j).dest in
    ap (λ f. (f d).call_count) (update_request-dests j _ _)
    ∙ called d j _
    ∙ ap (λ f. Dest.u16 ((f d).call_count + 1)) (remove_if_on_list-dests j _)

-- A job that may have a modem is not held back.
verdict-held :
    (e : Env) (g : Limits) (j : ℕ) (r : FaxRequest) (s : Server)
    → verdict e g j r s ≡ for_modem
    → is_held (s.job j).jci (s.dests (s.job j).dest) ≡ false
unfolding verdict
verdict-held e g j r s h = elim (Option-cases (refusal (s.job j).jci r)) [
  | inl passed ↦ elim (Bool-cases (is_held (s.job j).jci (s.dests (s.job j).dest))) [
    | inl held ↦ absurd (ground (arith, ap kind (rw (passed, held) at h)))
    | inr free ↦ free
  ]
  | inr (n, no_good) ↦ absurd (ground (arith, ap kind (rw no_good at h)))
]

-- What matters for the calls is as before when a job may have a modem.
record Kept (j : ℕ) (t s : Server) : Type 0 where
  dests : t.dests ≡ s.dests
  dest : (t.job j).dest ≡ (s.job j).dest
  jci : (t.job j).jci ≡ (s.job j).jci

clamp_tts-Kept : (now j : ℕ) (s : Server) → Kept j (clamp_tts now j s) s
unfolding clamp_tts set_tts modify
clamp_tts-Kept now j s = record { dests = ground arith; dest = ground arith; jci = ground arith }

consider_read-free :
    (e : Env) (g : Limits) (j : ℕ) (o : Option FaxRequest) (s : Server)
    → (consider_read e g j o s).0 ≡ for_modem
    → Kept j (consider_read e g j o s).1 s
      × (is_held (s.job j).jci (s.dests (s.job j).dest) ≡ false)
unfolding consider_read
consider_read-free e g j none s h = absurd (ground (arith, ap kind h))
consider_read-free e g j (some r) s h =
    let s' = clamp_tts e.now j s in
    let k = clamp_tts-Kept e.now j s in
    let same : carry_out e j r (verdict e g j r s') s' ≡ s' =
      ap (λ v. carry_out e j r v s') h ∙ unfold carry_out in refl in
    (
      subst (λ t. Kept j t s) (sym same) k,
      subst (λ f. is_held (s.job j).jci (f (s.job j).dest) ≡ false) k.dests
          (subst (λ d. is_held (s.job j).jci (s'.dests d) ≡ false) k.dest
            (subst (λ c. is_held c (s'.dests (s'.job j).dest) ≡ false) k.jci
              (verdict-held e g j r s' h))),
    )

consider-free :
    (e : Env) (g : Limits) (j : ℕ) (s : Server)
    → (consider e g j s).0 ≡ for_modem
    → Kept j (consider e g j s).1 s × (is_held (s.job j).jci (s.dests (s.job j).dest) ≡ false)
unfolding consider post emit
consider-free e g j s h =
    let (k, free) = consider_read-free e g j _ _ h in
    (record { dests = k.dests; dest = k.dest; jci = k.jci }, free)

within :
    (jci : JobControlInfo) (di : DestInfo) (n : ℕ)
    → jci.max_concurrent_calls ≢ 0
    → jci.max_concurrent_calls < 65536
    → is_held jci di ≡ false
    → n ≡ Dest.u16 (di.call_count + 1)
    → (n ≡ di.call_count + 1) × (n ≤ jci.max_concurrent_calls)
unfolding is_held is_ok_to_call
within jci di n limited small free one_more = (ground arith, ground arith)

-- If the scheduler finds that a job may have a modem, and job control limits the calls to its
-- destination to fewer than 65536, then once the job has started, the destination has one call more,
-- and no more than the limit.
pub start_job-calls :
    (e : Env) (g : Limits) (m : ℕ) (r : FaxRequest) (j : ℕ) (s : Server)
    → (consider e g j s).0 ≡ for_modem
    → (s.job j).jci.max_concurrent_calls ≢ 0
    → (s.job j).jci.max_concurrent_calls < 65536
    → let di = (start_job m r j (consider e g j s).1).dests (s.job j).dest in
      (di.call_count ≡ (s.dests (s.job j).dest).call_count + 1)
      × (di.call_count ≤ (s.job j).jci.max_concurrent_calls)
start_job-calls e g m r j s h limited small =
    let (k, free) = consider-free e g j s h in
    let t = (consider e g j s).1 in
    let started : ((start_job m r j t).dests (s.job j).dest).call_count
        ≡ Dest.u16 ((t.dests (s.job j).dest).call_count + 1) =
      subst (λ d. ((start_job m r j t).dests d).call_count ≡ Dest.u16 ((t.dests d).call_count + 1))
        k.dest (start_job-dest m r j t) in
    let one_more = started ∙ ap (λ f. Dest.u16 ((f (s.job j).dest).call_count + 1)) k.dests in
    within (s.job j).jci (s.dests (s.job j).dest) _ limited small free one_more
