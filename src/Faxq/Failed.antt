-- ===== src/Faxq/Failed.antt =====
-- The whole of sendJobDone after a call that has failed (faxd/faxQueueApp.c++).
use hylafaxplus.Prelude.{
  ℕ, Bool, true, false, Option, some, List, [], ◌∷◌, count, ◌▷◌, ◌≡◌, ◌≢◌, refl, ap, ◌∙◌, arith,
}
use hylafaxplus.Faxq.State.{
  state_sleeping, FaxRequest, QueueId, blockedq, sleepq, Server, Env, modify_dest, poke_scheduler,
}
use hylafaxplus.Faxq.Link.{on, Linked}
use hylafaxplus.Faxq.Request.{read_request}
use hylafaxplus.Faxq.Place.{release_if_held, batch_chain}
use hylafaxplus.Faxq.SendDone.{
  call_failed, settle_blocked, done_if_read, done_rest, done_batch, end_call, send_job_done,
}
use hylafaxplus.Faxq.Linked.Place.{release_if_held-Linked}
use hylafaxplus.Faxq.Linked.Blocked.{settle_blocked-Linked}
use hylafaxplus.Faxq.Linked.Sent.{
  AllRegistered, done_if_read-Linked, end_call-Linked, batch_chain-AllRegistered,
  send_job_done-Linked,
}
use hylafaxplus.Faxq.Waiting.{settle_blocked-waiting}
use hylafaxplus.Faxq.Slept.{
  seen, seen-read, release_if_held-seen, IsAsleep, IsAsleep-seen, settle_blocked-IsAsleep,
}
use hylafaxplus.Faxq.Asleep.Ended.{done_if_read-seen}

-- The server once the call is over, and once the blocked jobs have been dealt with.
abbrev pub hung_up : ℕ → Bool → Server → Server
hung_up c proxied s = s ▷ end_call proxied (s.job c).dest ▷ release_if_held c

abbrev pub settled : Env → ℕ → Bool → FaxRequest → Server → Server
settled e c proxied r s = settle_blocked e (s.job c).dest (some r) (hung_up c proxied s)

end_call-seen :
    (j : ℕ) (proxied : Bool) (d : ℕ) (s : Server) → seen j (end_call proxied d s) ≡ seen j s
unfolding end_call modify_dest
end_call-seen j true d s = refl
end_call-seen j false d s = refl

hung_up-seen : (j c : ℕ) (proxied : Bool) (s : Server) → seen j (hung_up c proxied s) ≡ seen j s
hung_up-seen j c proxied s = release_if_held-seen j c _ ∙ end_call-seen j proxied _ s

others-apart : (j c : ℕ) (cs : List ℕ) → count j (c ∷ cs) ≡ 0 → (c ≢ j) × (count j cs ≡ 0)
others-apart j c cs h = ((λ e. ground (arith, h, e)), ground (arith, h))

module _ {reg : ℕ → Bool} (e : Env) (j : ℕ) where
  done_rest-seen :
      (cs : List ℕ) (s : Server)
      → AllRegistered reg cs
      → count j cs ≡ 0
      → Linked reg s
      → (s.job j).link ≡ some sleepq
      → seen j (done_rest e cs s) ≡ seen j s
  unfolding done_rest
  done_rest-seen [] s all away l asleep = refl
  done_rest-seen (c ∷ cs) s all away l asleep =
      let (apart, rest) = others-apart j c cs away in
      let o = read_request c s in
      let kept = done_if_read-seen j c apart e o s l asleep in
      done_rest-seen cs (done_if_read e c o s) all.1 rest (done_if_read-Linked e c o s all.0 l)
        (ap (λ v. v.0) kept ∙ asleep)
      ∙ kept

  done_batch-seen :
      (o : Option FaxRequest) (cs : List ℕ) (s : Server)
      → AllRegistered reg cs
      → count j cs ≡ 0
      → Linked reg s
      → (s.job j).link ≡ some sleepq
      → seen j (done_batch e o cs s) ≡ seen j s
  unfolding done_batch
  done_batch-seen o [] s all away l asleep = refl
  done_batch-seen o (c ∷ cs) s all away l asleep =
      let (apart, rest) = others-apart j c cs away in
      let kept = done_if_read-seen j c apart e o s l asleep in
      done_rest-seen cs (done_if_read e c o s) all.1 rest (done_if_read-Linked e c o s all.0 l)
        (ap (λ v. v.0) kept ∙ asleep)
      ∙ kept

-- For a server with intact links, a registered job c that was sent and whose request says that the call
-- has failed, and any other job that is blocked on the same destination, whose request can be read and
-- that is not of c's batch: the loop over the blocked jobs leaves none blocked on the destination, and
-- when sendJobDone has ended, the blocked job is once on the sleep queue and on no other list, asleep
-- until the time that the request of c gives.
pub send_job_done-asleep :
    (reg : ℕ → Bool) (e : Env) (c : ℕ) (proxied : Bool) (r : FaxRequest) (s : Server)
    → reg c ≡ true
    → Linked reg s
    → read_request c s ≡ some r
    → call_failed r ≡ true
    → (j : ℕ) (q : FaxRequest) → (s.job j).link ≡ some (blockedq (s.job c).dest)
    → read_request j s ≡ some q
    → count j (batch_chain 64 (settled e c proxied r s) c) ≡ 0
    → ((settled e c proxied r s).queue (blockedq (s.job c).dest) ≡ [])
      × ((p : QueueId) → count j ((send_job_done e c proxied s).queue p) ≡ on p (some sleepq))
      × (((send_job_done e c proxied s).job j).tts ≡ r.tts)
      × (((send_job_done e c proxied s).job j).state ≡ state_sleeping)
send_job_done-asleep reg e c proxied r s h l sent failed j q link found away =
    let d = (s.job c).dest in
    let s1 = hung_up c proxied s in
    let l1 : Linked reg s1 = release_if_held-Linked c _ (end_call-Linked proxied d s l) in
    let read : read_request c s1 ≡ some r = seen-read c s s1 (hung_up-seen c c proxied s) ∙ sent in
    let same : seen j s1 ≡ seen j s = hung_up-seen j c proxied s in
    let s2 = settled e c proxied r s in
    let l2 : Linked reg s2 = settle_blocked-Linked e d (some r) s1 l1 in
    let asleep : IsAsleep j r.tts s2 =
      settle_blocked-IsAsleep e d r s1 failed l1 j q (ap (λ v. v.0) same ∙ link)
        (seen-read j s s1 same ∙ found) in
    let kept =
      done_batch-seen e j (some r) (batch_chain 64 s2 c) s2 (batch_chain-AllRegistered 64 s2 c h l2)
        away l2 asleep.0 in
    let over : IsAsleep j r.tts (send_job_done e c proxied s) =
      unfold send_job_done in
      unfold poke_scheduler in
      rw read
        (IsAsleep-seen j r.tts s2 (done_batch e (some r) (batch_chain 64 s2 c) s2) kept asleep) in
    let l' = send_job_done-Linked e c proxied s h l in
    (settle_blocked-waiting d e r s1 failed l1, λ p. l'.at p j ∙ ap (on p) over.0, over.1, over.2)
