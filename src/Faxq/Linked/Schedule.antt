-- ===== src/Faxq/Linked/Schedule.antt =====
-- The links under the scheduler's treatment of a job (runScheduler of faxd/faxQueueApp.c++).
use hylafaxplus.Prelude.{ℕ, Bool, true, Option, none, some, ◌≡◌, refl}
use hylafaxplus.Faxq.State.{FaxRequest, Server, Env, modify_dest}
use hylafaxplus.Faxq.Link.{Linked, modify-Linked, remove_if_on_list-Linked}
use hylafaxplus.Faxq.Start.{clear_commid}
use hylafaxplus.Faxq.Schedule.{
  Limits, Verdict, vanished, held_back, by_proxy, for_modem, refused, postponed, clamp_tts,
  set_start, refuse, hold_back, count_proxy_job, give_to_proxy, carry_out, consider_read, consider,
}
use hylafaxplus.Faxq.Linked.Off.{remove_if_on_list-Off, off_rules}
use hylafaxplus.Faxq.Linked.Place.{
  if-Linked, poke_scheduler-Linked, post-Linked, update_request-Linked, delete_request_ptr-Linked,
  set_active-Linked, set_dead-Linked,
}
use hylafaxplus.Faxq.Linked.Jobs.{
  set_tts-Linked, delay_job-Linked, block_job-Linked, reject_job-Linked,
}
use hylafaxplus.Faxq.Linked.Blocked.{block-Linked, unblock_dest_jobs-Linked}

module _ {reg : ℕ → Bool} where
  clamp_tts-Linked : (now j : ℕ) (s : Server) → Linked reg s → Linked reg (clamp_tts now j s)
  unfolding clamp_tts
  clamp_tts-Linked now j s l = if-Linked _ (set_tts-Linked now j s l) l

  set_start-Linked : (now j : ℕ) (s : Server) → Linked reg s → Linked reg (set_start now j s)
  unfolding set_start
  set_start-Linked now j s l = modify-Linked j _ s (λ b. (refl, refl)) l

  pub clear_commid-Linked : (j : ℕ) (s : Server) → Linked reg s → Linked reg (clear_commid j s)
  unfolding clear_commid
  clear_commid-Linked j s l = modify-Linked j _ s (λ b. (refl, refl)) l

  count_proxy_job-Linked : (d : ℕ) (s : Server) → Linked reg s → Linked reg (count_proxy_job d s)
  unfolding count_proxy_job modify_dest
  count_proxy_job-Linked d s l = record {
    at = l.at;
    same = l.same;
    free = l.free;
    batch = l.batch;
    sound = l.sound;
  }

  give_to_proxy-Linked :
      (e : Env) (j : ℕ) (r : FaxRequest) (s : Server)
      → reg j ≡ true
      → Linked reg s
      → Linked reg (give_to_proxy e j r s)
  unfolding give_to_proxy
  give_to_proxy-Linked e j r s h l =
      search
        (
          unblock_dest_jobs-Linked, poke_scheduler-Linked, remove_if_on_list-Linked,
          clear_commid-Linked, set_start-Linked, set_active-Linked, update_request-Linked,
          count_proxy_job-Linked, off_rules,
        )
        depth 14

  carry_out-Linked :
      (e : Env) (j : ℕ) (r : FaxRequest) (v : Verdict) (s : Server)
      → reg j ≡ true
      → Linked reg s
      → Linked reg (carry_out e j r v s)
  unfolding carry_out refuse hold_back
  carry_out-Linked e j r vanished s h l = set_dead-Linked j s h l
  carry_out-Linked e j r held_back s h l =
      block-Linked _ j _ h (remove_if_on_list-Off j _)
        (remove_if_on_list-Linked j _ (block_job-Linked j r _ s l))
  carry_out-Linked e j r by_proxy s h l = give_to_proxy-Linked e j r s h l
  carry_out-Linked e j r for_modem s h l = l
  carry_out-Linked e j r (refused reason) s h l =
      delete_request_ptr-Linked e j _ _ true _ (reject_job-Linked j s h l)
  carry_out-Linked e j r (postponed mesg tts) s h l =
      delay_job-Linked j r mesg tts _ h (remove_if_on_list-Off j s) (remove_if_on_list-Linked j s l)

  consider_read-Linked :
      (e : Env) (g : Limits) (j : ℕ) (o : Option FaxRequest) (s : Server)
      → reg j ≡ true
      → Linked reg s
      → Linked reg (consider_read e g j o s).1
  unfolding consider_read
  consider_read-Linked e g j none s h l = set_dead-Linked j s h l
  consider_read-Linked e g j (some r) s h l =
      carry_out-Linked e j r _ _ h (clamp_tts-Linked e.now j s l)

  pub consider-Linked :
      (e : Env) (g : Limits) (j : ℕ) (s : Server)
      → reg j ≡ true
      → Linked reg s
      → Linked reg (consider e g j s).1
  unfolding consider
  consider-Linked e g j s h l = consider_read-Linked e g j _ _ h (post-Linked _ j s l)
