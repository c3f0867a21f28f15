-- ===== src/Faxq/Linked/Off.antt =====
-- Jobs that are on no list stay so until they are inserted (the operations of faxd/faxQueueApp.c++ and
-- faxd/Job.c++ that come before an insertion).
use hylafaxplus.Prelude.{ℕ, ◌≡◌, refl, arith}
use hylafaxplus.Faxq.State.{
  JobState, FaxRequest, DestInfo, TriggerEvent, Job, Server, Env, modify, modify_dest, emit,
  poke_scheduler,
}
use hylafaxplus.Faxq.Link.{Off, remove, remove_if_on_list, remove-link, remove_if_on_list-link}
use hylafaxplus.Faxq.Request.{write_file, update_request}
use hylafaxplus.Faxq.Place.{post, set_state, start_kill_timer}
use hylafaxplus.Faxq.Delay.{set_tts}
use hylafaxplus.Faxq.Start.{clear_commid, clear_bnext}
use hylafaxplus.Faxq.Schedule.{set_start}
use hylafaxplus.Faxq.Submit.{set_dest, update_job}

module _ {j : ℕ} where
  pub modify-Off :
      (i : ℕ) (f : Job → Job) (s : Server)
      → ((b : Job) → (f b).link ≡ b.link)
      → Off j s
      → Off j (modify i f s)
  unfolding modify
  modify-Off i f s keep o = record { link = ground (arith, o.link, keep (s.job i)) }

  pub post-Off : {s : Server} (t : TriggerEvent) (i : ℕ) → Off j s → Off j (post t i s)
  unfolding post emit
  post-Off t i o = record { link = o.link }

  pub poke_scheduler-Off : (s : Server) → Off j s → Off j (poke_scheduler s)
  unfolding poke_scheduler
  poke_scheduler-Off s o = record { link = o.link }

  pub modify_dest-Off :
      (d : ℕ) (f : DestInfo → DestInfo) (s : Server) → Off j s → Off j (modify_dest d f s)
  unfolding modify_dest
  modify_dest-Off d f s o = record { link = o.link }

  pub set_state-Off : (st : JobState) (i : ℕ) (s : Server) → Off j s → Off j (set_state st i s)
  unfolding set_state
  set_state-Off st i s o = modify-Off i _ s (λ b. refl) o

  pub set_tts-Off : (t i : ℕ) (s : Server) → Off j s → Off j (set_tts t i s)
  unfolding set_tts
  set_tts-Off t i s o = modify-Off i _ s (λ b. refl) o

  pub start_kill_timer-Off : (t i : ℕ) (s : Server) → Off j s → Off j (start_kill_timer t i s)
  unfolding start_kill_timer
  start_kill_timer-Off t i s o = modify-Off i _ s (λ b. refl) o

  pub set_dest-Off : (d i : ℕ) (s : Server) → Off j s → Off j (set_dest d i s)
  unfolding set_dest
  set_dest-Off d i s o = modify-Off i _ s (λ b. refl) o

  pub clear_commid-Off : (i : ℕ) (s : Server) → Off j s → Off j (clear_commid i s)
  unfolding clear_commid
  clear_commid-Off i s o = modify-Off i _ s (λ b. refl) o

  pub clear_bnext-Off : (i : ℕ) (s : Server) → Off j s → Off j (clear_bnext i s)
  unfolding clear_bnext
  clear_bnext-Off i s o = modify-Off i _ s (λ b. refl) o

  pub set_start-Off : (now i : ℕ) (s : Server) → Off j s → Off j (set_start now i s)
  unfolding set_start
  set_start-Off now i s o = modify-Off i _ s (λ b. refl) o

  pub update_job-Off :
      (e : Env) (r : FaxRequest) (i : ℕ) (s : Server)
      → Off j s
      → Off j (modify i (update_job e r) s)
  unfolding update_job
  update_job-Off e r i s o = modify-Off i _ s (λ b. refl) o

  pub update_request-Off :
      (i : ℕ) (r : FaxRequest) (s : Server) → Off j s → Off j (update_request i r s)
  unfolding update_request write_file
  update_request-Off i r s o = record { link = ground (arith, o.link) }

-- A job that has been removed, or taken off if it was on a list, is on none.
pub remove-Off : (j : ℕ) (s : Server) → Off j (remove j s)
remove-Off j s = record { link = ground (arith, remove-link j j s) }

pub remove_if_on_list-Off : (j : ℕ) (s : Server) → Off j (remove_if_on_list j s)
remove_if_on_list-Off j s = record { link = ground (arith, remove_if_on_list-link j j s) }

pub ruleset off_rules = (
  post-Off, poke_scheduler-Off, modify_dest-Off, set_state-Off, set_tts-Off, start_kill_timer-Off,
  set_dest-Off, clear_commid-Off, clear_bnext-Off, set_start-Off, update_request-Off,
  remove_if_on_list-Off,
)
