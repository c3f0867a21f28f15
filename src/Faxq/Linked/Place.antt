-- ===== src/Faxq/Linked/Place.antt =====
-- The links under the operations of Dest, Request and Place (faxd/DestInfo.c++, faxd/faxQueueApp.c++).
use hylafaxplus.Prelude.{
  ℕ, Bool, true, false, Option, none, some, List, [], ◌∷◌, if◌then◌else◌, ◌≡◌, refl, case_option,
  arith,
}
use hylafaxplus.Faxq.State.{
  JobState, JobStatus, done, FaxRequest, DestInfo, TriggerEvent, Effect, Server, ControlRun,
  no_command, no_child, ran, Env, modify, modify_dest, emit, poke_scheduler, blockedq,
}
use hylafaxplus.Faxq.Link.{
  insert_in, unlink_from, remove, remove_if_on_list, Linked, Off, modify-Linked, insert_in-Linked,
  remove-Linked, remove_if_on_list-Linked, unlink_from-Linked,
}
use hylafaxplus.Faxq.Linked.Off.{modify-Off, off_rules}
use hylafaxplus.Faxq.Dest
use hylafaxplus.Faxq.Dest.{block, unblock, drop, unhead, is_empty}
use hylafaxplus.Faxq.Request.{
  write_file, update_request, notify_sender, delete_request, delete_request_ptr, tell,
  move_to_doneq, purge_file,
}
use hylafaxplus.Faxq.Place.{
  post, set_state, clear_modem, clear_modems, release, release_modem_of, release_modem,
  release_if_held, remove_dest_info_job, ctrl_job_done, ready_after, set_ready_to_run,
  start_tts_timer, stop_tts_timer, start_kill_timer, stop_kill_timer, set_sleep, set_active,
  set_suspend, set_dead, dead_state,
}

pub if-Linked :
    {reg : ℕ → Bool} {s t : Server} (b : Bool)
    → Linked reg s
    → Linked reg t
    → Linked reg (if b then s else t)
if-Linked true l m = l
if-Linked false l m = m

pub case_option-Linked {ℓ} :
    {reg : ℕ → Bool} {A : Type ℓ} {s : Server} {f : A → Server} (o : Option A)
    → Linked reg s
    → ((a : A) → Linked reg (f a))
    → Linked reg (case_option o s f)
case_option-Linked none l m = l
case_option-Linked (some a) l m = m a

pub modify_dest-Linked :
    {reg : ℕ → Bool} (d : ℕ) (f : DestInfo → DestInfo) (s : Server)
    → Linked reg s
    → Linked reg (modify_dest d f s)
unfolding modify_dest
modify_dest-Linked d f s l = record {
  at = l.at;
  same = l.same;
  free = l.free;
  batch = l.batch;
  sound = l.sound;
}

pub emit-Linked : {reg : ℕ → Bool} (x : Effect) (s : Server) → Linked reg s → Linked reg (emit x s)
unfolding emit
emit-Linked x s l = record {
  at = l.at;
  same = l.same;
  free = l.free;
  batch = l.batch;
  sound = l.sound;
}

pub poke_scheduler-Linked :
    {reg : ℕ → Bool} (s : Server) → Linked reg s → Linked reg (poke_scheduler s)
unfolding poke_scheduler
poke_scheduler-Linked s l = record {
  at = l.at;
  same = l.same;
  free = l.free;
  batch = l.batch;
  sound = l.sound;
}

pub post-Linked :
    {reg : ℕ → Bool} (t : TriggerEvent) (j : ℕ) (s : Server)
    → Linked reg s
    → Linked reg (post t j s)
unfolding post
post-Linked t j s l = search emit-Linked

pub set_state-Linked :
    {reg : ℕ → Bool} (st : JobState) (j : ℕ) (s : Server)
    → Linked reg s
    → Linked reg (set_state st j s)
unfolding set_state
set_state-Linked st j s l = modify-Linked j _ s (λ b. (refl, refl)) l

pub start_tts_timer-Linked :
    {reg : ℕ → Bool} (t j : ℕ) (s : Server) → Linked reg s → Linked reg (start_tts_timer t j s)
unfolding start_tts_timer
start_tts_timer-Linked t j s l = modify-Linked j _ s (λ b. (refl, refl)) l

pub stop_tts_timer-Linked :
    {reg : ℕ → Bool} (j : ℕ) (s : Server) → Linked reg s → Linked reg (stop_tts_timer j s)
unfolding stop_tts_timer
stop_tts_timer-Linked j s l = modify-Linked j _ s (λ b. (refl, refl)) l

pub start_kill_timer-Linked :
    {reg : ℕ → Bool} (t j : ℕ) (s : Server) → Linked reg s → Linked reg (start_kill_timer t j s)
unfolding start_kill_timer
start_kill_timer-Linked t j s l = modify-Linked j _ s (λ b. (refl, refl)) l

pub stop_kill_timer-Linked :
    {reg : ℕ → Bool} (j : ℕ) (s : Server) → Linked reg s → Linked reg (stop_kill_timer j s)
unfolding stop_kill_timer
stop_kill_timer-Linked j s l = modify-Linked j _ s (λ b. (refl, refl)) l

pub fault-Linked :
    {reg : ℕ → Bool} (s : Server) → Linked reg s → Linked reg (record s { faulted = true })
fault-Linked s l = record {
  at = l.at;
  same = l.same;
  free = l.free;
  batch = l.batch;
  sound = l.sound;
}

pub write_file-Linked :
    {reg : ℕ → Bool} (j : ℕ) (r : FaxRequest) (s : Server)
    → Linked reg s
    → Linked reg (write_file j r s)
unfolding write_file
write_file-Linked j r s l =
    if-Linked (s.job j).in_doneq
      (record { at = l.at; same = l.same; free = l.free; batch = l.batch; sound = l.sound })
      (record { at = l.at; same = l.same; free = l.free; batch = l.batch; sound = l.sound })

pub update_request-Linked :
    {reg : ℕ → Bool} (j : ℕ) (r : FaxRequest) (s : Server)
    → Linked reg s
    → Linked reg (update_request j r s)
unfolding update_request
update_request-Linked j r s l = write_file-Linked j _ s l

pub notify_sender-Linked :
    {reg : ℕ → Bool} (j : ℕ) (why : JobStatus) (s : Server)
    → Linked reg s
    → Linked reg (notify_sender j why s)
unfolding notify_sender
notify_sender-Linked j why s l = emit-Linked _ s l

tell-Linked :
    {reg : ℕ → Bool} (j : ℕ) (r : FaxRequest) (why : JobStatus) (force : Bool) (s : Server)
    → Linked reg s
    → Linked reg (tell j r why force s)
unfolding tell
tell-Linked j r why force s l = if-Linked _ (notify_sender-Linked j why s l) l

move_to_doneq-Linked :
    {reg : ℕ → Bool} (e : Env) (j : ℕ) (r : FaxRequest) (why : JobStatus) (s : Server)
    → Linked reg s
    → Linked reg (move_to_doneq e j r why s)
unfolding move_to_doneq
move_to_doneq-Linked e j r why s l =
    modify-Linked j _ _ (λ b. (refl, refl))
      (record { at = l.at; same = l.same; free = l.free; batch = l.batch; sound = l.sound })

purge_file-Linked :
    {reg : ℕ → Bool} (j : ℕ) (s : Server) → Linked reg s → Linked reg (purge_file j s)
unfolding purge_file
purge_file-Linked j s l =
    if-Linked (s.job j).in_doneq
      (record { at = l.at; same = l.same; free = l.free; batch = l.batch; sound = l.sound })
      (record { at = l.at; same = l.same; free = l.free; batch = l.batch; sound = l.sound })

pub delete_request-Linked :
    {reg : ℕ → Bool} (e : Env) (j : ℕ) (r : FaxRequest) (why : JobStatus) (force : Bool)
    (s : Server)
    → Linked reg s
    → Linked reg (delete_request e j r why force s)
unfolding delete_request
delete_request-Linked e j r why force s l =
    search (if-Linked, move_to_doneq-Linked, tell-Linked, purge_file-Linked)

pub delete_request_ptr-Linked :
    {reg : ℕ → Bool} (e : Env) (j : ℕ) (r : FaxRequest) (why : JobStatus) (force : Bool)
    (s : Server)
    → Linked reg s
    → Linked reg (delete_request_ptr e j r why force s)
unfolding delete_request_ptr
delete_request_ptr-Linked e j r done force s l = search delete_request-Linked
delete_request_ptr-Linked e j r _ force s l = search (delete_request-Linked, emit-Linked)

clear_modem-Linked :
    {reg : ℕ → Bool} (j : ℕ) (s : Server) → Linked reg s → Linked reg (clear_modem j s)
unfolding clear_modem
clear_modem-Linked j s l =
    case_option-Linked _ (fault-Linked s l) (λ m. modify-Linked j _ s (λ b. (refl, refl)) l)

clear_modems-Linked :
    {reg : ℕ → Bool} (js : List ℕ) (s : Server) → Linked reg s → Linked reg (clear_modems js s)
unfolding clear_modems
clear_modems-Linked [] s l = l
clear_modems-Linked (j ∷ js) s l =
    clear_modems-Linked js (clear_modem j s) (clear_modem-Linked j s l)

release-Linked : {reg : ℕ → Bool} (m : ℕ) (s : Server) → Linked reg s → Linked reg (release m s)
unfolding release
release-Linked m s l = record {
  at = l.at;
  same = l.same;
  free = l.free;
  batch = l.batch;
  sound = l.sound;
}

release_modem_of-Linked :
    {reg : ℕ → Bool} (o : Option ℕ) (j : ℕ) (s : Server)
    → Linked reg s
    → Linked reg (release_modem_of o j s)
unfolding release_modem_of
release_modem_of-Linked none j s l = fault-Linked s l
release_modem_of-Linked (some m) j s l =
    search (clear_modems-Linked, poke_scheduler-Linked, release-Linked, post-Linked)

pub release_modem-Linked :
    {reg : ℕ → Bool} (j : ℕ) (s : Server) → Linked reg s → Linked reg (release_modem j s)
unfolding release_modem
release_modem-Linked j s l = release_modem_of-Linked (s.job j).modem j s l

pub release_if_held-Linked :
    {reg : ℕ → Bool} (j : ℕ) (s : Server) → Linked reg s → Linked reg (release_if_held j s)
unfolding release_if_held
release_if_held-Linked j s l = case_option-Linked _ l (λ m. release_modem-Linked j s l)

-- The only job on the destination's list leaves it with the head.
unhead-Linked :
    {reg : ℕ → Bool} (d : ℕ) (s : Server)
    → Linked reg s
    → Linked reg (unhead (s.queue (blockedq d)) d s)
unfolding unhead
unhead-Linked {reg} d s l = go (s.queue (blockedq d)) refl
  where
    go : (js : List ℕ) → s.queue (blockedq d) ≡ js → Linked reg (unhead js d s)
    go [] e = l
    go (j ∷ []) e = unlink_from-Linked (some (blockedq d)) j s (alone j e) l
      where
        alone : (j : ℕ) → s.queue (blockedq d) ≡ j ∷ [] → some (blockedq d) ≡ (s.job j).link
        alone j e = ground (arith, l.at (blockedq d) j)
    go (j ∷ i ∷ js) e = fault-Linked s l

pub drop-Linked : {reg : ℕ → Bool} (d : ℕ) (s : Server) → Linked reg s → Linked reg (drop d s)
unfolding drop
drop-Linked d s l = modify_dest-Linked d _ _ (unhead-Linked d s l)

pub remove_dest_info_job-Linked :
    {reg : ℕ → Bool} (j : ℕ) (s : Server) → Linked reg s → Linked reg (remove_dest_info_job j s)
unfolding remove_dest_info_job
remove_dest_info_job-Linked j s l =
    let l' = modify_dest-Linked (s.job j).dest (Dest.done_job j) s l in
    if-Linked _ (drop-Linked (s.job j).dest _ l') l'

pub ruleset place_rules = (
  set_state-Linked, insert_in-Linked, post-Linked, start_tts_timer-Linked, stop_tts_timer-Linked,
  start_kill_timer-Linked, stop_kill_timer-Linked, remove_if_on_list-Linked, remove-Linked,
  release_if_held-Linked, remove_dest_info_job-Linked, poke_scheduler-Linked,
)

pub ctrl_job_done-Linked :
    {reg : ℕ → Bool} (j : ℕ) (s : Server)
    → reg j ≡ true
    → Off j s
    → Linked reg s
    → Linked reg (ctrl_job_done j s)
unfolding ctrl_job_done
ctrl_job_done-Linked j s r o l = search (place_rules, off_rules)

ready_after-Linked :
    {reg : ℕ → Bool} (c : ControlRun) (j : ℕ) (s : Server)
    → reg j ≡ true
    → Off j s
    → Linked reg s
    → Linked reg (ready_after c j s)
unfolding ready_after
ready_after-Linked no_command j s r o l = ctrl_job_done-Linked j s r o l
ready_after-Linked no_child j s r o l = ctrl_job_done-Linked j s r o l
ready_after-Linked (ran jci status) j s r o l =
    ctrl_job_done-Linked j _ r (modify-Off j _ s (λ b. refl) o)
      (modify-Linked j _ s (λ b. (refl, refl)) l)

pub set_ready_to_run-Linked :
    {reg : ℕ → Bool} (e : Env) (j : ℕ) (s : Server)
    → reg j ≡ true
    → Off j s
    → Linked reg s
    → Linked reg (set_ready_to_run e j s)
unfolding set_ready_to_run
set_ready_to_run-Linked e j s r o l = ready_after-Linked (e.control j) j s r o l

pub set_sleep-Linked :
    {reg : ℕ → Bool} (j t : ℕ) (s : Server)
    → reg j ≡ true
    → Off j s
    → Linked reg s
    → Linked reg (set_sleep j t s)
unfolding set_sleep
set_sleep-Linked j t s r o l = search (place_rules, off_rules)

pub set_active-Linked :
    {reg : ℕ → Bool} (j : ℕ) (s : Server)
    → reg j ≡ true
    → Off j s
    → Linked reg s
    → Linked reg (set_active j s)
unfolding set_active
set_active-Linked j s r o l = search (place_rules, off_rules)

pub set_suspend-Linked :
    {reg : ℕ → Bool} (j : ℕ) (s : Server)
    → reg j ≡ true
    → Off j s
    → Linked reg s
    → Linked reg (set_suspend j s)
unfolding set_suspend
set_suspend-Linked j s r o l = search (place_rules, off_rules)

finish-Linked :
    {reg : ℕ → Bool} (j : ℕ) (s : Server)
    → Linked reg s
    → Linked reg
        (modify j (λ b. record b { state = dead_state b.state; suspend_pending = false }) s)
finish-Linked j s l = modify-Linked j _ s (λ b. (refl, refl)) l

pub set_dead-Linked :
    {reg : ℕ → Bool} (j : ℕ) (s : Server) → reg j ≡ true → Linked reg s → Linked reg (set_dead j s)
unfolding set_dead
set_dead-Linked j s r l = search (place_rules, off_rules, finish-Linked) depth 12
