-- ===== src/Faxq/Place.antt =====
-- Placing a job on a queue (faxd/faxQueueApp.c++: setReadyToRun, ctrlJobDone, setSleep, setDead,
-- setActive, setSuspend, removeDestInfoJob, releaseModem). The walk over a batch has fuel for 64
-- jobs, which is the most that the scheduler puts in a batch.
use hylafaxplus.Prelude.{
  ℕ, zero, suc, Bool, true, false, ◌&&◌, ◌||◌, Option, none, some, List, [], ◌∷◌, ltb, leb, ◌==◌,
  if◌then◌else◌, case_option, ◌▷◌,
}
use hylafaxplus.Faxq.State.{
  JobState, state_suspended, state_ready, state_active, state_done, state_failed, ModemState, ready,
  busy, runq, sleepq, activeq, deadq, suspendq, Job, job_suspend, job_ready, job_sleep, job_dead,
  job_active, modem_release, TriggerEvent, posted, Server, ControlRun, no_command, no_child, ran,
  Env, job_hash, put, modify, modify_dest, emit, poke_scheduler,
}
use hylafaxplus.Faxq.Link.{insert_in, remove_if_on_list}
use hylafaxplus.Faxq.Dest
use hylafaxplus.Faxq.Dest.{drop}

-- Trigger::post
unfoldable pub post : TriggerEvent → ℕ → Server → Server
post t j s = emit (posted t j) s

unfoldable pub set_state : JobState → ℕ → Server → Server
set_state st j s = modify j (λ b. record b { state = st }) s

-- The jobs from j on in its batch.
unfoldable pub batch_chain : ℕ → Server → ℕ → List ℕ
batch_chain zero s j = []
batch_chain (suc fuel) s j = j ∷ elim (s.job j).bnext [ none ↦ [] | some n ↦ batch_chain fuel s n ]

-- if (state == BUSY) state = READY;
unfoldable pub released : ModemState → ModemState
released busy = ready
released m = m

-- cjob->modem = NULL, which asserts that there is one.
unfoldable pub clear_modem : ℕ → Server → Server
clear_modem j s =
    case_option (s.job j).modem (record s { faulted = true })
      (λ _. modify j (λ b. record b { modem = none }) s)

unfoldable pub clear_modems : List ℕ → Server → Server
clear_modems [] s = s
clear_modems (j ∷ js) s = s ▷ clear_modem j ▷ clear_modems js

-- Modem::release
unfoldable pub release : ℕ → Server → Server
release m s = record s { modem_state = put s.modem_state m (released (s.modem_state m)) }

-- faxQueueApp::releaseModem
unfoldable pub release_modem_of : Option ℕ → ℕ → Server → Server
release_modem_of none j s = record s { faulted = true }
release_modem_of (some m) j s =
    s ▷ post modem_release m ▷ release m ▷ poke_scheduler ▷ clear_modems (batch_chain 64 s j)

unfoldable pub release_modem : ℕ → Server → Server
release_modem j s = release_modem_of (s.job j).modem j s

-- if (job.modem) releaseModem(job);
unfoldable pub release_if_held : ℕ → Server → Server
release_if_held j s = case_option (s.job j).modem s (λ _. release_modem j s)

-- faxQueueApp::removeDestInfoJob
unfoldable pub remove_dest_info_job : ℕ → Server → Server
remove_dest_info_job j s =
    let d = (s.job j).dest in
    let s' = modify_dest d (Dest.done_job j) s in
    if Dest.is_empty (s'.dests d) then drop d s' else s'

-- The place of a job on its run queue is behind these.
abbrev pub runs_before : Job → Job → Bool
runs_before a b = ltb a.pri b.pri || a.pri == b.pri && leb a.tts b.tts

-- faxQueueApp::ctrlJobDone
unfoldable pub ctrl_job_done : ℕ → Server → Server
ctrl_job_done j s =
    s
    ▷ set_state state_ready j
    ▷ insert_in (runq (job_hash (s.job j).pri)) (λ i. runs_before (s.job i) (s.job j)) j
    ▷ post job_ready j

-- The priority that job control gives, if any, with its bound.
unfoldable pub control_priority : Option ℕ → ℕ → ℕ
control_priority none pri = pri
control_priority (some p) pri = if ltb 255 p then 255 else p

-- faxQueueApp::setReadyToRun, from the result of the job control command.
unfoldable pub ready_after : ControlRun → ℕ → Server → Server
ready_after no_command j s = ctrl_job_done j s
ready_after no_child j s = ctrl_job_done j s
ready_after (ran jci status) j s =
    s
    ▷ modify j (λ b. record b { jci = jci; pri = control_priority jci.priority b.pri })
    ▷ ctrl_job_done j

unfoldable pub set_ready_to_run : Env → ℕ → Server → Server
set_ready_to_run e j s = ready_after (e.control j) j s

-- Job::startTTSTimer, stopTTSTimer, startKillTimer and stopKillTimer
unfoldable pub start_tts_timer : ℕ → ℕ → Server → Server
start_tts_timer tts j s = modify j (λ b. record b { tts = tts; tts_timer = some tts }) s

unfoldable pub stop_tts_timer : ℕ → Server → Server
stop_tts_timer j s = modify j (λ b. record b { tts_timer = none }) s

unfoldable pub start_kill_timer : ℕ → ℕ → Server → Server
start_kill_timer at j s = modify j (λ b. record b { killtime = at; kill_timer = some at }) s

unfoldable pub stop_kill_timer : ℕ → Server → Server
stop_kill_timer j s = modify j (λ b. record b { kill_timer = none }) s

-- faxQueueApp::setSleep
unfoldable pub set_sleep : ℕ → ℕ → Server → Server
set_sleep j tts s =
    s ▷ insert_in sleepq (λ i. leb (s.job i).tts tts) j ▷ start_tts_timer tts j ▷ post job_sleep j

-- faxQueueApp::setActive and setSuspend: at the head of their lists.
unfoldable pub set_active : ℕ → Server → Server
set_active j s = s ▷ set_state state_active j ▷ post job_active j ▷ insert_in activeq (λ _. false) j

unfoldable pub set_suspend : ℕ → Server → Server
set_suspend j s =
    s ▷ set_state state_suspended j ▷ post job_suspend j ▷ insert_in suspendq (λ _. false) j

-- A state that is final stays; any other becomes state_failed.
unfoldable pub dead_state : JobState → JobState
dead_state state_done = state_done
dead_state _ = state_failed

-- faxQueueApp::setDead
unfoldable pub set_dead : ℕ → Server → Server
set_dead j s =
    s
    ▷ stop_tts_timer j
    ▷ modify j (λ b. record b { state = dead_state b.state; suspend_pending = false })
    ▷ post job_dead j
    ▷ remove_dest_info_job j
    ▷ remove_if_on_list j
    ▷ insert_in deadq (λ _. false) j
    ▷ release_if_held j
    ▷ poke_scheduler
