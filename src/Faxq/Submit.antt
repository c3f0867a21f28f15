-- ===== src/Faxq/Submit.antt =====
-- Submitting a job (faxd/faxQueueApp.c++: the three functions submitJob; faxd/Job.c++: the
-- constructor and update).
use hylafaxplus.Prelude.{
  ℕ, ◌-◌, Bool, true, false, ◌&&◌, ◌||◌, not, none, some, [], ◌∷◌, ltb, leb, ◌==◌, if◌then◌else◌,
  case_option, ◌▷◌,
}
use hylafaxplus.Faxq.State.{
  JobState, state_suspended, state_pending, state_done, state_failed, send_failed, rejected, Notice,
  not_canonical, not_registered, no_work, corrupted, page_width, killtime_invalid, tts_invalid,
  FaxRequest, QFile, absent, garbled, good, bad, Job, job_create, job_reap, accounted, Server, Env,
  one_year, put, modify, emit, poke_scheduler,
}
use hylafaxplus.Faxq.Link.{remove}
use hylafaxplus.Faxq.Request.{read_request, update_request, delete_request}
use hylafaxplus.Faxq.Place.{
  post, set_state, set_ready_to_run, set_sleep, set_suspend, set_dead, start_kill_timer,
}
use hylafaxplus.Faxq.Delay.{reject_submission, timeout_submission}

-- Job::update, the fields that the scheduler uses.
unfoldable pub update_job : Env → FaxRequest → Job → Job
update_job e r b = record b {
  tts = if r.tts == 0 then e.now else r.tts;
  killtime = r.killtime;
  pri = r.pri;
}

-- Job::Job
unfoldable pub new_job : Env → FaxRequest → Job
new_job e r = update_job e r (record {
  tts = 0;
  killtime = 0;
  start = 0;
  pri = 0;
  state = r.state;
  suspend_pending = false;
  in_doneq = false;
  dest = 0;
  commid = 0;
  modem = none;
  bprev = none;
  bnext = none;
  jci = e.default_jci;
  link = none;
  tts_timer = none;
  kill_timer = none;
})

unfoldable pub create_job : Env → ℕ → FaxRequest → Server → Server
create_job e j r s = record s {
  job = put s.job j (new_job e r);
  registered = λ i. if i == j then true else s.registered i;
}

unfoldable pub reject : Env → ℕ → FaxRequest → Notice → Server → Bool × Server
reject e j r reason s = (false, reject_submission e j r reason s)

-- A continuation cover page for a job with skipped pages.
unfoldable pub add_cover : Env → ℕ → FaxRequest → FaxRequest
add_cover e j r =
    if r.useccover
      && (r.serverdocover || not (r.skippedpages == 0) || not (r.skippages == 0))
      && e.cover_template
    then record r { cover = some (e.cover_name j) }
    else r

-- The end of submitJob: the job goes to sleep or to the run queue.
unfoldable pub schedule : Env → ℕ → FaxRequest → Server → Bool × Server
schedule e j r s =
    if ltb e.now r.tts
    then if ltb one_year (r.tts - e.now)
      then reject e j (add_cover e j r) (tts_invalid r.tts) s
      else (
        true,
        s
            ▷ start_kill_timer r.killtime j
            ▷ set_state state_pending j
            ▷ set_sleep j (s.job j).tts
            ▷ update_request j (add_cover e j r),
      )
    else (
      true,
      s
          ▷ start_kill_timer r.killtime j
          ▷ set_ready_to_run e j
          ▷ poke_scheduler
          ▷ update_request j (add_cover e j r),
    )

-- At a restart a job that was not being scheduled is not scheduled now.
unfoldable pub schedule_by_state : Env → ℕ → FaxRequest → JobState → Server → Bool × Server
schedule_by_state e j r state_suspended s = (true, set_suspend j s)
schedule_by_state e j r state_done s = (true, set_dead j s)
schedule_by_state e j r state_failed s = (true, set_dead j s)
schedule_by_state e j r _ s = schedule e j r s

abbrev pub no_items : FaxRequest → Bool
no_items r = elim r.items [ [] ↦ true | x ∷ xs ↦ false ]

-- The checks of submitJob, once the destination is known.
unfoldable pub submit_checked : Env → ℕ → FaxRequest → Bool → Server → Bool × Server
submit_checked e j r check s =
    if leb r.killtime e.now
    then (false, timeout_submission e j r s)
    else if not (e.modem_known r.modem)
    then reject e j r not_registered s
    else if no_items r
    then reject e j r no_work s
    else if ltb 303 r.pagewidth
    then reject e j r (page_width r.pagewidth) s
    else if ltb one_year (r.killtime - e.now)
    then reject e j r (killtime_invalid r.killtime) s
    else if check
    then schedule_by_state e j r r.state s
    else schedule e j r s

unfoldable pub set_dest : ℕ → ℕ → Server → Server
set_dest d j s = modify j (λ b. record b { dest = d }) s

-- faxQueueApp::submitJob(Job&, FaxRequest&, bool); destination 0 is the empty string.
unfoldable pub submit_job : Env → ℕ → FaxRequest → Bool → Server → Bool × Server
submit_job e j r check s =
    case_option (e.canonicalize r.number)
      (reject e j (record r { external = some (case_option r.external r.number (λ x. x)) })
        not_canonical (set_dest 0 j s))
      (λ d. submit_checked e j (record r { canonical = d }) check (set_dest d j s))

-- faxQueueApp::submitJob(FaxRequest&, bool)
unfoldable pub submit_new : Env → ℕ → FaxRequest → Bool → Server → Bool × Server
submit_new e j r check s = submit_job e j r check (s ▷ create_job e j r ▷ post job_create j)

-- A job that is known already: only a suspended one is submitted again.
unfoldable pub resubmit : Env → ℕ → JobState → Server → Bool × Server
resubmit e j state_suspended s =
    let s' = remove j s in
    case_option (read_request j s') (false, set_dead j s')
      (λ r. submit_job e j r false (modify j (update_job e r) s'))
resubmit e j state_done s = (false, s)
resubmit e j state_failed s = (false, s)
resubmit e j _ s = (true, s)

abbrev pub is_final : JobState → Bool
is_final state_done = true
is_final state_failed = true
is_final _ = false

-- A corrupted request: a job that lasts for this call deletes it.
unfoldable pub discard : Env → ℕ → FaxRequest → Server → Server
discard e j r s =
    record s { job = put s.job j (record (new_job e r) { state = state_failed }) }
    ▷ delete_request e j (record r { status = send_failed; notice = corrupted }) rejected true

-- A job that is not known, from its file.
unfoldable pub submit_file : Env → ℕ → Bool → Bool → QFile → Server → Bool × Server
submit_file e j check nascent absent s = (false, s)
submit_file e j check nascent garbled s = (false, s)
submit_file e j check nascent (bad r) s = (false, discard e j r s)
submit_file e j check nascent (good r) s =
    if is_final r.state
    then (false, s)
    else let (ok, s') = submit_new e j r check s in
      (ok, if nascent then emit (accounted j) s' else s')

-- faxQueueApp::submitJob(const fxStr&, bool, bool)
unfoldable pub submit_by_id : Env → ℕ → Bool → Bool → Server → Bool × Server
submit_by_id e j check nascent s =
    if s.registered j
    then resubmit e j (s.job j).state s
    else submit_file e j check nascent (s.file j) s

-- The end of runScheduler for one dead job: it leaves the dead list and is deleted.
unfoldable pub reap : ℕ → Server → Server
reap j s =
    let s' = s ▷ remove j ▷ post job_reap j in
    record s' { registered = λ i. if i == j then false else s'.registered i }
