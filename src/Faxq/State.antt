-- ===== src/Faxq/State.antt =====
-- The state of the queue manager: jobs (faxd/Job.h), per-destination records (faxd/DestInfo.h), the
-- queues of faxd/faxQueueApp.h and the job description files (faxd/FaxRequest.h).
-- A job identifier, a destination, a device and a client's text are numbers that name the string.
use native.Mathlib.Decide.{ℕ_discrete}
use hylafaxplus.Prelude.{ℕ, ◌/◌, ◌%◌, Bool, true, Option, List, ◌∷◌, ◌==◌, if◌then◌else◌, ite}

-- FaxRequest's job scheduling states.
pub data JobState : Type 0 where
  state_undefined state_suspended state_pending state_sleeping state_blocked : JobState
  state_ready state_active state_done state_failed : JobState

-- FaxSendStatus, and the exit code 127 of a send program that could not be run.
pub data SendStatus : Type 0 where
  send_retry send_failed send_done send_reformat : SendStatus
  send_v34fail send_v17fail send_batchfail send_not_run : SendStatus

-- JobStatus: why a job is taken off the queue, or is reported to its sender.
pub data JobStatus : Type 0 where
  no_status done requeued removed timedout no_formatter failed format_failed : JobStatus
  poll_rejected poll_no_document poll_failed killed blocked rejected : JobStatus

-- What FaxRequest::notice says.
pub data Notice : Type 0 where
  no_notice not_canonical not_registered no_work corrupted killtime_expired aborted : Notice
  interrupted not_run delayed_by_call concurrent_calls time_of_day staggering : Notice
  proxy_limit modem_exempt no_fork by_control : Notice
  page_width killtime_invalid tts_invalid : ℕ → Notice
  too_many_dials too_many_tries too_many_pages : ℕ → ℕ → Notice
  given : ℕ → Notice

-- FaxRequest's item operations, in the order of their numbers.
pub data SendOp : Type 0 where
  send_fax send_tiff send_tiff_saved send_pdf send_pdf_saved send_postscript : SendOp
  send_postscript_saved send_pcl send_pcl_saved send_data send_data_saved send_poll : SendOp
  send_page send_page_saved send_uucp send_unknown : SendOp

-- class FaxItem
pub record FaxItem : Type 0 where
  pub op : SendOp
  pub item : ℕ

-- The error codes that ShareCallFailures can name, and all others.
pub data ErrorCode : Type 0 where
  e001 e002 e003 e004 other_error : ErrorCode

-- Modem's states.
pub data ModemState : Type 0 where
  down ready busy exempt : ModemState

-- class FaxRequest, as far as the queue manager reads it. `cover` is none for the empty string.
pub record FaxRequest : Type 0 where
  pub state : JobState
  pub status : SendStatus
  pub errorcode : ErrorCode
  pub notice : Notice
  pub number : ℕ
  pub canonical : ℕ
  pub external : Option ℕ
  pub modem : ℕ
  pub commid : ℕ
  pub pri : ℕ
  pub tts : ℕ
  pub killtime : ℕ
  pub retrytime : ℕ
  pub notify : ℕ
  pub pagewidth : ℕ
  pub totpages : ℕ
  pub npages : ℕ
  pub totdials : ℕ
  pub maxdials : ℕ
  pub tottries : ℕ
  pub maxtries : ℕ
  pub useccover : Bool
  pub serverdocover : Bool
  pub skippedpages : ℕ
  pub skippages : ℕ
  pub cover : Option ℕ
  pub pagehandling : Option ℕ
  pub items : List FaxItem

-- A job description file: what reading it gives. In `bad` a request was read that is to be rejected.
pub data QFile : Type 0 where
  absent garbled : QFile
  good bad : FaxRequest → QFile

-- class JobControlInfo, with the server's values where it defines none; none stands for -1.
pub record JobControlInfo : Type 0 where
  pub priority : Option ℕ
  pub notify : Option ℕ
  pub max_concurrent_calls : ℕ
  pub max_dials : ℕ
  pub max_tries : ℕ
  pub max_send_pages : ℕ
  pub reject_notice : Bool

-- The list heads of the server, and the list of jobs blocked on a destination.
pub data QueueId : Type 0 where
  runq : ℕ → QueueId
  sleepq activeq deadq suspendq : QueueId
  blockedq : ℕ → QueueId

unfoldable pub QueueId-discrete : Discrete QueueId
QueueId-discrete = hlevel ℕ_discrete

-- class Job. `link` is the list that the job's QLink stands in, none when it is linked to itself.
-- A timer is the time at which it goes off.
pub record Job : Type 0 where
  pub tts : ℕ
  pub killtime : ℕ
  pub start : ℕ
  pub pri : ℕ
  pub state : JobState
  pub suspend_pending : Bool
  pub in_doneq : Bool
  pub dest : ℕ
  pub commid : ℕ
  pub modem : Option ℕ
  pub bprev : Option ℕ
  pub bnext : Option ℕ
  pub jci : JobControlInfo
  pub link : Option QueueId
  pub tts_timer : Option ℕ
  pub kill_timer : Option ℕ

-- class DestInfo; the list of blocked jobs is the queue `blockedq`, the list threaded through
-- Job::dnext is `running`.
pub record DestInfo : Type 0 where
  pub active_count : ℕ
  pub blocked_count : ℕ
  pub call_count : ℕ
  pub running : List ℕ
  pub pending_connection : Bool

-- The events of faxd/Trigger.h that the queue manager posts here.
pub data TriggerEvent : Type 0 where
  job_create job_suspend job_ready job_sleep job_dead job_active : TriggerEvent
  job_blocked job_delayed job_process job_timedout job_kill job_reject job_reap : TriggerEvent
  send_begin send_end send_reformatted send_requeue send_finished : TriggerEvent
  modem_assign modem_release : TriggerEvent

-- What other processes see: triggers, notices to the sender, accounting records and signals.
pub data Effect : Type 0 where
  posted : TriggerEvent → ℕ → Effect
  notified : ℕ → JobStatus → Effect
  accounted : ℕ → Effect
  terminated : ℕ → Effect

-- The server. `relinked` is set where the assertion of QLink::insert fails, since the job is on a list;
-- `faulted` where another assertion fails or a list head with more than one job on it is destroyed;
-- `effects` holds the latest first.
pub record Server : Type 0 where
  pub job : ℕ → Job
  pub registered : ℕ → Bool
  pub queue : QueueId → List ℕ
  pub dests : ℕ → DestInfo
  pub file : ℕ → QFile
  pub doneq : ℕ → QFile
  pub modem_state : ℕ → ModemState
  pub num_proxy_jobs : ℕ
  pub poked : Bool
  pub faulted : Bool
  pub relinked : Bool
  pub effects : List Effect

-- The result of the job control command.
pub data ControlRun : Type 0 where
  no_command no_child : ControlRun
  ran : JobControlInfo → ℕ → ControlRun

-- What the server takes from outside: the clock, the configuration, the dial string rules, the
-- registered modems and modem groups, other programs and the file system.
pub record Env : Type 0 where
  pub now : ℕ
  pub random : ℕ
  pub requeue_interval : ℕ
  pub canonicalize : ℕ → Option ℕ
  pub modem_known : ℕ → Bool
  pub default_jci : JobControlInfo
  pub control : ℕ → ControlRun
  pub cover_template : Bool
  pub cover_name : ℕ → ℕ
  pub base_name : ℕ → ℕ
  pub rename_done : ℕ → Bool
  pub batching : ℕ → Bool
  pub max_batch_jobs : ℕ
  pub share_failure : ErrorCode → Bool

abbrev pub one_year : ℕ
one_year = 31536000

-- JOBHASH
abbrev pub job_hash : ℕ → ℕ
job_hash pri = pri / 16 % 16

-- A map with one entry changed.
abbrev pub put {ℓ} : {A : Type ℓ} → (ℕ → A) → ℕ → A → ℕ → A
put f k v i = if i == k then v else f i

abbrev pub put_queue : (QueueId → List ℕ) → QueueId → List ℕ → QueueId → List ℕ
put_queue f q v r = ite (QueueId-discrete r q) v (f r)

-- Changes the fields of one job.
unfoldable pub modify : ℕ → (Job → Job) → Server → Server
modify j f s = record s { job = put s.job j (f (s.job j)) }

unfoldable pub modify_dest : ℕ → (DestInfo → DestInfo) → Server → Server
modify_dest d f s = record s { dests = put s.dests d (f (s.dests d)) }

unfoldable pub emit : Effect → Server → Server
emit x s = record s { effects = x ∷ s.effects }

unfoldable pub poke_scheduler : Server → Server
poke_scheduler s = record s { poked = true }
