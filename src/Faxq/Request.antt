-- ===== src/Faxq/Request.antt =====
-- Reading, writing and deleting job description files (faxd/faxQueueApp.c++: readRequest,
-- updateRequest, deleteRequest, notifySender, queueAccounting; faxd/FaxRequest.c++, faxd/FaxItem.c++).
use hylafaxplus.Prelude.{
  ℕ, ◌/◌, ◌%◌, Bool, true, false, ◌||◌, not, Option, none, some, List, [], ◌∷◌, ◌==◌, if◌then◌else◌,
  ◌▷◌,
}
use mathlib.Core.List.{reverse}
use hylafaxplus.Faxq.State.{
  JobState, state_done, state_failed, JobStatus, SendOp, send_fax, send_tiff_saved, send_pdf_saved,
  send_postscript_saved, send_pcl_saved, send_data_saved, send_page_saved, FaxItem, FaxRequest,
  QFile, absent, garbled, good, bad, Job, Server, Env, notified, accounted, put, modify, emit,
}

-- FaxItem::isSavedOp
unfoldable pub is_saved_op : SendOp → Bool
is_saved_op send_tiff_saved = true
is_saved_op send_postscript_saved = true
is_saved_op send_pcl_saved = true
is_saved_op send_pdf_saved = true
is_saved_op send_page_saved = true
is_saved_op send_data_saved = true
is_saved_op _ = false

unfoldable pub is_fax : SendOp → Bool
is_fax send_fax = true
is_fax _ = false

-- FaxRequest::renameSaved on the item in front, which heads the items kept so far.
unfoldable pub rename_saved : (ℕ → ℕ) → List FaxItem → List FaxItem
rename_saved base [] = []
rename_saved base (x ∷ xs) =
    if is_saved_op x.op then record x { item = base x.item } ∷ xs else x ∷ xs

-- The loop of deleteRequest over the items; those kept are in reverse order.
unfoldable pub drop_faxes : (ℕ → ℕ) → List FaxItem → List FaxItem → List FaxItem
drop_faxes base kept [] = reverse kept
drop_faxes base kept (x ∷ xs) =
    drop_faxes base (if is_fax x.op then rename_saved base kept else x ∷ kept) xs

-- FaxRequest::isNotify(when_requeued) and isNotify(notify_any)
abbrev pub when_requeued : ℕ → Bool
when_requeued n = n / 2 % 2 == 1

abbrev pub notify_any : ℕ → Bool
notify_any n = not (n % 4 == 0)

-- The flags of the job control information, or if it has none those of the request.
unfoldable pub is_notify : (ℕ → Bool) → Job → FaxRequest → Bool
is_notify what b r = elim b.jci.notify [ none ↦ what r.notify | some n ↦ what n ]

-- FaxRequest::readQFile gives no usable request, or one; a request with no displayable number gets
-- the destination's.
unfoldable pub usable : ℕ → QFile → Option FaxRequest
usable dest absent = none
usable dest garbled = none
usable dest (bad r) = none
usable dest (good r) =
    some (elim r.external [ none ↦ record r { external = some dest } | some _ ↦ r ])

-- faxQueueApp::readRequest
unfoldable pub read_request : ℕ → Server → Option FaxRequest
read_request j s = let b = s.job j in usable b.dest (if b.in_doneq then s.doneq j else s.file j)

-- FaxRequest::writeQFile, to the file that job.file names.
unfoldable pub write_file : ℕ → FaxRequest → Server → Server
write_file j r s =
    if (s.job j).in_doneq
    then record s { doneq = put s.doneq j (good r) }
    else record s { file = put s.file j (good r) }

-- faxQueueApp::updateRequest
unfoldable pub update_request : ℕ → FaxRequest → Server → Server
update_request j r s = write_file j (record r { state = (s.job j).state; pri = (s.job j).pri }) s

-- faxQueueApp::notifySender
unfoldable pub notify_sender : ℕ → JobStatus → Server → Server
notify_sender j why s = emit (notified j why) s

-- The state that a request has in the doneq directory.
unfoldable pub final_state : JobStatus → JobState
final_state JobStatus.done = state_done
final_state _ = state_failed

-- The end of both branches of deleteRequest: is the sender told?
unfoldable pub tell : ℕ → FaxRequest → JobStatus → Bool → Server → Server
tell j r why force s =
    if force || is_notify notify_any (s.job j) r then notify_sender j why s else s

-- The branch of deleteRequest in which the file could be moved to the doneq directory; one that is
-- there already stays.
unfoldable pub move_to_doneq : Env → ℕ → FaxRequest → JobStatus → Server → Server
move_to_doneq e j r why s =
    record s {
      file = if (s.job j).in_doneq then s.file else put s.file j absent;
      doneq = put s.doneq j (
          good (record r {
            items = drop_faxes e.base_name [] r.items;
            state = final_state why;
            pri = (s.job j).pri;
            tts = e.now;
          }));
    }
    ▷ modify j (λ b. record b { in_doneq = true; tts = e.now })

-- The branch in which it could not: the file is purged, wherever it is.
unfoldable pub purge_file : ℕ → Server → Server
purge_file j s =
    if (s.job j).in_doneq
    then record s { doneq = put s.doneq j absent }
    else record s { file = put s.file j absent }

-- faxQueueApp::deleteRequest, for a request that is passed by reference.
unfoldable pub delete_request : Env → ℕ → FaxRequest → JobStatus → Bool → Server → Server
delete_request e j r why force s =
    if e.rename_done j
    then s ▷ move_to_doneq e j r why ▷ tell j r why force
    else s ▷ tell j r why force ▷ purge_file j

-- faxQueueApp::deleteRequest, for a request that is passed by pointer.
unfoldable pub delete_request_ptr : Env → ℕ → FaxRequest → JobStatus → Bool → Server → Server
delete_request_ptr e j r JobStatus.done force s = delete_request e j r JobStatus.done force s
delete_request_ptr e j r why force s = s ▷ emit (accounted j) ▷ delete_request e j r why force
