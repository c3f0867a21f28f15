-- ===== src/Faxq/Ring.antt =====
-- The doubly-linked rings that the queues are made of (faxd/QLink.c++, faxd/QLink.h) and the iterator
-- that walks them (JobIter of faxd/Job.h). A list head and a job's link are nodes; a node that is on
-- no ring is linked to itself. `none` is an assertion that fails, or a walk that ends by its fuel.
pub mod Segments
pub mod Refines
mod Tests
use hylafaxplus.Prelude.{ℕ, zero, suc, Bool, Option, none, some, not, ◌==◌, if◌then◌else◌}
use hylafaxplus.Faxq.State.{put}

-- The pointers of all nodes: struct QLink.
pub record QLink : Type 0 where
  pub next : ℕ → ℕ
  pub prev : ℕ → ℕ

-- QLink::QLink
unfoldable pub init_link : ℕ → QLink → QLink
init_link n r = record { next = put r.next n n; prev = put r.prev n n }

-- QLink::insert, the four assignments.
unfoldable pub link_before : ℕ → ℕ → QLink → QLink
link_before n after r =
    let r1 = record r { next = put r.next n after } in
    let r2 = record r1 { prev = put r1.prev n (r1.prev after) } in
    let r3 = record r2 { next = put r2.next (r2.prev after) n } in
    record r3 { prev = put r3.prev after n }

unfoldable pub insert_link : ℕ → ℕ → QLink → Option QLink
insert_link n after r = if r.next n == n then some (link_before n after r) else none

-- QLink::remove
unfoldable pub unlink : ℕ → QLink → QLink
unlink n r =
    let r1 = record r { prev = put r.prev (r.next n) (r.prev n) } in
    let r2 = record r1 { next = put r1.next (r1.prev n) (r1.next n) } in
    record r2 { next = put r2.next n n }

unfoldable pub remove_link : ℕ → QLink → Option QLink
remove_link n r = if r.next n == n then none else some (unlink n r)

-- class JobIter: the node it is at, and the one it goes to.
pub record JobIter : Type 0 where
  pub ql : ℕ
  pub after : ℕ

unfoldable pub start_iter : ℕ → QLink → JobIter
start_iter head r = record { ql = r.next head; after = r.next (r.next head) }

unfoldable pub advance : QLink → JobIter → JobIter
advance r it = record { ql = it.after; after = r.next it.after }

-- for (; iter.notDone() && skip(iter.job()); iter++)
unfoldable pub walk : ℕ → ℕ → QLink → (ℕ → Bool) → JobIter → Option JobIter
walk zero head r skip it = none
walk (suc fuel) head r skip it =
    let rest = walk fuel head r skip (advance r it) in
    if it.ql == head then some it else if skip it.ql then rest else some it

-- job.insert(iter.job())
unfoldable pub insert_at : ℕ → Option JobIter → QLink → Option QLink
insert_at n none r = none
insert_at n (some it) r = insert_link n it.ql r

-- The walk of ctrlJobDone, setSleep and DestInfo::block, and the insertion behind it.
unfoldable pub insert_sorted : ℕ → ℕ → (ℕ → Bool) → ℕ → QLink → Option QLink
insert_sorted fuel head skip n r = insert_at n (walk fuel head r skip (start_iter head r)) r
