-- ===== src/Faxq.antt =====
-- The queue manager (faxd/faxQueueApp.c++, faxd/Job.c++, faxd/DestInfo.c++, faxd/QLink.c++).
pub mod State
pub mod Link
pub mod Dest
pub mod Request
pub mod Place
pub mod Delay
pub mod Unblock
pub mod Schedule
pub mod Submit
pub mod SendDone
pub mod Suspend
pub mod Linked
pub mod Start
pub mod Counts
pub mod Ended
pub mod Waiting
pub mod Slept
pub mod Asleep
pub mod Failed
pub mod Accepted
pub mod Grounds
pub mod Decided
pub mod Limit
pub mod Dead
pub mod Filing
pub mod Order
pub mod Reach
pub mod Runs
pub mod Ring
pub mod Modems
mod Tests
