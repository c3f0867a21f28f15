-- ===== src/Faxq/Linked.antt =====
-- The links of jobs and lists under every operation of faxd/faxQueueApp.c++.
pub mod Off
pub mod Place
pub mod Jobs
pub mod Blocked
pub mod Sent
pub mod Client
pub mod Schedule
