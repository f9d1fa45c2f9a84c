-- ===== src/Queue.antt =====
-- lib/queue.c and includes/queue.h: a bounded message queue shared by threads.
pub mod State
pub mod Create
pub mod Status
pub mod Deadline
pub mod Transfer
pub mod Layout
pub mod Contents
pub mod Refine
pub mod Waiting
pub mod Sending
pub mod Receiving
pub mod Locking
pub mod Progress
pub mod History
pub mod Fresh
mod Tests
