-- ===== src/Examples/Multithreaded.antt =====
-- examples/queue_multithreaded/main.c: main sends numbered structs through a queue over a
-- static buffer, and two threads receive and print them. State has what the threads share and where
-- they stand, Handlers what a thread does behind a call, and System the turns.
pub mod State
pub mod Handlers
pub mod System
pub mod Delivery
pub mod Outcomes
pub mod Hands
pub mod Sends
pub mod Receives
pub mod Turns
pub mod Growth
pub mod Prefill
pub mod Program
mod Tests
