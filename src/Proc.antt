-- ===== src/Proc.antt =====
-- The process table and the scheduler: kernel/proc.c and include/kernel/proc.h.
pub mod Table
pub mod Schedule
pub mod Sound
pub mod AddRunning
pub mod AddAll
pub mod Plan
pub mod Dispatch
pub mod Switch
pub mod Requeue
pub mod Outcome
pub mod Refine
pub mod Dropped
pub mod Start
pub mod Examples
