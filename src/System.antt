-- ===== src/System.antt =====
-- The kernel while it runs: the messages of kernel/messaging.c and the interrupts of kernel/interrupt.c on
-- one state, with the scheduler of kernel/proc.c.
pub mod States
pub mod Runs
pub mod Taken
pub mod Calm
pub mod Settled
pub mod Calls
pub mod Message
pub mod Tick
pub mod Reach
pub mod Start
pub mod Examples
