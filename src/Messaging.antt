-- ===== src/Messaging.antt =====
-- Message passing between processes: kernel/messaging.c and include/kernel/messaging.h.
pub mod Store
pub mod Queues
pub mod Small
pub mod Big
pub mod Lists
pub mod Spec
pub mod Rep
pub mod Refine
pub mod Kernel
pub mod Start
pub mod Failure
pub mod Examples
