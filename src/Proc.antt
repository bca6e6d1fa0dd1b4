-- ===== src/Proc.antt =====
-- kernel/proc.c: the process table with its containers.
pub mod State
pub mod Table
pub mod Container
pub mod Family
pub mod Sched
pub mod Invariant
pub mod Queues
pub mod Switch
pub mod Wakeup
pub mod Kill
pub mod Birth
pub mod Boot
pub mod Fork
pub mod Cfork
mod Tests
mod CforkTests
