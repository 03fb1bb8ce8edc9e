-- ===== src/Scheduler/Invariant.antt =====
-- src/sched/scheduler.rs: the invariant of the ready queue, and that the operations keep it.
pub mod Defs
pub mod Switch
pub mod Keep
pub mod Found
