-- ===== src/Scheduler.antt =====
-- src/sched/scheduler.rs, the round-robin scheduler: its state, its operations in `Run`, `Control`
-- and `Query`, and what is proved of them in the other children.
pub mod State
pub mod Run
pub mod Choice
pub mod Control
pub mod Query
pub mod Pick
pub mod Lookup
pub mod Invariant
pub mod History
pub mod Dispatch
pub mod Rotation
pub mod Effects
pub mod Preempt
pub mod Ticks
pub mod Table
