-- ===== src/Proc.antt =====
-- kernel/proc.c: the process table, its scheduler and the counters of the experiments.
pub mod State
pub mod Table
pub mod Lifecycle
pub mod Pids
pub mod Rousing
pub mod Orphans
pub mod Ending
pub mod Fork
pub mod Scheduler
pub mod Metrics
