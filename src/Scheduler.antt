-- ===== src/Scheduler.antt =====
-- windgent/scheduler.{h,cc}: the queue of tasks that the threads of a scheduler share.
pub mod Queue
pub mod Take
mod Examples
