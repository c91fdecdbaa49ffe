-- ===== src/Timers.antt =====
-- windgent/timer.{h,cc}: timers, and the set of them that is kept in the order of their times.
pub mod Manager
pub mod Order
pub mod Expiry
pub mod Invariant
pub mod Operations
pub mod Collect
mod Examples
