-- ===== src/IoManager.antt =====
-- windgent/iomanager.{h,cc}: the events that fibers wait for, and what is scheduled when they come.
pub mod Contexts
pub mod Operations
pub mod Invariant
pub mod Fire
pub mod Registered
pub mod Sequence
pub mod Delivery
pub mod Cancel
pub mod Resize
pub mod Add
pub mod Idle
mod Examples
