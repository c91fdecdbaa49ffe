-- ===== src/Descriptors.antt =====
-- windgent/fd_manager.{h,cc}: what the hooks know of each file descriptor.
pub mod Table
pub mod Manager
pub mod Contexts
mod Examples
