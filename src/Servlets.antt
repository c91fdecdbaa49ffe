-- ===== src/Servlets.antt =====
-- windgent/http/servlet.{h,cc}: the servlets of an HTTP server, and the choice of one by its path.
pub mod Table
pub mod Keys
pub mod Dispatcher
pub mod Choice
pub mod NotFound
mod Examples
