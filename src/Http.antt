-- ===== src/Http.antt =====
-- windgent/http/http.{h,cc}: requests and responses.
pub mod Methods
pub mod Statuses
pub mod Headers
pub mod HeaderLaws
pub mod Messages
pub mod Dump
pub mod Frames
pub mod Fields
pub mod RoundTrip
mod Examples
