-- ===== src/Log.antt =====
-- The log levels and the patterns of windgent/log.{h,cc}.
pub mod Levels
pub mod Patterns
pub mod Items
pub mod Pieces
pub mod PatternLaws
mod Examples
