-- ===== src/Client.antt =====
-- HttpConnection and HttpConnectionPool (windgent/http/http_connection.{h,cc}).
pub mod Requests
pub mod RequestLaws
pub mod Pool
pub mod PoolLaws
pub mod Exchange
mod Examples
