-- ===== src/Streams.antt =====
-- Stream and SocketStream (windgent/stream.{h,cc}, windgent/socket_stream.{h,cc}).
pub mod Loop
pub mod Laws
mod Examples
