-- ===== src/ByteArray.antt =====
-- windgent/bytearray.{h,cc}: a growing chain of memory blocks with a read and write position.
pub mod Chain
pub mod Store
pub mod Bytes
pub mod Walk
pub mod WriteLoop
pub mod ReadLoop
pub mod SeekLoop
pub mod Invariant
pub mod Capacity
pub mod Write
pub mod Spec
pub mod Read
pub mod Seek
pub mod Stream
pub mod Integers
pub mod Fixed
pub mod Varint
pub mod Groups
pub mod Zigzag
pub mod Strings
pub mod Values
pub mod Writes
pub mod Reads
pub mod Buffers
pub mod Lengths
pub mod RoundTrip
mod Examples
