-- ===== src/Tests.antt =====
-- The theorems at concrete inputs: an operating system with one stream, heaps of a few timers, a
-- packet, and a server with one connection.
pub mod World
pub mod Heap
pub mod Queue
pub mod Timers
pub mod Io
pub mod Packet
pub mod Server
pub mod Echo
pub mod Stream
pub mod Client
pub mod Processes
pub mod Daemon
