-- ===== src/Server.antt =====
-- src/socket_util.c and the packet handlers of src/bin_proto.c: a process of the server, which is an
-- EventBase and its connections.
--
-- A connection is a pointer into `conns`; a pointer to a connection that was freed, or to none, is
-- `none` there, and its use is a `fault`.
pub mod Defs
pub mod Packets
pub mod Io
pub mod Close
pub mod Frame
pub mod Sign
pub mod SignPackets
pub mod SignIo
pub mod Sending
pub mod Wakes
pub mod Watch
pub mod Echo
pub mod Collect
pub mod Header
pub mod Arrive
pub mod Stream
unfoldable pub use Defs.*
