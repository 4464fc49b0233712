-- ===== src/Reactor.antt =====
-- include/reactor.h and the part of src/reactor.c that builds and changes the EventBase: its
-- creation, the table of descriptors, EventAdd, EventDel and __EventBaseStop.
--
-- A descriptor is a natural number; the table `fd_events` has `fd_event_array_size` cells, and a
-- cell outside it cannot be used (`fault`). A pointer to a base or a cell is never NULL here.
mod Types
pub mod Create
pub mod Events
pub mod Blocks
pub mod Balance
unfoldable pub use Types.*
