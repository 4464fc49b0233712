-- ===== src/Client.antt =====
-- client/http: the benchmark client, which keeps a number of connections to a server busy.
pub mod Request
pub mod Types
pub mod Events
pub mod Callbacks
pub mod Loop
pub mod Config
pub mod Places
pub mod Ready
pub mod Open
pub mod Reuse
pub mod Local
pub mod Touch
pub mod Serve
pub mod Stamp
pub mod Finish
pub mod Answer
pub mod Rounds
pub mod Ending
pub mod Batch
pub mod Latency
pub mod Main
