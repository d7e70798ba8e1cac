-- ===== src/Examples.antt =====
-- Concrete values and runs of the code of xdrpp.
pub mod Data
pub mod Codec
pub mod Sockets
pub mod Calls
pub mod Rpc
pub mod Events
pub mod Timeouts
pub mod Streams
pub mod Texts
pub mod Async
pub mod Comparing
pub mod Ini
pub mod Objects
pub mod Threads
