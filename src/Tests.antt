-- ===== src/Tests.antt =====
-- The theorems at concrete inputs.
pub mod Client
pub mod Etcd
pub mod Conn
pub mod Codec
pub mod Server
pub mod Coro
pub mod EndToEnd
pub mod Registration
pub mod Progress
pub mod Logger
pub mod Blocking
