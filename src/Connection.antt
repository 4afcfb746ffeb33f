-- ===== src/Connection.antt =====
-- The connection layer: pod_os_client/connection, from the length prefix to the pool.
pub mod Prefix
pub mod Receive
pub mod Send
pub mod Invariant
pub mod Pool
pub mod Retry
