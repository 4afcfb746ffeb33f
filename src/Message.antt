-- ===== src/Message.antt =====
-- The messages of pod_os_client/message and what the client writes of them: the header text and the
-- payload bytes.
pub mod Types
pub mod Defaults
pub mod Values
pub mod Header
pub mod Payload
pub mod TagFormat
pub mod BatchStatus
