-- ===== src/Responses.antt =====
-- pod_os_client/message/responses.py: the records of a response's payload and of its header.
pub mod Line
pub mod Fields
pub mod Tags
pub mod Grouping
pub mod Search
pub mod GetEvent
pub mod Batches
