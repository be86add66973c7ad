-- ===== src/Protocol.antt =====
-- src/protocol: the vocabulary that the server, the stores and the command line share.
pub mod Types
pub mod Spaces
pub mod Forum
pub mod Boardroom
pub mod Attendance
pub mod Slug
pub mod Attention
pub mod Mentions
pub mod Messages
