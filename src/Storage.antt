-- ===== src/Storage.antt =====
-- src/storage: the files that the host keeps.
pub mod Rooms
pub mod Boardrooms
pub mod Forums
pub mod Lock
pub mod Joined
