-- ===== src/Broker/Laws.antt =====
-- What the broker guarantees: of the network, of its sessions, of streams and of files.
pub mod Allowed
pub mod Traffic
pub mod Contained
pub mod Actions
pub mod Changes
pub mod Sessions
pub mod Limits
pub mod Streams
pub mod Quiet
pub mod Files
pub mod Pages
pub mod Sources
pub mod Search
