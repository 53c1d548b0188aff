-- ===== src/Daemon.antt =====
-- Package internal/daemon: the state, what registers and removes its parts, and the two servers that
-- peers and contacts reach.
pub mod Slices
pub mod State
pub mod Session
pub mod Services
pub mod Requests
pub mod Contacts
pub mod InStep
pub mod Rooms
pub mod Conversations
