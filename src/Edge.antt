-- ===== src/Edge.antt =====
-- pkg/edge: the relay's server towards the agents.
pub mod Accept
pub mod Control
pub mod Drain
pub mod Evaluate
pub mod ForwardResume
pub mod Frames
pub mod Sessions
pub mod Pairs
pub mod Peer
pub mod Halves
pub mod Handshake
pub mod Migrated
pub mod Resume
pub mod Streams
pub mod System
mod Samples
