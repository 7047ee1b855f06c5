-- ===== src/Forward.antt =====
-- pkg/forward: the UDP forwarding plane.
pub mod State
pub mod Alloc
pub mod Register
pub mod Views
pub mod Index
pub mod Invariant
pub mod Grants
pub mod Release
pub mod Expiry
pub mod Evidence
pub mod Authority
pub mod History
pub mod Delivery
pub mod Liveness
pub mod Owners
pub mod Serve
mod Samples
