-- ===== src/Calls/Engine.antt =====
-- packages/calls/engine/audio-call.ts: the call engine. The children hold its state, its operations
-- and the theorems about them.
pub mod State
pub mod Media
pub mod Teardown
pub mod Peer
pub mod Setup
pub mod Switching
pub mod World
pub mod Ended
pub mod Quiet
pub mod Tracks
pub mod Camera
pub mod Failing
pub mod Offers
