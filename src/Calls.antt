-- ===== src/Calls.antt =====
-- packages/calls: the call engine, its helpers, the popup bridge and the store that the UI reads.
pub mod CallState
pub mod Signaling
pub mod IceGathering
pub mod Devices
pub mod ConnectionRoute
pub mod CallOutcome
pub mod PopupSignaling
pub mod PopupHost
pub mod Ringtone
pub mod Bridge
pub mod Engine
