-- ===== src/Volume.antt =====
-- pkg/volume: identifiers, paths, create parameters, handles and the durable records of a logical
-- volume with their lifecycle.
pub mod Errors
pub mod Identifiers
pub mod Timestamps
pub mod CleanPath
pub mod Paths
pub mod Request
pub mod Handle
pub mod State
pub mod Records
pub mod OwnershipRecords
pub mod Validation
pub mod Lifecycle
pub mod Ownership
pub mod Samples
pub mod Transition
pub mod OwnershipTransition
pub mod Pairing
pub mod Context
pub mod WireContext
pub mod Replay
pub mod Recovery
mod Examples
