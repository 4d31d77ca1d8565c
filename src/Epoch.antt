-- ===== src/Epoch.antt =====
-- src/gpu/pipeline_epoch_supervisor.hpp and .cpp: the supervisor of pipeline epochs.
pub mod Types
pub mod Nonce
pub mod Participants
pub mod Slots
pub mod Fresh
pub mod Invariant
pub mod Enrolment
pub mod History
pub mod Lifecycle
pub mod Gone
pub mod Replay
pub mod Contracts
pub mod Supervisor
mod Tests
