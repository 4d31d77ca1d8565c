-- ===== src/Epoch/Types.antt =====
-- The data of src/gpu/pipeline_epoch_supervisor.hpp.
use fluxcap.Prelude.{ℕ, Bool, false, true, List}

pub data PipelineEpochState : Type 0 where
  running quiescing retired building ready : PipelineEpochState

pub data PipelineEpochStatus : Type 0 where
  ok invalid_argument invalid_state stale_epoch stale_registration duplicate_participant :
      PipelineEpochStatus
  participant_capacity_exceeded registration_space_exhausted : PipelineEpochStatus
  pending_acknowledgements epoch_exhausted : PipelineEpochStatus

pub record PipelineEpochResult : Type 0 where
  pub status : PipelineEpochStatus
  pub changed : Bool

pub record PipelineEpochTicket : Type 0 where
  pub epoch : ℕ
  pub nonce : ℕ

pub record PipelineEpochRegistration : Type 0 where
  pub ticket : PipelineEpochTicket
  pub participant_id : ℕ
  pub registration_nonce : ℕ

pub record PipelineEpochFrameContract : Type 0 where
  pub ticket : PipelineEpochTicket
  pub discontinuity : Bool
  pub force_keyframe : Bool

pub record PipelineEpochSnapshot : Type 0 where
  pub state : PipelineEpochState
  pub ticket : PipelineEpochTicket
  pub registered_participants : ℕ
  pub pending_quiesce_acknowledgements : ℕ
  pub pending_ready_acknowledgements : ℕ
  pub recovery_attempts : ℕ
  pub recovery_successes : ℕ
  pub stale_acknowledgements : ℕ
  pub last_device_lost_reason : ℕ
  pub first_frame_pending : Bool

pub record Participant : Type 0 where
  pub participant_id : ℕ
  pub registration_nonce : ℕ
  pub active : Bool
  pub quiesced : Bool
  pub ready : Bool

-- `Participant{}`.
abbrev pub vacant : Participant
vacant = record {
  participant_id = 0;
  registration_nonce = 0;
  active = false;
  quiesced = false;
  ready = false;
}

abbrev pub max_participants : ℕ
max_participants = 64

-- The members, the mutex left out: every member function holds it from its first read to its
-- last write, so that a history is a sequence of whole calls. `last_device_lost_reason` is the
-- bit pattern of an `int32_t`, which is only stored.
pub record PipelineEpochSupervisor : Type 0 where
  pub state : PipelineEpochState
  pub ticket : PipelineEpochTicket
  pub participants : List Participant
  pub recovery_attempts : ℕ
  pub recovery_successes : ℕ
  pub stale_acknowledgements : ℕ
  pub next_registration_nonce : ℕ
  pub last_device_lost_reason : ℕ
  pub first_frame_pending : Bool

abbrev pub is_running : PipelineEpochState → Bool
is_running running = true
is_running _ = false

abbrev pub is_quiescing : PipelineEpochState → Bool
is_quiescing quiescing = true
is_quiescing _ = false

abbrev pub is_retired : PipelineEpochState → Bool
is_retired retired = true
is_retired _ = false

abbrev pub is_building : PipelineEpochState → Bool
is_building building = true
is_building _ = false

abbrev pub is_ready : PipelineEpochState → Bool
is_ready ready = true
is_ready _ = false
