-- ===== src/Bus/Publisher.antt =====
-- `SharedFrameBusPublisherState`: its members, and the calls that give slots to the producer and take
-- them back.
pub mod Sweep
pub mod Write
pub mod Calls
pub mod Slots
pub mod Invariant
pub mod SweepKept
pub mod Holds
pub mod WriteKept
pub mod CommitKept
pub mod CallsKept
pub mod Claim
pub mod ClaimHolds
pub mod Registration
pub mod Initialize
pub mod NewBus
use fluxcap.Prelude.{
  ℕ, ◌+◌, ◌-◌, Bool, true, false, not, ◌&&◌, ◌||◌, ◌==◌, ltb, leb, List, [], ◌∷◌, get_or, set,
  Option, none, some, if◌then◌else◌, map, u32, u64, u32_max, u64_max,
}
use fluxcap.Gpu.{GpuError}
use fluxcap.Bus.Control.{Slot, ConsumerControl, CursorSlot, MoveSlot}

pub record SharedFrameBusConfig : Type 0 where
  pub width : ℕ
  pub height : ℕ
  pub format : ℕ
  pub color_space : ℕ
  pub slot_count : ℕ
  pub max_consumers : ℕ

pub record SharedFrameBusStats : Type 0 where
  pub publish_attempts : ℕ
  pub published_frames : ℕ
  pub copied_publishes : ℕ
  pub direct_publishes : ℕ
  pub no_slot : ℕ
  pub reused_ready_slots : ℕ
  pub consumer_registrations : ℕ
  pub consumer_reclamations : ℕ
  pub dead_consumer_reclamations : ℕ
  pub move_results_published : ℕ
  pub move_result_overwrites : ℕ
  pub quarantined_slots : ℕ
  pub active_consumers : ℕ

-- The handles and the fence are left to the system.
pub record ConsumerRecord : Type 0 where
  pub token : ℕ
  pub process_id : ℕ
  pub active : Bool
  pub poisoned : Bool

abbrev pub no_consumer : ConsumerRecord
no_consumer = record { token = 0; process_id = 0; active = false; poisoned = false }

abbrev pub invalid_slot : ℕ
invalid_slot = u32_max

-- The members, with those of the control page. The lists have the entries that are in use:
-- `slot_count` slots and `max_consumers` consumers. `quarantine_accounted` has a bit for each slot.
pub record SharedFrameBusPublisherState : Type 0 where
  pub config : SharedFrameBusConfig
  pub sequence : ℕ
  pub shutting_down : Bool
  pub slots : List Slot
  pub controls : List ConsumerControl
  pub cursor_shapes : List CursorSlot
  pub move_results : List MoveSlot
  pub consumers : List ConsumerRecord
  pub statistics : SharedFrameBusStats
  pub terminal_failure : GpuError
  pub writer_active : Bool
  pub writer_slot : ℕ
  pub writer_token : ℕ
  pub reserved_producer_token : ℕ
  pub next_producer_token : ℕ
  pub next_consumer_generation : ℕ
  pub cursor_commit_sequence : ℕ
  pub cursor_next_slot : ℕ
  pub move_result_commit_sequence : ℕ
  pub last_move_result_sequence : ℕ
  pub move_result_next_slot : ℕ
  pub quarantine_accounted : List Bool
