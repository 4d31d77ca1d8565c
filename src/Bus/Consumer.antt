-- ===== src/Bus/Consumer.antt =====
-- `SharedFrameBusConsumerState`: its members, its access to the control page, and the end of it.
pub mod Acquire
pub mod Release
pub mod Order
pub mod Retire
pub mod Delivers
pub mod Delivered
pub mod Lookup
pub mod Answers
use fluxcap.Prelude.{
  ℕ, ◌+◌, ◌-◌, ◌^◌, Bool, true, false, not, ◌&&◌, ◌||◌, ◌==◌, List, [], ◌∷◌, length, get_or,
  replicate, map, if◌then◌else◌, Option, none, some,
}
use fluxcap.Gpu.{GpuError, success, misused}
use fluxcap.Bus.Metadata.{SharedFrameBusFrameMetadata, empty_metadata}
use fluxcap.Bus.SideData.{SharedFrameBusFrameSideData, empty_side_data}
use fluxcap.Bus.Control.{
  Slot, ConsumerControl, AccessState, reads, quarantine_reader, close_consumer_access,
}

pub record Acquisition : Type 0 where
  pub sequence : ℕ
  pub metadata : SharedFrameBusFrameMetadata
  pub side_data : SharedFrameBusFrameSideData
  pub active : Bool
  pub released : Bool

pub record AcquisitionOrder : Type 0 where
  pub slot : ℕ
  pub sequence : ℕ

-- `acquisition_order` holds its counted entries, so its length is `acquisition_order_count`, and
-- `acquisitions` has an entry for each of the eight slots that there may be.
pub record SharedFrameBusConsumerState : Type 0 where
  pub width : ℕ
  pub height : ℕ
  pub format : ℕ
  pub slot_count : ℕ
  pub consumer_index : ℕ
  pub consumer_token : ℕ
  pub expected_access_tag : ℕ
  pub protocol_version : ℕ
  pub observed_sequence : ℕ
  pub acquisitions : List Acquisition
  pub acquisition_order : List AcquisitionOrder
  pub active_acquisitions : ℕ
  pub close_requested : Bool
  pub registered : Bool
  pub closed : Bool

-- What the consumer shares with the publisher: its own entry and the slots.
pub record SharedPage : Type 0 where
  pub control : ConsumerControl
  pub slots : List Slot

unfoldable pub registration_active : SharedFrameBusConsumerState → ConsumerControl → Bool
registration_active s c =
    s.registered
    && not s.closed
    && c.access_state.is_open
    && c.access_state.tag == s.expected_access_tag
    && c.token == s.consumer_token

-- `none` is `false`, with the word as it was.
unfoldable pub enter_consumer_access :
    SharedFrameBusConsumerState → ConsumerControl → Option ConsumerControl
enter_consumer_access s c =
    let state = c.access_state in
    if not (c.token == s.consumer_token)
      || not (state.tag == s.expected_access_tag)
      || not state.is_open
      || state.refs == 2 ^ 16 - 1
    then none
    else some (record c { access_state = record state { refs = state.refs + 1 } })

unfoldable pub leave_consumer_access : ConsumerControl → ConsumerControl
leave_consumer_access c = record c {
  access_state = record c.access_state { refs = c.access_state.refs - 1 };
}

unfoldable pub deactivate :
    SharedFrameBusConsumerState → SharedPage → SharedFrameBusConsumerState × SharedPage
unfolding close_consumer_access
deactivate s page = (
  record s { closed = true },
  if s.registered && page.control.token == s.consumer_token
      then record page { control = close_consumer_access page.control s.expected_access_tag }
      else page,
)

-- `Acquisition{}`.
abbrev pub no_acquisition : Acquisition
no_acquisition = record {
  sequence = 0;
  metadata = empty_metadata;
  side_data = empty_side_data;
  active = false;
  released = false;
}

unfoldable pub clear_acquisitions : SharedFrameBusConsumerState → SharedFrameBusConsumerState
clear_acquisitions s = record s {
  acquisitions = map (λ _. no_acquisition) s.acquisitions;
  acquisition_order = [];
  active_acquisitions = 0;
}

-- The slots that this consumer holds, and no other, are quarantined.
unfoldable pub quarantine_held : ℕ → Slot → Slot
quarantine_held index s =
    if reads s.ownership index
    then record s { ownership = quarantine_reader s.ownership index }
    else s

unfoldable pub quarantine_all_readers :
    SharedFrameBusConsumerState → SharedPage → SharedFrameBusConsumerState × SharedPage
unfolding clear_acquisitions quarantine_held
quarantine_all_readers s page = (
  clear_acquisitions s,
  record page { slots = map (quarantine_held s.consumer_index) page.slots },
)

unfoldable pub close_explicit :
    SharedFrameBusConsumerState → SharedPage → (SharedFrameBusConsumerState × SharedPage) × GpuError
unfolding deactivate
close_explicit s page =
    if s.closed
    then ((record s { close_requested = true }, page), success)
    else if not (s.active_acquisitions == 0)
    then ((record s { close_requested = false }, page), misused)
    else (deactivate (record s { close_requested = true }) page, success)
