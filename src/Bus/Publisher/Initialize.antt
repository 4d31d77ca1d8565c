-- ===== src/Bus/Publisher/Initialize.antt =====
-- `SharedFrameBusPublisherState::initialize`: the configurations that are accepted, and the bus that is
-- set up for them.
use fluxcap.Prelude.{ℕ, ◌||◌, ◌==◌, false, Bool, ltb, List, [], ◌∷◌, replicate, Option, none, some}
use fluxcap.Gpu.{
  GpuError, Result, value, error, ◌>>◌, refuse, invalid, success, make_error, system_error,
  unsupported,
}
use fluxcap.Bus.Metadata.{SharedFrameBusFrameMetadata, empty_metadata, reserved_color_space}
use fluxcap.Bus.SideData.{SharedFrameBusFrameSideData, empty_side_data}
use fluxcap.Bus.CursorShape.{no_kind}
use fluxcap.Bus.Control.{Slot, CursorSlot, MoveSlot}
use fluxcap.Bus.Publisher.{
  SharedFrameBusPublisherState, SharedFrameBusConfig, SharedFrameBusStats, no_consumer,
  invalid_slot,
}
use fluxcap.Bus.Publisher.Sweep.{no_control}
use fluxcap.Bus.Publisher.Calls.{move_result_slots}

-- What the device and the system answer to each call: `none`, or the result that has failed. The two
-- calls for each texture are those of a slot.
pub record SetupReading : Type 0 where
  pub device_is_null : Bool
  pub device5 : Option ℕ
  pub context4 : Option ℕ
  pub multithread : Option ℕ
  pub adapter_luid : Option ℕ
  pub textures : List (Option ℕ × Option ℕ)
  pub fence_created : Option ℕ
  pub fence_shared : Option ℕ
  pub mapping_created : Option ℕ
  pub mapping_viewed : Option ℕ

unfoldable pub bad_config : Bool → SharedFrameBusConfig → Bool
bad_config device_is_null c =
    device_is_null
    || c.width == 0
    || c.height == 0
    || c.format == 0
    || c.color_space == reserved_color_space
    || ltb c.slot_count 2
    || ltb 8 c.slot_count
    || c.max_consumers == 0
    || ltb 8 c.max_consumers

-- The early return when a call of the system has failed.
abbrev pub must : Option ℕ → (ℕ → GpuError) → Result (Unit {0})
must none e = value tt
must (some hr) e = error (e hr)

unfoldable pub create_textures : List (Option ℕ × Option ℕ) → Result (Unit {0})
create_textures [] = value tt
create_textures ((created, shared) ∷ rest) =
    must created (make_error unsupported)
    >> (must shared (make_error system_error) >> create_textures rest)

-- The page that `memset` leaves: all words and all members are zero.
abbrev pub zero_metadata : SharedFrameBusFrameMetadata
zero_metadata = record empty_metadata { structure_size = 0; metadata_version = 0; color_space = 0 }

abbrev pub zero_side_data : SharedFrameBusFrameSideData
zero_side_data = record empty_side_data { structure_size = 0; side_data_version = 0 }

abbrev pub zero_slot : ℕ → Slot
zero_slot consumers = record {
  sequence = 0;
  ownership = record { writer = false; quarantined = false; readers = replicate consumers false };
  metadata_sequence = 0;
  metadata = zero_metadata;
  side_data_sequence = 0;
  side_data = zero_side_data;
}

abbrev pub zero_shape : CursorSlot
zero_shape = record {
  commit_sequence = 0;
  shape = record {
    sequence = 0;
    kind = no_kind;
    width = 0;
    height = 0;
    hotspot_x = 0;
    hotspot_y = 0;
    stride_bytes = 0;
    bytes = [];
  };
}

abbrev pub zero_move_result : MoveSlot
zero_move_result = record {
  commit_sequence = 0;
  payload = record {
    structure_size = 0;
    result_version = 0;
    epoch = 0;
    epoch_nonce = 0;
    sequence = 0;
    base_sequence = 0;
    move_count = 0;
    flags = 0;
    reserved = (0, 0);
    move_rects = empty_side_data.damage.move_rects;
  };
}

abbrev pub no_stats : SharedFrameBusStats
no_stats = record {
  publish_attempts = 0;
  published_frames = 0;
  copied_publishes = 0;
  direct_publishes = 0;
  no_slot = 0;
  reused_ready_slots = 0;
  consumer_registrations = 0;
  consumer_reclamations = 0;
  dead_consumer_reclamations = 0;
  move_results_published = 0;
  move_result_overwrites = 0;
  quarantined_slots = 0;
  active_consumers = 0;
}

-- The members' initializers, and the page.
unfoldable pub new_bus : SharedFrameBusConfig → SharedFrameBusPublisherState
new_bus c = record {
  config = c;
  sequence = 0;
  shutting_down = false;
  slots = replicate c.slot_count (zero_slot c.max_consumers);
  controls = replicate c.max_consumers no_control;
  cursor_shapes = replicate 2 zero_shape;
  move_results = replicate move_result_slots zero_move_result;
  consumers = replicate c.max_consumers no_consumer;
  statistics = no_stats;
  terminal_failure = success;
  writer_active = false;
  writer_slot = invalid_slot;
  writer_token = 0;
  reserved_producer_token = 0;
  next_producer_token = 0;
  next_consumer_generation = 1;
  cursor_commit_sequence = 0;
  cursor_next_slot = 0;
  move_result_commit_sequence = 0;
  last_move_result_sequence = 0;
  move_result_next_slot = 0;
  quarantine_accounted = replicate c.slot_count false;
}

unfoldable pub initialize :
    SetupReading → SharedFrameBusConfig → Result SharedFrameBusPublisherState
unfolding bad_config create_textures new_bus
initialize o c = do
  refuse (bad_config o.device_is_null c) invalid
  must o.device5 (make_error unsupported)
  must o.context4 (make_error unsupported)
  must o.multithread (make_error unsupported)
  must o.adapter_luid (make_error system_error)
  create_textures o.textures
  must o.fence_created (make_error unsupported)
  must o.fence_shared (make_error system_error)
  must o.mapping_created (make_error system_error)
  must o.mapping_viewed (make_error system_error)
  value (new_bus c)
