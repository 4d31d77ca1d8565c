-- ===== src/Bus/Tests.antt =====
-- Runs of the bus.
use fluxcap.Prelude.{
  ◌++◌, ℕ, ◌≤◌, get_or, ◌++◌, ◌≡◌, ◌<◌, refl, true, false, List, [], ◌∷◌, length, get_elem?,
  replicate, map, none, some, All, some_inj, arith,
}
use fluxcap.Gpu.{is_ok, value, success}
use fluxcap.Bus.Metadata.{
  SharedFrameBusFrameMetadata, empty_metadata, normalize_metadata, custom_color_space,
  copy_valid_fields,
}
use fluxcap.Bus.Metadata.Normal.{
  Acceptable, normalize_metadata-Acceptable, normalize_metadata-again,
}
use fluxcap.Bus.SideData.{
  SharedFrameBusFrameSideData, empty_side_data, normalize_side_data, copy_counted_rects,
}
use fluxcap.Bus.SideData.Normal.{Acceptable as SideAcceptable, normalize_side_data-Acceptable}
use fluxcap.Bus.SideData.Again.{normalize_side_data-again}
use fluxcap.Bus.Control.{Slot, ConsumerControl, is_free}
use fluxcap.Bus.Publisher.{SharedFrameBusPublisherState, SharedFrameBusConfig}
use fluxcap.Bus.Publisher.Invariant.{IsValid}
use fluxcap.Bus.Publisher.Initialize.{SetupReading, new_bus, zero_slot, initialize}
use fluxcap.Bus.Publisher.NewBus.{new_bus-IsValid, initialize-IsValid}
use fluxcap.Bus.Publisher.Write.{DeviceReading}
use fluxcap.Bus.Publisher.Calls.{SourceTexture}
use fluxcap.Bus.Consumer.{
  SharedFrameBusConsumerState, SharedPage, registration_active, no_acquisition,
}
use fluxcap.Bus.Consumer.Acquire.{AcquireRound}
use fluxcap.Bus.Consumer.Delivers.{reading_of}
use fluxcap.Bus.Consumer.Delivered.{Delivered}
use fluxcap.Bus.Consumer.Retire.{IsValid as HolderIsValid, Releases, release-Releases}
use fluxcap.Bus.Consumer.Release.{release}
use fluxcap.Bus.Consumer.{Acquisition}
use fluxcap.Bus.Publisher.Sweep.{ConsumerReading, alive}
use fluxcap.Bus.Publisher.Holds.{Holds, StillReads}
use fluxcap.Bus.Publisher.ClaimHolds.{Spares, claim_slot-Spares}
use fluxcap.Bus.Publisher.Write.{Round, claim_slot}
use fluxcap.Bus.MoveResult.{SharedFrameBusMoveResult, move_result_size}
use fluxcap.Bus.Consumer.Lookup.{Attempt, move_result}
use fluxcap.Bus.Consumer.Answers.{Answers, move_result-Answers}
use fluxcap.Prelude.{◌≢◌}
use fluxcap.Bus.CursorShape.{WgcCursorShape, validate_cursor_shape, monochrome_and_xor}
use fluxcap.Bus.CursorShape.Planes.{validate_cursor_shape-pixels}
use fluxcap.Bus.SideData.{empty_move}
use fluxcap.Geometry.Rect.{no_rect}
use fluxcap.Prelude.Int.{pos}
use fluxcap.Prelude.{◌↔◌, subst}
use fluxcap.Bus.Log.{Frame, Shows}
use fluxcap.Bus.Log.Refines.{Published, new_bus-Shows, run-Refines}
use fluxcap.Bus.History.{Call, run, publishes, reader_comes, run-keeps_IsValid, CallIsFull}

nothing_marked :
    normalize_metadata empty_metadata 8 8 custom_color_space true ≡ value empty_metadata
unfolding normalize_metadata
nothing_marked = refl

-- A bus of two slots for two consumers, before its first frame.
abbrev small : SharedFrameBusConfig
small = record {
  width = 8;
  height = 8;
  format = 87;
  color_space = custom_color_space;
  slot_count = 2;
  max_consumers = 2;
}

abbrev new_small : SharedFrameBusPublisherState
unfolding new_bus
new_small = new_bus small

-- Every call of the system succeeds.
abbrev all_well : SetupReading
all_well = record {
  device_is_null = false;
  device5 = none;
  context4 = none;
  multithread = none;
  adapter_luid = none;
  textures = (none, none) ∷ (none, none) ∷ [];
  fence_created = none;
  fence_shared = none;
  mapping_created = none;
  mapping_viewed = none;
}

initialize-IsValid_example :
    (0 < 8)
    × (0 < 8)
    × (2 ≤ 2)
    × (2 ≤ 8)
    × (0 < 2)
    × (2 ≤ 8)
    × IsValid (new_bus small)
    × (length (new_bus small).slots ≡ 2)
    × All (λ s. (is_free s.ownership ≡ true) × (s.sequence ≡ 0)) (new_bus small).slots
unfolding initialize new_bus
initialize-IsValid_example = initialize-IsValid all_well small (new_bus small) refl

abbrev still : DeviceReading
still = record { signal = 0; removed = 0 }

abbrev frame_texture : SourceTexture
frame_texture = record {
  of_this_device = true;
  width = 8;
  height = 8;
  format = 87;
  mip_levels = 1;
  array_size = 1;
  sample_count = 1;
}

-- A frame is published, a consumer takes it, and a second one is published.
abbrev first_frame : Call
first_frame =
    publishes (some frame_texture) empty_metadata empty_side_data
      (record { readings = []; seen = true ∷ true ∷ [] } ∷ []) still

abbrev calls : List Call
calls = first_frame ∷ reader_comes 0 1 ∷ first_frame ∷ []

calls-full : All CallIsFull calls
calls-full = ((refl, refl), (tt, ((refl, refl), tt)))

second_is_published : (run calls (new_bus small)).sequence ≡ 2
unfolding run new_bus is_ok
second_is_published = refl

run-keeps_IsValid_example : IsValid (run calls (new_bus small))
run-keeps_IsValid_example =
    run-keeps_IsValid calls (new_bus small) calls-full (new_bus-IsValid small)

run-Refines_example :
    (added : List Frame) × Published calls added × Shows ([] ++ added) (run calls (new_bus small))
run-Refines_example = run-Refines calls [] (new_bus small) calls-full (new_bus-Shows small)

abbrev reader : SharedFrameBusConsumerState
reader = record {
  width = 8;
  height = 8;
  format = 87;
  slot_count = 2;
  consumer_index = 0;
  consumer_token = 9;
  expected_access_tag = 9;
  protocol_version = 5;
  observed_sequence = 0;
  acquisitions = replicate 8 no_acquisition;
  acquisition_order = [];
  active_acquisitions = 0;
  close_requested = false;
  registered = true;
  closed = false;
}

abbrev open_control : ConsumerControl
open_control = record {
  token = 9;
  access_state = record { refs = 0; is_open = true; tag = 9 };
  process_id = 4;
}

abbrev shown : SharedFrameBusPublisherState
shown = run (first_frame ∷ []) (new_bus small)

abbrev page : SharedPage
page = record { control = open_control; slots = shown.slots }

abbrev undisturbed : AcquireRound
undisturbed = record {
  publisher_gone = none;
  shutting_down = false;
  seen = map reading_of page.slots;
  device = still;
}

abbrev shown_slot : Slot
shown_slot = get_or page.slots 0 (zero_slot 2)

abbrev eight : SharedFrameBusFrameMetadata
eight = record empty_metadata {
  valid_fields = 12;
  source_width = 64;
  source_height = 48;
  roi_x = 10;
  roi_width = 54;
  roi_height = 48;
}

normalize_metadata-Acceptable_example :
    (normalize_metadata eight 8 8 custom_color_space true ≡ value eight)
    ↔ (Acceptable eight 8 8 custom_color_space true × (eight ≡ copy_valid_fields eight))
normalize_metadata-Acceptable_example =
    normalize_metadata-Acceptable eight eight 8 8 custom_color_space true

normalize_metadata-again_example :
    (normalize_metadata eight 8 8 custom_color_space true ≡ value eight)
    × (normalize_metadata eight 8 8 custom_color_space true ≡ value eight)
unfolding normalize_metadata
normalize_metadata-again_example =
    normalize_metadata-again eight eight 8 8 custom_color_space true refl

-- One rectangle is dirty, and one has moved two columns to the right, as the system has told.
abbrev moved : SharedFrameBusFrameSideData
moved = record empty_side_data {
  damage = record empty_side_data.damage {
    base_sequence = 4;
    dirty_count = 1;
    move_count = 1;
    flags = 259;
    dirty_rects = record { x = pos 0; y = pos 0; width = 2; height = 8 } ∷ replicate 63 no_rect;
    move_rects =
        record {
          source_x = pos 0;
          source_y = pos 0;
          destination = record { x = pos 2; y = pos 0; width = 6; height = 8 };
        }
        ∷ replicate 15 empty_move;
  };
}

normalize_side_data-Acceptable_example :
    (normalize_side_data moved 8 8 5 5 ≡ value moved)
    ↔ (SideAcceptable moved 8 8 true 5 × (moved ≡ copy_counted_rects moved))
normalize_side_data-Acceptable_example = normalize_side_data-Acceptable moved moved 8 8 5 5

normalize_side_data-again_example : normalize_side_data moved 8 8 5 5 ≡ value moved
unfolding normalize_side_data
normalize_side_data-again_example = normalize_side_data-again moved moved 8 8 5 5 (refl, refl) refl

abbrev inferred : SharedFrameBusMoveResult
inferred = record {
  structure_size = move_result_size;
  result_version = 1;
  epoch = 1;
  epoch_nonce = 7;
  sequence = 5;
  base_sequence = 4;
  move_count = 1;
  flags = 3;
  reserved = (0, 0);
  move_rects = moved.damage.move_rects;
}

abbrev cached : List (List (Attempt SharedFrameBusMoveResult))
cached =
    []
    ∷ (record { before = 4; copied = inferred; reserved_is_zero = true; after = 5 }
        ∷ record { before = 6; copied = inferred; reserved_is_zero = true; after = 6 }
        ∷ [])
    ∷ []

move_result-Answers_example :
    (registration_active reader open_control ≡ true)
    × (inferred.epoch ≢ 0)
    × (inferred.epoch_nonce ≢ 0)
    × (inferred.sequence ≢ 0)
    × ((i j : ℕ) × (attempts : List (Attempt SharedFrameBusMoveResult)) × (a : Attempt
          SharedFrameBusMoveResult)
        × (get_elem? cached i ≡ some attempts)
        × (get_elem? attempts j ≡ some a)
        × Answers 1 7 5 8 8 a inferred)
unfolding move_result registration_active
move_result-Answers_example =
    move_result-Answers 1 7 5 cached reader open_control inferred (tt, ((refl, (refl, tt)), tt))
      refl

abbrev pointer : WgcCursorShape
pointer = record {
  sequence = 1;
  kind = monochrome_and_xor;
  width = 9;
  height = 2;
  hotspot_x = 1;
  hotspot_y = 1;
  stride_bytes = 4;
  bytes = replicate 16 255;
}

validate_cursor_shape-pixels_example : (13 < 16) × (1 < 9) × (1 < 2)
unfolding validate_cursor_shape
validate_cursor_shape-pixels_example =
    validate_cursor_shape-pixels pointer 8 1 refl (omega arith) (omega arith)

-- Two frames are held, the second one's slot below the first one's.
abbrev held_frame : ℕ → Acquisition
held_frame q = record no_acquisition { sequence = q; active = true }

abbrev holder : SharedFrameBusConsumerState
holder = record reader {
  observed_sequence = 4;
  acquisitions = held_frame 4 ∷ held_frame 3 ∷ replicate 6 no_acquisition;
  acquisition_order = record { slot = 1; sequence = 3 } ∷ record { slot = 0; sequence = 4 } ∷ [];
  active_acquisitions = 2;
}

holder-IsValid : HolderIsValid holder
holder-IsValid = record {
  order = record {
    increasing = (omega arith, (omega arith, tt));
    recorded = (
      record { acquisition = held_frame 3; at = refl; active = refl; same = refl },
      (record { acquisition = held_frame 4; at = refl; active = refl; same = refl }, tt),
    );
    apart = (((λ e. absurd (omega (arith, e))), tt), (tt, tt));
    slots = (omega arith, (omega arith, tt));
  };
  observed = (omega arith, (omega arith, tt));
  counted = refl;
}

release-Releases_example :
    let ((t, page'), e, signalled) = release still 1 3 holder page in
    (e ≡ success) × (page' ≡ page) × Releases holder t 1 signalled
release-Releases_example =
    release-Releases still 1 3 holder page refl refl holder-IsValid
      (held_frame 3, refl, omega arith, refl, refl, refl)

abbrev one_round : List Round
one_round = record { readings = []; seen = true ∷ true ∷ [] } ∷ []

-- The second consumer has the first frame.
abbrev taken_once : SharedFrameBusPublisherState
taken_once = run (first_frame ∷ reader_comes 0 1 ∷ []) (new_bus small)

abbrev living : ConsumerReading
living = record { process_wait = alive; completed = 0; removed = 0 }

abbrev two_alive : List Round
two_alive = record { readings = living ∷ living ∷ []; seen = true ∷ true ∷ [] } ∷ []

is_held : Holds 1 0 1 taken_once
unfolding run new_bus is_ok
is_held = record {
  slot = get_or taken_once.slots 0 (zero_slot 2);
  there = refl;
  has = record { bit = refl; same = refl };
}

living-StillReads : StillReads 1 living
living-StillReads = ((λ e. cc e), omega arith)

claim_slot-Spares_example : Spares 1 0 1 (claim_slot two_alive taken_once)
claim_slot-Spares_example =
    claim_slot-Spares 1 0 1 two_alive taken_once (omega arith)
      ((λ o at. subst (λ x. StillReads 1 x) (some_inj at) living-StillReads), tt) is_held
