-- ===== src/Bus/Consumer/Acquire.antt =====
-- `acquire_latest`: the newest frame that may be read.
use fluxcap.Prelude.{
  ℕ, suc, ◌+◌, Bool, true, false, not, ◌&&◌, ◌||◌, ◌==◌, ltb, leb, List, [], ◌∷◌, ◌++◌, length,
  get_elem?, set, if◌then◌else◌, Option, none, some,
}
use fluxcap.Gpu.{
  GpuError, Result, value, error, ◌>>=◌, ◌>>◌, refuse, make_error, misused, e_abort, system_error,
  timeout_error,
}
use fluxcap.Bus.Metadata.{
  SharedFrameBusFrameMetadata, normalize_metadata, empty_metadata, custom_color_space,
}
use fluxcap.Bus.SideData.{SharedFrameBusFrameSideData, normalize_side_data, empty_side_data}
use fluxcap.Bus.Control.{
  Slot, Ownership, ConsumerControl, reads, clear_reader, quarantine_reader, slot_unavailable,
}
use fluxcap.Bus.Publisher.Sweep.{has_failed}
use fluxcap.Bus.Publisher.Write.{DeviceReading, all_quarantined, end_of_round}
use fluxcap.Bus.Consumer.{
  Acquisition, SharedFrameBusConsumerState, SharedPage, registration_active, enter_consumer_access,
  leave_consumer_access, deactivate,
}
use fluxcap.Bus.Consumer.Release.{fence_error}

-- What the scan read of a slot.
pub record SlotReading : Type 0 where
  pub available : Bool
  pub sequence : ℕ

-- What a round meets: the publisher's process (`none` while it runs, or the code of the error), the
-- end of the bus, the scan, and the answers of the device to the wait.
pub record AcquireRound : Type 0 where
  pub publisher_gone : Option ℕ
  pub shutting_down : Bool
  pub seen : List SlotReading
  pub device : DeviceReading

unfoldable pub newest_available : ℕ → List SlotReading → ℕ → Option ℕ → Option ℕ × ℕ
newest_available slot [] newest candidate = (candidate, newest)
newest_available slot (r ∷ rs) newest candidate =
    let better = r.available && ltb newest r.sequence in
    newest_available (suc slot) rs (if better then r.sequence else newest)
      (if better then some slot else candidate)

-- `SharedFrameBusFrameLease`, without the texture and the pointer to the consumer.
pub record SharedFrameBusFrameLease : Type 0 where
  pub slot_index : ℕ
  pub width : ℕ
  pub height : ℕ
  pub format : ℕ
  pub sequence : ℕ

abbrev pub corrupt : GpuError
corrupt = make_error system_error e_abort

-- The metadata and the side data of a slot whose word has the reader's bit.
unfoldable pub read_frame :
    ℕ → ℕ → ℕ → Slot → Result (SharedFrameBusFrameMetadata × SharedFrameBusFrameSideData)
unfolding normalize_metadata normalize_side_data
read_frame protocol_version width height slot = do
  m ←
      if leb 2 protocol_version
      then (do
        refuse (not (slot.metadata_sequence == slot.sequence)) corrupt
        normalize_metadata slot.metadata width height custom_color_space (leb 5 protocol_version))
      else value empty_metadata
  d ←
      if leb 3 protocol_version
      then (do
        refuse (not (slot.side_data_sequence == slot.sequence)) corrupt
        normalize_side_data slot.side_data width height protocol_version slot.sequence)
      else value empty_side_data
  value (m, d)

unfoldable pub read_payload :
    SharedFrameBusConsumerState
    → Slot
    → Result (SharedFrameBusFrameMetadata × SharedFrameBusFrameSideData)
unfolding read_frame
read_payload s slot = read_frame s.protocol_version s.width s.height slot

abbrev pub AcquireOutcome : Type 0
AcquireOutcome = (SharedFrameBusConsumerState × SharedPage) × Result SharedFrameBusFrameLease

abbrev pub put_ownership : ℕ → Ownership → Slot → SharedPage → SharedPage
put_ownership at o slot page = record page {
  slots = set page.slots at (record slot { ownership = o });
}

abbrev pub leave : SharedPage → SharedPage
leave page = record page { control = leave_consumer_access page.control }

-- The bit is given back, the access is left, and the consumer closes.
abbrev pub give_back_and_close :
    ℕ → Ownership → Slot → GpuError → SharedFrameBusConsumerState → SharedPage → AcquireOutcome
give_back_and_close at o slot e s page =
    (deactivate s (leave (put_ownership at o slot page)), error e)

unfoldable pub keep_acquisition :
    ℕ
    → Slot
    → SharedFrameBusFrameMetadata
    → SharedFrameBusFrameSideData
    → SharedFrameBusConsumerState
    → SharedPage
    → AcquireOutcome
unfolding leave_consumer_access
keep_acquisition at slot m d s page =
    let held = record slot.ownership {
      readers = set slot.ownership.readers s.consumer_index true;
    } in
    (
      (
        record s {
          acquisitions = set s.acquisitions at (record {
            sequence = slot.sequence;
            metadata = m;
            side_data = d;
            active = true;
            released = false;
          });
          acquisition_order =
              s.acquisition_order ++ (record { slot = at; sequence = slot.sequence } ∷ []);
          active_acquisitions = s.active_acquisitions + 1;
          observed_sequence = slot.sequence;
        },
        leave (put_ownership at held slot page),
      ),
      value (record {
        slot_index = at;
        width = s.width;
        height = s.height;
        format = s.format;
        sequence = slot.sequence;
      }),
    )

abbrev pub has_acquisition : List Acquisition → ℕ → Bool
has_acquisition held at = elim (get_elem? held at) [ none ↦ true | some a ↦ a.active ]

-- The bit is set, the number of the slot is the one that the scan has chosen, and its payload has been
-- read. The wait for the ready fence is what the device answers to.
unfoldable pub acquire_read :
    ℕ
    → Slot
    → DeviceReading
    → Result (SharedFrameBusFrameMetadata × SharedFrameBusFrameSideData)
    → SharedFrameBusConsumerState
    → SharedPage
    → AcquireOutcome
unfolding deactivate leave_consumer_access keep_acquisition
acquire_read at slot d (error _) s page =
    give_back_and_close at (quarantine_reader slot.ownership s.consumer_index) slot corrupt s page
acquire_read at slot d (value (m, side)) s page =
    if has_failed d.signal
    then give_back_and_close at (clear_reader slot.ownership s.consumer_index) slot (fence_error d)
        s page
    else if has_acquisition s.acquisitions at || leb 8 (length s.acquisition_order)
    then give_back_and_close at (quarantine_reader slot.ownership s.consumer_index) slot corrupt s
        page
    else keep_acquisition at slot m side s page

-- The candidate's word is compared and exchanged until the bit is set or the slot is not available:
-- `slot` is what it holds at that time. `none` goes on with the next round.
unfoldable pub try_acquire :
    ℕ → ℕ → Slot → DeviceReading → SharedFrameBusConsumerState → SharedPage → Option AcquireOutcome
unfolding slot_unavailable registration_active read_payload acquire_read
try_acquire at newest slot d s page =
    if slot_unavailable slot.ownership || reads slot.ownership s.consumer_index
    then none
    else if not (slot.sequence == newest) || leb slot.sequence s.observed_sequence
    then none
    else if not (registration_active s page.control)
    then some ((s, leave page), error misused)
    else some (acquire_read at slot d (read_payload s slot) s page)

unfoldable pub acquire_at :
    ℕ
    → ℕ
    → Option Slot
    → DeviceReading
    → SharedFrameBusConsumerState
    → SharedPage
    → Option AcquireOutcome
unfolding try_acquire
acquire_at at newest none d s page = none
acquire_at at newest (some slot) d s page = try_acquire at newest slot d s page

unfoldable pub acquire_candidate :
    Option ℕ × ℕ → DeviceReading → SharedFrameBusConsumerState → SharedPage → Option AcquireOutcome
unfolding acquire_at
acquire_candidate (none, newest) d s page = none
acquire_candidate (some at, newest) d s page =
    acquire_at at newest (get_elem? page.slots at) d s page

unfoldable pub end_of_scan :
    Option AcquireOutcome → SharedFrameBusConsumerState → SharedPage → Option AcquireOutcome
unfolding leave_consumer_access all_quarantined
end_of_scan (some out) s page = some out
end_of_scan none s page =
    if all_quarantined page.slots then some ((s, leave page), error corrupt) else none

-- The round while the publisher's process runs.
unfoldable pub acquire_running :
    AcquireRound → SharedFrameBusConsumerState → SharedPage → Option AcquireOutcome
unfolding newest_available acquire_candidate end_of_scan
acquire_running r s page =
    let acquired =
      acquire_candidate (newest_available 0 r.seen s.observed_sequence none) r.device s page in
    if r.shutting_down then some ((s, leave page), error misused) else end_of_scan acquired s page

unfoldable pub acquire_watched :
    Option ℕ → AcquireRound → SharedFrameBusConsumerState → SharedPage → Option AcquireOutcome
unfolding acquire_running
acquire_watched (some code) r s page = some ((s, leave page), error (make_error system_error code))
acquire_watched none r s page = acquire_running r s page

-- The round once the access has been entered.
unfoldable pub acquire_entered :
    Option ConsumerControl
    → AcquireRound
    → SharedFrameBusConsumerState
    → SharedPage
    → Option AcquireOutcome
unfolding acquire_watched
acquire_entered none r s page = some ((s, page), error misused)
acquire_entered (some c) r s page =
    let entered = record page { control = c } in
    if s.close_requested
    then some ((s, leave entered), error misused)
    else acquire_watched r.publisher_gone r s entered

unfoldable pub acquire_round :
    AcquireRound → SharedFrameBusConsumerState → SharedPage → Option AcquireOutcome
unfolding enter_consumer_access acquire_entered
acquire_round r s page = acquire_entered (enter_consumer_access s page.control) r s page

-- The rounds until the time is up, each with the page that it meets: others change it while the
-- consumer waits.
unfoldable pub acquire_rounds :
    List (AcquireRound × SharedPage) → SharedFrameBusConsumerState → SharedPage → AcquireOutcome
unfolding acquire_round
acquire_rounds [] s page = ((s, page), error timeout_error)
acquire_rounds ((r, met) ∷ rs) s page =
    let rest = acquire_rounds rs s met in end_of_round (acquire_round r s met) rest

unfoldable pub acquire_latest :
    Bool
    → List (AcquireRound × SharedPage)
    → SharedFrameBusConsumerState
    → SharedPage
    → AcquireOutcome
unfolding registration_active acquire_rounds
acquire_latest lease_is_empty rounds s page =
    if not lease_is_empty
    then ((s, page), error misused)
    else if not (registration_active s page.control)
    then ((s, page), error misused)
    else acquire_rounds rounds s page
