-- ===== src/Bus/Consumer/Release.antt =====
-- `release`: a frame goes back, and the done fence rises to the last frame before which all are back.
use fluxcap.Prelude.{
  ℕ, ◌+◌, ◌-◌, true, not, ◌||◌, ◌==◌, leb, List, [], ◌∷◌, get_elem?, set, if◌then◌else◌, Option,
  none, some,
}
use fluxcap.Gpu.{GpuError, success, make_error, misused, e_abort, system_error, device_lost}
use fluxcap.Bus.Publisher.Sweep.{has_failed}
use fluxcap.Bus.Publisher.Write.{DeviceReading}
use fluxcap.Bus.Consumer.{
  Acquisition, AcquisitionOrder, SharedFrameBusConsumerState, SharedPage, deactivate,
  no_acquisition, quarantine_all_readers,
}

-- The loop over the order: what is left of it, the acquisitions that are left, and the number of the
-- last frame that is retired. `none` is the error of a corrupt record.
pub record Retired : Type 0 where
  pub acquisitions : List Acquisition
  pub order : List AcquisitionOrder
  pub count : ℕ
  pub sequence : ℕ

-- An entry with the record of its slot: the loop fails, stops at it, or goes on behind it.
unfoldable pub retire_entry :
    ℕ
    → AcquisitionOrder
    → Option Acquisition
    → Option Retired
    → (Acquisition → Option Retired)
    → Option Retired
retire_entry slot_count entry none stop go = none
retire_entry slot_count entry (some a) stop go =
    let rest = go a in
    if leb slot_count entry.slot || not a.active || not (a.sequence == entry.sequence)
    then none
    else if not a.released
    then stop
    else rest

unfoldable pub retire_order : ℕ → List AcquisitionOrder → List Acquisition → ℕ → ℕ → Option Retired
unfolding retire_entry
retire_order slot_count [] acquisitions count sequence =
    some (record { acquisitions = acquisitions; order = []; count = count; sequence = sequence })
retire_order slot_count (entry ∷ order) acquisitions count sequence =
    retire_entry slot_count entry (get_elem? acquisitions entry.slot)
      (some (record {
        acquisitions = acquisitions;
        order = entry ∷ order;
        count = count;
        sequence = sequence;
      }))
      (λ a.
        retire_order slot_count order (set acquisitions entry.slot no_acquisition) (count + 1)
          a.sequence)

-- The fence is left as it was, or is told a number.
abbrev pub Signalled : Type 0
Signalled = Option ℕ

abbrev pub fence_error : DeviceReading → GpuError
fence_error d =
    if has_failed d.removed
    then make_error device_lost d.removed
    else make_error system_error d.signal

abbrev pub give_up :
    SharedFrameBusConsumerState → SharedPage → SharedFrameBusConsumerState × SharedPage
give_up s page = let (t, q) = quarantine_all_readers s page in deactivate t q

-- The signal, after the order has been shortened.
unfoldable pub signal_retired :
    DeviceReading
    → ℕ
    → SharedFrameBusConsumerState
    → SharedPage
    → (SharedFrameBusConsumerState × SharedPage) × GpuError × Signalled
unfolding deactivate quarantine_all_readers
signal_retired d sequence s page =
    if has_failed d.signal
    then (give_up s page, fence_error d, none)
    else if has_failed d.removed
    then (give_up s page, make_error device_lost d.removed, some sequence)
    else ((s, page), success, some sequence)

-- What the loop has found is stored: `none` is a corrupt record.
unfoldable pub settle_order :
    DeviceReading
    → Option Retired
    → SharedFrameBusConsumerState
    → SharedPage
    → (SharedFrameBusConsumerState × SharedPage) × GpuError × Signalled
unfolding signal_retired
settle_order d none s page = (give_up s page, make_error system_error e_abort, none)
settle_order d (some r) s page =
    let kept = record s {
      acquisitions = r.acquisitions;
      acquisition_order = r.order;
      active_acquisitions = s.active_acquisitions - r.count;
    } in
    if r.count == 0 then ((kept, page), success, none) else signal_retired d r.sequence kept page

unfoldable pub release_acquired :
    DeviceReading
    → SharedFrameBusConsumerState
    → SharedPage
    → (SharedFrameBusConsumerState × SharedPage) × GpuError × Signalled
unfolding retire_order settle_order
release_acquired d s page =
    settle_order d (retire_order s.slot_count s.acquisition_order s.acquisitions 0 0) s page

unfoldable pub release_record :
    DeviceReading
    → ℕ
    → ℕ
    → Option Acquisition
    → SharedFrameBusConsumerState
    → SharedPage
    → (SharedFrameBusConsumerState × SharedPage) × GpuError × Signalled
unfolding release_acquired
release_record d slot sequence none s page = ((s, page), misused, none)
release_record d slot sequence (some a) s page =
    if leb s.slot_count slot || not a.active || a.released || not (a.sequence == sequence)
    then ((s, page), misused, none)
    else release_acquired d
        (record s { acquisitions = set s.acquisitions slot (record a { released = true }) }) page

unfoldable pub release :
    DeviceReading
    → ℕ
    → ℕ
    → SharedFrameBusConsumerState
    → SharedPage
    → (SharedFrameBusConsumerState × SharedPage) × GpuError × Signalled
unfolding release_record
release d slot sequence s page =
    release_record d slot sequence (get_elem? s.acquisitions slot) s page
