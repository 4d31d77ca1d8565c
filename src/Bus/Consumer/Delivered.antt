-- ===== src/Bus/Consumer/Delivered.antt =====
-- What a consumer has in its hands when a frame has been delivered to it.
use fluxcap.Prelude.{
  ℕ, ◌+◌, ◌≤◌, ◌<◌, ◌≡◌, ◌≢◌, true, false, [], ◌∷◌, ◌++◌, get_elem?, Option, some, All,
}
use fluxcap.Gpu.{value}
use fluxcap.Bus.Control.{Slot, slot_unavailable, reads}
use fluxcap.Bus.Consumer.{Acquisition, SharedFrameBusConsumerState, SharedPage}
use fluxcap.Bus.Consumer.Acquire.{AcquireOutcome, SharedFrameBusFrameLease}

-- The record of a frame that is held, with the payload of its slot.
abbrev pub acquisition_of : Slot → Acquisition
acquisition_of slot = record {
  sequence = slot.sequence;
  metadata = slot.metadata;
  side_data = slot.side_data;
  active = true;
  released = false;
}

-- The slot with the reader's bit, and everything else in it as it was.
pub record HeldBy (index : ℕ) (slot t : Slot) : Type 0 where
  pub bit : reads t.ownership index ≡ true
  pub other_bits : (k : ℕ) → k ≢ index → reads t.ownership k ≡ reads slot.ownership k
  pub same : t ≡ record slot { ownership = record slot.ownership { readers = t.ownership.readers } }

-- A lease of the frame in this slot is returned: the consumer has recorded the frame with its payload,
-- as the last of its order and as seen; its bit is in the word of the slot; nothing else has changed.
pub record Received (s : SharedFrameBusConsumerState) (page : SharedPage) (at : ℕ) (slot : Slot)
    (t : SharedFrameBusConsumerState) (left : SharedPage) (lease : SharedFrameBusFrameLease)
    : Type 0 where
  pub named :
      (lease.slot_index ≡ at)
      × (lease.sequence ≡ slot.sequence)
      × (lease.width ≡ s.width)
      × (lease.height ≡ s.height)
      × (lease.format ≡ s.format)
  pub recorded : get_elem? t.acquisitions at ≡ some (acquisition_of slot)
  pub other_records : (i : ℕ) → i ≢ at → get_elem? t.acquisitions i ≡ get_elem? s.acquisitions i
  pub ordered :
      t.acquisition_order
      ≡ s.acquisition_order ++ (record { slot = at; sequence = slot.sequence } ∷ [])
  pub counted : t.active_acquisitions ≡ s.active_acquisitions + 1
  pub observed : t.observed_sequence ≡ slot.sequence
  pub held : (u : Slot) × (get_elem? left.slots at ≡ some u) × HeldBy s.consumer_index slot u
  pub other_slots : (i : ℕ) → i ≢ at → get_elem? left.slots i ≡ get_elem? page.slots i
  pub access_left : left.control.access_state.refs ≡ page.control.access_state.refs

-- The newest frame that may be read is received.
pub record Delivered (s : SharedFrameBusConsumerState) (page : SharedPage)
    (out : Option AcquireOutcome) : Type 0 where
  pub at : ℕ
  pub slot : Slot
  pub there : get_elem? page.slots at ≡ some slot
  pub available : slot_unavailable slot.ownership ≡ false
  pub newest :
      All (λ t. slot_unavailable t.ownership ≡ false → t.sequence ≤ slot.sequence) page.slots
  pub newer : s.observed_sequence < slot.sequence
  pub state : SharedFrameBusConsumerState
  pub left : SharedPage
  pub lease : SharedFrameBusFrameLease
  pub returned : out ≡ some ((state, left), value lease)
  pub received : Received s page at slot state left lease
