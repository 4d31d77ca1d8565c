-- ===== src/Bus/History.antt =====
-- Histories of a bus: the publisher's calls, each under the mutex, and between them what the
-- consumers do to the words of the slots.
use fluxcap.Prelude.{
  ℕ, ◌≡◌, refl, ap, sym, subst, ◌∙◌, Bool, true, false, List, [], ◌∷◌, get_elem?, set,
  if◌then◌else◌, Option, All, arith, inl, inr, Bool-cases,
}
use fluxcap.Bus.Metadata.{SharedFrameBusFrameMetadata}
use fluxcap.Bus.SideData.{SharedFrameBusFrameSideData}
use fluxcap.Bus.SideData.Again.{FullArrays}
use fluxcap.Bus.MoveResult.{SharedFrameBusMoveResult}
use fluxcap.Bus.CursorShape.{WgcCursorShape}
use fluxcap.Bus.Control.{Slot, slot_unavailable, reads, quarantine_reader}
use fluxcap.Bus.Publisher.{SharedFrameBusPublisherState, SharedFrameBusConfig}
use fluxcap.Bus.Publisher.Sweep.{ConsumerReading, sweep_consumers, clear_slot}
use fluxcap.Bus.Publisher.Write.{Round, DeviceReading, update_slot}
use fluxcap.Bus.Publisher.Calls.{
  SourceTexture, SharedFrameBusWriteLease, check_publish, publish, check_shape, begin_publish,
  reserve_producer, release_producer, commit, commit_reserved, reset_lease, publish_cursor_shape,
  publish_move_result, check_move_result,
}
use fluxcap.Bus.Publisher.Registration.{RegistrationReading, register_consumer}
use fluxcap.Bus.Publisher.Slots.{update_slot_cases, quarantine-Released, clear_slot-Released}
use fluxcap.Bus.Publisher.Invariant.{
  IsValid, StandsFor, StandsFor-SlotsAreValid, Released-StandsFor,
}
use fluxcap.Bus.Publisher.SweepKept.{sweep_consumers-Kept}
use fluxcap.Bus.Publisher.CommitKept.{commit_write-IsValid}
use fluxcap.Bus.Publisher.CallsKept.{
  publish_checked-ValidWith, begin_publish-ValidWith, commit_reserved-ValidWith,
  reserve_producer-ValidWith, shape_checked-ValidWith, moves_checked-ValidWith,
  register_consumer-ValidWith, check_publish-IsFull, release_producer-IsValid, reset_lease-IsValid,
}

-- What a consumer does to the word of a slot: the exchange that sets its bit, if the slot is available
-- and the bit is not set.
unfoldable pub set_reader : ℕ → Slot → Slot
unfolding slot_unavailable
set_reader index s = if slot_unavailable s.ownership then s else record s {
  ownership = record s.ownership { readers = set s.ownership.readers index true };
}

-- It quarantines a slot only while it holds it.
unfoldable pub quarantine_own : ℕ → Slot → Slot
quarantine_own index s =
    if reads s.ownership index
    then record s { ownership = quarantine_reader s.ownership index }
    else s

-- The calls of the publisher but for `unregister_consumer` and the getters, and the changes of a word by
-- a consumer.
pub data Call : Type 0 where
  publishes :
      Option SourceTexture
      → SharedFrameBusFrameMetadata
      → SharedFrameBusFrameSideData
      → List Round
      → DeviceReading
      → Call
  begins : Bool → Bool → ℕ → List Round → Call
  commits :
      SharedFrameBusWriteLease
      → DeviceReading
      → SharedFrameBusFrameMetadata
      → SharedFrameBusFrameSideData
      → Call
  commits_reserved :
      ℕ
      → SharedFrameBusWriteLease
      → DeviceReading
      → SharedFrameBusFrameMetadata
      → SharedFrameBusFrameSideData
      → Call
  resets : SharedFrameBusWriteLease → Call
  reserves : Call
  releases_producer : ℕ → Call
  publishes_shape : ℕ → WgcCursorShape → Call
  publishes_moves : ℕ → SharedFrameBusMoveResult → Call
  registers : RegistrationReading → List ConsumerReading → Call
  sweeps : List ConsumerReading → Call
  reader_comes : ℕ → ℕ → Call
  reader_goes : ℕ → ℕ → Call
  reader_quarantines : ℕ → ℕ → Call

unfoldable pub step : Call → SharedFrameBusPublisherState → SharedFrameBusPublisherState
unfolding publish begin_publish commit commit_reserved reset_lease reserve_producer release_producer
    publish_cursor_shape publish_move_result register_consumer sweep_consumers set_reader
    quarantine_own
step (publishes source m d rounds device) p = (publish source m d rounds device p).0
step (begins lock_is_free once token rounds) p =
    (begin_publish lock_is_free once true token rounds p).0
step (commits lease device m d) p = (commit lease device m d p).0
step (commits_reserved token lease device m d) p = (commit_reserved token lease device m d p).0
step (resets lease) p = reset_lease lease p
step reserves p = (reserve_producer 0 p).0
step (releases_producer token) p = release_producer token p
step (publishes_shape token shape) p = (publish_cursor_shape token shape p).0
step (publishes_moves token r) p = (publish_move_result token r p).0
step (registers o readings) p = (register_consumer o readings p).0
step (sweeps readings) p = (sweep_consumers readings p).0
step (reader_comes slot index) p = record p { slots = update_slot slot (set_reader index) p.slots }
step (reader_goes slot index) p = record p { slots = update_slot slot (clear_slot index) p.slots }
step (reader_quarantines slot index) p = record p {
  slots = update_slot slot (quarantine_own index) p.slots;
}

unfoldable pub run : List Call → SharedFrameBusPublisherState → SharedFrameBusPublisherState
unfolding step
run [] p = p
run (c ∷ cs) p = run cs (step c p)

-- The side data that a call is given has all the entries of its arrays.
abbrev pub CallIsFull : Call → Type 0
CallIsFull (publishes source m d rounds device) = FullArrays d
CallIsFull (commits lease device m d) = FullArrays d
CallIsFull (commits_reserved token lease device m d) = FullArrays d
CallIsFull _ = Unit {0}

-- The words of the slots may change as long as each slot stands for itself.
word-IsValid :
    (slot : ℕ) (f : Slot → Slot) (p : SharedFrameBusPublisherState)
    → ((s : Slot) → StandsFor p.config p.sequence s (f s))
    → IsValid p
    → IsValid (record p { slots = update_slot slot f p.slots })
word-IsValid slot f p stands v = (
  StandsFor-SlotsAreValid p.slots (update_slot slot f p.slots)
      (λ i t e. elim (update_slot_cases p.slots slot i f e) [
        | inl (here, s, at, is) ↦ (
          s,
          ap (get_elem? p.slots) here ∙ at,
          subst (StandsFor p.config p.sequence s) (sym is) (stands s),
        )
        | inr (there, at) ↦ (t, at, (λ w. w, refl, refl))
      ])
      v.0,
  v.1,
)

set_reader-StandsFor :
    (c : SharedFrameBusConfig) (q index : ℕ) (s : Slot) → StandsFor c q s (set_reader index s)
unfolding set_reader slot_unavailable
set_reader-StandsFor c q index s = elim (Bool-cases (slot_unavailable s.ownership)) [
  | inl taken ↦ rw taken (λ w. w, refl, refl)
  | inr free ↦
      let unmarked : s.ownership.writer ≡ false = ground (arith, free) in
      rw free (
        λ v. record {
          bound = v.bound;
          numbers = v.numbers;
          metadata = v.metadata;
          side_data = v.side_data;
          writing = v.writing;
          alone = λ w. cc;
        },
        refl,
        refl,
      )
]

quarantine_own-StandsFor :
    (c : SharedFrameBusConfig) (q index : ℕ) (s : Slot) → StandsFor c q s (quarantine_own index s)
unfolding quarantine_own
quarantine_own-StandsFor c q index s = elim (Bool-cases (reads s.ownership index)) [
  | inl held ↦ rw held (
      Released-StandsFor c q s (record s { ownership = quarantine_reader s.ownership index })
        (quarantine-Released index s held))
  | inr other ↦ rw other (λ w. w, refl, refl)
]

pub step-IsValid :
    (c : Call) (p : SharedFrameBusPublisherState) → CallIsFull c → IsValid p → IsValid (step c p)
unfolding step
step-IsValid (publishes source m d rounds device) p full v =
    (publish_checked-ValidWith p v (check_publish p source m d) rounds device
      (check_publish-IsFull p source m d (check_publish p source m d) full refl)).valid
step-IsValid (begins lock_is_free once token rounds) p full v =
    (begin_publish-ValidWith p v lock_is_free once true token rounds).valid
step-IsValid (commits lease device m d) p full v =
    commit_write-IsValid lease.slot lease.token true device m d p full v
step-IsValid (commits_reserved token lease device m d) p full v =
    (commit_reserved-ValidWith p v token lease device m d full).valid
step-IsValid (resets lease) p full v = reset_lease-IsValid lease p v
step-IsValid reserves p full v = (reserve_producer-ValidWith p v).valid
step-IsValid (releases_producer token) p full v = release_producer-IsValid token p v
step-IsValid (publishes_shape token shape) p full v =
    (shape_checked-ValidWith p v (check_shape token shape p) shape).valid
step-IsValid (publishes_moves token r) p full v =
    (moves_checked-ValidWith p v (check_move_result token r p)).valid
step-IsValid (registers o readings) p full v = (register_consumer-ValidWith o readings p v).valid
step-IsValid (sweeps readings) p full v = (sweep_consumers-Kept readings p).valid v
step-IsValid (reader_comes slot index) p full v =
    word-IsValid slot (set_reader index) p (set_reader-StandsFor p.config p.sequence index) v
step-IsValid (reader_goes slot index) p full v =
    word-IsValid slot (clear_slot index) p
      (λ s.
        Released-StandsFor p.config p.sequence s (clear_slot index s) (clear_slot-Released index s))
      v
step-IsValid (reader_quarantines slot index) p full v =
    word-IsValid slot (quarantine_own index) p (quarantine_own-StandsFor p.config p.sequence index)
      v

-- Every history keeps the bus valid, in whatever order the publisher's calls, those of `Call`, and the
-- consumers' changes of the words come, and whatever the system, the device and the scans answer: a slot with a number
-- carries metadata and side data of that number, in the form that a reader accepts; the one slot with
-- the writer bit is that of the write lease, it has no number and nobody reads it; no two slots carry
-- the same frame, and none a frame that is not published. The side data of the calls has the entries of
-- its arrays.
pub run-keeps_IsValid :
    (cs : List Call) (p : SharedFrameBusPublisherState)
    → All CallIsFull cs
    → IsValid p
    → IsValid (run cs p)
unfolding run
run-keeps_IsValid [] p full v = v
run-keeps_IsValid (c ∷ cs) p full v =
    run-keeps_IsValid cs (step c p) full.1 (step-IsValid c p full.0 v)
