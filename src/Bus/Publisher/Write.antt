-- ===== src/Bus/Publisher/Write.antt =====
-- The producer's side: a slot is claimed, written, and committed or cancelled.
use fluxcap.Prelude.{
  ℕ, suc, ◌+◌, ◌-◌, Bool, true, false, not, ◌&&◌, ◌==◌, ltb, leb, List, [], ◌∷◌, get_elem?, set,
  if◌then◌else◌, map, u64, u64_max, Option, none, some,
}
use fluxcap.Gpu.{
  GpuError, Result, value, error, ◌>>=◌, ◌>>◌, refuse, success, make_error, misused, timeout_error,
  e_abort, e_unexpected, device_lost, system_error, is_ok, make_error,
}
use fluxcap.Bus.Metadata.{SharedFrameBusFrameMetadata, normalize_metadata}
use fluxcap.Bus.SideData.{SharedFrameBusFrameSideData, normalize_side_data}
use fluxcap.Bus.Control.{Ownership, Slot, is_free}
use fluxcap.Bus.Publisher.{SharedFrameBusPublisherState, invalid_slot}
use fluxcap.Bus.Publisher.Sweep.{ConsumerReading, has_failed, sweep_consumers}

unfoldable pub all_quarantined : List Slot → Bool
all_quarantined [] = true
all_quarantined (s ∷ ss) = s.ownership.quarantined && all_quarantined ss

-- The free slot with the smallest number, the first of these; `seen` says of each slot whether its
-- word was zero when the scan read it.
unfoldable pub oldest_free : ℕ → List Bool → List Slot → Option (ℕ × ℕ) → Option (ℕ × ℕ)
oldest_free slot (free ∷ seen) (s ∷ ss) candidate = oldest_free (suc slot) seen ss (
    if not free then candidate else elim candidate [
      | none ↦ some (slot, s.sequence)
      | some (other, oldest) ↦
          if ltb s.sequence oldest then some (slot, s.sequence) else some (other, oldest)
    ])
oldest_free slot [] ss candidate = candidate
oldest_free slot (free ∷ seen) [] candidate = candidate

-- One round of the loop: what the system tells of the consumers, and what the scan reads.
pub record Round : Type 0 where
  pub readings : List ConsumerReading
  pub seen : List Bool

-- `++token; if (token == 0) ++token;`.
abbrev pub next_token : ℕ → ℕ
next_token t = if u64 (t + 1) == 0 then 1 else u64 (t + 1)

abbrev pub with_numbers : ℕ → Slot → Slot
with_numbers n s = record s { sequence = n; metadata_sequence = n; side_data_sequence = n }

abbrev pub set_writer : Bool → Slot → Slot
set_writer b s = record s { ownership = record s.ownership { writer = b } }

abbrev pub update_slot : ℕ → (Slot → Slot) → List Slot → List Slot
update_slot slot f ss = elim (get_elem? ss slot) [ none ↦ ss | some s ↦ set ss slot (f s) ]

-- The exchange has put `writer_bit` in the place of zero.
unfoldable pub take_slot :
    ℕ → Slot → SharedFrameBusPublisherState → SharedFrameBusPublisherState × Result (ℕ × ℕ)
take_slot slot s p =
    let token = next_token p.writer_token in
    (
      record p {
        slots = update_slot slot (λ old. set_writer true (with_numbers 0 old)) p.slots;
        writer_active = true;
        writer_slot = slot;
        writer_token = token;
        statistics = record p.statistics {
          reused_ready_slots =
              if s.sequence == 0
              then p.statistics.reused_ready_slots
              else u64 (p.statistics.reused_ready_slots + 1);
        };
      },
      value (slot, token),
    )

-- The exchange fails when a reader has come since the scan.
unfoldable pub try_slot :
    ℕ
    → Option Slot
    → SharedFrameBusPublisherState
    → Option (SharedFrameBusPublisherState × Result (ℕ × ℕ))
unfolding take_slot is_free
try_slot slot none p = none
try_slot slot (some s) p = if is_free s.ownership then some (take_slot slot s p) else none

unfoldable pub try_candidate :
    Option (ℕ × ℕ)
    → SharedFrameBusPublisherState
    → Option (SharedFrameBusPublisherState × Result (ℕ × ℕ))
unfolding try_slot
try_candidate none p = none
try_candidate (some (slot, oldest)) p = try_slot slot (get_elem? p.slots slot) p

-- A round ends the loop with a slot or an error, or leaves the state that it swept.
unfoldable pub claim_round :
    Round
    → SharedFrameBusPublisherState
    → (SharedFrameBusPublisherState × Option (SharedFrameBusPublisherState × Result (ℕ × ℕ)))
unfolding all_quarantined oldest_free try_candidate sweep_consumers
claim_round r p =
    let (q, swept) = sweep_consumers r.readings p in
    if not (is_ok swept)
    then (q, some (q, error swept))
    else if all_quarantined q.slots
    then (q, some (q, error (make_error system_error e_abort)))
    else (q, try_candidate (oldest_free 0 r.seen q.slots none) q)

abbrev pub end_of_round {ℓ} : {A : Type ℓ} → Option A → A → A
end_of_round none rest = rest
end_of_round (some out) rest = out

-- The rounds that are made until the time is up.
unfoldable pub claim_rounds :
    List Round → SharedFrameBusPublisherState → SharedFrameBusPublisherState × Result (ℕ × ℕ)
unfolding claim_round
claim_rounds [] p = (
  record p { statistics = record p.statistics { no_slot = u64 (p.statistics.no_slot + 1) } },
  error timeout_error,
)
claim_rounds (r ∷ rs) p =
    let (q, ended) = claim_round r p in let rest = claim_rounds rs q in end_of_round ended rest

unfoldable pub claim_slot :
    List Round → SharedFrameBusPublisherState → SharedFrameBusPublisherState × Result (ℕ × ℕ)
unfolding claim_rounds
claim_slot rounds p = if p.writer_active then (p, error misused) else claim_rounds rounds p

abbrev pub owns_write : ℕ → ℕ → SharedFrameBusPublisherState → Bool
owns_write slot token p = p.writer_active && p.writer_slot == slot && p.writer_token == token

abbrev pub no_ownership : Ownership → Ownership
no_ownership o = record {
  writer = false;
  quarantined = false;
  readers = map (λ _. false) o.readers;
}

-- `InterlockedExchange(&ownership, 0)` puts zero whatever was there.
unfoldable pub give_back : Slot → Slot
give_back s = record s { ownership = no_ownership s.ownership }

unfoldable pub cancel_write : ℕ → ℕ → SharedFrameBusPublisherState → SharedFrameBusPublisherState
unfolding give_back
cancel_write slot token p = if not (owns_write slot token p) then p else record p {
  slots = update_slot slot (λ s. give_back (with_numbers 0 s)) p.slots;
  writer_active = false;
  writer_slot = invalid_slot;
}

-- What the device answers: the result of `Signal`, and the reason for which it was removed.
pub record DeviceReading : Type 0 where
  pub signal : ℕ
  pub removed : ℕ

abbrev pub publish_in : ℕ → SharedFrameBusFrameMetadata → SharedFrameBusFrameSideData → Slot → Slot
publish_in next m s old = record old {
  sequence = next;
  metadata_sequence = next;
  metadata = m;
  side_data_sequence = next;
  side_data = s;
}

unfoldable pub publish_slot :
    ℕ
    → Bool
    → SharedFrameBusFrameMetadata
    → SharedFrameBusFrameSideData
    → SharedFrameBusPublisherState
    → SharedFrameBusPublisherState
unfolding give_back
publish_slot slot direct m s p =
    let next = p.sequence + 1 in
    let t = p.statistics in
    record p {
      sequence = next;
      slots = update_slot slot (λ old. give_back (publish_in next m s old)) p.slots;
      writer_active = false;
      writer_slot = invalid_slot;
      statistics = record t {
        published_frames = u64 (t.published_frames + 1);
        direct_publishes = if direct then u64 (t.direct_publishes + 1) else t.direct_publishes;
        copied_publishes = if direct then t.copied_publishes else u64 (t.copied_publishes + 1);
      };
    }

-- The tests of a commit before the device is asked: what is published then.
unfoldable pub commit_payload :
    SharedFrameBusPublisherState
    → SharedFrameBusFrameMetadata
    → SharedFrameBusFrameSideData
    → Result (SharedFrameBusFrameMetadata × SharedFrameBusFrameSideData)
unfolding normalize_metadata normalize_side_data
commit_payload p metadata side_data = do
  m ← normalize_metadata metadata p.config.width p.config.height p.config.color_space true
  refuse (leb (u64_max - 1) p.sequence) (make_error system_error e_unexpected)
  s ← normalize_side_data side_data p.config.width p.config.height 5 (p.sequence + 1)
  value (m, s)

abbrev pub removed_state : ℕ → SharedFrameBusPublisherState → SharedFrameBusPublisherState
removed_state removed p = record p {
  terminal_failure = make_error device_lost removed;
  shutting_down = true;
}

unfoldable pub commit_checked :
    ℕ
    → ℕ
    → Bool
    → DeviceReading
    → SharedFrameBusFrameMetadata
    → SharedFrameBusFrameSideData
    → SharedFrameBusPublisherState
    → SharedFrameBusPublisherState × GpuError
unfolding cancel_write publish_slot
commit_checked slot token direct d m s p =
    if has_failed d.removed
    then (cancel_write slot token (removed_state d.removed p), make_error device_lost d.removed)
    else if has_failed d.signal
    then (cancel_write slot token p, make_error system_error d.signal)
    else (publish_slot slot direct m s p, success)

unfoldable pub commit_write :
    ℕ
    → ℕ
    → Bool
    → DeviceReading
    → SharedFrameBusFrameMetadata
    → SharedFrameBusFrameSideData
    → SharedFrameBusPublisherState
    → SharedFrameBusPublisherState × GpuError
unfolding commit_payload commit_checked
commit_write slot token direct d metadata side_data p =
    if not (owns_write slot token p)
    then (p, misused)
    else elim (commit_payload p metadata side_data) [
      | error e ↦ (cancel_write slot token p, e)
      | value (m, s) ↦ commit_checked slot token direct d m s p
    ]
