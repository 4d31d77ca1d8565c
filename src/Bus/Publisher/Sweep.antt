-- ===== src/Bus/Publisher/Sweep.antt =====
-- Consumers that are gone, and the slots they held.
use fluxcap.Prelude.{
  ℕ, suc, ◌+◌, ◌-◌, ◌^◌, Bool, true, false, not, ◌&&◌, ◌||◌, ◌==◌, leb, List, [], ◌∷◌, get_or, set,
  if◌then◌else◌, map, u32, u64, u64_max,
}
use fluxcap.Gpu.{GpuError, success, make_error, device_lost, system_error, is_ok}
use fluxcap.Bus.Control.{
  Slot, ConsumerControl, reads, clear_reader, quarantine_reader, no_access, encode_access_tag,
  close_consumer_access,
}
use fluxcap.Bus.Publisher.{SharedFrameBusPublisherState, SharedFrameBusStats, no_consumer}

-- `WaitForSingleObject` on the consumer's process.
pub data ProcessWait : Type 0 where
  exited : ProcessWait
  failed : ℕ → ProcessWait
  alive : ProcessWait

-- What the system tells of a consumer: its process, the value that its done fence has reached, and
-- the reason for which the device was removed.
pub record ConsumerReading : Type 0 where
  pub process_wait : ProcessWait
  pub completed : ℕ
  pub removed : ℕ

-- `FAILED(hr)`.
abbrev pub has_failed : ℕ → Bool
has_failed hr = leb (2 ^ 31) hr

abbrev pub no_control : ConsumerControl
no_control = record { token = 0; access_state = no_access; process_id = 0 }

abbrev pub clear_slot : ℕ → Slot → Slot
clear_slot index s = record s { ownership = clear_reader s.ownership index }

-- A slot that a gone or broken consumer holds: it is free for others when the consumer's fence has
-- passed the frame, and quarantined otherwise.
unfoldable pub reclaim_slot : ℕ → ℕ → Slot → Slot
reclaim_slot index completed s =
    if not (reads s.ownership index)
    then s
    else if not (completed == u64_max) && leb s.sequence completed
    then clear_slot index s
    else record s { ownership = quarantine_reader s.ownership index }

-- A slot that a living consumer holds: its bit goes when the fence has passed the frame.
unfoldable pub release_slot : ℕ → ℕ → Slot → Slot
release_slot index completed s =
    if not (reads s.ownership index)
    then s
    else if completed == u64_max
    then record s { ownership = quarantine_reader s.ownership index }
    else if leb s.sequence completed
    then clear_slot index s
    else s

unfoldable pub consumer_has_readers : ℕ → List Slot → Bool
consumer_has_readers index [] = false
consumer_has_readers index (s ∷ ss) = reads s.ownership index || consumer_has_readers index ss

unfoldable pub count_reclaimed : SharedFrameBusStats → Bool → SharedFrameBusStats
count_reclaimed t dead = record t {
  consumer_reclamations = u64 (t.consumer_reclamations + 1);
  dead_consumer_reclamations =
      if dead then u64 (t.dead_consumer_reclamations + 1) else t.dead_consumer_reclamations;
  active_consumers = t.active_consumers - 1;
}

unfoldable pub finalize_consumer :
    ℕ → Bool → SharedFrameBusPublisherState → SharedFrameBusPublisherState
unfolding count_reclaimed
finalize_consumer index dead p =
    let r = get_or p.consumers index no_consumer in
    let c = get_or p.controls index no_control in
    if not r.active then p else record p {
      slots = map (clear_slot index) p.slots;
      controls =
          if c.token == r.token
          then set p.controls index (record c { access_state = no_access; token = 0 })
          else p.controls;
      consumers = set p.consumers index no_consumer;
      statistics = count_reclaimed p.statistics dead;
    }

unfoldable pub close_consumer : ℕ → SharedFrameBusPublisherState → SharedFrameBusPublisherState
unfolding close_consumer_access
close_consumer index p =
    let r = get_or p.consumers index no_consumer in
    let c = get_or p.controls index no_control in
    record p {
      controls = set p.controls index (close_consumer_access c (encode_access_tag r.token));
    }

-- The device is gone: the bus is closed for good.
abbrev pub close_for_removal :
    ℕ → SharedFrameBusPublisherState → SharedFrameBusPublisherState × GpuError
close_for_removal removed p =
    let e = make_error device_lost removed in
    (record p { terminal_failure = e; shutting_down = true }, e)

unfoldable pub sweep_dead :
    ℕ → ConsumerReading → SharedFrameBusPublisherState → SharedFrameBusPublisherState × GpuError
unfolding reclaim_slot finalize_consumer close_consumer
sweep_dead index o p =
    let r = get_or p.consumers index no_consumer in
    let reclaimed = record p { slots = map (reclaim_slot index o.completed) p.slots } in
    if r.poisoned
    then (finalize_consumer index true (close_consumer index p), success)
    else if has_failed o.removed
    then close_for_removal o.removed p
    else (finalize_consumer index true (close_consumer index reclaimed), success)

-- The consumer has asked to leave, or its token has been replaced.
unfoldable pub finish_if_closed : ℕ → SharedFrameBusPublisherState → SharedFrameBusPublisherState
unfolding finalize_consumer consumer_has_readers
finish_if_closed index p =
    let r = get_or p.consumers index no_consumer in
    let c = get_or p.controls index no_control in
    if (not c.access_state.is_open || not (c.token == r.token))
      && c.access_state.refs == 0
      && not (consumer_has_readers index p.slots)
    then finalize_consumer index false p
    else p

unfoldable pub sweep_living :
    ℕ → ConsumerReading → SharedFrameBusPublisherState → SharedFrameBusPublisherState × GpuError
unfolding release_slot close_consumer finish_if_closed
sweep_living index o p =
    let r = get_or p.consumers index no_consumer in
    let closed = if o.completed == u64_max then close_consumer index p else p in
    let released = record closed { slots = map (release_slot index o.completed) closed.slots } in
    if r.poisoned
    then (p, success)
    else if has_failed o.removed
    then close_for_removal o.removed p
    else (finish_if_closed index released, success)

unfoldable pub sweep_waited :
    ProcessWait
    → ℕ
    → ConsumerReading
    → SharedFrameBusPublisherState
    → SharedFrameBusPublisherState × GpuError
unfolding sweep_dead sweep_living
sweep_waited exited index o p = sweep_dead index o p
sweep_waited (failed code) index o p = (p, make_error system_error code)
sweep_waited alive index o p = sweep_living index o p

unfoldable pub sweep_consumer :
    ℕ → ConsumerReading → SharedFrameBusPublisherState → SharedFrameBusPublisherState × GpuError
unfolding sweep_waited
sweep_consumer index o p =
    if not (get_or p.consumers index no_consumer).active
    then (p, success)
    else sweep_waited o.process_wait index o p

-- `account_quarantined_slots_locked`: each slot is counted once.
unfoldable pub account_quarantined : List Bool → List Slot → ℕ → List Bool × ℕ
account_quarantined (b ∷ bs) (s ∷ ss) n =
    let fresh = not b && s.ownership.quarantined in
    let (rest, m) = account_quarantined bs ss (if fresh then u32 (n + 1) else n) in
    ((b || s.ownership.quarantined) ∷ rest, m)
account_quarantined (b ∷ bs) [] n = (b ∷ bs, n)
account_quarantined [] ss n = ([], n)

unfoldable pub account_quarantined_slots :
    SharedFrameBusPublisherState → SharedFrameBusPublisherState
unfolding account_quarantined
account_quarantined_slots p =
    let (accounted, n) =
      account_quarantined p.quarantine_accounted p.slots p.statistics.quarantined_slots in
    record p {
      quarantine_accounted = accounted;
      statistics = record p.statistics { quarantined_slots = n };
    }

-- The loop over the consumers, one reading for each of them.
unfoldable pub sweep_from :
    ℕ
    → List ConsumerReading
    → SharedFrameBusPublisherState
    → SharedFrameBusPublisherState × GpuError
unfolding sweep_consumer account_quarantined_slots
sweep_from index [] p = (account_quarantined_slots p, success)
sweep_from index (o ∷ os) p =
    let (q, e) = sweep_consumer index o p in
    let rest = sweep_from (suc index) os q in if is_ok e then rest else (q, e)

unfoldable pub sweep_consumers :
    List ConsumerReading → SharedFrameBusPublisherState → SharedFrameBusPublisherState × GpuError
unfolding sweep_from
sweep_consumers readings p = sweep_from 0 readings p
