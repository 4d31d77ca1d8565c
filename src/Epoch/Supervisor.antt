-- ===== src/Epoch/Supervisor.antt =====
-- The member functions of `PipelineEpochSupervisor`. A call returns the new state, its result and
-- what it writes to its output parameter, `none` where it leaves that alone.
use fluxcap.Prelude.{
  ℕ, ◌+◌, Bool, false, true, not, ◌&&◌, ◌||◌, Option, none, some, replicate, set, ◌==◌, u64_max,
  if◌then◌else◌,
}
use fluxcap.Epoch.Types.{
  PipelineEpochStatus, PipelineEpochResult, PipelineEpochTicket, PipelineEpochRegistration,
  PipelineEpochFrameContract, PipelineEpochSnapshot, Participant, PipelineEpochSupervisor, vacant,
  max_participants, running, quiescing, retired, building, ready, ok, invalid_argument,
  invalid_state, stale_epoch, stale_registration, duplicate_participant,
  participant_capacity_exceeded, registration_space_exhausted, pending_acknowledgements,
  epoch_exhausted, is_running, is_quiescing, is_retired, is_building, is_ready,
}
use fluxcap.Epoch.Nonce.{NonceReading, make_nonce, make_unique_nonce, make_registration_nonce}
use fluxcap.Epoch.Participants.{
  Scan, duplicate, slot, find_participant, pending_quiesce, pending_ready, participant_count,
  scan_from, clear_quiesced, clear_all,
}

abbrev pub result : PipelineEpochStatus → Bool → PipelineEpochResult
result status changed = record { status = status; changed = changed }

-- The constructor; `reading` is what `make_nonce` reads, if it is called.
unfoldable pub construct : ℕ → ℕ → NonceReading → PipelineEpochSupervisor
construct initial_epoch initial_nonce reading =
    let nonce = if initial_nonce == 0 then make_nonce reading else initial_nonce in
    record {
      state = running;
      ticket = record {
        epoch = if initial_epoch == 0 then 1 else initial_epoch;
        nonce = if nonce == 0 then 1 else nonce;
      };
      participants = replicate max_participants vacant;
      recovery_attempts = 0;
      recovery_successes = 0;
      stale_acknowledgements = 0;
      next_registration_nonce = 1;
      last_device_lost_reason = 0;
      first_frame_pending = false;
    }

abbrev pub ticket_matches : PipelineEpochSupervisor → PipelineEpochTicket → Bool
ticket_matches s t =
    not (t.epoch == 0)
    && not (t.nonce == 0)
    && (t.epoch == s.ticket.epoch && t.nonce == s.ticket.nonce)

-- A counter that stops at the largest `uint64_t`.
abbrev pub count_up : ℕ → ℕ
count_up n = if n == u64_max then n else n + 1

abbrev pub count_stale : PipelineEpochSupervisor → PipelineEpochSupervisor
count_stale s = record s { stale_acknowledgements = count_up s.stale_acknowledgements }

abbrev pub stale_epoch_locked :
    PipelineEpochSupervisor → PipelineEpochSupervisor × PipelineEpochResult
stale_epoch_locked s = (count_stale s, result stale_epoch false)

abbrev pub stale_registration_locked :
    PipelineEpochSupervisor → PipelineEpochSupervisor × PipelineEpochResult
stale_registration_locked s = (count_stale s, result stale_registration false)

-- The part of `register_participant` after the search for a slot.
unfoldable pub enrol :
    ℕ
    → PipelineEpochSupervisor
    → Scan
    → PipelineEpochSupervisor × PipelineEpochResult × Option PipelineEpochRegistration
enrol id s duplicate = (s, result duplicate_participant false, none)
enrol id s (slot none) = (s, result participant_capacity_exceeded false, none)
enrol id s (slot (some i)) =
    let (nonce, next) = make_registration_nonce s.ticket.nonce s.next_registration_nonce in
    let counted = record s { next_registration_nonce = next } in
    let entry : Participant = record {
      participant_id = id;
      registration_nonce = nonce;
      active = true;
      quiesced = is_running s.state;
      ready = is_running s.state;
    } in
    if nonce == 0 then (counted, result registration_space_exhausted false, none) else (
      record counted { participants = set s.participants i entry },
      result ok true,
      some (record { ticket = s.ticket; participant_id = id; registration_nonce = nonce }),
    )

unfoldable pub register_participant :
    ℕ
    → PipelineEpochSupervisor
    → PipelineEpochSupervisor × PipelineEpochResult × Option PipelineEpochRegistration
unfolding enrol
register_participant id s =
    if id == 0
    then (s, result invalid_argument false, none)
    else if not (is_running s.state || is_building s.state || is_ready s.state)
    then (s, result invalid_state false, none)
    else enrol id s (scan_from id 0 none s.participants)

-- The checks that the calls on a registration share: its ticket, then its slot.
abbrev pub with_participant :
    PipelineEpochRegistration
    → PipelineEpochSupervisor
    → (ℕ → Participant → PipelineEpochSupervisor × PipelineEpochResult)
    → PipelineEpochSupervisor × PipelineEpochResult
with_participant r s body =
    if ticket_matches s r.ticket
    then elim (find_participant r s.participants) [
      | none ↦ stale_registration_locked s
      | some (i, p) ↦ body i p
    ]
    else stale_epoch_locked s

unfoldable pub unregister_participant :
    PipelineEpochRegistration
    → PipelineEpochSupervisor
    → PipelineEpochSupervisor × PipelineEpochResult
unregister_participant r s =
    with_participant r s
      (λ i p. (record s { participants = set s.participants i vacant }, result ok true))

unfoldable pub report_device_lost :
    PipelineEpochTicket
    → ℕ
    → PipelineEpochSupervisor
    → PipelineEpochSupervisor × PipelineEpochResult
report_device_lost observed reason s =
    if not (ticket_matches s observed)
    then stale_epoch_locked s
    else if is_quiescing s.state
    then (s, result ok false)
    else if not (is_running s.state)
    then (s, result invalid_state false)
    else (
      record s {
        participants = clear_quiesced s.participants;
        state = quiescing;
        first_frame_pending = false;
        last_device_lost_reason = reason;
        recovery_attempts = count_up s.recovery_attempts;
      },
      result ok true,
    )

unfoldable pub acknowledge_quiesced :
    PipelineEpochRegistration
    → PipelineEpochSupervisor
    → PipelineEpochSupervisor × PipelineEpochResult
acknowledge_quiesced r s = with_participant r s λ i p.
    if not (is_quiescing s.state) then (s, result invalid_state false) else (
      record s { participants = set s.participants i (record p { quiesced = true }) },
      result ok (not p.quiesced),
    )

unfoldable pub retire :
    PipelineEpochTicket → PipelineEpochSupervisor → PipelineEpochSupervisor × PipelineEpochResult
retire t s =
    if not (ticket_matches s t)
    then stale_epoch_locked s
    else if not (is_quiescing s.state)
    then (s, result invalid_state false)
    else if not (pending_quiesce s.participants == 0)
    then (s, result pending_acknowledgements false)
    else (record s { state = retired; participants = clear_all s.participants }, result ok true)

-- `none` when the search for a nonce has not ended within the fuel.
unfoldable pub begin_build :
    (ℕ → NonceReading)
    → ℕ
    → PipelineEpochTicket
    → PipelineEpochSupervisor
    → Option (PipelineEpochSupervisor × PipelineEpochResult × Option PipelineEpochTicket)
begin_build readings fuel t s =
    if not (ticket_matches s t)
    then some (count_stale s, result stale_epoch false, none)
    else if not (is_retired s.state)
    then some (s, result invalid_state false, none)
    else if s.ticket.epoch == u64_max
    then some (s, result epoch_exhausted false, none)
    else elim (make_unique_nonce readings fuel s.ticket.nonce s.participants) [
      | none ↦ none
      | some nonce ↦
          let fresh : PipelineEpochTicket = record { epoch = s.ticket.epoch + 1; nonce = nonce } in
          some (
            record s {
              ticket = fresh;
              next_registration_nonce = 1;
              state = building;
              first_frame_pending = false;
            },
            result ok true,
            some fresh,
          )
    ]

unfoldable pub abandon_build :
    PipelineEpochTicket → PipelineEpochSupervisor → PipelineEpochSupervisor × PipelineEpochResult
abandon_build t s =
    if not (ticket_matches s t)
    then stale_epoch_locked s
    else if not (is_building s.state || is_ready s.state)
    then (s, result invalid_state false)
    else (
      record s {
        participants = clear_all s.participants;
        state = retired;
        first_frame_pending = false;
      },
      result ok true,
    )

unfoldable pub acknowledge_ready :
    PipelineEpochRegistration
    → PipelineEpochSupervisor
    → PipelineEpochSupervisor × PipelineEpochResult
acknowledge_ready r s = with_participant r s λ i p.
    if not (is_building s.state || is_ready s.state) then (s, result invalid_state false) else (
      record s { participants = set s.participants i (record p { ready = true }) },
      result ok (not p.ready),
    )

unfoldable pub mark_ready :
    PipelineEpochTicket → PipelineEpochSupervisor → PipelineEpochSupervisor × PipelineEpochResult
mark_ready t s =
    if not (ticket_matches s t)
    then stale_epoch_locked s
    else if not (is_building s.state)
    then (s, result invalid_state false)
    else (record s { state = ready }, result ok true)

unfoldable pub resume :
    PipelineEpochTicket → PipelineEpochSupervisor → PipelineEpochSupervisor × PipelineEpochResult
resume t s =
    if not (ticket_matches s t)
    then stale_epoch_locked s
    else if not (is_ready s.state)
    then (s, result invalid_state false)
    else if not (pending_ready s.participants == 0)
    then (s, result pending_acknowledgements false)
    else (
      record s {
        state = running;
        first_frame_pending = true;
        recovery_successes = count_up s.recovery_successes;
      },
      result ok true,
    )

-- The one call that changes nothing, not even the count of stale calls.
unfoldable pub frame_contract :
    PipelineEpochTicket
    → PipelineEpochSupervisor
    → PipelineEpochResult × Option PipelineEpochFrameContract
frame_contract t s =
    if not (ticket_matches s t)
    then (result stale_epoch false, none)
    else if not (is_running s.state)
    then (result invalid_state false, none)
    else (
      result ok false,
      some (record {
        ticket = s.ticket;
        discontinuity = s.first_frame_pending;
        force_keyframe = s.first_frame_pending;
      }),
    )

unfoldable pub acknowledge_frame_published :
    PipelineEpochTicket → PipelineEpochSupervisor → PipelineEpochSupervisor × PipelineEpochResult
acknowledge_frame_published t s =
    if not (ticket_matches s t)
    then stale_epoch_locked s
    else if not (is_running s.state)
    then (s, result invalid_state false)
    else (record s { first_frame_pending = false }, result ok s.first_frame_pending)

unfoldable pub snapshot : PipelineEpochSupervisor → PipelineEpochSnapshot
snapshot s = record {
  state = s.state;
  ticket = s.ticket;
  registered_participants = participant_count s.participants;
  pending_quiesce_acknowledgements =
      if is_quiescing s.state then pending_quiesce s.participants else 0;
  pending_ready_acknowledgements =
      if is_building s.state || is_ready s.state then pending_ready s.participants else 0;
  recovery_attempts = s.recovery_attempts;
  recovery_successes = s.recovery_successes;
  stale_acknowledgements = s.stale_acknowledgements;
  last_device_lost_reason = s.last_device_lost_reason;
  first_frame_pending = s.first_frame_pending;
}
