-- ===== src/Epoch/Tests.antt =====
-- Runs of the supervisor: a participant registers, the device is lost, the epoch ends, and the
-- next one is built.
use fluxcap.Prelude.{
  ℕ, ◌≡◌, ◌≢◌, ◌↔◌, refl, Bool, true, false, List, [], ◌∷◌, some, none, All, replicate, arith,
}
use fluxcap.Epoch.Types.{
  PipelineEpochTicket, PipelineEpochRegistration, PipelineEpochSupervisor, PipelineEpochResult,
  Participant, vacant, running, quiescing, retired, building, ready, ok, stale_epoch,
}
use fluxcap.Epoch.Nonce.{
  NonceReading, mix_nonce, make_nonce, collides, attempts_from, make_unique_nonce, next_nonce,
  make_registration_nonce,
}
use fluxcap.Epoch.Participants.{
  find_from, find_participant, scan_from, pending_quiesce, pending_ready, clear_all, clear_quiesced,
}
use fluxcap.Epoch.Fresh.{make_unique_nonce-returns}
use fluxcap.Epoch.Slots.{Quiesced, Ready}
use fluxcap.Epoch.Supervisor.{
  construct, enrol, ticket_matches, count_stale, result, register_participant,
  unregister_participant, report_device_lost, acknowledge_quiesced, acknowledge_ready, retire,
  begin_build, mark_ready, resume, abandon_build, acknowledge_frame_published, frame_contract,
}
use fluxcap.Epoch.Invariant.{IsValid}
use fluxcap.Epoch.History.{
  Call, step, run, registers, loses, quiesces, retires, builds, abandons, publishes, run-IsValid,
}
use fluxcap.Epoch.Lifecycle.{Transition, step-Transition, Later, run-Later}
use fluxcap.Epoch.Replay.{run-rejects_old_ticket, unregister-refuses_replay}
use fluxcap.Epoch.Contracts.{
  Placed, retire-resume_gates, register_participant-Placed, first_frame_contract,
}

abbrev quiet : NonceReading
quiet = record { counter = 11; tick_count = 5; process_id = 3; thread_id = 2; sequence = 1 }

abbrev first_ticket : PipelineEpochTicket
first_ticket = record { epoch = 1; nonce = 7 }

abbrev camera : PipelineEpochRegistration
camera = record { ticket = first_ticket; participant_id = 5; registration_nonce = 1 }

abbrev member : Bool → Participant
member quiesced = record {
  participant_id = 5;
  registration_nonce = 1;
  active = true;
  quiesced = quiesced;
  ready = true;
}

abbrev joined : PipelineEpochSupervisor
joined = record {
  state = running;
  ticket = first_ticket;
  participants = member true ∷ replicate 63 vacant;
  recovery_attempts = 0;
  recovery_successes = 0;
  stale_acknowledgements = 0;
  next_registration_nonce = 2;
  last_device_lost_reason = 0;
  first_frame_pending = false;
}

abbrev lost : PipelineEpochSupervisor
lost = record joined {
  state = quiescing;
  participants = member false ∷ replicate 63 vacant;
  recovery_attempts = 1;
  last_device_lost_reason = 9;
}

abbrev acknowledged : PipelineEpochSupervisor
acknowledged = record lost { participants = member true ∷ replicate 63 vacant }

abbrev closed : PipelineEpochSupervisor
closed = record lost { state = retired; participants = replicate 64 vacant }

abbrev rebuilt : PipelineEpochSupervisor
rebuilt = record closed {
  state = building;
  ticket = record { epoch = 2; nonce = make_nonce quiet };
  next_registration_nonce = 1;
}

abbrev closing : List Call
closing = loses first_ticket 9 ∷ quiesces camera ∷ retires first_ticket ∷ []

abbrev rebuilding : List Call
rebuilding = builds (λ i. quiet) 4 first_ticket ∷ []

joined-run : run (registers 5 ∷ []) (construct 1 7 quiet) ≡ some joined
unfolding run step construct register_participant scan_from enrol make_registration_nonce next_nonce
joined-run = refl

joined-IsValid : IsValid joined
joined-IsValid = run-IsValid 1 7 quiet (registers 5 ∷ []) joined (omega arith) joined-run

whole_run : run (registers 5 ∷ closing) (construct 1 7 quiet) ≡ some closed
unfolding run step construct register_participant scan_from enrol make_registration_nonce next_nonce
    report_device_lost clear_quiesced acknowledge_quiesced find_participant find_from retire
    pending_quiesce clear_all
whole_run = refl

run-IsValid_example : IsValid closed
run-IsValid_example = run-IsValid 1 7 quiet (registers 5 ∷ closing) closed (omega arith) whole_run

retire_step : step (retires first_ticket) acknowledged ≡ some closed
unfolding step retire pending_quiesce clear_all
retire_step = refl

step-Transition_example : Transition acknowledged closed
step-Transition_example = step-Transition (retires first_ticket) acknowledged closed retire_step

rebuild_run : run rebuilding closed ≡ some rebuilt
unfolding run step begin_build make_unique_nonce attempts_from make_nonce mix_nonce collides
rebuild_run = refl

run-Later_example : Later first_ticket rebuilt.ticket
run-Later_example = run-Later rebuilding closed rebuilt rebuild_run

abbrev abandoned : PipelineEpochSupervisor
abandoned = record rebuilt { state = retired }

abandon_run : run (abandons rebuilt.ticket ∷ []) rebuilt ≡ some abandoned
unfolding run step abandon_build clear_all make_nonce mix_nonce
abandon_run = refl

abbrev rejected : PipelineEpochSupervisor → PipelineEpochSupervisor × PipelineEpochResult
rejected t = (count_stale t, result stale_epoch false)

run-rejects_old_ticket_example :
    (report_device_lost first_ticket 9 abandoned ≡ rejected abandoned)
    × (retire first_ticket abandoned ≡ rejected abandoned)
    × (begin_build (λ i. quiet) 3 first_ticket abandoned
        ≡ some (count_stale abandoned, result stale_epoch false, none))
    × (abandon_build first_ticket abandoned ≡ rejected abandoned)
    × (mark_ready first_ticket abandoned ≡ rejected abandoned)
    × (resume first_ticket abandoned ≡ rejected abandoned)
    × (acknowledge_frame_published first_ticket abandoned ≡ rejected abandoned)
    × (acknowledge_quiesced camera abandoned ≡ rejected abandoned)
    × (acknowledge_ready camera abandoned ≡ rejected abandoned)
    × (unregister_participant camera abandoned ≡ rejected abandoned)
    × (frame_contract first_ticket abandoned ≡ (result stale_epoch false, none))
run-rejects_old_ticket_example =
    run-rejects_old_ticket (abandons rebuilt.ticket ∷ []) rebuilt abandoned first_ticket 9
      (λ i. quiet) 3 5 1 (omega arith) abandon_run

abbrev rejoined : PipelineEpochSupervisor
rejoined = record joined {
  participants = record (member true) { registration_nonce = 2 } ∷ replicate 63 vacant;
  next_registration_nonce = 3;
}

rejoin_run : run (registers 5 ∷ []) (unregister_participant camera joined).0 ≡ some rejoined
unfolding run step unregister_participant find_participant find_from register_participant scan_from
    enrol make_registration_nonce next_nonce
rejoin_run = refl

left_ok : (unregister_participant camera joined).1.status ≡ ok
unfolding unregister_participant find_participant find_from
left_ok = refl

unregister-refuses_replay_example :
    ((acknowledge_quiesced camera rejoined).0 ≡ count_stale rejoined)
    × ((acknowledge_quiesced camera rejoined).1.status ≢ ok)
    × ((acknowledge_ready camera rejoined).0 ≡ count_stale rejoined)
    × ((acknowledge_ready camera rejoined).1.status ≢ ok)
    × ((unregister_participant camera rejoined).0 ≡ count_stale rejoined)
    × ((unregister_participant camera rejoined).1.status ≢ ok)
unregister-refuses_replay_example =
    unregister-refuses_replay camera joined rejoined (registers 5 ∷ []) joined-IsValid left_ok
      rejoin_run

retire-resume_gates_example :
    (((retire first_ticket acknowledged).1.status ≡ ok) ↔ (
      (ticket_matches acknowledged first_ticket ≡ true)
      × (acknowledged.state ≡ quiescing)
      × All Quiesced acknowledged.participants))
    × (((resume first_ticket acknowledged).1.status ≡ ok) ↔ (
        (ticket_matches acknowledged first_ticket ≡ true)
        × (acknowledged.state ≡ ready)
        × All Ready acknowledged.participants))
retire-resume_gates_example = retire-resume_gates first_ticket acknowledged

abbrev microphone : PipelineEpochRegistration
microphone = record { ticket = first_ticket; participant_id = 6; registration_nonce = 2 }

joins_too : (register_participant 6 joined).2 ≡ some microphone
unfolding register_participant scan_from enrol make_registration_nonce next_nonce
joins_too = refl

register_participant-Placed_example : Placed 6 joined (register_participant 6 joined).0 microphone
register_participant-Placed_example = register_participant-Placed 6 joined microphone joins_too

abbrev waiting : PipelineEpochSupervisor
waiting = record joined { state = ready; recovery_attempts = 1 }

resumes_ok : (resume first_ticket waiting).1.status ≡ ok
unfolding resume pending_ready
resumes_ok = refl

abbrev old_ticket : PipelineEpochTicket
old_ticket = record { epoch = 0; nonce = 3 }

-- An acknowledgement that is late has come.
abbrev asking : PipelineEpochSupervisor
asking = count_stale (resume first_ticket waiting).0

demand_lasts : run (publishes old_ticket ∷ []) (resume first_ticket waiting).0 ≡ some asking
unfolding run step resume acknowledge_frame_published
demand_lasts = refl

demand_runs : (asking.ticket ≡ first_ticket) × (asking.state ≡ running)
unfolding resume pending_ready
demand_runs = (refl, refl)

first_frame_contract_example :
    (frame_contract first_ticket asking ≡ (
      result ok false,
      some (record { ticket = first_ticket; discontinuity = true; force_keyframe = true }),
    ))
    × (frame_contract first_ticket (acknowledge_frame_published first_ticket asking).0 ≡ (
      result ok false,
      some (record { ticket = first_ticket; discontinuity = false; force_keyframe = false }),
    ))
first_frame_contract_example =
    first_frame_contract (publishes old_ticket ∷ []) first_ticket waiting asking resumes_ok
      ((λ e. cc e), tt) demand_lasts demand_runs.0 demand_runs.1

quiet_usable :
    (make_nonce quiet ≢ 0)
    × (make_nonce quiet ≢ 7)
    × (collides (make_nonce quiet) joined.participants ≡ false)
unfolding make_nonce mix_nonce collides
quiet_usable = (ground arith, ground arith, refl)

make_unique_nonce-returns_example :
    (nonce : ℕ) × (make_unique_nonce (λ i. quiet) 0 7 joined.participants ≡ some nonce)
make_unique_nonce-returns_example =
    make_unique_nonce-returns (λ i. quiet) 0 7 joined.participants 0 (omega arith) quiet_usable
