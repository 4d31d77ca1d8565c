-- ===== src/Epoch/Lifecycle.antt =====
-- The states a supervisor goes through:
-- RUNNING -> QUIESCING -> RETIRED -> BUILDING -> READY -> RUNNING.
use fluxcap.Prelude.{
  ℕ, ◌+◌, ◌<◌, ◌≡◌, ◌≢◌, refl, false, true, Option, none, some, List, ◌⊎◌, inl, inr, arith,
  Option-cases, All,
}
use fluxcap.Epoch.Types.{
  PipelineEpochTicket, PipelineEpochRegistration, PipelineEpochSupervisor, PipelineEpochResult,
  running, quiescing, retired, building, ready,
}
use fluxcap.Epoch.Nonce.{NonceReading, make_unique_nonce}
use fluxcap.Epoch.Fresh.{make_unique_nonce-live}
use fluxcap.Epoch.Participants.{scan_from, Scan, slot, duplicate}
use fluxcap.Epoch.Slots.{
  Inactive, Quiesced, Ready, clear_all-Inactive, pending_quiesce-Quiesced, pending_ready-Ready,
}
use fluxcap.Epoch.Supervisor.{
  enrol, register_participant, unregister_participant, report_device_lost, acknowledge_quiesced,
  retire, begin_build, abandon_build, acknowledge_ready, mark_ready, resume,
  acknowledge_frame_published,
}
use fluxcap.Epoch.Invariant.{with_participant_cases}
use fluxcap.Epoch.History.{Call, step, run, step_cases, run_induction}

-- Only a build begins with a new ticket, whose epoch is the next one.
pub data Transition (s t : PipelineEpochSupervisor) : Type 0 where
  stays : t.state ≡ s.state → t.ticket ≡ s.ticket → Transition s t
  loses_device :
      s.state ≡ running
      → t.state ≡ quiescing
      → t.ticket ≡ s.ticket
      → t.first_frame_pending ≡ false
      → Transition s t
  retires :
      s.state ≡ quiescing
      → t.state ≡ retired
      → t.ticket ≡ s.ticket
      → All Quiesced s.participants
      → All Inactive t.participants
      → Transition s t
  builds :
      s.state ≡ retired
      → t.state ≡ building
      → t.ticket.epoch ≡ s.ticket.epoch + 1
      → (t.ticket.nonce ≢ s.ticket.nonce) × (t.ticket.nonce ≢ 0)
      → Transition s t
  becomes_ready : s.state ≡ building → t.state ≡ ready → t.ticket ≡ s.ticket → Transition s t
  abandons :
      (s.state ≡ building) ⊎ (s.state ≡ ready)
      → t.state ≡ retired
      → t.ticket ≡ s.ticket
      → All Inactive t.participants
      → Transition s t
  resumes :
      s.state ≡ ready
      → t.state ≡ running
      → t.ticket ≡ s.ticket
      → All Ready s.participants
      → t.first_frame_pending ≡ true
      → Transition s t

enrol-Transition : (id : ℕ) (s : PipelineEpochSupervisor) (k : Scan) → Transition s (enrol id s k).0
unfolding enrol
enrol-Transition id s duplicate = stays refl refl
enrol-Transition id s (slot none) = stays refl refl
enrol-Transition id s (slot (some i)) = stays (ground arith) (ground arith)

register_participant-Transition :
    (id : ℕ) (s : PipelineEpochSupervisor) → Transition s (register_participant id s).0
unfolding register_participant
register_participant-Transition id s =
    ground (arith, enrol-Transition id s (scan_from id 0 none s.participants))

retire-Transition :
    (t : PipelineEpochTicket) (s : PipelineEpochSupervisor) → Transition s (retire t s).0
unfolding retire
retire-Transition t s = grind (arith, stays, retires, pending_quiesce-Quiesced, clear_all-Inactive)

unregister_participant-Transition :
    (r : PipelineEpochRegistration) (s : PipelineEpochSupervisor)
    → Transition s (unregister_participant r s).0
unfolding unregister_participant
unregister_participant-Transition r s =
    with_participant_cases (Transition s) r s _ (stays refl refl) (λ i p e. stays refl refl)

acknowledge_quiesced-Transition :
    (r : PipelineEpochRegistration) (s : PipelineEpochSupervisor)
    → Transition s (acknowledge_quiesced r s).0
unfolding acknowledge_quiesced
acknowledge_quiesced-Transition r s =
    with_participant_cases (Transition s) r s _ (stays refl refl)
      (λ i p e. stays (ground arith) (ground arith))

acknowledge_ready-Transition :
    (r : PipelineEpochRegistration) (s : PipelineEpochSupervisor)
    → Transition s (acknowledge_ready r s).0
unfolding acknowledge_ready
acknowledge_ready-Transition r s =
    with_participant_cases (Transition s) r s _ (stays refl refl)
      (λ i p e. stays (ground arith) (ground arith))

report_device_lost-Transition :
    (t : PipelineEpochTicket) (reason : ℕ) (s : PipelineEpochSupervisor)
    → Transition s (report_device_lost t reason s).0
unfolding report_device_lost
report_device_lost-Transition t reason s = grind (arith, stays, loses_device)

abandon_build-Transition :
    (t : PipelineEpochTicket) (s : PipelineEpochSupervisor) → Transition s (abandon_build t s).0
unfolding abandon_build
abandon_build-Transition t s = grind (arith, stays, abandons, clear_all-Inactive)

mark_ready-Transition :
    (t : PipelineEpochTicket) (s : PipelineEpochSupervisor) → Transition s (mark_ready t s).0
unfolding mark_ready
mark_ready-Transition t s = grind (arith, stays, becomes_ready)

resume-Transition :
    (t : PipelineEpochTicket) (s : PipelineEpochSupervisor) → Transition s (resume t s).0
unfolding resume
resume-Transition t s = grind (arith, stays, resumes, pending_ready-Ready)

acknowledge_frame_published-Transition :
    (t : PipelineEpochTicket) (s : PipelineEpochSupervisor)
    → Transition s (acknowledge_frame_published t s).0
unfolding acknowledge_frame_published
acknowledge_frame_published-Transition t s = stays (ground arith) (ground arith)

begin_build-Transition :
    (readings : ℕ → NonceReading) (fuel : ℕ) (t : PipelineEpochTicket) (s : PipelineEpochSupervisor)
    (out : PipelineEpochSupervisor × PipelineEpochResult × Option PipelineEpochTicket)
    → begin_build readings fuel t s ≡ some out
    → Transition s out.0
unfolding begin_build
begin_build-Transition readings fuel t s out e =
    let search = make_unique_nonce readings fuel s.ticket.nonce s.participants in
    elim (Option-cases search) [
      | inl endless ↦ stays (ground (arith, endless)) (ground (arith, endless))
      | inr (nonce, found) ↦
          let live =
            make_unique_nonce-live readings fuel s.ticket.nonce s.participants nonce found in
          grind (arith, found, live, stays, builds)
    ]

-- Every call moves the supervisor along the cycle, abandons a build or leaves the state alone. It
-- retires only when every participant has quiesced, resumes only when every participant is ready
-- and then demands a first frame, and the ticket changes only when a build begins: to the next
-- epoch, with a nonce that is neither 0 nor the one before.
pub step-Transition :
    (c : Call) (s t : PipelineEpochSupervisor) → step c s ≡ some t → Transition s t
step-Transition =
    step_cases Transition register_participant-Transition
      (λ r s. (
        unregister_participant-Transition r s,
        acknowledge_quiesced-Transition r s,
        acknowledge_ready-Transition r s,
      ))
      report_device_lost-Transition
      (λ t s. (
        retire-Transition t s,
        abandon_build-Transition t s,
        mark_ready-Transition t s,
        resume-Transition t s,
        acknowledge_frame_published-Transition t s,
      ))
      begin_build-Transition

-- How the ticket has moved on.
abbrev pub Later : PipelineEpochTicket → PipelineEpochTicket → Type 0
Later a b = (b ≡ a) ⊎ (a.epoch < b.epoch)

Transition-Later :
    {s t : PipelineEpochSupervisor} (a : PipelineEpochTicket)
    → Transition s t
    → Later a s.ticket
    → Later a t.ticket
Transition-Later a (stays _ k) l = ground arith
Transition-Later a (loses_device _ _ k _) l = ground arith
Transition-Later a (retires _ _ k _ _) l = ground arith
Transition-Later a (builds _ _ k _) l = ground arith
Transition-Later a (becomes_ready _ _ k) l = ground arith
Transition-Later a (abandons _ _ k _) l = ground arith
Transition-Later a (resumes _ _ k _ _) l = ground arith

-- Over any history the epoch never goes back, and the ticket is the same while the epoch is.
pub run-Later :
    (cs : List Call) (s t : PipelineEpochSupervisor) → run cs s ≡ some t → Later s.ticket t.ticket
run-Later cs s t =
    run_induction (λ u. Later s.ticket u.ticket)
      (λ c u w l e. Transition-Later s.ticket (step-Transition c u w e) l) cs s t (inl refl)
