-- ===== src/Epoch/Replay.antt =====
-- Messages that come late: a ticket of an epoch that is over, and the registration of a
-- participant that has gone.
use fluxcap.Prelude.{
  ℕ, ◌<◌, ◌≡◌, ◌≢◌, subst, false, none, some, List, inl, inr, arith, Option-cases, Bool-cases,
  All-get, set,
}
use fluxcap.Epoch.Types.{
  PipelineEpochTicket, PipelineEpochRegistration, PipelineEpochSupervisor, PipelineEpochResult,
  vacant, stale_epoch, ok,
}
use fluxcap.Epoch.Nonce.{NonceReading}
use fluxcap.Epoch.Participants.{find_participant}
use fluxcap.Epoch.Slots.{find_participant-get}
use fluxcap.Epoch.Supervisor.{
  unregister_participant, report_device_lost, acknowledge_quiesced, retire, begin_build,
  abandon_build, acknowledge_ready, mark_ready, resume, frame_contract, acknowledge_frame_published,
  ticket_matches, count_stale, result,
}
use fluxcap.Epoch.Invariant.{IsValid, unregister_participant-IsValid, IsFresh}
use fluxcap.Epoch.History.{Call, run, run_induction, step-IsValid}
use fluxcap.Epoch.Lifecycle.{run-Later}
use fluxcap.Epoch.Gone.{old_ticket-mismatch, Absent, Gone, Gone-rejected, step-Gone, vacated-Absent}

-- Once the epoch of a ticket is over, no later history makes it valid again. Every call that carries
-- the ticket, itself or in a registration, is answered with a stale epoch and does nothing but count
-- a stale call; `begin_build` gives no new ticket, and `frame_contract`, which only reads, no contract.
pub run-rejects_old_ticket :
    (cs : List Call) (s t : PipelineEpochSupervisor) (k : PipelineEpochTicket) (reason : ℕ)
    (readings : ℕ → NonceReading) (fuel id nonce : ℕ)
    → k.epoch < s.ticket.epoch
    → run cs s ≡ some t
    → let r : PipelineEpochRegistration = record {
      ticket = k;
      participant_id = id;
      registration_nonce = nonce;
    } in
      let refused : PipelineEpochSupervisor × PipelineEpochResult =
        (count_stale t, result stale_epoch false) in
      (report_device_lost k reason t ≡ refused)
      × (retire k t ≡ refused)
      × (begin_build readings fuel k t ≡ some (count_stale t, result stale_epoch false, none))
      × (abandon_build k t ≡ refused)
      × (mark_ready k t ≡ refused)
      × (resume k t ≡ refused)
      × (acknowledge_frame_published k t ≡ refused)
      × (acknowledge_quiesced r t ≡ refused)
      × (acknowledge_ready r t ≡ refused)
      × (unregister_participant r t ≡ refused)
      × (frame_contract k t ≡ (result stale_epoch false, none))
unfolding report_device_lost retire begin_build abandon_build mark_ready resume
    acknowledge_frame_published acknowledge_quiesced acknowledge_ready unregister_participant
    frame_contract
run-rejects_old_ticket cs s t k reason readings fuel id nonce h e =
    let moved = run-Later cs s t e in
    let off : ticket_matches t k ≡ false = old_ticket-mismatch k t (ground arith) in
    (rw off, rw off, rw off, rw off, rw off, rw off, rw off, rw off, rw off, rw off, rw off)

unregister_participant-leaves :
    (r : PipelineEpochRegistration) (s : PipelineEpochSupervisor)
    → IsValid s
    → (unregister_participant r s).1.status ≡ ok
    → Gone r (unregister_participant r s).0
unfolding unregister_participant
unregister_participant-leaves r s v e = elim (Option-cases (find_participant r s.participants)) [
  | inl missing ↦ absurd (ground (arith, missing))
  | inr (x, found) ↦
      let (held, is_it) = find_participant-get r s.participants x.0 x.1 found in
      let empty = vacated-Absent s.participants x.0 x.1 held (ground (arith, is_it)) v.unique in
      let drawn = All-get (IsFresh _ _) s.participants x.0 v.fresh held in
      elim (Bool-cases (ticket_matches s r.ticket)) [
        | inr off ↦ absurd (ground (arith, off))
        | inl on ↦
            rw (on, found)
              (inr (
                ground (arith, on),
                subst (λ n. Absent n (set s.participants x.0 vacant)) {y = r.registration_nonce}
                    (ground (arith, is_it)) empty,
                λ n. ground (arith, drawn, is_it),
              ))
      ]
]

-- After a participant has unregistered, its old registration is refused for ever, also when its
-- identity registers again in the same epoch: whatever calls follow, an acknowledgement or a
-- second unregistration that carries it fails, and only counts a stale call.
pub unregister-refuses_replay :
    (r : PipelineEpochRegistration) (s t : PipelineEpochSupervisor) (cs : List Call)
    → IsValid s
    → (unregister_participant r s).1.status ≡ ok
    → run cs (unregister_participant r s).0 ≡ some t
    → ((acknowledge_quiesced r t).0 ≡ count_stale t)
      × ((acknowledge_quiesced r t).1.status ≢ ok)
      × ((acknowledge_ready r t).0 ≡ count_stale t)
      × ((acknowledge_ready r t).1.status ≢ ok)
      × ((unregister_participant r t).0 ≡ count_stale t)
      × ((unregister_participant r t).1.status ≢ ok)
unfolding acknowledge_quiesced acknowledge_ready unregister_participant
unregister-refuses_replay r s t cs v e h =
    let gone : IsValid t × Gone r t =
      run_induction (λ u. IsValid u × Gone r u)
        (λ c u w (x, g) k. (step-IsValid c u w k x, step-Gone r c u w k x g)) cs _ t
        (unregister_participant-IsValid r s v, unregister_participant-leaves r s v e) h in
    let quiesced = Gone-rejected r t _ gone.1 in
    let is_ready' = Gone-rejected r t _ gone.1 in
    let left = Gone-rejected r t _ gone.1 in
    (quiesced.0, quiesced.1, is_ready'.0, is_ready'.1, left.0, left.1)
