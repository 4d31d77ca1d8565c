-- ===== src/Epoch/Enrolment.antt =====
-- The calls that draw a nonce keep the invariant: the constructor, `register_participant` and
-- `begin_build`.
use fluxcap.Prelude.{
  ℕ, ◌+◌, ◌≤◌, ◌≡◌, ◌≢◌, refl, false, true, Option, none, some, inl, inr, All, All-imp, All-zip,
  All-set, All-replicate, ◌∙◌, Bool-cases, Option-cases, length-set, length-replicate, set,
  replicate, arith, ◌==◌, u64_max,
}
use fluxcap.Epoch.Types.{
  PipelineEpochTicket, PipelineEpochResult, PipelineEpochSupervisor, Participant, vacant, quiescing,
  retired, building, max_participants, is_running,
}
use fluxcap.Epoch.Nonce.{NonceReading, make_unique_nonce, make_registration_nonce}
use fluxcap.Epoch.Participants.{scan_from, slot, Scan, duplicate}
use fluxcap.Epoch.Slots.{Apart, Inactive, Ready, Unique-set, Inactive-Unique, scan_from-slot}
use fluxcap.Epoch.Supervisor.{construct, register_participant, enrol, begin_build}
use fluxcap.Epoch.Invariant.{IsValid, IsFresh, Serving, count_stale-IsValid}
use fluxcap.Epoch.Fresh.{make_registration_nonce-fresh, make_unique_nonce-live}

-- A slot is taken by a new participant under a nonce that no other holds.
enrolled-IsValid :
    (s : PipelineEpochSupervisor) (i next : ℕ) (entry : Participant)
    → IsValid s
    → next ≤ u64_max
    → All (Apart entry) s.participants
    → All (IsFresh s.ticket.nonce next) s.participants
    → IsFresh s.ticket.nonce next entry
    → s.state ≢ retired
    → (Serving s.state → Ready entry)
    → IsValid
        (record s { next_registration_nonce = next; participants = set s.participants i entry })
enrolled-IsValid s i next entry v range apart fresh new live now_ready = record {
  slots = length-set s.participants i entry ∙ v.slots;
  epoch_live = v.epoch_live;
  epoch_range = v.epoch_range;
  nonce_live = v.nonce_live;
  next_range = range;
  unique = Unique-set s.participants i entry apart v.unique;
  fresh = All-set _ s.participants i entry new fresh;
  retired_empty = λ e. absurd (live e);
  serving_ready = λ e. All-set Ready s.participants i entry (now_ready e) (v.serving_ready e);
  frame_running = v.frame_running;
  successes_bounded = v.successes_bounded;
  attempts_range = v.attempts_range;
  attempt_open = v.attempt_open;
}

counted-IsValid :
    (s : PipelineEpochSupervisor) (next : ℕ)
    → IsValid s
    → next ≤ u64_max
    → All (IsFresh s.ticket.nonce next) s.participants
    → IsValid (record s { next_registration_nonce = next })
counted-IsValid s next v range fresh = assumption

enrol-IsValid :
    (id : ℕ) (s : PipelineEpochSupervisor) (scan : Scan)
    → IsValid s
    → scan_from id 0 none s.participants ≡ scan
    → s.state ≢ retired
    → s.state ≢ quiescing
    → IsValid (enrol id s scan).0
unfolding enrol
enrol-IsValid id s duplicate v e n q = v
enrol-IsValid id s (slot none) v e n q = v
enrol-IsValid id s (slot (some i)) v e n q =
    let current = s.ticket.nonce in
    let next = s.next_registration_nonce in
    let drawn = make_registration_nonce-fresh current next v.next_range in
    let (nonce, after) = make_registration_nonce current next in
    let entry : Participant = record {
      participant_id = id;
      registration_nonce = nonce;
      active = true;
      quiesced = is_running s.state;
      ready = is_running s.state;
    } in
    let passed : All (IsFresh current after) s.participants =
      All-imp (IsFresh current next) (IsFresh current after) (λ p f a. ground (arith, f a, drawn))
        s.participants v.fresh in
    elim (Bool-cases (nonce == 0)) [
      | inl spent ↦ rw spent (counted-IsValid s after v drawn.0 passed)
      | inr live ↦ rw live (
          enrolled-IsValid s i after entry v drawn.0
            (All-imp (λ p. IsFresh current next p × (p.active ≡ true → p.participant_id ≢ id))
              (Apart entry) (λ p f a b. ground (arith, f.0 b, f.1 b, drawn)) s.participants
              (All-zip _ _ s.participants v.fresh
                (scan_from-slot id 0 none s.participants (some i) e)))
            passed (λ a. ground (arith, drawn)) n (λ x a. ground arith))
    ]

pub register_participant-IsValid :
    (id : ℕ) (s : PipelineEpochSupervisor) → IsValid s → IsValid (register_participant id s).0
unfolding register_participant
register_participant-IsValid id s v =
    ground (arith, enrol-IsValid id s (scan_from id 0 none s.participants) v refl)

pub construct-IsValid :
    (epoch nonce : ℕ) (reading : NonceReading)
    → epoch ≤ u64_max
    → IsValid (construct epoch nonce reading)
unfolding construct
construct-IsValid epoch nonce reading h = record {
  slots = length-replicate max_participants vacant;
  epoch_live = ground arith;
  epoch_range = ground arith;
  nonce_live = ground arith;
  next_range = omega arith;
  unique =
      Inactive-Unique (replicate max_participants vacant)
        (All-replicate Inactive max_participants {v = vacant} refl);
  fresh = All-replicate (IsFresh _ 1) max_participants {v = vacant} (λ a. cc);
  retired_empty = λ e. cc;
  serving_ready = λ e. All-replicate Ready max_participants {v = vacant} (λ a. cc);
  frame_running = λ e. cc;
  successes_bounded = omega arith;
  attempts_range = omega arith;
  attempt_open = λ n. absurd (n refl);
}

begun-IsValid :
    (s : PipelineEpochSupervisor) (nonce : ℕ)
    → IsValid s
    → s.state ≡ retired
    → s.ticket.epoch ≢ u64_max
    → nonce ≢ 0
    → IsValid (record s {
      ticket = record { epoch = s.ticket.epoch + 1; nonce = nonce };
      next_registration_nonce = 1;
      state = building;
      first_frame_pending = false;
    })
begun-IsValid s nonce v r n live = record {
  slots = v.slots;
  epoch_live = omega arith;
  epoch_range = omega arith;
  nonce_live = omega arith;
  next_range = omega arith;
  unique = v.unique;
  fresh = All-imp Inactive (IsFresh nonce 1) (λ p idle a. cc) s.participants (v.retired_empty r);
  retired_empty = λ e. cc;
  serving_ready = λ e. All-imp Inactive Ready (λ p idle a. cc) s.participants (v.retired_empty r);
  frame_running = λ e. cc;
  successes_bounded = v.successes_bounded;
  attempts_range = v.attempts_range;
  attempt_open = λ e. v.attempt_open (λ x. cc);
}

pub begin_build-IsValid :
    (readings : ℕ → NonceReading) (fuel : ℕ) (t : PipelineEpochTicket) (s : PipelineEpochSupervisor)
    {out : PipelineEpochSupervisor × PipelineEpochResult × Option PipelineEpochTicket}
    → IsValid s
    → begin_build readings fuel t s ≡ some out
    → IsValid out.0
unfolding begin_build
begin_build-IsValid readings fuel t s {out} v e =
    let current = s.ticket.nonce in
    elim (Option-cases (make_unique_nonce readings fuel current s.participants)) [
      | inl endless ↦ ground (arith, endless, count_stale-IsValid s v)
      | inr (nonce, found) ↦ ground (
        arith,
        found,
        count_stale-IsValid s v,
        begun-IsValid s nonce v,
        make_unique_nonce-live readings fuel current s.participants nonce found,
      )
    ]
