-- ===== src/Epoch/Contracts.antt =====
-- What the single calls promise: when they succeed, and what a success means.
use fluxcap.Prelude.{
  ℕ, ap, subst, some_inj, Option-cases, List, [], ◌∷◌, ◌≡◌, ◌≢◌, ◌↔◌, refl, false, true, ◌||◌, none,
  some, inl, inr, arith, Bool-cases, All, get_elem?, set, ◌==◌,
}
use fluxcap.Epoch.Types.{
  PipelineEpochTicket, PipelineEpochRegistration, PipelineEpochSupervisor, Participant, ok, running,
  quiescing, ready, is_running, is_building, is_ready,
}
use fluxcap.Epoch.Nonce.{make_registration_nonce}
use fluxcap.Epoch.Participants.{scan_from, Scan, slot, duplicate}
use fluxcap.Epoch.Slots.{
  Inactive, Quiesced, Ready, Quiesced-pending_quiesce, pending_quiesce-Quiesced,
  Ready-pending_ready, pending_ready-Ready, scan_from-free, scan_from-slot,
}
use fluxcap.Epoch.Supervisor.{
  enrol, register_participant, unregister_participant, report_device_lost, acknowledge_quiesced,
  retire, begin_build, abandon_build, acknowledge_ready, mark_ready, resume, frame_contract,
  acknowledge_frame_published, ticket_matches, result,
}
use fluxcap.Epoch.History.{
  Call, step, run, registers, unregisters, quiesces, readies, loses, retires, abandons, marks,
  resumes, publishes, builds,
}

-- The two gates of a recovery: `retire` succeeds exactly when the ticket is the current one, the
-- supervisor is quiescing and every active participant has quiesced; `resume` exactly when the
-- ticket is the current one, the supervisor is ready and every active participant is ready.
pub retire-resume_gates :
    (k : PipelineEpochTicket) (s : PipelineEpochSupervisor)
    → (((retire k s).1.status ≡ ok)
        ↔ ((ticket_matches s k ≡ true) × (s.state ≡ quiescing) × All Quiesced s.participants))
      × (((resume k s).1.status ≡ ok)
          ↔ ((ticket_matches s k ≡ true) × (s.state ≡ ready) × All Ready s.participants))
unfolding retire resume
retire-resume_gates k s = (
  (
    λ e. (ground arith, ground arith, pending_quiesce-Quiesced s.participants (ground arith)),
    λ h. ground (arith, Quiesced-pending_quiesce s.participants h.2),
  ),
  (
    λ e. (ground arith, ground arith, pending_ready-Ready s.participants (ground arith)),
    λ h. ground (arith, Ready-pending_ready s.participants h.2),
  ),
)

-- Where a participant is put.
pub record Placed (id : ℕ) (s t : PipelineEpochSupervisor) (r : PipelineEpochRegistration)
    : Type 0 where
  pub index : ℕ
  pub before : Participant
  pub was : get_elem? s.participants index ≡ some before
  pub was_free : Inactive before
  pub unused : All (λ p. p.active ≡ true → p.participant_id ≢ id) s.participants
  pub written :
      t.participants
      ≡ set s.participants index (record {
        participant_id = id;
        registration_nonce = r.registration_nonce;
        active = true;
        quiesced = is_running s.state;
        ready = is_running s.state;
      })
  pub issued : (r.ticket ≡ s.ticket) × (r.participant_id ≡ id) × (r.registration_nonce ≢ 0)

enrol-Placed :
    (id : ℕ) (s : PipelineEpochSupervisor) (k : Scan) (r : PipelineEpochRegistration)
    → scan_from id 0 none s.participants ≡ k
    → (enrol id s k).2 ≡ some r
    → Placed id s (enrol id s k).0 r
unfolding enrol
enrol-Placed id s duplicate r e h = cc
enrol-Placed id s (slot none) r e h = cc
enrol-Placed id s (slot (some i)) r e h =
    let (j, p, d, held, idle) = scan_from-free id 0 s.participants i e in
    let d' : i ≡ j = omega arith in
    elim (Bool-cases ((make_registration_nonce s.ticket.nonce s.next_registration_nonce).0 == 0)) [
      | inl out ↦ absurd (ground (arith, out))
      | inr live ↦ record {
        index = i;
        before = p;
        was = rw d' held;
        was_free = idle;
        unused = scan_from-slot id 0 none s.participants (some i) e;
        written = ground (arith, live);
        issued = ground (arith, live);
      }
    ]

-- A registration that is issued names the current ticket and a nonce, nobody active had the
-- identity, and the participant stands in a slot that was free; the other slots are as before.
pub register_participant-Placed :
    (id : ℕ) (s : PipelineEpochSupervisor) (r : PipelineEpochRegistration)
    → (register_participant id s).2 ≡ some r
    → Placed id s (register_participant id s).0 r
unfolding register_participant
register_participant-Placed id s r = elim (Bool-cases (id == 0)) [
  | inl unnamed ↦ rw unnamed (λ e. cc)
  | inr named ↦ elim (Bool-cases (is_running s.state || is_building s.state || is_ready s.state)) [
    | inl on ↦ rw (named, on) (enrol-Placed id s (scan_from id 0 none s.participants) r refl)
    | inr off ↦ rw (named, off) (λ e. cc)
  ]
]

-- While the ticket is the current one and frames flow, the first frame is still owed.
abbrev pub Owes : PipelineEpochTicket → PipelineEpochSupervisor → Type 0
Owes k s = s.ticket ≡ k → s.state ≡ running → s.first_frame_pending ≡ true

-- Any call but an acknowledgement of a frame under the ticket.
abbrev pub NotShown : PipelineEpochTicket → Call → Type 0
NotShown k c = c ≢ publishes k

enrol-keeps :
    (id : ℕ) (s : PipelineEpochSupervisor) (f : Scan)
    → ((enrol id s f).0.ticket ≡ s.ticket)
      × ((enrol id s f).0.state ≡ s.state)
      × ((enrol id s f).0.first_frame_pending ≡ s.first_frame_pending)
unfolding enrol
enrol-keeps id s duplicate = (refl, refl, refl)
enrol-keeps id s (slot none) = (refl, refl, refl)
enrol-keeps id s (slot (some i)) = (ground arith, ground arith, ground arith)

step-Owes :
    (c : Call) (k : PipelineEpochTicket) (s t : PipelineEpochSupervisor)
    → NotShown k c
    → Owes k s
    → step c s ≡ some t
    → Owes k t
unfolding step register_participant unregister_participant report_device_lost acknowledge_quiesced
    retire begin_build abandon_build acknowledge_ready mark_ready resume acknowledge_frame_published
step-Owes (registers id) k s t other o e same on =
    ground (arith, enrol-keeps id s (scan_from id 0 none s.participants))
step-Owes (unregisters r) k s t other o e same on = ground arith
step-Owes (quiesces r) k s t other o e same on = ground arith
step-Owes (readies r) k s t other o e same on = ground arith
step-Owes (loses l reason) k s t other o e same on = ground arith
step-Owes (retires l) k s t other o e same on = ground arith
step-Owes (abandons l) k s t other o e same on = ground arith
step-Owes (marks l) k s t other o e same on = ground arith
step-Owes (resumes l) k s t other o e same on = ground arith
step-Owes (publishes l) k s t other o e same on = elim (Bool-cases (ticket_matches s l)) [
  | inl matches ↦
      let is : s.ticket ≡ k = ground (arith, matches) in
      let carried : l ≡ k = ground (arith, matches) in absurd (other (ap publishes carried))
  | inr off ↦ ground (arith, off)
]
step-Owes (builds readings fuel l) k s t other o e same on = ground arith

run-Owes :
    (cs : List Call) (k : PipelineEpochTicket) (s t : PipelineEpochSupervisor)
    → All (NotShown k) cs
    → Owes k s
    → run cs s ≡ some t
    → Owes k t
unfolding run
run-Owes [] k s t other o e = subst (Owes k) (some_inj e) o
run-Owes (c ∷ cs) k s t other o e = elim (Option-cases (step c s)) [
  | inl stuck ↦ absurd (ground (arith, stuck))
  | inr (u, went) ↦ run-Owes cs k u t other.1 (step-Owes c k s u other.0 o went) (rw went at e)
]

-- The first frame after a recovery. Behind a successful `resume` under a ticket, whatever the calls
-- that follow, stale acknowledgements included, as long as none acknowledges a frame under that
-- ticket: while it is the current one and frames flow, the frame contract asks for a discontinuity
-- and a keyframe, and the acknowledgement of a frame under the ticket ends the demand.
pub first_frame_contract :
    (cs : List Call) (k : PipelineEpochTicket) (s t : PipelineEpochSupervisor)
    → (resume k s).1.status ≡ ok
    → All (NotShown k) cs
    → run cs (resume k s).0 ≡ some t
    → t.ticket ≡ k
    → t.state ≡ running
    → (frame_contract k t ≡ (
      result ok false,
      some (record { ticket = k; discontinuity = true; force_keyframe = true }),
    ))
      × (frame_contract k (acknowledge_frame_published k t).0 ≡ (
        result ok false,
        some (record { ticket = k; discontinuity = false; force_keyframe = false }),
      ))
unfolding frame_contract resume acknowledge_frame_published
first_frame_contract cs k s t e others went same on =
    let first : Owes k (resume k s).0 = λ _ _. ground arith in
    let owed = run-Owes cs k (resume k s).0 t others first went same on in
    (ground arith, ground arith)
