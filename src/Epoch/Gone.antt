-- ===== src/Epoch/Gone.antt =====
-- When a registration can never be accepted again, and that every call keeps it so.
use fluxcap.Prelude.{
  ℕ, zero, suc, ◌+◌, ◌<◌, ◌≡◌, ◌≢◌, refl, sym, subst, false, true, Option, none, some, List, [],
  ◌∷◌, ◌⊎◌, inl, inr, arith, ◌||◌, Option-cases, Bool-cases, ◌∙◌, All, All-set, All-get, All-imp,
  get_elem?, set, ◌==◌, some_inj,
}
use fluxcap.Epoch.Types.{
  PipelineEpochTicket, PipelineEpochRegistration, PipelineEpochSupervisor, PipelineEpochResult,
  Participant, vacant, ok, is_running, is_quiescing, is_building, is_ready,
}
use fluxcap.Epoch.Nonce.{NonceReading, make_unique_nonce, make_registration_nonce}
use fluxcap.Epoch.Fresh.{make_registration_nonce-fresh}
use fluxcap.Epoch.Participants.{
  find_from, find_participant, scan_from, Scan, slot, duplicate, clear_all, clear_quiesced,
}
use fluxcap.Epoch.Slots.{Unique, Apart, All-clear_all, clear_quiesced-All, find_participant-get}
use fluxcap.Epoch.Supervisor.{
  enrol, register_participant, unregister_participant, report_device_lost, acknowledge_quiesced,
  retire, begin_build, abandon_build, acknowledge_ready, mark_ready, resume,
  acknowledge_frame_published, ticket_matches, count_stale, with_participant,
}
use fluxcap.Epoch.Invariant.{IsValid, with_participant_cases}
use fluxcap.Epoch.History.{Call, step, step_cases}

pub old_ticket-mismatch :
    (k : PipelineEpochTicket) (s : PipelineEpochSupervisor)
    → k.epoch < s.ticket.epoch
    → ticket_matches s k ≡ false
old_ticket-mismatch k s h = ground arith

-- No active slot holds the nonce.
abbrev pub Absent : ℕ → List Participant → Type 0
Absent nonce = All (λ p. p.active ≡ true → p.registration_nonce ≢ nonce)

-- A registration that can never be accepted again: its epoch is over, or its nonce is used up.
abbrev pub Gone : PipelineEpochRegistration → PipelineEpochSupervisor → Type 0
Gone r s =
    (r.ticket.epoch < s.ticket.epoch)
    ⊎ ((r.ticket ≡ s.ticket)
        × Absent r.registration_nonce s.participants
        × (s.next_registration_nonce ≢ 0 → r.registration_nonce < s.next_registration_nonce))

Apart-Absent :
    (p : Participant) (ps : List Participant)
    → p.active ≡ true
    → All (Apart p) ps
    → Absent p.registration_nonce ps
Apart-Absent p ps a h = All-imp (Apart p) _ (λ q d b e. (d a b).1 (sym e)) ps h

pub vacated-Absent :
    (ps : List Participant) (i : ℕ) (p : Participant)
    → get_elem? ps i ≡ some p
    → p.active ≡ true
    → Unique ps
    → Absent p.registration_nonce (set ps i vacant)
vacated-Absent [] i p g a u = tt
vacated-Absent (q ∷ ps) zero p g a u =
    ((λ b. cc), Apart-Absent p ps a (subst (λ x. All (Apart x) ps) (some_inj g) u.0))
vacated-Absent (q ∷ ps) (suc i) p g a u =
    ((λ b. (All-get (Apart q) ps i u.0 g b a).1), vacated-Absent ps i p g a u.1)

Absent-find :
    (r : PipelineEpochRegistration) (k : ℕ) (ps : List Participant)
    → Absent r.registration_nonce ps
    → find_from r k ps ≡ none
unfolding find_from
Absent-find r k [] h = refl
Absent-find r k (p ∷ ps) h = ground (arith, h.0, Absent-find r (k + 1) ps h.1)

pub Gone-rejected :
    (r : PipelineEpochRegistration) (s : PipelineEpochSupervisor)
    (body : ℕ → Participant → PipelineEpochSupervisor × PipelineEpochResult)
    → Gone r s
    → ((with_participant r s body).0 ≡ count_stale s) × ((with_participant r s body).1.status ≢ ok)
unfolding find_participant
Gone-rejected r s body (inl over) = rw (old_ticket-mismatch r.ticket s over) (refl, λ e. cc)
Gone-rejected r s body (inr (same, absent, _)) =
    let missing = Absent-find r 0 s.participants absent in
    elim (Bool-cases (ticket_matches s r.ticket)) [
      | inl on ↦ rw (on, missing) (refl, λ e. cc)
      | inr off ↦ rw off (refl, λ e. cc)
    ]

-- What a call has to keep for that.
abbrev Keeps :
    PipelineEpochRegistration → PipelineEpochSupervisor → PipelineEpochSupervisor → Type 0
Keeps r s t = IsValid s → Gone r s → Gone r t

-- The part of `Gone` that a call may touch.
rewritten-Gone :
    (r : PipelineEpochRegistration) (s t : PipelineEpochSupervisor)
    → t.ticket ≡ s.ticket
    → t.next_registration_nonce ≡ s.next_registration_nonce
    → (Absent r.registration_nonce s.participants → Absent r.registration_nonce t.participants)
    → Keeps r s t
rewritten-Gone r s t k n a v (inl over) = inl (ground arith)
rewritten-Gone r s t k n a v (inr (same, absent, spent)) =
    inr (same ∙ sym k, a absent, λ z. ground (arith, spent))

unregister_participant-Gone :
    (r q : PipelineEpochRegistration) (s : PipelineEpochSupervisor)
    → Keeps r s (unregister_participant q s).0
unfolding unregister_participant
unregister_participant-Gone r q s =
    with_participant_cases (Keeps r s) q s _ (λ v g. g)
      λ i p e.
        rewritten-Gone r s (record s { participants = set s.participants i vacant }) refl refl
          (All-set _ s.participants i vacant (λ a. cc))

-- A write to a slot that a search found keeps a nonce absent.
reflagged-Gone :
    (r q : PipelineEpochRegistration) (s : PipelineEpochSupervisor) (i : ℕ) (p p' : Participant)
    → find_participant q s.participants ≡ some (i, p)
    → p'.active ≡ p.active
    → p'.registration_nonce ≡ p.registration_nonce
    → Keeps r s (record s { participants = set s.participants i p' })
reflagged-Gone r q s i p p' e a n =
    rewritten-Gone r s (record s { participants = set s.participants i p' }) refl refl
      λ absent.
        All-set _ s.participants i p'
          (λ b c.
            All-get _ s.participants i absent (find_participant-get q s.participants i p e).0
              (sym a ∙ b) (sym n ∙ c))
          absent

acknowledge_quiesced-Gone :
    (r q : PipelineEpochRegistration) (s : PipelineEpochSupervisor)
    → Keeps r s (acknowledge_quiesced q s).0
unfolding acknowledge_quiesced
acknowledge_quiesced-Gone r q s =
    with_participant_cases (Keeps r s) q s _ (λ v g. g)
      λ i p e. elim (Bool-cases (is_quiescing s.state)) [
        | inl on ↦ rw on (reflagged-Gone r q s i p (record p { quiesced = true }) e refl refl)
        | inr off ↦ rw off (λ v g. g)
      ]

acknowledge_ready-Gone :
    (r q : PipelineEpochRegistration) (s : PipelineEpochSupervisor)
    → Keeps r s (acknowledge_ready q s).0
unfolding acknowledge_ready
acknowledge_ready-Gone r q s =
    with_participant_cases (Keeps r s) q s _ (λ v g. g)
      λ i p e. elim (Bool-cases (is_building s.state || is_ready s.state)) [
        | inl on ↦ rw on (reflagged-Gone r q s i p (record p { ready = true }) e refl refl)
        | inr off ↦ rw off (λ v g. g)
      ]

enrol-Gone :
    (r : PipelineEpochRegistration) (id : ℕ) (s : PipelineEpochSupervisor) (k : Scan)
    → Keeps r s (enrol id s k).0
unfolding enrol
enrol-Gone r id s duplicate v g = g
enrol-Gone r id s (slot none) v g = g
enrol-Gone r id s (slot (some i)) v (inl over) = inl (ground arith)
enrol-Gone r id s (slot (some i)) v (inr (same, absent, spent)) =
    let current = s.ticket.nonce in
    let drawn = make_registration_nonce-fresh current s.next_registration_nonce v.next_range in
    elim (Bool-cases ((make_registration_nonce current s.next_registration_nonce).0 == 0)) [
      | inl out ↦ rw out (inr (same, absent, λ n. ground (arith, drawn)))
      | inr live ↦ rw live (
          inr (
            same,
            All-set _ s.participants i _ (λ a e. ground (arith, drawn, live)) absent,
            λ n. ground (arith, drawn),
          ))
    ]

register_participant-Gone :
    (r : PipelineEpochRegistration) (id : ℕ) (s : PipelineEpochSupervisor)
    → Keeps r s (register_participant id s).0
unfolding register_participant
register_participant-Gone r id s = elim (Bool-cases (id == 0)) [
  | inl unnamed ↦ rw unnamed (λ v g. g)
  | inr named ↦ elim (Bool-cases (is_running s.state || is_building s.state || is_ready s.state)) [
    | inl on ↦ rw (named, on) (enrol-Gone r id s (scan_from id 0 none s.participants))
    | inr off ↦ rw (named, off) (λ v g. g)
  ]
]

-- The slots are left alone or cleared.
cleared-Gone :
    (r : PipelineEpochRegistration) (s t : PipelineEpochSupervisor)
    → t.ticket ≡ s.ticket
    → t.next_registration_nonce ≡ s.next_registration_nonce
    → (t.participants ≡ s.participants) ⊎ (t.participants ≡ clear_all s.participants)
    → Keeps r s t
cleared-Gone r s t k n (inl e) = rewritten-Gone r s t k n (λ a. rw e a)
cleared-Gone r s t k n (inr e) =
    rewritten-Gone r s t k n (λ a. rw e (All-clear_all _ (λ b. cc) s.participants))

marked :
    (t : PipelineEpochTicket) (reason : ℕ) (s : PipelineEpochSupervisor)
    → let u = (report_device_lost t reason s).0 in
      (u.participants ≡ s.participants) ⊎ (u.participants ≡ clear_quiesced s.participants)
unfolding report_device_lost
marked t reason s = ground arith

report_device_lost-Gone :
    (r : PipelineEpochRegistration) (t : PipelineEpochTicket) (reason : ℕ)
    (s : PipelineEpochSupervisor)
    → Keeps r s (report_device_lost t reason s).0
unfolding report_device_lost
report_device_lost-Gone r t reason s =
    rewritten-Gone r s (report_device_lost t reason s).0 (ground arith) (ground arith) λ a.
      elim (marked t reason s) [
        | inl e ↦ rw e a
        | inr e ↦ rw e (clear_quiesced-All _ (λ p f b. ground (arith, f)) s.participants a)
      ]

ticket_calls-Gone :
    (r : PipelineEpochRegistration) (t : PipelineEpochTicket) (s : PipelineEpochSupervisor)
    → Keeps r s (retire t s).0
      × Keeps r s (abandon_build t s).0
      × Keeps r s (mark_ready t s).0
      × Keeps r s (resume t s).0
      × Keeps r s (acknowledge_frame_published t s).0
unfolding retire abandon_build mark_ready resume acknowledge_frame_published
ticket_calls-Gone r t s = (
  cleared-Gone r s (retire t s).0 (ground arith) (ground arith) (ground arith),
  cleared-Gone r s (abandon_build t s).0 (ground arith) (ground arith) (ground arith),
  cleared-Gone r s (mark_ready t s).0 (ground arith) (ground arith) (ground arith),
  cleared-Gone r s (resume t s).0 (ground arith) (ground arith) (ground arith),
  cleared-Gone r s (acknowledge_frame_published t s).0 (ground arith) (ground arith) (ground arith),
)

begin_build-Gone :
    (r : PipelineEpochRegistration) (readings : ℕ → NonceReading) (fuel : ℕ)
    (t : PipelineEpochTicket) (s : PipelineEpochSupervisor)
    (out : PipelineEpochSupervisor × PipelineEpochResult × Option PipelineEpochTicket)
    → begin_build readings fuel t s ≡ some out
    → Keeps r s out.0
unfolding begin_build
begin_build-Gone r readings fuel t s out e v g =
    elim (Option-cases (make_unique_nonce readings fuel s.ticket.nonce s.participants)) [
      | inl endless ↦ kept g (ground (arith, endless))
      | inr (nonce, found) ↦ ground (arith, found, g)
    ]
  where
    kept :
        Gone r s
        → (out.0.ticket ≡ s.ticket)
          × (out.0.next_registration_nonce ≡ s.next_registration_nonce)
          × (out.0.participants ≡ s.participants)
        → Gone r out.0
    kept g (k, n, p) = rewritten-Gone r s out.0 k n (λ a. rw p a) v g

pub step-Gone :
    (r : PipelineEpochRegistration) (c : Call) (s t : PipelineEpochSupervisor)
    → step c s ≡ some t
    → Keeps r s t
step-Gone r =
    step_cases (Keeps r) (register_participant-Gone r)
      (λ q s. (
        unregister_participant-Gone r q s,
        acknowledge_quiesced-Gone r q s,
        acknowledge_ready-Gone r q s,
      ))
      (report_device_lost-Gone r) (ticket_calls-Gone r) (begin_build-Gone r)
