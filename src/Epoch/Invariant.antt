-- ===== src/Epoch/Invariant.antt =====
-- What holds of a supervisor between two calls, and every call keeps.
use fluxcap.Prelude.{
  ℕ, ◌≤◌, ◌<◌, ◌≡◌, ◌≢◌, refl, false, true, some, List, ◌⊎◌, inl, inr, All, All-set, All-get, ◌∙◌,
  sym, All-tabulate, Bool-cases, Option-cases, length, length-set, get_elem?, set, arith, u64_max,
}
use fluxcap.Epoch.Types.{
  PipelineEpochState, PipelineEpochTicket, PipelineEpochRegistration, PipelineEpochResult,
  PipelineEpochSupervisor, Participant, vacant, running, quiescing, retired, max_participants,
}
use fluxcap.Epoch.Participants.{find_participant, clear_all, clear_quiesced}
use fluxcap.Epoch.Slots.{
  clear_quiesced-Unique, clear_quiesced-All, Unique, Inactive, Ready, Unique-set, Unique-set_same,
  Inactive-Unique, clear_all-Inactive, SameKey, find_participant-get, All-clear_all,
  length-clear_all, length-clear_quiesced, pending_ready-Ready,
}
use fluxcap.Epoch.Supervisor.{
  count_stale, count_up, ticket_matches, with_participant, unregister_participant,
  report_device_lost, acknowledge_quiesced, retire, abandon_build, acknowledge_ready, mark_ready,
  resume, acknowledge_frame_published,
}

-- An active slot's nonce was drawn in this epoch: the counter has passed it, or has wrapped to 0.
abbrev pub IsFresh : ℕ → ℕ → Participant → Type 0
IsFresh current next p =
    p.active ≡ true
    → (0 < p.registration_nonce)
      × (p.registration_nonce ≢ current)
      × (next ≢ 0 → p.registration_nonce < next)

abbrev pub Serving : PipelineEpochState → Type 0
Serving st = (st ≡ running) ⊎ (st ≡ quiescing)

pub record IsValid (s : PipelineEpochSupervisor) : Type 0 where
  pub slots : length s.participants ≡ max_participants
  pub epoch_live : 0 < s.ticket.epoch
  pub epoch_range : s.ticket.epoch ≤ u64_max
  pub nonce_live : 0 < s.ticket.nonce
  pub next_range : s.next_registration_nonce ≤ u64_max
  pub unique : Unique s.participants
  pub fresh : All (IsFresh s.ticket.nonce s.next_registration_nonce) s.participants
  pub retired_empty : s.state ≡ retired → All Inactive s.participants
  pub serving_ready : Serving s.state → All Ready s.participants
  pub frame_running : s.first_frame_pending ≡ true → s.state ≡ running
  pub successes_bounded : s.recovery_successes ≤ s.recovery_attempts
  pub attempts_range : s.recovery_attempts ≤ u64_max
  pub attempt_open :
      s.state ≢ running
      → (s.recovery_successes < s.recovery_attempts) ⊎ (s.recovery_attempts ≡ u64_max)

-- The cases of a call on a registration.
pub with_participant_cases {ℓ} :
    (P : PipelineEpochSupervisor → Type ℓ) (r : PipelineEpochRegistration)
    (s : PipelineEpochSupervisor)
    (body : ℕ → Participant → PipelineEpochSupervisor × PipelineEpochResult)
    → P (count_stale s)
    → ((i : ℕ) (p : Participant) → find_participant r s.participants ≡ some (i, p) → P (body i p).0)
    → P (with_participant r s body).0
with_participant_cases P r s body stale found = elim (Bool-cases (ticket_matches s r.ticket)) [
  | inr off ↦ rw off stale
  | inl on ↦ elim (Option-cases (find_participant r s.participants)) [
    | inl e ↦ rw (on, e) stale
    | inr (x, e) ↦ rw (on, e) (found x.0 x.1 e)
  ]
]

pub count_stale-IsValid : (s : PipelineEpochSupervisor) → IsValid s → IsValid (count_stale s)
count_stale-IsValid s v = assumption

-- New participants are all that is to be checked where nothing else changes.
participants-IsValid :
    (s : PipelineEpochSupervisor) (ps : List Participant)
    → IsValid s
    → length ps ≡ max_participants
    → Unique ps
    → All (IsFresh s.ticket.nonce s.next_registration_nonce) ps
    → (s.state ≡ retired → All Inactive ps)
    → (Serving s.state → All Ready ps)
    → IsValid (record s { participants = ps })
participants-IsValid s ps v l u f e r = assumption

-- A slot gets other flags.
reflag-IsValid :
    (s : PipelineEpochSupervisor) (i : ℕ) (p q : Participant)
    → IsValid s
    → get_elem? s.participants i ≡ some p
    → SameKey p q
    → (Ready p → Ready q)
    → IsValid (record s { participants = set s.participants i q })
reflag-IsValid s i p q v g k r =
    participants-IsValid s _ v (length-set s.participants i q ∙ v.slots)
      (Unique-set_same s.participants i q g k v.unique)
      (All-set _ s.participants i q
        (IsFresh-SameKey p q k (All-get (IsFresh _ _) s.participants i v.fresh g)) v.fresh)
      (λ e.
        All-set Inactive s.participants i q
          (sym k.0 ∙ All-get Inactive s.participants i (v.retired_empty e) g) (v.retired_empty e))
      (λ e.
        All-set Ready s.participants i q (r (All-get Ready s.participants i (v.serving_ready e) g))
          (v.serving_ready e))
  where
    IsFresh-SameKey :
        (p q : Participant)
        → SameKey p q
        → IsFresh s.ticket.nonce s.next_registration_nonce p
        → IsFresh s.ticket.nonce s.next_registration_nonce q
    IsFresh-SameKey p q k f a = ground (arith, f)

pub unregister_participant-IsValid :
    (r : PipelineEpochRegistration) (s : PipelineEpochSupervisor)
    → IsValid s
    → IsValid (unregister_participant r s).0
unfolding unregister_participant
unregister_participant-IsValid r s v =
    with_participant_cases IsValid r s _ (count_stale-IsValid s v) λ i p e.
      participants-IsValid s _ v (length-set s.participants i vacant ∙ v.slots)
        (Unique-set s.participants i vacant (All-tabulate _ (λ x a. cc) s.participants) v.unique)
        (All-set _ s.participants i vacant (λ a. cc) v.fresh)
        (λ e. All-set _ s.participants i vacant refl (v.retired_empty e))
        (λ e. All-set _ s.participants i vacant (λ a. cc) (v.serving_ready e))

-- Every slot is vacated, and the supervisor is retired.
cleared-IsValid :
    (s : PipelineEpochSupervisor)
    → IsValid s
    → s.state ≢ running
    → IsValid (record s {
      state = retired;
      participants = clear_all s.participants;
      first_frame_pending = false;
    })
cleared-IsValid s v n = ground (
  arith,
  length-clear_all s.participants,
  Inactive-Unique _ (clear_all-Inactive s.participants),
  All-clear_all (IsFresh s.ticket.nonce s.next_registration_nonce) (λ a. cc) s.participants,
  clear_all-Inactive s.participants,
  All-clear_all Ready (λ a. cc) s.participants,
)

lost-IsValid :
    (s : PipelineEpochSupervisor) (reason : ℕ)
    → IsValid s
    → s.state ≡ running
    → IsValid (record s {
      participants = clear_quiesced s.participants;
      state = quiescing;
      first_frame_pending = false;
      last_device_lost_reason = reason;
      recovery_attempts = count_up s.recovery_attempts;
    })
lost-IsValid s reason v e = record {
  slots = length-clear_quiesced s.participants ∙ v.slots;
  epoch_live = v.epoch_live;
  epoch_range = v.epoch_range;
  nonce_live = v.nonce_live;
  next_range = v.next_range;
  unique = clear_quiesced-Unique s.participants v.unique;
  fresh = clear_quiesced-All _ (λ p f a. ground (arith, f)) s.participants v.fresh;
  retired_empty = λ x. cc;
  serving_ready = λ x.
      clear_quiesced-All Ready (λ p r a. ground (arith, r)) s.participants
        (v.serving_ready (inl e));
  frame_running = λ x. cc;
  successes_bounded = ground arith;
  attempts_range = ground arith;
  attempt_open = λ x. ground arith;
}

pub report_device_lost-IsValid :
    (t : PipelineEpochTicket) (reason : ℕ) (s : PipelineEpochSupervisor)
    → IsValid s
    → IsValid (report_device_lost t reason s).0
unfolding report_device_lost
report_device_lost-IsValid t reason s v = ground (arith, lost-IsValid s reason v)

pub acknowledge_quiesced-IsValid :
    (r : PipelineEpochRegistration) (s : PipelineEpochSupervisor)
    → IsValid s
    → IsValid (acknowledge_quiesced r s).0
unfolding acknowledge_quiesced
acknowledge_quiesced-IsValid r s v =
    with_participant_cases IsValid r s _ (count_stale-IsValid s v) λ i p e. ground (
      arith,
      reflag-IsValid s i p (record p { quiesced = true }) v (find_participant-get r _ i p e).0
          (refl, refl, refl) (λ h. h),
    )

pub acknowledge_ready-IsValid :
    (r : PipelineEpochRegistration) (s : PipelineEpochSupervisor)
    → IsValid s
    → IsValid (acknowledge_ready r s).0
unfolding acknowledge_ready
acknowledge_ready-IsValid r s v =
    with_participant_cases IsValid r s _ (count_stale-IsValid s v) λ i p e. ground (
      arith,
      reflag-IsValid s i p (record p { ready = true }) v (find_participant-get r _ i p e).0
          (refl, refl, refl) (λ h a. refl),
    )

pub retire-IsValid :
    (t : PipelineEpochTicket) (s : PipelineEpochSupervisor) → IsValid s → IsValid (retire t s).0
unfolding retire
retire-IsValid t s v = ground (arith, cleared-IsValid s v)

pub abandon_build-IsValid :
    (t : PipelineEpochTicket) (s : PipelineEpochSupervisor)
    → IsValid s
    → IsValid (abandon_build t s).0
unfolding abandon_build
abandon_build-IsValid t s v = ground (arith, cleared-IsValid s v)

pub mark_ready-IsValid :
    (t : PipelineEpochTicket) (s : PipelineEpochSupervisor) → IsValid s → IsValid (mark_ready t s).0
unfolding mark_ready
mark_ready-IsValid t s v = ground arith

pub resume-IsValid :
    (t : PipelineEpochTicket) (s : PipelineEpochSupervisor) → IsValid s → IsValid (resume t s).0
unfolding resume
resume-IsValid t s v = ground (arith, pending_ready-Ready s.participants)

pub acknowledge_frame_published-IsValid :
    (t : PipelineEpochTicket) (s : PipelineEpochSupervisor)
    → IsValid s
    → IsValid (acknowledge_frame_published t s).0
unfolding acknowledge_frame_published
acknowledge_frame_published-IsValid t s v = ground arith
