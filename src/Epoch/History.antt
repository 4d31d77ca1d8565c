-- ===== src/Epoch/History.antt =====
-- Histories of calls on one supervisor. The mutex makes each call one step, whatever thread it
-- comes from.
use fluxcap.Prelude.{
  ℕ, ◌≤◌, ◌≡◌, refl, Option, none, some, List, [], ◌∷◌, inl, inr, arith, u64_max, Option-cases,
  subst, some_inj,
}
use fluxcap.Epoch.Types.{
  PipelineEpochTicket, PipelineEpochRegistration, PipelineEpochSupervisor, PipelineEpochResult,
}
use fluxcap.Epoch.Nonce.{NonceReading}
use fluxcap.Epoch.Supervisor.{
  construct, register_participant, unregister_participant, report_device_lost, acknowledge_quiesced,
  retire, begin_build, abandon_build, acknowledge_ready, mark_ready, resume,
  acknowledge_frame_published,
}
use fluxcap.Epoch.Invariant.{
  IsValid, unregister_participant-IsValid, report_device_lost-IsValid, acknowledge_quiesced-IsValid,
  acknowledge_ready-IsValid, retire-IsValid, abandon_build-IsValid, mark_ready-IsValid,
  resume-IsValid, acknowledge_frame_published-IsValid,
}
use fluxcap.Epoch.Enrolment.{register_participant-IsValid, construct-IsValid, begin_build-IsValid}

pub data Call : Type 0 where
  registers : ℕ → Call
  unregisters quiesces readies : PipelineEpochRegistration → Call
  loses : PipelineEpochTicket → ℕ → Call
  retires abandons marks resumes publishes : PipelineEpochTicket → Call
  builds : (ℕ → NonceReading) → ℕ → PipelineEpochTicket → Call

abbrev pub built :
    Option (PipelineEpochSupervisor × PipelineEpochResult × Option PipelineEpochTicket)
    → Option PipelineEpochSupervisor
built none = none
built (some out) = some out.0

-- The state after a call; `none` for a `begin_build` whose search for a nonce has not ended.
unfoldable pub step : Call → PipelineEpochSupervisor → Option PipelineEpochSupervisor
step (registers id) s = some (register_participant id s).0
step (unregisters r) s = some (unregister_participant r s).0
step (quiesces r) s = some (acknowledge_quiesced r s).0
step (readies r) s = some (acknowledge_ready r s).0
step (loses t reason) s = some (report_device_lost t reason s).0
step (retires t) s = some (retire t s).0
step (abandons t) s = some (abandon_build t s).0
step (marks t) s = some (mark_ready t s).0
step (resumes t) s = some (resume t s).0
step (publishes t) s = some (acknowledge_frame_published t s).0
step (builds readings fuel t) s = built (begin_build readings fuel t s)

abbrev pub and_then :
    Option PipelineEpochSupervisor
    → (PipelineEpochSupervisor → Option PipelineEpochSupervisor)
    → Option PipelineEpochSupervisor
and_then none f = none
and_then (some s) f = f s

unfoldable pub run : List Call → PipelineEpochSupervisor → Option PipelineEpochSupervisor
run [] s = some s
run (c ∷ cs) s = and_then (step c s) (run cs)

-- A property that every call keeps holds after every history.
pub run_induction {ℓ} :
    (P : PipelineEpochSupervisor → Type ℓ)
    → ((c : Call) (s t : PipelineEpochSupervisor) → P s → step c s ≡ some t → P t)
    → (cs : List Call) (s t : PipelineEpochSupervisor) → P s
    → run cs s ≡ some t
    → P t
unfolding run
run_induction P keep [] s t h e = subst P (some_inj e) h
run_induction P keep (c ∷ cs) s t h e = elim (Option-cases (step c s)) [
  | inl stuck ↦ absurd (ground (arith, stuck))
  | inr (u, went) ↦ run_induction P keep cs u t (keep c s u h went) (rw went at e)
]

built-some :
    (o : Option (PipelineEpochSupervisor × PipelineEpochResult × Option PipelineEpochTicket))
    (t : PipelineEpochSupervisor)
    → built o ≡ some t
    → (out : PipelineEpochSupervisor × PipelineEpochResult × Option PipelineEpochTicket) × (o
        ≡ some out)
      × (out.0 ≡ t)
built-some none t e = cc
built-some (some out) t e = (out, refl, some_inj e)

-- A property of the state after each call is one of every step.
pub step_cases {ℓ} :
    (P : PipelineEpochSupervisor → PipelineEpochSupervisor → Type ℓ)
    → ((id : ℕ) (s : PipelineEpochSupervisor) → P s (register_participant id s).0)
    → ((r : PipelineEpochRegistration) (s : PipelineEpochSupervisor)
        → P s (unregister_participant r s).0
          × P s (acknowledge_quiesced r s).0
          × P s (acknowledge_ready r s).0)
    → ((t : PipelineEpochTicket) (reason : ℕ) (s : PipelineEpochSupervisor)
        → P s (report_device_lost t reason s).0)
    → ((t : PipelineEpochTicket) (s : PipelineEpochSupervisor)
        → P s (retire t s).0
          × P s (abandon_build t s).0
          × P s (mark_ready t s).0
          × P s (resume t s).0
          × P s (acknowledge_frame_published t s).0)
    → ((readings : ℕ → NonceReading) (fuel : ℕ) (t : PipelineEpochTicket)
          (s : PipelineEpochSupervisor)
          (out : PipelineEpochSupervisor × PipelineEpochResult × Option PipelineEpochTicket)
        → begin_build readings fuel t s ≡ some out
        → P s out.0)
    → (c : Call) (s t : PipelineEpochSupervisor) → step c s ≡ some t
    → P s t
unfolding step
step_cases P reg par lost tic beg (registers id) s t e = subst (P s) (some_inj e) (reg id s)
step_cases P reg par lost tic beg (unregisters r) s t e = subst (P s) (some_inj e) (par r s).0
step_cases P reg par lost tic beg (quiesces r) s t e = subst (P s) (some_inj e) (par r s).1
step_cases P reg par lost tic beg (readies r) s t e = subst (P s) (some_inj e) (par r s).2
step_cases P reg par lost tic beg (loses k reason) s t e =
    subst (P s) (some_inj e) (lost k reason s)
step_cases P reg par lost tic beg (retires k) s t e = subst (P s) (some_inj e) (tic k s).0
step_cases P reg par lost tic beg (abandons k) s t e = subst (P s) (some_inj e) (tic k s).1
step_cases P reg par lost tic beg (marks k) s t e = subst (P s) (some_inj e) (tic k s).2
step_cases P reg par lost tic beg (resumes k) s t e = subst (P s) (some_inj e) (tic k s).3
step_cases P reg par lost tic beg (publishes k) s t e = subst (P s) (some_inj e) (tic k s).4
step_cases P reg par lost tic beg (builds readings fuel k) s t e =
    let (out, b, o) = built-some (begin_build readings fuel k s) t e in
    subst (P s) o (beg readings fuel k s out b)

pub step-IsValid :
    (c : Call) (s t : PipelineEpochSupervisor) → step c s ≡ some t → IsValid s → IsValid t
step-IsValid =
    step_cases (λ s t. IsValid s → IsValid t) register_participant-IsValid
      (λ r s. (
        unregister_participant-IsValid r s,
        acknowledge_quiesced-IsValid r s,
        acknowledge_ready-IsValid r s,
      ))
      report_device_lost-IsValid
      (λ t s. (
        retire-IsValid t s,
        abandon_build-IsValid t s,
        mark_ready-IsValid t s,
        resume-IsValid t s,
        acknowledge_frame_published-IsValid t s,
      ))
      (λ readings fuel t s out e v. begin_build-IsValid readings fuel t s {out = out} v e)

-- After any history of calls from the constructor: the 64 slots are there, active participants
-- have different identities and different nonces of the current epoch, nobody is registered in a
-- retired epoch, everybody registered is ready while frames flow, the first-frame flag is raised
-- only while running, and a recovery is counted as a success once at most. The initial epoch is a
-- 64-bit number.
pub run-IsValid :
    (epoch nonce : ℕ) (reading : NonceReading) (cs : List Call) (s : PipelineEpochSupervisor)
    → epoch ≤ u64_max
    → run cs (construct epoch nonce reading) ≡ some s
    → IsValid s
run-IsValid epoch nonce reading cs s h =
    run_induction IsValid (λ c s t v e. step-IsValid c s t e v) cs _ s
      (construct-IsValid epoch nonce reading h)
