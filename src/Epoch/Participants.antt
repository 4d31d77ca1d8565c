-- ===== src/Epoch/Participants.antt =====
-- The searches and counts over `participants_` in src/gpu/pipeline_epoch_supervisor.cpp. A
-- pointer into the array is the index of its slot.
use fluxcap.Prelude.{
  ℕ, suc, ◌+◌, Bool, false, not, ◌&&◌, Option, none, some, List, [], ◌∷◌, map, ◌==◌, if◌then◌else◌,
}
use fluxcap.Epoch.Types.{Participant, PipelineEpochRegistration, vacant}

abbrev pub is_participant : PipelineEpochRegistration → Participant → Bool
is_participant r p =
    p.active && p.participant_id == r.participant_id && p.registration_nonce == r.registration_nonce

-- The first active slot that holds the registration, from slot `i` on, with its content.
unfoldable pub find_from :
    PipelineEpochRegistration → ℕ → List Participant → Option (ℕ × Participant)
find_from r i [] = none
find_from r i (p ∷ ps) = if is_participant r p then some (i, p) else find_from r (i + 1) ps

unfoldable pub find_participant :
    PipelineEpochRegistration → List Participant → Option (ℕ × Participant)
find_participant r ps = find_from r 0 ps

unfoldable pub pending_quiesce : List Participant → ℕ
pending_quiesce [] = 0
pending_quiesce (p ∷ ps) =
    let rest = pending_quiesce ps in if p.active && not p.quiesced then suc rest else rest

unfoldable pub pending_ready : List Participant → ℕ
pending_ready [] = 0
pending_ready (p ∷ ps) =
    let rest = pending_ready ps in if p.active && not p.ready then suc rest else rest

unfoldable pub participant_count : List Participant → ℕ
participant_count [] = 0
participant_count (p ∷ ps) = let rest = participant_count ps in if p.active then suc rest else rest

-- What the loop of `register_participant` finds: the identity taken, or the first free slot.
pub data Scan : Type 0 where
  duplicate : Scan
  slot : Option ℕ → Scan

abbrev pub first_free : Option ℕ → ℕ → Participant → Option ℕ
first_free (some k) i p = some k
first_free none i p = if p.active then none else some i

unfoldable pub scan_from : ℕ → ℕ → Option ℕ → List Participant → Scan
scan_from id i free [] = slot free
scan_from id i free (p ∷ ps) =
    if p.active && p.participant_id == id
    then duplicate
    else scan_from id (i + 1) (first_free free i p) ps

-- `for (p : participants_) if (p.active) p.quiesced = false;`
abbrev pub reset_quiesced : Participant → Participant
reset_quiesced p = if p.active then record p { quiesced = false } else p

unfoldable pub clear_quiesced : List Participant → List Participant
clear_quiesced = map reset_quiesced

-- `for (p : participants_) p = {};`
unfoldable pub clear_all : List Participant → List Participant
clear_all = map (λ p. vacant)
