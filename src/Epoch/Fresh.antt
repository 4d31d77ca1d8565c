-- ===== src/Epoch/Fresh.antt =====
-- The nonces that the two searches of src/gpu/pipeline_epoch_supervisor.cpp end with.
use fluxcap.Prelude.{
  ℕ, zero, suc, ◌+◌, ◌≤◌, ◌<◌, ◌≡◌, ◌≢◌, subst, false, ◌||◌, some, List, inl, inr, Bool-cases,
  arith, ◌==◌, u64, u64_max, if◌then◌else◌,
}
use fluxcap.Epoch.Types.{Participant}
use fluxcap.Epoch.Nonce.{
  NonceReading, mix_nonce, make_nonce, collides, mix_until_fresh, attempts_from, make_unique_nonce,
  make_registration_nonce,
}

-- Two rounds are the whole loop: the function satisfies the loop's own equation.
make_registration_nonce-loop :
    (current next : ℕ)
    → next ≤ u64_max
    → make_registration_nonce current next ≡ (
        if next == 0
        then (0, next)
        else if next == current
        then make_registration_nonce current (u64 (next + 1))
        else (next, u64 (next + 1)))
unfolding make_registration_nonce
make_registration_nonce-loop current next h = ground arith

-- A nonce that is not 0 is new and is not the ticket's; the counter has passed it or has wrapped.
pub make_registration_nonce-fresh :
    (current next : ℕ)
    → next ≤ u64_max
    → let (nonce, after) = make_registration_nonce current next in
      (after ≤ u64_max)
      × (next ≡ 0 → after ≡ 0)
      × (after ≢ 0 → next < after)
      × (nonce ≢ 0 → (nonce ≢ current) × (next ≤ nonce) × (next ≢ 0) × (after ≢ 0 → nonce < after))
unfolding make_registration_nonce
make_registration_nonce-fresh current next h = ground arith

mix_until_fresh-live :
    (fuel current candidate : ℕ) (nonce : ℕ)
    → mix_until_fresh fuel current candidate ≡ some nonce
    → (nonce ≢ 0) × (nonce ≢ current)
unfolding mix_until_fresh
mix_until_fresh-live zero current candidate nonce e = cc
mix_until_fresh-live (suc fuel) current candidate nonce e =
    ground (arith, mix_until_fresh-live fuel current (mix_nonce (u64 (candidate + 1))) nonce)

attempts_from-live :
    (readings : ℕ → NonceReading) (fuel current : ℕ) (ps : List Participant) (n attempt nonce : ℕ)
    → attempts_from readings fuel current ps n attempt ≡ some nonce
    → (nonce ≢ 0) × (nonce ≢ current)
unfolding attempts_from
attempts_from-live readings fuel current ps zero attempt nonce e =
    mix_until_fresh-live fuel current current nonce e
attempts_from-live readings fuel current ps (suc n) attempt nonce e =
    ground (arith, attempts_from-live readings fuel current ps n (attempt + 1) nonce)

-- The nonce of a new epoch is neither 0 nor that of the epoch before.
pub make_unique_nonce-live :
    (readings : ℕ → NonceReading) (fuel current : ℕ) (ps : List Participant) (nonce : ℕ)
    → make_unique_nonce readings fuel current ps ≡ some nonce
    → (nonce ≢ 0) × (nonce ≢ current)
unfolding make_unique_nonce
make_unique_nonce-live readings fuel current ps nonce e =
    attempts_from-live readings fuel current ps 8 0 nonce e

-- A candidate that the loop over the attempts takes.
abbrev pub Usable : ℕ → List Participant → ℕ → Type 0
Usable current ps candidate =
    (candidate ≢ 0) × (candidate ≢ current) × (collides candidate ps ≡ false)

-- `j` is the number of the attempt `k` rounds ahead.
attempts_from-returns :
    (readings : ℕ → NonceReading) (fuel current : ℕ) (ps : List Participant) (n attempt k j : ℕ)
    → attempt + k ≡ j
    → k < n
    → Usable current ps (make_nonce (readings j))
    → (nonce : ℕ) × (attempts_from readings fuel current ps n attempt ≡ some nonce)
unfolding attempts_from
attempts_from-returns readings fuel current ps zero attempt k j d h u = elim h [ ]
attempts_from-returns readings fuel current ps (suc n) attempt zero j d h u =
    let d' : j ≡ attempt = omega arith in
    let u' = subst (λ x. Usable current ps (make_nonce (readings x))) d' u in
    (make_nonce (readings attempt), ground (arith, u'))
attempts_from-returns readings fuel current ps (suc n) attempt (suc k) j d h u =
    let c = make_nonce (readings attempt) in
    elim (Bool-cases (c == 0 || c == current || collides c ps)) [
      | inl again ↦ rw again (
          attempts_from-returns readings fuel current ps n (attempt + 1) k j (omega arith)
            (omega arith) u)
      | inr taken ↦ (c, rw taken)
    ]

-- One usable candidate among the eight readings is enough, whatever the fuel.
pub make_unique_nonce-returns :
    (readings : ℕ → NonceReading) (fuel current : ℕ) (ps : List Participant) (k : ℕ)
    → k < 8
    → Usable current ps (make_nonce (readings k))
    → (nonce : ℕ) × (make_unique_nonce readings fuel current ps ≡ some nonce)
unfolding make_unique_nonce
make_unique_nonce-returns readings fuel current ps k h u =
    attempts_from-returns readings fuel current ps 8 0 k k (omega arith) h u
