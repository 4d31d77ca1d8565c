-- ===== src/Epoch/Slots.antt =====
-- What the searches over the participants find, and what the writes to them keep.
use fluxcap.Prelude.{
  ℕ, zero, suc, ◌+◌, ◌≡◌, ◌≢◌, refl, sym, false, true, Option, none, some, List, [], ◌∷◌, inl, inr,
  ◌∙◌, map, ◌==◌, ◌&&◌, All-tabulate, length-map, All, All-imp, All-set, All-map, Bool-cases,
  length, get_elem?, set, arith,
}
use fluxcap.Epoch.Types.{Participant, PipelineEpochRegistration, vacant}
use fluxcap.Epoch.Participants.{
  slot, is_participant, find_from, find_participant, pending_quiesce, pending_ready, scan_from,
  reset_quiesced, clear_quiesced, clear_all,
}

-- Two active slots differ in the identity and in the nonce.
abbrev pub Apart : Participant → Participant → Type 0
Apart p q =
    p.active ≡ true
    → q.active ≡ true
    → (p.participant_id ≢ q.participant_id) × (p.registration_nonce ≢ q.registration_nonce)

abbrev pub Unique : List Participant → Type 0
Unique [] = Unit {0}
Unique (p ∷ ps) = All (Apart p) ps × Unique ps

abbrev pub Inactive : Participant → Type 0
Inactive p = p.active ≡ false

abbrev pub Ready : Participant → Type 0
Ready p = p.active ≡ true → p.ready ≡ true

abbrev pub Quiesced : Participant → Type 0
Quiesced p = p.active ≡ true → p.quiesced ≡ true

Apart-sym : (p q : Participant) → Apart p q → Apart q p
Apart-sym p q h a b = let d = h b a in ((λ e. d.0 (sym e)), (λ e. d.1 (sym e)))

pub Unique-set :
    (ps : List Participant) (i : ℕ) (v : Participant)
    → All (Apart v) ps
    → Unique ps
    → Unique (set ps i v)
Unique-set [] i v a u = tt
Unique-set (p ∷ ps) zero v a u = (a.1, u.1)
Unique-set (p ∷ ps) (suc i) v a u =
    (All-set (Apart p) ps i v (Apart-sym v p a.0) u.0, Unique-set ps i v a.1 u.1)

-- The same slot with other flags.
abbrev pub SameKey : Participant → Participant → Type 0
SameKey p q =
    (p.active ≡ q.active)
    × (p.participant_id ≡ q.participant_id)
    × (p.registration_nonce ≡ q.registration_nonce)

Apart-SameKey : (p q x : Participant) → SameKey p q → Apart p x → Apart q x
Apart-SameKey p q x (a, i, n) h b c =
    let d = h (a ∙ b) c in ((λ e. d.0 (i ∙ e)), (λ e. d.1 (n ∙ e)))

All-Apart-set :
    (x : Participant) (ps : List Participant) (i : ℕ) {p : Participant} (q : Participant)
    → get_elem? ps i ≡ some p
    → SameKey p q
    → All (Apart x) ps
    → All (Apart x) (set ps i q)
All-Apart-set x [] i q e k a = tt
All-Apart-set x (y ∷ ps) zero q e k a = (ground (arith, a.0), a.1)
All-Apart-set x (y ∷ ps) (suc i) q e k a = (a.0, All-Apart-set x ps i q e k a.1)

pub Unique-set_same :
    (ps : List Participant) (i : ℕ) {p : Participant} (q : Participant)
    → get_elem? ps i ≡ some p
    → SameKey p q
    → Unique ps
    → Unique (set ps i q)
Unique-set_same [] i q e k u = tt
Unique-set_same (y ∷ ps) zero {p} q e k u =
    (All-imp (Apart y) (Apart q) (λ x h. Apart-SameKey y q x (ground arith) h) ps u.0, u.1)
Unique-set_same (y ∷ ps) (suc i) q e k u =
    (All-Apart-set y ps i q e k u.0, Unique-set_same ps i q e k u.1)

pub Unique-map :
    (f : Participant → Participant)
    → ((p : Participant) → SameKey p (f p))
    → (ps : List Participant) → Unique ps
    → Unique (map f ps)
Unique-map f k [] u = tt
Unique-map f k (p ∷ ps) u = (
  All-map (Apart p) (Apart (f p)) f
      (λ x h.
        Apart-sym (f x) (f p)
          (Apart-SameKey x (f x) (f p) (k x) (Apart-sym (f p) x (Apart-SameKey p (f p) x (k p) h))))
      ps u.0,
  Unique-map f k ps u.1,
)

pub Inactive-Unique : (ps : List Participant) → All Inactive ps → Unique ps
Inactive-Unique [] a = tt
Inactive-Unique (p ∷ ps) a = (All-tabulate (Apart p) (λ x b c. cc) ps, Inactive-Unique ps a.1)

pub clear_all-Inactive : (ps : List Participant) → All Inactive (clear_all ps)
unfolding clear_all
clear_all-Inactive [] = tt
clear_all-Inactive (p ∷ ps) = (refl, clear_all-Inactive ps)

-- A search ends at an active slot that holds the registration.
find_from-get :
    (r : PipelineEpochRegistration) (k : ℕ) (ps : List Participant) (i : ℕ) (p : Participant)
    → find_from r k ps ≡ some (i, p)
    → (j : ℕ) × (i ≡ k + j) × (get_elem? ps j ≡ some p) × (is_participant r p ≡ true)
unfolding find_from
find_from-get r k [] i p e = cc
find_from-get r k (x ∷ ps) i p e = elim (Bool-cases (is_participant r x)) [
  | inl hit ↦ (0, ground (arith, hit), ground (arith, hit), ground (arith, hit))
  | inr miss ↦
      let (j, d, g, h) = find_from-get r (k + 1) ps i p (rw miss at e) in (suc j, omega arith, g, h)
]

pub find_participant-get :
    (r : PipelineEpochRegistration) (ps : List Participant) (i : ℕ) (p : Participant)
    → find_participant r ps ≡ some (i, p)
    → (get_elem? ps i ≡ some p) × (is_participant r p ≡ true)
unfolding find_participant
find_participant-get r ps i p e =
    let (j, d, g, h) = find_from-get r 0 ps i p e in let d' : i ≡ j = omega arith in (rw d' g, h)

-- A scan that ends at a slot has met no active slot of the identity, and the slot is free.
pub scan_from-slot :
    (id k : ℕ) (free : Option ℕ) (ps : List Participant) (found : Option ℕ)
    → scan_from id k free ps ≡ slot found
    → All (λ p. p.active ≡ true → p.participant_id ≢ id) ps
unfolding scan_from
scan_from-slot id k free [] found e = tt
scan_from-slot id k free (x ∷ ps) found e = elim (Bool-cases (x.active && x.participant_id == id)) [
  | inl taken ↦ absurd (ground (arith, taken))
  | inr other ↦ (λ a. ground arith, scan_from-slot id (k + 1) _ ps found (rw other at e))
]

-- Once a free slot is known, it is the one that is found.
scan_from-known :
    (id k f : ℕ) (ps : List Participant) (found : Option ℕ)
    → scan_from id k (some f) ps ≡ slot found
    → found ≡ some f
unfolding scan_from
scan_from-known id k f [] found e = cc
scan_from-known id k f (x ∷ ps) found e = elim (Bool-cases (x.active && x.participant_id == id)) [
  | inl taken ↦ absurd (ground (arith, taken))
  | inr other ↦ scan_from-known id (k + 1) f ps found (rw other at e)
]

-- The slot found is the first free one.
pub scan_from-free :
    (id k : ℕ) (ps : List Participant) (i : ℕ)
    → scan_from id k none ps ≡ slot (some i)
    → (j : ℕ) × (p : Participant) × (i ≡ k + j) × (get_elem? ps j ≡ some p) × Inactive p
unfolding scan_from
scan_from-free id k [] i e = cc
scan_from-free id k (x ∷ ps) i e = elim (Bool-cases x.active) [
  | inl busy ↦ elim (Bool-cases (x.participant_id == id)) [
    | inl taken ↦ absurd (ground (arith, busy, taken))
    | inr other ↦
        let (j, p, d, g, h) = scan_from-free id (k + 1) ps i (rw (busy, other) at e) in
        (suc j, p, omega arith, g, h)
  ]
  | inr idle ↦ (
    0,
    x,
    ground (arith, idle, scan_from-known id (k + 1) k ps (some i) (rw idle at e)),
    refl,
    idle,
  )
]

-- Without a free slot every slot is active.
pub scan_from-full :
    (id k : ℕ) (ps : List Participant)
    → scan_from id k none ps ≡ slot none
    → All (λ p. p.active ≡ true) ps
unfolding scan_from
scan_from-full id k [] e = tt
scan_from-full id k (x ∷ ps) e = elim (Bool-cases x.active) [
  | inl busy ↦ elim (Bool-cases (x.participant_id == id)) [
    | inl taken ↦ absurd (ground (arith, busy, taken))
    | inr other ↦ (busy, scan_from-full id (k + 1) ps (rw (busy, other) at e))
  ]
  | inr idle ↦ absurd (ground (arith, idle, scan_from-known id (k + 1) k ps none (rw idle at e)))
]

pub All-clear_all :
    (P : Participant → Type 0) → P vacant → (ps : List Participant) → All P (clear_all ps)
unfolding clear_all
All-clear_all P h [] = tt
All-clear_all P h (p ∷ ps) = (h, All-clear_all P h ps)

pub length-clear_all : (ps : List Participant) → length (clear_all ps) ≡ length ps
unfolding clear_all
length-clear_all ps = length-map _ ps

pub length-clear_quiesced : (ps : List Participant) → length (clear_quiesced ps) ≡ length ps
unfolding clear_quiesced
length-clear_quiesced ps = length-map _ ps

pub pending_ready-Ready : (ps : List Participant) → pending_ready ps ≡ 0 → All Ready ps
unfolding pending_ready
pending_ready-Ready [] e = tt
pending_ready-Ready (p ∷ ps) e = (λ a. ground arith, pending_ready-Ready ps (ground arith))

pub Ready-pending_ready : (ps : List Participant) → All Ready ps → pending_ready ps ≡ 0
unfolding pending_ready
Ready-pending_ready [] a = refl
Ready-pending_ready (p ∷ ps) a = ground (arith, a.0, Ready-pending_ready ps a.1)

pub pending_quiesce-Quiesced : (ps : List Participant) → pending_quiesce ps ≡ 0 → All Quiesced ps
unfolding pending_quiesce
pending_quiesce-Quiesced [] e = tt
pending_quiesce-Quiesced (p ∷ ps) e =
    (λ a. ground arith, pending_quiesce-Quiesced ps (ground arith))

pub Quiesced-pending_quiesce : (ps : List Participant) → All Quiesced ps → pending_quiesce ps ≡ 0
unfolding pending_quiesce
Quiesced-pending_quiesce [] a = refl
Quiesced-pending_quiesce (p ∷ ps) a = ground (arith, a.0, Quiesced-pending_quiesce ps a.1)

pub clear_quiesced-Unique : (ps : List Participant) → Unique ps → Unique (clear_quiesced ps)
unfolding clear_quiesced
clear_quiesced-Unique ps u = Unique-map reset_quiesced (λ p. ground arith) ps u

pub clear_quiesced-All :
    (P : Participant → Type 0)
    → ((p : Participant) → P p → P (reset_quiesced p))
    → (ps : List Participant) → All P ps
    → All P (clear_quiesced ps)
unfolding clear_quiesced
clear_quiesced-All P h ps a = All-map P P reset_quiesced h ps a
