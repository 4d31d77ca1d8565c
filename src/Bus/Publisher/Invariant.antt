-- ===== src/Bus/Publisher/Invariant.antt =====
-- What every call of the publisher keeps.
use fluxcap.Prelude.{
  ℕ, ◌<◌, ◌≡◌, ◌≢◌, ◌↔◌, inl, inr, refl, ap, sym, ◌∙◌, subst, Bool, true, false, List, map, get_or,
  get_elem?, if◌then◌else◌, some, u64_max, Bool-cases,
}
use fluxcap.Bus.Control.{Slot}
use fluxcap.Bus.Publisher.{SharedFrameBusPublisherState, SharedFrameBusConfig, no_consumer}
use fluxcap.Bus.Publisher.Sweep.{
  clear_slot, finalize_consumer, close_consumer, finish_if_closed, close_for_removal,
}
use fluxcap.Bus.Publisher.Slots.{
  SlotIsValid, Released, Released-SlotIsValid, clear_slot-Released, get_elem?-map, get_elem?-mapped,
}

-- The slots of a bus that has published `sequence` frames: each is valid, its writer bit says whether
-- it is the one that is being written, and no two of them carry the same frame.
pub record SlotsAreValid (c : SharedFrameBusConfig) (sequence : ℕ) (active : Bool) (writer : ℕ)
    (ss : List Slot) : Type 0 where
  pub each : (i : ℕ) (s : Slot) → get_elem? ss i ≡ some s → SlotIsValid c sequence s
  pub written :
      (i : ℕ) (s : Slot)
      → get_elem? ss i ≡ some s
      → (s.ownership.writer ≡ true) ↔ ((active ≡ true) × (i ≡ writer))
  pub distinct :
      (i j : ℕ) (s t : Slot)
      → get_elem? ss i ≡ some s
      → get_elem? ss j ≡ some t
      → s.sequence ≢ 0
      → s.sequence ≡ t.sequence
      → i ≡ j

abbrev pub IsValid : SharedFrameBusPublisherState → Type 0
IsValid p =
    SlotsAreValid p.config p.sequence p.writer_active p.writer_slot p.slots × (p.sequence < u64_max)

-- A slot that stands for another one: it keeps its number and its mark, and is valid if that was.
abbrev pub StandsFor : SharedFrameBusConfig → ℕ → Slot → Slot → Type 0
StandsFor c sequence s t =
    (SlotIsValid c sequence s → SlotIsValid c sequence t)
    × (t.sequence ≡ s.sequence)
    × (t.ownership.writer ≡ s.ownership.writer)

-- Slots may be changed as long as each stands for the one that was in its place.
pub StandsFor-SlotsAreValid :
    {c : SharedFrameBusConfig} {sequence : ℕ} {active : Bool} {writer : ℕ} (ss ts : List Slot)
    → ((i : ℕ) (t : Slot)
        → get_elem? ts i ≡ some t
        → (s : Slot) × (get_elem? ss i ≡ some s) × StandsFor c sequence s t)
    → SlotsAreValid c sequence active writer ss
    → SlotsAreValid c sequence active writer ts
StandsFor-SlotsAreValid ss ts from v = record {
  each = λ i t e. let (s, at, (valid, _, _)) = from i t e in valid (v.each i s at);
  written = λ i t e.
      let (s, at, (_, _, mark)) = from i t e in
      let w = v.written i s at in (λ h. w.0 (sym mark ∙ h), λ h. mark ∙ w.1 h);
  distinct = λ i j t u e k nonzero equal.
      let (s, at, (_, q, _)) = from i t e in
      let (r, at', (_, q', _)) = from j u k in
      v.distinct i j s r at at' (λ z. nonzero (q ∙ z)) (sym q ∙ equal ∙ q');
}

pub Released-StandsFor :
    (c : SharedFrameBusConfig) (sequence : ℕ) (s t : Slot) → Released s t → StandsFor c sequence s t
Released-StandsFor c q s t r =
    (Released-SlotIsValid c q s t r, ap (λ (x : Slot). x.sequence) r.same, r.writer)

-- Consumers' bits may go, or be turned into quarantine, in any slot.
pub map-SlotsAreValid :
    {c : SharedFrameBusConfig} {sequence : ℕ} {active : Bool} {writer : ℕ} (f : Slot → Slot)
    → ((s : Slot) → Released s (f s))
    → (ss : List Slot) → SlotsAreValid c sequence active writer ss
    → SlotsAreValid c sequence active writer (map f ss)
map-SlotsAreValid {c} {sequence} f released ss = StandsFor-SlotsAreValid ss (map f ss) λ i t e.
    let (s, at, is) = get_elem?-map f ss i e in
    (
      s,
      at,
      subst (StandsFor c sequence s) (sym is) (Released-StandsFor c sequence s (f s) (released s)),
    )

-- Each slot that still has a number has what was in its place, but for its word.
abbrev pub Carries : List Slot → List Slot → Type 0
Carries ss ts =
    (i : ℕ) (t : Slot)
    → get_elem? ts i ≡ some t
    → t.sequence ≢ 0
    → (s : Slot) × (get_elem? ss i ≡ some s) × (t ≡ record s { ownership = t.ownership })

pub Carries-refl : (ss : List Slot) → Carries ss ss
Carries-refl ss i t at n = (t, at, refl)

pub Carries-trans : (ss ts us : List Slot) → Carries ss ts → Carries ts us → Carries ss us
Carries-trans ss ts us a b i u at n =
    let (t, at', is) = b i u at n in
    let (s, at'', is') = a i t at' (λ z. n (ap (λ (x : Slot). x.sequence) is ∙ z)) in
    (s, at'', is ∙ ap (λ (x : Slot). record x { ownership = u.ownership }) is')

map-Carries :
    (f : Slot → Slot) (ss : List Slot) → ((s : Slot) → Released s (f s)) → Carries ss (map f ss)
map-Carries f ss released i t at n =
    let (s, at', is) = get_elem?-map f ss i at in
    let same = (released s).same in
    (s, at', is ∙ same ∙ ap (λ (x : Slot). record s { ownership = x.ownership }) (sym is))

-- Every slot is still there, and but for its word it is what it was; its writer bit is the same.
abbrev pub Remains : List Slot → List Slot → Type 0
Remains ss ts =
    (i : ℕ) (s : Slot)
    → get_elem? ss i ≡ some s
    → (t : Slot) × (get_elem? ts i ≡ some t)
      × (t ≡ record s { ownership = t.ownership })
      × (t.ownership.writer ≡ s.ownership.writer)

pub Remains-refl : (ss : List Slot) → Remains ss ss
Remains-refl ss i s at = (s, at, refl, refl)

Remains-trans : (ss ts us : List Slot) → Remains ss ts → Remains ts us → Remains ss us
Remains-trans ss ts us a b i s at =
    let (t, at', is, mark) = a i s at in
    let (u, at'', is', mark') = b i t at' in
    (u, at'', is' ∙ ap (λ (x : Slot). record x { ownership = u.ownership }) is, mark' ∙ mark)

map-Remains :
    (f : Slot → Slot) (ss : List Slot) → ((s : Slot) → Released s (f s)) → Remains ss (map f ss)
map-Remains f ss released i s at =
    (f s, get_elem?-mapped f ss i at, (released s).same, (released s).writer)

-- The steps of a sweep leave the frames and the writer alone: no slot is lost.
pub record Kept (p q : SharedFrameBusPublisherState) : Type 0 where
  pub config : q.config ≡ p.config
  pub sequence : q.sequence ≡ p.sequence
  pub active : q.writer_active ≡ p.writer_active
  pub writer : q.writer_slot ≡ p.writer_slot
  pub token : q.writer_token ≡ p.writer_token
  pub valid : IsValid p → IsValid q
  pub frames : Carries p.slots q.slots
  pub remains : Remains p.slots q.slots

pub Kept-refl : (p : SharedFrameBusPublisherState) → Kept p p
Kept-refl p = record {
  config = refl;
  sequence = refl;
  active = refl;
  writer = refl;
  token = refl;
  valid = λ v. v;
  frames = Carries-refl p.slots;
  remains = Remains-refl p.slots;
}

pub Kept-trans : (p q r : SharedFrameBusPublisherState) → Kept p q → Kept q r → Kept p r
Kept-trans p q r a b = record {
  config = b.config ∙ a.config;
  sequence = b.sequence ∙ a.sequence;
  active = b.active ∙ a.active;
  writer = b.writer ∙ a.writer;
  token = b.token ∙ a.token;
  valid = λ v. b.valid (a.valid v);
  frames = Carries-trans p.slots q.slots r.slots a.frames b.frames;
  remains = Remains-trans p.slots q.slots r.slots a.remains b.remains;
}

module _ (f : Slot → Slot) (released : (s : Slot) → Released s (f s)) where
  pub map-Kept : (p : SharedFrameBusPublisherState) → Kept p (record p { slots = map f p.slots })
  map-Kept p = record {
    config = refl;
    sequence = refl;
    active = refl;
    writer = refl;
    token = refl;
    valid = λ v. (map-SlotsAreValid f released p.slots v.0, v.1);
    frames = map-Carries f p.slots released;
    remains = map-Remains f p.slots released;
  }

pub Kept-if :
    (p : SharedFrameBusPublisherState) (b : Bool) (q r : SharedFrameBusPublisherState)
    → Kept p q
    → Kept p r
    → Kept p (if b then q else r)
Kept-if p true q r a b = a
Kept-if p false q r a b = b

-- The same of the state that a call returns with an answer.
pub record KeptWith {ℓ} {A : Type ℓ} (p : SharedFrameBusPublisherState)
    (out : SharedFrameBusPublisherState × A) : Type 0 where
  pub kept : Kept p out.0

pub KeptWith-if {ℓ} :
    {A : Type ℓ} (p : SharedFrameBusPublisherState) (b : Bool)
    (q r : SharedFrameBusPublisherState × A)
    → KeptWith p q
    → KeptWith p r
    → KeptWith p (if b then q else r)
KeptWith-if p true q r a b = a
KeptWith-if p false q r a b = b

module _ (index : ℕ) (p : SharedFrameBusPublisherState) where
  pub finalize_consumer-Kept : (dead : Bool) → Kept p (finalize_consumer index dead p)
  unfolding finalize_consumer
  finalize_consumer-Kept dead = elim (Bool-cases (get_or p.consumers index no_consumer).active) [
    | inl on ↦
        let m = map-Kept (clear_slot index) (clear_slot-Released index) p in
        rw on (record {
          config = refl;
          sequence = refl;
          active = refl;
          writer = refl;
          token = refl;
          valid = m.valid;
          frames = m.frames;
          remains = m.remains;
        })
    | inr off ↦ rw off (Kept-refl p)
  ]

  pub close_consumer-Kept : Kept p (close_consumer index p)
  unfolding close_consumer
  close_consumer-Kept = record {
    config = refl;
    sequence = refl;
    active = refl;
    writer = refl;
    token = refl;
    valid = λ v. v;
    frames = Carries-refl p.slots;
    remains = Remains-refl p.slots;
  }

  pub finish_if_closed-Kept : Kept p (finish_if_closed index p)
  unfolding finish_if_closed
  finish_if_closed-Kept = Kept-if p _ _ _ (finalize_consumer-Kept false) (Kept-refl p)

pub close_for_removal-Kept :
    (removed : ℕ) (p : SharedFrameBusPublisherState) → Kept p (close_for_removal removed p).0
close_for_removal-Kept removed p = record {
  config = refl;
  sequence = refl;
  active = refl;
  writer = refl;
  token = refl;
  valid = λ v. v;
  frames = Carries-refl p.slots;
  remains = Remains-refl p.slots;
}

-- The same of the state that a call returns with an answer.
pub record ValidWith {ℓ} {A : Type ℓ} (out : SharedFrameBusPublisherState × A) : Type 0 where
  pub valid : IsValid out.0

pub ValidWith-if {ℓ} :
    {A : Type ℓ} (b : Bool) (q r : SharedFrameBusPublisherState × A)
    → ValidWith q
    → ValidWith r
    → ValidWith (if b then q else r)
ValidWith-if true q r a b = a
ValidWith-if false q r a b = b
