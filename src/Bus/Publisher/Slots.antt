-- ===== src/Bus/Publisher/Slots.antt =====
-- The slots of a bus in order, and what the operations on single slots keep.
use fluxcap.Prelude.{
  some_inj, ◌<◌, length, ℕ, zero, suc, ◌≤◌, ◌≡◌, ◌≢◌, ◌⊎◌, inl, inr, refl, ap, sym, ◌∙◌, subst,
  Bool, true, false, not, ◌&&◌, ◌==◌, leb, List, [], ◌∷◌, map, get_or, get_elem?, set,
  if◌then◌else◌, some, u64_max, arith, Option-cases, Bool-cases,
}
use fluxcap.Gpu.{value}
use fluxcap.Bus.Metadata.{normalize_metadata}
use fluxcap.Bus.SideData.{normalize_side_data}
use fluxcap.Bus.Control.{Slot, reads, any, quarantine_reader}
use fluxcap.Bus.Publisher.{SharedFrameBusConfig}
use fluxcap.Bus.Publisher.Sweep.{clear_slot, reclaim_slot, release_slot}
use fluxcap.Bus.Publisher.Write.{update_slot}

module _ {ℓ} {A : Type ℓ} where
  pub get_elem?-map :
      (f : A → A) (xs : List A) (i : ℕ) {y : A}
      → get_elem? (map f xs) i ≡ some y
      → (x : A) × (get_elem? xs i ≡ some x) × (y ≡ f x)
  get_elem?-map f [] i e = cc
  get_elem?-map f (x ∷ xs) zero e = (x, refl, cc e)
  get_elem?-map f (x ∷ xs) (suc i) e = get_elem?-map f xs i e

  pub get_elem?-mapped :
      (f : A → A) (xs : List A) (i : ℕ) {x : A}
      → get_elem? xs i ≡ some x
      → get_elem? (map f xs) i ≡ some (f x)
  get_elem?-mapped f [] i e = cc
  get_elem?-mapped f (x ∷ xs) zero e = ap (λ z. some (f z)) (some_inj e)
  get_elem?-mapped f (x ∷ xs) (suc i) e = get_elem?-mapped f xs i e

  pub get_elem?-set_cases :
      (xs : List A) (k i : ℕ) (v : A) {y : A}
      → get_elem? (set xs k v) i ≡ some y
      → ((i ≡ k) × (y ≡ v)) ⊎ ((i ≢ k) × (get_elem? xs i ≡ some y))
  get_elem?-set_cases [] k i v e = cc
  get_elem?-set_cases (x ∷ xs) zero zero v e = inl (refl, cc e)
  get_elem?-set_cases (x ∷ xs) zero (suc i) v e = inr (λ p. absurd (omega (arith, p)), e)
  get_elem?-set_cases (x ∷ xs) (suc k) zero v e = inr (λ p. absurd (omega (arith, p)), e)
  get_elem?-set_cases (x ∷ xs) (suc k) (suc i) v e = elim (get_elem?-set_cases xs k i v e) [
    | inl (same, is) ↦ inl (ap suc same, is)
    | inr (other, is) ↦ inr (λ p. other (omega (arith, p)), is)
  ]

pub get_elem?-set_ne {ℓ} :
    {A : Type ℓ} (xs : List A) (k i : ℕ) (v : A) → i ≢ k → get_elem? (set xs k v) i ≡ get_elem? xs i
get_elem?-set_ne [] k i v h = refl
get_elem?-set_ne (x ∷ xs) zero zero v h = absurd (h refl)
get_elem?-set_ne (x ∷ xs) zero (suc i) v h = refl
get_elem?-set_ne (x ∷ xs) (suc k) zero v h = refl
get_elem?-set_ne (x ∷ xs) (suc k) (suc i) v h = get_elem?-set_ne xs k i v (λ e. h (ap suc e))

pub get_or-set_ne {ℓ} :
    {A : Type ℓ} (xs : List A) (k i : ℕ) (v d : A) → i ≢ k → get_or (set xs k v) i d ≡ get_or xs i d
get_or-set_ne [] k i v d h = refl
get_or-set_ne (x ∷ xs) zero zero v d h = absurd (h refl)
get_or-set_ne (x ∷ xs) zero (suc i) v d h = refl
get_or-set_ne (x ∷ xs) (suc k) zero v d h = refl
get_or-set_ne (x ∷ xs) (suc k) (suc i) v d h = get_or-set_ne xs k i v d (λ e. h (ap suc e))

pub lt_of_get {ℓ} :
    {A : Type ℓ} (xs : List A) (i : ℕ) {x : A} → get_elem? xs i ≡ some x → i < length xs
lt_of_get [] i e = cc
lt_of_get (y ∷ xs) zero e = omega arith
lt_of_get (y ∷ xs) (suc i) e = omega (arith, lt_of_get xs i e)

pub update_slot_cases :
    (ss : List Slot) (k i : ℕ) (f : Slot → Slot) {y : Slot}
    → get_elem? (update_slot k f ss) i ≡ some y
    → ((i ≡ k) × (x : Slot) × (get_elem? ss k ≡ some x) × (y ≡ f x))
      ⊎ ((i ≢ k) × (get_elem? ss i ≡ some y))
update_slot_cases ss k i f {y} e = elim (Option-cases (get_elem? ss k)) [
  | inl gone ↦
      let kept : get_elem? ss i ≡ some y = rw (gone, update_slot) at e in inr (λ p. cc, kept)
  | inr (x, is) ↦
      let put : get_elem? (set ss k (f x)) i ≡ some y = rw (is, update_slot) at e in
      elim (get_elem?-set_cases ss k i (f x) put) [
        | inl (same, new) ↦ inl (same, x, is, new)
        | inr (other, kept) ↦ inr (other, kept)
      ]
]

-- A slot that is not being written and has a number carries what its number says, in the form that its
-- readers accept; the writer is alone with its slot.
pub record SlotIsValid (c : SharedFrameBusConfig) (sequence : ℕ) (s : Slot) : Type 0 where
  pub bound : s.sequence ≤ sequence
  pub numbers :
      s.sequence ≢ 0 → (s.metadata_sequence ≡ s.sequence) × (s.side_data_sequence ≡ s.sequence)
  pub metadata :
      s.sequence ≢ 0
      → normalize_metadata s.metadata c.width c.height c.color_space true ≡ value s.metadata
  pub side_data :
      s.sequence ≢ 0
      → normalize_side_data s.side_data c.width c.height 5 s.sequence ≡ value s.side_data
  pub writing : s.ownership.writer ≡ true → s.sequence ≡ 0
  pub alone :
      s.ownership.writer ≡ true
      → (s.ownership.quarantined ≡ false) × (any s.ownership.readers ≡ false)

-- The same slot but for the consumers' bits, and still alone if it was.
pub record Released (s t : Slot) : Type 0 where
  pub same : t ≡ record s { ownership = t.ownership }
  pub writer : t.ownership.writer ≡ s.ownership.writer
  pub alone :
      s.ownership.quarantined ≡ false
      → any s.ownership.readers ≡ false
      → (t.ownership.quarantined ≡ false) × (any t.ownership.readers ≡ false)

any-set : (bs : List Bool) (i : ℕ) → any bs ≡ false → any (set bs i false) ≡ false
any-set [] i h = refl
any-set (b ∷ bs) zero h = ground (arith, h)
any-set (false ∷ bs) (suc i) h = any-set bs i h
any-set (true ∷ bs) (suc i) h = cc

pub any-get : (bs : List Bool) (i : ℕ) → any bs ≡ false → get_or bs i false ≡ false
any-get [] i h = refl
any-get (false ∷ bs) zero h = refl
any-get (true ∷ bs) zero h = cc
any-get (false ∷ bs) (suc i) h = any-get bs i h
any-get (true ∷ bs) (suc i) h = cc

module _ (index : ℕ) (s : Slot) where
  pub clear_slot-Released : Released s (clear_slot index s)
  clear_slot-Released = record {
    same = refl;
    writer = refl;
    alone = λ q r. (q, any-set s.ownership.readers index r);
  }

  pub Released-self : Released s s
  Released-self = record { same = refl; writer = refl; alone = λ q r. (q, r) }

  pub quarantine-Released :
      reads s.ownership index ≡ true
      → Released s (record s { ownership = quarantine_reader s.ownership index })
  quarantine-Released held = record {
    same = refl;
    writer = refl;
    alone = λ q r. let none_held = any-get s.ownership.readers index r in cc;
  }

  pub reclaim_slot-Released : (completed : ℕ) → Released s (reclaim_slot index completed s)
  unfolding reclaim_slot
  reclaim_slot-Released completed = elim (Bool-cases (reads s.ownership index)) [
    | inl held ↦
        rw held
          (elim (not (completed == u64_max) && leb s.sequence completed)
            as (λ passed. Released s (
              if passed
              then clear_slot index s
              else record s { ownership = quarantine_reader s.ownership index })) [
                | true ↦ clear_slot-Released
                | false ↦ quarantine-Released held
              ])
    | inr other ↦ rw other Released-self
  ]

  pub release_slot-Released : (completed : ℕ) → Released s (release_slot index completed s)
  unfolding release_slot
  release_slot-Released completed = elim (Bool-cases (reads s.ownership index)) [
    | inl held ↦ rw held (elim (Bool-cases (completed == u64_max)) [
      | inl broken ↦ rw broken (quarantine-Released held)
      | inr fine ↦
          rw fine
            (elim (leb s.sequence completed)
              as (λ passed. Released s (if passed then clear_slot index s else s)) [
                | true ↦ clear_slot-Released
                | false ↦ Released-self
              ])
    ])
    | inr other ↦ rw other Released-self
  ]

pub Released-SlotIsValid :
    (c : SharedFrameBusConfig) (sequence : ℕ) (s t : Slot)
    → Released s t
    → SlotIsValid c sequence s
    → SlotIsValid c sequence t
Released-SlotIsValid c q s t r v =
    let w : t.ownership.writer ≡ true → s.ownership.writer ≡ true = λ e. sym r.writer ∙ e in
    let kept : SlotIsValid c q (record s { ownership = t.ownership }) = record {
      bound = v.bound;
      numbers = v.numbers;
      metadata = v.metadata;
      side_data = v.side_data;
      writing = λ e. v.writing (w e);
      alone = λ e. let a = v.alone (w e) in r.alone a.0 a.1;
    } in
    subst (SlotIsValid c q) (sym r.same) kept
