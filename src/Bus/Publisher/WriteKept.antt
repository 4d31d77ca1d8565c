-- ===== src/Bus/Publisher/WriteKept.antt =====
-- Claims, commits and cancellations.
use fluxcap.Prelude.{
  ℕ, ◌≤◌, ◌<◌, ◌≡◌, ◌≢◌, ◌↔◌, inl, inr, refl, ap, sym, ◌∙◌, subst, Bool, true, false, List, [], ◌∷◌,
  map, get_elem?, some, arith, Bool-cases, some_inj,
}
use fluxcap.Bus.Control.{Slot, is_free, any}
use fluxcap.Bus.Publisher.{SharedFrameBusPublisherState, SharedFrameBusConfig}
use fluxcap.Bus.Publisher.Write.{
  set_writer, with_numbers, take_slot, give_back, cancel_write, owns_write, update_slot,
}
use fluxcap.Bus.Publisher.Slots.{SlotIsValid, update_slot_cases}
use fluxcap.Bus.Publisher.Invariant.{SlotsAreValid, IsValid}

SlotIsValid-mono :
    (c : SharedFrameBusConfig) (q q' : ℕ) (s : Slot)
    → q ≤ q'
    → SlotIsValid c q s
    → SlotIsValid c q' s
SlotIsValid-mono c q q' s h v = record {
  bound = omega (arith, v.bound);
  numbers = v.numbers;
  metadata = v.metadata;
  side_data = v.side_data;
  writing = v.writing;
  alone = v.alone;
}

module _ {c : SharedFrameBusConfig} {q q' : ℕ} {a a' : Bool} {w w' : ℕ} (k : ℕ) (f : Slot → Slot)
    (ss : List Slot) (later : q ≤ q')
    (changed : (s : Slot) → get_elem? ss k ≡ some s → SlotIsValid c q' (f s))
    (marked : (s : Slot)
      → get_elem? ss k ≡ some s
      → ((f s).ownership.writer ≡ true) ↔ ((a' ≡ true) × (k ≡ w')))
    (others : (i : ℕ) → i ≢ k → ((a ≡ true) × (i ≡ w)) ↔ ((a' ≡ true) × (i ≡ w')))
    (fresh : (s : Slot) → get_elem? ss k ≡ some s → (f s).sequence ≢ 0 → q < (f s).sequence) where
  -- One slot is changed: the writer's mark moves, and a number that it gets is a new one.
  pub update-SlotsAreValid :
      SlotsAreValid c q a w ss → SlotsAreValid c q' a' w' (update_slot k f ss)
  update-SlotsAreValid v = record {
    each = λ i t e. elim (update_slot_cases ss k i f e) [
      | inl (here, s, at, is) ↦ subst (SlotIsValid c q') (sym is) (changed s at)
      | inr (there, at) ↦ SlotIsValid-mono c q q' t later (v.each i t at)
    ];
    written = λ i t e. elim (update_slot_cases ss k i f e) [
      | inl (here, s, at, is) ↦
          let m = marked s at in
          let same = ap (λ (x : Slot). x.ownership.writer) is in
          (
            λ h. let r = m.0 (sym same ∙ h) in (r.0, here ∙ r.1),
            λ h. same ∙ m.1 (h.0, sym here ∙ h.1),
          )
      | inr (there, at) ↦
          let m = v.written i t at in let o = others i there in (λ h. o.0 (m.0 h), λ h. m.1 (o.1 h))
    ];
    distinct = λ i j t u e e' nonzero equal. elim (update_slot_cases ss k i f e) [
      | inl (here, s, at, is) ↦ elim (update_slot_cases ss k j f e') [
        | inl (here', _, _, _) ↦ here ∙ sym here'
        | inr (there, at') ↦
            let number = ap (λ (x : Slot). x.sequence) is in
            let old = (v.each j u at').bound in
            let new = fresh s at (λ z. nonzero (number ∙ z)) in
            absurd (omega (arith, number, old, new))
      ]
      | inr (there, at) ↦ elim (update_slot_cases ss k j f e') [
        | inl (here', s, at', is) ↦
            let number = ap (λ (x : Slot). x.sequence) is in
            let old = (v.each i t at).bound in
            let new = fresh s at' (λ z. nonzero (equal ∙ number ∙ z)) in
            absurd (omega (arith, number, old, new))
        | inr (there', at') ↦ v.distinct i j t u at at' nonzero equal
      ]
    ];
  }

none_left : (os : List Bool) → any (map (λ _. false) os) ≡ false
none_left [] = refl
none_left (o ∷ os) = none_left os

-- The claimed slot was free, so the writer is alone with it.
pub take_slot-IsValid :
    (slot : ℕ) (s : Slot) (p : SharedFrameBusPublisherState)
    → get_elem? p.slots slot ≡ some s
    → is_free s.ownership ≡ true
    → p.writer_active ≡ false
    → IsValid p
    → IsValid (take_slot slot s p).0
unfolding take_slot is_free
take_slot-IsValid slot s p at free idle v = (
  update-SlotsAreValid slot (λ old. set_writer true (with_numbers 0 old)) p.slots (omega arith)
      (λ old at'.
        let same : s ≡ old = some_inj (sym at ∙ at') in
        let free' = rw same at free in
        record {
          bound = omega arith;
          numbers = λ z. absurd (z refl);
          metadata = λ z. absurd (z refl);
          side_data = λ z. absurd (z refl);
          writing = λ _. refl;
          alone = λ _. ground (arith, free');
        })
      (λ old at'. (λ _. (refl, refl), λ _. refl)) (λ i other. (λ h. cc, λ h. absurd (other h.1)))
      (λ old at' z. absurd (z refl)) v.0,
  v.1,
)

module _ (slot token : ℕ) (p : SharedFrameBusPublisherState)
    (owns : owns_write slot token p ≡ true) where
  -- No writer is left: only the slot that is given back had the mark.
  pub no_writer_elsewhere :
      (w : ℕ) (i : ℕ)
      → i ≢ slot
      → ((p.writer_active ≡ true) × (i ≡ p.writer_slot)) ↔ ((false ≡ true) × (i ≡ w))
  no_writer_elsewhere w i other = (
    λ h. let is : p.writer_slot ≡ slot = ground (arith, owns) in absurd (other (h.1 ∙ is)),
    λ h. cc,
  )

  cancelled-IsValid : IsValid p → IsValid (cancel_write slot token p)
  unfolding cancel_write give_back
  cancelled-IsValid v = rw owns (
    update-SlotsAreValid slot (λ s. give_back (with_numbers 0 s)) p.slots (omega arith)
        (λ old at'. record {
          bound = omega arith;
          numbers = λ z. absurd (z refl);
          metadata = λ z. absurd (z refl);
          side_data = λ z. absurd (z refl);
          writing = λ w. cc;
          alone = λ w. cc;
        })
        (λ old at'. (λ w. cc, λ w. cc)) (no_writer_elsewhere _) (λ old at' z. absurd (z refl)) v.0,
    v.1,
  )

pub cancel_write-IsValid :
    (slot token : ℕ) (p : SharedFrameBusPublisherState)
    → IsValid p
    → IsValid (cancel_write slot token p)
unfolding cancel_write
cancel_write-IsValid slot token p v = elim (Bool-cases (owns_write slot token p)) [
  | inl owns ↦ cancelled-IsValid slot token p owns v
  | inr not_owner ↦ rw not_owner v
]
