-- ===== src/Bus/Publisher/Claim.antt =====
-- The slot that a claim gets.
use fluxcap.Bus.Publisher.Write.{set_writer, with_numbers, update_slot}
use fluxcap.Bus.Publisher.Slots.{lt_of_get, get_elem?-set_ne}
use fluxcap.Prelude.{All, List, [], ◌∷◌, ◌≢◌, get_elem?-set_self, set}
use fluxcap.Prelude.{
  ℕ, ◌≡◌, ◌⊎◌, inl, inr, refl, ap, sym, ◌∙◌, subst, Bool, true, false, List, [], ◌∷◌, get_elem?,
  if◌then◌else◌, Option, none, some, Option-cases, Bool-cases, some_inj,
}
use fluxcap.Gpu.{GpuError, Result, error, is_ok, misused}
use fluxcap.Bus.Control.{Slot, is_free}
use fluxcap.Bus.Publisher.{SharedFrameBusPublisherState}
use fluxcap.Bus.Publisher.Sweep.{sweep_consumers}
use fluxcap.Bus.Publisher.Write.{
  Round, take_slot, try_slot, try_candidate, claim_round, claim_rounds, claim_slot, all_quarantined,
  oldest_free,
}
use fluxcap.Bus.Publisher.Invariant.{
  Carries-refl, Remains-refl, IsValid, Kept, Kept-refl, Kept-trans,
}
use fluxcap.Bus.Publisher.SweepKept.{sweep_consumers-Kept}
use fluxcap.Bus.Publisher.WriteKept.{take_slot-IsValid}

-- A claim fails after sweeps only, or after sweeps it takes a slot whose word is zero.
abbrev pub ClaimEnds :
    SharedFrameBusPublisherState → SharedFrameBusPublisherState × Result (ℕ × ℕ) → Type 0
ClaimEnds p out =
    ((e : GpuError) × (out.1 ≡ error e) × Kept p out.0)
    ⊎ ((q : SharedFrameBusPublisherState) × (slot : ℕ) × (s : Slot) × Kept p q
        × (get_elem? q.slots slot ≡ some s)
        × (is_free s.ownership ≡ true)
        × (out ≡ take_slot slot s q))

module _ (p q : SharedFrameBusPublisherState) (kept : Kept p q) where
  try_slot-ClaimEnds :
      (slot : ℕ) (o : Option Slot) (out : SharedFrameBusPublisherState × Result (ℕ × ℕ))
      → get_elem? q.slots slot ≡ o
      → try_slot slot o q ≡ some out
      → ClaimEnds p out
  unfolding try_slot
  try_slot-ClaimEnds slot none out at e = cc
  try_slot-ClaimEnds slot (some s) out at e = elim (Bool-cases (is_free s.ownership)) [
    | inl free ↦ inr (q, slot, s, kept, at, free, sym (some_inj (rw free at e)))
    | inr taken ↦ let nothing : none ≡ some out = rw taken at e in cc
  ]

  try_candidate-ClaimEnds :
      (c : Option (ℕ × ℕ)) (out : SharedFrameBusPublisherState × Result (ℕ × ℕ))
      → try_candidate c q ≡ some out
      → ClaimEnds p out
  unfolding try_candidate
  try_candidate-ClaimEnds none out e = cc
  try_candidate-ClaimEnds (some (slot, oldest)) out e =
      try_slot-ClaimEnds slot (get_elem? q.slots slot) out refl e

-- A round keeps the frames and the writer, and when it ends the loop it ends it in one of these ways.
claim_round-ClaimEnds :
    (r : Round) (p : SharedFrameBusPublisherState)
    → Kept p (claim_round r p).0
      × ((out : SharedFrameBusPublisherState × Result (ℕ × ℕ))
          → (claim_round r p).1 ≡ some out
          → ClaimEnds p out)
unfolding claim_round
claim_round-ClaimEnds r p =
    let q = (sweep_consumers r.readings p).0 in
    let kept = sweep_consumers-Kept r.readings p in
    elim (Bool-cases (is_ok (sweep_consumers r.readings p).1)) [
      | inr failed ↦ rw failed (
        kept,
        λ out e.
            inl (_, ap (λ x. x.1) (sym (some_inj e)), subst (λ x. Kept p x.0) (some_inj e) kept),
      )
      | inl swept ↦ rw swept (elim (Bool-cases (all_quarantined q.slots)) [
        | inl all ↦ rw all (
          kept,
          λ out e.
              inl (_, ap (λ x. x.1) (sym (some_inj e)), subst (λ x. Kept p x.0) (some_inj e) kept),
        )
        | inr some_left ↦
            rw some_left
              (kept, try_candidate-ClaimEnds p q kept (oldest_free 0 r.seen q.slots none))
      ])
    ]

ClaimEnds-after :
    (p q : SharedFrameBusPublisherState) (out : SharedFrameBusPublisherState × Result (ℕ × ℕ))
    → Kept p q
    → ClaimEnds q out
    → ClaimEnds p out
ClaimEnds-after p q out k (inl (e, is, kept)) = inl (e, is, Kept-trans p q out.0 k kept)
ClaimEnds-after p q out k (inr (r, slot, s, kept, at, free, is)) =
    inr (r, slot, s, Kept-trans p q r k kept, at, free, is)

claim_rounds-ClaimEnds :
    (rs : List Round) (p : SharedFrameBusPublisherState) → ClaimEnds p (claim_rounds rs p)
unfolding claim_rounds
claim_rounds-ClaimEnds [] p = inl (
  _,
  refl,
  record {
    config = refl;
    sequence = refl;
    active = refl;
    writer = refl;
    token = refl;
    valid = λ v. v;
    frames = Carries-refl p.slots;
    remains = Remains-refl p.slots;
  },
)
claim_rounds-ClaimEnds (r ∷ rs) p =
    let q = (claim_round r p).0 in
    let (kept, ends) = claim_round-ClaimEnds r p in
    elim (Option-cases (claim_round r p).1) [
      | inl again ↦
          rw again (ClaimEnds-after p q (claim_rounds rs q) kept (claim_rounds-ClaimEnds rs q))
      | inr (out, ended) ↦ rw ended (ends out ended)
    ]

claim_if :
    (p : SharedFrameBusPublisherState) (busy : Bool)
    (x y : SharedFrameBusPublisherState × Result (ℕ × ℕ)) {e : GpuError}
    → x ≡ (p, error e)
    → ClaimEnds p y
    → ClaimEnds p (if busy then x else y)
      × ((busy ≡ false) ⊎ ((if busy then x else y) ≡ (p, error e)))
claim_if p true x y is ends =
    (inl (_, ap (λ o. o.1) is, subst (λ o. Kept p o.0) (sym is) (Kept-refl p)), inr is)
claim_if p false x y is ends = (ends, inl refl)

-- A claim sweeps only, or takes a slot after the sweeps, and does nothing while there is a write lease.
pub claim_slot-ClaimEnds :
    (rs : List Round) (p : SharedFrameBusPublisherState)
    → ClaimEnds p (claim_slot rs p)
      × ((p.writer_active ≡ false) ⊎ (claim_slot rs p ≡ (p, error misused)))
unfolding claim_slot
claim_slot-ClaimEnds rs p =
    claim_if p p.writer_active (p, error misused) (claim_rounds rs p) refl
      (claim_rounds-ClaimEnds rs p)

pub claim_slot-IsValid :
    (rs : List Round) (p : SharedFrameBusPublisherState) → IsValid p → IsValid (claim_slot rs p).0
claim_slot-IsValid rs p v =
    let (ends, busy) = claim_slot-ClaimEnds rs p in
    elim ends [
      | inl (e, is, kept) ↦ kept.valid v
      | inr (q, slot, s, kept, at, free, is) ↦ elim busy [
        | inl idle ↦
            subst (λ o. IsValid o.0) (sym is)
              (take_slot-IsValid slot s q at free (kept.active ∙ idle) (kept.valid v))
        | inr refused ↦ subst (λ o. IsValid o.0) (sym refused) v
      ]
    ]

-- The slot is the lease's: nothing is in it and the writer is alone, and no other slot has changed.
pub record Taken (slot : ℕ) (s : Slot) (q r : SharedFrameBusPublisherState) : Type 0 where
  pub lease : (r.writer_active ≡ true) × (r.writer_slot ≡ slot)
  pub sequence : r.sequence ≡ q.sequence
  pub slot_taken :
      get_elem? r.slots slot
      ≡ some (record s {
        sequence = 0;
        metadata_sequence = 0;
        side_data_sequence = 0;
        ownership = record s.ownership { writer = true };
      })
  pub others : (i : ℕ) → i ≢ slot → get_elem? r.slots i ≡ get_elem? q.slots i

-- The word is zero.
abbrev pub Free : Slot → Type 0
Free s =
    (s.ownership.writer ≡ false)
    × (s.ownership.quarantined ≡ false)
    × All (λ b. b ≡ false) s.ownership.readers

pub take_slot-Taken :
    (slot : ℕ) (s : Slot) (q : SharedFrameBusPublisherState)
    → get_elem? q.slots slot ≡ some s
    → Taken slot s q (take_slot slot s q).0
unfolding take_slot
take_slot-Taken slot s q at =
    let marked = set_writer true (with_numbers 0 s) in
    let is : (take_slot slot s q).0.slots ≡ set q.slots slot marked = rw (at, update_slot) refl in
    record {
      lease = (refl, refl);
      sequence = refl;
      slot_taken =
          ap (λ ss. get_elem? ss slot) is
          ∙ get_elem?-set_self q.slots slot marked (lt_of_get q.slots slot at);
      others =
          λ i other. ap (λ ss. get_elem? ss i) is ∙ get_elem?-set_ne q.slots slot i marked other;
    }
