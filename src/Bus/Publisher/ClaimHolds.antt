-- ===== src/Bus/Publisher/ClaimHolds.antt =====
-- What a claim leaves to the consumers.
use fluxcap.Prelude.{
  ℕ, ◌≤◌, ◌≡◌, ◌≢◌, refl, sym, ◌∙◌, ap, subst, Bool, true, false, List, [], ◌∷◌, All, get_elem?,
  Option, none, some, some_inj, Option-cases, Bool-cases, inl, inr, u64_max, arith, if◌then◌else◌,
}
use fluxcap.Gpu.{value, error, Result, is_ok, misused}
use fluxcap.Bus.Control.{Slot, is_free, reads}
use fluxcap.Bus.Publisher.{SharedFrameBusPublisherState}
use fluxcap.Bus.Publisher.Sweep.{ConsumerReading, sweep_consumers}
use fluxcap.Bus.Publisher.Slots.{any-get}
use fluxcap.Bus.Publisher.Write.{
  Round, take_slot, try_slot, try_candidate, claim_round, claim_rounds, claim_slot, all_quarantined,
  oldest_free,
}
use fluxcap.Bus.Publisher.Claim.{take_slot-Taken}
use fluxcap.Bus.Publisher.Holds.{Holds, StillReads, slots-Holds, sweep_consumers-Holds}

-- The frame is still held, and the slot that is answered, if any, is another one.
pub record Spares (k i n : ℕ) (out : SharedFrameBusPublisherState × Result (ℕ × ℕ)) : Type 0 where
  pub holds : Holds k i n out.0
  pub other : (slot token : ℕ) → out.1 ≡ value (slot, token) → slot ≢ i

Spares-if :
    (k i n : ℕ) (b : Bool) (x y : SharedFrameBusPublisherState × Result (ℕ × ℕ))
    → Spares k i n x
    → Spares k i n y
    → Spares k i n (if b then x else y)
Spares-if k i n true x y a b = a
Spares-if k i n false x y a b = b

module _ (k i n : ℕ) (q : SharedFrameBusPublisherState) (h : Holds k i n q) where
  held_is_taken :
      (s : Slot) → get_elem? q.slots i ≡ some s → is_free s.ownership ≡ true → false ≡ true
  unfolding is_free
  held_is_taken s at free =
      let bit : reads s.ownership k ≡ true =
        ap (λ (x : Slot). reads x.ownership k) (some_inj (sym at ∙ h.there)) ∙ h.has.bit in
      sym (any-get s.ownership.readers k (ground (arith, free))) ∙ bit

  take_slot-Spares :
      (slot : ℕ) (s : Slot)
      → get_elem? q.slots slot ≡ some s
      → is_free s.ownership ≡ true
      → Spares k i n (take_slot slot s q)
  unfolding take_slot
  take_slot-Spares slot s at free =
      let apart : slot ≢ i =
        λ e. let no = held_is_taken s (subst (λ x. get_elem? q.slots x ≡ some s) e at) free in cc in
      record {
        holds = record {
          slot = h.slot;
          there = (take_slot-Taken slot s q at).others i (λ e. apart (sym e)) ∙ h.there;
          has = h.has;
        };
        other = λ other token e. subst (λ x. x ≢ i) (cc e) apart;
      }

  try_slot-Spares :
      (slot : ℕ) (o : Option Slot) (out : SharedFrameBusPublisherState × Result (ℕ × ℕ))
      → get_elem? q.slots slot ≡ o
      → try_slot slot o q ≡ some out
      → Spares k i n out
  unfolding try_slot
  try_slot-Spares slot none out at e = cc
  try_slot-Spares slot (some s) out at e = elim (Bool-cases (is_free s.ownership)) [
    | inl free ↦ subst (Spares k i n) (some_inj (rw free at e)) (take_slot-Spares slot s at free)
    | inr taken ↦ let nothing : none ≡ some out = rw taken at e in cc
  ]

  try_candidate-Spares :
      (c : Option (ℕ × ℕ)) (out : SharedFrameBusPublisherState × Result (ℕ × ℕ))
      → try_candidate c q ≡ some out
      → Spares k i n out
  unfolding try_candidate
  try_candidate-Spares none out e = cc
  try_candidate-Spares (some (slot, oldest)) out e =
      try_slot-Spares slot (get_elem? q.slots slot) out refl e

-- In every round the process of the consumer has not ended, and its fence is short of the frame.
abbrev pub ReadsOn : ℕ → ℕ → Round → Type 0
ReadsOn k n r = (o : ConsumerReading) → get_elem? r.readings k ≡ some o → StillReads n o

module _ (k i n : ℕ) (small : n ≤ u64_max) where
  claim_round-Spares :
      (r : Round) (p : SharedFrameBusPublisherState)
      → ReadsOn k n r
      → Holds k i n p
      → Holds k i n (claim_round r p).0
        × ((out : SharedFrameBusPublisherState × Result (ℕ × ℕ))
            → (claim_round r p).1 ≡ some out
            → Spares k i n out)
  unfolding claim_round
  claim_round-Spares r p reading h =
      let q = (sweep_consumers r.readings p).0 in
      let kept = sweep_consumers-Holds k i n small r.readings p reading h in
      elim (Bool-cases (is_ok (sweep_consumers r.readings p).1)) [
        | inr failed ↦ rw failed (
          kept,
          λ out e.
              subst (Spares k i n) (some_inj e) (record { holds = kept; other = λ s t no. cc no }),
        )
        | inl swept ↦ rw swept (elim (Bool-cases (all_quarantined q.slots)) [
          | inl all ↦ rw all (
            kept,
            λ out e.
                subst (Spares k i n) (some_inj e)
                  (record { holds = kept; other = λ s t no. cc no }),
          )
          | inr some_left ↦
              rw some_left
                (kept, try_candidate-Spares k i n q kept (oldest_free 0 r.seen q.slots none))
        ])
      ]

  claim_rounds-Spares :
      (rs : List Round) (p : SharedFrameBusPublisherState)
      → All (ReadsOn k n) rs
      → Holds k i n p
      → Spares k i n (claim_rounds rs p)
  unfolding claim_rounds
  claim_rounds-Spares [] p readings h = record {
    holds = slots-Holds k i n p _ refl h;
    other = λ s t no. cc no;
  }
  claim_rounds-Spares (r ∷ rs) p readings h =
      let q = (claim_round r p).0 in
      let (kept, ends) = claim_round-Spares r p readings.0 h in
      elim (Option-cases (claim_round r p).1) [
        | inl again ↦ rw again (claim_rounds-Spares rs q readings.1 kept)
        | inr (out, ended) ↦ rw ended (ends out ended)
      ]

-- While a consumer holds a frame, no claim gives its slot to the producer: after any rounds in which
-- the consumer's process has not ended and its fence is short of the frame, whatever the other
-- consumers, the device and the scans answer, the slot still has the frame's number and the consumer's
-- bit, and a slot that is answered is another one. The number is a 64-bit one.
pub claim_slot-Spares :
    (k i n : ℕ) (rs : List Round) (p : SharedFrameBusPublisherState)
    → n ≤ u64_max
    → All (ReadsOn k n) rs
    → Holds k i n p
    → Spares k i n (claim_slot rs p)
unfolding claim_slot
claim_slot-Spares k i n rs p small readings h =
    Spares-if k i n p.writer_active (p, error misused) (claim_rounds rs p)
      (record { holds = h; other = λ s t no. cc no })
      (claim_rounds-Spares k i n small rs p readings h)
