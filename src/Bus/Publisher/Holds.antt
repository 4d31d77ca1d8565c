-- ===== src/Bus/Publisher/Holds.antt =====
-- The slots that a living consumer has not given back.
use fluxcap.Prelude.{
  ℕ, zero, suc, ◌+◌, ◌≤◌, ◌<◌, ◌≡◌, ◌≢◌, refl, sym, ◌∙◌, Bool, true, false, not, ◌&&◌, ◌||◌, ◌==◌,
  List, [], ◌∷◌, map, get_or, get_elem?, some, some_inj, if◌then◌else◌, u64_max, arith, inl, inr,
  Bool-cases, ap, subst,
}
use fluxcap.Bus.Control.{Slot, reads, quarantine_reader}
use fluxcap.Bus.Publisher.{SharedFrameBusPublisherState, no_consumer}
use fluxcap.Bus.Publisher.Sweep.{
  ConsumerReading, ProcessWait, exited, failed, alive, no_control, clear_slot, reclaim_slot,
  release_slot, consumer_has_readers, finalize_consumer, close_consumer, close_for_removal,
  finish_if_closed, sweep_dead, sweep_living, sweep_waited, sweep_consumer,
  account_quarantined_slots, sweep_from, sweep_consumers,
}
use fluxcap.Bus.Publisher.Slots.{get_elem?-mapped, get_or-set_ne}

-- The slot has the frame of this number and the bit of the consumer.
pub record HasBit (k n : ℕ) (t : Slot) : Type 0 where
  pub bit : reads t.ownership k ≡ true
  pub same : t.sequence ≡ n

-- The consumer `k` holds the frame `n` in the slot `i`.
pub record Holds (k i n : ℕ) (p : SharedFrameBusPublisherState) : Type 0 where
  pub slot : Slot
  pub there : get_elem? p.slots i ≡ some slot
  pub has : HasBit k n slot

-- The process has not ended, and the fence has not passed the frame.
abbrev pub StillReads : ℕ → ConsumerReading → Type 0
StillReads n o = (o.process_wait ≢ exited) × (o.completed < n)

HasBit-if :
    (k n : ℕ) (b : Bool) (s t : Slot)
    → HasBit k n s
    → HasBit k n t
    → HasBit k n (if b then s else t)
HasBit-if k n true s t a b = a
HasBit-if k n false s t a b = b

clear_slot-HasBit : (j k n : ℕ) (t : Slot) → j ≢ k → HasBit k n t → HasBit k n (clear_slot j t)
clear_slot-HasBit j k n t other h = record {
  bit = get_or-set_ne t.ownership.readers j k false false (λ e. other (sym e)) ∙ h.bit;
  same = h.same;
}

quarantine_reader-HasBit :
    (j k n : ℕ) (t : Slot)
    → j ≢ k
    → HasBit k n t
    → HasBit k n (record t { ownership = quarantine_reader t.ownership j })
quarantine_reader-HasBit j k n t other h = record {
  bit = get_or-set_ne t.ownership.readers j k false false (λ e. other (sym e)) ∙ h.bit;
  same = h.same;
}

reclaim_slot-HasBit :
    (j k n completed : ℕ) (t : Slot)
    → j ≢ k
    → HasBit k n t
    → HasBit k n (reclaim_slot j completed t)
unfolding reclaim_slot
reclaim_slot-HasBit j k n completed t other has = HasBit-if k n _ _ _ has (
    HasBit-if k n _ _ _ (clear_slot-HasBit j k n t other has)
      (quarantine_reader-HasBit j k n t other has))

release_slot-HasBit :
    (j k n completed : ℕ) (t : Slot)
    → (j ≡ k → completed < n)
    → n ≤ u64_max
    → HasBit k n t
    → HasBit k n (release_slot j completed t)
unfolding release_slot
release_slot-HasBit j k n completed t behind small h = elim (Bool-cases (j == k)) [
  | inl own ↦
      let is : j ≡ k = ground (arith, own) in
      let less = behind is in
      let stays : release_slot j completed t ≡ t =
        rw is (ground (arith, h.bit, h.same, less, small)) in
      rw stays h
  | inr other ↦
      let apart : j ≢ k = λ e. ground (arith, other, e) in
      let cleared = clear_slot-HasBit j k n t apart h in
      HasBit-if k n _ _ _ h (
        HasBit-if k n _ _ _ (quarantine_reader-HasBit j k n t apart h)
          (HasBit-if k n _ _ _ cleared h))
]

map-Holds :
    (k i n : ℕ) (f : Slot → Slot) (p q : SharedFrameBusPublisherState)
    → q.slots ≡ map f p.slots
    → ((t : Slot) → HasBit k n t → HasBit k n (f t))
    → Holds k i n p
    → Holds k i n q
map-Holds k i n f p q is step h = record {
  slot = f h.slot;
  there = ap (λ ss. get_elem? ss i) is ∙ get_elem?-mapped f p.slots i h.there;
  has = step h.slot h.has;
}

pub slots-Holds :
    (k i n : ℕ) (p q : SharedFrameBusPublisherState)
    → q.slots ≡ p.slots
    → Holds k i n p
    → Holds k i n q
slots-Holds k i n p q is h = record {
  slot = h.slot;
  there = ap (λ ss. get_elem? ss i) is ∙ h.there;
  has = h.has;
}

has_readers :
    (k i n : ℕ) (ss : List Slot) (t : Slot)
    → get_elem? ss i ≡ some t
    → HasBit k n t
    → consumer_has_readers k ss ≡ true
unfolding consumer_has_readers
has_readers k i n [] t at h = cc
has_readers k zero n (s ∷ ss) t at h =
    let here : reads s.ownership k ≡ true =
      ap (λ (x : Slot). reads x.ownership k) (some_inj at) ∙ h.bit in
    rw here refl
has_readers k (suc i) n (s ∷ ss) t at h =
    let later = has_readers k i n ss t at h in ground (arith, later)

-- The same of the state that a call returns with an answer.
pub record HoldsWith {ℓ} {A : Type ℓ} (k i n : ℕ) (out : SharedFrameBusPublisherState × A)
    : Type 0 where
  pub holds : Holds k i n out.0

HoldsWith-if {ℓ} :
    {A : Type ℓ} (k i n : ℕ) (b : Bool) (x y : SharedFrameBusPublisherState × A)
    → HoldsWith k i n x
    → HoldsWith k i n y
    → HoldsWith k i n (if b then x else y)
HoldsWith-if k i n true x y a b = a
HoldsWith-if k i n false x y a b = b

module _ (k i n : ℕ) (p : SharedFrameBusPublisherState) (h : Holds k i n p) where
  finalize_consumer-Holds : (j : ℕ) (dead : Bool) → j ≢ k → Holds k i n (finalize_consumer j dead p)
  unfolding finalize_consumer
  finalize_consumer-Holds j dead other =
      elim (Bool-cases (get_or p.consumers j no_consumer).active) [
        | inl on ↦
            rw on (map-Holds k i n (clear_slot j) p _ refl (λ t. clear_slot-HasBit j k n t other) h)
        | inr off ↦ rw off h
      ]

  finish_if_closed-Holds : (j : ℕ) → Holds k i n (finish_if_closed j p)
  unfolding finish_if_closed
  finish_if_closed-Holds j = elim (Bool-cases (j == k)) [
    | inl own ↦
        let is : j ≡ k = ground (arith, own) in
        let stays : finish_if_closed j p ≡ p =
          let there = has_readers k i n p.slots h.slot h.there h.has in
          rw is (ground (arith, there)) in
        rw stays h
    | inr other ↦
        let finished = finalize_consumer-Holds j false (λ e. ground (arith, other, e)) in
        elim (Bool-cases (
          (not (get_or p.controls j no_control).access_state.is_open
            || not (
                (get_or p.controls j no_control).token == (get_or p.consumers j no_consumer).token))
          && (get_or p.controls j no_control).access_state.refs == 0
          && not (consumer_has_readers j p.slots))) [
            | inl closed ↦ rw closed finished
            | inr stays_open ↦ rw stays_open h
          ]
  ]

module _ (k i n : ℕ) (small : n ≤ u64_max) (j : ℕ) (o : ConsumerReading)
    (reading : j ≡ k → StillReads n o) (p : SharedFrameBusPublisherState) (h : Holds k i n p) where
  finish_dead-Holds :
      (q : SharedFrameBusPublisherState)
      → j ≢ k
      → Holds k i n q
      → Holds k i n (finalize_consumer j true (close_consumer j q))
  unfolding close_consumer
  finish_dead-Holds q other g =
      let closed = close_consumer j q in
      finalize_consumer-Holds k i n closed (slots-Holds k i n q closed refl g) j true other

  sweep_dead-Holds : j ≢ k → HoldsWith k i n (sweep_dead j o p)
  unfolding sweep_dead
  sweep_dead-Holds other =
      let reclaimed = record p { slots = map (reclaim_slot j o.completed) p.slots } in
      HoldsWith-if k i n _ _ _ (record { holds = finish_dead-Holds p other h })
        (HoldsWith-if k i n _ _ _
          (record { holds = slots-Holds k i n p (close_for_removal o.removed p).0 refl h })
          (record {
            holds = finish_dead-Holds reclaimed other (
                map-Holds k i n (reclaim_slot j o.completed) p reclaimed refl
                  (λ t. reclaim_slot-HasBit j k n o.completed t other) h);
          }))

  sweep_living-Holds : HoldsWith k i n (sweep_living j o p)
  unfolding sweep_living close_consumer
  sweep_living-Holds =
      let closed = if o.completed == u64_max then close_consumer j p else p in
      let released = record closed { slots = map (release_slot j o.completed) closed.slots } in
      let before : Holds k i n closed =
        elim (o.completed == u64_max) as (λ b. Holds k i n (if b then close_consumer j p else p)) [
          | true ↦ slots-Holds k i n p (close_consumer j p) refl h
          | false ↦ h
        ] in
      HoldsWith-if k i n _ _ _ (record { holds = h })
        (HoldsWith-if k i n _ _ _
          (record { holds = slots-Holds k i n p (close_for_removal o.removed p).0 refl h })
          (record {
            holds =
                finish_if_closed-Holds k i n released
                  (map-Holds k i n (release_slot j o.completed) closed released refl
                    (λ t. release_slot-HasBit j k n o.completed t (λ e. (reading e).1) small)
                    before)
                  j;
          }))

  sweep_waited-Holds :
      (w : ProcessWait) → o.process_wait ≡ w → HoldsWith k i n (sweep_waited w j o p)
  unfolding sweep_waited
  sweep_waited-Holds exited e = sweep_dead-Holds (λ own. (reading own).0 e)
  sweep_waited-Holds (failed code) e = record { holds = h }
  sweep_waited-Holds alive e = sweep_living-Holds

  sweep_consumer-Holds : HoldsWith k i n (sweep_consumer j o p)
  unfolding sweep_consumer
  sweep_consumer-Holds =
      HoldsWith-if k i n _ _ _ (record { holds = h }) (sweep_waited-Holds o.process_wait refl)

module _ (k i n : ℕ) (small : n ≤ u64_max) where
  sweep_from-Holds :
      (index : ℕ) (os : List ConsumerReading) (p : SharedFrameBusPublisherState)
      → ((j : ℕ) (o : ConsumerReading) → get_elem? os j ≡ some o → index + j ≡ k → StillReads n o)
      → Holds k i n p
      → HoldsWith k i n (sweep_from index os p)
  unfolding sweep_from account_quarantined_slots
  sweep_from-Holds index [] p reading h = record {
    holds = slots-Holds k i n p (account_quarantined_slots p) refl h;
  }
  sweep_from-Holds index (o ∷ os) p reading h =
      let q = (sweep_consumer index o p).0 in
      let first =
        sweep_consumer-Holds k i n small index o (λ e. reading 0 o refl (omega (arith, e))) p h in
      HoldsWith-if k i n _ _ _
        (sweep_from-Holds (suc index) os q (λ j u at e. reading (suc j) u at (omega (arith, e)))
          first.holds)
        first

  -- Whatever the other consumers do, the bit of a consumer stays in the word of a slot over a sweep
  -- that finds its process not ended and its fence short of the frame.
  pub sweep_consumers-Holds :
      (os : List ConsumerReading) (p : SharedFrameBusPublisherState)
      → ((o : ConsumerReading) → get_elem? os k ≡ some o → StillReads n o)
      → Holds k i n p
      → Holds k i n (sweep_consumers os p).0
  unfolding sweep_consumers
  sweep_consumers-Holds os p reading h =
      (sweep_from-Holds 0 os p
        (λ j o at e. reading o (subst (λ x. get_elem? os x ≡ some o) (omega (arith, e)) at))
        h).holds
