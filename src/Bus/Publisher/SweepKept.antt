-- ===== src/Bus/Publisher/SweepKept.antt =====
-- A sweep over the consumers.
use fluxcap.Prelude.{ℕ, suc, refl, true, ◌==◌, List, [], ◌∷◌, map, if◌then◌else◌, u64_max}
use fluxcap.Bus.Publisher.{SharedFrameBusPublisherState}
use fluxcap.Bus.Publisher.Sweep.{
  ConsumerReading, ProcessWait, exited, failed, alive, reclaim_slot, release_slot,
  finalize_consumer, close_consumer, finish_if_closed, sweep_dead, sweep_living, sweep_waited,
  sweep_consumer, account_quarantined_slots, sweep_from, sweep_consumers,
}
use fluxcap.Bus.Publisher.Slots.{reclaim_slot-Released, release_slot-Released}
use fluxcap.Bus.Publisher.Invariant.{
  Carries-refl, Remains-refl, Kept, Kept-refl, Kept-trans, Kept-if, KeptWith, KeptWith-if, map-Kept,
  finalize_consumer-Kept, close_consumer-Kept, finish_if_closed-Kept, close_for_removal-Kept,
}

module _ (index : ℕ) (o : ConsumerReading) (p : SharedFrameBusPublisherState) where
  finish_dead-Kept :
      (q : SharedFrameBusPublisherState)
      → Kept p q
      → Kept p (finalize_consumer index true (close_consumer index q))
  finish_dead-Kept q k =
      let closed = close_consumer index q in
      Kept-trans p closed (finalize_consumer index true closed)
        (Kept-trans p q closed k (close_consumer-Kept index q))
        (finalize_consumer-Kept index closed true)

  sweep_dead-Kept : KeptWith p (sweep_dead index o p)
  unfolding sweep_dead
  sweep_dead-Kept =
      let reclaimed = record p { slots = map (reclaim_slot index o.completed) p.slots } in
      KeptWith-if p _ _ _ (record { kept = finish_dead-Kept p (Kept-refl p) })
        (KeptWith-if p _ _ _ (record { kept = close_for_removal-Kept o.removed p })
          (record {
            kept = finish_dead-Kept reclaimed (
                map-Kept (reclaim_slot index o.completed)
                  (λ s. reclaim_slot-Released index s o.completed) p);
          }))

  sweep_living-Kept : KeptWith p (sweep_living index o p)
  unfolding sweep_living
  sweep_living-Kept =
      let closed = if o.completed == u64_max then close_consumer index p else p in
      let released = record closed { slots = map (release_slot index o.completed) closed.slots } in
      KeptWith-if p _ _ _ (record { kept = Kept-refl p })
        (KeptWith-if p _ _ _ (record { kept = close_for_removal-Kept o.removed p })
          (record {
            kept =
                Kept-trans p released (finish_if_closed index released)
                  (Kept-trans p closed released
                    (Kept-if p (o.completed == u64_max) _ _ (close_consumer-Kept index p)
                      (Kept-refl p))
                    (map-Kept (release_slot index o.completed)
                      (λ s. release_slot-Released index s o.completed) closed))
                  (finish_if_closed-Kept index released);
          }))

  sweep_waited-Kept : (w : ProcessWait) → KeptWith p (sweep_waited w index o p)
  unfolding sweep_waited
  sweep_waited-Kept exited = sweep_dead-Kept
  sweep_waited-Kept (failed code) = record { kept = Kept-refl p }
  sweep_waited-Kept alive = sweep_living-Kept

  sweep_consumer-Kept : KeptWith p (sweep_consumer index o p)
  unfolding sweep_consumer
  sweep_consumer-Kept =
      KeptWith-if p _ _ _ (record { kept = Kept-refl p }) (sweep_waited-Kept o.process_wait)

account-Kept : (p : SharedFrameBusPublisherState) → Kept p (account_quarantined_slots p)
unfolding account_quarantined_slots
account-Kept p = record {
  config = refl;
  sequence = refl;
  active = refl;
  writer = refl;
  token = refl;
  valid = λ v. v;
  frames = Carries-refl p.slots;
  remains = Remains-refl p.slots;
}

sweep_from-Kept :
    (index : ℕ) (os : List ConsumerReading) (p : SharedFrameBusPublisherState)
    → KeptWith p (sweep_from index os p)
unfolding sweep_from
sweep_from-Kept index [] p = record { kept = account-Kept p }
sweep_from-Kept index (o ∷ os) p =
    let q = (sweep_consumer index o p).0 in
    let first = sweep_consumer-Kept index o p in
    KeptWith-if p _ _ _
      (record {
        kept =
            Kept-trans p q (sweep_from (suc index) os q).0 first.kept
              (sweep_from-Kept (suc index) os q).kept;
      })
      first

-- Whatever the consumers have done, a sweep keeps the frames and the writer.
pub sweep_consumers-Kept :
    (os : List ConsumerReading) (p : SharedFrameBusPublisherState) → Kept p (sweep_consumers os p).0
unfolding sweep_consumers
sweep_consumers-Kept os p = (sweep_from-Kept 0 os p).kept
