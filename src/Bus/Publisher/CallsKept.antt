-- ===== src/Bus/Publisher/CallsKept.antt =====
-- The calls of the publisher keep the bus valid, whatever a reading of the consumers or of the device
-- was.
use fluxcap.Prelude.{
  ℕ, ◌+◌, ◌≡◌, Bool, true, false, not, ◌&&◌, ◌||◌, ◌==◌, List, if◌then◌else◌, Option, none, some,
  inl, inr, Bool-cases,
}
use fluxcap.Gpu.{
  Result, value, error, misused, timeout_error, make_error, system_error, invalid_argument, is_ok,
  refuse_iff, >>=-eq-value,
}
use fluxcap.Bus.Metadata.{SharedFrameBusFrameMetadata}
use fluxcap.Bus.SideData.{SharedFrameBusFrameSideData}
use fluxcap.Bus.SideData.Again.{FullArrays}
use fluxcap.Bus.MoveResult.{SharedFrameBusMoveResult}
use fluxcap.Bus.CursorShape.{WgcCursorShape}
use fluxcap.Bus.Publisher.{SharedFrameBusPublisherState}
use fluxcap.Bus.Publisher.Sweep.{ConsumerReading, sweep_consumers}
use fluxcap.Bus.Publisher.Write.{Round, DeviceReading, claim_slot, cancel_write, commit_write}
use fluxcap.Bus.Publisher.Calls.{
  SourceTexture, SharedFrameBusWriteLease, check_publish, commit_claimed, publish_checked, lease_of,
  shape_checked, moves_checked, begin_publish, reserve_producer, release_producer, commit_reserved,
  reset_lease, wrong_producer, closed_error, validate_source, count_attempt,
}
use fluxcap.Bus.Publisher.Registration.{
  RegistrationReading, SharedFrameBusRegistration, e_handle, register_consumer, register_checked,
  register_swept, register_numbered, check_system, first_inactive, poison_consumer, enrol_consumer,
}
use fluxcap.Bus.Publisher.Invariant.{IsValid, ValidWith, ValidWith-if}
use fluxcap.Bus.Publisher.SweepKept.{sweep_consumers-Kept}
use fluxcap.Bus.Publisher.WriteKept.{cancel_write-IsValid}
use fluxcap.Bus.Publisher.CommitKept.{commit_write-IsValid, commit_payload-FullArrays}
use fluxcap.Bus.Publisher.Claim.{claim_slot-IsValid}

-- A payload with full arrays, where there is one.
abbrev IsFull : Result (SharedFrameBusFrameMetadata × SharedFrameBusFrameSideData) → Type 0
IsFull (error e) = Unit {0}
IsFull (value (m, s)) = FullArrays s

claimed-ValidWith :
    (d : DeviceReading) (m : SharedFrameBusFrameMetadata) (s : SharedFrameBusFrameSideData)
    (out : SharedFrameBusPublisherState × Result (ℕ × ℕ))
    → IsValid out.0
    → FullArrays s
    → ValidWith (commit_claimed d m s out)
unfolding commit_claimed
claimed-ValidWith d m s (q, error e) v full = record { valid = v }
claimed-ValidWith d m s (q, value (slot, token)) v full = record {
  valid = commit_write-IsValid slot token false d m s q full v;
}

lease_of-ValidWith :
    (out : SharedFrameBusPublisherState × Result (ℕ × ℕ)) → IsValid out.0 → ValidWith (lease_of out)
unfolding lease_of
lease_of-ValidWith (q, error e) v = record { valid = v }
lease_of-ValidWith (q, value (slot, token)) v = record { valid = v }

module _ (p : SharedFrameBusPublisherState) (v : IsValid p) where
  refused :
      {A : Type 0} (b : Bool) (x : A) (r : SharedFrameBusPublisherState × A)
      → ValidWith r
      → ValidWith (if b then (p, x) else r)
  refused true x r w = record { valid = v }
  refused false x r w = w

  pub publish_checked-ValidWith :
      (r : Result (SharedFrameBusFrameMetadata × SharedFrameBusFrameSideData)) (rounds : List Round)
      (d : DeviceReading)
      → IsFull r
      → ValidWith (publish_checked r rounds d p)
  unfolding publish_checked
  publish_checked-ValidWith (error e) rounds d full = record { valid = v }
  publish_checked-ValidWith (value (m, s)) rounds d full =
      claimed-ValidWith d m s (claim_slot rounds (count_attempt p))
        (claim_slot-IsValid rounds (count_attempt p) v) full

  pub begin_publish-ValidWith :
      (free once empty : Bool) (token : ℕ) (rounds : List Round)
      → ValidWith (begin_publish free once empty token rounds p)
  unfolding begin_publish
  begin_publish-ValidWith free once empty token rounds =
      refused (not (token == 0) && once && not free) (error timeout_error) _ (
        refused (not empty) (error misused) _ (
          refused p.shutting_down (error (closed_error p)) _ (
            refused (wrong_producer token p) (error misused) _ (
              lease_of-ValidWith (claim_slot rounds (count_attempt p))
                (claim_slot-IsValid rounds (count_attempt p) v)))))

  pub commit_reserved-ValidWith :
      (token : ℕ) (lease : SharedFrameBusWriteLease) (d : DeviceReading)
      (m : SharedFrameBusFrameMetadata) (s : SharedFrameBusFrameSideData)
      → FullArrays s
      → ValidWith (commit_reserved token lease d m s p)
  unfolding commit_reserved
  commit_reserved-ValidWith token lease d m s full =
      ValidWith-if (token == 0 || not (p.reserved_producer_token == token))
        (cancel_write lease.slot lease.token p, misused)
        (commit_write lease.slot lease.token true d m s p)
        (record { valid = cancel_write-IsValid lease.slot lease.token p v })
        (record { valid = commit_write-IsValid lease.slot lease.token true d m s p full v })

  pub reserve_producer-ValidWith : ValidWith (reserve_producer 0 p)
  unfolding reserve_producer
  reserve_producer-ValidWith = refused p.shutting_down (error (closed_error p)) _ (
      refused (not (p.reserved_producer_token == 0) || p.writer_active) (error misused) _
        (record { valid = v }))

  pub shape_checked-ValidWith :
      (r : Result (Unit {0})) (shape : WgcCursorShape) → ValidWith (shape_checked r shape p)
  unfolding shape_checked
  shape_checked-ValidWith (error e) shape = record { valid = v }
  shape_checked-ValidWith (value done) shape = record { valid = v }

  pub moves_checked-ValidWith :
      (r : Result SharedFrameBusMoveResult) → ValidWith (moves_checked r p)
  unfolding moves_checked
  moves_checked-ValidWith (error e) = record { valid = v }
  moves_checked-ValidWith (value r) = record { valid = v }

  register_numbered-ValidWith :
      (o : RegistrationReading) (index token : ℕ) → ValidWith (register_numbered o index token p)
  unfolding register_numbered poison_consumer enrol_consumer
  register_numbered-ValidWith o index token =
      let refused_with : Result SharedFrameBusRegistration =
        error (make_error system_error o.first_error) in
      ValidWith-if (not o.duplicated || o.target_exited || o.wait_failed)
        (
          if not o.rolled_back && not o.target_exited
              then poison_consumer index token o.process_id p
              else p,
          refused_with,
        )
        _
        (elim (not o.rolled_back && not o.target_exited)
          as (λ b.
            ValidWith (if b then poison_consumer index token o.process_id p else p, refused_with)) [
              | true ↦ record { valid = v }
              | false ↦ record { valid = v }
            ])
        (record { valid = v })

numbered-ValidWith :
    (r : Result (Unit {0})) (o : RegistrationReading) (index : ℕ) (p : SharedFrameBusPublisherState)
    → IsValid p
    → ValidWith (register_checked r o index p)
unfolding register_checked
numbered-ValidWith (error e) o index p v = record { valid = v }
numbered-ValidWith (value done) o index p v =
    register_numbered-ValidWith
      (record p { next_consumer_generation = p.next_consumer_generation + 1 }) v o index
      p.next_consumer_generation

register_swept-ValidWith :
    (o : RegistrationReading) (free : Option ℕ) (p : SharedFrameBusPublisherState)
    → IsValid p
    → ValidWith (register_swept o free p)
unfolding register_swept
register_swept-ValidWith o none p v = record { valid = v }
register_swept-ValidWith o (some index) p v =
    numbered-ValidWith (check_system o p.next_consumer_generation) o index p v

pub register_consumer-ValidWith :
    (o : RegistrationReading) (readings : List ConsumerReading) (p : SharedFrameBusPublisherState)
    → IsValid p
    → ValidWith (register_consumer o readings p)
unfolding register_consumer
register_consumer-ValidWith o readings p v =
    let q = (sweep_consumers readings p).0 in
    let w = (sweep_consumers-Kept readings p).valid v in
    refused p v o.target_is_null (error (make_error invalid_argument e_handle)) _ (
      refused p v p.shutting_down (error (closed_error p)) _ (
        refused p v p.writer_active (error timeout_error) _ (
          refused q w (not (is_ok (sweep_consumers readings p).1))
            (error (sweep_consumers readings p).1) _
            (register_swept-ValidWith o (first_inactive 0 q.consumers) q w))))

pub check_publish-IsFull :
    (p : SharedFrameBusPublisherState) (source : Option SourceTexture)
    (metadata : SharedFrameBusFrameMetadata) (side_data : SharedFrameBusFrameSideData)
    (r : Result (SharedFrameBusFrameMetadata × SharedFrameBusFrameSideData))
    → FullArrays side_data
    → check_publish p source metadata side_data ≡ r
    → IsFull r
unfolding check_publish
check_publish-IsFull p source metadata side_data (error e) full is = tt
check_publish-IsFull p source metadata side_data (value (m, s)) full is =
    let (_, e1) = (refuse_iff p.shutting_down (closed_error p) _).0 is in
    let (_, e2) = (refuse_iff (not (p.reserved_producer_token == 0)) misused _).0 e1 in
    let (_, _, e3) = >>=-eq-value (validate_source p.config source) _ e2 in
    commit_payload-FullArrays p metadata m side_data s full e3

pub release_producer-IsValid :
    (token : ℕ) (p : SharedFrameBusPublisherState) → IsValid p → IsValid (release_producer token p)
unfolding release_producer
release_producer-IsValid token p v =
    elim (Bool-cases (token == 0 || not (p.reserved_producer_token == token))) [
      | inl other ↦ rw other v
      | inr mine ↦
          let w = cancel_write-IsValid p.writer_slot p.writer_token p v in
          rw mine
            (elim p.writer_active
              as (λ b.
                IsValid (record (if b then cancel_write p.writer_slot p.writer_token p else p) {
                  reserved_producer_token = 0;
                })) [ true ↦ w | false ↦ v ])
    ]

pub reset_lease-IsValid :
    (lease : SharedFrameBusWriteLease) (p : SharedFrameBusPublisherState)
    → IsValid p
    → IsValid (reset_lease lease p)
unfolding reset_lease
reset_lease-IsValid lease p v = elim (Bool-cases (lease.token == 0)) [
  | inl none_taken ↦ rw none_taken v
  | inr taken ↦ rw taken (cancel_write-IsValid lease.slot lease.token p v)
]
