-- ===== src/Bus/Log/Calls.antt =====
-- The calls of the publisher on the log.
use fluxcap.Prelude.{
  ℕ, ◌+◌, ◌≡◌, inl, inr, refl, sym, ◌∙◌, Bool, true, false, not, ◌&&◌, ◌||◌, ◌==◌, List,
  if◌then◌else◌, Option, none, some, Bool-cases,
}
use fluxcap.Gpu.{
  Result, Result-cases, value, error, misused, timeout_error, make_error, invalid_argument, is_ok,
  refuse_iff, >>=-eq-value,
}
use fluxcap.Bus.Metadata.{SharedFrameBusFrameMetadata}
use fluxcap.Bus.Metadata.Normal.{normalize_metadata-Acceptable}
use fluxcap.Bus.SideData.{SharedFrameBusFrameSideData}
use fluxcap.Bus.SideData.Normal.{normalize_side_data-Acceptable}
use fluxcap.Bus.SideData.Again.{FullArrays}
use fluxcap.Bus.MoveResult.{SharedFrameBusMoveResult}
use fluxcap.Bus.CursorShape.{WgcCursorShape}
use fluxcap.Bus.Publisher.{SharedFrameBusPublisherState}
use fluxcap.Bus.Publisher.Sweep.{ConsumerReading, sweep_consumers}
use fluxcap.Bus.Publisher.Write.{
  Round, DeviceReading, claim_slot, cancel_write, commit_write, commit_payload,
}
use fluxcap.Bus.Publisher.Calls.{
  SourceTexture, SharedFrameBusWriteLease, check_publish, commit_claimed, publish_checked, publish,
  lease_of, shape_checked, moves_checked, begin_publish, reserve_producer, release_producer,
  commit_reserved, reset_lease, wrong_producer, closed_error, validate_source, count_attempt,
}
use fluxcap.Bus.Publisher.Registration.{
  RegistrationReading, e_handle, register_consumer, register_checked, register_swept,
  register_numbered, check_system, first_inactive, poison_consumer, enrol_consumer,
}
use fluxcap.Bus.Publisher.SweepKept.{sweep_consumers-Kept}
use fluxcap.Bus.Publisher.CommitKept.{commit_payload-Publishable}
use fluxcap.Bus.Log.{
  Frame, Stays, Follows, FollowsWith, FollowsWith-if, refused, Carries-Stays, Kept-Stays,
}
use fluxcap.Bus.Log.Commit.{
  Copies, cancel_write-Stays, claim_slot-Stays, commit_payload-Copies, commit_write-Follows,
}

-- What `publish` has normalized is committed as it is.
Copies-again :
    (p : SharedFrameBusPublisherState) (metadata m : SharedFrameBusFrameMetadata)
    (side_data s : SharedFrameBusFrameSideData) (f : Frame)
    → FullArrays side_data
    → commit_payload p metadata side_data ≡ value (m, s)
    → Copies m s f
    → Copies metadata side_data f
Copies-again p metadata m side_data s f full e (mf, sf) =
    let ready = commit_payload-Publishable p metadata m side_data s full e in
    let (x, m_normal) =
      (normalize_metadata-Acceptable m m p.config.width p.config.height p.config.color_space true).0
        ready.metadata in
    let (y, s_normal) =
      (normalize_side_data-Acceptable s s p.config.width p.config.height 5 (p.sequence + 1)).0
        ready.side_data in
    let (m_copy, s_copy) = commit_payload-Copies p metadata side_data (m, s) e in
    (mf ∙ sym m_normal ∙ m_copy, sf ∙ sym s_normal ∙ s_copy)

check_publish-payload :
    (p : SharedFrameBusPublisherState) (source : Option SourceTexture)
    (metadata m : SharedFrameBusFrameMetadata) (side_data s : SharedFrameBusFrameSideData)
    → check_publish p source metadata side_data ≡ value (m, s)
    → commit_payload p metadata side_data ≡ value (m, s)
unfolding check_publish
check_publish-payload p source metadata m side_data s is =
    let (_, e1) = (refuse_iff p.shutting_down (closed_error p) _).0 is in
    let (_, e2) = (refuse_iff (not (p.reserved_producer_token == 0)) misused _).0 e1 in
    let (_, _, e3) = >>=-eq-value (validate_source p.config source) _ e2 in e3

-- A log that a claim leaves as it is grows by what is committed behind it.
Follows-after :
    (Offered : Frame → Type 0) (p q r : SharedFrameBusPublisherState)
    → Stays p q
    → Follows Offered q r
    → Follows Offered p r
Follows-after Offered p q r stays (inl rest) = inl (λ log s. rest log (stays log s))
Follows-after Offered p q r stays (inr (f, offered, grows)) =
    inr (f, offered, λ log s. grows log (stays log s))

count-Stays : (p : SharedFrameBusPublisherState) → Stays p (count_attempt p)
count-Stays p = Carries-Stays p (count_attempt p) refl (λ i t at n. (t, at, refl))

claim-Stays :
    (rounds : List Round) (p : SharedFrameBusPublisherState)
    → Stays p (claim_slot rounds (count_attempt p)).0
claim-Stays rounds p log s = claim_slot-Stays rounds (count_attempt p) log (count-Stays p log s)

claimed-Follows :
    (p : SharedFrameBusPublisherState) (d : DeviceReading) (m : SharedFrameBusFrameMetadata)
    (s : SharedFrameBusFrameSideData) (out : SharedFrameBusPublisherState × Result (ℕ × ℕ))
    → Stays p out.0
    → Follows (Copies m s) p (commit_claimed d m s out).0
unfolding commit_claimed
claimed-Follows p d m s (q, error e) stays = inl stays
claimed-Follows p d m s (q, value (slot, token)) stays =
    Follows-after (Copies m s) p q _ stays (commit_write-Follows slot token false d m s q)

Follows-weaken :
    (A B : Frame → Type 0) (p q : SharedFrameBusPublisherState)
    → ((f : Frame) → A f → B f)
    → Follows A p q
    → Follows B p q
Follows-weaken A B p q w (inl stays) = inl stays
Follows-weaken A B p q w (inr (f, offered, grows)) = inr (f, w f offered, grows)

pub publish-Follows :
    (source : Option SourceTexture) (m : SharedFrameBusFrameMetadata)
    (s : SharedFrameBusFrameSideData) (rounds : List Round) (d : DeviceReading)
    (p : SharedFrameBusPublisherState)
    → FullArrays s
    → Follows (Copies m s) p (publish source m s rounds d p).0
unfolding publish publish_checked
publish-Follows source m s rounds d p full = elim (Result-cases (check_publish p source m s)) [
  | inl (e, bad) ↦ rw bad (inl (λ log shown. shown))
  | inr ((m', s'), good) ↦ rw good (
      Follows-weaken (Copies m' s') (Copies m s) p _
        (λ f copies.
          Copies-again p m m' s s' f full (check_publish-payload p source m m' s s' good) copies)
        (claimed-Follows p d m' s' (claim_slot rounds (count_attempt p)) (claim-Stays rounds p)))
]

pub commit_reserved-Follows :
    (token : ℕ) (lease : SharedFrameBusWriteLease) (d : DeviceReading)
    (m : SharedFrameBusFrameMetadata) (s : SharedFrameBusFrameSideData)
    (p : SharedFrameBusPublisherState)
    → Follows (Copies m s) p (commit_reserved token lease d m s p).0
unfolding commit_reserved
commit_reserved-Follows token lease d m s p =
    (FollowsWith-if (Copies m s) p (token == 0 || not (p.reserved_producer_token == token))
      (cancel_write lease.slot lease.token p, misused)
      (commit_write lease.slot lease.token true d m s p)
      (record { follows = inl (cancel_write-Stays lease.slot lease.token p) })
      (record { follows = commit_write-Follows lease.slot lease.token true d m s p })).follows

-- The slots and the sequence number are as they were.
aside_from :
    (p q : SharedFrameBusPublisherState) → q.sequence ≡ p.sequence → q.slots ≡ p.slots → Stays p q
aside_from p q same is = Carries-Stays p q same (λ i t at n. (t, rw is at at, refl))

module _ (p : SharedFrameBusPublisherState) where
  pub release_producer-Stays : (token : ℕ) → Stays p (release_producer token p)
  unfolding release_producer
  release_producer-Stays token =
      elim (Bool-cases (token == 0 || not (p.reserved_producer_token == token))) [
        | inl other ↦ rw other (λ log s. s)
        | inr mine ↦
            let cancelled =
              if p.writer_active then cancel_write p.writer_slot p.writer_token p else p in
            let first : Stays p cancelled =
              elim p.writer_active
                as (λ b. Stays p (if b then cancel_write p.writer_slot p.writer_token p else p)) [
                  | true ↦ cancel_write-Stays p.writer_slot p.writer_token p
                  | false ↦ λ log s. s
                ] in
            rw mine (λ log s. aside_from cancelled _ refl refl log (first log s))
      ]

  pub reset_lease-Stays : (lease : SharedFrameBusWriteLease) → Stays p (reset_lease lease p)
  unfolding reset_lease
  reset_lease-Stays lease = elim (Bool-cases (lease.token == 0)) [
    | inl none_taken ↦ rw none_taken (λ log s. s)
    | inr taken ↦ rw taken (cancel_write-Stays lease.slot lease.token p)
  ]

  pub shape_checked-Stays :
      (r : Result (Unit {0})) (shape : WgcCursorShape) → Stays p (shape_checked r shape p).0
  unfolding shape_checked
  shape_checked-Stays (error e) shape = λ log s. s
  shape_checked-Stays (value done) shape = aside_from p _ refl refl

  pub moves_checked-Stays : (r : Result SharedFrameBusMoveResult) → Stays p (moves_checked r p).0
  unfolding moves_checked
  moves_checked-Stays (error e) = λ log s. s
  moves_checked-Stays (value r) = aside_from p _ refl refl

module _ (Offered : Frame → Type 0) (p : SharedFrameBusPublisherState) where
  lease_of-Follows :
      (out : SharedFrameBusPublisherState × Result (ℕ × ℕ))
      → Stays p out.0
      → FollowsWith Offered p (lease_of out)
  unfolding lease_of
  lease_of-Follows (q, error e) stays = record { follows = inl stays }
  lease_of-Follows (q, value (slot, token)) stays = record { follows = inl stays }

  pub begin_publish-Follows :
      (free once empty : Bool) (token : ℕ) (rounds : List Round)
      → FollowsWith Offered p (begin_publish free once empty token rounds p)
  unfolding begin_publish
  begin_publish-Follows free once empty token rounds =
      refused Offered p (not (token == 0) && once && not free) (error timeout_error) _ (
        refused Offered p (not empty) (error misused) _ (
          refused Offered p p.shutting_down (error (closed_error p)) _ (
            refused Offered p (wrong_producer token p) (error misused) _
              (lease_of-Follows (claim_slot rounds (count_attempt p)) (claim-Stays rounds p)))))

  pub reserve_producer-Follows : FollowsWith Offered p (reserve_producer 0 p)
  unfolding reserve_producer
  reserve_producer-Follows = refused Offered p p.shutting_down (error (closed_error p)) _ (
      refused Offered p (not (p.reserved_producer_token == 0) || p.writer_active) (error misused) _
        (record { follows = inl (aside_from p _ refl refl) }))

-- The registration of a consumer, after the sweep.
module _ (Offered : Frame → Type 0) (p : SharedFrameBusPublisherState) where
  numbered-Follows :
      (o : RegistrationReading) (index token : ℕ) (q : SharedFrameBusPublisherState)
      → Stays p q
      → FollowsWith Offered p (register_numbered o index token q)
  unfolding register_numbered poison_consumer enrol_consumer
  numbered-Follows o index token q stays =
      let later : (r : SharedFrameBusPublisherState) → Stays q r → Stays p r =
        λ r next log s. next log (stays log s) in
      FollowsWith-if Offered p (not o.duplicated || o.target_exited || o.wait_failed) _ _
        (elim (Bool-cases (not o.rolled_back && not o.target_exited)) [
          | inl leaked ↦ rw leaked (record { follows = inl (later _ (aside_from q _ refl refl)) })
          | inr clean ↦ rw clean (record { follows = inl stays })
        ])
        (record { follows = inl (later _ (aside_from q _ refl refl)) })

  checked-Follows :
      (r : Result (Unit {0})) (o : RegistrationReading) (index : ℕ)
      (q : SharedFrameBusPublisherState)
      → Stays p q
      → FollowsWith Offered p (register_checked r o index q)
  unfolding register_checked
  checked-Follows (error e) o index q stays = record { follows = inl stays }
  checked-Follows (value done) o index q stays =
      numbered-Follows o index q.next_consumer_generation
        (record q { next_consumer_generation = q.next_consumer_generation + 1 })
        (λ log s. aside_from q _ refl refl log (stays log s))

  swept-Follows :
      (o : RegistrationReading) (free : Option ℕ) (q : SharedFrameBusPublisherState)
      → Stays p q
      → FollowsWith Offered p (register_swept o free q)
  unfolding register_swept
  swept-Follows o none q stays = record { follows = inl stays }
  swept-Follows o (some index) q stays =
      checked-Follows (check_system o q.next_consumer_generation) o index q stays

  pub register_consumer-Follows :
      (o : RegistrationReading) (readings : List ConsumerReading)
      → FollowsWith Offered p (register_consumer o readings p)
  unfolding register_consumer
  register_consumer-Follows o readings =
      let q = (sweep_consumers readings p).0 in
      let stays = Kept-Stays p q (sweep_consumers-Kept readings p) in
      refused Offered p o.target_is_null (error (make_error invalid_argument e_handle)) _ (
        refused Offered p p.shutting_down (error (closed_error p)) _ (
          refused Offered p p.writer_active (error timeout_error) _ (
            FollowsWith-if Offered p (not (is_ok (sweep_consumers readings p).1)) _ _
              (record { follows = inl stays })
              (swept-Follows o (first_inactive 0 q.consumers) q stays))))
