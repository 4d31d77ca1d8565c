-- ===== src/Bus/Publisher/CommitKept.antt =====
-- A commit publishes what its readers accept.
use fluxcap.Prelude.{
  ℕ, ◌+◌, ◌-◌, ◌<◌, ◌≡◌, inl, inr, refl, sym, subst, Bool, true, leb, u64_max, arith, Bool-cases,
}
use fluxcap.Gpu.{
  Result-cases, value, make_error, system_error, e_unexpected, refuse_iff, >>=-eq-value,
}
use fluxcap.Bus.Metadata.{SharedFrameBusFrameMetadata, normalize_metadata}
use fluxcap.Bus.Metadata.Normal.{normalize_metadata-again}
use fluxcap.Bus.SideData.{SharedFrameBusFrameSideData, normalize_side_data}
use fluxcap.Bus.SideData.Again.{
  FullArrays, normalize_side_data-again, normalize_side_data-FullArrays,
}
use fluxcap.Bus.Publisher.{SharedFrameBusPublisherState}
use fluxcap.Bus.Publisher.Sweep.{has_failed}
use fluxcap.Bus.Publisher.Write.{
  DeviceReading, give_back, publish_in, publish_slot, commit_payload, commit_checked, commit_write,
  owns_write, removed_state,
}
use fluxcap.Bus.Publisher.Invariant.{IsValid}
use fluxcap.Bus.Publisher.WriteKept.{
  update-SlotsAreValid, no_writer_elsewhere, cancel_write-IsValid,
}

-- A payload that its readers take as it is, and room for one more frame.
pub record Publishable (p : SharedFrameBusPublisherState) (m : SharedFrameBusFrameMetadata)
    (s : SharedFrameBusFrameSideData) : Type 0 where
  pub metadata :
      normalize_metadata m p.config.width p.config.height p.config.color_space true ≡ value m
  pub side_data : normalize_side_data s p.config.width p.config.height 5 (p.sequence + 1) ≡ value s
  pub room : p.sequence < u64_max - 1

pub commit_payload-Publishable :
    (p : SharedFrameBusPublisherState) (metadata m : SharedFrameBusFrameMetadata)
    (side_data s : SharedFrameBusFrameSideData)
    → FullArrays side_data
    → commit_payload p metadata side_data ≡ value (m, s)
    → Publishable p m s
unfolding commit_payload
commit_payload-Publishable p metadata m side_data s full e =
    let (m', e1, r1) =
      >>=-eq-value
        (normalize_metadata metadata p.config.width p.config.height p.config.color_space true) _
        e in
    let (a, r2) =
      (refuse_iff (leb (u64_max - 1) p.sequence) (make_error system_error e_unexpected) _).0 r1 in
    let (s', e2, r3) =
      >>=-eq-value (normalize_side_data side_data p.config.width p.config.height 5 (p.sequence + 1))
        _ r2 in
    let same_m : m' ≡ m = cc r3 in
    let same_s : s' ≡ s = cc r3 in
    record {
      metadata = rw (sym same_m) (
          (normalize_metadata-again metadata m' p.config.width p.config.height p.config.color_space
            true e1).0);
      side_data = rw (sym same_s) (
          normalize_side_data-again side_data s' p.config.width p.config.height 5 (p.sequence + 1)
            full e2);
      room = ground (arith, a);
    }

module _ (slot token : ℕ) (direct : Bool) (m : SharedFrameBusFrameMetadata)
    (s : SharedFrameBusFrameSideData) (p : SharedFrameBusPublisherState)
    (owns : owns_write slot token p ≡ true) where
  publish_slot-IsValid : Publishable p m s → IsValid p → IsValid (publish_slot slot direct m s p)
  unfolding publish_slot give_back
  publish_slot-IsValid ready v = (
    update-SlotsAreValid slot (λ old. give_back (publish_in (p.sequence + 1) m s old)) p.slots
        (omega arith)
        (λ old at. record {
          bound = omega arith;
          numbers = λ _. (refl, refl);
          metadata = λ _. ready.metadata;
          side_data = λ _. ready.side_data;
          writing = λ w. cc;
          alone = λ w. cc;
        })
        (λ old at. (λ w. cc, λ w. cc)) (no_writer_elsewhere slot token p owns _)
        (λ old at z. omega arith) v.0,
    omega (arith, ready.room),
  )

  commit_checked-IsValid :
      (d : DeviceReading)
      → Publishable p m s
      → IsValid p
      → IsValid (commit_checked slot token direct d m s p).0
  unfolding commit_checked
  commit_checked-IsValid d ready v = elim (Bool-cases (has_failed d.removed)) [
    | inl gone ↦ rw gone (cancel_write-IsValid slot token (removed_state d.removed p) v)
    | inr there ↦ rw there (elim (Bool-cases (has_failed d.signal)) [
      | inl refused ↦ rw refused (cancel_write-IsValid slot token p v)
      | inr signalled ↦ rw signalled (publish_slot-IsValid ready v)
    ])
  ]

pub commit_write-IsValid :
    (slot token : ℕ) (direct : Bool) (d : DeviceReading) (metadata : SharedFrameBusFrameMetadata)
    (side_data : SharedFrameBusFrameSideData) (p : SharedFrameBusPublisherState)
    → FullArrays side_data
    → IsValid p
    → IsValid (commit_write slot token direct d metadata side_data p).0
unfolding commit_write
commit_write-IsValid slot token direct d metadata side_data p full v =
    elim (Bool-cases (owns_write slot token p)) [
      | inr not_owner ↦ rw not_owner v
      | inl owns ↦ elim (Result-cases (commit_payload p metadata side_data)) [
        | inl (e, bad) ↦ rw (owns, bad) (cancel_write-IsValid slot token p v)
        | inr ((m, s), good) ↦
            rw (owns, good)
              (commit_checked-IsValid slot token direct m s p owns d
                (commit_payload-Publishable p metadata m side_data s full good) v)
      ]
    ]

-- The payload that a commit normalizes has full arrays again.
pub commit_payload-FullArrays :
    (p : SharedFrameBusPublisherState) (metadata m : SharedFrameBusFrameMetadata)
    (side_data s : SharedFrameBusFrameSideData)
    → FullArrays side_data
    → commit_payload p metadata side_data ≡ value (m, s)
    → FullArrays s
unfolding commit_payload
commit_payload-FullArrays p metadata m side_data s full e =
    let (m', e1, r1) =
      >>=-eq-value
        (normalize_metadata metadata p.config.width p.config.height p.config.color_space true) _
        e in
    let (a, r2) =
      (refuse_iff (leb (u64_max - 1) p.sequence) (make_error system_error e_unexpected) _).0 r1 in
    let (s', e2, r3) =
      >>=-eq-value (normalize_side_data side_data p.config.width p.config.height 5 (p.sequence + 1))
        _ r2 in
    let same : s' ≡ s = cc r3 in
    subst FullArrays same (
      normalize_side_data-FullArrays side_data s' p.config.width p.config.height 5 (p.sequence + 1)
        full e2)
