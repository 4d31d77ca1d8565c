-- ===== src/Bus/Log/Commit.antt =====
-- Claims and commits on the log: only a commit that goes through adds to it, and what it adds is the
-- copy of what it was given.
use fluxcap.Prelude.{
  ℕ, ◌+◌, ◌-◌, ◌≡◌, inl, inr, refl, subst, Bool, true, List, Bool-cases, leb, u64_max,
}
use fluxcap.Gpu.{
  Result-cases, value, make_error, system_error, e_unexpected, refuse_iff, >>=-eq-value,
}
use fluxcap.Bus.Metadata.{SharedFrameBusFrameMetadata, copy_valid_fields, normalize_metadata}
use fluxcap.Bus.Metadata.Normal.{normalize_metadata-Acceptable}
use fluxcap.Bus.SideData.{SharedFrameBusFrameSideData, copy_counted_rects, normalize_side_data}
use fluxcap.Bus.SideData.Normal.{normalize_side_data-Acceptable}
use fluxcap.Bus.Publisher.{SharedFrameBusPublisherState}
use fluxcap.Bus.Publisher.Sweep.{has_failed}
use fluxcap.Bus.Publisher.Write.{
  Round, DeviceReading, take_slot, claim_slot, cancel_write, give_back, set_writer, with_numbers,
  publish_in, publish_slot, commit_payload, commit_checked, commit_write, owns_write, removed_state,
}
use fluxcap.Bus.Publisher.Claim.{claim_slot-ClaimEnds}
use fluxcap.Bus.Log.{
  Frame, Stays, Follows, Carries-Stays, Kept-Stays, update-Carries, publish-Shows,
}

-- The frame that is given, in the normal form.
abbrev pub Copies : SharedFrameBusFrameMetadata → SharedFrameBusFrameSideData → Frame → Type 0
Copies m s f = (f.0 ≡ copy_valid_fields m) × (f.1 ≡ copy_counted_rects s)

pub cancel_write-Stays :
    (slot token : ℕ) (p : SharedFrameBusPublisherState) → Stays p (cancel_write slot token p)
unfolding cancel_write give_back
cancel_write-Stays slot token p = elim (Bool-cases (owns_write slot token p)) [
  | inl owns ↦ rw owns (
      Carries-Stays p _ refl
        (update-Carries p.slots slot (λ s. give_back (with_numbers 0 s)) (λ s n. absurd (n refl))))
  | inr other ↦ rw other (λ log s. s)
]

pub claim_slot-Stays :
    (rs : List Round) (p : SharedFrameBusPublisherState) → Stays p (claim_slot rs p).0
unfolding take_slot
claim_slot-Stays rs p = elim ((claim_slot-ClaimEnds rs p).0) [
  | inl (e, is, kept) ↦ Kept-Stays p (claim_slot rs p).0 kept
  | inr (q, slot, s, kept, at, free, is) ↦
      let taken : Stays q (take_slot slot s q).0 = Carries-Stays q _ refl (
        update-Carries q.slots slot (λ old. set_writer true (with_numbers 0 old))
          (λ old n. absurd (n refl))) in
      rw is (λ log shown. taken log (Kept-Stays p q kept log shown))
]

pub commit_payload-Copies :
    (p : SharedFrameBusPublisherState) (metadata : SharedFrameBusFrameMetadata)
    (side_data : SharedFrameBusFrameSideData) (f : Frame)
    → commit_payload p metadata side_data ≡ value f
    → Copies metadata side_data f
unfolding commit_payload
commit_payload-Copies p metadata side_data f e =
    let (m, e1, r1) =
      >>=-eq-value
        (normalize_metadata metadata p.config.width p.config.height p.config.color_space true) _
        e in
    let (a, r2) =
      (refuse_iff (leb (u64_max - 1) p.sequence) (make_error system_error e_unexpected) _).0 r1 in
    let (s, e2, r3) =
      >>=-eq-value (normalize_side_data side_data p.config.width p.config.height 5 (p.sequence + 1))
        _ r2 in
    let (x, copied) =
      (normalize_metadata-Acceptable metadata m p.config.width p.config.height p.config.color_space
          true).0
        e1 in
    let (y, counted) =
      (normalize_side_data-Acceptable side_data s p.config.width p.config.height 5
          (p.sequence + 1)).0
        e2 in
    let same : (m, s) ≡ f = cc r3 in subst (Copies metadata side_data) same (copied, counted)

pub commit_write-Follows :
    (slot token : ℕ) (direct : Bool) (d : DeviceReading) (metadata : SharedFrameBusFrameMetadata)
    (side_data : SharedFrameBusFrameSideData) (p : SharedFrameBusPublisherState)
    → Follows
        (Copies metadata side_data)
        p
        (commit_write slot token direct d metadata side_data p).0
unfolding commit_write commit_checked publish_slot give_back
commit_write-Follows slot token direct d metadata side_data p =
    elim (Bool-cases (owns_write slot token p)) [
      | inr not_owner ↦ rw not_owner (inl (λ log s. s))
      | inl owns ↦ elim (Result-cases (commit_payload p metadata side_data)) [
        | inl (e, bad) ↦ rw (owns, bad) (inl (cancel_write-Stays slot token p))
        | inr (f, good) ↦
            rw (owns, good)
              (elim (Bool-cases (has_failed d.removed)) [
                | inl gone ↦
                    let removed = removed_state d.removed p in
                    rw gone (
                      inl (λ log s.
                        cancel_write-Stays slot token removed log
                          (Carries-Stays p removed refl (λ i t at n. (t, at, refl)) log s)))
                | inr there ↦ rw there (elim (Bool-cases (has_failed d.signal)) [
                  | inl failed ↦ rw failed (inl (cancel_write-Stays slot token p))
                  | inr signalled ↦ rw signalled (
                      inr (
                        f,
                        commit_payload-Copies p metadata side_data f good,
                        publish-Shows p _ slot
                            (λ old. give_back (publish_in (p.sequence + 1) f.0 f.1 old)) f refl refl
                            (λ old. (refl, refl, refl)),
                      ))
                ])
              ])
      ]
    ]
