-- ===== src/Bus/MoveResult/Normal.antt =====
-- Which results are normalized, and what normalizing them again gives.
use fluxcap.Prelude.{
  ℕ, ◌≤◌, ◌<◌, ◌≡◌, ◌≢◌, ◌↔◌, refl, sym, ap, subst, true, false, not, All, take, length, arith,
}
use fluxcap.Gpu.{value, invalid, refuse_iff, not-false}
use fluxcap.Bus.Metadata.{has_flag}
use fluxcap.Bus.Rects.{
  valid_bus_move, all_valid, MoveInFrame, valid_bus_move-MoveInFrame, all_valid-All,
  take-copy_counted, copy_counted-twice,
}
use fluxcap.Bus.SideData.{empty_move}
use fluxcap.Bus.MoveResult.{
  SharedFrameBusMoveResult, move_result_size, result_valid, result_inferred, result_fail_closed,
  result_capacity_exceeded, bad_move_header, copy_counted_moves, normalize_move_result,
}

-- What the header asks of a result on a bus of this size.
pub record Acceptable (r : SharedFrameBusMoveResult) (w h : ℕ) : Type 0 where
  pub layout : (r.structure_size ≡ move_result_size) × (r.result_version ≡ 1)
  pub reserved : (r.reserved.0 ≡ 0) × (r.reserved.1 ≡ 0)
  pub key : (r.epoch ≢ 0) × (r.epoch_nonce ≢ 0) × (r.sequence ≢ 0)
  pub base : (r.base_sequence ≢ 0) × (r.base_sequence < r.sequence)
  pub count : r.move_count ≤ 16
  pub flags : (r.flags ≤ 15) × (has_flag r.flags result_valid ≡ true)
  pub inferred : (has_flag r.flags result_inferred ≡ true) ↔ (r.move_count ≢ 0)
  pub exceeded :
      has_flag r.flags result_capacity_exceeded ≡ true → has_flag r.flags result_fail_closed ≡ true
  pub fail_closed : has_flag r.flags result_fail_closed ≡ true → r.move_count ≡ 0
  pub moves : All (λ m. MoveInFrame m w h) (take r.move_count r.move_rects)

module _ (r : SharedFrameBusMoveResult) where
  header_lem : (bad_move_header r ≡ false) ↔ (
      (r.structure_size ≡ move_result_size)
      × (r.result_version ≡ 1)
      × (r.reserved.0 ≡ 0)
      × (r.reserved.1 ≡ 0)
      × (r.epoch ≢ 0)
      × (r.epoch_nonce ≢ 0)
      × (r.sequence ≢ 0)
      × (r.base_sequence ≢ 0)
      × (r.base_sequence < r.sequence)
      × (r.move_count ≤ 16)
      × (r.flags ≤ 15)
      × (has_flag r.flags result_valid ≡ true)
      × ((has_flag r.flags result_inferred ≡ true) ↔ (r.move_count ≢ 0))
      × (has_flag r.flags result_capacity_exceeded ≡ true
          → has_flag r.flags result_fail_closed ≡ true)
      × (has_flag r.flags result_fail_closed ≡ true → r.move_count ≡ 0))
  unfolding bad_move_header
  header_lem = ground arith

-- A result is normalized exactly when it is acceptable, and what comes out has its counted moves.
pub normalize_move_result-Acceptable :
    (r out : SharedFrameBusMoveResult) (w h : ℕ)
    → (normalize_move_result r w h ≡ value out) ↔ (Acceptable r w h × (out ≡ copy_counted_moves r))
unfolding normalize_move_result
normalize_move_result-Acceptable r out w h =
    let moves =
      all_valid-All (λ m. MoveInFrame m w h) (λ m. valid_bus_move m w h)
        (λ m. valid_bus_move-MoveInFrame m w h) r.move_count r.move_rects in
    (
      λ e.
          let (a, e1) = (refuse_iff (bad_move_header r) invalid _).0 e in
          let (b, e2) =
            (refuse_iff (not (all_valid (λ m. valid_bus_move m w h) r.move_count r.move_rects))
                invalid _).0
              e1 in
          let p = (header_lem r).0 a in
          (
            record {
              layout = (p.0, p.1);
              reserved = (p.2, p.3);
              key = (p.4, p.5, p.6);
              base = (p.7, p.8);
              count = p.9;
              flags = (p.10, p.11);
              inferred = p.12;
              exceeded = p.13;
              fail_closed = p.14;
              moves = moves.0 ((not-false _).0 b);
            },
            cc e2,
          ),
      λ (a, e).
          rw
            (
              (header_lem r).1 (
                a.layout.0, a.layout.1, a.reserved.0, a.reserved.1, a.key.0, a.key.1, a.key.2,
                a.base.0, a.base.1, a.count, a.flags.0, a.flags.1, a.inferred, a.exceeded,
                a.fail_closed,
              ),
              moves.1 a.moves,
            )
            (ap value (sym e)),
    )

copy-Acceptable :
    (r : SharedFrameBusMoveResult) (w h : ℕ)
    → length r.move_rects ≡ 16
    → Acceptable r w h
    → Acceptable (copy_counted_moves r) w h
unfolding copy_counted_moves
copy-Acceptable r w h full a = record {
  layout = (refl, refl);
  reserved = (refl, refl);
  key = a.key;
  base = a.base;
  count = a.count;
  flags = a.flags;
  inferred = a.inferred;
  exceeded = a.exceeded;
  fail_closed = a.fail_closed;
  moves =
      subst (All (λ m. MoveInFrame m w h))
        (sym (take-copy_counted 16 r.move_count empty_move r.move_rects (omega (arith, a.count))))
        a.moves;
}

copy-twice :
    (r : SharedFrameBusMoveResult)
    → r.move_count ≤ length r.move_rects
    → copy_counted_moves (copy_counted_moves r) ≡ copy_counted_moves r
unfolding copy_counted_moves
copy-twice r h = rw (copy_counted-twice 16 r.move_count empty_move r.move_rects h)

-- A move result that has been normalized is accepted again, as it is, when the array of the input has
-- its sixteen entries.
pub normalize_move_result-again :
    (r out : SharedFrameBusMoveResult) (w h : ℕ)
    → length r.move_rects ≡ 16
    → normalize_move_result r w h ≡ value out
    → normalize_move_result out w h ≡ value out
normalize_move_result-again r out w h full e =
    let (a, copied) = (normalize_move_result-Acceptable r out w h).0 e in
    let again =
      normalize_move_result-Acceptable (copy_counted_moves r) (copy_counted_moves r) w h in
    rw copied (again.1 (copy-Acceptable r w h full a, sym (copy-twice r (omega (arith, a.count)))))
