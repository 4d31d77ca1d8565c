-- ===== src/Bus/MoveResult.antt =====
-- Moves that are found after their frame was published: `SharedFrameBusMoveResult` and
-- `normalize_move_result`.
pub mod Normal
use fluxcap.Prelude.{
  ℕ, ◌/◌, ◌%◌, ◌^◌, Bool, true, false, not, ◌&&◌, ◌||◌, ◌==◌, ltb, leb, List, if◌then◌else◌,
}
use fluxcap.Gpu.{Result, value, ◌>>=◌, ◌>>◌, refuse, invalid}
use fluxcap.Geometry.Rect.{WgcMoveRect}
use fluxcap.Geometry.Move.{wgc_max_move_rects}
use fluxcap.Bus.Metadata.{has_flag}
use fluxcap.Bus.Rects.{valid_bus_move, all_valid, copy_counted}
use fluxcap.Bus.SideData.{empty_move}

pub record SharedFrameBusMoveResult : Type 0 where
  pub structure_size : ℕ
  pub result_version : ℕ
  pub epoch : ℕ
  pub epoch_nonce : ℕ
  pub sequence : ℕ
  pub base_sequence : ℕ
  pub move_count : ℕ
  pub flags : ℕ
  pub reserved : ℕ × ℕ
  pub move_rects : List WgcMoveRect

abbrev pub move_result_size : ℕ
move_result_size = 448

abbrev pub result_valid : ℕ
result_valid = 0

abbrev pub result_inferred : ℕ
result_inferred = 1

abbrev pub result_fail_closed : ℕ
result_fail_closed = 2

abbrev pub result_capacity_exceeded : ℕ
result_capacity_exceeded = 3

-- The known flags are the lowest four.
unfoldable pub bad_move_header : SharedFrameBusMoveResult → Bool
bad_move_header r =
    let has = has_flag r.flags in
    not (r.structure_size == move_result_size)
    || not (r.result_version == 1)
    || r.epoch == 0
    || r.epoch_nonce == 0
    || r.sequence == 0
    || r.base_sequence == 0
    || leb r.sequence r.base_sequence
    || ltb wgc_max_move_rects r.move_count
    || ltb 15 r.flags
    || not (has result_valid)
    || not (r.reserved.0 == 0)
    || not (r.reserved.1 == 0)
    || (if has result_inferred then r.move_count == 0 else not (r.move_count == 0))
    || (has result_capacity_exceeded && not (has result_fail_closed))
    || (has result_fail_closed && not (r.move_count == 0))

unfoldable pub copy_counted_moves : SharedFrameBusMoveResult → SharedFrameBusMoveResult
unfolding copy_counted
copy_counted_moves r = record {
  structure_size = move_result_size;
  result_version = 1;
  epoch = r.epoch;
  epoch_nonce = r.epoch_nonce;
  sequence = r.sequence;
  base_sequence = r.base_sequence;
  move_count = r.move_count;
  flags = r.flags;
  reserved = (0, 0);
  move_rects = copy_counted wgc_max_move_rects r.move_count empty_move r.move_rects;
}

unfoldable pub normalize_move_result :
    SharedFrameBusMoveResult → ℕ → ℕ → Result SharedFrameBusMoveResult
unfolding bad_move_header valid_bus_move all_valid copy_counted_moves
normalize_move_result r bus_width bus_height = do
  refuse (bad_move_header r) invalid
  refuse (not (all_valid (λ m. valid_bus_move m bus_width bus_height) r.move_count r.move_rects))
      invalid
  value (copy_counted_moves r)
