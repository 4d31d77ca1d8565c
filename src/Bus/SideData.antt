-- ===== src/Bus/SideData.antt =====
-- What comes with a frame: the damage and the cursor, `SharedFrameBusFrameSideData` and
-- `normalize_side_data`.
pub mod Normal
pub mod Again
use fluxcap.Prelude.{
  ℕ, ◌/◌, ◌%◌, ◌^◌, Bool, true, false, not, ◌&&◌, ◌||◌, ◌==◌, ltb, leb, List, get_or, replicate,
  if◌then◌else◌,
}
use fluxcap.Prelude.Int.{ℤ, pos, pos_part}
use fluxcap.Gpu.{Result, value, ◌>>=◌, ◌>>◌, refuse, invalid}
use fluxcap.Geometry.Rect.{WgcRect, WgcMoveRect, no_rect}
use fluxcap.Geometry.Move.{wgc_max_dirty_rects, wgc_max_move_rects, is_negative}
use fluxcap.Bus.Metadata.{has_flag}
use fluxcap.Bus.Rects.{valid_bus_rect, valid_bus_move, all_valid, copy_counted}

-- Here the arrays have all their entries: 64 rectangles and 16 moves.
pub record WgcFrameDamage : Type 0 where
  pub base_sequence : ℕ
  pub dirty_count : ℕ
  pub move_count : ℕ
  pub flags : ℕ
  pub reserved : ℕ
  pub dirty_rects : List WgcRect
  pub move_rects : List WgcMoveRect

pub record WgcCursorInfo : Type 0 where
  pub sample_qpc : ℕ
  pub shape_sequence : ℕ
  pub screen_x : ℤ
  pub screen_y : ℤ
  pub frame_x : ℤ
  pub frame_y : ℤ
  pub width : ℕ
  pub height : ℕ
  pub hotspot_x : ℕ
  pub hotspot_y : ℕ
  pub flags : ℕ
  pub reserved : ℕ

pub record SharedFrameBusFrameSideData : Type 0 where
  pub structure_size : ℕ
  pub side_data_version : ℕ
  pub epoch : ℕ
  pub epoch_nonce : ℕ
  pub damage : WgcFrameDamage
  pub cursor : WgcCursorInfo
  pub reserved : ℕ

-- `sizeof(SharedFrameBusFrameSideData)`.
abbrev pub side_data_size : ℕ
side_data_size = 1520

abbrev pub damage_valid : ℕ
damage_valid = 0

abbrev pub damage_native : ℕ
damage_native = 1

abbrev pub damage_full_frame : ℕ
damage_full_frame = 2

abbrev pub native_move_unavailable : ℕ
native_move_unavailable = 5

abbrev pub inferred_move : ℕ
inferred_move = 6

abbrev pub native_move_available : ℕ
native_move_available = 8

abbrev pub position_valid : ℕ
position_valid = 1

abbrev pub position_estimated : ℕ
position_estimated = 2

abbrev pub shape_pending : ℕ
shape_pending = 3

abbrev pub empty_move : WgcMoveRect
empty_move = record { source_x = pos 0; source_y = pos 0; destination = no_rect }

-- `SharedFrameBusFrameSideData{}`.
abbrev pub empty_side_data : SharedFrameBusFrameSideData
empty_side_data = record {
  structure_size = side_data_size;
  side_data_version = 1;
  epoch = 0;
  epoch_nonce = 0;
  damage = record {
    base_sequence = 0;
    dirty_count = 0;
    move_count = 0;
    flags = 0;
    reserved = 0;
    dirty_rects = replicate wgc_max_dirty_rects no_rect;
    move_rects = replicate wgc_max_move_rects empty_move;
  };
  cursor = record {
    sample_qpc = 0;
    shape_sequence = 0;
    screen_x = pos 0;
    screen_y = pos 0;
    frame_x = pos 0;
    frame_y = pos 0;
    width = 0;
    height = 0;
    hotspot_x = 0;
    hotspot_y = 0;
    flags = 0;
    reserved = 0;
  };
  reserved = 0;
}

-- The known damage flags are the lowest eight bits, with one more since protocol 5, and the known
-- cursor flags are the lowest four.
unfoldable pub bad_side_data_header : SharedFrameBusFrameSideData → Bool → Bool
bad_side_data_header s v5 =
    not (s.structure_size == side_data_size)
    || not (s.side_data_version == 1)
    || not (s.reserved == 0)
    || not (s.damage.reserved == 0)
    || not (s.cursor.reserved == 0)
    || (if s.epoch == 0 then not (s.epoch_nonce == 0) else s.epoch_nonce == 0)
    || ltb (if v5 then 511 else 255) s.damage.flags
    || ltb 15 s.cursor.flags
    || ltb wgc_max_dirty_rects s.damage.dirty_count
    || ltb wgc_max_move_rects s.damage.move_count

unfoldable pub bad_inactive : WgcFrameDamage → Bool
bad_inactive d =
    not (d.base_sequence == 0)
    || not (d.dirty_count == 0)
    || not (d.move_count == 0)
    || not (d.flags == 0)

unfoldable pub bad_full_frame : WgcFrameDamage → ℕ → ℕ → Bool
bad_full_frame d bus_width bus_height =
    let first = get_or d.dirty_rects 0 no_rect in
    has_flag d.flags damage_full_frame
    && (not (d.dirty_count == 1)
        || is_negative first.x
        || not (pos_part first.x == 0)
        || is_negative first.y
        || not (pos_part first.y == 0)
        || not (first.width == bus_width)
        || not (first.height == bus_height))

unfoldable pub bad_provenance : WgcFrameDamage → Bool → Bool
bad_provenance d v5 =
    let native = has_flag d.flags native_move_available in
    let inferred = has_flag d.flags inferred_move in
    if v5
    then (native && inferred)
      || (native
          && (not (has_flag d.flags damage_native) || has_flag d.flags native_move_unavailable))
      || (not (d.move_count == 0) && not native && not inferred)
      || (d.move_count == 0 && inferred)
    else not (d.move_count == 0) && not inferred

unfoldable pub bad_base : WgcFrameDamage → Bool → ℕ → Bool
bad_base d v5 frame_sequence =
    v5
    && not (frame_sequence == 0)
    && (leb frame_sequence d.base_sequence || (not (d.move_count == 0) && d.base_sequence == 0))

unfoldable pub check_active : WgcFrameDamage → ℕ → ℕ → Bool → ℕ → Result (Unit {0})
unfolding bad_full_frame bad_provenance bad_base valid_bus_rect valid_bus_move all_valid
check_active d bus_width bus_height v5 frame_sequence = do
  refuse (bad_full_frame d bus_width bus_height) invalid
  refuse (bad_provenance d v5) invalid
  refuse (bad_base d v5 frame_sequence) invalid
  refuse (not (all_valid (λ r. valid_bus_rect r bus_width bus_height) d.dirty_count d.dirty_rects))
      invalid
  refuse (not (all_valid (λ m. valid_bus_move m bus_width bus_height) d.move_count d.move_rects))
      invalid
  value tt

unfoldable pub check_damage : WgcFrameDamage → ℕ → ℕ → Bool → ℕ → Result (Unit {0})
unfolding bad_inactive check_active
check_damage d bus_width bus_height v5 frame_sequence =
    if not (has_flag d.flags damage_valid)
    then refuse (bad_inactive d) invalid
    else check_active d bus_width bus_height v5 frame_sequence

unfoldable pub bad_estimate : WgcCursorInfo → Bool
bad_estimate c = has_flag c.flags position_estimated && not (has_flag c.flags position_valid)

unfoldable pub bad_shape : WgcCursorInfo → Bool
bad_shape c =
    if c.shape_sequence == 0
    then not (c.width == 0)
      || not (c.height == 0)
      || not (c.hotspot_x == 0)
      || not (c.hotspot_y == 0)
      || has_flag c.flags shape_pending
    else if (c.width == 0 || c.height == 0) && not (has_flag c.flags shape_pending)
    then true
    else not (c.width == 0) && (leb c.width c.hotspot_x || leb c.height c.hotspot_y)

-- Only the counted entries of the arrays are copied.
unfoldable pub copy_counted_rects : SharedFrameBusFrameSideData → SharedFrameBusFrameSideData
unfolding copy_counted
copy_counted_rects s = record {
  structure_size = side_data_size;
  side_data_version = 1;
  epoch = s.epoch;
  epoch_nonce = s.epoch_nonce;
  damage = record {
    base_sequence = s.damage.base_sequence;
    dirty_count = s.damage.dirty_count;
    move_count = s.damage.move_count;
    flags = s.damage.flags;
    reserved = 0;
    dirty_rects =
        copy_counted wgc_max_dirty_rects s.damage.dirty_count no_rect s.damage.dirty_rects;
    move_rects = copy_counted wgc_max_move_rects s.damage.move_count empty_move s.damage.move_rects;
  };
  cursor = s.cursor;
  reserved = 0;
}

unfoldable pub normalize_side_data :
    SharedFrameBusFrameSideData → ℕ → ℕ → ℕ → ℕ → Result SharedFrameBusFrameSideData
unfolding bad_side_data_header check_damage bad_estimate bad_shape copy_counted_rects
normalize_side_data s bus_width bus_height protocol_version frame_sequence = do
  let v5 = leb 5 protocol_version
  refuse (bad_side_data_header s v5) invalid
  check_damage s.damage bus_width bus_height v5 frame_sequence
  refuse (bad_estimate s.cursor) invalid
  refuse (bad_shape s.cursor) invalid
  value (copy_counted_rects s)
