-- ===== src/Geometry/Tests.antt =====
-- A 16x16 region that is scaled to 8x8: a block of six by six pixels moves by eight pixels.
use fluxcap.Prelude.{ℕ, ◌+◌, ◌%◌, ◌≤◌, ◌<◌, ◌≡◌, ◌≢◌, ◌↔◌, refl, true, some, [], ◌∷◌, length, arith}
use fluxcap.Prelude.Int.{pos, negsuc, ◌+ℤ◌, ◌-ℤ◌, pos_part, scale, quot}
use fluxcap.Geometry.Rect.{WgcRect, SideDataGeometry, empty, mapped, valid_side_data_geometry}
use fluxcap.Geometry.Tap.{
  deterministic_point_tap, search_tap, deterministic_first_output_tap_at_least, Splits,
  first_output_tap-Splits,
}
use fluxcap.Geometry.MoveAxis.{
  axis_fits, axis_delta, axis_interval, axis_source, axis_confirmed,
  map_deterministic_planar_move_axis,
}
use fluxcap.Geometry.AxisReplay.{map_move_axis-Replays}
use fluxcap.Geometry.Damage.{
  clip_span, clip_source_rect_to_region, align_edges, tap_edges, map_local_damage_rect,
  map_local_deterministic_planar_damage_rect,
}
use fluxcap.Geometry.Coverage.{Covers, clip_source_rect_to_region-exact}
use fluxcap.Geometry.Support.{
  map_local_damage_rect-Covers, map_local_deterministic_planar_damage_rect-Covers,
}
use fluxcap.Geometry.Move.{
  DeterministicPlanarMoveMapping, WgcFrameDamage, rect_in_bounds, planar_move_fits, append_strip,
  edge_strips, interior_inside, map_interior, map_local_deterministic_planar_move,
}
use fluxcap.Geometry.Strips.{holds, holders, one_if, planar_move-Replays}

abbrev at : ℕ → ℕ → ℕ → ℕ → WgcRect
at x y width height = record { x = pos x; y = pos y; width = width; height = height }

abbrev half : SideDataGeometry
half = record {
  source_width = 16;
  source_height = 16;
  output_width = 8;
  output_height = 8;
  planar_420 = true;
}

abbrev mapping : DeterministicPlanarMoveMapping
mapping = record {
  move = record { source_x = pos 0; source_y = pos 0; destination = at 4 4 2 2 };
  dirty_rects = at 4 6 4 2 ∷ at 6 4 2 2 ∷ [];
}

half_move : map_local_deterministic_planar_move (at 0 0 6 6) (at 8 8 6 6) half ≡ (mapped, mapping)
unfolding map_local_deterministic_planar_move planar_move_fits rect_in_bounds
    valid_side_data_geometry map_local_deterministic_planar_damage_rect clip_span tap_edges
    align_edges map_interior interior_inside edge_strips append_strip
    map_deterministic_planar_move_axis axis_fits axis_delta axis_interval axis_source axis_confirmed
    deterministic_first_output_tap_at_least search_tap deterministic_point_tap ◌+ℤ◌ ◌-ℤ◌ scale quot
half_move = refl

planar_move-Replays_example :
    let affected = (map_local_deterministic_planar_damage_rect (at 8 8 6 6) half).1 in
    ((map_local_deterministic_planar_damage_rect (at 8 8 6 6) half).0 ≡ mapped)
    × ((c r : ℕ)
        → holders c r (at 4 4 2 2 ∷ at 4 6 4 2 ∷ at 6 4 2 2 ∷ []) ≡ one_if (holds c r affected))
    × (2 ≤ 4)
    × ((i : ℕ)
        → i < 2
        → deterministic_point_tap (4 + i) 16 8 + 0 ≡ deterministic_point_tap (0 + i) 16 8 + 8)
    × ((j : ℕ)
        → j < 2
        → deterministic_point_tap (4 + j) 16 8 + 0 ≡ deterministic_point_tap (0 + j) 16 8 + 8)
planar_move-Replays_example =
    planar_move-Replays (at 0 0 6 6) (at 8 8 6 6) half mapping (omega arith) (omega arith) half_move

half_axis :
    map_deterministic_planar_move_axis 0 8 6 16 8
    ≡ some (record { source_begin = 0; destination_begin = 4; length = 2 })
unfolding map_deterministic_planar_move_axis axis_fits axis_delta axis_interval axis_source
    axis_confirmed deterministic_first_output_tap_at_least search_tap deterministic_point_tap ◌+ℤ◌
    ◌-ℤ◌ scale quot
half_axis = refl

map_move_axis-Replays_example :
    (0 < 2)
    × (2 ≤ 8)
    × (6 ≤ 8)
    × (0 % 2 ≡ 0)
    × (4 % 2 ≡ 0)
    × (2 % 2 ≡ 0)
    × ((i : ℕ)
        → i < 2
        → let at_source = deterministic_point_tap (0 + i) 16 8 in
          let at_destination = deterministic_point_tap (4 + i) 16 8 in
          (at_destination + 0 ≡ at_source + 8)
          × (0 ≤ at_source)
          × (at_source < 6)
          × (8 ≤ at_destination)
          × (at_destination < 14))
map_move_axis-Replays_example =
    map_move_axis-Replays 0 8 6 16 8
      (record { source_begin = 0; destination_begin = 4; length = 2 }) (omega arith) half_axis

first_output_tap-Splits_example :
    (deterministic_first_output_tap_at_least 8 16 8 ≤ 8)
    × Splits 8 16 8 (deterministic_first_output_tap_at_least 8 16 8)
first_output_tap-Splits_example =
    first_output_tap-Splits 8 16 8 (omega arith, omega arith, omega arith)

half_valid : valid_side_data_geometry half ≡ true
unfolding valid_side_data_geometry
half_valid = refl

map_local_damage_rect-Covers_example :
    let (status, output) = map_local_damage_rect (at 3 3 2 2) half in
    (status ≢ empty) × (status ≡ mapped → Covers output 1 2)
map_local_damage_rect-Covers_example =
    map_local_damage_rect-Covers (at 3 3 2 2) half 3 4 1 2 half_valid
      (omega arith, omega arith, omega arith, omega arith) (omega arith) (omega arith) (omega arith)
      (omega arith) (omega arith) (omega arith) (omega arith)

tap_on : Covers (at 3 3 2 2) (deterministic_point_tap 1 16 8) (deterministic_point_tap 1 16 8)
unfolding deterministic_point_tap
tap_on = omega arith

map_local_deterministic_planar_damage_rect-Covers_example :
    let (status, output) = map_local_deterministic_planar_damage_rect (at 3 3 2 2) half in
    (status ≢ empty)
    × (status ≡ mapped
        → Covers output 1 1
          × (pos_part output.x % 2 ≡ 0)
          × (pos_part output.y % 2 ≡ 0)
          × (output.width % 2 ≡ 0)
          × (output.height % 2 ≡ 0)
          × (pos_part output.x + output.width ≤ 8)
          × (pos_part output.y + output.height ≤ 8))
map_local_deterministic_planar_damage_rect-Covers_example =
    map_local_deterministic_planar_damage_rect-Covers (at 3 3 2 2) half 1 1 half_valid refl
      (omega arith, omega arith, omega arith) (omega arith, omega arith, omega arith) (omega arith)
      (omega arith) tap_on

abbrev overhang : WgcRect
overhang = record { x = negsuc 2; y = pos 5; width = 10; height = 10 }

clip_source_rect_to_region-exact_example :
    let (status, local) = clip_source_rect_to_region overhang 2 4 16 16 in
    (status ≡ mapped → Covers local 3 4 ↔ (Covers overhang (3 + 2) (4 + 4) × (3 < 16) × (4 < 16)))
    × (status ≡ empty → 3 < 16 → 4 < 16 → ¬ Covers overhang (3 + 2) (4 + 4))
clip_source_rect_to_region-exact_example = clip_source_rect_to_region-exact overhang 2 4 16 16 3 4

abbrev full_frame : WgcFrameDamage
full_frame = record { dirty_rects = at 0 0 8 8 ∷ []; move_rects = [] }
