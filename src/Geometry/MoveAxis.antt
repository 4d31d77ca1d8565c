-- ===== src/Geometry/MoveAxis.antt =====
-- One axis of a native move under the deterministic planar kernel.
use fluxcap.Prelude.{
  ℕ, ◌+◌, ◌-◌, ◌%◌, Bool, not, ◌&&◌, ◌||◌, ◌==◌, ltb, leb, Option, some, i32_max, require, ◌>>=◌,
  ◌>>◌,
}
use fluxcap.Prelude.Int.{ℤ, pos, ◌-ℤ◌, leb_ℤ, ltb_ℤ, scale, quot, is_multiple, pos_part, abs}
use fluxcap.Geometry.Rect.{both_even}
use fluxcap.Geometry.Tap.{deterministic_point_tap, deterministic_first_output_tap_at_least}

-- The three output parameters of `map_deterministic_planar_move_axis`.
pub record AxisMove : Type 0 where
  pub source_begin : ℕ
  pub destination_begin : ℕ
  pub length : ℕ

unfoldable pub axis_fits : ℕ → ℕ → ℕ → ℕ → ℕ → Bool
axis_fits source_begin destination_begin length source_extent output_extent = not (
    source_extent == 0
    || output_extent == 0
    || not (output_extent % 2 == 0)
    || ltb i32_max output_extent
    || length == 0
    || leb source_extent source_begin
    || leb source_extent destination_begin
    || ltb (source_extent - source_begin) length
    || ltb (source_extent - destination_begin) length)

-- `output_delta`, when the scaled displacement is exact and even.
unfoldable pub axis_delta : ℤ → ℕ → ℕ → Option ℤ
axis_delta source_delta source_extent output_extent = do
  let product = scale source_delta output_extent
  require (is_multiple product source_extent)
  let delta = quot product source_extent
  require (is_multiple delta 2)
  some delta

-- The output interval at the destination, trimmed inwards to whole chroma samples.
unfoldable pub axis_interval : ℕ → ℕ → ℕ → ℕ → Option (ℕ × ℕ)
axis_interval destination_begin length source_extent output_extent = do
  let first_tap =
      deterministic_first_output_tap_at_least destination_begin source_extent output_extent
  let end_tap =
      deterministic_first_output_tap_at_least (destination_begin + length) source_extent
        output_extent
  let begins = first_tap + first_tap % 2
  let ends = end_tap - end_tap % 2
  require (ltb begins ends)
  some (begins, ends)

-- The same interval at the source.
unfoldable pub axis_source : ℤ → ℕ × ℕ → ℕ → Option (ℕ × ℕ)
axis_source delta interval output_extent = do
  let begins = pos interval.0 -ℤ delta
  let ends = pos interval.1 -ℤ delta
  require (not (ltb_ℤ begins (pos 0) || leb_ℤ ends begins || ltb_ℤ (pos output_extent) ends))
  require (both_even (pos_part begins) (pos_part ends))
  some (pos_part begins, pos_part ends)

-- The check of the taps at the two ends of both intervals.
unfoldable pub axis_confirmed : ℤ → ℕ → ℕ → ℕ → ℕ → ℕ → ℕ × ℕ → ℕ × ℕ → Bool
axis_confirmed source_delta source_begin destination_begin length source_extent output_extent
      interval origin =
    let tap = λ (c : ℕ). deterministic_point_tap c source_extent output_extent in
    let first_source = tap origin.0 in
    let first_destination = tap interval.0 in
    let last_source = tap (origin.1 - 1) in
    let last_destination = tap (interval.1 - 1) in
    not (ltb first_source source_begin)
    && ltb last_source (source_begin + length)
    && not (ltb first_destination destination_begin)
    && ltb last_destination (destination_begin + length)
    && abs (pos first_destination -ℤ pos first_source -ℤ source_delta) == 0
    && abs (pos last_destination -ℤ pos last_source -ℤ source_delta) == 0

unfoldable pub map_deterministic_planar_move_axis : ℕ → ℕ → ℕ → ℕ → ℕ → Option AxisMove
map_deterministic_planar_move_axis source_begin destination_begin length source_extent
      output_extent =
    do
      require (axis_fits source_begin destination_begin length source_extent output_extent)
      let source_delta = pos destination_begin -ℤ pos source_begin
      delta ← axis_delta source_delta source_extent output_extent
      interval ← axis_interval destination_begin length source_extent output_extent
      origin ← axis_source delta interval output_extent
      require (
          axis_confirmed source_delta source_begin destination_begin length source_extent
            output_extent interval origin)
      some (record {
        source_begin = origin.0;
        destination_begin = interval.0;
        length = interval.1 - interval.0;
      })
