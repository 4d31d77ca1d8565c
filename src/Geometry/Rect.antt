-- ===== src/Geometry/Rect.antt =====
-- The data of src/gpu/side_data_geometry.hpp, and of include/fluxcap/gpu.hpp that it uses.
use fluxcap.Prelude.{ℕ, ◌%◌, Bool, not, ◌&&◌, ◌||◌, ◌==◌}
use fluxcap.Prelude.Int.{ℤ, pos}

-- `x` and `y` are `int32_t`, `width` and `height` are `uint32_t`.
pub record WgcRect : Type 0 where
  pub x : ℤ
  pub y : ℤ
  pub width : ℕ
  pub height : ℕ

pub record WgcMoveRect : Type 0 where
  pub source_x : ℤ
  pub source_y : ℤ
  pub destination : WgcRect

-- The extents are `uint32_t`.
pub record SideDataGeometry : Type 0 where
  pub source_width : ℕ
  pub source_height : ℕ
  pub output_width : ℕ
  pub output_height : ℕ
  pub planar_420 : Bool

pub data SideDataMapStatus : Type 0 where
  empty mapped unrepresentable : SideDataMapStatus

abbrev pub no_rect : WgcRect
no_rect = record { x = pos 0; y = pos 0; width = 0; height = 0 }

-- `((a | b) & 1) == 0`: the low bit of both is clear.
abbrev pub both_even : ℕ → ℕ → Bool
both_even a b = a % 2 == 0 && b % 2 == 0

unfoldable pub valid_side_data_geometry : SideDataGeometry → Bool
valid_side_data_geometry g =
    not (g.source_width == 0)
    && not (g.source_height == 0)
    && not (g.output_width == 0)
    && not (g.output_height == 0)
    && (not g.planar_420 || both_even g.output_width g.output_height)

unfoldable pub scaled_side_data_geometry : SideDataGeometry → Bool
scaled_side_data_geometry g =
    not (g.source_width == g.output_width) || not (g.source_height == g.output_height)

unfoldable pub phase_invariant_cursor_geometry : SideDataGeometry → Bool
unfolding valid_side_data_geometry
phase_invariant_cursor_geometry g =
    valid_side_data_geometry g
    && g.output_width % g.source_width == 0
    && g.output_height % g.source_height == 0
