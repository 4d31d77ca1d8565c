-- ===== src/Geometry/Move.antt =====
-- Moves: the deterministic planar mapping with its dirty strips.
use fluxcap.Prelude.{
  ℕ, ◌+◌, ◌-◌, Bool, false, true, not, ◌&&◌, ◌||◌, ◌==◌, ltb, leb, Option, none, some, List, [],
  ◌∷◌, ◌++◌, length, i32_max, if◌then◌else◌, require, ◌>>=◌, ◌>>◌,
}
use fluxcap.Prelude.Int.{ℤ, pos, negsuc, pos_part}
use fluxcap.Geometry.Rect.{
  WgcRect, WgcMoveRect, SideDataGeometry, SideDataMapStatus, empty, mapped, unrepresentable,
  no_rect, valid_side_data_geometry,
}
use fluxcap.Geometry.MoveAxis.{AxisMove, map_deterministic_planar_move_axis}
use fluxcap.Geometry.Damage.{map_local_deterministic_planar_damage_rect}

-- The first `dirty_count` entries of `dirty_rects`.
pub record DeterministicPlanarMoveMapping : Type 0 where
  pub move : WgcMoveRect
  pub dirty_rects : List WgcRect

abbrev pub no_move : WgcMoveRect
no_move = record { source_x = pos 0; source_y = pos 0; destination = no_rect }

abbrev pub no_mapping : DeterministicPlanarMoveMapping
no_mapping = record { move = no_move; dirty_rects = [] }

abbrev pub is_negative : ℤ → Bool
is_negative (pos n) = false
is_negative (negsuc n) = true

-- Of a rectangle at coordinates that are not negative.
unfoldable pub rect_in_bounds : WgcRect → ℕ → ℕ → Bool
rect_in_bounds r width height =
    ltb (pos_part r.x) width
    && ltb (pos_part r.y) height
    && leb r.width (width - pos_part r.x)
    && leb r.height (height - pos_part r.y)

unfoldable pub planar_move_fits : WgcRect → WgcRect → SideDataGeometry → Bool
unfolding rect_in_bounds
planar_move_fits source destination g =
    valid_side_data_geometry g
    && g.planar_420
    && not (ltb i32_max g.output_width || ltb i32_max g.output_height)
    && not (
        is_negative source.x
        || is_negative source.y
        || is_negative destination.x
        || is_negative destination.y)
    && not (source.width == 0 || source.height == 0)
    && (source.width == destination.width && source.height == destination.height)
    && rect_in_bounds source g.source_width g.source_height
    && rect_in_bounds destination g.source_width g.source_height

-- `append_strip`.
unfoldable pub append_strip : WgcRect → List WgcRect → List WgcRect
append_strip strip rects =
    if not (strip.width == 0) && not (strip.height == 0) then rects ++ (strip ∷ []) else rects

-- The four strips round the interior: top, bottom, left, right.
unfoldable pub edge_strips : WgcRect → AxisMove → AxisMove → List WgcRect
edge_strips affected h v =
    let left = pos_part affected.x in
    let top = pos_part affected.y in
    let interior_right = h.destination_begin + h.length in
    let interior_bottom = v.destination_begin + v.length in
    append_strip
      (record {
        x = pos interior_right;
        y = pos v.destination_begin;
        width = left + affected.width - interior_right;
        height = v.length;
      })
      (append_strip
        (record {
          x = affected.x;
          y = pos v.destination_begin;
          width = h.destination_begin - left;
          height = v.length;
        })
        (append_strip
          (record {
            x = affected.x;
            y = pos interior_bottom;
            width = affected.width;
            height = top + affected.height - interior_bottom;
          })
          (append_strip
            (record {
              x = affected.x;
              y = affected.y;
              width = affected.width;
              height = v.destination_begin - top;
            })
            [])))

unfoldable pub interior_inside : WgcRect → AxisMove → AxisMove → Bool
interior_inside affected h v =
    let left = pos_part affected.x in
    let top = pos_part affected.y in
    not (
      ltb h.destination_begin left
      || ltb v.destination_begin top
      || ltb (left + affected.width) (h.destination_begin + h.length)
      || ltb (top + affected.height) (v.destination_begin + v.length))

abbrev pub planar_mapping : WgcRect → AxisMove → AxisMove → DeterministicPlanarMoveMapping
planar_mapping affected h v = record {
  move = record {
    source_x = pos h.source_begin;
    source_y = pos v.source_begin;
    destination = record {
      x = pos h.destination_begin;
      y = pos v.destination_begin;
      width = h.length;
      height = v.length;
    };
  };
  dirty_rects = edge_strips affected h v;
}

-- The mapping inside an affected rectangle, `none` where the source answers `unrepresentable`.
unfoldable pub map_interior :
    WgcRect → WgcRect → SideDataGeometry → WgcRect → Option DeterministicPlanarMoveMapping
unfolding interior_inside
map_interior source destination g affected = do
  h ←
      map_deterministic_planar_move_axis (pos_part source.x) (pos_part destination.x)
        destination.width g.source_width g.output_width
  v ←
      map_deterministic_planar_move_axis (pos_part source.y) (pos_part destination.y)
        destination.height g.source_height g.output_height
  require (interior_inside affected h v)
  some (planar_mapping affected h v)

abbrev pub or_unrepresentable :
    Option DeterministicPlanarMoveMapping → SideDataMapStatus × DeterministicPlanarMoveMapping
or_unrepresentable none = (unrepresentable, no_mapping)
or_unrepresentable (some m) = (mapped, m)

abbrev pub when_affected :
    SideDataMapStatus × WgcRect
    → (WgcRect → SideDataMapStatus × DeterministicPlanarMoveMapping)
    → SideDataMapStatus × DeterministicPlanarMoveMapping
when_affected (mapped, affected) next = next affected
when_affected (empty, affected) next = (empty, no_mapping)
when_affected (unrepresentable, affected) next = (unrepresentable, no_mapping)

unfoldable pub map_local_deterministic_planar_move :
    WgcRect → WgcRect → SideDataGeometry → SideDataMapStatus × DeterministicPlanarMoveMapping
map_local_deterministic_planar_move source destination g =
    if not (planar_move_fits source destination g)
    then (unrepresentable, no_mapping)
    else when_affected (map_local_deterministic_planar_damage_rect destination g)
        (λ affected. or_unrepresentable (map_interior source destination g affected))

abbrev pub wgc_max_dirty_rects : ℕ
wgc_max_dirty_rects = 64

abbrev pub wgc_max_move_rects : ℕ
wgc_max_move_rects = 16

-- The counted prefixes of the two arrays; nothing else of the damage is touched here.
pub record WgcFrameDamage : Type 0 where
  pub dirty_rects : List WgcRect
  pub move_rects : List WgcMoveRect

-- `none` is `false`, with the damage as it was.
unfoldable pub append_deterministic_planar_move_mapping :
    DeterministicPlanarMoveMapping → WgcFrameDamage → Option WgcFrameDamage
append_deterministic_planar_move_mapping m damage = do
  require (
      not (
        ltb 4 (length m.dirty_rects)
        || leb wgc_max_move_rects (length damage.move_rects)
        || ltb wgc_max_dirty_rects (length damage.dirty_rects)
        || ltb (wgc_max_dirty_rects - length damage.dirty_rects) (length m.dirty_rects)))
  some (record {
    dirty_rects = damage.dirty_rects ++ m.dirty_rects;
    move_rects = damage.move_rects ++ (m.move ∷ []);
  })
