-- ===== src/Geometry/Damage.antt =====
-- Clipping a dirty rectangle to a region and mapping it to the output. The 64-bit arithmetic on
-- the edges is exact, and both axes are treated alike.
use fluxcap.Prelude.{
  ℕ, ◌+◌, ◌-◌, ◌*◌, ◌/◌, ◌%◌, Bool, not, ◌||◌, ◌==◌, ltb, leb, min, u64, u32_max, i32_max,
  if◌then◌else◌,
}
use fluxcap.Prelude.Int.{ℤ, pos, ◌+ℤ◌, ◌-ℤ◌, max_ℤ, min_ℤ, leb_ℤ, pos_part}
use fluxcap.Geometry.Rect.{
  WgcRect, SideDataGeometry, SideDataMapStatus, empty, mapped, unrepresentable, no_rect,
  valid_side_data_geometry,
}
use fluxcap.Geometry.Tap.{deterministic_first_output_tap_at_least}

unfoldable pub scale_edge_floor : ℕ → ℕ → ℕ → ℕ
scale_edge_floor edge source_extent output_extent = u64 (edge * output_extent) / source_extent

unfoldable pub scale_edge_ceil : ℕ → ℕ → ℕ → ℕ
scale_edge_ceil edge source_extent output_extent =
    let product = u64 (edge * output_extent) in
    product / source_extent + (if product % source_extent == 0 then 0 else 1)

-- An interval of one axis, from the first coordinate up to the second.
pub record Span : Type 0 where
  pub begins : ℤ
  pub ends : ℤ

abbrev pub is_empty_span : Span → Bool
is_empty_span s = leb_ℤ s.ends s.begins

-- What an interval and a region have in common.
unfoldable pub clip_span : ℤ → ℕ → ℕ → ℕ → Span
clip_span at extent region_at region_extent = record {
  begins = max_ℤ at (pos region_at);
  ends = min_ℤ (at +ℤ pos extent) (pos region_at +ℤ pos region_extent);
}

unfoldable pub clip_source_rect_to_region : WgcRect → ℕ → ℕ → ℕ → ℕ → SideDataMapStatus × WgcRect
clip_source_rect_to_region source region_x region_y region_width region_height =
    if source.width == 0 || source.height == 0 || region_width == 0 || region_height == 0
    then (empty, no_rect)
    else let h = clip_span source.x source.width region_x region_width in
      let v = clip_span source.y source.height region_y region_height in
      let local_left = pos_part (h.begins -ℤ pos region_x) in
      let local_top = pos_part (v.begins -ℤ pos region_y) in
      let local_width = pos_part (h.ends -ℤ h.begins) in
      let local_height = pos_part (v.ends -ℤ v.begins) in
      if is_empty_span h || is_empty_span v
      then (empty, no_rect)
      else if ltb i32_max local_left
          || ltb i32_max local_top
          || ltb u32_max local_width
          || ltb u32_max local_height
      then (unrepresentable, no_rect)
      else (
        mapped,
        record {
          x = pos local_left;
          y = pos local_top;
          width = local_width;
          height = local_height;
        },
      )

-- The output edges of one axis.
pub record Edges : Type 0 where
  pub low : ℕ
  pub high : ℕ

-- `low & ~1`, and `min(extent, (high + 1) & ~1)`.
unfoldable pub align_edges : Edges → ℕ → Edges
align_edges e output_extent = record {
  low = e.low - e.low % 2;
  high = min output_extent (e.high + 1 - (e.high + 1) % 2);
}

unfoldable pub scale_edges : Span → ℕ → ℕ → Bool → Edges
unfolding align_edges scale_edge_floor scale_edge_ceil
scale_edges s source_extent output_extent planar =
    let e : Edges = record {
      low = scale_edge_floor (pos_part s.begins) source_extent output_extent;
      high = scale_edge_ceil (pos_part s.ends) source_extent output_extent;
    } in
    if planar then align_edges e output_extent else e

abbrev pub edges_rect : Edges → Edges → WgcRect
edges_rect h v = record {
  x = pos h.low;
  y = pos v.low;
  width = h.high - h.low;
  height = v.high - v.low;
}

unfoldable pub map_local_damage_rect : WgcRect → SideDataGeometry → SideDataMapStatus × WgcRect
map_local_damage_rect source g =
    let h = clip_span source.x source.width 0 g.source_width in
    let v = clip_span source.y source.height 0 g.source_height in
    let x = scale_edges h g.source_width g.output_width g.planar_420 in
    let y = scale_edges v g.source_height g.output_height g.planar_420 in
    if not (valid_side_data_geometry g)
    then (unrepresentable, no_rect)
    else if source.width == 0 || source.height == 0
    then (empty, no_rect)
    else if is_empty_span h || is_empty_span v
    then (empty, no_rect)
    else if leb x.high x.low || leb y.high y.low
    then (empty, no_rect)
    else if ltb i32_max x.low
        || ltb i32_max y.low
        || ltb u32_max (x.high - x.low)
        || ltb u32_max (y.high - y.low)
    then (unrepresentable, no_rect)
    else (mapped, edges_rect x y)

-- The outputs whose centre taps fall into the interval, before the alignment.
unfoldable pub tap_edges : Span → ℕ → ℕ → Edges
tap_edges s source_extent output_extent = record {
  low = deterministic_first_output_tap_at_least (pos_part s.begins) source_extent output_extent;
  high = deterministic_first_output_tap_at_least (pos_part s.ends) source_extent output_extent;
}

unfoldable pub map_local_deterministic_planar_damage_rect :
    WgcRect → SideDataGeometry → SideDataMapStatus × WgcRect
map_local_deterministic_planar_damage_rect source g =
    let h = clip_span source.x source.width 0 g.source_width in
    let v = clip_span source.y source.height 0 g.source_height in
    let taps_x = tap_edges h g.source_width g.output_width in
    let taps_y = tap_edges v g.source_height g.output_height in
    let x = align_edges taps_x g.output_width in
    let y = align_edges taps_y g.output_height in
    if not (valid_side_data_geometry g) || not g.planar_420
    then (unrepresentable, no_rect)
    else if source.width == 0 || source.height == 0
    then (empty, no_rect)
    else if is_empty_span h || is_empty_span v
    then (empty, no_rect)
    else if leb taps_x.high taps_x.low || leb taps_y.high taps_y.low
    then (empty, no_rect)
    else if ltb i32_max x.low || ltb i32_max y.low
    then (unrepresentable, no_rect)
    else (mapped, edges_rect x y)

-- A rectangle that was clipped to the region, or the status for which there is none.
abbrev pub after_clip :
    SideDataMapStatus × WgcRect
    → (WgcRect → SideDataMapStatus × WgcRect)
    → SideDataMapStatus × WgcRect
after_clip (mapped, local) next = next local
after_clip (empty, local) next = (empty, no_rect)
after_clip (unrepresentable, local) next = (unrepresentable, no_rect)

unfoldable pub map_source_damage_rect :
    WgcRect → ℕ → ℕ → SideDataGeometry → SideDataMapStatus × WgcRect
map_source_damage_rect source region_x region_y g =
    after_clip (clip_source_rect_to_region source region_x region_y g.source_width g.source_height)
      (λ local. map_local_damage_rect local g)

unfoldable pub map_source_deterministic_planar_damage_rect :
    WgcRect → ℕ → ℕ → SideDataGeometry → SideDataMapStatus × WgcRect
map_source_deterministic_planar_damage_rect source region_x region_y g =
    after_clip (clip_source_rect_to_region source region_x region_y g.source_width g.source_height)
      (λ local. map_local_deterministic_planar_damage_rect local g)
