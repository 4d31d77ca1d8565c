-- ===== src/Geometry/Support.antt =====
-- The output pixels that a dirty source pixel reaches, for both kernels.
use native.Mathlib.Nat.{div-lt_iff_lt-mul, mod-eq_of_lt, div-add-mod', mod-lt}
use fluxcap.Prelude.{
  ℕ, suc, le_of_not_lt, ◌+◌, ◌*◌, ◌/◌, ◌%◌, ◌^◌, ◌≤◌, ◌<◌, ◌≡◌, ◌≢◌, Bool, false, true, ◌==◌,
  u32_max, if◌then◌else◌, arith, Bool-cases, inl, inr,
}
use fluxcap.Prelude.Int.{ℤ, ◌+ℤ◌, pos_part}
use fluxcap.Geometry.Rect.{WgcRect, SideDataGeometry, empty, mapped, valid_side_data_geometry}
use fluxcap.Geometry.Tap.{
  deterministic_point_tap, deterministic_point_tap-lt, Exact, first_output_tap-Splits,
}
use fluxcap.Geometry.Damage.{
  scale_edge_floor, scale_edge_ceil, is_empty_span, clip_span, Edges, align_edges, scale_edges,
  edges_rect, map_local_damage_rect, tap_edges, map_local_deterministic_planar_damage_rect,
}
use fluxcap.Geometry.Coverage.{Within, Covers}

-- The area of source pixel `p` and that of output pixel `c` meet, on an axis of `s` source pixels
-- and `o` output pixels.
abbrev pub Overlaps : ℕ → ℕ → ℕ → ℕ → Type 0
Overlaps p c s o = (c * s < (p + 1) * o) × (p * o < (c + 1) * s)

abbrev pub InEdges : Edges → ℕ → Type 0
InEdges e c = (e.low ≤ c) × (c < e.high)

cancel_lt : (a b s : ℕ) → a * s < b * s → a < b
cancel_lt a b s h = grind arith

product_small : (a o : ℕ) → a ≤ u32_max → o ≤ u32_max → a * o < 2 ^ 64
product_small a o h k = let wide : a * o ≤ u32_max * o = grind arith in omega arith

scale_edge_floor-le :
    (l p c s o : ℕ)
    → 0 < s
    → l ≤ p
    → p ≤ u32_max
    → o ≤ u32_max
    → p * o < (c + 1) * s
    → scale_edge_floor l s o ≤ c
unfolding scale_edge_floor
scale_edge_floor-le l p c s o s0 h k n e =
    let whole = mod-eq_of_lt (product_small l o (omega arith) n) in
    let less : l * o ≤ p * o = grind arith in
    let below : l * o / s < c + 1 = (div-lt_iff_lt-mul s0).1 (omega arith) in rw whole (omega arith)

scale_edge_ceil-gt :
    (r p c s o : ℕ)
    → 0 < s
    → p < r
    → r ≤ u32_max
    → o ≤ u32_max
    → c * s < (p + 1) * o
    → c < scale_edge_ceil r s o
unfolding scale_edge_ceil
scale_edge_ceil-gt r p c s o s0 h k n e =
    let whole = mod-eq_of_lt (product_small r o k n) in
    let more : (p + 1) * o ≤ r * o = grind arith in
    let parts = div-add-mod' (r * o) s in
    let rest : r * o % s < s = mod-lt _ s0 in
    let q = r * o / s in
    rw whole (elim (Bool-cases (r * o % s == 0)) [
      | inl exact ↦
          rw exact (let last = cancel_lt c q s (ground (arith, exact, parts)) in omega arith)
      | inr part ↦ rw part (cancel_lt c (q + 1) s (omega arith))
    ])

clip_span-bounds :
    (at : ℤ) (extent s p : ℕ)
    → Within at extent p
    → p < s
    → let k = clip_span at extent 0 s in
      (pos_part k.begins ≤ p)
      × (p < pos_part k.ends)
      × (pos_part k.ends ≤ s)
      × (is_empty_span k ≡ false)
unfolding clip_span ◌+ℤ◌
clip_span-bounds at extent s p w h = ground arith

align_edges-keeps : (e : Edges) (o c : ℕ) → InEdges e c → c < o → InEdges (align_edges e o) c
unfolding align_edges
align_edges-keeps e o c (l, h) k = (omega arith, omega arith)

align_edges-even :
    (e : Edges) (o : ℕ)
    → o % 2 ≡ 0
    → let a = align_edges e o in (a.low % 2 ≡ 0) × (a.high % 2 ≡ 0) × (a.high ≤ o)
unfolding align_edges
align_edges-even e o h = (omega arith, omega arith, omega arith)

valid-even :
    (g : SideDataGeometry)
    → valid_side_data_geometry g ≡ true
    → g.planar_420 ≡ true
    → (g.output_width % 2 ≡ 0) × (g.output_height % 2 ≡ 0)
unfolding valid_side_data_geometry
valid-even g v p = ground arith

-- Both areas of an axis are inside its edges.
scale_edges-covers :
    (at : ℤ) (extent s o p c : ℕ) (planar : Bool)
    → Within at extent p
    → p < s
    → c < o
    → s ≤ u32_max
    → o ≤ u32_max
    → Overlaps p c s o
    → InEdges (scale_edges (clip_span at extent 0 s) s o planar) c
unfolding scale_edges
scale_edges-covers at extent s o p c planar w h k n m (a, b) =
    let bounds = clip_span-bounds at extent s p w h in
    let low =
      scale_edge_floor-le (pos_part (clip_span at extent 0 s).begins) p c s o (omega arith) bounds.0
        (omega arith) m b in
    let high =
      scale_edge_ceil-gt (pos_part (clip_span at extent 0 s).ends) p c s o (omega arith) bounds.1
        (omega arith) m a in
    let e : Edges = record {
      low = scale_edge_floor (pos_part (clip_span at extent 0 s).begins) s o;
      high = scale_edge_ceil (pos_part (clip_span at extent 0 s).ends) s o;
    } in
    let kept = align_edges-keeps e o c (low, high) k in
    elim planar as (λ z. InEdges (if z then align_edges e o else e) c) [
      | true ↦ kept
      | false ↦ (low, high)
    ]

abbrev pub Bounded : SideDataGeometry → Type 0
Bounded g =
    (g.source_width ≤ u32_max)
    × (g.source_height ≤ u32_max)
    × (g.output_width ≤ u32_max)
    × (g.output_height ≤ u32_max)

edges_rect-Covers :
    (x y : Edges) (c r : ℕ) → InEdges x c → InEdges y r → Covers (edges_rect x y) c r
edges_rect-Covers x y c r h v = omega arith

-- Dirty coverage is conservative: when a dirty source pixel and an output pixel overlap under the
-- scaling, the answer is never that nothing is dirty, and a mapped rectangle covers the output
-- pixel. The geometry is valid and its extents are 32-bit numbers.
pub map_local_damage_rect-Covers :
    (source : WgcRect) (g : SideDataGeometry) (p q c r : ℕ)
    → valid_side_data_geometry g ≡ true
    → Bounded g
    → Covers source p q
    → p < g.source_width
    → q < g.source_height
    → c < g.output_width
    → r < g.output_height
    → Overlaps p c g.source_width g.output_width
    → Overlaps q r g.source_height g.output_height
    → let (status, output) = map_local_damage_rect source g in
      (status ≢ empty) × (status ≡ mapped → Covers output c r)
unfolding map_local_damage_rect
map_local_damage_rect-Covers source g p q c r valid b (w, v) hp hq hc hr ox oy =
    let sx = clip_span-bounds source.x source.width g.source_width p w hp in
    let sy = clip_span-bounds source.y source.height g.source_height q v hq in
    let ex =
      scale_edges-covers source.x source.width g.source_width g.output_width p c g.planar_420 w hp
        hc b.0 b.2 ox in
    let ey =
      scale_edges-covers source.y source.height g.source_height g.output_height q r g.planar_420 v
        hq hr b.1 b.3 oy in
    (
      λ e. ground (arith, valid, sx.3, sy.3, ex, ey),
      λ e.
          let shape : (map_local_damage_rect source g).1
              ≡ edges_rect
                  (scale_edges (clip_span source.x source.width 0 g.source_width) g.source_width
                    g.output_width g.planar_420)
                  (scale_edges (clip_span source.y source.height 0 g.source_height) g.source_height
                    g.output_height g.planar_420) =
            ground arith in
          rw shape (edges_rect-Covers _ _ c r ex ey),
    )

tap_edges-covers :
    (at : ℤ) (extent s o c : ℕ)
    → Exact s o
    → c < o
    → Within at extent (deterministic_point_tap c s o)
    → deterministic_point_tap c s o < s
    → InEdges (tap_edges (clip_span at extent 0 s) s o) c
unfolding tap_edges
tap_edges-covers at extent s o c x h w k =
    let span = clip_span at extent 0 s in
    let bounds = clip_span-bounds at extent s (deterministic_point_tap c s o) w k in
    let (_, from) = first_output_tap-Splits (pos_part span.begins) s o x in
    let (_, upto) = first_output_tap-Splits (pos_part span.ends) s o x in
    (
      le_of_not_lt c _ (λ early. omega (arith, from.0 c early)),
      le_of_not_lt _ (suc c) (λ late. omega (arith, upto.1 c (omega arith) h)),
    )

-- The exact kernel: when the centre tap of an output pixel falls on a dirty source pixel, the answer
-- is never that nothing is dirty, and a mapped rectangle covers the pixel, has even edges and extents,
-- and lies in the output. The geometry is valid, planar and within the exact range.
pub map_local_deterministic_planar_damage_rect-Covers :
    (source : WgcRect) (g : SideDataGeometry) (c r : ℕ)
    → valid_side_data_geometry g ≡ true
    → g.planar_420 ≡ true
    → Exact g.source_width g.output_width
    → Exact g.source_height g.output_height
    → c < g.output_width
    → r < g.output_height
    → Covers source
        (deterministic_point_tap c g.source_width g.output_width)
        (deterministic_point_tap r g.source_height g.output_height)
    → let (status, output) = map_local_deterministic_planar_damage_rect source g in
      (status ≢ empty)
      × (status ≡ mapped
          → Covers output c r
            × (pos_part output.x % 2 ≡ 0)
            × (pos_part output.y % 2 ≡ 0)
            × (output.width % 2 ≡ 0)
            × (output.height % 2 ≡ 0)
            × (pos_part output.x + output.width ≤ g.output_width)
            × (pos_part output.y + output.height ≤ g.output_height))
unfolding map_local_deterministic_planar_damage_rect
map_local_deterministic_planar_damage_rect-Covers source g c r valid planar ax ay hc hr (w, v) =
    let tx = deterministic_point_tap c g.source_width g.output_width in
    let ty = deterministic_point_tap r g.source_height g.output_height in
    let sx =
      clip_span-bounds source.x source.width g.source_width tx w
        (deterministic_point_tap-lt c g.source_width g.output_width ax.0) in
    let sy =
      clip_span-bounds source.y source.height g.source_height ty v
        (deterministic_point_tap-lt r g.source_height g.output_height ay.0) in
    let ex =
      tap_edges-covers source.x source.width g.source_width g.output_width c ax hc w
        (deterministic_point_tap-lt c g.source_width g.output_width ax.0) in
    let ey =
      tap_edges-covers source.y source.height g.source_height g.output_height r ay hr v
        (deterministic_point_tap-lt r g.source_height g.output_height ay.0) in
    let x =
      tap_edges (clip_span source.x source.width 0 g.source_width) g.source_width g.output_width in
    let y =
      tap_edges (clip_span source.y source.height 0 g.source_height) g.source_height
        g.output_height in
    let kx = align_edges-keeps x g.output_width c ex hc in
    let ky = align_edges-keeps y g.output_height r ey hr in
    (
      λ e. ground (arith, valid, planar, sx.3, sy.3, ex, ey),
      λ e.
          let shape : (map_local_deterministic_planar_damage_rect source g).1
              ≡ edges_rect (align_edges x g.output_width) (align_edges y g.output_height) =
            ground arith in
          let even = valid-even g valid planar in
          let fx = align_edges-even x g.output_width even.0 in
          let fy = align_edges-even y g.output_height even.1 in
          rw shape (
            edges_rect-Covers _ _ c r kx ky,
            fx.0,
            fy.0,
            omega arith,
            omega arith,
            omega arith,
            omega arith,
          ),
    )
