-- ===== src/Geometry/Strips.antt =====
-- The interior and the strips of a move, and how they are appended.
use fluxcap.Prelude.{
  ℕ, ◌+◌, ◌-◌, ◌≤◌, ◌<◌, ◌≡◌, Bool, true, ◌&&◌, ltb, leb, some, List, [], ◌∷◌, ◌++◌, length,
  length-append, sym, u32_mod, arith, if◌then◌else◌, >>=-eq-some, require-eq-some, some_inj, subst,
}
use fluxcap.Prelude.Int.{pos, pos_part, neg_part}
use fluxcap.Geometry.Rect.{WgcRect, SideDataGeometry, mapped}
use fluxcap.Geometry.Tap.{deterministic_point_tap}
use fluxcap.Geometry.AxisReplay.{map_move_axis-Replays}
use fluxcap.Geometry.MoveAxis.{AxisMove, map_deterministic_planar_move_axis}
use fluxcap.Geometry.Damage.{map_local_deterministic_planar_damage_rect}
use fluxcap.Geometry.Move.{
  DeterministicPlanarMoveMapping, append_strip, edge_strips, interior_inside, planar_mapping,
  map_interior, map_local_deterministic_planar_move,
}

-- Whether a rectangle holds the pixel, and how many of a list do.
abbrev pub holds : ℕ → ℕ → WgcRect → Bool
holds c r a =
    leb (pos_part a.x) (c + neg_part a.x)
    && ltb (c + neg_part a.x) (pos_part a.x + a.width)
    && leb (pos_part a.y) (r + neg_part a.y)
    && ltb (r + neg_part a.y) (pos_part a.y + a.height)

abbrev pub holders : ℕ → ℕ → List WgcRect → ℕ
holders c r [] = 0
holders c r (a ∷ rects) = (if holds c r a then 1 else 0) + holders c r rects

holders-append :
    (c r : ℕ) (us ws : List WgcRect) → holders c r (us ++ ws) ≡ holders c r us + holders c r ws
holders-append c r [] ws = omega arith
holders-append c r (a ∷ us) ws = omega (arith, holders-append c r us ws)

-- A strip that is left out holds no pixel.
holders-append_strip :
    (c r : ℕ) (s : WgcRect) (rects : List WgcRect)
    → holders c r (append_strip s rects) ≡ holders c r rects + (if holds c r s then 1 else 0)
unfolding append_strip
holders-append_strip c r s rects = ground (arith, holders-append c r rects (s ∷ []))

-- On one axis: the interval from `a` of length `w`.
abbrev in_span : ℕ → ℕ → ℕ → Bool
in_span a w c = leb a c && ltb c (a + w)

holds-pos :
    (c r x y w h : ℕ)
    → holds c r (record { x = pos x; y = pos y; width = w; height = h })
      ≡ (in_span x w c && in_span y h r)
holds-pos c r x y w h = ground arith

abbrev pub one_if : Bool → ℕ
one_if b = if b then 1 else 0

-- An interval is cut into the part before, the inner interval and the part behind.
span-cut :
    (a w b m c : ℕ)
    → a ≤ b
    → b + m ≤ a + w
    → one_if (in_span a (b - a) c)
        + one_if (in_span b m c)
        + one_if (in_span (b + m) (a + w - (b + m)) c)
      ≡ one_if (in_span a w c)
span-cut a w b m c h k = ground arith

-- Five products over the cuts of the two axes make up the product over the whole.
tile :
    (h0 h1 h2 h v0 v1 v2 v : Bool)
    → one_if h0 + one_if h1 + one_if h2 ≡ one_if h
    → one_if v0 + one_if v1 + one_if v2 ≡ one_if v
    → one_if (h1 && v1)
        + (0 + one_if (h && v0) + one_if (h && v2) + one_if (h0 && v1) + one_if (h2 && v1))
      ≡ one_if (h && v)
tile h0 h1 h2 h v0 v1 v2 v e f = ground arith

-- The interior and the strips tile the affected rectangle.
edge_strips-tile :
    (x y w k : ℕ) (h v : AxisMove) (c r : ℕ)
    → let affected : WgcRect = record { x = pos x; y = pos y; width = w; height = k } in
      interior_inside affected h v ≡ true
      → let m = planar_mapping affected h v in
        holders c r (m.move.destination ∷ m.dirty_rects) ≡ one_if (holds c r affected)
unfolding edge_strips interior_inside
edge_strips-tile x y w k h v c r inside =
    let cut_h = span-cut x w h.destination_begin h.length c (ground arith) (ground arith) in
    let cut_v = span-cut y k v.destination_begin v.length r (ground arith) (ground arith) in
    let whole = tile _ _ _ _ _ _ _ _ cut_h cut_v in simp (holders-append_strip, holds-pos) whole

edge_strips-tile_at :
    (affected : WgcRect) (h v : AxisMove) (c r : ℕ)
    → affected.x ≡ pos (pos_part affected.x)
    → affected.y ≡ pos (pos_part affected.y)
    → interior_inside affected h v ≡ true
    → let m = planar_mapping affected h v in
      holders c r (m.move.destination ∷ m.dirty_rects) ≡ one_if (holds c r affected)
edge_strips-tile_at affected h v c r at_x at_y =
    let same : WgcRect = record {
      x = pos (pos_part affected.x);
      y = pos (pos_part affected.y);
      width = affected.width;
      height = affected.height;
    } in
    let shape : same ≡ affected = λ i. record {
      x = sym at_x i;
      y = sym at_y i;
      width = affected.width;
      height = affected.height;
    } in
    subst
      (λ a.
        interior_inside a h v ≡ true
        → holders c r ((planar_mapping a h v).move.destination ∷ (planar_mapping a h v).dirty_rects)
          ≡ one_if (holds c r a))
      shape
      (edge_strips-tile (pos_part affected.x) (pos_part affected.y) affected.width affected.height h
        v c r)

length-append_strip :
    (a : WgcRect) (rects : List WgcRect) (n : ℕ)
    → length rects ≤ n
    → length (append_strip a rects) ≤ n + 1
unfolding append_strip
length-append_strip a rects n h = ground (arith, length-append rects (a ∷ []))

length-edge_strips : (affected : WgcRect) (h v : AxisMove) → length (edge_strips affected h v) ≤ 4
unfolding edge_strips
length-edge_strips affected h v = length-append_strip _ _ 3 (
    length-append_strip _ _ 2
      (length-append_strip _ _ 1 (length-append_strip _ [] 0 (omega arith))))

affected_at :
    (destination : WgcRect) (g : SideDataGeometry)
    → let a = (map_local_deterministic_planar_damage_rect destination g).1 in
      (a.x ≡ pos (pos_part a.x)) × (a.y ≡ pos (pos_part a.y))
unfolding map_local_deterministic_planar_damage_rect
affected_at destination g = (ground arith, ground arith)

map_interior-parts :
    (source destination : WgcRect) (g : SideDataGeometry) (affected : WgcRect)
    (m : DeterministicPlanarMoveMapping)
    → map_interior source destination g affected ≡ some m
    → (h : AxisMove) × (v : AxisMove) × (map_deterministic_planar_move_axis
          (pos_part source.x)
          (pos_part destination.x)
          destination.width
          g.source_width
          g.output_width
        ≡ some h)
      × (map_deterministic_planar_move_axis
            (pos_part source.y)
            (pos_part destination.y)
            destination.height
            g.source_height
            g.output_height
          ≡ some v)
      × (interior_inside affected h v ≡ true)
      × (m ≡ planar_mapping affected h v)
unfolding map_interior
map_interior-parts source destination g affected m e =
    let (h, eh, e1) = >>=-eq-some (map_deterministic_planar_move_axis _ _ _ _ _) _ e in
    let (v, ev, e2) = >>=-eq-some (map_deterministic_planar_move_axis _ _ _ _ _) _ e1 in
    let (inside, last) = require-eq-some (interior_inside affected h v) _ e2 in
    (h, v, eh, ev, inside, sym (some_inj last))

-- What the parts of a mapped move are.
planar_move-parts :
    (source destination : WgcRect) (g : SideDataGeometry) (m : DeterministicPlanarMoveMapping)
    → map_local_deterministic_planar_move source destination g ≡ (mapped, m)
    → let affected = (map_local_deterministic_planar_damage_rect destination g).1 in
      (h : AxisMove) × (v : AxisMove) × (map_deterministic_planar_move_axis
          (pos_part source.x)
          (pos_part destination.x)
          destination.width
          g.source_width
          g.output_width
        ≡ some h)
      × (map_deterministic_planar_move_axis
            (pos_part source.y)
            (pos_part destination.y)
            destination.height
            g.source_height
            g.output_height
          ≡ some v)
      × (interior_inside affected h v ≡ true)
      × (m ≡ planar_mapping affected h v)
unfolding map_local_deterministic_planar_move
planar_move-parts source destination g m e =
    let affected = (map_local_deterministic_planar_damage_rect destination g).1 in
    let made : map_interior source destination g affected ≡ some m = ground arith in
    map_interior-parts source destination g affected m made

-- The move can be replayed and its strips cover the rest. When a move is mapped, its destination
-- has been mapped as damage to a rectangle; that rectangle is tiled by the moved interior and at
-- most four strips, so that every pixel of it lies in exactly one of them; and at every pixel of the
-- interior the centre taps of both axes are those at the source, displaced as the native move
-- displaces. The source extents are 32-bit numbers.
pub planar_move-Replays :
    (source destination : WgcRect) (g : SideDataGeometry) (m : DeterministicPlanarMoveMapping)
    → g.source_width < u32_mod
    → g.source_height < u32_mod
    → map_local_deterministic_planar_move source destination g ≡ (mapped, m)
    → let affected = (map_local_deterministic_planar_damage_rect destination g).1 in
      ((map_local_deterministic_planar_damage_rect destination g).0 ≡ mapped)
      × ((c r : ℕ) → holders c r (m.move.destination ∷ m.dirty_rects) ≡ one_if (holds c r affected))
      × (length m.dirty_rects ≤ 4)
      × ((i : ℕ)
          → i < m.move.destination.width
          → deterministic_point_tap
                (pos_part m.move.destination.x + i)
                g.source_width
                g.output_width
              + pos_part source.x
            ≡ deterministic_point_tap (pos_part m.move.source_x + i) g.source_width g.output_width
              + pos_part destination.x)
      × ((j : ℕ)
          → j < m.move.destination.height
          → deterministic_point_tap
                (pos_part m.move.destination.y + j)
                g.source_height
                g.output_height
              + pos_part source.y
            ≡ deterministic_point_tap (pos_part m.move.source_y + j) g.source_height g.output_height
              + pos_part destination.y)
planar_move-Replays source destination g m bw bh e =
    let affected = (map_local_deterministic_planar_damage_rect destination g).1 in
    let (h, v, eh, ev, inside, shape) = planar_move-parts source destination g m e in
    let (at_x, at_y) = affected_at destination g in
    let rh = map_move_axis-Replays _ _ _ _ _ h bw eh in
    let rv = map_move_axis-Replays _ _ _ _ _ v bh ev in
    (
      unfold map_local_deterministic_planar_move in ground arith,
      λ c r. rw shape (edge_strips-tile_at affected h v c r at_x at_y inside),
      rw shape (length-edge_strips affected h v),
      rw shape (λ i k. (rh.6 i k).0),
      rw shape (λ j k. (rv.6 j k).0),
    )
