-- ===== src/Dirty/Rects.antt =====
-- The pixels that dirty rectangles and runs of tiles cover.
use fluxcap.Prelude.{
  ℕ, zero, suc, ◌+◌, ◌-◌, ◌*◌, ◌/◌, ◌≤◌, ◌<◌, ◌≡◌, ◌↔◌, min, Bool, ◌&&◌, ◌==◌, ltb, leb, List, [],
  ◌∷◌, ◌++◌, some, get_elem?, set, u32_mod, i32_max, if◌then◌else◌, arith,
}
use fluxcap.Dirty.Tracker.{DirtyRect, DirtyTracker}
use fluxcap.Dirty.Analyze.{run_rect, grow}
use native.Mathlib.Nat.{div-lt_iff_lt-mul, le-div_iff_mul-le}

abbrev pub one_if : Bool → ℕ
one_if b = if b then 1 else 0

abbrev pub spans : ℕ → ℕ → ℕ → Bool
spans from size c = leb from c && ltb c (from + size)

-- How many of the rectangles cover the pixel.
abbrev pub coverage : ℕ → ℕ → List DirtyRect → ℕ
coverage c r [] = 0
coverage c r (a ∷ rects) = one_if (spans a.x a.width c && spans a.y a.height r) + coverage c r rects

pub coverage-append :
    (c r : ℕ) (us ws : List DirtyRect) → coverage c r (us ++ ws) ≡ coverage c r us + coverage c r ws
coverage-append c r [] ws = omega arith
coverage-append c r (a ∷ us) ws = omega (arith, coverage-append c r us ws)

-- A rectangle that grows covers the pixels of its new rows as well.
pub coverage-grow :
    (c r : ℕ) (rects : List DirtyRect) (i : ℕ) (a : DirtyRect) (added : ℕ)
    → get_elem? rects i ≡ some a
    → a.height + added < u32_mod
    → coverage c r (set rects i (grow added a))
      ≡ coverage c r rects + one_if (spans a.x a.width c && spans (a.y + a.height) added r)
coverage-grow c r [] i a added e h = cc
coverage-grow c r (b ∷ rects) zero a added e h = ground arith
coverage-grow c r (b ∷ rects) (suc i) a added e h =
    omega (arith, coverage-grow c r rects i a added e h)

-- The sizes for which nothing wraps: they are positive `int32_t`, and the grid is that of `configure`.
pub record Grid (t : DirtyTracker) : Type 0 where
  pub wide : (0 < t.width) × (t.width ≤ i32_max)
  pub high : (0 < t.height) × (t.height ≤ i32_max)
  pub tiled : (0 < t.tile_size) × (t.tile_size ≤ i32_max)
  pub columns : t.columns ≡ (t.width + t.tile_size - 1) / t.tile_size
  pub rows : t.rows ≡ (t.height + t.tile_size - 1) / t.tile_size

-- The tiles of an axis: a tile that exists begins inside, and the last one ends behind the extent.
pub tile_begins :
    (extent size n k : ℕ)
    → 0 < size
    → n ≡ (extent + size - 1) / size
    → (k < n) ↔ (k * size < extent)
tile_begins extent size n k p e =
    let reach = le-div_iff_mul-le {k = size} {x = suc k} {y = extent + size - 1} p in
    rw e (λ h. grind (arith, reach.0 h), λ h. reach.1 (grind arith))

pub tile_ends :
    (extent size n k : ℕ)
    → 0 < size
    → n ≡ (extent + size - 1) / size
    → k ≤ n
    → k * size ≤ extent + size - 1
tile_ends extent size n k p e h =
    (le-div_iff_mul-le {k = size} {x = k} {y = extent + size - 1} p).0 (rw e at h)

-- The pixels from one tile up to another one.
pub spans-tiles :
    (extent size from to c : ℕ)
    → 0 < size
    → c < extent
    → from * size ≤ extent
    → spans (from * size) (min extent (to * size) - from * size) c
      ≡ (leb from (c / size) && ltb (c / size) to)
spans-tiles extent size from to c p h k =
    let before = div-lt_iff_lt-mul {k = size} {x = c} {y = to} p in
    let after = le-div_iff_mul-le {k = size} {x = from} {y = c} p in ground (arith, before, after)

-- The run's rectangle without the conversions, which change nothing.
pub run_rect-plain :
    (t : DirtyTracker) (tile_y first end : ℕ)
    → Grid t
    → tile_y < t.rows
    → first < end
    → end ≤ t.columns
    → run_rect t tile_y first end ≡ record {
      x = first * t.tile_size;
      y = tile_y * t.tile_size;
      width = min t.width (end * t.tile_size) - first * t.tile_size;
      height = min t.height (tile_y * t.tile_size + t.tile_size) - tile_y * t.tile_size;
    }
unfolding run_rect
run_rect-plain t tile_y first end g hy hf he =
    let x = (tile_begins t.width t.tile_size t.columns first g.tiled.0 g.columns).0 (omega arith) in
    let y = (tile_begins t.height t.tile_size t.rows tile_y g.tiled.0 g.rows).0 hy in
    let right = tile_ends t.width t.tile_size t.columns end g.tiled.0 g.columns he in
    let forward : first * t.tile_size ≤ end * t.tile_size = grind arith in
    ground (arith, g.wide, g.high, g.tiled)

-- A rectangle that spans the columns of a run and ends at some row.
pub record Stands (t : DirtyTracker) (first end bottom : ℕ) (a : DirtyRect) : Type 0 where
  pub left : a.x ≡ first * t.tile_size
  pub wide : a.width ≡ min t.width (end * t.tile_size) - first * t.tile_size
  pub base : a.y + a.height ≡ bottom

-- The pixels of a run are those of its tiles.
pub spans-run :
    (t : DirtyTracker) (tile_y first end c r : ℕ)
    → Grid t
    → tile_y < t.rows
    → first < end
    → end ≤ t.columns
    → c < t.width
    → r < t.height
    → (spans (first * t.tile_size) (min t.width (end * t.tile_size) - first * t.tile_size) c
        && spans
            (tile_y * t.tile_size)
            (min t.height (tile_y * t.tile_size + t.tile_size) - tile_y * t.tile_size)
            r)
      ≡ (leb first (c / t.tile_size) && ltb (c / t.tile_size) end && (r / t.tile_size == tile_y))
spans-run t tile_y first end c r g hy hf he hc hr =
    let x = (tile_begins t.width t.tile_size t.columns first g.tiled.0 g.columns).0 (omega arith) in
    let y = (tile_begins t.height t.tile_size t.rows tile_y g.tiled.0 g.rows).0 hy in
    let across = spans-tiles t.width t.tile_size first end c g.tiled.0 hc (omega arith) in
    let down = spans-tiles t.height t.tile_size tile_y (suc tile_y) r g.tiled.0 hr (omega arith) in
    let next : suc tile_y * t.tile_size ≡ tile_y * t.tile_size + t.tile_size = grind arith in
    rw (← next, across, down) (ground arith)
