-- ===== src/Dirty/Exact.antt =====
-- What `analyze` reports of one frame after another.
use native.Mathlib.Nat.{mul-pos}
use fluxcap.Prelude.{
  ℕ, ◌+◌, ◌-◌, ◌*◌, ◌/◌, ◌≤◌, ◌<◌, ◌≡◌, ◌≢◌, refl, sym, ◌∙◌, subst, ap, false, true, not, ◌||◌,
  ◌==◌, ltb, List, [], Option, none, some, some_inj, if◌then◌else◌, arith, Bool-cases, Option-cases,
  inl, inr, get_or, length, i32_max, u32, u32_max, u64_max,
}
use fluxcap.Dirty.Tracker.{
  Pixels, HashFunction, DirtyRect, DirtyTracker, configure, max_dirty_rects,
}
use fluxcap.Dirty.Analyze.{tile_hash, hash_tiles, compare_hashes, scan_rows, whole_frame, analyze}
use fluxcap.Dirty.Rects.{one_if, coverage, Grid}
use fluxcap.Dirty.Frame.{tile_exists, scan_rows-covers}
use fluxcap.Dirty.Tables.{
  hash_table-get, compare_hashes-get, length-compare_hashes, length-hash_tiles,
}

-- The state after a frame has been analyzed, and its rectangles.
abbrev after_frame : DirtyTracker → HashFunction → Pixels → ℕ → DirtyTracker
after_frame t hash pixels stride =
    let hashes = hash_tiles t hash pixels stride t.rows 0 in
    record t {
      has_baseline = true;
      previous_hashes = hashes;
      changed_tiles = compare_hashes t.has_baseline hashes t.previous_hashes;
    }

abbrev frame_rects : DirtyTracker → HashFunction → Pixels → ℕ → List DirtyRect
frame_rects t hash pixels stride =
    let hashes = hash_tiles t hash pixels stride t.rows 0 in
    let changed = compare_hashes t.has_baseline hashes t.previous_hashes in
    if t.has_baseline
    then scan_rows t.rows t (λ i. get_or changed i false) 0 [] []
    else whole_frame t

analyze-returns :
    (t : DirtyTracker) (hash : HashFunction) (pixels : Pixels) (stride : ℕ)
    → t.hash_function ≡ some hash
    → u32 (t.width * 4) ≤ stride
    → analyze (some pixels) stride t
      ≡ some (after_frame t hash pixels stride, frame_rects t hash pixels stride)
unfolding analyze
analyze-returns t hash pixels stride e h =
    let room : ltb stride (u32 (t.width * 4)) ≡ false = ground arith in rw (e, room) refl

whole_frame-covers :
    (t : DirtyTracker) (c r : ℕ) → c < t.width → r < t.height → coverage c r (whole_frame t) ≡ 1
whole_frame-covers t c r hc hr = ground arith

second_rects-covers :
    (t : DirtyTracker) (hash : HashFunction) (old new : Pixels) (stride stride' c r : ℕ)
    → Grid t
    → c < t.width
    → r < t.height
    → coverage c r (frame_rects (after_frame t hash old stride) hash new stride')
      ≡ one_if (
          not (
            tile_hash t hash new stride' (c / t.tile_size) (r / t.tile_size)
            == tile_hash t hash old stride (c / t.tile_size) (r / t.tile_size)))
second_rects-covers t hash old new stride stride' c r g hc hr =
    let u = after_frame t hash old stride in
    let grid : Grid u = record {
      wide = g.wide;
      high = g.high;
      tiled = g.tiled;
      columns = g.columns;
      rows = g.rows;
    } in
    let p = tile_exists t.width t.tile_size t.columns c g.tiled.0 g.columns hc in
    let q = tile_exists t.height t.tile_size t.rows r g.tiled.0 g.rows hr in
    let now = hash_table-get u hash new stride' (c / t.tile_size) (r / t.tile_size) p q in
    let before = hash_table-get t hash old stride (c / t.tile_size) (r / t.tile_size) p q in
    let differ = compare_hashes-get _ _ _ _ _ now before in
    (scan_rows-covers t.rows u
        (λ i.
          get_or
            (compare_hashes true (hash_tiles u hash new stride' t.rows 0)
              (hash_tiles t hash old stride t.rows 0))
            i false)
        0 [] [] grid (omega arith) (λ c r hc hr. ground arith) (λ h. _) (omega arith)).1
      c r hc hr
    ∙ ap one_if differ

-- Dirty tracking is exact up to hash collisions. When two frames are given to a configured tracker
-- one after the other, both calls return; without a baseline the first one reports the whole frame; and the
-- rectangles of the second one cover a pixel of the frame exactly once when the hash of its tile is
-- not that of the same tile in the first frame, and not at all when the hashes are equal. The sizes
-- are positive `int32_t`, and the strides pass the check of `analyze`.
pub analyze-exact :
    (t : DirtyTracker) (hash : HashFunction) (old new : Pixels) (stride stride' : ℕ)
    → Grid t
    → t.hash_function ≡ some hash
    → u32 (t.width * 4) ≤ stride
    → u32 (t.width * 4) ≤ stride'
    → (u : DirtyTracker) × (reported : List DirtyRect) × (w : DirtyTracker) × (rects : List
        DirtyRect)
      × (analyze (some old) stride t ≡ some (u, reported))
      × (analyze (some new) stride' u ≡ some (w, rects))
      × ((c r : ℕ)
          → c < t.width
          → r < t.height
          → (t.has_baseline ≡ false → coverage c r reported ≡ 1)
            × (coverage c r rects
                ≡ one_if (
                    not (
                      tile_hash t hash new stride' (c / t.tile_size) (r / t.tile_size)
                      == tile_hash t hash old stride (c / t.tile_size) (r / t.tile_size)))))
analyze-exact t hash old new stride stride' g e h h' =
    let u = after_frame t hash old stride in
    (
      u,
      frame_rects t hash old stride,
      after_frame u hash new stride',
      frame_rects u hash new stride',
      analyze-returns t hash old stride e h,
      analyze-returns u hash new stride' e h',
      λ c r hc hr. (
        λ fresh. rw fresh (whole_frame-covers t c r hc hr),
        second_rects-covers t hash old new stride stride' c r g hc hr,
      ),
    )

none-some : (t : DirtyTracker) → none ≢ some t
none-some t e = cc

-- A tracker that is configured has a grid, no baseline and the hash function. The sizes are `int32_t`.
pub configure-Grid :
    (hash : HashFunction) (width height tile_size : ℕ) (t : DirtyTracker)
    → width ≤ i32_max
    → height ≤ i32_max
    → tile_size ≤ i32_max
    → configure hash width height tile_size ≡ some t
    → Grid t × (t.hash_function ≡ some hash) × (t.has_baseline ≡ false)
unfolding configure
configure-Grid hash width height tile_size t a b c e =
    elim (Bool-cases (width == 0 || height == 0 || tile_size == 0)) [
      | inl zero_size ↦ absurd (none-some _ (rw zero_size at e))
      | inr sized ↦
          elim (Bool-cases (
            ltb u32_max ((width + tile_size - 1) / tile_size)
            || ltb u32_max ((height + tile_size - 1) / tile_size)
            || ltb u64_max
                ((width + tile_size - 1) / tile_size * ((height + tile_size - 1) / tile_size)))) [
                  | inl large ↦ absurd (none-some _ (rw (sized, large) at e))
                  | inr fits ↦
                      let made = some_inj (rw (sized, fits) at e) in
                      rw (← made) (
                        record {
                          wide = (ground (arith, sized), a);
                          high = (ground (arith, sized), b);
                          tiled = (ground (arith, sized), c);
                          columns = refl;
                          rows = refl;
                        },
                        refl,
                        refl,
                      )
                ]
    ]

frame_rects-few :
    (t : DirtyTracker) (hash : HashFunction) (pixels : Pixels) (stride : ℕ)
    → Grid t
    → length (frame_rects t hash pixels stride) ≤ t.rows * t.columns
frame_rects-few t hash pixels stride g =
    let few =
      (scan_rows-covers t.rows t
        (λ i.
          get_or
            (compare_hashes t.has_baseline (hash_tiles t hash pixels stride t.rows 0)
              t.previous_hashes)
            i false)
        0 [] [] g (omega arith) (λ c r hc hr. ground arith) (λ h. _) (omega arith)).0 in
    let column = tile_exists t.width t.tile_size t.columns 0 g.tiled.0 g.columns g.wide.0 in
    let row = tile_exists t.height t.tile_size t.rows 0 g.tiled.0 g.rows g.high.0 in
    let one : 1 ≤ t.rows * t.columns = mul-pos (omega arith) (omega arith) in
    elim t.has_baseline
      as (λ b.
        length (
          if b
          then scan_rows t.rows t
              (λ i.
                get_or
                  (compare_hashes t.has_baseline (hash_tiles t hash pixels stride t.rows 0)
                    t.previous_hashes)
                  i false)
              0 [] []
          else whole_frame t)
        ≤ t.rows * t.columns) [ true ↦ few | false ↦ one ]

none_out : (out : DirtyTracker × List DirtyRect) → none ≢ some out
none_out out e = cc

-- The room that callers are told to reserve is enough: a frame never yields more rectangles than
-- `max_dirty_rects` says, before and after the call. The tracker is one that has been configured
-- with sizes that are `int32_t`, and has as many flags as tiles.
pub analyze-fits :
    (t u : DirtyTracker) (pixels : Option Pixels) (stride : ℕ) (rects : List DirtyRect)
    → Grid t
    → max_dirty_rects t ≡ t.rows * t.columns
    → analyze pixels stride t ≡ some (u, rects)
    → (length rects ≤ max_dirty_rects t) × (max_dirty_rects u ≡ max_dirty_rects t) × Grid u
unfolding analyze max_dirty_rects
analyze-fits t u none stride rects g m e = cc
analyze-fits t u (some pixels) stride rects g m e = elim (Option-cases t.hash_function) [
  | inl none_set ↦ absurd (none_out _ (rw none_set at e))
  | inr (hash, set) ↦ elim (Bool-cases (ltb stride (u32 (t.width * 4)))) [
    | inl short ↦ absurd (none_out _ (rw (set, short) at e))
    | inr room ↦
        let returned = analyze-returns t hash pixels stride set (ground (arith, room)) in
        let same : (after_frame t hash pixels stride, frame_rects t hash pixels stride)
            ≡ (u, rects) =
          some_inj (sym returned ∙ e) in
        let flags =
          length-compare_hashes t.has_baseline (hash_tiles t hash pixels stride t.rows 0)
            t.previous_hashes
          ∙ length-hash_tiles t hash pixels stride t.rows 0 in
        subst
          (λ z.
            (length z.1 ≤ length t.changed_tiles)
            × (length z.0.changed_tiles ≡ length t.changed_tiles)
            × Grid z.0)
          same
          (
            omega (arith, frame_rects-few t hash pixels stride g, m),
            flags ∙ sym m,
            record {
              wide = g.wide;
              high = g.high;
              tiled = g.tiled;
              columns = g.columns;
              rows = g.rows;
            },
          )
  ]
]
