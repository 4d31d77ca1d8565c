-- ===== src/Dirty/Tests.antt =====
-- Frames of 8x6 pixels in tiles of two by two, of which some change.
use fluxcap.Prelude.{
  ℕ, ◌*◌, ◌/◌, ◌≤◌, ◌<◌, ◌≡◌, refl, true, false, not, ◌==◌, List, [], ◌∷◌, Option, some, none,
  replicate, arith, if◌then◌else◌,
}
use fluxcap.Dirty.Tracker.{
  Pixels, DirtyRect, DirtyTracker, configure, max_dirty_rects, hash_tile_portable, hash_rows,
  hash_row, hash_words, read_word, avalanche,
}
use fluxcap.Dirty.Analyze.{
  tile_hash, run_rect, analyze, hash_columns, hash_tiles, compare_hashes, scan_rows, scan_row,
  scan_column, end_of_run, skip_runs, run_above,
}
use fluxcap.Dirty.Rects.{Grid, one_if, coverage}
use fluxcap.Dirty.Exact.{configure-Grid, analyze-exact, analyze-fits}

abbrev small : DirtyTracker
small = record {
  width = 8;
  height = 6;
  tile_size = 2;
  columns = 4;
  rows = 3;
  has_baseline = false;
  hash_function = some hash_tile_portable;
  previous_hashes = replicate 12 0;
  changed_tiles = replicate 12 false;
}

small_configured : configure hash_tile_portable 8 6 2 ≡ some small
unfolding configure
small_configured = refl

-- Pixels are four bytes, and a row is 32: tiles 1 and 2 of the first two rows of tiles change.
abbrev black : Pixels
black i = 0

abbrev drawn : Pixels
drawn i =
    if i == 8
    then 255
    else if i == 20
    then 255
    else if i == 72
    then 255
    else if i == 84
    then 255
    else 0

analyze-exact_example :
    (u : DirtyTracker) × (reported : List DirtyRect) × (w : DirtyTracker) × (rects : List DirtyRect)
    × (analyze (some black) 32 small ≡ some (u, reported))
    × (analyze (some drawn) 32 u ≡ some (w, rects))
    × ((c r : ℕ)
        → c < 8
        → r < 6
        → (false ≡ false → coverage c r reported ≡ 1)
          × (coverage c r rects
              ≡ one_if (
                  not (
                    tile_hash small hash_tile_portable drawn 32 (c / 2) (r / 2)
                    == tile_hash small hash_tile_portable black 32 (c / 2) (r / 2)))))
analyze-exact_example =
    analyze-exact small hash_tile_portable black drawn 32 32
      (configure-Grid hash_tile_portable 8 6 2 small (omega arith) (omega arith) (omega arith)
        small_configured).0
      refl (omega arith) (omega arith)

abbrev rects_of : Option (DirtyTracker × List DirtyRect) → List DirtyRect
rects_of (some out) = out.1
rects_of none = []

abbrev tracker_of : Option (DirtyTracker × List DirtyRect) → DirtyTracker
tracker_of (some out) = out.0
tracker_of none = small

-- The two changed tiles of each row make one run, and the two runs one rectangle.
one_rect :
    rects_of (analyze (some drawn) 32 (tracker_of (analyze (some black) 32 small)))
    ≡ (record { x = 2; y = 0; width = 4; height = 4 } ∷ [])
unfolding analyze hash_tiles hash_columns compare_hashes scan_rows scan_row scan_column end_of_run
    skip_runs run_above run_rect hash_tile_portable hash_rows hash_row hash_words read_word
    avalanche
one_rect = refl

abbrev reported_once : DirtyTracker
reported_once = record small {
  has_baseline = true;
  previous_hashes = hash_tiles small hash_tile_portable black 32 3 0;
  changed_tiles =
      compare_hashes false (hash_tiles small hash_tile_portable black 32 3 0) (replicate 12 0);
}

first_report :
    analyze (some black) 32 small
    ≡ some (reported_once, record { x = 0; y = 0; width = 8; height = 6 } ∷ [])
unfolding analyze
first_report = refl

small_flags : max_dirty_rects small ≡ 3 * 4
unfolding max_dirty_rects
small_flags = refl

analyze-fits_example :
    (1 ≤ max_dirty_rects small)
    × (max_dirty_rects reported_once ≡ max_dirty_rects small)
    × Grid reported_once
analyze-fits_example =
    analyze-fits small reported_once (some black) 32
      (record { x = 0; y = 0; width = 8; height = 6 } ∷ [])
      (configure-Grid hash_tile_portable 8 6 2 small (omega arith) (omega arith) (omega arith)
        small_configured).0
      small_flags first_report
