-- ===== src/Dirty/Analyze.antt =====
-- `analyze` in src/dirty_tracker.cpp: the hashes of the tiles, the runs of changed tiles in each
-- row, and their rectangles.
use fluxcap.Prelude.{
  ℕ, zero, suc, ◌+◌, ◌-◌, ◌*◌, ◌^◌, min, Bool, false, true, not, ◌&&◌, ◌||◌, ◌==◌, ltb, List, [],
  ◌∷◌, ◌++◌, Option, none, some, length, get_elem?, get_or, set, u32, if◌then◌else◌,
}
use fluxcap.Dirty.Tracker.{Pixels, HashFunction, DirtyRect, DirtyTracker}

-- Which tiles have changed, by their index in the row-major order.
abbrev pub Changed : Type 0
Changed = ℕ → Bool

abbrev pub tile_hash : DirtyTracker → HashFunction → Pixels → ℕ → ℕ → ℕ → ℕ
tile_hash t hash pixels stride tile_x tile_y =
    let x = u32 (tile_x * t.tile_size) in
    let y = u32 (tile_y * t.tile_size) in
    hash pixels stride x y (min t.tile_size (t.width - x)) (min t.tile_size (t.height - y))

-- The hashes of `n` tiles of a row, and of `n` rows.
unfoldable pub hash_columns : DirtyTracker → HashFunction → Pixels → ℕ → ℕ → ℕ → ℕ → List ℕ
hash_columns t hash pixels stride zero tile_x tile_y = []
hash_columns t hash pixels stride (suc n) tile_x tile_y =
    tile_hash t hash pixels stride tile_x tile_y
    ∷ hash_columns t hash pixels stride n (tile_x + 1) tile_y

unfoldable pub hash_tiles : DirtyTracker → HashFunction → Pixels → ℕ → ℕ → ℕ → List ℕ
unfolding hash_columns
hash_tiles t hash pixels stride zero tile_y = []
hash_tiles t hash pixels stride (suc n) tile_y =
    hash_columns t hash pixels stride t.columns 0 tile_y
    ++ hash_tiles t hash pixels stride n (tile_y + 1)

-- Whether each tile's hash is another one than before.
unfoldable pub compare_hashes : Bool → List ℕ → List ℕ → List Bool
compare_hashes has_baseline [] previous = []
compare_hashes has_baseline (h ∷ hs) [] = true ∷ compare_hashes has_baseline hs []
compare_hashes has_baseline (h ∷ hs) (p ∷ ps) =
    (not has_baseline || not (h == p)) ∷ compare_hashes has_baseline hs ps

pub record Run : Type 0 where
  pub first_column : ℕ
  pub end_column : ℕ
  pub rect_index : ℕ

-- The `do … while` loop that ends a run, on fuel, from the column behind the first one on.
unfoldable pub end_of_run : ℕ → Changed → ℕ → ℕ → ℕ → ℕ
end_of_run zero changed row_base columns column = column
end_of_run (suc fuel) changed row_base columns column =
    let next = end_of_run fuel changed row_base columns (column + 1) in
    if ltb column columns && changed (row_base + column) then next else column

-- The previous runs from `previous_index` on, that index moved up to the column.
unfoldable pub skip_runs : ℕ → List Run → List Run
skip_runs first [] = []
skip_runs first (r ∷ rs) =
    let rest = skip_runs first rs in if ltb r.first_column first then rest else r ∷ rs

-- The rectangle of the run right above, when it has the same columns.
unfoldable pub run_above : ℕ → ℕ → List Run → Option ℕ
run_above first end [] = none
run_above first end (r ∷ rs) =
    if r.first_column == first && r.end_column == end then some r.rect_index else none

abbrev pub grow : ℕ → DirtyRect → DirtyRect
grow added rect = record rect { height = u32 (rect.height + added) }

abbrev pub at_index : Option DirtyRect → DirtyRect
at_index (some rect) = rect
at_index none = record { x = 0; y = 0; width = 0; height = 0 }

unfoldable pub run_rect : DirtyTracker → ℕ → ℕ → ℕ → DirtyRect
run_rect t tile_y first end =
    let x = u32 (first * t.tile_size) in
    let y = u32 (tile_y * t.tile_size) in
    record {
      x = x;
      y = y;
      width = u32 (min t.width (u32 (end * t.tile_size)) + 2 ^ 32 - x);
      height = u32 (min t.height (u32 (y + t.tile_size)) + 2 ^ 32 - y);
    }

-- The index of the run's rectangle, and the rectangles with the run's tiles added.
abbrev pub place_run : DirtyTracker → ℕ → ℕ → ℕ → Option ℕ → List DirtyRect → ℕ × List DirtyRect
place_run t tile_y first end none output =
    (length output, output ++ (run_rect t tile_y first end ∷ []))
place_run t tile_y first end (some i) output =
    let added = min t.tile_size (t.height - u32 (tile_y * t.tile_size)) in
    (i, set output i (grow added (at_index (get_elem? output i))))

pub record RowScan : Type 0 where
  pub column : ℕ
  pub above : List Run
  pub runs : List Run
  pub output : List DirtyRect

-- The body of the `while` loop over the columns.
unfoldable pub scan_column : DirtyTracker → Changed → ℕ → RowScan → RowScan
scan_column t changed tile_y s =
    let row_base = tile_y * t.columns in
    let first = s.column in
    let end = end_of_run t.columns changed row_base t.columns (first + 1) in
    let above = skip_runs first s.above in
    let placed = place_run t tile_y first end (run_above first end above) s.output in
    if changed (row_base + first)
    then record {
      column = end;
      above = above;
      runs =
          s.runs ++ (record { first_column = first; end_column = end; rect_index = placed.0 } ∷ []);
      output = placed.1;
    }
    else record s { column = first + 1 }

unfoldable pub scan_row : ℕ → DirtyTracker → Changed → ℕ → RowScan → RowScan
scan_row zero t changed tile_y s = s
scan_row (suc fuel) t changed tile_y s =
    let next = scan_row fuel t changed tile_y (scan_column t changed tile_y s) in
    if ltb s.column t.columns then next else s

-- `n` rows are left, from `tile_y` on. A row has `columns` rounds at most.
unfoldable pub scan_rows :
    ℕ → DirtyTracker → Changed → ℕ → List Run → List DirtyRect → List DirtyRect
scan_rows zero t changed tile_y above output = output
scan_rows (suc n) t changed tile_y above output =
    let s =
      scan_row t.columns t changed tile_y
        (record { column = 0; above = above; runs = []; output = output }) in
    scan_rows n t changed (tile_y + 1) s.runs s.output

abbrev pub whole_frame : DirtyTracker → List DirtyRect
whole_frame t = record { x = 0; y = 0; width = t.width; height = t.height } ∷ []

-- `none` is an exception; `pixels` is `none` for a null pointer.
unfoldable pub analyze : Option Pixels → ℕ → DirtyTracker → Option (DirtyTracker × List DirtyRect)
analyze none stride t = none
analyze (some pixels) stride t = elim t.hash_function [
  | none ↦ none
  | some hash ↦
      let hashes = hash_tiles t hash pixels stride t.rows 0 in
      let changed = compare_hashes t.has_baseline hashes t.previous_hashes in
      let after = record t {
        has_baseline = true;
        previous_hashes = hashes;
        changed_tiles = changed;
      } in
      let rects = scan_rows t.rows t (λ i. get_or changed i false) 0 [] [] in
      if ltb stride (u32 (t.width * 4))
      then none
      else some (after, if t.has_baseline then rects else whole_frame t)
]
