-- ===== src/Dirty/Scan.antt =====
-- The invariant of the scan over the columns of one row.
use fluxcap.Prelude.{
  ℕ, zero, suc, ◌+◌, ◌-◌, ◌*◌, ◌/◌, ◌≤◌, ◌<◌, ◌≡◌, ◌∙◌, subst, Bool, false, true, ◌&&◌, ◌||◌, ◌==◌,
  ltb, leb, List, [], ◌∷◌, ◌++◌, some, length, arith, All, All-imp, Bool-cases, inl, inr,
}
use fluxcap.Dirty.Tracker.{DirtyRect, DirtyTracker}
use fluxcap.Dirty.Analyze.{
  Changed, Run, RowScan, end_of_run, skip_runs, run_above, scan_column, scan_row,
}
use fluxcap.Dirty.Rects.{one_if, coverage, Grid}
use fluxcap.Dirty.Row.{Linked, bottom_of, run_of, place_run-adds, length-place_run}

-- The run goes on to the first tile that has not changed.
pub end_of_run-ends :
    (fuel : ℕ) (changed : Changed) (base columns column : ℕ)
    → columns - column ≤ fuel
    → column ≤ columns
    → let end = end_of_run fuel changed base columns column in
      (column ≤ end)
      × (end ≤ columns)
      × ((k : ℕ) → column ≤ k → k < end → changed (base + k) ≡ true)
      × (end < columns → changed (base + end) ≡ false)
unfolding end_of_run
end_of_run-ends zero changed base columns column f h =
    (omega arith, h, λ k a b. absurd (omega arith), λ l. absurd (omega arith))
end_of_run-ends (suc fuel) changed base columns column f h =
    elim (Bool-cases (ltb column columns && changed (base + column))) [
      | inr done ↦
          rw done (omega arith, h, λ k a b. absurd (omega arith), λ l. ground (arith, done))
      | inl more ↦
          let (from, upto, all, stop) =
            end_of_run-ends fuel changed base columns (column + 1) (omega arith)
              (ground (arith, more)) in
          rw more (
            omega arith,
            upto,
            λ k a b. elim (Bool-cases (k == column)) [
              | inl here ↦
                  let at : k ≡ column = ground (arith, here) in rw at (ground (arith, more))
              | inr later ↦ all k (ground (arith, later)) b
            ],
            stop,
          )
    ]

skip_runs-All :
    (P : Run → Type 0) (first : ℕ) (us : List Run) → All P us → All P (skip_runs first us)
unfolding skip_runs
skip_runs-All P first [] h = h
skip_runs-All P first (u ∷ us) h =
    let rest = skip_runs-All P first us h.1 in
    elim (Bool-cases (ltb u.first_column first)) [
      | inl early ↦ rw early rest
      | inr kept ↦ rw kept h
    ]

-- What a rectangle that `run_above` finds is linked to.
run_above-Linked :
    (t : DirtyTracker) (bottom first end : ℕ) (output : List DirtyRect) (us : List Run) (i : ℕ)
    → All (λ u. first ≤ u.first_column → Linked t bottom output u) us
    → run_above first end us ≡ some i
    → Linked t bottom output (run_of first end i)
unfolding run_above
run_above-Linked t bottom first end output [] i h e = cc
run_above-Linked t bottom first end output (u ∷ us) i h e =
    let same : (u.first_column ≡ first) × (u.end_column ≡ end) × (u.rect_index ≡ i) =
      ground arith in
    subst (Linked t bottom output)
      (λ k. record { first_column = same.0 k; end_column = same.1 k; rect_index = same.2 k })
      (h.0 (omega arith))

-- Whether the tile has changed and has been scanned, when the scan stands at a column of a row.
abbrev pub scanned : DirtyTracker → Changed → ℕ → ℕ → ℕ → ℕ → Bool
scanned t changed tile_y column p q =
    (ltb q tile_y || q == tile_y && ltb p column) && changed (q * t.columns + p)

-- Each changed tile up to the column is covered once and nothing else is, and the rectangles of
-- the runs stand where they can grow.
pub record RowInvariant (t : DirtyTracker) (changed : Changed) (tile_y : ℕ) (s : RowScan)
    : Type 0 where
  pub range : s.column ≤ t.columns
  pub few : length s.output ≤ tile_y * t.columns + s.column
  pub covered :
      (c r : ℕ)
      → c < t.width
      → r < t.height
      → coverage c r s.output
        ≡ one_if (scanned t changed tile_y s.column (c / t.tile_size) (r / t.tile_size))
  pub above :
      All (λ u. s.column ≤ u.first_column → Linked t (tile_y * t.tile_size) s.output u) s.above
  pub runs :
      All (λ u. (u.first_column < s.column) × Linked t (bottom_of t tile_y) s.output u) s.runs

All-append : (P : Run → Type 0) (us : List Run) (u : Run) → All P us → P u → All P (us ++ (u ∷ []))
All-append P [] u h p = (p, _)
All-append P (w ∷ us) u h p = (h.0, All-append P us u h.1 p)

-- What a run adds to the tiles that have been scanned.
scanned-run :
    (t : DirtyTracker) (changed : Changed) (tile_y first end p q : ℕ)
    → first < end
    → ((k : ℕ) → first ≤ k → k < end → changed (tile_y * t.columns + k) ≡ true)
    → one_if (scanned t changed tile_y first p q) + one_if (leb first p && ltb p end && q == tile_y)
      ≡ one_if (scanned t changed tile_y end p q)
scanned-run t changed tile_y first end p q h all =
    elim (Bool-cases (leb first p && ltb p end && q == tile_y)) [
      | inl on ↦
          let row : q ≡ tile_y = ground (arith, on) in
          let set : changed (tile_y * t.columns + p) ≡ true =
            all p (ground (arith, on)) (ground (arith, on)) in
          rw row (ground (arith, set, on))
      | inr off ↦ ground (arith, off)
    ]

scanned-same :
    (t : DirtyTracker) (changed : Changed) (tile_y first p q : ℕ)
    → changed (tile_y * t.columns + first) ≡ false
    → one_if (scanned t changed tile_y first p q)
      ≡ one_if (scanned t changed tile_y (first + 1) p q)
scanned-same t changed tile_y first p q same = elim (Bool-cases (p == first && q == tile_y)) [
  | inl on ↦
      let here : (p ≡ first) × (q ≡ tile_y) = ground (arith, on) in
      rw (here.0, here.1) (ground (arith, same))
  | inr off ↦ ground (arith, off)
]

from_first :
    (changed : Changed) (base first end : ℕ)
    → changed (base + first) ≡ true
    → ((k : ℕ) → first + 1 ≤ k → k < end → changed (base + k) ≡ true)
    → (k : ℕ) → first ≤ k
    → k < end
    → changed (base + k) ≡ true
from_first changed base first end new all k a b = elim (Bool-cases (k == first)) [
  | inl here ↦ let at : k ≡ first = ground (arith, here) in rw at new
  | inr later ↦ all k (ground (arith, later)) b
]

pub scan_column-keeps :
    (t : DirtyTracker) (changed : Changed) (tile_y : ℕ) (s : RowScan)
    → Grid t
    → tile_y < t.rows
    → s.column < t.columns
    → RowInvariant t changed tile_y s
    → RowInvariant t changed tile_y (scan_column t changed tile_y s)
      × (s.column < (scan_column t changed tile_y s).column)
unfolding scan_column
scan_column-keeps t changed tile_y s g hy h v =
    let first = s.column in
    elim (Bool-cases (changed (tile_y * t.columns + first))) [
      | inr same ↦ rw same (
        record {
          range = omega arith;
          few = omega (arith, v.few);
          covered = λ c r hc hr. v.covered c r hc hr ∙ scanned-same t changed tile_y first _ _ same;
          above = All-imp _ _ (λ u l k. l (omega arith)) s.above v.above;
          runs = All-imp _ _ (λ u l. (omega (arith, l.0), l.1)) s.runs v.runs;
        },
        omega arith,
      )
      | inl new ↦
          let end = end_of_run t.columns changed (tile_y * t.columns) t.columns (first + 1) in
          let (from, upto, all, _) =
            end_of_run-ends t.columns changed (tile_y * t.columns) t.columns (first + 1)
              (omega arith) (omega arith) in
          let above = skip_runs first s.above in
          let linked = skip_runs-All _ first s.above v.above in
          let (adds, stands, kept) =
            place_run-adds t tile_y first end (run_above first end above) s.output g hy
              (omega arith) upto
              (λ i e.
                run_above-Linked t (tile_y * t.tile_size) first end s.output above i linked e) in
          rw new (
            record {
              range = upto;
              few = omega (
                arith,
                v.few,
                length-place_run t tile_y first end (run_above first end above) s.output,
              );
              covered = λ c r hc hr.
                  rw (adds c r hc hr, v.covered c r hc hr)
                    (scanned-run t changed tile_y first end _ _ (omega arith)
                      (from_first changed (tile_y * t.columns) first end new all));
              above = All-imp _ _ (λ u l k. kept _ u (ground arith) (l (omega arith))) above linked;
              runs =
                  All-append _ s.runs _
                    (All-imp _ _ (λ u l. (omega (arith, l.0), kept _ u (ground (arith, l.0)) l.1))
                      s.runs v.runs)
                    (omega arith, stands);
            },
            omega arith,
          )
    ]

-- The round over the columns ends at the last one, within `columns` rounds.
pub scan_row-keeps :
    (fuel : ℕ) (t : DirtyTracker) (changed : Changed) (tile_y : ℕ) (s : RowScan)
    → Grid t
    → tile_y < t.rows
    → t.columns - s.column ≤ fuel
    → RowInvariant t changed tile_y s
    → let z = scan_row fuel t changed tile_y s in
      RowInvariant t changed tile_y z × (z.column ≡ t.columns)
unfolding scan_row
scan_row-keeps zero t changed tile_y s g hy f v = (v, omega (arith, v.range))
scan_row-keeps (suc fuel) t changed tile_y s g hy f v = elim (Bool-cases (ltb s.column t.columns)) [
  | inr done ↦ rw done (v, ground (arith, done, v.range))
  | inl more ↦
      let (kept, on) = scan_column-keeps t changed tile_y s g hy (ground (arith, more)) v in
      rw more (scan_row-keeps fuel t changed tile_y _ g hy (omega arith) kept)
]
