-- ===== src/Dirty/Frame.antt =====
-- What the scan of all rows keeps.
use native.Mathlib.Nat.{div-mul-le_self}
use fluxcap.Prelude.{
  ℕ, zero, suc, ◌+◌, ◌-◌, ◌*◌, ◌/◌, ◌≤◌, ◌<◌, ◌≡◌, ◌∙◌, subst, List, [], arith, All, All-imp,
  length,
}
use fluxcap.Dirty.Tracker.{DirtyRect, DirtyTracker}
use fluxcap.Dirty.Analyze.{Changed, Run, RowScan, scan_row, scan_rows}
use fluxcap.Dirty.Rects.{one_if, coverage, Grid, tile_begins}
use fluxcap.Dirty.Row.{Linked, bottom_of}
use fluxcap.Dirty.Scan.{scanned, RowInvariant, scan_row-keeps}

pub tile_exists :
    (extent size n c : ℕ) → 0 < size → n ≡ (extent + size - 1) / size → c < extent → c / size < n
tile_exists extent size n c p e h =
    (tile_begins extent size n (c / size) p e).1 (omega (arith, div-mul-le_self c size))

-- A row that is done is the beginning of the next one.
next_row :
    (t : DirtyTracker) (changed : Changed) (tile_y p q : ℕ)
    → p < t.columns
    → one_if (scanned t changed tile_y t.columns p q)
      ≡ one_if (scanned t changed (tile_y + 1) 0 p q)
next_row t changed tile_y p q h = ground arith

pub scan_rows-covers :
    (n : ℕ) (t : DirtyTracker) (changed : Changed) (tile_y : ℕ) (above : List Run)
    (output : List DirtyRect)
    → Grid t
    → tile_y + n ≡ t.rows
    → ((c r : ℕ)
        → c < t.width
        → r < t.height
        → coverage c r output
          ≡ one_if (scanned t changed tile_y 0 (c / t.tile_size) (r / t.tile_size)))
    → (tile_y < t.rows → All (Linked t (tile_y * t.tile_size) output) above)
    → length output ≤ tile_y * t.columns
    → (length (scan_rows n t changed tile_y above output) ≤ t.rows * t.columns)
      × ((c r : ℕ)
          → c < t.width
          → r < t.height
          → coverage c r (scan_rows n t changed tile_y above output)
            ≡ one_if (changed (r / t.tile_size * t.columns + c / t.tile_size)))
unfolding scan_rows
scan_rows-covers zero t changed tile_y above output g e cov link few =
    let last : tile_y ≡ t.rows = omega arith in
    (
      rw (← last) few,
      λ c r hc hr.
          let q = tile_exists t.height t.tile_size t.rows r g.tiled.0 g.rows hr in
          cov c r hc hr ∙ ground arith,
    )
scan_rows-covers (suc n) t changed tile_y above output g e cov link few =
    let start : RowScan = record { column = 0; above = above; runs = []; output = output } in
    let v : RowInvariant t changed tile_y start = record {
      range = omega arith;
      few = omega (arith, few);
      covered = cov;
      above = All-imp _ _ (λ u l k. l) above (link (omega arith));
      runs = _;
    } in
    let end = scan_row t.columns t changed tile_y start in
    let (kept, done) =
      scan_row-keeps t.columns t changed tile_y start g (omega arith) (omega arith) v in
    scan_rows-covers n t changed (tile_y + 1) _ _ g (omega arith)
      (λ c r hc hr.
        let p = tile_exists t.width t.tile_size t.columns c g.tiled.0 g.columns hc in
        kept.covered c r hc hr
        ∙ (rw done (next_row t changed tile_y (c / t.tile_size) (r / t.tile_size) p)))
      (λ more.
        let y = (tile_begins t.height t.tile_size t.rows (tile_y + 1) g.tiled.0 g.rows).0 more in
        let next : bottom_of t tile_y ≡ (tile_y + 1) * t.tile_size = grind arith in
        All-imp _ _ (λ u l. subst (λ b. Linked t b end.output u) next l.1) end.runs kept.runs)
      (grind (arith, kept.few, done))
