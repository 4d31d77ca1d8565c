-- ===== src/Dirty/Row.antt =====
-- What the scan of one row keeps: the coverage so far, and where the runs' rectangles stand.
use native.Mathlib.Nat.{mul-div_cancel}
use fluxcap.Prelude.{
  ℕ, zero, suc, ◌+◌, ◌-◌, ◌*◌, ◌/◌, ◌≤◌, ◌<◌, ◌≡◌, ◌≢◌, refl, sym, ◌∙◌, ap, min, ◌&&◌, ◌==◌, ltb,
  leb, List, [], ◌∷◌, ◌++◌, Option, none, some, some_inj, length, length-append, length-set,
  get_elem?, set, u32, u32_mod, arith,
}
use fluxcap.Dirty.Tracker.{DirtyRect, DirtyTracker}
use fluxcap.Dirty.Analyze.{Run, run_rect, grow, at_index, place_run}
use fluxcap.Dirty.Rects.{
  one_if, coverage, coverage-append, coverage-grow, Grid, Stands, tile_begins, run_rect-plain,
  spans-run,
}

get_elem?-append_old :
    (us ws : List DirtyRect) (i : ℕ) (a : DirtyRect)
    → get_elem? us i ≡ some a
    → get_elem? (us ++ ws) i ≡ some a
get_elem?-append_old [] ws i a e = cc
get_elem?-append_old (u ∷ us) ws zero a e = e
get_elem?-append_old (u ∷ us) ws (suc i) a e = get_elem?-append_old us ws i a e

get_elem?-append_new :
    (us : List DirtyRect) (a : DirtyRect) → get_elem? (us ++ (a ∷ [])) (length us) ≡ some a
get_elem?-append_new [] a = refl
get_elem?-append_new (u ∷ us) a = ground (arith, get_elem?-append_new us a)

get_elem?-set_there :
    (us : List DirtyRect) (i : ℕ) (a b : DirtyRect)
    → get_elem? us i ≡ some a
    → get_elem? (set us i b) i ≡ some b
get_elem?-set_there [] i a b e = cc
get_elem?-set_there (u ∷ us) zero a b e = refl
get_elem?-set_there (u ∷ us) (suc i) a b e = get_elem?-set_there us i a b e

get_elem?-set_other :
    (us : List DirtyRect) (i j : ℕ) (b : DirtyRect)
    → i ≢ j
    → get_elem? (set us i b) j ≡ get_elem? us j
get_elem?-set_other [] i j b d = refl
get_elem?-set_other (u ∷ us) zero zero b d = absurd (d refl)
get_elem?-set_other (u ∷ us) zero (suc j) b d = refl
get_elem?-set_other (u ∷ us) (suc i) zero b d = refl
get_elem?-set_other (u ∷ us) (suc i) (suc j) b d = get_elem?-set_other us i j b (ground arith)

-- The rectangle of a run, which ends at the given row.
abbrev pub Linked : DirtyTracker → ℕ → List DirtyRect → Run → Type 0
Linked t bottom output u =
    (a : DirtyRect) × (get_elem? output u.rect_index ≡ some a)
    × Stands t u.first_column u.end_column bottom a

-- The bottom of the tiles of a row.
abbrev pub bottom_of : DirtyTracker → ℕ → ℕ
bottom_of t tile_y = min t.height (tile_y * t.tile_size + t.tile_size)

abbrev pub run_of : ℕ → ℕ → ℕ → Run
run_of first end index = record { first_column = first; end_column = end; rect_index = index }

-- Rectangles of runs that begin in different columns are different.
same_index-column :
    (t : DirtyTracker) (output : List DirtyRect) (i b b' f e f' e' : ℕ) (a a' : DirtyRect)
    → 0 < t.tile_size
    → get_elem? output i ≡ some a
    → get_elem? output i ≡ some a'
    → Stands t f e b a
    → Stands t f' e' b' a'
    → f ≡ f'
same_index-column t output i b b' f e f' e' a a' p h h' s s' =
    let same : a ≡ a' = some_inj (sym h ∙ h') in
    let at : f * t.tile_size ≡ f' * t.tile_size = sym s.left ∙ ap (λ z. z.x) same ∙ s'.left in
    sym (mul-div_cancel f p) ∙ ap (λ z. z / t.tile_size) at ∙ mul-div_cancel f' p

-- Placing a run adds exactly its pixels, leaves its rectangle standing at the end of the row, and
-- leaves the rectangles of runs with another first column alone.
pub place_run-adds :
    (t : DirtyTracker) (tile_y first end : ℕ) (found : Option ℕ) (output : List DirtyRect)
    → Grid t
    → tile_y < t.rows
    → first < end
    → end ≤ t.columns
    → ((i : ℕ) → found ≡ some i → Linked t (tile_y * t.tile_size) output (run_of first end i))
    → let (index, after) = place_run t tile_y first end found output in
      ((c r : ℕ)
        → c < t.width
        → r < t.height
        → coverage c r after
          ≡ coverage c r output
            + one_if (
                leb first (c / t.tile_size)
                && ltb (c / t.tile_size) end
                && r / t.tile_size == tile_y))
      × Linked t (bottom_of t tile_y) after (run_of first end index)
      × ((bottom : ℕ) (u : Run)
          → u.first_column ≢ first
          → Linked t bottom output u
          → Linked t bottom after u)
place_run-adds t tile_y first end none output g hy hf he link =
    let plain = run_rect-plain t tile_y first end g hy hf he in
    let y = (tile_begins t.height t.tile_size t.rows tile_y g.tiled.0 g.rows).0 hy in
    (
      λ c r hc hr.
          let more = coverage-append c r output (run_rect t tile_y first end ∷ []) in
          let exact = spans-run t tile_y first end c r g hy hf he hc hr in
          rw (more, plain, exact) (omega arith),
      (
        run_rect t tile_y first end,
        get_elem?-append_new output (run_rect t tile_y first end),
        rw plain (record { left = refl; wide = refl; base = omega arith }),
      ),
      λ bottom u d (a, held, stands).
          (a, get_elem?-append_old output _ u.rect_index a held, stands),
    )
place_run-adds t tile_y first end (some i) output g hy hf he link =
    let (a, held, stands) = link i refl in
    let y = (tile_begins t.height t.tile_size t.rows tile_y g.tiled.0 g.rows).0 hy in
    let fits : min t.tile_size (t.height - u32 (tile_y * t.tile_size))
        ≡ bottom_of t tile_y - tile_y * t.tile_size =
      ground (arith, g.high) in
    let grown = grow (bottom_of t tile_y - tile_y * t.tile_size) a in
    let small : a.height + (bottom_of t tile_y - tile_y * t.tile_size) < u32_mod =
      omega (arith, stands.base, g.high) in
    rw (held, fits)
      (
        λ c r hc hr.
            let more =
              coverage-grow c r output i a (bottom_of t tile_y - tile_y * t.tile_size) held small in
            let exact = spans-run t tile_y first end c r g hy hf he hc hr in
            rw (more, stands.left, stands.wide, stands.base, exact) refl,
        (
          grown,
          get_elem?-set_there output i a grown held,
          record {
            left = stands.left;
            wide = stands.wide;
            base = ground (arith, stands.base, g.high);
          },
        ),
        λ bottom u d (b, there, other).
            let apart : i ≢ u.rect_index = λ same. d (
              same_index-column t output i _ _ _ _ _ _ b a g.tiled.0 (rw same there) held other
                stands) in
            (b, get_elem?-set_other output i u.rect_index grown apart ∙ there, other),
      )

pub length-place_run :
    (t : DirtyTracker) (tile_y first end : ℕ) (found : Option ℕ) (output : List DirtyRect)
    → length (place_run t tile_y first end found output).1 ≤ length output + 1
length-place_run t tile_y first end none output =
    omega (arith, length-append output (run_rect t tile_y first end ∷ []))
length-place_run t tile_y first end (some i) output = omega (
  arith,
  length-set output i (
      grow (min t.tile_size (t.height - u32 (tile_y * t.tile_size)))
        (at_index (get_elem? output i))),
)
