-- ===== src/Dirty/Tables.antt =====
-- The tables of hashes and flags are in row-major order.
use fluxcap.Prelude.{
  ℕ, zero, suc, ◌+◌, ◌*◌, ◌<◌, ◌≡◌, refl, ◌∙◌, ap, Bool, false, true, not, ◌==◌, List, [], ◌∷◌,
  ◌++◌, some, arith, get_elem?, get_or, length, length-append,
}
use fluxcap.Dirty.Tracker.{Pixels, HashFunction, DirtyTracker}
use fluxcap.Dirty.Analyze.{tile_hash, hash_columns, hash_tiles, compare_hashes}

get_elem?-append_front :
    (us ws : List ℕ) (i a : ℕ) → get_elem? us i ≡ some a → get_elem? (us ++ ws) i ≡ some a
get_elem?-append_front [] ws i a e = cc
get_elem?-append_front (u ∷ us) ws zero a e = e
get_elem?-append_front (u ∷ us) ws (suc i) a e = get_elem?-append_front us ws i a e

get_elem?-append_back :
    (us ws : List ℕ) (n i : ℕ) → length us ≡ n → get_elem? (us ++ ws) (n + i) ≡ get_elem? ws i
get_elem?-append_back [] ws n i e = ground arith
get_elem?-append_back (u ∷ us) ws zero i e = absurd (omega arith)
get_elem?-append_back (u ∷ us) ws (suc n) i e =
    ground (arith, get_elem?-append_back us ws n i (omega arith))

pub hash_columns-get :
    (t : DirtyTracker) (hash : HashFunction) (pixels : Pixels) (stride n x y k : ℕ)
    → k < n
    → get_elem? (hash_columns t hash pixels stride n x y) k
      ≡ some (tile_hash t hash pixels stride (x + k) y)
unfolding hash_columns
hash_columns-get t hash pixels stride zero x y k h = absurd (omega arith)
hash_columns-get t hash pixels stride (suc n) x y zero h =
    ap (λ z. some (tile_hash t hash pixels stride z y)) (omega arith)
hash_columns-get t hash pixels stride (suc n) x y (suc k) h =
    hash_columns-get t hash pixels stride n (x + 1) y k (omega arith)
    ∙ ap (λ z. some (tile_hash t hash pixels stride z y)) (omega arith)

length-hash_columns :
    (t : DirtyTracker) (hash : HashFunction) (pixels : Pixels) (stride n x y : ℕ)
    → length (hash_columns t hash pixels stride n x y) ≡ n
unfolding hash_columns
length-hash_columns t hash pixels stride zero x y = refl
length-hash_columns t hash pixels stride (suc n) x y =
    omega (arith, length-hash_columns t hash pixels stride n (x + 1) y)

-- The tables are in row-major order.
hash_tiles-get :
    (t : DirtyTracker) (hash : HashFunction) (pixels : Pixels) (stride n y p q : ℕ)
    → p < t.columns
    → q < n
    → get_elem? (hash_tiles t hash pixels stride n y) (q * t.columns + p)
      ≡ some (tile_hash t hash pixels stride p (y + q))
unfolding hash_tiles
hash_tiles-get t hash pixels stride zero y p q h k = absurd (omega arith)
hash_tiles-get t hash pixels stride (suc n) y p zero h k =
    let here = hash_columns-get t hash pixels stride t.columns 0 y p h in
    let front : 0 * t.columns + p ≡ p = omega arith in
    let row : y + 0 ≡ y = omega arith in
    rw (front, row)
      (get_elem?-append_front _ _ p _ here
        ∙ ap (λ z. some (tile_hash t hash pixels stride z y)) (omega arith))
hash_tiles-get t hash pixels stride (suc n) y p (suc q) h k =
    let at : suc q * t.columns + p ≡ t.columns + (q * t.columns + p) = grind arith in
    let row = length-hash_columns t hash pixels stride t.columns 0 y in
    rw at (
      get_elem?-append_back _ _ t.columns (q * t.columns + p) row
      ∙ hash_tiles-get t hash pixels stride n (y + 1) p q h (omega arith)
      ∙ ap (λ z. some (tile_hash t hash pixels stride p z)) (omega arith))

pub hash_table-get :
    (t : DirtyTracker) (hash : HashFunction) (pixels : Pixels) (stride p q : ℕ)
    → p < t.columns
    → q < t.rows
    → get_elem? (hash_tiles t hash pixels stride t.rows 0) (q * t.columns + p)
      ≡ some (tile_hash t hash pixels stride p q)
hash_table-get t hash pixels stride p q h k =
    hash_tiles-get t hash pixels stride t.rows 0 p q h k
    ∙ ap (λ z. some (tile_hash t hash pixels stride p z)) (omega arith)

pub compare_hashes-get :
    (hs ps : List ℕ) (i a b : ℕ)
    → get_elem? hs i ≡ some a
    → get_elem? ps i ≡ some b
    → get_or (compare_hashes true hs ps) i false ≡ not (a == b)
unfolding compare_hashes
compare_hashes-get [] ps i a b e f = cc
compare_hashes-get (h ∷ hs) [] i a b e f = cc
compare_hashes-get (h ∷ hs) (p ∷ ps) zero a b e f = ground arith
compare_hashes-get (h ∷ hs) (p ∷ ps) (suc i) a b e f = compare_hashes-get hs ps i a b e f

pub length-compare_hashes :
    (b : Bool) (hs ps : List ℕ) → length (compare_hashes b hs ps) ≡ length hs
unfolding compare_hashes
length-compare_hashes b [] ps = refl
length-compare_hashes b (h ∷ hs) [] = omega (arith, length-compare_hashes b hs [])
length-compare_hashes b (h ∷ hs) (p ∷ ps) = omega (arith, length-compare_hashes b hs ps)

pub length-hash_tiles :
    (t : DirtyTracker) (hash : HashFunction) (pixels : Pixels) (stride n y : ℕ)
    → length (hash_tiles t hash pixels stride n y) ≡ n * t.columns
unfolding hash_tiles
length-hash_tiles t hash pixels stride zero y = omega arith
length-hash_tiles t hash pixels stride (suc n) y = grind (
  arith,
  length-append (hash_columns t hash pixels stride t.columns 0 y)
      (hash_tiles t hash pixels stride n (y + 1)),
  length-hash_columns t hash pixels stride t.columns 0 y,
  length-hash_tiles t hash pixels stride n (y + 1),
)
