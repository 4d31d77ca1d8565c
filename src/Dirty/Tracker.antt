-- ===== src/Dirty/Tracker.antt =====
-- The state of `DirtyTracker` in src/dirty_tracker.hpp, the portable tile hash and `configure`.
use Prim.Native.Nat.{bit_xor}
use fluxcap.Prelude.{
  ℕ, zero, suc, ◌+◌, ◌-◌, ◌*◌, ◌/◌, ◌%◌, ◌^◌, Bool, false, ◌||◌, ◌==◌, ltb, leb, List, [], Option,
  none, some, length, replicate, u32, u64, u32_max, u64_max, if◌then◌else◌,
}

-- A frame is the function from an offset to the byte that stands there.
abbrev pub Pixels : Type 0
Pixels = ℕ → ℕ

-- Pixels, stride, x, y, width and height of a tile.
abbrev pub HashFunction : Type 0
HashFunction = Pixels → ℕ → ℕ → ℕ → ℕ → ℕ → ℕ

-- `int32_t` fields, by their 32-bit patterns.
pub record DirtyRect : Type 0 where
  pub x : ℕ
  pub y : ℕ
  pub width : ℕ
  pub height : ℕ

-- The vectors of runs are cleared before they are read, and are local to `analyze` here. Of the
-- tables only the previous hashes are read before they are written.
pub record DirtyTracker : Type 0 where
  pub width : ℕ
  pub height : ℕ
  pub tile_size : ℕ
  pub columns : ℕ
  pub rows : ℕ
  pub has_baseline : Bool
  pub hash_function : Option HashFunction
  pub previous_hashes : List ℕ
  pub changed_tiles : List Bool

abbrev pub mix_a : ℕ
mix_a = 0x9e3779b185ebca87

abbrev pub mix_b : ℕ
mix_b = 0xc2b2ae3d27d4eb4f

abbrev pub rotl : ℕ → ℕ → ℕ
rotl value n = u64 (value * 2 ^ n) + value / 2 ^ (64 - n)

unfoldable pub avalanche : ℕ → ℕ
avalanche value =
    let a = bit_xor value (value / 2 ^ 33) in
    let b = u64 (a * 0xff51afd7ed558ccd) in
    let c = bit_xor b (b / 2 ^ 33) in let d = u64 (c * 0xc4ceb9fe1a85ec53) in bit_xor d (d / 2 ^ 33)

-- `memcpy` of `n` bytes into a little-endian word.
unfoldable pub read_word : ℕ → Pixels → ℕ → ℕ
read_word zero pixels cursor = 0
read_word (suc n) pixels cursor = pixels cursor + 256 * read_word n pixels (cursor + 1)

-- The `while` loop over the words of a row, for as many words as the row has.
unfoldable pub hash_words : ℕ → Pixels → ℕ → ℕ → ℕ
unfolding read_word
hash_words zero pixels cursor hash = hash
hash_words (suc words) pixels cursor hash =
    let word = read_word 8 pixels cursor in
    let mixed = bit_xor hash (u64 (word + mix_b + rotl hash 23)) in
    hash_words words pixels (cursor + 8) (u64 (mixed * mix_a))

unfoldable pub hash_row : Pixels → ℕ → ℕ → ℕ → ℕ → ℕ
unfolding hash_words read_word
hash_row pixels cursor width row hash =
    let remaining = width * 4 in
    let words = remaining / 8 in
    let whole = hash_words words pixels cursor hash in
    let half = bit_xor whole (read_word 4 pixels (cursor + words * 8) + mix_b) in
    let tail = if leb 4 (remaining % 8) then u64 (rotl (u64 half) 27 * mix_a) else whole in
    bit_xor tail (u64 (mix_b + row))

-- `n` rows are left, from `row` on.
unfoldable pub hash_rows : ℕ → Pixels → ℕ → ℕ → ℕ → ℕ → ℕ → ℕ → ℕ
unfolding hash_row
hash_rows zero pixels stride x y width row hash = hash
hash_rows (suc n) pixels stride x y width row hash =
    hash_rows n pixels stride x y width (row + 1)
      (hash_row pixels (u32 (y + row) * stride + x * 4) width row hash)

unfoldable pub hash_tile_portable : HashFunction
unfolding hash_rows avalanche
hash_tile_portable pixels stride x y width height = avalanche (
    hash_rows height pixels stride x y width 0
      (bit_xor (bit_xor mix_a (u64 (width * 2 ^ 32))) height))

abbrev pub fresh_tracker : DirtyTracker
fresh_tracker = record {
  width = 0;
  height = 0;
  tile_size = 0;
  columns = 0;
  rows = 0;
  has_baseline = false;
  hash_function = none;
  previous_hashes = [];
  changed_tiles = [];
}

-- `none` is an exception. `hash` is what `select_hash_function` returns, and the size of the
-- address space is that of a 64-bit target.
unfoldable pub configure : HashFunction → ℕ → ℕ → ℕ → Option DirtyTracker
configure hash width height tile_size =
    let columns = (width + tile_size - 1) / tile_size in
    let rows = (height + tile_size - 1) / tile_size in
    if width == 0 || height == 0 || tile_size == 0
    then none
    else if ltb u32_max columns || ltb u32_max rows || ltb u64_max (columns * rows)
    then none
    else some (record {
      width = width;
      height = height;
      tile_size = tile_size;
      columns = columns;
      rows = rows;
      has_baseline = false;
      hash_function = some hash;
      previous_hashes = replicate (columns * rows) 0;
      changed_tiles = replicate (columns * rows) false;
    })

unfoldable pub reset : DirtyTracker → DirtyTracker
reset t = record t { has_baseline = false }

unfoldable pub max_dirty_rects : DirtyTracker → ℕ
max_dirty_rects t = length t.changed_tiles
