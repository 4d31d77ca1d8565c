-- ===== src/Bitstream/Reader.antt =====
-- `BitReader`: the bits of a byte sequence, the highest one of each byte first.
use fluxcap.Prelude.{
  ℕ, zero, suc, ◌+◌, ◌-◌, ◌*◌, ◌/◌, ◌%◌, ◌^◌, min, Bool, ◌||◌, ◌==◌, leb, ltb, List, length, get_or,
  Option, none, some, u32, u32_max, i32_max, if◌then◌else◌, require, ◌>>=◌, ◌>>◌, not,
}
use fluxcap.Prelude.Int.{ℤ, pos, neg}

pub record BitReader : Type 0 where
  pub bytes : List ℕ
  pub bit : ℕ

unfoldable pub remaining : BitReader → ℕ
remaining r =
    let total = length r.bytes * 8 in if leb r.bit total then min (total - r.bit) u32_max else 0

abbrev pub advance : ℕ → BitReader → BitReader
advance n r = record r { bit = r.bit + n }

unfoldable pub next_bit : BitReader → ℕ
next_bit r = get_or r.bytes (r.bit / 8) 0 / 2 ^ (7 - r.bit % 8) % 2

-- The loop of `read_bits`; the low bit of the shifted value is free.
unfoldable pub bits_from : ℕ → BitReader → ℕ → ℕ × BitReader
bits_from zero r value = (value, r)
bits_from (suc n) r value = bits_from n (advance 1 r) (u32 (value * 2) + next_bit r)

-- Of the calls below `none` is `false`; whoever calls them then gives up the reader.
unfoldable pub read_bits : ℕ → BitReader → Option (ℕ × BitReader)
unfolding remaining bits_from
read_bits count r =
    if ltb 32 count || ltb (remaining r) count then none else some (bits_from count r 0)

unfoldable pub read_bit : BitReader → Option (Bool × BitReader)
read_bit r = do (bit, after) ← read_bits 1 r; some (not (bit == 0), after)

unfoldable pub skip : ℕ → BitReader → Option BitReader
skip count r = if ltb (remaining r) count then none else some (advance count r)

-- The loop over the leading zero bits, of which 31 are the most: 32 rounds are enough.
unfoldable pub leading_zeros : ℕ → ℕ → BitReader → Option (ℕ × BitReader)
leading_zeros zero leading r = none
leading_zeros (suc n) leading r = do
  (bit, after) ← read_bit r
  let more = leading_zeros n (leading + 1) after
  if bit then some (leading, after) else if ltb 31 (leading + 1) then none else more

unfoldable pub read_ue : BitReader → Option (ℕ × BitReader)
read_ue r = do
  (leading, after) ← leading_zeros 32 0 r
  (suffix, last) ← if leading == 0 then some (0, after) else read_bits leading after
  let decoded = 2 ^ leading - 1 + suffix
  require (not (ltb u32_max decoded))
  some (decoded, last)

unfoldable pub read_se : BitReader → Option (ℤ × BitReader)
read_se r = do
  (code, after) ← read_ue r
  let magnitude = (code + 1) / 2
  let odd = code % 2 == 1
  require (leb magnitude (if odd then i32_max else i32_max + 1))
  some (if odd then pos magnitude else neg magnitude, after)
