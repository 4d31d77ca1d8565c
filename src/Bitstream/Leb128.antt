-- ===== src/Bitstream/Leb128.antt =====
-- `read_leb128`: the little-endian base 128 numbers of AV1.
use native.Mathlib.Nat.{div-lt_iff_lt-mul, pow-suc}
use fluxcap.Prelude.{
  ℕ, zero, suc, ◌+◌, ◌*◌, ◌/◌, ◌%◌, ◌^◌, ◌<◌, ◌≡◌, refl, ap, ◌∙◌, true, false, ◌==◌, List, [], ◌∷◌,
  ◌++◌, Option, none, some, arith, if◌then◌else◌, Bool-cases, inl, inr,
}

-- The loop over the bytes from the offset on: `n` of eight rounds are left, the next one shifts by
-- `shift`. The `or` of disjoint bits is a sum. `none` is `false`.
unfoldable pub leb128_from : ℕ → ℕ → ℕ → List ℕ → Option (ℕ × List ℕ)
leb128_from zero shift value bytes = none
leb128_from (suc n) shift value [] = none
leb128_from (suc n) shift value (byte ∷ bytes) =
    let low = value + byte % 128 * 2 ^ shift in
    let rest = leb128_from n (shift + 7) low bytes in
    if byte / 128 % 2 == 0 then some (low, bytes) else rest

-- The value, and the bytes behind it.
unfoldable pub read_leb128 : List ℕ → Option (ℕ × List ℕ)
read_leb128 bytes = leb128_from 8 0 0 bytes

-- The shortest encoding, in at most `n` bytes.
unfoldable pub leb128_bytes : ℕ → ℕ → List ℕ
leb128_bytes zero value = []
leb128_bytes (suc n) value =
    let rest = leb128_bytes n (value / 128) in
    if value / 128 == 0 then value ∷ [] else (value % 128 + 128) ∷ rest

weight_step : (k : ℕ) → 2 ^ (k + 7) ≡ 2 ^ k * 128
weight_step zero = refl
weight_step (suc k) =
    let inside : suc k + 7 ≡ suc (k + 7) = omega arith in
    rw (inside, pow-suc 2 (k + 7), pow-suc 2 k) (omega (arith, weight_step k))

digits : (base q r p : ℕ) → base + r * p + q * (p * 128) ≡ base + (q * 128 + r) * p
digits base q r p = grind arith

leb128_from-bytes :
    (n shift base value : ℕ) (rest : List ℕ)
    → value < 128 ^ suc n
    → leb128_from (suc n) shift base (leb128_bytes (suc n) value ++ rest)
      ≡ some (base + value * 2 ^ shift, rest)
unfolding leb128_from leb128_bytes
leb128_from-bytes zero shift base value rest h = elim (Bool-cases (value / 128 == 0)) [
  | inl small ↦
      let whole : value % 128 ≡ value = ground (arith, small) in
      let last : value / 128 % 2 == 0 ≡ true = ground (arith, small) in rw (small, last, whole) refl
  | inr large ↦ absurd (ground (arith, large, h))
]
leb128_from-bytes (suc m) shift base value rest h = elim (Bool-cases (value / 128 == 0)) [
  | inl small ↦
      let whole : value % 128 ≡ value = ground (arith, small) in
      let last : value / 128 % 2 == 0 ≡ true = ground (arith, small) in rw (small, last, whole) refl
  | inr large ↦
      let low : (value % 128 + 128) % 128 ≡ value % 128 = omega arith in
      let more : (value % 128 + 128) / 128 % 2 == 0 ≡ false = ground arith in
      let shorter : value / 128 < 128 ^ suc m =
        (div-lt_iff_lt-mul {k = 128} {x = value} {y = 128 ^ suc m} (omega arith)).1
          (rw (pow-suc 128 (suc m)) at h) in
      let split : value / 128 * 128 + value % 128 ≡ value = omega arith in
      let sum : base + (value % 128 + 128) % 128 * 2 ^ shift + value / 128 * 2 ^ (shift + 7)
          ≡ base + value * 2 ^ shift =
        rw (low, weight_step shift)
          (digits base (value / 128) (value % 128) (2 ^ shift)
            ∙ ap (λ v. base + v * 2 ^ shift) split) in
      rw (large, more)
        (leb128_from-bytes m (shift + 7) _ (value / 128) rest shorter
          ∙ ap (λ v. some (v, rest)) sum)
]

-- Every value of at most 56 bits is read back from its encoding, and the bytes behind it are left.
pub read_leb128-bytes :
    (value : ℕ) (rest : List ℕ)
    → value < 2 ^ 56
    → read_leb128 (leb128_bytes 8 value ++ rest) ≡ some (value, rest)
unfolding read_leb128
read_leb128-bytes value rest h =
    leb128_from-bytes 7 0 0 value rest (omega arith) ∙ ap (λ v. some (v, rest)) (omega arith)
