-- ===== src/Bitstream/Golomb.antt =====
-- Bits and Exp-Golomb codes in a stream that holds them.
use native.Mathlib.Nat.{
  pow-suc, mul-add-mod_self_right, mod-eq_of_lt, mul-le-mul_right, pow-le-pow_right,
}
use fluxcap.Prelude.{
  ℕ, zero, suc, ◌+◌, ◌-◌, ◌*◌, ◌/◌, ◌%◌, ◌^◌, ◌≤◌, ◌<◌, ◌≡◌, sym, ap, subst, ◌∙◌, Bool, true, false,
  not, ◌==◌, ltb, List, [], ◌∷◌, ◌++◌, length, replicate, some, u32, u32_max, if◌then◌else◌, arith,
}
use fluxcap.Bitstream.Reader.{
  BitReader, remaining, advance, next_bit, bits_from, read_bits, read_bit, leading_zeros, read_ue,
}

abbrev pub bit_of : Bool → ℕ
bit_of true = 1
bit_of false = 0

-- The reader stands before these bits.
abbrev pub Starts : BitReader → List Bool → Type 0
Starts r [] = Unit {0}
Starts r (b ∷ bs) = (r.bit < length r.bytes * 8) × (next_bit r ≡ bit_of b) × Starts (advance 1 r) bs

-- The last `n` binary digits, the highest one first.
unfoldable pub digits_of : ℕ → ℕ → List Bool
digits_of zero v = []
digits_of (suc n) v = (v / 2 ^ n % 2 == 1) ∷ digits_of n v

-- The code of `value` with `k` leading zeros.
abbrev pub ue_code : ℕ → ℕ → List Bool
ue_code k value = replicate k false ++ (true ∷ digits_of k (value + 1))

pub Starts-room :
    (r : BitReader) (n v : ℕ)
    → r.bit ≤ length r.bytes * 8
    → Starts r (digits_of n v)
    → r.bit + n ≤ length r.bytes * 8
unfolding digits_of
Starts-room r zero v h s = omega arith
Starts-room r (suc n) v h s = omega (arith, Starts-room (advance 1 r) n v (omega arith) s.2)

parts : (a b r p : ℕ) → a * (p * 2) + (b * p + r) ≡ (a * 2 + b) * p + r
parts a b r p = grind arith

digit_step : (v p : ℕ) → 0 < p → v % (p * 2) ≡ v / p % 2 * p + v % p
digit_step v p h =
    let q = v / p in
    let rest : q % 2 * p + v % p < p * 2 = grind arith in
    let halves : q / 2 * 2 + q % 2 ≡ q = omega arith in
    let whole : v ≡ q / 2 * (p * 2) + (q % 2 * p + v % p) =
      sym (parts (q / 2) (q % 2) (v % p) p ∙ ap (λ z. z * p + v % p) halves ∙ grind arith) in
    ap (λ z. z % (p * 2)) whole
    ∙ mul-add-mod_self_right (q / 2) (p * 2) (q % 2 * p + v % p)
    ∙ mod-eq_of_lt rest

pub two_pow_positive : (n : ℕ) → 0 < 2 ^ n
two_pow_positive zero = omega arith
two_pow_positive (suc n) = rw (pow-suc 2 n) (omega (arith, two_pow_positive n))

bit_of-digit : (q : ℕ) → bit_of (q % 2 == 1) ≡ q % 2
bit_of-digit q = ground arith

one_more : (a n : ℕ) → a + 1 + n ≡ a + suc n
one_more a n = omega arith

two_more : (a j : ℕ) → a + 1 + (j + 1) ≡ a + (suc j + 1)
two_more a j = omega arith

code_end : (a k : ℕ) → a + (k + 1) + k ≡ a + (2 * k + 1)
code_end a k = omega arith

nothing_left : (v : ℕ) → 0 ≡ v % 2 ^ 0
nothing_left v = omega arith

unmoved : (a : ℕ) → a ≡ a + 0
unmoved a = omega arith

next_digit : (k : ℕ) → k + 1 ≡ suc k
next_digit k = omega arith

no_more : (p v : ℕ) → 0 * p + v ≡ v
no_more p v = omega arith

plain : (k : ℕ) → 0 + k ≡ k
plain k = omega arith

doubled_small : (a p m : ℕ) → 0 < p → (a + 1) * (p * 2) ≤ m → a * 2 < m
doubled_small a p m h k =
    let more = mul-le-mul_right {m = 1} {n = p} ((a + 1) * 2) (omega arith) in grind arith

doubled_room : (a b p m : ℕ) → b ≤ 1 → (a + 1) * (p * 2) ≤ m → (a * 2 + b + 1) * p ≤ m
doubled_room a b p m h k =
    let more = mul-le-mul_right {m = a * 2 + b + 1} {n = (a + 1) * 2} p (omega arith) in grind arith

bits_from-digits :
    (n : ℕ) (r : BitReader) (v acc : ℕ)
    → (acc + 1) * 2 ^ n ≤ 2 ^ 32
    → Starts r (digits_of n v)
    → bits_from n r acc ≡ (acc * 2 ^ n + v % 2 ^ n, advance n r)
unfolding bits_from digits_of
bits_from-digits zero r v acc h s = ground arith
bits_from-digits (suc n) r v acc h s =
    let p = 2 ^ n in
    let positive = two_pow_positive n in
    let doubled : 2 ^ suc n ≡ p * 2 = pow-suc 2 n in
    let bound : (acc + 1) * (p * 2) ≤ 2 ^ 32 = rw doubled at h in
    let small : acc * 2 < 2 ^ 32 = doubled_small acc p (2 ^ 32) positive bound in
    let bit : next_bit r ≡ v / p % 2 = s.1 ∙ bit_of-digit (v / p) in
    let next : u32 (acc * 2) + next_bit r ≡ acc * 2 + v / p % 2 = omega arith in
    let room : (acc * 2 + v / p % 2 + 1) * p ≤ 2 ^ 32 =
      doubled_room acc (v / p % 2) p (2 ^ 32) (omega arith) bound in
    let rest = bits_from-digits n (advance 1 r) v (acc * 2 + v / p % 2) room s.2 in
    let value : (acc * 2 + v / p % 2) * p + v % p ≡ acc * (p * 2) + v % (p * 2) =
      rw (digit_step v p positive) (grind arith) in
    let at : advance n (advance 1 r) ≡ advance (suc n) r =
      λ i. record r { bit = one_more r.bit n i } in
    rw (next, doubled) (rest ∙ (λ i. (value i, at i)))

pub le-remaining :
    (r : BitReader) (n : ℕ) → n ≤ u32_max → r.bit + n ≤ length r.bytes * 8 → n ≤ remaining r
unfolding remaining
le-remaining r n s h = ground arith

bit_value : (b : Bool) → not (0 + bit_of b == 0) ≡ b
bit_value true = ground arith
bit_value false = ground arith

pub read_bit-Starts :
    (r : BitReader) (b : Bool)
    → r.bit < length r.bytes * 8
    → next_bit r ≡ bit_of b
    → read_bit r ≡ some (b, advance 1 r)
unfolding read_bit read_bits bits_from
read_bit-Starts r b h e =
    let room : ltb (remaining r) 1 ≡ false =
      ground (arith, le-remaining r 1 (omega arith) (omega arith)) in
    rw (room, e) (ap (λ z. some (z, advance 1 r)) (bit_value b))

leading_zeros-Starts :
    (n j leading : ℕ) (r : BitReader) (rest : List Bool)
    → j < n
    → leading + j ≤ 31
    → Starts r (replicate j false ++ (true ∷ rest))
    → (leading_zeros n leading r ≡ some (leading + j, advance (j + 1) r))
      × Starts (advance (j + 1) r) rest
      × (r.bit + (j + 1) ≤ length r.bytes * 8)
unfolding leading_zeros
leading_zeros-Starts zero j leading r rest h k s = absurd (omega arith)
leading_zeros-Starts (suc n) zero leading r rest h k s =
    let bit = read_bit-Starts r true s.0 s.1 in
    (rw bit (ap (λ z. some (z, advance 1 r)) (omega arith)), s.2, omega (arith, s.0))
leading_zeros-Starts (suc n) (suc j) leading r rest h k s =
    let bit = read_bit-Starts r false s.0 s.1 in
    let (later, starts, room) =
      leading_zeros-Starts n j (leading + 1) (advance 1 r) rest (omega arith) (omega arith) s.2 in
    let moved : advance (j + 1) (advance 1 r) ≡ advance (suc j + 1) r =
      λ i. record r { bit = two_more r.bit j i } in
    let more : ltb 31 (leading + 1) ≡ false = ground arith in
    (
      rw (bit, more) (later ∙ (λ i. some (one_more leading j i, moved i))),
      subst (λ z. Starts z rest) moved starts,
      omega (arith, room),
    )

pub read_bits-digits :
    (k : ℕ) (r : BitReader) (v : ℕ)
    → k ≤ 32
    → r.bit ≤ length r.bytes * 8
    → Starts r (digits_of k v)
    → read_bits k r ≡ some (v % 2 ^ k, advance k r)
unfolding read_bits
read_bits-digits k r v h inside s =
    let end = Starts-room r k v inside s in
    let short : ltb 32 k ≡ false = ground arith in
    let room : ltb (remaining r) k ≡ false = ground (arith, le-remaining r k (omega arith) end) in
    let fits : (0 + 1) * 2 ^ k ≤ 2 ^ 32 = omega (arith, pow-le-pow_right {n = 2} (omega arith) h) in
    rw (short, room)
      (ap some (bits_from-digits k r v 0 fits s)
        ∙ (λ i. some (no_more (2 ^ k) (v % 2 ^ k) i, advance k r)))

suffix-digits :
    (k : ℕ) (r : BitReader) (v : ℕ)
    → k ≤ 32
    → r.bit ≤ length r.bytes * 8
    → Starts r (digits_of k v)
    → (if k == 0 then some (0, r) else read_bits k r) ≡ some (v % 2 ^ k, advance k r)
suffix-digits zero r v h inside s = λ i. some (nothing_left v i, record r { bit = unmoved r.bit i })
suffix-digits (suc k) r v h inside s =
    let live : suc k == 0 ≡ false = ground arith in
    rw live (read_bits-digits (suc k) r v h inside s)

once_mod : (w p : ℕ) → p ≤ w → w < p * 2 → p - 1 + w % p ≡ w - 1
once_mod w p h k =
    let whole : 1 * p + (w - p) ≡ w = omega arith in
    let left : w % p ≡ w - p =
      ap (λ z. z % p) (sym whole)
      ∙ mul-add-mod_self_right 1 p (w - p)
      ∙ mod-eq_of_lt (omega arith) in
    rw left (omega arith)

-- Exp-Golomb codes are read back. When the stream goes on with the code of `value` with `k`
-- leading zeros, where `value + 1` has `k + 1` binary digits and `k` is at most 31, `read_ue`
-- answers the value and stands behind the code.
pub read_ue-code :
    (r : BitReader) (k value : ℕ)
    → k ≤ 31
    → 2 ^ k ≤ value + 1
    → value + 1 < 2 ^ (k + 1)
    → r.bit ≤ length r.bytes * 8
    → Starts r (ue_code k value)
    → read_ue r ≡ some (value, advance (2 * k + 1) r)
unfolding read_ue
read_ue-code r k value h low high inside s =
    let (zeros, rest, room) =
      leading_zeros-Starts 32 k 0 r (digits_of k (value + 1)) (omega arith) (omega arith) s in
    let suffix = suffix-digits k (advance (k + 1) r) (value + 1) (omega arith) room rest in
    let p = 2 ^ k in
    let below : value + 1 < p * 2 = rw (ap (λ z. 2 ^ z) (next_digit k) ∙ pow-suc 2 k) at high in
    let decoded : p - 1 + (value + 1) % p ≡ value =
      once_mod (value + 1) p low below ∙ omega arith in
    let p_small : p ≤ 2 ^ 31 = omega (arith, pow-le-pow_right {n = 2} (omega arith) h) in
    let fits : ltb u32_max value ≡ false = ground (arith, p_small, below) in
    let at : advance k (advance (k + 1) r) ≡ advance (2 * k + 1) r =
      λ i. record r { bit = code_end r.bit k i } in
    let found : leading_zeros 32 0 r ≡ some (k, advance (k + 1) r) =
      zeros ∙ ap (λ z. some (z, advance (k + 1) r)) (plain k) in
    rw (found, suffix, decoded, fits) (ap (λ z. some (value, z)) at)
