-- ===== src/Bitstream/ColorRoundTrip.antt =====
-- The color part of a VUI as an encoder writes it.
use fluxcap.Prelude.{
  ℕ, zero, suc, ◌*◌, ◌%◌, ◌^◌, ◌≤◌, ◌<◌, ◌≡◌, refl, subst, Bool, true, false, ◌==◌, ltb, List, ◌∷◌,
  ◌++◌, length, Option, none, some, arith,
}
use fluxcap.Bitstream.Reader.{BitReader, remaining, advance, read_bits, read_bit, skip}
use fluxcap.Bitstream.Golomb.{
  Starts, digits_of, Starts-room, le-remaining, read_bits-digits, read_bit-Starts,
}
use fluxcap.Bitstream.Metadata.{EncodedVideoMetadata}
use fluxcap.Bitstream.Parser.{Outcome}
use fluxcap.Bitstream.Vui.{color_description, signal_type, aspect_ratio, overscan, parse_vui_color}

-- The reader is inside its bytes and stands before these bits.
abbrev pub At : BitReader → List Bool → Type 0
At r bs = (r.bit ≤ length r.bytes * 8) × Starts r bs

Starts-split :
    (r : BitReader) (k v : ℕ) (rest : List Bool)
    → Starts r (digits_of k v ++ rest)
    → Starts r (digits_of k v) × Starts (advance k r) rest
unfolding digits_of
Starts-split r zero v rest s = (_, subst (λ b. Starts (record r { bit = b }) rest) (omega arith) s)
Starts-split r (suc k) v rest s =
    let (front, back) = Starts-split (advance 1 r) k v rest s.2 in
    ((s.0, s.1, front), subst (λ b. Starts (record r { bit = b }) rest) (omega arith) back)

read_bits-At :
    (k v : ℕ) (r : BitReader) (rest : List Bool)
    → k ≤ 32
    → At r (digits_of k v ++ rest)
    → (read_bits k r ≡ some (v % 2 ^ k, advance k r)) × At (advance k r) rest
read_bits-At k v r rest h (inside, s) =
    let (front, back) = Starts-split r k v rest s in
    (read_bits-digits k r v h inside front, (Starts-room r k v inside front, back))

skip-At :
    (k v : ℕ) (r : BitReader) (rest : List Bool)
    → k ≤ 32
    → At r (digits_of k v ++ rest)
    → (skip k r ≡ some (advance k r)) × At (advance k r) rest
unfolding skip
skip-At k v r rest h (inside, s) =
    let (front, back) = Starts-split r k v rest s in
    let end = Starts-room r k v inside front in
    let room : ltb (remaining r) k ≡ false = ground (arith, le-remaining r k (omega arith) end) in
    (rw room refl, (end, back))

read_bit-At :
    (b : Bool) (r : BitReader) (rest : List Bool)
    → At r (b ∷ rest)
    → (read_bit r ≡ some (b, advance 1 r)) × At (advance 1 r) rest
read_bit-At b r rest (inside, s) = (read_bit-Starts r b s.0 s.1, (omega (arith, s.0), s.2))

-- A parser that succeeds with this metadata, before the rest of the bits.
abbrev pub Leaves : Outcome (Unit {0}) → EncodedVideoMetadata → List Bool → Type 0
Leaves o output rest =
    (r : BitReader) × (o ≡ record { metadata = output; result = some (tt, r) }) × At r rest

-- The aspect ratio: absent, an index, or 255 with an explicit ratio.
pub data AspectRatio : Type 0 where
  no_aspect : AspectRatio
  indexed : ℕ → AspectRatio
  explicit : ℕ → AspectRatio

abbrev pub aspect_bits : AspectRatio → List Bool → List Bool
aspect_bits no_aspect rest = false ∷ rest
aspect_bits (indexed a) rest = true ∷ (digits_of 8 a ++ rest)
aspect_bits (explicit ratio) rest = true ∷ (digits_of 8 255 ++ (digits_of 32 ratio ++ rest))

abbrev pub overscan_bits : Option ℕ → List Bool → List Bool
overscan_bits none rest = false ∷ rest
overscan_bits (some appropriate) rest = true ∷ (digits_of 1 appropriate ++ rest)

abbrev pub IsIndex : AspectRatio → Type 0
IsIndex no_aspect = Unit {0}
IsIndex (indexed a) = a < 255
IsIndex (explicit ratio) = Unit {0}

aspect_ratio-Leaves :
    (a : AspectRatio) (r : BitReader) (output : EncodedVideoMetadata) (rest : List Bool)
    → IsIndex a
    → At r (aspect_bits a rest)
    → Leaves (aspect_ratio r output) output rest
unfolding aspect_ratio
aspect_ratio-Leaves no_aspect r output rest i s =
    let (b, s1) = read_bit-At false r rest s in (_, rw b refl, s1)
aspect_ratio-Leaves (indexed a) r output rest i s =
    let (b, s1) = read_bit-At true r _ s in
    let (v, s2) = read_bits-At 8 a (advance 1 r) rest (omega arith) s1 in
    let other : a % 2 ^ 8 == 255 ≡ false = ground (arith, i) in (_, rw (b, v, other) refl, s2)
aspect_ratio-Leaves (explicit ratio) r output rest i s =
    let (b, s1) = read_bit-At true r _ s in
    let (v, s2) = read_bits-At 8 255 (advance 1 r) _ (omega arith) s1 in
    let (k, s3) = skip-At 32 ratio (advance 8 (advance 1 r)) rest (omega arith) s2 in
    (_, rw (b, v, k) refl, s3)

overscan-Leaves :
    (o : Option ℕ) (r : BitReader) (output : EncodedVideoMetadata) (rest : List Bool)
    → At r (overscan_bits o rest)
    → Leaves (overscan r output) output rest
unfolding overscan
overscan-Leaves none r output rest s =
    let (b, s1) = read_bit-At false r rest s in (_, rw b refl, s1)
overscan-Leaves (some a) r output rest s =
    let (b, s1) = read_bit-At true r _ s in
    let (k, s2) = skip-At 1 a (advance 1 r) rest (omega arith) s1 in (_, rw (b, k) refl, s2)

pub record ColorCode : Type 0 where
  pub primaries : ℕ
  pub transfer : ℕ
  pub matrix : ℕ

-- The video signal type: the format, the range, and the color description where there is one.
pub record SignalType : Type 0 where
  pub format : ℕ
  pub full_range : Bool
  pub color : Option ColorCode

abbrev pub color_bits : Option ColorCode → List Bool → List Bool
color_bits none rest = false ∷ rest
color_bits (some c) rest =
    true ∷ (digits_of 8 c.primaries ++ (digits_of 8 c.transfer ++ (digits_of 8 c.matrix ++ rest)))

abbrev pub signal_bits : Option SignalType → List Bool → List Bool
signal_bits none rest = false ∷ rest
signal_bits (some s) rest =
    true ∷ (digits_of 3 s.format ++ (s.full_range ∷ color_bits s.color rest))

abbrev pub with_color : Option ColorCode → EncodedVideoMetadata → EncodedVideoMetadata
with_color none output = output
with_color (some c) output = record output {
  color_description_present = true;
  color_primaries = c.primaries;
  transfer_characteristics = c.transfer;
  matrix_coefficients = c.matrix;
}

abbrev pub with_signal : Option SignalType → EncodedVideoMetadata → EncodedVideoMetadata
with_signal none output = output
with_signal (some s) output =
    with_color s.color
      (record output { video_signal_type_present = true; full_range = s.full_range })

abbrev pub IsCode : Option ColorCode → Type 0
IsCode none = Unit {0}
IsCode (some c) = (c.primaries < 256) × (c.transfer < 256) × (c.matrix < 256)

abbrev pub IsSignal : Option SignalType → Type 0
IsSignal none = Unit {0}
IsSignal (some s) = IsCode s.color

color_description-Leaves :
    (c : ColorCode) (r : BitReader) (output : EncodedVideoMetadata) (rest : List Bool)
    → IsCode (some c)
    → At r (digits_of 8 c.primaries ++ (digits_of 8 c.transfer ++ (digits_of 8 c.matrix ++ rest)))
    → Leaves (color_description r output) (with_color (some c) output) rest
unfolding color_description
color_description-Leaves c r output rest (hp, ht, hm) s =
    let (p, s1) = read_bits-At 8 c.primaries r _ (omega arith) s in
    let (t, s2) = read_bits-At 8 c.transfer (advance 8 r) _ (omega arith) s1 in
    let (m, s3) = read_bits-At 8 c.matrix (advance 8 (advance 8 r)) rest (omega arith) s2 in
    let ep : c.primaries % 2 ^ 8 ≡ c.primaries = omega arith in
    let et : c.transfer % 2 ^ 8 ≡ c.transfer = omega arith in
    let em : c.matrix % 2 ^ 8 ≡ c.matrix = omega arith in (_, rw (p, t, m, ep, et, em) refl, s3)

signal_type-Leaves :
    (g : SignalType) (c : Option ColorCode) (r : BitReader) (output : EncodedVideoMetadata)
    (rest : List Bool)
    → g.color ≡ c
    → IsCode c
    → At r (digits_of 3 g.format ++ (g.full_range ∷ color_bits c rest))
    → Leaves (signal_type r output) (with_signal (some g) output) rest
unfolding signal_type
signal_type-Leaves g none r output rest e h s =
    let (f, s1) = read_bits-At 3 g.format r (g.full_range ∷ color_bits none rest) (omega arith) s in
    let (b, s2) = read_bit-At g.full_range (advance 3 r) (color_bits none rest) s1 in
    let (k, s3) = read_bit-At false (advance 1 (advance 3 r)) rest s2 in
    (_, rw (f, b, k, e) refl, s3)
signal_type-Leaves g (some c) r output rest e h s =
    let (f, s1) =
      read_bits-At 3 g.format r (g.full_range ∷ color_bits (some c) rest) (omega arith) s in
    let (b, s2) = read_bit-At g.full_range (advance 3 r) (color_bits (some c) rest) s1 in
    let (k, s3) = read_bit-At true (advance 1 (advance 3 r)) _ s2 in
    let (last, colored, s4) =
      color_description-Leaves c (advance 1 (advance 1 (advance 3 r)))
        (record output { video_signal_type_present = true; full_range = g.full_range }) rest h s3 in
    (last, rw (f, b, k, e) colored, s4)

-- The color part of a VUI is read back. From a stream that goes on with it, in whichever form its
-- optional parts take, the parser succeeds, writes exactly the signal type and the color description
-- that are there, each code to its own member, and stands before the rest of the bits. An indexed aspect ratio is below 255, and
-- color codes are bytes.
pub parse_vui_color-Leaves :
    (a : AspectRatio) (o : Option ℕ) (g : Option SignalType) (r : BitReader)
    (output : EncodedVideoMetadata) (rest : List Bool)
    → IsIndex a
    → IsSignal g
    → At r (aspect_bits a (overscan_bits o (signal_bits g rest)))
    → Leaves (parse_vui_color r output) (with_signal g output) rest
unfolding parse_vui_color
parse_vui_color-Leaves a o none r output rest i h s =
    let (r1, first, s1) = aspect_ratio-Leaves a r output _ i s in
    let (r2, second, s2) = overscan-Leaves o r1 output _ s1 in
    let (b, s3) = read_bit-At false r2 rest s2 in (_, rw (first, second, b) refl, s3)
parse_vui_color-Leaves a o (some g) r output rest i h s =
    let (r1, first, s1) = aspect_ratio-Leaves a r output _ i s in
    let (r2, second, s2) = overscan-Leaves o r1 output _ s1 in
    let (b, s3) = read_bit-At true r2 _ s2 in
    let (last, signal, s4) = signal_type-Leaves g g.color (advance 1 r2) output rest refl h s3 in
    (last, rw (first, second, b) signal, s4)
