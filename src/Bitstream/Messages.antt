-- ===== src/Bitstream/Messages.antt =====
-- SEI units as an encoder writes them.
use fluxcap.Prelude.{
  ℕ, zero, suc, ◌+◌, ◌-◌, ◌*◌, ◌/◌, ◌%◌, ◌≤◌, ◌<◌, ◌≡◌, ◌≢◌, refl, ap, ◌∙◌, true, false, ◌==◌, leb,
  ltb, List, [], ◌∷◌, ◌++◌, length, length-append, length-drop, take, drop, replicate, some, u32,
  u32_max, arith, Option-cases, inl, inr, >>=-eq-some, require-eq-some, some_inj, All,
}
use fluxcap.Bitstream.Metadata.{EncodedVideoMetadata}
use fluxcap.Bitstream.Sei.{sei_number, sei_message, apply_sei, sei_from, parse_sei}

-- `count` bytes of 255 and a last one that is smaller.
abbrev pub number_bytes : ℕ → List ℕ
number_bytes n = replicate (n / 255) 255 ++ (n % 255 ∷ [])

abbrev pub message_bytes : ℕ → List ℕ → List ℕ
message_bytes type payload = number_bytes type ++ (number_bytes (length payload) ++ payload)

append_assoc : (us ws ys : List ℕ) → (us ++ ws) ++ ys ≡ us ++ (ws ++ ys)
append_assoc [] ws ys = refl
append_assoc (u ∷ us) ws ys = ap (λ z. u ∷ z) (append_assoc us ws ys)

sei_number-replicate :
    (count value last : ℕ) (rest : List ℕ)
    → last < 255
    → value + count * 255 + last ≤ u32_max
    → sei_number value (replicate count 255 ++ (last ∷ rest))
      ≡ some (value + count * 255 + last, rest)
unfolding sei_number
sei_number-replicate zero value last rest h k =
    let ends : last == 255 ≡ false = ground arith in
    let whole : u32 (value + last) ≡ value + 0 * 255 + last = omega arith in rw (ends, whole) refl
sei_number-replicate (suc count) value last rest h k =
    let small : ltb (u32_max - 255) value ≡ false = ground arith in
    rw small (
      sei_number-replicate count (value + 255) last rest h (omega arith)
      ∙ ap (λ z. some (z, rest)) (omega arith))

sei_number-bytes :
    (n : ℕ) (rest : List ℕ) → n ≤ u32_max → sei_number 0 (number_bytes n ++ rest) ≡ some (n, rest)
sei_number-bytes n rest h =
    ap (sei_number 0) (append_assoc (replicate (n / 255) 255) (n % 255 ∷ []) rest)
    ∙ sei_number-replicate (n / 255) 0 (n % 255) rest (omega arith) (omega arith)
    ∙ ap (λ z. some (z, rest)) (omega arith)

take-length : (us ws : List ℕ) → take (length us) (us ++ ws) ≡ us
take-length [] ws = refl
take-length (u ∷ us) ws = ap (λ z. u ∷ z) (take-length us ws)

drop-length : (us ws : List ℕ) → drop (length us) (us ++ ws) ≡ ws
drop-length [] ws = refl
drop-length (u ∷ us) ws = drop-length us ws

sei_message-bytes :
    (type : ℕ) (payload rest : List ℕ)
    → type ≤ u32_max
    → length payload ≤ u32_max
    → sei_message (message_bytes type payload ++ rest) ≡ some (type, payload, rest)
unfolding sei_message
sei_message-bytes type payload rest h k =
    let first = append_assoc (number_bytes type) (number_bytes (length payload) ++ payload) rest in
    let second = append_assoc (number_bytes (length payload)) payload rest in
    let t = sei_number-bytes type ((number_bytes (length payload) ++ payload) ++ rest) h in
    let s = sei_number-bytes (length payload) (payload ++ rest) k in
    let room : leb (length payload) (length (payload ++ rest)) ≡ true =
      ground (arith, length-append payload rest) in
    rw (first, t, second, s, room, take-length payload rest, drop-length payload rest) refl

sei_number-shorter :
    (value : ℕ) (bytes : List ℕ) (n : ℕ) (rest : List ℕ)
    → sei_number value bytes ≡ some (n, rest)
    → length rest < length bytes
unfolding sei_number
sei_number-shorter value [] n rest e = cc
sei_number-shorter value (byte ∷ bytes) n rest e =
    ground (arith, sei_number-shorter (value + 255) bytes n rest)

sei_message-shorter :
    (bytes : List ℕ) (m : ℕ × List ℕ × List ℕ)
    → sei_message bytes ≡ some m
    → length m.2 < length bytes
unfolding sei_message
sei_message-shorter bytes m e =
    let (a, ea, e1) = >>=-eq-some (sei_number 0 bytes) _ e in
    let (b, eb, e2) = >>=-eq-some (sei_number 0 a.1) _ e1 in
    let (room, last) = require-eq-some (leb b.0 (length b.1)) _ e2 in
    let shape = some_inj last in
    let type = sei_number-shorter 0 bytes a.0 a.1 ea in
    let size = sei_number-shorter 0 a.1 b.0 b.1 eb in
    rw (← shape) (omega (arith, length-drop b.0 b.1))

-- More fuel than there are bytes changes nothing.
sei_from-fuel :
    (f g : ℕ) (bytes : List ℕ) (output : EncodedVideoMetadata)
    → length bytes ≤ f
    → length bytes ≤ g
    → sei_from f bytes output ≡ sei_from g bytes output
unfolding sei_from
sei_from-fuel zero zero bytes output h k = refl
sei_from-fuel zero (suc g) [] output h k = refl
sei_from-fuel zero (suc g) (byte ∷ bytes) output h k = absurd (omega arith)
sei_from-fuel (suc f) zero [] output h k = refl
sei_from-fuel (suc f) zero (byte ∷ bytes) output h k = absurd (omega arith)
sei_from-fuel (suc f) (suc g) [] output h k = refl
sei_from-fuel (suc f) (suc g) (byte ∷ bytes) output h k =
    elim (Option-cases (sei_message (byte ∷ bytes))) [
      | inl none_left ↦ rw none_left refl
      | inr (m, found) ↦
          let shorter = sei_message-shorter (byte ∷ bytes) m found in
          let same = sei_from-fuel f g m.2 (apply_sei m.0 m.1 output) (omega arith) (omega arith) in
          rw (found, same) refl
    ]

-- The first byte does not end the unit.
abbrev pub GoesOn : List ℕ → Type 0
GoesOn [] = Unit {0}
GoesOn (byte ∷ bytes) = byte ≢ 128

sei_from-step :
    (f : ℕ) (bytes : List ℕ) (m : ℕ × List ℕ × List ℕ) (output : EncodedVideoMetadata)
    → GoesOn bytes
    → sei_message bytes ≡ some m
    → sei_from (suc f) bytes output ≡ sei_from f m.2 (apply_sei m.0 m.1 output)
unfolding sei_from
sei_from-step f [] m output h e = absurd (omega (arith, sei_message-shorter [] m e))
sei_from-step f (byte ∷ bytes) m output h e =
    let ends : byte == 0x80 ≡ false = ground (arith, h) in rw (ends, e) refl

replicate-GoesOn :
    (count last : ℕ) (rest : List ℕ)
    → (count ≡ 0 → last ≢ 128)
    → GoesOn (replicate count 255 ++ (last ∷ rest))
replicate-GoesOn zero last rest h = h refl
replicate-GoesOn (suc count) last rest h = ground arith

message-GoesOn :
    (type : ℕ) (payload rest : List ℕ) → type ≢ 128 → GoesOn (message_bytes type payload ++ rest)
message-GoesOn type payload rest h =
    let shape = append_assoc (number_bytes type) (number_bytes (length payload) ++ payload) rest in
    let head =
      append_assoc (replicate (type / 255) 255) (type % 255 ∷ [])
        ((number_bytes (length payload) ++ payload) ++ rest) in
    rw (shape, head) (replicate-GoesOn (type / 255) (type % 255) _ (λ z. ground arith))

parse_sei-step :
    (type : ℕ) (payload rest : List ℕ) (output : EncodedVideoMetadata)
    → type ≢ 128
    → type ≤ u32_max
    → length payload ≤ u32_max
    → parse_sei (message_bytes type payload ++ rest) output
      ≡ parse_sei rest (apply_sei type payload output)
unfolding parse_sei
parse_sei-step type payload rest output d h k =
    let bytes = message_bytes type payload ++ rest in
    let read = sei_message-bytes type payload rest h k in
    let more =
      sei_from-fuel (length bytes) (suc (length bytes)) bytes output (omega arith) (omega arith) in
    let step =
      sei_from-step (length bytes) bytes (type, payload, rest) output
        (message-GoesOn type payload rest d) read in
    let shorter = sei_message-shorter bytes (type, payload, rest) read in
    more
    ∙ step
    ∙ sei_from-fuel (length bytes) (length rest) rest (apply_sei type payload output) (omega arith)
        (omega arith)

-- A whole unit, with its trailing bits, and the metadata that its messages make in order.
abbrev pub unit_bytes : List (ℕ × List ℕ) → List ℕ
unit_bytes [] = 0x80 ∷ []
unit_bytes (m ∷ ms) = message_bytes m.0 m.1 ++ unit_bytes ms

abbrev pub apply_all : List (ℕ × List ℕ) → EncodedVideoMetadata → EncodedVideoMetadata
apply_all [] output = output
apply_all (m ∷ ms) output = apply_all ms (apply_sei m.0 m.1 output)

abbrev pub Writable : ℕ × List ℕ → Type 0
Writable m = (m.0 ≢ 128) × (m.0 ≤ u32_max) × (length m.1 ≤ u32_max)

-- What the parser makes of a unit of messages that are given by their types and payloads.
pub parse_sei-applies :
    (ms : List (ℕ × List ℕ)) (output : EncodedVideoMetadata)
    → All Writable ms
    → parse_sei (unit_bytes ms) output ≡ (true, apply_all ms output)
unfolding parse_sei sei_from
parse_sei-applies [] output h = refl
parse_sei-applies (m ∷ ms) output h =
    parse_sei-step m.0 m.1 (unit_bytes ms) output h.0.0 h.0.1 h.0.2
    ∙ parse_sei-applies ms (apply_sei m.0 m.1 output) h.1
