-- ===== src/Bitstream/Rbsp.antt =====
-- `rbsp`: the emulation prevention bytes of a NAL unit are taken out.
use fluxcap.Prelude.{
  ℕ, ◌+◌, ◌≤◌, ◌≡◌, refl, ap, true, false, ◌&&◌, ◌==◌, leb, List, [], ◌∷◌, u32, arith,
  if◌then◌else◌, Bool-cases, inl, inr,
}

-- The loop, with its count of the zero bytes before.
unfoldable pub rbsp_from : ℕ → List ℕ → List ℕ
rbsp_from zero_run [] = []
rbsp_from zero_run (byte ∷ bytes) =
    let dropped = rbsp_from 0 bytes in
    let kept = rbsp_from (if byte == 0 then u32 (zero_run + 1) else 0) bytes in
    if leb 2 zero_run && byte == 3 then dropped else byte ∷ kept

unfoldable pub rbsp : List ℕ → List ℕ
rbsp source = rbsp_from 0 source

-- What H.264 and HEVC ask of an encoder: behind two zero bytes, a byte of at most 3 is preceded by
-- a 3.
unfoldable pub escape_from : ℕ → List ℕ → List ℕ
escape_from zero_run [] = []
escape_from zero_run (byte ∷ bytes) =
    let plain = escape_from (if byte == 0 then zero_run + 1 else 0) bytes in
    let escaped = escape_from (if byte == 0 then 1 else 0) bytes in
    if leb 2 zero_run && leb byte 3 then 3 ∷ byte ∷ escaped else byte ∷ plain

unfoldable pub escape : List ℕ → List ℕ
escape bytes = escape_from 0 bytes

rbsp_from-escape_from :
    (zero_run : ℕ) (bytes : List ℕ)
    → zero_run ≤ 2
    → rbsp_from zero_run (escape_from zero_run bytes) ≡ bytes
unfolding rbsp_from escape_from
rbsp_from-escape_from zero_run [] h = refl
rbsp_from-escape_from zero_run (byte ∷ bytes) h =
    let after_escape = rbsp_from-escape_from (if byte == 0 then 1 else 0) bytes (ground arith) in
    elim (Bool-cases (leb 2 zero_run && leb byte 3)) [
      | inl on ↦
          let enough : leb 2 zero_run ≡ true = ground (arith, on) in
          let one : u32 (0 + 1) ≡ 1 = omega arith in
          rw (on, enough) (ap (λ z. byte ∷ z) after_escape)
      | inr off ↦
          let stays : leb 2 zero_run && byte == 3 ≡ false = ground (arith, off) in
          let after_plain =
            rbsp_from-escape_from (if byte == 0 then zero_run + 1 else 0) bytes
              (ground (arith, off)) in
          let count : u32 (zero_run + 1) ≡ zero_run + 1 = omega arith in
          rw (off, stays, count) (ap (λ z. byte ∷ z) after_plain)
    ]

-- A payload that an encoder has escaped comes back whole.
pub rbsp-escape : (bytes : List ℕ) → rbsp (escape bytes) ≡ bytes
unfolding rbsp escape
rbsp-escape bytes = rbsp_from-escape_from 0 bytes (omega arith)
