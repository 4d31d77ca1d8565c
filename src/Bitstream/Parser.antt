-- ===== src/Bitstream/Parser.antt =====
-- Parsers of a bit stream that fill in metadata: a failure keeps what was written before.
use fluxcap.Prelude.{ℕ, Bool, true, false, Option, none, some}
use fluxcap.Bitstream.Reader.{BitReader, read_bits, read_bit, skip, read_ue, read_se}
use fluxcap.Bitstream.Metadata.{EncodedVideoMetadata}
use fluxcap.Prelude.Int.{ℤ}

-- What a call leaves: the metadata, and its value with the reader, `none` for `return false`.
pub record Outcome {ℓ} (A : Type ℓ) : Type ℓ where
  pub metadata : EncodedVideoMetadata
  pub result : Option (A × BitReader)

abbrev pub Parser {ℓ} : Type ℓ → Type ℓ
Parser A = BitReader → EncodedVideoMetadata → Outcome A

abbrev pub after_outcome {ℓ κ} : {A : Type ℓ} {B : Type κ} → Outcome A → (A → Parser B) → Outcome B
after_outcome o next = elim o.result [
  | none ↦ record { metadata = o.metadata; result = none }
  | some (a, r) ↦ next a r o.metadata
]

infixl 5 ◌>>=◌ ◌>>◌
abbrev pub ◌>>=◌ {ℓ κ} : {A : Type ℓ} {B : Type κ} → Parser A → (A → Parser B) → Parser B
(m >>= next) r output = after_outcome (m r output) next

abbrev pub ◌>>◌ {ℓ} : {B : Type ℓ} → Parser (Unit {0}) → Parser B → Parser B
m >> next = m >>= λ _. next

abbrev pub done {ℓ} : {A : Type ℓ} → A → Parser A
done a r output = record { metadata = output; result = some (a, r) }

abbrev pub lift {ℓ} : {A : Type ℓ} → (BitReader → Option (A × BitReader)) → Parser A
lift read r output = record { metadata = output; result = read r }

abbrev pub unit_at : Option BitReader → Option (Unit {0} × BitReader)
unit_at none = none
unit_at (some r) = some (tt, r)

abbrev pub bits : ℕ → Parser ℕ
bits count = lift (read_bits count)

abbrev pub bit : Parser Bool
bit = lift read_bit

abbrev pub ue : Parser ℕ
ue = lift read_ue

abbrev pub se : Parser ℤ
se = lift read_se

abbrev pub skip_bits : ℕ → Parser (Unit {0})
skip_bits count = lift (λ r. unit_at (skip count r))

abbrev pub nothing : Parser (Unit {0})
nothing = done tt

-- `if (!condition) return false;`
abbrev pub check : Bool → Parser (Unit {0})
check true = nothing
check false = lift (λ r. none)

abbrev pub when : Bool → Parser (Unit {0}) → Parser (Unit {0})
when true p = p
when false p = nothing

abbrev pub write : (EncodedVideoMetadata → EncodedVideoMetadata) → Parser (Unit {0})
write f r output = record { metadata = f output; result = some (tt, r) }
