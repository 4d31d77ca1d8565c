-- ===== src/Bitstream/Vui.antt =====
-- `parse_vui_color` in src/gpu/bitstream_metadata.cpp.
use fluxcap.Prelude.{ℕ, true, ◌==◌}
use fluxcap.Bitstream.Metadata.{EncodedVideoMetadata}
use fluxcap.Bitstream.Parser.{Parser, bits, bit, skip_bits, when, write, ◌>>=◌, ◌>>◌}

abbrev pub set_color : ℕ → ℕ → ℕ → EncodedVideoMetadata → EncodedVideoMetadata
set_color primaries transfer matrix output = record output {
  color_description_present = true;
  color_primaries = primaries;
  transfer_characteristics = transfer;
  matrix_coefficients = matrix;
}

unfoldable pub color_description : Parser (Unit {0})
color_description = do
  primaries ← bits 8
  transfer ← bits 8
  matrix ← bits 8
  write (set_color primaries transfer matrix)

-- The part from `video_signal_type_present_flag` on.
unfoldable pub signal_type : Parser (Unit {0})
unfolding color_description
signal_type = do
  write (λ output. record output { video_signal_type_present = true })
  video_format ← bits 3
  full_range ← bit
  color_present ← bit
  write (λ output. record output { full_range = full_range })
  when color_present color_description

unfoldable pub aspect_ratio : Parser (Unit {0})
aspect_ratio = do
  present ← bit
  when present (bits 8 >>= λ aspect. when (aspect == 255) (skip_bits 32))

unfoldable pub overscan : Parser (Unit {0})
overscan = do present ← bit; when present (skip_bits 1)

unfoldable pub parse_vui_color : Parser (Unit {0})
unfolding aspect_ratio overscan signal_type
parse_vui_color = do aspect_ratio; overscan; present ← bit; when present signal_type
