-- ===== src/Bitstream/Tests.antt =====
-- Small streams: an escaped payload, a number of two bytes, and the code of 4.
use fluxcap.Prelude.{◌≡◌, ◌↔◌, refl, true, false, List, [], ◌∷◌, ◌++◌, Option, some, none, arith}
use fluxcap.Bitstream.Rbsp.{rbsp, escape, escape_from, rbsp-escape}
use fluxcap.Bitstream.Leb128.{read_leb128, leb128_bytes, read_leb128-bytes}
use fluxcap.Bitstream.Reader.{BitReader, next_bit, read_ue}
use fluxcap.Bitstream.Golomb.{digits_of, ue_code, Starts, read_ue-code}
use fluxcap.Gpu.{ok}
use fluxcap.Bitstream.Metadata.{
  ColorCodes, no_metadata, default_hdr10, ycbcr_studio_g2084_left_p2020, expected_color_codes,
  validate_encoded_video_metadata,
}
use fluxcap.Bitstream.Validation.{Matches, validate-Matches}
use fluxcap.Bitstream.Sei.{apply_sei, sei_from, parse_sei}
use fluxcap.Prelude.{map}
use fluxcap.Bitstream.Sei.{sei_message, sei_number}
use fluxcap.Bitstream.Hdr10Messages.{
  Message, MasteringDisplay, mastering, light_level, other, typed,
}
use fluxcap.Bitstream.Messages.{message_bytes, unit_bytes}
use fluxcap.Bitstream.Vui.{parse_vui_color}
use fluxcap.Bitstream.ColorRoundTrip.{
  At, no_aspect, aspect_bits, overscan_bits, signal_bits, SignalType, with_signal, Leaves,
  parse_vui_color-Leaves,
}

rbsp-escape_example :
    rbsp (escape (0 ∷ 0 ∷ 3 ∷ 0 ∷ 0 ∷ 0 ∷ 1 ∷ [])) ≡ (0 ∷ 0 ∷ 3 ∷ 0 ∷ 0 ∷ 0 ∷ 1 ∷ [])
rbsp-escape_example = rbsp-escape (0 ∷ 0 ∷ 3 ∷ 0 ∷ 0 ∷ 0 ∷ 1 ∷ [])

escaped : escape (0 ∷ 0 ∷ 3 ∷ 0 ∷ 0 ∷ 0 ∷ 1 ∷ []) ≡ (0 ∷ 0 ∷ 3 ∷ 3 ∷ 0 ∷ 0 ∷ 3 ∷ 0 ∷ 1 ∷ [])
unfolding escape escape_from
escaped = refl

read_leb128-bytes_example : read_leb128 (leb128_bytes 8 300 ++ (7 ∷ [])) ≡ some (300, 7 ∷ [])
read_leb128-bytes_example = read_leb128-bytes 300 (7 ∷ []) (omega arith)

-- 0 0 1 0 1, behind three other bits.
abbrev stream : BitReader
stream = record { bytes = 0xe5 ∷ []; bit = 3 }

stream-Starts : Starts stream (ue_code 2 4)
unfolding digits_of next_bit
stream-Starts = ground arith

read_ue-code_example : read_ue stream ≡ some (4, record { bytes = 0xe5 ∷ []; bit = 8 })
read_ue-code_example =
    read_ue-code stream 2 4 (omega arith) (omega arith) (omega arith) (omega arith) stream-Starts

abbrev display : MasteringDisplay
display = record {
  red = record { x = 34000; y = 16000 };
  green = record { x = 13250; y = 34500 };
  blue = record { x = 7500; y = 3000 };
  white = record { x = 15635; y = 16450 };
  brightest = 10000000;
  darkest = 50;
}

-- A mastering display, a content light level and a message of an unknown type.
abbrev messages : List Message
messages = mastering display [] ∷ light_level 1000 400 [] ∷ other 300 (7 ∷ []) ∷ []

display_is_read :
    (parse_sei (unit_bytes (map typed messages)) no_metadata).1.hdr10.red_primary_x ≡ 34000
unfolding parse_sei sei_from sei_message sei_number apply_sei
display_is_read = refl

-- The type 128 is taken for the end of the unit: the message behind it is not read.
type_128_ends :
    parse_sei (message_bytes 128 (9 ∷ []) ++ unit_bytes (map typed messages)) no_metadata
    ≡ (true, no_metadata)
unfolding parse_sei sei_from
type_128_ends = refl

abbrev vui : BitReader
vui = record { bytes = 0x35 ∷ 0x09 ∷ 0x10 ∷ 0x09 ∷ []; bit = 0 }

abbrev pq : Option SignalType
pq = some (record {
  format = 5;
  full_range = false;
  color = some (record { primaries = 9; transfer = 16; matrix = 9 });
})

vui-At : At vui (aspect_bits no_aspect (overscan_bits none (signal_bits pq [])))
unfolding digits_of next_bit
vui-At = ground arith

parse_vui_color-Leaves_example :
    Leaves (parse_vui_color vui no_metadata) (with_signal pq no_metadata) []
parse_vui_color-Leaves_example =
    parse_vui_color-Leaves no_aspect none pq vui no_metadata [] _ (omega arith) vui-At

validate-Matches_example :
    (validate_encoded_video_metadata
        (with_signal pq no_metadata)
        ycbcr_studio_g2084_left_p2020
        default_hdr10
      ≡ ok)
    ↔ ((c : ColorCodes) × (expected_color_codes ycbcr_studio_g2084_left_p2020 ≡ some c)
        × Matches (with_signal pq no_metadata) c default_hdr10)
validate-Matches_example =
    validate-Matches (with_signal pq no_metadata) ycbcr_studio_g2084_left_p2020 default_hdr10
