-- ===== src/Bitstream/Sei.antt =====
-- `parse_sei`: the messages of a supplemental enhancement information unit.
use fluxcap.Prelude.{
  ℕ, zero, suc, ◌+◌, ◌-◌, Bool, true, false, ◌&&◌, ◌==◌, leb, ltb, List, [], ◌∷◌, length, take,
  drop, Option, none, some, u32, u32_max, if◌then◌else◌, require, ◌>>=◌, ◌>>◌,
}
use fluxcap.Bitstream.Metadata.{EncodedVideoMetadata, read_be16, read_be32}

-- A type or a size: bytes of 255 and a last one. `none` is `false`.
unfoldable pub sei_number : ℕ → List ℕ → Option (ℕ × List ℕ)
sei_number value [] = none
sei_number value (byte ∷ bytes) =
    let more = sei_number (value + 255) bytes in
    if byte == 255
    then (if ltb (u32_max - 255) value then none else more)
    else some (u32 (value + byte), bytes)

-- The type of the first message, its payload, and the bytes behind it.
unfoldable pub sei_message : List ℕ → Option (ℕ × List ℕ × List ℕ)
sei_message bytes = do
  (type, after_type) ← sei_number 0 bytes
  (size, after_size) ← sei_number 0 after_type
  require (leb size (length after_size))
  some (type, take size after_size, drop size after_size)

-- What a message adds to the metadata.
unfoldable pub apply_sei : ℕ → List ℕ → EncodedVideoMetadata → EncodedVideoMetadata
apply_sei type payload output =
    if type == 137 && leb 24 (length payload)
    then record output {
      mastering_display_present = true;
      hdr10 = record output.hdr10 {
        enabled = true;
        green_primary_x = read_be16 payload 0;
        green_primary_y = read_be16 payload 2;
        blue_primary_x = read_be16 payload 4;
        blue_primary_y = read_be16 payload 6;
        red_primary_x = read_be16 payload 8;
        red_primary_y = read_be16 payload 10;
        white_point_x = read_be16 payload 12;
        white_point_y = read_be16 payload 14;
        max_mastering_luminance = read_be32 payload 16;
        min_mastering_luminance = read_be32 payload 20;
      };
    }
    else if type == 144 && leb 4 (length payload)
    then record output {
      content_light_level_present = true;
      hdr10 = record output.hdr10 {
        enabled = true;
        max_content_light_level = read_be16 payload 0;
        max_frame_average_light_level = read_be16 payload 2;
      };
    }
    else output

abbrev pub sei_failed : EncodedVideoMetadata → Bool × EncodedVideoMetadata
sei_failed output = (false, output)

-- The loop over the messages on fuel, from the offset on: the result and the metadata, which keeps
-- what was read before a failure. Each message takes bytes, so their number is fuel enough.
unfoldable pub sei_from : ℕ → List ℕ → EncodedVideoMetadata → Bool × EncodedVideoMetadata
sei_from zero bytes output = (true, output)
sei_from (suc fuel) [] output = (true, output)
sei_from (suc fuel) (byte ∷ bytes) output =
    if byte == 0x80 then (true, output) else elim (sei_message (byte ∷ bytes)) [
      | none ↦ sei_failed output
      | some (type, payload, rest) ↦ sei_from fuel rest (apply_sei type payload output)
    ]

unfoldable pub parse_sei : List ℕ → EncodedVideoMetadata → Bool × EncodedVideoMetadata
parse_sei bytes output = sei_from (length bytes) bytes output
