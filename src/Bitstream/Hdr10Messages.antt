-- ===== src/Bitstream/Hdr10Messages.antt =====
-- The messages of static HDR10 metadata as H.265 lays them out, with the members that they describe.
use fluxcap.Prelude.{ℕ, ◌/◌, ◌%◌, ◌≤◌, ◌<◌, ◌≢◌, true, List, [], ◌∷◌, length, u32_max}
use fluxcap.Bitstream.Metadata.{EncodedVideoMetadata}

-- A point of the color diagram, and the volume of the mastering display in the units of the message:
-- 0.00002 for coordinates and 0.0001 candela per square metre for luminances.
pub record Point : Type 0 where
  pub x : ℕ
  pub y : ℕ

pub record MasteringDisplay : Type 0 where
  pub red : Point
  pub green : Point
  pub blue : Point
  pub white : Point
  pub brightest : ℕ
  pub darkest : ℕ

-- A message: the mastering display (type 137), the content light level (type 144), each with what may
-- stand behind its members, and any other type.
pub data Message : Type 0 where
  mastering : MasteringDisplay → List ℕ → Message
  light_level : ℕ → ℕ → List ℕ → Message
  other : ℕ → List ℕ → Message

abbrev pub be16_bytes : ℕ → List ℕ → List ℕ
be16_bytes n rest = n / 256 ∷ n % 256 ∷ rest

abbrev pub be32_bytes : ℕ → List ℕ → List ℕ
be32_bytes n rest = be16_bytes (n / 65536) (be16_bytes (n % 65536) rest)

abbrev pub point_bytes : Point → List ℕ → List ℕ
point_bytes p rest = be16_bytes p.x (be16_bytes p.y rest)

-- Green, blue and red, the white point, and the two luminances.
abbrev pub mastering_bytes : MasteringDisplay → List ℕ → List ℕ
mastering_bytes d rest = point_bytes d.green (
    point_bytes d.blue (
      point_bytes d.red (point_bytes d.white (be32_bytes d.brightest (be32_bytes d.darkest rest)))))

abbrev pub typed : Message → ℕ × List ℕ
typed (mastering d rest) = (137, mastering_bytes d rest)
typed (light_level content average rest) = (144, be16_bytes content (be16_bytes average rest))
typed (other type payload) = (type, payload)

-- The metadata with what a message describes.
abbrev pub described : Message → EncodedVideoMetadata → EncodedVideoMetadata
described (mastering d rest) output = record output {
  mastering_display_present = true;
  hdr10 = record output.hdr10 {
    enabled = true;
    red_primary_x = d.red.x;
    red_primary_y = d.red.y;
    green_primary_x = d.green.x;
    green_primary_y = d.green.y;
    blue_primary_x = d.blue.x;
    blue_primary_y = d.blue.y;
    white_point_x = d.white.x;
    white_point_y = d.white.y;
    max_mastering_luminance = d.brightest;
    min_mastering_luminance = d.darkest;
  };
}
described (light_level content average rest) output = record output {
  content_light_level_present = true;
  hdr10 = record output.hdr10 {
    enabled = true;
    max_content_light_level = content;
    max_frame_average_light_level = average;
  };
}
described (other type payload) output = output

abbrev pub described_all : List Message → EncodedVideoMetadata → EncodedVideoMetadata
described_all [] output = output
described_all (m ∷ ms) output = described_all ms (described m output)

abbrev pub IsPoint : Point → Type 0
IsPoint p = (p.x < 65536) × (p.y < 65536)

-- The members fit their fields, the payload its size, and another type is none of the two, nor 128.
abbrev pub IsMessage : Message → Type 0
IsMessage (mastering d rest) =
    IsPoint d.red
    × IsPoint d.green
    × IsPoint d.blue
    × IsPoint d.white
    × (d.brightest ≤ u32_max)
    × (d.darkest ≤ u32_max)
    × (length rest < 65536)
IsMessage (light_level content average rest) =
    (content < 65536) × (average < 65536) × (length rest < 65536)
IsMessage (other type payload) =
    (type ≢ 137) × (type ≢ 144) × (type ≢ 128) × (type ≤ u32_max) × (length payload ≤ u32_max)
