-- ===== src/Bitstream/Metadata.antt =====
-- The metadata that is collected from packets, and its validation, in include/fluxcap/gpu.hpp and
-- src/gpu/bitstream_metadata.cpp.
use fluxcap.Gpu.{GpuStatus, ok, invalid_argument, unsupported}
use fluxcap.Prelude.{
  ℕ, ◌+◌, ◌*◌, Bool, true, false, not, ◌&&◌, ◌||◌, ◌==◌, List, get_or, Option, none, some,
  if◌then◌else◌,
}

pub record GpuHdr10StaticMetadata : Type 0 where
  pub enabled : Bool
  pub red_primary_x : ℕ
  pub red_primary_y : ℕ
  pub green_primary_x : ℕ
  pub green_primary_y : ℕ
  pub blue_primary_x : ℕ
  pub blue_primary_y : ℕ
  pub white_point_x : ℕ
  pub white_point_y : ℕ
  pub max_mastering_luminance : ℕ
  pub min_mastering_luminance : ℕ
  pub max_content_light_level : ℕ
  pub max_frame_average_light_level : ℕ

pub record EncodedVideoMetadata : Type 0 where
  pub video_signal_type_present : Bool
  pub color_description_present : Bool
  pub full_range : Bool
  pub color_primaries : ℕ
  pub transfer_characteristics : ℕ
  pub matrix_coefficients : ℕ
  pub mastering_display_present : Bool
  pub content_light_level_present : Bool
  pub hdr10 : GpuHdr10StaticMetadata

abbrev pub default_hdr10 : GpuHdr10StaticMetadata
default_hdr10 = record {
  enabled = false;
  red_primary_x = 35400;
  red_primary_y = 14600;
  green_primary_x = 8500;
  green_primary_y = 39850;
  blue_primary_x = 6550;
  blue_primary_y = 2300;
  white_point_x = 15635;
  white_point_y = 16450;
  max_mastering_luminance = 1000;
  min_mastering_luminance = 1;
  max_content_light_level = 1000;
  max_frame_average_light_level = 400;
}

abbrev pub no_metadata : EncodedVideoMetadata
no_metadata = record {
  video_signal_type_present = false;
  color_description_present = false;
  full_range = false;
  color_primaries = 0;
  transfer_characteristics = 0;
  matrix_coefficients = 0;
  mastering_display_present = false;
  content_light_level_present = false;
  hdr10 = default_hdr10;
}

-- Of bytes that are there: whoever calls these has looked at the size.
abbrev pub read_be16 : List ℕ → ℕ → ℕ
read_be16 bytes at = get_or bytes at 0 * 256 + get_or bytes (at + 1) 0

abbrev pub read_be32 : List ℕ → ℕ → ℕ
read_be32 bytes at = read_be16 bytes at * 65536 + read_be16 bytes (at + 2)

-- The color spaces that have codes, and any other one.
pub data ColorSpace : Type 0 where
  rgb_full_g22_p709 rgb_full_g10_p709 ycbcr_studio_g22_p709 ycbcr_full_g22_p709 : ColorSpace
  ycbcr_studio_g22_p2020 ycbcr_full_g22_p2020 ycbcr_studio_g2084_left_p2020 : ColorSpace
  ycbcr_studio_g2084_topleft_p2020 ycbcr_studio_ghlg_p2020 ycbcr_full_ghlg_p2020 : ColorSpace
  other_color_space : ℕ → ColorSpace

pub record ColorCodes : Type 0 where
  pub primaries : ℕ
  pub transfer : ℕ
  pub matrix : ℕ
  pub full_range : Bool

abbrev pub codes : ℕ → ℕ → ℕ → Bool → Option ColorCodes
codes p t m full = some (record { primaries = p; transfer = t; matrix = m; full_range = full })

unfoldable pub expected_color_codes : ColorSpace → Option ColorCodes
expected_color_codes rgb_full_g22_p709 = codes 1 4 1 true
expected_color_codes rgb_full_g10_p709 = codes 1 8 1 true
expected_color_codes ycbcr_studio_g22_p709 = codes 1 1 1 false
expected_color_codes ycbcr_full_g22_p709 = codes 1 1 1 true
expected_color_codes ycbcr_studio_g22_p2020 = codes 9 14 9 false
expected_color_codes ycbcr_full_g22_p2020 = codes 9 14 9 true
expected_color_codes ycbcr_studio_g2084_left_p2020 = codes 9 16 9 false
expected_color_codes ycbcr_studio_g2084_topleft_p2020 = codes 9 16 9 false
expected_color_codes ycbcr_studio_ghlg_p2020 = codes 9 18 9 false
expected_color_codes ycbcr_full_ghlg_p2020 = codes 9 18 9 true
expected_color_codes (other_color_space code) = none

unfoldable pub same_hdr10 : GpuHdr10StaticMetadata → GpuHdr10StaticMetadata → Bool
same_hdr10 left right =
    left.red_primary_x == right.red_primary_x
    && left.red_primary_y == right.red_primary_y
    && left.green_primary_x == right.green_primary_x
    && left.green_primary_y == right.green_primary_y
    && left.blue_primary_x == right.blue_primary_x
    && left.blue_primary_y == right.blue_primary_y
    && left.white_point_x == right.white_point_x
    && left.white_point_y == right.white_point_y
    && left.max_mastering_luminance == right.max_mastering_luminance
    && left.min_mastering_luminance == right.min_mastering_luminance
    && left.max_content_light_level == right.max_content_light_level
    && left.max_frame_average_light_level == right.max_frame_average_light_level

abbrev pub same_bool : Bool → Bool → Bool
same_bool true b = b
same_bool false b = not b

-- The status of the result, when the expected color space has codes.
unfoldable pub validate_codes :
    EncodedVideoMetadata → ColorCodes → GpuHdr10StaticMetadata → GpuStatus
validate_codes metadata c hdr10 =
    if not metadata.video_signal_type_present
      || not metadata.color_description_present
      || not (metadata.color_primaries == c.primaries)
      || not (metadata.transfer_characteristics == c.transfer)
      || not (metadata.matrix_coefficients == c.matrix)
      || not (same_bool metadata.full_range c.full_range)
    then unsupported
    else if hdr10.enabled
        && (not metadata.mastering_display_present
            || not metadata.content_light_level_present
            || not (same_hdr10 metadata.hdr10 hdr10))
    then unsupported
    else ok

unfoldable pub validate_encoded_video_metadata :
    EncodedVideoMetadata → ColorSpace → GpuHdr10StaticMetadata → GpuStatus
validate_encoded_video_metadata metadata color_space hdr10 =
    elim (expected_color_codes color_space) [
      | none ↦ invalid_argument
      | some c ↦ validate_codes metadata c hdr10
    ]
