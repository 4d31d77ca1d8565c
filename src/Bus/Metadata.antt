-- ===== src/Bus/Metadata.antt =====
-- The metadata of a frame: `SharedFrameBusFrameMetadata` and `normalize_metadata`.
pub mod Normal
use fluxcap.Prelude.{
  ℕ, ◌+◌, ◌-◌, ◌/◌, ◌%◌, ◌^◌, Bool, true, false, not, ◌&&◌, ◌||◌, ◌==◌, ltb, if◌then◌else◌,
}
use fluxcap.Prelude.Int.{ℤ, pos}
use fluxcap.Gpu.{Result, value, ◌>>=◌, ◌>>◌, refuse, invalid}

pub record SharedFrameBusFrameMetadata : Type 0 where
  pub structure_size : ℕ
  pub metadata_version : ℕ
  pub valid_fields : ℕ
  pub source_timestamp_100ns : ℤ
  pub timestamp_qpc : ℕ
  pub qpc_frequency : ℕ
  pub mailbox_generation : ℕ
  pub source_width : ℕ
  pub source_height : ℕ
  pub roi_x : ℕ
  pub roi_y : ℕ
  pub roi_width : ℕ
  pub roi_height : ℕ
  pub color_space : ℕ
  pub reserved_0 : ℕ
  pub reserved_1 : ℕ × ℕ

-- `(flags & (1 << bit)) != 0`.
abbrev pub has_flag : ℕ → ℕ → Bool
has_flag flags bit = flags / 2 ^ bit % 2 == 1

abbrev pub source_timestamp : ℕ
source_timestamp = 0

abbrev pub qpc : ℕ
qpc = 1

abbrev pub source_dimensions : ℕ
source_dimensions = 2

abbrev pub roi : ℕ
roi = 3

abbrev pub generation : ℕ
generation = 4

abbrev pub has_color_space : ℕ
has_color_space = 5

-- `DXGI_COLOR_SPACE_CUSTOM` and `DXGI_COLOR_SPACE_RESERVED`.
abbrev pub custom_color_space : ℕ
custom_color_space = 0xFFFFFFFF

abbrev pub reserved_color_space : ℕ
reserved_color_space = 4

-- `SharedFrameBusFrameMetadata{}`.
abbrev pub empty_metadata : SharedFrameBusFrameMetadata
empty_metadata = record {
  structure_size = 96;
  metadata_version = 1;
  valid_fields = 0;
  source_timestamp_100ns = pos 0;
  timestamp_qpc = 0;
  qpc_frequency = 0;
  mailbox_generation = 0;
  source_width = 0;
  source_height = 0;
  roi_x = 0;
  roi_y = 0;
  roi_width = 0;
  roi_height = 0;
  color_space = custom_color_space;
  reserved_0 = 0;
  reserved_1 = (0, 0);
}

-- The known fields are the bits below 64, so a field that is not known makes the mask larger.
unfoldable pub bad_metadata_header : SharedFrameBusFrameMetadata → Bool
bad_metadata_header m =
    not (m.structure_size == 96)
    || not (m.metadata_version == 1)
    || ltb 63 m.valid_fields
    || not (m.reserved_0 == 0)
    || not (m.reserved_1.0 == 0)
    || not (m.reserved_1.1 == 0)

unfoldable pub bad_roi : SharedFrameBusFrameMetadata → ℕ → ℕ → Bool → Bool
bad_roi m bus_width bus_height scaled_source_roi_allowed =
    has_flag m.valid_fields roi
    && (not (has_flag m.valid_fields source_dimensions)
        || m.roi_width == 0
        || m.roi_height == 0
        || (not scaled_source_roi_allowed
            && (not (m.roi_width == bus_width) || not (m.roi_height == bus_height)))
        || ltb m.source_width m.roi_width
        || ltb m.source_height m.roi_height
        || ltb (m.source_width - m.roi_width) m.roi_x
        || ltb (m.source_height - m.roi_height) m.roi_y)

unfoldable pub bad_clock : SharedFrameBusFrameMetadata → Bool
bad_clock m = has_flag m.valid_fields qpc && (m.timestamp_qpc == 0 || m.qpc_frequency == 0)

unfoldable pub bad_dimensions : SharedFrameBusFrameMetadata → Bool
bad_dimensions m =
    has_flag m.valid_fields source_dimensions && (m.source_width == 0 || m.source_height == 0)

unfoldable pub bad_generation : SharedFrameBusFrameMetadata → Bool
bad_generation m = has_flag m.valid_fields generation && m.mailbox_generation == 0

unfoldable pub bad_color_space : SharedFrameBusFrameMetadata → Bool
bad_color_space m =
    has_flag m.valid_fields has_color_space
    && (m.color_space == custom_color_space || m.color_space == reserved_color_space)

unfoldable pub other_color_space : SharedFrameBusFrameMetadata → ℕ → Bool
other_color_space m required_color_space =
    has_flag m.valid_fields has_color_space
    && not (required_color_space == custom_color_space)
    && not (m.color_space == required_color_space)

-- The fields that are not marked valid are left as `output = {}` has them.
unfoldable pub copy_valid_fields : SharedFrameBusFrameMetadata → SharedFrameBusFrameMetadata
copy_valid_fields m =
    let has = has_flag m.valid_fields in
    record {
      structure_size = 96;
      metadata_version = 1;
      valid_fields = m.valid_fields;
      source_timestamp_100ns = if has source_timestamp then m.source_timestamp_100ns else pos 0;
      timestamp_qpc = if has qpc then m.timestamp_qpc else 0;
      qpc_frequency = if has qpc then m.qpc_frequency else 0;
      mailbox_generation = if has generation then m.mailbox_generation else 0;
      source_width = if has source_dimensions then m.source_width else 0;
      source_height = if has source_dimensions then m.source_height else 0;
      roi_x = if has roi then m.roi_x else 0;
      roi_y = if has roi then m.roi_y else 0;
      roi_width = if has roi then m.roi_width else 0;
      roi_height = if has roi then m.roi_height else 0;
      color_space = if has has_color_space then m.color_space else custom_color_space;
      reserved_0 = 0;
      reserved_1 = (0, 0);
    }

unfoldable pub normalize_metadata :
    SharedFrameBusFrameMetadata → ℕ → ℕ → ℕ → Bool → Result SharedFrameBusFrameMetadata
unfolding bad_metadata_header bad_clock bad_dimensions bad_roi bad_generation bad_color_space
    other_color_space copy_valid_fields
normalize_metadata m bus_width bus_height required_color_space scaled_source_roi_allowed = do
  refuse (bad_metadata_header m) invalid
  refuse (bad_clock m) invalid
  refuse (bad_dimensions m) invalid
  refuse (bad_roi m bus_width bus_height scaled_source_roi_allowed) invalid
  refuse (bad_generation m) invalid
  refuse (bad_color_space m) invalid
  refuse (other_color_space m required_color_space) invalid
  value (copy_valid_fields m)
