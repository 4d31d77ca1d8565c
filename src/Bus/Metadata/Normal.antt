-- ===== src/Bus/Metadata/Normal.antt =====
-- Which metadata is normalized, and what normalizing it again gives.
use fluxcap.Prelude.{
  ℕ, ◌+◌, ◌≤◌, ◌≡◌, ◌≢◌, ◌↔◌, ◌⊎◌, refl, ap, sym, ◌∙◌, inl, inr, Bool, true, false, arith,
}
use fluxcap.Gpu.{value, invalid, refuse_iff}
use fluxcap.Bus.Metadata.{
  SharedFrameBusFrameMetadata, has_flag, qpc, source_dimensions, roi, generation, has_color_space,
  custom_color_space, reserved_color_space, bad_metadata_header, bad_clock, bad_dimensions, bad_roi,
  bad_generation, bad_color_space, other_color_space, copy_valid_fields, normalize_metadata,
}

-- What the header asks of the metadata of a frame on a bus of this size.
pub record Acceptable (m : SharedFrameBusFrameMetadata) (bus_width bus_height required : ℕ)
    (scaled : Bool) : Type 0 where
  pub header : (m.structure_size ≡ 96) × (m.metadata_version ≡ 1) × (m.valid_fields ≤ 63)
  pub reserved : (m.reserved_0 ≡ 0) × (m.reserved_1.0 ≡ 0) × (m.reserved_1.1 ≡ 0)
  pub clock : has_flag m.valid_fields qpc ≡ true → (m.timestamp_qpc ≢ 0) × (m.qpc_frequency ≢ 0)
  pub dimensions :
      has_flag m.valid_fields source_dimensions ≡ true
      → (m.source_width ≢ 0) × (m.source_height ≢ 0)
  pub region :
      has_flag m.valid_fields roi ≡ true
      → (has_flag m.valid_fields source_dimensions ≡ true)
        × (m.roi_width ≢ 0)
        × (m.roi_height ≢ 0)
        × (m.roi_x + m.roi_width ≤ m.source_width)
        × (m.roi_y + m.roi_height ≤ m.source_height)
        × (scaled ≡ false → (m.roi_width ≡ bus_width) × (m.roi_height ≡ bus_height))
  pub mailbox : has_flag m.valid_fields generation ≡ true → m.mailbox_generation ≢ 0
  pub color :
      has_flag m.valid_fields has_color_space ≡ true
      → (m.color_space ≢ custom_color_space)
        × (m.color_space ≢ reserved_color_space)
        × ((required ≡ custom_color_space) ⊎ (m.color_space ≡ required))

module _ (m : SharedFrameBusFrameMetadata) where
  header_lem : (bad_metadata_header m ≡ false) ↔ (
      (m.structure_size ≡ 96)
      × (m.metadata_version ≡ 1)
      × (m.valid_fields ≤ 63)
      × (m.reserved_0 ≡ 0)
      × (m.reserved_1.0 ≡ 0)
      × (m.reserved_1.1 ≡ 0))
  unfolding bad_metadata_header
  header_lem = ground arith

  clock_lem :
      (bad_clock m ≡ false)
      ↔ (has_flag m.valid_fields qpc ≡ true → (m.timestamp_qpc ≢ 0) × (m.qpc_frequency ≢ 0))
  unfolding bad_clock
  clock_lem = ground arith

  dimensions_lem : (bad_dimensions m ≡ false) ↔ (
      has_flag m.valid_fields source_dimensions ≡ true
      → (m.source_width ≢ 0) × (m.source_height ≢ 0))
  unfolding bad_dimensions
  dimensions_lem = ground arith

  roi_lem :
      (bus_width bus_height : ℕ) (scaled : Bool)
      → (bad_roi m bus_width bus_height scaled ≡ false) ↔ (
          has_flag m.valid_fields roi ≡ true
          → (has_flag m.valid_fields source_dimensions ≡ true)
            × (m.roi_width ≢ 0)
            × (m.roi_height ≢ 0)
            × (m.roi_x + m.roi_width ≤ m.source_width)
            × (m.roi_y + m.roi_height ≤ m.source_height)
            × (scaled ≡ false → (m.roi_width ≡ bus_width) × (m.roi_height ≡ bus_height)))
  unfolding bad_roi
  roi_lem bus_width bus_height true = ground arith
  roi_lem bus_width bus_height false = ground arith

  generation_lem :
      (bad_generation m ≡ false)
      ↔ (has_flag m.valid_fields generation ≡ true → m.mailbox_generation ≢ 0)
  unfolding bad_generation
  generation_lem = ground arith

  color_lem :
      (required : ℕ)
      → ((bad_color_space m ≡ false) × (other_color_space m required ≡ false)) ↔ (
          has_flag m.valid_fields has_color_space ≡ true
          → (m.color_space ≢ custom_color_space)
            × (m.color_space ≢ reserved_color_space)
            × ((required ≡ custom_color_space) ⊎ (m.color_space ≡ required)))
  unfolding bad_color_space other_color_space
  color_lem required = ground arith

-- Metadata is accepted exactly when it is acceptable: the header, and for every field that is marked
-- valid what it must say, the region inside the source and the color space that the bus asks for
-- included. What comes out has the fields that are marked and no others.
pub normalize_metadata-Acceptable :
    (m out : SharedFrameBusFrameMetadata) (bus_width bus_height required : ℕ) (scaled : Bool)
    → (normalize_metadata m bus_width bus_height required scaled ≡ value out)
      ↔ (Acceptable m bus_width bus_height required scaled × (out ≡ copy_valid_fields m))
unfolding normalize_metadata
normalize_metadata-Acceptable m out w h required scaled = (
  λ e.
      let (a, e1) = (refuse_iff (bad_metadata_header m) invalid _).0 e in
      let (b, e2) = (refuse_iff (bad_clock m) invalid _).0 e1 in
      let (c, e3) = (refuse_iff (bad_dimensions m) invalid _).0 e2 in
      let (d, e4) = (refuse_iff (bad_roi m w h scaled) invalid _).0 e3 in
      let (f, e5) = (refuse_iff (bad_generation m) invalid _).0 e4 in
      let (g, e6) = (refuse_iff (bad_color_space m) invalid _).0 e5 in
      let (i, e7) = (refuse_iff (other_color_space m required) invalid _).0 e6 in
      let hd = (header_lem m).0 a in
      (
        record {
          header = (hd.0, hd.1, hd.2);
          reserved = (hd.3, hd.4, hd.5);
          clock = (clock_lem m).0 b;
          dimensions = (dimensions_lem m).0 c;
          region = (roi_lem m w h scaled).0 d;
          mailbox = (generation_lem m).0 f;
          color = (color_lem m required).0 (g, i);
        },
        cc e7,
      ),
  λ (a, e).
      let colors = (color_lem m required).1 a.color in
      rw
        (
          (header_lem m).1
              (a.header.0, a.header.1, a.header.2, a.reserved.0, a.reserved.1, a.reserved.2),
          (clock_lem m).1 a.clock,
          (dimensions_lem m).1 a.dimensions,
          (roi_lem m w h scaled).1 a.region,
          (generation_lem m).1 a.mailbox,
          colors.0,
          colors.1,
        )
        (ap value (sym e)),
)

copy_valid_fields-twice :
    (m : SharedFrameBusFrameMetadata)
    → copy_valid_fields (copy_valid_fields m) ≡ copy_valid_fields m
unfolding copy_valid_fields
copy_valid_fields-twice m = ground arith

-- What is copied is acceptable where the original was, also to a reader that asks for no color space.
copy_valid_fields-Acceptable :
    (m : SharedFrameBusFrameMetadata) (bus_width bus_height required required' : ℕ) (scaled : Bool)
    → Acceptable m bus_width bus_height required scaled
    → (required' ≡ custom_color_space) ⊎ (required' ≡ required)
    → Acceptable (copy_valid_fields m) bus_width bus_height required' scaled
unfolding copy_valid_fields
copy_valid_fields-Acceptable m w h required required' scaled a asked = record {
  header = (refl, refl, a.header.2);
  reserved = (refl, refl, refl);
  clock = λ on. rw on (a.clock on);
  dimensions = λ on. rw on (a.dimensions on);
  region = λ on. let r = a.region on in rw (on, r.0) (refl, r.1, r.2, r.3, r.4, r.5);
  mailbox = λ on. rw on (a.mailbox on);
  color = λ on.
      let c = a.color on in
      rw on (
        c.0,
        c.1,
        elim asked [
          | inl any ↦ inl any
          | inr same ↦ elim c.2 [ inl any ↦ inl (same ∙ any) | inr is ↦ inr (is ∙ sym same) ]
        ],
      );
}

-- What has been normalized is normal: it is accepted again, as it is, with the same color space or with
-- none asked for, as a consumer reads it.
pub normalize_metadata-again :
    (m out : SharedFrameBusFrameMetadata) (bus_width bus_height required : ℕ) (scaled : Bool)
    → normalize_metadata m bus_width bus_height required scaled ≡ value out
    → (normalize_metadata out bus_width bus_height required scaled ≡ value out)
      × (normalize_metadata out bus_width bus_height custom_color_space scaled ≡ value out)
normalize_metadata-again m out w h required scaled e =
    let (a, copied) = (normalize_metadata-Acceptable m out w h required scaled).0 e in
    let again = λ (asked : ℕ) (ok : (asked ≡ custom_color_space) ⊎ (asked ≡ required)).
      (normalize_metadata-Acceptable (copy_valid_fields m) (copy_valid_fields m) w h asked scaled).1
        (
          copy_valid_fields-Acceptable m w h required asked scaled a ok,
          sym (copy_valid_fields-twice m),
        ) in
    rw copied (again required (inr refl), again custom_color_space (inl refl))
