-- ===== src/Bitstream/Validation.antt =====
-- What it means that metadata matches.
use fluxcap.Prelude.{
  ◌≡◌, ◌↔◌, refl, true, some, some_inj, Option-cases, Bool-cases, subst, sym, inl, inr, arith,
}
use fluxcap.Gpu.{ok}
use fluxcap.Bitstream.Metadata.{
  GpuHdr10StaticMetadata, EncodedVideoMetadata, ColorSpace, ColorCodes, expected_color_codes,
  same_hdr10, validate_codes, validate_encoded_video_metadata,
}

-- The same static metadata, whatever the `enabled` flags say.
abbrev pub SameHdr10 : GpuHdr10StaticMetadata → GpuHdr10StaticMetadata → Type 0
SameHdr10 a b = record a { enabled = true } ≡ record b { enabled = true }

pub record Matches (m : EncodedVideoMetadata) (c : ColorCodes) (hdr10 : GpuHdr10StaticMetadata)
    : Type 0 where
  pub present : (m.video_signal_type_present ≡ true) × (m.color_description_present ≡ true)
  pub primaries : m.color_primaries ≡ c.primaries
  pub transfer : m.transfer_characteristics ≡ c.transfer
  pub matrix : m.matrix_coefficients ≡ c.matrix
  pub range : m.full_range ≡ c.full_range
  pub static_metadata :
      hdr10.enabled ≡ true
      → (m.mastering_display_present ≡ true)
        × (m.content_light_level_present ≡ true)
        × SameHdr10 m.hdr10 hdr10

same_hdr10_sound : (a b : GpuHdr10StaticMetadata) → same_hdr10 a b ≡ true → SameHdr10 a b
unfolding same_hdr10
same_hdr10_sound a b e = ground arith

same_hdr10_complete : (a b : GpuHdr10StaticMetadata) → SameHdr10 a b → same_hdr10 a b ≡ true
unfolding same_hdr10
same_hdr10_complete a b e = ground arith

accepted :
    (m : EncodedVideoMetadata) (c : ColorCodes) (hdr10 : GpuHdr10StaticMetadata)
    → Matches m c hdr10
    → validate_codes m c hdr10 ≡ ok
unfolding validate_codes
accepted m c hdr10 h =
    let same =
      λ (on : hdr10.enabled ≡ true). same_hdr10_complete m.hdr10 hdr10 (h.static_metadata on).2 in
    elim (Bool-cases hdr10.enabled) [
      | inl on ↦
          let all = same on in
          let parts = h.static_metadata on in
          ground (
            arith, on, all, parts.0, parts.1, h.present, h.primaries, h.transfer, h.matrix, h.range,
          )
      | inr off ↦ ground (arith, off, h.present, h.primaries, h.transfer, h.matrix, h.range)
    ]

-- Metadata is accepted exactly when the color space has codes, the stream carries a signal type and
-- a color description with those codes and that range, and, when static HDR10 metadata is expected,
-- both units were there and every value is the expected one.
pub validate-Matches :
    (m : EncodedVideoMetadata) (space : ColorSpace) (hdr10 : GpuHdr10StaticMetadata)
    → (validate_encoded_video_metadata m space hdr10 ≡ ok)
      ↔ ((c : ColorCodes) × (expected_color_codes space ≡ some c) × Matches m c hdr10)
unfolding validate_encoded_video_metadata validate_codes
validate-Matches m space hdr10 = elim (Option-cases (expected_color_codes space)) [
  | inl unknown ↦ rw unknown (λ e. cc, λ (c, e, _). cc)
  | inr (c, known) ↦
      let sound = same_hdr10_sound m.hdr10 hdr10 in
      let complete = same_hdr10_complete m.hdr10 hdr10 in
      rw (validate_encoded_video_metadata, known)
        (
          λ e. (
            c,
            refl,
            record {
              present = (ground (arith, e), ground (arith, e));
              primaries = ground (arith, e);
              transfer = ground (arith, e);
              matrix = ground (arith, e);
              range = ground (arith, e);
              static_metadata = λ on.
                  (ground (arith, e, on), ground (arith, e, on), sound (ground (arith, e, on)));
            },
          ),
          λ (c', same, h).
              accepted m c hdr10 (subst (λ z. Matches m z hdr10) (sym (some_inj same)) h),
        )
]
