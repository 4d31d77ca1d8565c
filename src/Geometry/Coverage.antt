-- ===== src/Geometry/Coverage.antt =====
-- The pixels that rectangles cover, before and after clipping.
use fluxcap.Prelude.{ℕ, ◌+◌, ◌≤◌, ◌<◌, ◌≡◌, ◌↔◌, ◌⊎◌, false, true, arith, inl, inr}
use fluxcap.Prelude.Int.{ℤ, pos, ◌+ℤ◌, ◌-ℤ◌, pos_part, neg_part}
use fluxcap.Geometry.Rect.{WgcRect, empty, mapped}
use fluxcap.Geometry.Damage.{Span, is_empty_span, clip_span, clip_source_rect_to_region}

-- The coordinate lies in the interval of the given extent from `at` on.
abbrev pub Within : ℤ → ℕ → ℕ → Type 0
Within at extent p = (pos_part at ≤ p + neg_part at) × (p + neg_part at < pos_part at + extent)

abbrev pub Covers : WgcRect → ℕ → ℕ → Type 0
Covers r p q = Within r.x r.width p × Within r.y r.height q

abbrev pub InSpan : Span → ℕ → Type 0
InSpan s p = (pos_part s.begins ≤ p + neg_part s.begins) × (p + neg_part s.ends < pos_part s.ends)

-- The clipped interval is the intersection.
pub clip_span-meets :
    (at : ℤ) (extent from size p : ℕ)
    → InSpan (clip_span at extent from size) (p + from) ↔ (Within at extent (p + from) × (p < size))
unfolding clip_span ◌+ℤ◌
clip_span-meets at extent from size p = ground arith

-- In the region's own coordinates.
local_span-meets :
    (s : Span) (from p : ℕ)
    → from + neg_part s.begins ≤ pos_part s.begins
    → is_empty_span s ≡ false
    → Within (pos (pos_part (s.begins -ℤ pos from))) (pos_part (s.ends -ℤ s.begins)) p
      ↔ InSpan s (p + from)
unfolding ◌-ℤ◌
local_span-meets s from p h e = ground arith

clip_span-from :
    (at : ℤ) (extent from size : ℕ)
    → let s = clip_span at extent from size in from + neg_part s.begins ≤ pos_part s.begins
unfolding clip_span
clip_span-from at extent from size = ground arith

pub empty_span-misses : (s : Span) (p : ℕ) → is_empty_span s ≡ true → ¬ InSpan s p
empty_span-misses s p e h = ground arith

-- How a clip can end.
clip_source_rect_to_region-cases :
    (source : WgcRect) (x y width height : ℕ)
    → let h = clip_span source.x source.width x width in
      let v = clip_span source.y source.height y height in
      let (status, local) = clip_source_rect_to_region source x y width height in
      (status ≡ mapped
        → (is_empty_span h ≡ false)
          × (is_empty_span v ≡ false)
          × (local ≡ record {
            x = pos (pos_part (h.begins -ℤ pos x));
            y = pos (pos_part (v.begins -ℤ pos y));
            width = pos_part (h.ends -ℤ h.begins);
            height = pos_part (v.ends -ℤ v.begins);
          }))
      × (status ≡ empty
          → (source.width ≡ 0)
            ⊎ (source.height ≡ 0)
            ⊎ (width ≡ 0)
            ⊎ (height ≡ 0)
            ⊎ (is_empty_span h ≡ true)
            ⊎ (is_empty_span v ≡ true))
unfolding clip_source_rect_to_region
clip_source_rect_to_region-cases source x y width height = (λ e. ground arith, λ e. ground arith)

-- Clipping is exact. When a rectangle is mapped, the clipped one covers a point of the region, in
-- the region's own coordinates, exactly when the source covers it; when the answer is that there is
-- none, the source covers no point of the region.
pub clip_source_rect_to_region-exact :
    (source : WgcRect) (x y width height p q : ℕ)
    → let (status, local) = clip_source_rect_to_region source x y width height in
      (status ≡ mapped
        → Covers local p q ↔ (Covers source (p + x) (q + y) × (p < width) × (q < height)))
      × (status ≡ empty → p < width → q < height → ¬ Covers source (p + x) (q + y))
clip_source_rect_to_region-exact source x y width height p q =
    let h = clip_span source.x source.width x width in
    let v = clip_span source.y source.height y height in
    let hm = clip_span-meets source.x source.width x width p in
    let vm = clip_span-meets source.y source.height y height q in
    let (on, off) = clip_source_rect_to_region-cases source x y width height in
    (
      λ e.
          let (h_some, v_some, shape) = on e in
          let hl = local_span-meets h x p (clip_span-from source.x source.width x width) h_some in
          let vl = local_span-meets v y q (clip_span-from source.y source.height y height) v_some in
          rw shape (
            (λ c. (
              ((hm.0 (hl.0 c.0)).0, (vm.0 (vl.0 c.1)).0),
              (hm.0 (hl.0 c.0)).1,
              (vm.0 (vl.0 c.1)).1,
            )),
            (λ c. (hl.1 (hm.1 (c.0.0, c.1)), vl.1 (vm.1 (c.0.1, c.2)))),
          ),
      λ e a b c. elim (off e) [
        | inl z ↦ omega arith
        | inr (inl z) ↦ omega arith
        | inr (inr (inl z)) ↦ omega arith
        | inr (inr (inr (inl z))) ↦ omega arith
        | inr (inr (inr (inr (inl z)))) ↦ empty_span-misses h (p + x) z (hm.1 (c.0, a))
        | inr (inr (inr (inr (inr z)))) ↦ empty_span-misses v (q + y) z (vm.1 (c.1, b))
      ],
    )
