-- ===== src/Policy/Decisions.antt =====
-- The functions of src/gpu/desktop_duplication_policy.hpp.
use fluxcap.Prelude.{
  ℕ, ◌-◌, ◌*◌, ◌/◌, ◌^◌, min, Bool, true, false, not, ◌&&◌, ◌||◌, ◌==◌, leb, ltb, List, [], ◌∷◌,
  Option, none, some, i32_max, u64, if◌then◌else◌,
}
use fluxcap.Prelude.Int.{ℤ, pos, negsuc, ◌+ℤ◌, leb_ℤ}
use fluxcap.Geometry.Rect.{WgcRect}

unfoldable pub backoff_delay_ms : ℕ → ℕ → ℕ → ℕ
backoff_delay_ms attempt initial_ms max_ms =
    let from_one = if attempt == 0 then 1 else attempt in
    if initial_ms == 0
    then 0
    else if ltb 32 from_one
    then max_ms
    else min (u64 (initial_ms * 2 ^ (from_one - 1))) max_ms

-- The formats that matter here, and any other one.
pub data DxgiFormat : Type 0 where
  b8g8r8a8_unorm r16g16b16a16_float : DxgiFormat
  other_format : ℕ → DxgiFormat

abbrev pub is_bgra8 : DxgiFormat → Bool
is_bgra8 b8g8r8a8_unorm = true
is_bgra8 _ = false

abbrev pub is_fp16 : DxgiFormat → Bool
is_fp16 r16g16b16a16_float = true
is_fp16 _ = false

-- The counted prefix of the array.
unfoldable pub format_negotiation : DxgiFormat → Bool → List DxgiFormat
format_negotiation primary allow_fallback =
    if not allow_fallback || is_bgra8 primary then primary ∷ [] else primary ∷ b8g8r8a8_unorm ∷ []

unfoldable pub format_fallback_accepted : DxgiFormat → DxgiFormat → Bool → Bool
format_fallback_accepted actual primary allow_fallback =
    is_bgra8 actual && is_fp16 primary && allow_fallback

unfoldable pub heartbeat_due : ℕ → ℕ → ℕ → ℕ → Bool
heartbeat_due last_publish_qpc now_qpc qpc_frequency idle_interval_ms =
    not (
      idle_interval_ms == 0
      || last_publish_qpc == 0
      || qpc_frequency == 0
      || leb now_qpc last_publish_qpc)
    && leb (u64 (idle_interval_ms * qpc_frequency) / 1000) (now_qpc - last_publish_qpc)

abbrev pub fits_i32 : ℤ → Bool
fits_i32 a = leb_ℤ (negsuc i32_max) a && leb_ℤ a (pos i32_max)

-- `none` is `false`, with an empty rectangle.
unfoldable pub offset_rect : WgcRect → ℤ → ℤ → Option WgcRect
offset_rect local offset_x offset_y =
    let x = local.x +ℤ offset_x in
    let y = local.y +ℤ offset_y in
    if not (fits_i32 x && fits_i32 y)
    then none
    else some (record { x = x; y = y; width = local.width; height = local.height })
