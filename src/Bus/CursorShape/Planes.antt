-- ===== src/Bus/CursorShape/Planes.antt =====
-- The bytes that hold the pixels of a shape.
use fluxcap.Prelude.{
  ℕ, ◌+◌, ◌*◌, ◌/◌, ◌%◌, ◌≤◌, ◌<◌, ◌≡◌, subst, ◌∙◌, u32, false, not, length, arith, ltb, ◌==◌, ◌||◌,
}
use fluxcap.Gpu.{value, invalid, refuse_iff, >>=-eq-value}
use fluxcap.Bus.CursorShape.{
  WgcCursorShapeKind, WgcCursorShape, no_kind, color_bgra8, monochrome_and_xor, masked_color_bgra8,
  unknown_kind, bad_shape_header, expected_size, validate_cursor_shape,
}

-- The last byte that a pixel of the shape is read from: BGRA rows, or two planes of one bit each, the
-- second one below the first.
abbrev pub last_byte : WgcCursorShapeKind → ℕ → ℕ → ℕ → ℕ → ℕ
last_byte monochrome_and_xor height stride x y = (height + y) * stride + x / 8
last_byte _ height stride x y = y * stride + (4 * x + 3)

header_lem :
    (s : WgcCursorShape)
    → bad_shape_header s ≡ false
    → (s.width ≤ 256) × (s.height ≤ 256) × (s.hotspot_x < s.width) × (s.hotspot_y < s.height)
unfolding bad_shape_header
header_lem s h = ground arith

mul_assoc' : (stride height : ℕ) → stride * (height * 2) ≡ stride * height * 2
mul_assoc' stride height = grind arith

in_rows : (rows stride y r : ℕ) → y < rows → r < stride → y * stride + r < stride * rows
in_rows rows stride y r hy hr = grind arith

bgra_within :
    (width height stride x y : ℕ) {size : ℕ}
    → width ≤ 256
    → expected_size color_bgra8 width height stride ≡ value size
    → x < width
    → y < height
    → last_byte color_bgra8 height stride x y < size
unfolding expected_size
bgra_within width height stride x y small e hx hy =
    let (t, got) = (refuse_iff (not (stride == u32 (width * 4))) invalid _).0 e in
    let exact : stride ≡ u32 (width * 4) = ground (arith, t) in
    let fits : 4 * x + 3 < stride = omega (arith, exact) in
    subst (λ z. y * stride + (4 * x + 3) < z) (cc got) (in_rows height stride y (4 * x + 3) hy fits)

within :
    (kind : WgcCursorShapeKind) (width height stride x y : ℕ) {size : ℕ}
    → width ≤ 256
    → expected_size kind width height stride ≡ value size
    → x < width
    → y < height
    → last_byte kind height stride x y < size
unfolding expected_size
within color_bgra8 width height stride x y small e hx hy =
    bgra_within width height stride x y small e hx hy
within masked_color_bgra8 width height stride x y small e hx hy =
    bgra_within width height stride x y small e hx hy
within monochrome_and_xor width height stride x y small e hx hy =
    let (t, got) =
      (refuse_iff (ltb stride (u32 (width + 7) / 8) || not (stride % 4 == 0)) invalid _).0 e in
    let wide : u32 (width + 7) / 8 ≤ stride = ground (arith, t) in
    let fits : x / 8 < stride = omega (arith, wide) in
    let below = in_rows (height * 2) stride (height + y) (x / 8) (omega arith) fits in
    subst (λ z. (height + y) * stride + x / 8 < z) (mul_assoc' stride height ∙ cc got) below
within no_kind width height stride x y small e hx hy = cc
within unknown_kind width height stride x y small e hx hy = cc

-- In a cursor shape that is accepted, the hot spot is a pixel, and the last byte of every pixel, in the
-- second plane for a monochrome shape, lies in the data.
pub validate_cursor_shape-pixels :
    (s : WgcCursorShape) (x y : ℕ)
    → validate_cursor_shape s ≡ value tt
    → x < s.width
    → y < s.height
    → (last_byte s.kind s.height s.stride_bytes x y < length s.bytes)
      × (s.hotspot_x < s.width)
      × (s.hotspot_y < s.height)
unfolding validate_cursor_shape
validate_cursor_shape-pixels s x y e hx hy =
    let (a, e1) = (refuse_iff (bad_shape_header s) invalid _).0 e in
    let (size, sized, e2) =
      >>=-eq-value (expected_size s.kind s.width s.height s.stride_bytes) _ e1 in
    let (c, _) = (refuse_iff (not (size == length s.bytes)) invalid _).0 e2 in
    let same : size ≡ length s.bytes = ground (arith, c) in
    let p = header_lem s a in
    let inside = within s.kind s.width s.height s.stride_bytes x y p.0 sized hx hy in
    (subst (λ z. last_byte s.kind s.height s.stride_bytes x y < z) same inside, p.2, p.3)
