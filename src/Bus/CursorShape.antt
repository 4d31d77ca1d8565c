-- ===== src/Bus/CursorShape.antt =====
-- The shapes of the cursor: `WgcCursorShape` and `validate_cursor_shape`.
pub mod Planes
use fluxcap.Prelude.{
  ℕ, ◌+◌, ◌*◌, ◌/◌, ◌%◌, Bool, true, false, not, ◌&&◌, ◌||◌, ◌==◌, ltb, leb, List, length,
  if◌then◌else◌, u32,
}
use fluxcap.Gpu.{Result, value, error, ◌>>=◌, ◌>>◌, refuse, invalid}

-- A kind that is read from shared memory may be any number.
pub data WgcCursorShapeKind : Type 0 where
  no_kind color_bgra8 monochrome_and_xor masked_color_bgra8 unknown_kind : WgcCursorShapeKind

-- The data are bytes.
pub record WgcCursorShape : Type 0 where
  pub sequence : ℕ
  pub kind : WgcCursorShapeKind
  pub width : ℕ
  pub height : ℕ
  pub hotspot_x : ℕ
  pub hotspot_y : ℕ
  pub stride_bytes : ℕ
  pub bytes : List ℕ

abbrev pub max_cursor_shape_bytes : ℕ
max_cursor_shape_bytes = 256 * 256 * 4

abbrev is_no_kind : WgcCursorShapeKind → Bool
is_no_kind no_kind = true
is_no_kind _ = false

unfoldable pub bad_shape_header : WgcCursorShape → Bool
bad_shape_header s =
    s.sequence == 0
    || is_no_kind s.kind
    || s.width == 0
    || s.height == 0
    || ltb 256 s.width
    || ltb 256 s.height
    || leb s.width s.hotspot_x
    || leb s.height s.hotspot_y
    || s.stride_bytes == 0
    || length s.bytes == 0
    || ltb max_cursor_shape_bytes (length s.bytes)

-- The number of bytes that the dimensions ask for. With a height of 256 at most the products stay
-- below 64 bits.
unfoldable pub expected_size : WgcCursorShapeKind → ℕ → ℕ → ℕ → Result ℕ
expected_size color_bgra8 width height stride = do
  refuse (not (stride == u32 (width * 4))) invalid
  value (stride * height)
expected_size masked_color_bgra8 width height stride = do
  refuse (not (stride == u32 (width * 4))) invalid
  value (stride * height)
expected_size monochrome_and_xor width height stride = do
  let minimum_stride = u32 (width + 7) / 8
  refuse (ltb stride minimum_stride || not (stride % 4 == 0)) invalid
  value (stride * height * 2)
expected_size no_kind width height stride = error invalid
expected_size unknown_kind width height stride = error invalid

unfoldable pub validate_cursor_shape : WgcCursorShape → Result (Unit {0})
unfolding bad_shape_header expected_size
validate_cursor_shape s = do
  refuse (bad_shape_header s) invalid
  size ← expected_size s.kind s.width s.height s.stride_bytes
  refuse (not (size == length s.bytes)) invalid
  value tt
