-- ===== src/Bitstream/H264.antt =====
-- `parse_h264_sps` in src/gpu/bitstream_metadata.cpp.
use fluxcap.Prelude.{
  ℕ, zero, suc, ◌+◌, ◌%◌, Bool, false, not, ◌||◌, ◌==◌, leb, ltb, List, [], ◌∷◌, if◌then◌else◌,
}
use fluxcap.Prelude.Int.{ℤ, pos, ◌+ℤ◌, neg, pos_part, neg_part, abs}
use fluxcap.Bitstream.Parser.{
  Parser, bits, bit, ue, se, skip_bits, nothing, check, when, ◌>>=◌, ◌>>◌,
}
use fluxcap.Bitstream.Vui.{parse_vui_color}

-- `% 256` of an `int32_t`, which rounds towards 0.
abbrev pub rem_256 : ℤ → ℤ
rem_256 a = if pos_part a == 0 then neg (neg_part a % 256) else pos (pos_part a % 256)

abbrev pub is_zero : ℤ → Bool
is_zero a = abs a == 0

-- `count` rounds are left. The sum of the code is exact here; in C++ it is undefined behaviour when
-- the delta is near the limits of `int32_t`.
unfoldable pub scaling_list_from : ℕ → ℤ → ℤ → Parser (Unit {0})
scaling_list_from zero last next = nothing
scaling_list_from (suc count) last next =
    let go = λ (n : ℤ). scaling_list_from count (if is_zero n then last else n) n in
    if is_zero next then go next else (se >>= λ delta. go (rem_256 (last +ℤ delta +ℤ pos 256)))

unfoldable pub skip_h264_scaling_list : ℕ → Parser (Unit {0})
skip_h264_scaling_list count = scaling_list_from count (pos 8) (pos 8)

-- The lists from `index` on, `n` of which are left.
unfoldable pub scaling_lists_from : ℕ → ℕ → Parser (Unit {0})
unfolding skip_h264_scaling_list
scaling_lists_from zero index = nothing
scaling_lists_from (suc n) index = do
  list ← bit
  when list (skip_h264_scaling_list (if ltb index 6 then 16 else 64))
  scaling_lists_from n (index + 1)

abbrev pub is_one_of : ℕ → List ℕ → Bool
is_one_of x [] = false
is_one_of x (y ∷ ys) = x == y || is_one_of x ys

abbrev pub high_profiles : List ℕ
high_profiles = 44 ∷ 83 ∷ 86 ∷ 100 ∷ 110 ∷ 118 ∷ 122 ∷ 128 ∷ 134 ∷ 135 ∷ 138 ∷ []

unfoldable pub high_profile_fields : Parser (Unit {0})
unfolding scaling_lists_from
high_profile_fields = do
  chroma ← ue
  check (leb chroma 3)
  when (chroma == 3) (skip_bits 1)
  luma ← ue
  depth ← ue
  skip_bits 1
  scaling ← bit
  when scaling (scaling_lists_from (if chroma == 3 then 12 else 8) 0)

abbrev pub repeat_ue : ℕ → Parser (Unit {0})
repeat_ue zero = nothing
repeat_ue (suc n) = ue >>= λ value. repeat_ue n

abbrev pub repeat_se : ℕ → Parser (Unit {0})
repeat_se zero = nothing
repeat_se (suc n) = se >>= λ value. repeat_se n

abbrev pub offsets_for_cycle : Parser (Unit {0})
offsets_for_cycle = do
  skip_bits 1
  non_reference ← se
  top_to_bottom ← se
  count ← ue
  check (leb count 256)
  repeat_se count

unfoldable pub picture_order : ℕ → Parser (Unit {0})
picture_order poc_type =
    if poc_type == 0
    then repeat_ue 1
    else if poc_type == 1
    then offsets_for_cycle
    else check (poc_type == 2)

unfoldable pub parse_h264_sps : Parser (Unit {0})
unfolding high_profile_fields picture_order
parse_h264_sps = do
  profile ← bits 8
  skip_bits 16
  sps_id ← ue
  when (is_one_of profile high_profiles) high_profile_fields
  frame_num ← ue
  poc_type ← ue
  picture_order poc_type
  ref_frames ← ue
  skip_bits 1
  width ← ue
  height ← ue
  frame_only ← bit
  when (not frame_only) (skip_bits 1)
  skip_bits 1
  crop ← bit
  when crop (repeat_ue 4)
  vui ← bit
  when vui parse_vui_color
