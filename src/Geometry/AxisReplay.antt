-- ===== src/Geometry/AxisReplay.antt =====
-- The interval that an axis of a move maps to, pixel by pixel.
use fluxcap.Prelude.{
  ℕ, ◌+◌, ◌-◌, ◌*◌, ◌%◌, ◌^◌, ◌≤◌, ◌<◌, ◌≡◌, true, not, ◌||◌, ltb, some, some_inj, ◌∙◌, ◌⊎◌, inl,
  inr, i32_max, arith, >>=-eq-some, require-eq-some, u32_mod, ltb→lt,
}
use fluxcap.Prelude.Int.{
  ℤ, pos, ◌-ℤ◌, -ℤ_parts, leb_ℤ, ltb_ℤ, scale, quot, is_multiple, pos_part, neg_part, abs,
  scale_parts, quot_exact, one_sign,
}
use fluxcap.Geometry.Rect.{both_even}
use fluxcap.Geometry.Tap.{
  deterministic_point_tap, deterministic_first_output_tap_at_least, Exact, first_output_tap-Splits,
  deterministic_point_tap-shift,
}
use fluxcap.Geometry.MoveAxis.{
  AxisMove, axis_fits, axis_delta, axis_interval, axis_source, axis_confirmed,
  map_deterministic_planar_move_axis,
}

-- The output displacement is the scaled source displacement, without a rest, and even.
axis_delta-exact :
    (a : ℤ) (s o : ℕ) (d : ℤ)
    → axis_delta a s o ≡ some d
    → (pos_part d * s ≡ pos_part a * o) × (neg_part d * s ≡ neg_part a * o) × (abs d % 2 ≡ 0)
unfolding axis_delta
axis_delta-exact a s o d e =
    let (whole, rest) = require-eq-some (is_multiple (scale a o) s) _ e in
    let (even, last) = require-eq-some (is_multiple (quot (scale a o) s) 2) _ rest in
    let (p, n) = quot_exact (scale a o) s whole in
    let (p', n') = scale_parts a o in
    let d' : quot (scale a o) s ≡ d = some_inj last in
    rw (← d') (p ∙ p', n ∙ n', ground (arith, even))

axis_interval-Splits :
    (b l s o : ℕ) (i : ℕ × ℕ)
    → Exact s o
    → axis_interval b l s o ≡ some i
    → (i.0 < i.1)
      × (i.1 ≤ o)
      × (i.0 % 2 ≡ 0)
      × (i.1 % 2 ≡ 0)
      × ((c : ℕ)
          → i.0 ≤ c
          → c < i.1
          → (b ≤ deterministic_point_tap c s o) × (deterministic_point_tap c s o < b + l))
unfolding axis_interval
axis_interval-Splits b l s o i x e =
    let f = deterministic_first_output_tap_at_least b s o in
    let g = deterministic_first_output_tap_at_least (b + l) s o in
    let (room, last) = require-eq-some (ltb (f + f % 2) (g - g % 2)) _ e in
    let (_, from) = first_output_tap-Splits b s o x in
    let (within, upto) = first_output_tap-Splits (b + l) s o x in
    let i' : (f + f % 2, g - g % 2) ≡ i = some_inj last in
    let room' = ltb→lt (f + f % 2) (g - g % 2) room in
    rw (← i') (
      room',
      omega arith,
      omega arith,
      omega arith,
      λ c p q. (from.1 c (omega arith) (omega arith), upto.0 c (omega arith)),
    )

axis_source-shift :
    (d : ℤ) (i : ℕ × ℕ) (o : ℕ) (j : ℕ × ℕ)
    → axis_source d i o ≡ some j
    → (j.0 + pos_part d ≡ i.0 + neg_part d)
      × (j.1 + pos_part d ≡ i.1 + neg_part d)
      × (j.1 ≤ o)
      × (j.0 % 2 ≡ 0)
unfolding axis_source
axis_source-shift d i o j e =
    let begins = pos i.0 -ℤ d in
    let ends = pos i.1 -ℤ d in
    let (range, rest) =
      require-eq-some (not (ltb_ℤ begins (pos 0) || leb_ℤ ends begins || ltb_ℤ (pos o) ends)) _ e in
    let (even, last) = require-eq-some (both_even (pos_part begins) (pos_part ends)) _ rest in
    let j' : (pos_part begins, pos_part ends) ≡ j = some_inj last in
    let bs = -ℤ_parts (pos i.0) d in
    let es = -ℤ_parts (pos i.1) d in
    let b0 = one_sign begins in
    let e0 = one_sign ends in
    rw (← j') (
      ground (arith, range, bs, es),
      ground (arith, range, bs, es, b0, e0),
      ground (arith, range, e0),
      ground (arith, even),
    )

axis_fits-range :
    (b d l s o : ℕ)
    → axis_fits b d l s o ≡ true
    → s < u32_mod
    → Exact s o × (b + l ≤ s) × (d + l ≤ s)
unfolding axis_fits
axis_fits-range b d l s o e h =
    let positive : (0 < s) × (0 < o) × (o ≤ i32_max) × (b + l ≤ s) × (d + l ≤ s) = ground arith in
    let product : s * o ≤ 2 ^ 32 * o = grind arith in
    ((positive.0, positive.1, omega arith), positive.3, positive.4)

-- Two coordinates that differ by the output displacement have taps that differ by the source
-- displacement, in either direction.
tap_moves :
    (b d s o c c' p n p' n' : ℕ)
    → Exact s o
    → c < o
    → c' < o
    → c' + p' ≡ c + n'
    → p' * s ≡ p * o
    → n' * s ≡ n * o
    → (p' ≡ 0) ⊎ (n' ≡ 0)
    → p + b ≡ n + d
    → deterministic_point_tap c s o + b ≡ deterministic_point_tap c' s o + d
tap_moves b d s o c c' p n p' n' x h h' e q r (inr z) k =
    let z' : n ≡ 0 = grind (arith, x) in
    let e' : c ≡ c' + p' = omega arith in
    let m = deterministic_point_tap-shift c' p' p s o x (omega arith) q in rw e' (omega (arith, m))
tap_moves b d s o c c' p n p' n' x h h' e q r (inl z) k =
    let z' : p ≡ 0 = grind (arith, x) in
    let e' : c' ≡ c + n' = omega arith in
    let m = deterministic_point_tap-shift c n' n s o x (omega arith) r in rw e' (omega (arith, m))

-- The bytes that a move on one axis promises: the interval at the destination is as long as that
-- at the source, both lie in the output and begin and end on whole chroma samples, and at every
-- pixel of it the centre tap at the destination is the tap at the source moved by exactly the
-- displacement of the native move, both within the moved source range. The source extent is a
-- 32-bit number.
pub map_move_axis-Replays :
    (b d l s o : ℕ) (m : AxisMove)
    → s < u32_mod
    → map_deterministic_planar_move_axis b d l s o ≡ some m
    → (0 < m.length)
      × (m.source_begin + m.length ≤ o)
      × (m.destination_begin + m.length ≤ o)
      × (m.source_begin % 2 ≡ 0)
      × (m.destination_begin % 2 ≡ 0)
      × (m.length % 2 ≡ 0)
      × ((i : ℕ)
          → i < m.length
          → let at_source = deterministic_point_tap (m.source_begin + i) s o in
            let at_destination = deterministic_point_tap (m.destination_begin + i) s o in
            (at_destination + b ≡ at_source + d)
            × (b ≤ at_source)
            × (at_source < b + l)
            × (d ≤ at_destination)
            × (at_destination < d + l))
unfolding map_deterministic_planar_move_axis
map_move_axis-Replays b d l s o m h e =
    let (fits, e1) = require-eq-some (axis_fits b d l s o) _ e in
    let (x, inside_source, inside_destination) = axis_fits-range b d l s o fits h in
    let (delta, scaled, e2) = >>=-eq-some (axis_delta (pos d -ℤ pos b) s o) _ e1 in
    let (i, trimmed, e3) = >>=-eq-some (axis_interval d l s o) _ e2 in
    let (j, moved, e4) = >>=-eq-some (axis_source delta i o) _ e3 in
    let (_, last) = require-eq-some (axis_confirmed (pos d -ℤ pos b) b d l s o i j) _ e4 in
    let m' : record { source_begin = j.0; destination_begin = i.0; length = i.1 - i.0 } ≡ m =
      some_inj last in
    let exact = axis_delta-exact (pos d -ℤ pos b) s o delta scaled in
    let splits = axis_interval-Splits d l s o i x trimmed in
    let shift = axis_source-shift delta i o j moved in
    rw (← m') (
      omega arith,
      omega arith,
      omega arith,
      shift.3,
      splits.2,
      omega arith,
      λ k within.
          let t =
            tap_moves b d s o (i.0 + k) (j.0 + k) (pos_part (pos d -ℤ pos b))
              (neg_part (pos d -ℤ pos b)) (pos_part delta) (neg_part delta) x (omega arith)
              (omega arith) (omega arith) exact.0 exact.1 (one_sign delta)
              (omega (arith, -ℤ_parts (pos d) (pos b))) in
          let (low, high) = splits.4 (i.0 + k) (omega arith) (omega arith) in
          (t, omega arith, omega arith, low, high),
    )
