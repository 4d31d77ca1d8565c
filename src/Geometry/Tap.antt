-- ===== src/Geometry/Tap.antt =====
-- The centre taps of the deterministic planar kernel, and the search for the first output
-- coordinate whose tap reaches a source edge.
use native.Mathlib.Nat.{
  add-mul-div_left, le_refl, div-lt_iff_lt-mul, le-div_iff_mul-le, mod-eq_of_lt,
}
use fluxcap.Prelude.{
  ℕ, zero, ltb→lt, suc, ◌+◌, ◌-◌, ◌*◌, ◌/◌, ◌^◌, ◌≤◌, ◌<◌, min, ◌||◌, ◌==◌, ◌≡◌, ltb, leb, u64,
  if◌then◌else◌, arith, Bool-cases, inl, inr, ◌↔◌,
}

-- The product is taken in 64 bits.
unfoldable pub deterministic_point_tap : ℕ → ℕ → ℕ → ℕ
deterministic_point_tap output_coordinate source_extent output_extent =
    if source_extent == 0 || output_extent == 0 || leb output_extent output_coordinate
    then 0
    else min (source_extent - 1)
        (u64 ((output_coordinate * 2 + 1) * source_extent) / (output_extent * 2))

-- The `while` loop on fuel.
unfoldable pub search_tap : ℕ → ℕ → ℕ → ℕ → ℕ → ℕ → ℕ
search_tap zero edge source_extent output_extent first last = first
search_tap (suc fuel) edge source_extent output_extent first last =
    let middle = first + (last - first) / 2 in
    let above = search_tap fuel edge source_extent output_extent (middle + 1) last in
    let below = search_tap fuel edge source_extent output_extent first middle in
    if ltb first last
    then (if ltb (deterministic_point_tap middle source_extent output_extent) edge
        then above
        else below)
    else first

-- Each round makes the interval shorter, so its length is fuel enough.
unfoldable pub deterministic_first_output_tap_at_least : ℕ → ℕ → ℕ → ℕ
unfolding search_tap deterministic_point_tap
deterministic_first_output_tap_at_least source_edge source_extent output_extent =
    search_tap output_extent source_edge source_extent output_extent 0 output_extent

-- The extents for which the 64-bit product is exact, far beyond the texture limits of D3D11.
abbrev pub Exact : ℕ → ℕ → Type 0
Exact source_extent output_extent =
    (0 < source_extent) × (0 < output_extent) × (source_extent * output_extent ≤ 2 ^ 63)

numerator_bound : (c s o : ℕ) → 0 < s → c < o → (c * 2 + 1) * s < s * (o * 2)
numerator_bound c s o p h = grind arith

-- Within the exact range the clamp to the last source coordinate never acts.
tap_value :
    (c s o : ℕ) → Exact s o → c < o → deterministic_point_tap c s o ≡ (c * 2 + 1) * s / (o * 2)
unfolding deterministic_point_tap
tap_value c s o x h =
    let bound = numerator_bound c s o x.0 h in
    let small : (c * 2 + 1) * s < 2 ^ 64 = omega arith in
    let inside : (c * 2 + 1) * s / (o * 2) < s = (div-lt_iff_lt-mul (omega arith)).1 bound in
    let whole = mod-eq_of_lt small in ground (arith, inside, whole, x)

-- The tap is a source coordinate.
pub deterministic_point_tap-lt : (c s o : ℕ) → 0 < s → deterministic_point_tap c s o < s
unfolding deterministic_point_tap
deterministic_point_tap-lt c s o p = ground arith

-- The tap reaches an edge exactly when the centre of the output pixel does.
tap-ge_iff :
    (c s o e : ℕ)
    → Exact s o
    → c < o
    → (e ≤ deterministic_point_tap c s o) ↔ (e * (o * 2) ≤ (c * 2 + 1) * s)
tap-ge_iff c s o e x h = rw (tap_value c s o x h) (le-div_iff_mul-le (omega arith))

pub deterministic_point_tap_mono :
    (c d s o : ℕ)
    → Exact s o
    → c ≤ d
    → d < o
    → deterministic_point_tap c s o ≤ deterministic_point_tap d s o
deterministic_point_tap_mono c d s o x h k =
    let e = deterministic_point_tap c s o in
    let reached = (tap-ge_iff c s o e x (omega arith)).0 (le_refl e) in
    let wider : (c * 2 + 1) * s ≤ (d * 2 + 1) * s = grind arith in
    (tap-ge_iff d s o e x k).1 (omega arith)

-- Everything before the coordinate stays below the edge; everything from it on reaches the edge.
abbrev pub Splits : ℕ → ℕ → ℕ → ℕ → Type 0
Splits edge s o k =
    ((c : ℕ) → c < k → deterministic_point_tap c s o < edge)
    × ((c : ℕ) → k ≤ c → c < o → edge ≤ deterministic_point_tap c s o)

search_tap-Splits :
    (fuel edge s o first last : ℕ)
    → Exact s o
    → last - first ≤ fuel
    → first ≤ last
    → last ≤ o
    → ((c : ℕ) → c < first → deterministic_point_tap c s o < edge)
    → ((c : ℕ) → last ≤ c → c < o → edge ≤ deterministic_point_tap c s o)
    → (search_tap fuel edge s o first last ≤ last)
      × Splits edge s o (search_tap fuel edge s o first last)
unfolding search_tap
search_tap-Splits zero edge s o first last x f h k lo hi = (h, (lo, λ c a b. hi c (omega arith) b))
search_tap-Splits (suc fuel) edge s o first last x f h k lo hi =
    elim (Bool-cases (ltb first last)) [
      | inr done ↦ rw done (h, (lo, λ c a b. hi c (ground (arith, a, done)) b))
      | inl more ↦
          let middle = first + (last - first) / 2 in
          let room : first < last = ltb→lt first last more in
          let tap = deterministic_point_tap middle s o in
          elim (Bool-cases (ltb tap edge)) [
            | inl below ↦
                let (r, split) =
                  search_tap-Splits fuel edge s o (middle + 1) last x (omega arith) (omega arith) k
                    (λ c a. omega (
                      arith,
                      deterministic_point_tap_mono c middle s o x (omega arith) (omega arith),
                      ltb→lt tap edge below,
                    ))
                    hi in
                rw (more, below) (r, split)
            | inr above ↦
                let (r, split) =
                  search_tap-Splits fuel edge s o first middle x (omega arith) (omega arith)
                    (omega arith) lo
                    (λ c a b.
                      ground (arith, above, deterministic_point_tap_mono middle c s o x a b)) in
                rw (more, above) (omega arith, split)
          ]
    ]

-- The binary search ends, and splits the output: the taps before the coordinate that it returns lie
-- below the edge, those from it on do not. The extents are not 0 and their product is at most
-- 2 ^ 63.
pub first_output_tap-Splits :
    (edge s o : ℕ)
    → Exact s o
    → (deterministic_first_output_tap_at_least edge s o ≤ o)
      × Splits edge s o (deterministic_first_output_tap_at_least edge s o)
unfolding deterministic_first_output_tap_at_least
first_output_tap-Splits edge s o x =
    search_tap-Splits o edge s o 0 o x (omega arith) (omega arith) (omega arith)
      (λ c h. absurd (omega arith)) (λ c h k. absurd (omega arith))

-- A displacement of the output by `d` pixels that is exactly `e` source pixels moves every tap by
-- `e`.
pub deterministic_point_tap-shift :
    (c d e s o : ℕ)
    → Exact s o
    → c + d < o
    → d * s ≡ e * o
    → deterministic_point_tap (c + d) s o ≡ deterministic_point_tap c s o + e
deterministic_point_tap-shift c d e s o x h q =
    let moved : ((c + d) * 2 + 1) * s ≡ (c * 2 + 1) * s + o * 2 * e = grind arith in
    rw (tap_value (c + d) s o x h, tap_value c s o x (omega arith), moved)
      (add-mul-div_left ((c * 2 + 1) * s) e (omega arith))
