-- ===== src/Policy/Backoff.antt =====
-- The delays between attempts, and the formats of a session.
use native.Mathlib.Nat.{pow-suc, pow-le-pow_right, mul-le-mul}
use fluxcap.Prelude.{
  ℕ, zero, suc, ◌+◌, ◌-◌, ◌*◌, ◌^◌, ◌≤◌, ◌<◌, ◌≡◌, min, Bool, true, false, ◌==◌, ltb, [], ◌∷◌,
  u32_max, u64, arith, refl, ap, ◌∙◌, Bool-cases, inl, inr,
}
use fluxcap.Policy.Decisions.{
  backoff_delay_ms, DxgiFormat, format_negotiation, format_fallback_accepted,
}

regroup : (i p : ℕ) → i * (p * 2) ≡ 2 * (i * p)
regroup i p = grind arith

-- The delay before the attempt `a + 1`.
delay :
    (a i m : ℕ) → i ≤ u32_max → a ≤ 31 → 0 < i → backoff_delay_ms (suc a) i m ≡ min (i * 2 ^ a) m
unfolding backoff_delay_ms
delay a i m hi ha hp =
    let power : 2 ^ a ≤ 2 ^ 31 = pow-le-pow_right {n = 2} (omega arith) ha in
    let product : i * 2 ^ a ≤ u32_max * 2 ^ 31 = mul-le-mul hi power in
    let one : suc a == 0 ≡ false = ground arith in
    let some_delay : i == 0 ≡ false = ground (arith, hp) in
    let early : ltb 32 (suc a) ≡ false = ground (arith, ha) in
    let here : suc a - 1 ≡ a = omega arith in
    let whole : u64 (i * 2 ^ a) ≡ i * 2 ^ a = omega arith in
    rw (one, some_delay, early, here, whole) refl

late_delay : (a i m : ℕ) → 31 < a → 0 < i → backoff_delay_ms (suc a) i m ≡ m
unfolding backoff_delay_ms
late_delay a i m ha hp = ground arith

next_delay :
    (a i m : ℕ)
    → i ≤ u32_max
    → m ≤ u32_max
    → 0 < i
    → backoff_delay_ms (suc (suc a)) i m ≡ min (2 * backoff_delay_ms (suc a) i m) m
next_delay a i m hi hm hp = elim (Bool-cases (ltb 31 a)) [
  | inl late ↦
      rw
        (
          late_delay (suc a) i m (ground (arith, late)) hp,
          late_delay a i m (ground (arith, late)) hp,
        )
        (omega arith)
  | inr early ↦
      let twice : i * 2 ^ suc a ≡ 2 * (i * 2 ^ a) =
        ap (λ z. i * z) (pow-suc 2 a) ∙ regroup i (2 ^ a) in
      elim (Bool-cases (ltb 30 a)) [
        | inl last ↦
            let at : a ≡ 31 = ground (arith, early, last) in
            rw (late_delay (suc a) i m (omega arith) hp, delay a i m hi (omega arith) hp, at)
              (omega arith)
        | inr more ↦
            rw
              (
                delay (suc a) i m hi (ground (arith, more)) hp,
                delay a i m hi (ground (arith, more)) hp,
                twice,
              )
              (omega arith)
      ]
]

-- The backoff is bounded and exponential. For 32-bit arguments the delay is never more than the
-- maximum, the first attempt waits for the initial delay where that is allowed, and each further
-- attempt waits for twice the delay before or for the maximum, whichever is shorter.
pub backoff_delay_ms-Doubles :
    (attempt initial_ms max_ms : ℕ)
    → initial_ms ≤ u32_max
    → max_ms ≤ u32_max
    → 0 < attempt
    → 0 < initial_ms
    → (backoff_delay_ms attempt initial_ms max_ms ≤ max_ms)
      × (backoff_delay_ms 1 initial_ms max_ms ≡ min initial_ms max_ms)
      × (backoff_delay_ms (attempt + 1) initial_ms max_ms
          ≡ min (2 * backoff_delay_ms attempt initial_ms max_ms) max_ms)
unfolding backoff_delay_ms
backoff_delay_ms-Doubles zero initial_ms max_ms hi hm ha hp = absurd (omega arith)
backoff_delay_ms-Doubles (suc a) initial_ms max_ms hi hm ha hp =
    let after : suc a + 1 ≡ suc (suc a) = omega arith in
    (
      ground arith,
      ground arith,
      ap (λ z. backoff_delay_ms z initial_ms max_ms) after
          ∙ next_delay a initial_ms max_ms hi hm hp,
    )

-- A format that is accepted as the fallback has been offered as such: the negotiation has put it
-- behind the primary format, and is a list of these two.
pub format_fallback_accepted-format_negotiation :
    (actual primary : DxgiFormat) (allow_fallback : Bool)
    → format_fallback_accepted actual primary allow_fallback ≡ true
    → format_negotiation primary allow_fallback ≡ (primary ∷ actual ∷ [])
unfolding format_fallback_accepted format_negotiation
format_fallback_accepted-format_negotiation actual primary allow_fallback e = ground arith
