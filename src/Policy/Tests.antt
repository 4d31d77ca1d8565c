-- ===== src/Policy/Tests.antt =====
-- The third attempt, and a session that falls back.
use fluxcap.Prelude.{◌+◌, ◌*◌, ◌≤◌, ◌≡◌, refl, min, true, [], ◌∷◌, arith}
use fluxcap.Policy.Decisions.{
  backoff_delay_ms, b8g8r8a8_unorm, r16g16b16a16_float, format_negotiation,
  format_fallback_accepted,
}
use fluxcap.Policy.Backoff.{backoff_delay_ms-Doubles, format_fallback_accepted-format_negotiation}

backoff_delay_ms-Doubles_example :
    (backoff_delay_ms 3 25 1000 ≤ 1000)
    × (backoff_delay_ms 1 25 1000 ≡ min 25 1000)
    × (backoff_delay_ms (3 + 1) 25 1000 ≡ min (2 * backoff_delay_ms 3 25 1000) 1000)
backoff_delay_ms-Doubles_example =
    backoff_delay_ms-Doubles 3 25 1000 (omega arith) (omega arith) (omega arith) (omega arith)

falls_back : format_fallback_accepted b8g8r8a8_unorm r16g16b16a16_float true ≡ true
unfolding format_fallback_accepted
falls_back = refl

format_fallback_accepted-format_negotiation_example :
    format_negotiation r16g16b16a16_float true ≡ (r16g16b16a16_float ∷ b8g8r8a8_unorm ∷ [])
format_fallback_accepted-format_negotiation_example =
    format_fallback_accepted-format_negotiation b8g8r8a8_unorm r16g16b16a16_float true falls_back
