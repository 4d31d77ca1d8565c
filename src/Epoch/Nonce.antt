-- ===== src/Epoch/Nonce.antt =====
-- The nonces of src/gpu/pipeline_epoch_supervisor.cpp. The performance counter, the tick count,
-- the process and thread identities and the shared sequence number that one call of `make_nonce`
-- reads are its argument.
use Prim.Native.Nat.{bit_xor}
use fluxcap.Prelude.{
  ℕ, zero, suc, ◌+◌, ◌*◌, ◌/◌, ◌^◌, Bool, false, ◌&&◌, ◌||◌, Option, none, some, List, [], ◌∷◌,
  ◌==◌, u64, if◌then◌else◌,
}
use fluxcap.Epoch.Types.{Participant}

unfoldable pub mix_nonce : ℕ → ℕ
mix_nonce value =
    let a = u64 (value + 0x9e3779b97f4a7c15) in
    let b = u64 (bit_xor a (a / 2 ^ 30) * 0xbf58476d1ce4e5b9) in
    let c = u64 (bit_xor b (b / 2 ^ 27) * 0x94d049bb133111eb) in bit_xor c (c / 2 ^ 31)

pub record NonceReading : Type 0 where
  pub counter : ℕ
  pub tick_count : ℕ
  pub process_id : ℕ
  pub thread_id : ℕ
  pub sequence : ℕ

unfoldable pub make_nonce : NonceReading → ℕ
unfolding mix_nonce
make_nonce r =
    let ticks = u64 (r.tick_count + u64 (r.sequence * 0xd6e8feb86659fd93)) in
    let process = u64 (r.process_id * 2 ^ 32) in
    let value = mix_nonce (bit_xor (bit_xor (bit_xor r.counter ticks) process) r.thread_id) in
    if value == 0 then mix_nonce r.sequence else value

unfoldable pub collides : ℕ → List Participant → Bool
collides candidate [] = false
collides candidate (p ∷ ps) = p.active && p.registration_nonce == candidate || collides candidate ps

-- The `do … while` loop that follows the eight attempts; `none` when the fuel runs out.
unfoldable pub mix_until_fresh : ℕ → ℕ → ℕ → Option ℕ
mix_until_fresh zero current candidate = none
mix_until_fresh (suc fuel) current candidate =
    let next = mix_nonce (u64 (candidate + 1)) in
    let again = mix_until_fresh fuel current next in
    if next == 0 || next == current then again else some next

-- `n` attempts are left, and `attempt` is the number of the next one.
unfoldable pub attempts_from : (ℕ → NonceReading) → ℕ → ℕ → List Participant → ℕ → ℕ → Option ℕ
attempts_from readings fuel current ps zero attempt = mix_until_fresh fuel current current
attempts_from readings fuel current ps (suc n) attempt =
    let candidate = make_nonce (readings attempt) in
    let rest = attempts_from readings fuel current ps n (attempt + 1) in
    if candidate == 0 || candidate == current || collides candidate ps then rest else some candidate

unfoldable pub make_unique_nonce : (ℕ → NonceReading) → ℕ → ℕ → List Participant → Option ℕ
make_unique_nonce readings fuel current ps = attempts_from readings fuel current ps 8 0

-- The `while` loop of `make_registration_nonce_locked` on fuel: the nonce that it returns, 0 when
-- the counter is used up, and the counter after it.
unfoldable pub next_nonce : ℕ → ℕ → ℕ → ℕ × ℕ
next_nonce zero current next = (0, next)
next_nonce (suc fuel) current next =
    let after = u64 (next + 1) in
    let rest = next_nonce fuel current after in
    if next == 0 then (0, next) else if next == current then rest else (next, after)

-- Two rounds, since the counter meets the ticket's nonce once at most.
unfoldable pub make_registration_nonce : ℕ → ℕ → ℕ × ℕ
unfolding next_nonce
make_registration_nonce current next = next_nonce 2 current next
