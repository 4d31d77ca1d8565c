-- ===== src/Prelude/Words.antt =====
-- The ranges of the fixed-width integers.
use Prim.Native.Nat.{ℕ, ◌-◌, ◌^◌, ◌%◌}

abbrev pub u32_mod : ℕ
u32_mod = 2 ^ 32

abbrev pub u64_mod : ℕ
u64_mod = 2 ^ 64

abbrev pub u32_max : ℕ
u32_max = u32_mod - 1

abbrev pub u64_max : ℕ
u64_max = u64_mod - 1

abbrev pub i32_max : ℕ
i32_max = 2 ^ 31 - 1

abbrev pub u32 : ℕ → ℕ
u32 n = n % 2 ^ 32

abbrev pub u64 : ℕ → ℕ
u64 n = n % 2 ^ 64
