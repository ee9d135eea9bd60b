-- ===== src/Prelude/Words.antt =====
-- 64-bit counters (`std::atomic<size_t>`, `std::atomic<uint64_t>`), which wrap around.
use Prim.Native.Nat.{ℕ, ◌+◌, ◌-◌, ◌%◌, ◌^◌}

abbrev pub u64_mod : ℕ
u64_mod = 2 ^ 64

abbrev pub inc64 : ℕ → ℕ
inc64 n = (n + 1) % u64_mod

abbrev pub dec64 : ℕ → ℕ
dec64 n = (n + (u64_mod - 1)) % u64_mod

abbrev pub add64 : ℕ → ℕ → ℕ
add64 a b = (a + b) % u64_mod

-- A 32-bit `int`, kept as its distance from `INT_MIN`, so that its order is that of ℕ.
abbrev pub int32 : ℕ → ℕ
int32 n = (n + 2 ^ 31) % 2 ^ 32

abbrev pub int_min : ℕ
int_min = 0
