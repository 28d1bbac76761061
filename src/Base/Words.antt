-- ===== src/Base/Words.antt =====
-- The unsigned C types: a `uint64_t` is a number below `two64` and wraps around there.
use Prim.Native.Nat.{ℕ, ◌+◌, ◌-◌, ◌%◌, ◌^◌}

abbrev pub two64 : ℕ
two64 = 2 ^ 64

abbrev pub two32 : ℕ
two32 = 2 ^ 32

-- `x + 1` and `x - 1` on a `uint64_t`
abbrev pub succ64 : ℕ → ℕ
succ64 x = (x + 1) % two64

abbrev pub pred64 : ℕ → ℕ
pred64 x = (x + two64 - 1) % two64
