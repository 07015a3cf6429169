-- ===== src/Prelude/Words.antt =====
-- Go's uint64 and int64. A uint64 is a number below 2^64 whose arithmetic wraps.
use Prim.Native.Nat.{ℕ, ◌%◌, ◌<◌}
use mathlib.Core.Path.{◌≡◌}
use native.Mathlib.Omega.{arith}

-- math.MaxUint64
abbrev pub max_uint64 : ℕ
max_uint64 = 18446744073709551615

abbrev pub word : ℕ
word = 18446744073709551616

-- The value that a uint64 operation keeps of an exact result.
abbrev pub u64 : ℕ → ℕ
u64 n = n % word

pub u64-eq_of_lt : (n : ℕ) → n < word → u64 n ≡ n
u64-eq_of_lt n h = omega arith

-- `negsuc n` is -(n + 1).
pub data ℤ : Type 0 where
  pos : ℕ → ℤ
  negsuc : ℕ → ℤ
