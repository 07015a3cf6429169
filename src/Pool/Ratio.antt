-- ===== src/Pool/Ratio.antt =====
-- The exact decimal ratio of pkg/pool/accounting.go, its validation and Euclid's loop.
use mathlib.Core.WellFounded.{Acc}
use scaleway_file_storage_su.Prelude.{ℕ, zero, suc, ◌%◌, ◌<◌, ◌||◌, arith, ◌==◌}
use scaleway_file_storage_su.Prelude.Results.{Result, reject}
use scaleway_file_storage_su.Pool.Errors.{PoolError, ratio_not_positive}

pub record Ratio : Type 0 where
  pub numerator : ℕ
  pub denominator : ℕ

-- Ratio.Validate
unfoldable pub validate : Ratio → Result PoolError (Unit {0})
validate ratio = reject (ratio.numerator == 0 || ratio.denominator == 0) ratio_not_positive

below : (bound n : ℕ) → n < bound → Acc ◌<◌ n
below zero n h = absurd (omega arith)
below (suc bound) n h = Acc.intro n (λ m smaller. below bound m (omega arith))

-- The loop `for right != 0 { left, right = right, left%right }`.
gcd_loop : (left right : ℕ) → Acc ◌<◌ right → ℕ
gcd_loop left right (Acc.intro zero _) = left
gcd_loop left right (Acc.intro (suc r) smaller) =
    gcd_loop (suc r) (left % suc r) (smaller (left % suc r) (omega arith))

-- greatestCommonDivisor
unfoldable pub greatest_common_divisor : ℕ → ℕ → ℕ
unfolding gcd_loop below
greatest_common_divisor left right = gcd_loop left right (below (suc right) right (omega arith))
