-- ===== src/Base/Amounts.antt =====
-- An amount of money with its sign, in whole cents.
use Prim.Native.Nat.{ℕ}
use mathlib.Core.Bool.{Bool, false}
use tutorial_dealfinder.Base.Tests.{ltb}

-- a number of cents, or its negative
pub data Amount : Type 0 where
  cents : ℕ → Amount
  debt : ℕ → Amount

-- `v > 0`
abbrev pub is_positive : Amount → Bool
is_positive (cents n) = ltb 0 n
is_positive (debt n) = false
