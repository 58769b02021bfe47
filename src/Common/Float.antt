-- ===== src/Common/Float.antt =====
-- Python's `float`, which the library lacks: the type is a parameter `R` of every definition that
-- holds one, and its operations are an instance. Nothing is assumed of them unless a theorem says so.
use Prim.Native.Nat.{ℕ}
use mathlib.Core.Bool.{Bool, ◌&&◌}
use mathlib.Core.List.{List}
use fireviewer_ai_worker.Common.Tests.{if◌then◌else◌}

pub record FloatOps (R : Type 0) : Type 0 where
  -- a == b, a <= b and a < b
  pub eq_test : R → R → Bool
  pub le_test : R → R → Bool
  pub lt_test : R → R → Bool
  pub add : R → R → R
  pub sub : R → R → R
  pub mul : R → R → R
  pub div : R → R → R
  -- an int where a float is expected, and a literal such as 0.0
  pub of_int : ℕ → R
  -- statistics.fmean, on a list that is not empty
  pub fmean : List R → R
  -- round(x, 6)
  pub round6 : R → R

module _ {R : Type 0} ⦃F : FloatOps R⦄ where
  -- Python's two-argument `max` and `min` keep the first of two equal values.
  abbrev pub float_max : R → R → R
  float_max a b = if F.lt_test a b then b else a

  abbrev pub float_min : R → R → R
  float_min a b = if F.lt_test b a then b else a

  -- lo <= x <= hi
  abbrev pub in_range : R → R → R → Bool
  in_range lo hi x = F.le_test lo x && F.le_test x hi
