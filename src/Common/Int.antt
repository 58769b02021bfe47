-- ===== src/Common/Int.antt =====
-- Python's integers where they may be negative.
use Prim.Native.Nat.{ℕ}
use mathlib.Core.Bool.{Bool, true, false}
use mathlib.Core.Option.{Option, none, some}
use fireviewer_ai_worker.Common.Tests.{leb, ◌==◌}

-- `negsuc n` is -(n + 1).
pub data ℤ : Type 0 where
  pos : ℕ → ℤ
  negsuc : ℕ → ℤ

-- lo <= i <= hi for bounds that are not negative, with the number if it is so
unfoldable pub between : ℕ → ℕ → ℤ → Bool
between lo hi (pos n) = elim (leb lo n) [ true ↦ leb n hi | false ↦ false ]
between lo hi (negsuc n) = false

abbrev pub natural : ℤ → Option ℕ
natural (pos n) = some n
natural (negsuc n) = none

-- bool(i)
abbrev pub nonzero : ℤ → Bool
nonzero (pos n) = elim (n == 0) [ true ↦ false | false ↦ true ]
nonzero (negsuc n) = true
