-- ===== src/Common/Sort.antt =====
-- Python's `sorted` by a key, which is stable, on the keys that the source sorts by; and the order
-- and the set operations of texts.
use Prim.Native.Nat.{ℕ}
use Prim.Native.String.{String, compare}
use mathlib.Core.Bool.{Bool, true, false, not, ◌&&◌}
use mathlib.Core.List.{List, [], ◌∷◌, ◌++◌}
use text.Mathlib.Text.{is_le}
use fireviewer_ai_worker.Common.Tests.{leb, ◌==◌, if◌then◌else◌}
use fireviewer_ai_worker.Common.Lists.{contains, keep}

module _ {ℓ} {A : Type ℓ} (before : A → A → Bool) where
  -- put `x` in front of the first element that it may precede
  unfoldable pub insert_by : A → List A → List A
  insert_by x [] = x ∷ []
  insert_by x (y ∷ ys) = if before x y then x ∷ y ∷ ys else y ∷ insert_by x ys

  -- sorted(xs, key=…), `before` being `<=` of the keys
  unfoldable pub sort_by : List A → List A
  unfolding insert_by
  sort_by [] = []
  sort_by (x ∷ xs) = insert_by x (sort_by xs)

-- s <= t on texts
abbrev pub text_le : String → String → Bool
text_le s t = is_le (compare s t)

abbrev pub sort_texts : List String → List String
sort_texts = sort_by text_le

abbrev pub sort_numbers : List ℕ → List ℕ
sort_numbers = sort_by leb

unfoldable pub same_numbers : List ℕ → List ℕ → Bool
same_numbers [] [] = true
same_numbers (x ∷ xs) (y ∷ ys) = (x == y) && same_numbers xs ys
same_numbers _ _ = false

-- set(xs), by its members in the order of their first occurrence
unfoldable pub to_set : List String → List String
unfolding keep contains
to_set [] = []
to_set (x ∷ xs) = x ∷ keep (λ y. not (contains y (x ∷ []))) (to_set xs)

-- left & right and left | right
unfoldable pub intersection : List String → List String → List String
intersection left right = keep (λ x. contains x right) left

unfoldable pub union : List String → List String → List String
union left right = left ++ keep (λ x. not (contains x left)) right
