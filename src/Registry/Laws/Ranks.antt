-- ===== src/Registry/Laws/Ranks.antt =====
-- The two checks on the ranks of a group against the order that they are meant to have.
use fireviewer_ai_worker.Common.{
  ℕ, ◌≡◌, refl, Bool, true, false, ◌&&◌, List, [], ◌∷◌, arith, ltb, leb, ap, ◌∙◌,
}
use fireviewer_ai_worker.Common.Sort.{insert_by, sort_by, same_numbers, sort_numbers}
use fireviewer_ai_worker.Registry.{has_number, no_repeats}

-- every number is smaller than the next
unfoldable pub is_ascending : List ℕ → Bool
is_ascending [] = true
is_ascending (x ∷ []) = true
is_ascending (x ∷ y ∷ ys) = ltb x y && is_ascending (y ∷ ys)

-- no number is larger than the next
unfoldable is_sorted : List ℕ → Bool
is_sorted [] = true
is_sorted (x ∷ []) = true
is_sorted (x ∷ y ∷ ys) = leb x y && is_sorted (y ∷ ys)

insert_by-is_sorted :
    (x : ℕ) (xs : List ℕ) → is_sorted xs ≡ true → is_sorted (insert_by leb x xs) ≡ true
unfolding insert_by is_sorted
insert_by-is_sorted x [] h = refl
insert_by-is_sorted x (y ∷ []) h = ground arith
insert_by-is_sorted x (y ∷ z ∷ zs) h = ground (arith, insert_by-is_sorted x (z ∷ zs))

sort_numbers-is_sorted : (xs : List ℕ) → is_sorted (sort_numbers xs) ≡ true
unfolding sort_by is_sorted
sort_numbers-is_sorted [] = refl
sort_numbers-is_sorted (x ∷ xs) =
    insert_by-is_sorted x (sort_numbers xs) (sort_numbers-is_sorted xs)

same_numbers-eq : (xs ys : List ℕ) → same_numbers xs ys ≡ true → xs ≡ ys
unfolding same_numbers
same_numbers-eq [] [] h = refl
same_numbers-eq [] (y ∷ ys) h = ground arith
same_numbers-eq (x ∷ xs) [] h = ground arith
same_numbers-eq (x ∷ xs) (y ∷ ys) h = ground (arith, same_numbers-eq xs ys)

same_numbers_refl : (xs : List ℕ) → same_numbers xs xs ≡ true
unfolding same_numbers
same_numbers_refl [] = refl
same_numbers_refl (x ∷ xs) = ground (arith, same_numbers_refl xs)

sorted-is_ascending :
    (xs : List ℕ) → is_sorted xs ≡ true → no_repeats xs ≡ true → is_ascending xs ≡ true
unfolding is_sorted is_ascending no_repeats has_number
sorted-is_ascending [] h u = refl
sorted-is_ascending (x ∷ []) h u = refl
sorted-is_ascending (x ∷ y ∷ ys) h u = ground (arith, sorted-is_ascending (y ∷ ys))

ascending-insert_by :
    (x : ℕ) (xs : List ℕ) → is_ascending (x ∷ xs) ≡ true → insert_by leb x xs ≡ x ∷ xs
unfolding is_ascending insert_by
ascending-insert_by x [] h = refl
ascending-insert_by x (y ∷ ys) h = ground arith

ascending-tail : (x : ℕ) (xs : List ℕ) → is_ascending (x ∷ xs) ≡ true → is_ascending xs ≡ true
unfolding is_ascending
ascending-tail x [] h = refl
ascending-tail x (y ∷ ys) h = ground arith

ascending-sort_numbers : (xs : List ℕ) → is_ascending xs ≡ true → sort_numbers xs ≡ xs
unfolding sort_by
ascending-sort_numbers [] h = refl
ascending-sort_numbers (x ∷ xs) h =
    rw (ascending-sort_numbers xs (ascending-tail x xs h)) (ascending-insert_by x xs h)

-- nothing in an ascending list is below its head
ascending-has_number :
    (w x : ℕ) (xs : List ℕ)
    → is_ascending (x ∷ xs) ≡ true
    → ltb w x ≡ true
    → has_number w (x ∷ xs) ≡ false
unfolding is_ascending has_number
ascending-has_number w x [] h l = ground arith
ascending-has_number w x (y ∷ ys) h l = ground (arith, ascending-has_number w y ys)

ascending-no_repeats : (xs : List ℕ) → is_ascending xs ≡ true → no_repeats xs ≡ true
unfolding no_repeats has_number is_ascending
ascending-no_repeats [] h = refl
ascending-no_repeats (x ∷ []) h = refl
ascending-no_repeats (x ∷ y ∷ ys) h =
    ground (arith, ascending-no_repeats (y ∷ ys), ascending-has_number x y ys)

checked-is_ascending :
    (xs : List ℕ)
    → no_repeats xs ≡ true
    → same_numbers xs (sort_numbers xs) ≡ true
    → is_ascending xs ≡ true
checked-is_ascending xs u s =
    sorted-is_ascending xs
      (ap is_sorted (same_numbers-eq xs (sort_numbers xs) s) ∙ sort_numbers-is_sorted xs) u

ascending-checked :
    (xs : List ℕ) → is_ascending xs ≡ true → same_numbers xs (sort_numbers xs) ≡ true
ascending-checked xs h = ap (same_numbers xs) (ascending-sort_numbers xs h) ∙ same_numbers_refl xs

-- no rank twice, and the ranks as sorting leaves them: exactly the ascending ones
pub ranks-is_ascending :
    (xs : List ℕ) → (no_repeats xs && same_numbers xs (sort_numbers xs)) ≡ is_ascending xs
ranks-is_ascending xs =
    ground (arith, checked-is_ascending xs, ascending-checked xs, ascending-no_repeats xs)
