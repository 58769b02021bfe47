-- ===== src/Broker/Laws/Pages.antt =====
-- The pages of a search, `page_of`: the chain of pages that the cursors make.
use mathlib.Core.Path.{subst}
use fireviewer_ai_worker.Common.{
  Bool-cases, inl, inr, ℕ, zero, suc, ◌+◌, ◌-◌, ◌≤◌, ◌<◌, ◌≡◌, refl, sym, ◌∙◌, ap, String, true,
  false, none, some, List, [], ◌∷◌, ◌++◌, arith, ltb, length,
}
use fireviewer_ai_worker.Broker.Links.{Link}
use fireviewer_ai_worker.Broker.Fetch.{take, drop, page_of}

module _ {A : Type 0} where
  take-drop : (n : ℕ) (xs : List A) → take n xs ++ drop (length (take n xs)) xs ≡ xs
  unfolding take drop
  take-drop zero xs = refl
  take-drop (suc n) [] = refl
  take-drop (suc n) (x ∷ xs) = ap (λ t. x ∷ t) (take-drop n xs)

  drop-all : (n : ℕ) (xs : List A) → length xs ≤ n → drop n xs ≡ []
  unfolding drop
  drop-all zero [] h = refl
  drop-all zero (x ∷ xs) h = ground arith
  drop-all (suc n) [] h = refl
  drop-all (suc n) (x ∷ xs) h = drop-all n xs (omega arith)

  append_nil : (xs : List A) → xs ++ [] ≡ xs
  append_nil [] = refl
  append_nil (x ∷ xs) = ap (λ t. x ∷ t) (append_nil xs)

  drop-nil : (n : ℕ) → drop {A = A} n [] ≡ []
  unfolding drop
  drop-nil zero = refl
  drop-nil (suc n) = refl

  drop-add : (a b : ℕ) (xs : List A) → drop (a + b) xs ≡ drop b (drop a xs)
  unfolding drop
  drop-add zero b xs = ground arith
  drop-add (suc a) b [] = ground (arith, drop-nil b, drop-nil (suc a + b))
  drop-add (suc a) b (x ∷ xs) =
      let next : suc a + b ≡ suc (a + b) = omega arith in
      ap (λ n. drop n (x ∷ xs)) next ∙ drop-add a b xs

  length-drop : (n : ℕ) (xs : List A) → length (drop n xs) ≡ length xs - n
  unfolding drop
  length-drop zero xs = ground arith
  length-drop (suc n) [] = ground arith
  length-drop (suc n) (x ∷ xs) = ground (arith, length-drop n xs)

  length-take_pos : (n : ℕ) (xs : List A) → 0 < n → 0 < length xs → 0 < length (take n xs)
  unfolding take
  length-take_pos zero xs h g = omega arith
  length-take_pos (suc n) [] h g = omega arith
  length-take_pos (suc n) (x ∷ xs) h g = omega arith

-- The pages from an offset on, each at the cursor of the one before, up to a page without a next
-- cursor: how many there are, and the links on them.
pub data Pages (query domain : String) (limit : ℕ) (all_links : List Link)
    : ℕ → ℕ → List Link → Type 0 where
  last :
      {offset : ℕ}
      → (page_of query domain offset limit all_links).next_cursor ≡ none
      → Pages query domain limit all_links offset 1
          (page_of query domain offset limit all_links).links
  next :
      {offset count further : ℕ} {rest : List Link}
      → (page_of query domain offset limit all_links).next_cursor ≡ some further
      → Pages query domain limit all_links further count rest
      → Pages query domain limit all_links offset
          (suc count)
          ((page_of query domain offset limit all_links).links ++ rest)

module _ (query domain : String) (limit : ℕ) (all_links : List Link) where
  shown : ℕ → List Link
  shown offset = take limit (drop offset all_links)

  -- a page and the links from its end on are the links from its start on
  shown-drop :
      (offset : ℕ)
      → shown offset ++ drop (offset + length (shown offset)) all_links ≡ drop offset all_links
  unfolding shown
  shown-drop offset =
      ap (λ t. shown offset ++ t) (drop-add offset (length (shown offset)) all_links)
      ∙ take-drop limit (drop offset all_links)

  -- pages from an offset on, no more than the bound
  abbrev Left : ℕ → ℕ → Type 0
  Left offset bound =
      (count : ℕ) × (count ≤ bound)
      × Pages query domain limit all_links offset count (drop offset all_links)

  -- the page behind which nothing is left
  last-Left :
      (offset bound : ℕ)
      → ltb (offset + length (shown offset)) (length all_links) ≡ false
      → Left offset (suc bound)
  unfolding page_of shown
  last-Left offset bound done =
      let end = offset + length (shown offset) in
      let whole : shown offset ≡ drop offset all_links =
        sym (append_nil (shown offset))
        ∙ ap (λ t. shown offset ++ t) (sym (drop-all end all_links (ground arith)))
        ∙ shown-drop offset in
      (
        1,
        omega arith,
        subst (Pages query domain limit all_links offset 1) whole (last (rw done refl)),
      )

  -- a page, and those from its end on
  next-Left :
      (offset bound : ℕ)
      → ltb (offset + length (shown offset)) (length all_links) ≡ true
      → Left (offset + length (shown offset)) bound
      → Left offset (suc bound)
  unfolding page_of shown
  next-Left offset bound more (count, few, pages) = (
    suc count,
    omega arith,
    subst (Pages query domain limit all_links offset (suc count)) (shown-drop offset)
        (next (rw more refl) pages),
  )

  length-shown : (offset : ℕ) → 0 < limit → offset < length all_links → 0 < length (shown offset)
  unfolding shown
  length-shown offset h there =
      length-take_pos limit (drop offset all_links) h (omega (arith, length-drop offset all_links))

  pages-Left :
      (bound offset : ℕ) → 0 < limit → length all_links ≤ offset + bound → Left offset (suc bound)
  pages-Left zero offset h enough = last-Left offset 0 (ground arith)
  pages-Left (suc bound) offset h enough =
      elim (Bool-cases (ltb (offset + length (shown offset)) (length all_links))) [
        | inl more ↦ next-Left offset (suc bound) more (
            pages-Left bound (offset + length (shown offset)) h
              (ground (arith, length-shown offset h)))
        | inr done ↦ last-Left offset (suc bound) done
      ]

  -- With a page size of at least one, the cursors of the pages of a list of links end: from the
  -- start there is a chain of pages, each at the next cursor of the one before, up to one without a
  -- next cursor. It has at most one page more than there are links, and the links on its pages are
  -- all links, once and in order.
  pub page_of-AreWhole :
      0 < limit
      → (count : ℕ) × (count ≤ suc (length all_links))
        × Pages query domain limit all_links 0 count all_links
  unfolding drop
  page_of-AreWhole h = pages-Left (length all_links) 0 h (omega arith)
