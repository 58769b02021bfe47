-- ===== src/Retention/Order.antt =====
-- The order of the records of an audit: sorting keeps what holds of each, and puts the largest first.
use fireviewer_ai_worker.Common.{
  length, suc, ap, ◌∙◌, ℕ, ◌≤◌, ◌≡◌, refl, Bool, true, false, List, [], ◌∷◌, arith, All,
  if◌then◌else◌,
}
use fireviewer_ai_worker.Common.Sort.{sort_by, insert_by}
use fireviewer_ai_worker.Retention.{ArtifactRecord}
use fireviewer_ai_worker.Retention.Audit.{comes_first}

-- the largest record stands first
abbrev pub IsDescending : {E : Type 0} → List (ArtifactRecord E) → Type 0
IsDescending [] = Unit
IsDescending (r ∷ records) =
    All (λ later. later.byte_count ≤ r.byte_count) records × IsDescending records

module _ {E : Type 0} where
  All-insert_by :
      (P : ArtifactRecord E → Type 0) (before : ArtifactRecord E → ArtifactRecord E → Bool)
      (r : ArtifactRecord E) (records : List (ArtifactRecord E))
      → P r
      → All P records
      → All P (insert_by before r records)
  unfolding insert_by
  All-insert_by P before r [] h _ = (h, tt)
  All-insert_by P before r (s ∷ records) h (g, gs) =
      elim (before r s)
        as (λ b. All P (if b then r ∷ s ∷ records else s ∷ insert_by before r records)) [
          | true ↦ (h, (g, gs))
          | false ↦ (g, All-insert_by P before r records h gs)
        ]

  pub All-sort_by :
      (P : ArtifactRecord E → Type 0) (before : ArtifactRecord E → ArtifactRecord E → Bool)
      (records : List (ArtifactRecord E))
      → All P records
      → All P (sort_by before records)
  unfolding sort_by
  All-sort_by P before [] h = tt
  All-sort_by P before (r ∷ records) (h, hs) =
      All-insert_by P before r (sort_by before records) h (All-sort_by P before records hs)

  below-All :
      (m n : ℕ) (records : List (ArtifactRecord E))
      → m ≤ n
      → All (λ later. later.byte_count ≤ m) records
      → All (λ later. later.byte_count ≤ n) records
  below-All m n [] h _ = tt
  below-All m n (r ∷ records) h (g, gs) = (omega arith, below-All m n records h gs)

  insert_by-IsDescending :
      (r : ArtifactRecord E) (records : List (ArtifactRecord E))
      → IsDescending records
      → IsDescending (insert_by comes_first r records)
  unfolding insert_by
  insert_by-IsDescending r [] _ = (tt, tt)
  insert_by-IsDescending r (s ∷ records) (h, hs) =
      placed (comes_first r s) refl (insert_by-IsDescending r records hs)
    where
      placed :
          (b : Bool)
          → comes_first r s ≡ b
          → IsDescending (insert_by comes_first r records)
          → IsDescending (if b then r ∷ s ∷ records else s ∷ insert_by comes_first r records)
      placed true e later =
          let above : s.byte_count ≤ r.byte_count = ground arith in
          ((above, below-All s.byte_count r.byte_count records above h), (h, hs))
      placed false e later = (
        All-insert_by (λ later. later.byte_count ≤ s.byte_count) comes_first r records
            (ground arith) h,
        later,
      )

  pub sort_by-IsDescending :
      (records : List (ArtifactRecord E)) → IsDescending (sort_by comes_first records)
  unfolding sort_by
  sort_by-IsDescending [] = tt
  sort_by-IsDescending (r ∷ records) =
      insert_by-IsDescending r (sort_by comes_first records) (sort_by-IsDescending records)

  length-insert_by :
      (before : ArtifactRecord E → ArtifactRecord E → Bool) (r : ArtifactRecord E)
      (records : List (ArtifactRecord E))
      → length (insert_by before r records) ≡ suc (length records)
  unfolding insert_by
  length-insert_by before r [] = refl
  length-insert_by before r (s ∷ records) = ground (arith, length-insert_by before r records)

  pub length-sort_by :
      (before : ArtifactRecord E → ArtifactRecord E → Bool) (records : List (ArtifactRecord E))
      → length (sort_by before records) ≡ length records
  unfolding sort_by
  length-sort_by before [] = refl
  length-sort_by before (r ∷ records) =
      length-insert_by before r (sort_by before records) ∙ ap suc (length-sort_by before records)
