-- ===== src/Retention/Balance.antt =====
-- The totals of the manifest of artifact_retention.py, and its scratch budget.
use fireviewer_ai_worker.Common.{ℕ, ◌+◌, ◌/◌, ◌≤◌, ◌≡◌, List, [], ◌∷◌, arith}
use fireviewer_ai_worker.Retention.{
  ArtifactClass, active_local, remote_available, legacy_model, rebuildable_cache, unused_dataset,
  unknown, ArtifactRecord, scratch_budget_bytes,
}
use fireviewer_ai_worker.Retention.Audit.{Totals, no_totals, add_total, totals_from, audit_manifest}

-- the sum of the totals, and of the sizes
abbrev pub sum_of : Totals → ℕ
sum_of t = t.active + (t.remote + (t.legacy + (t.cache + (t.unused + t.other))))

unfoldable pub bytes_of : {E : Type 0} → List (ArtifactRecord E) → ℕ
bytes_of [] = 0
bytes_of (r ∷ records) = r.byte_count + bytes_of records

sum_of-add_total :
    (c : ArtifactClass) (n : ℕ) (t : Totals) → sum_of (add_total c n t) ≡ sum_of t + n
sum_of-add_total active_local n t = omega arith
sum_of-add_total remote_available n t = omega arith
sum_of-add_total legacy_model n t = omega arith
sum_of-add_total rebuildable_cache n t = omega arith
sum_of-add_total unused_dataset n t = omega arith
sum_of-add_total unknown n t = omega arith

module _ {E : Type 0} where
  sum_of-totals_from :
      (records : List (ArtifactRecord E)) (t : Totals)
      → sum_of (totals_from records t) ≡ sum_of t + bytes_of records
  unfolding totals_from bytes_of
  sum_of-totals_from [] t = omega arith
  sum_of-totals_from (r ∷ records) t = omega (
    arith,
    sum_of-totals_from records (add_total r.classification r.byte_count t),
    sum_of-add_total r.classification r.byte_count t,
  )

  -- The totals by class add up to the bytes of all records; the scratch budget is at least 1, at
  -- most 20 GiB, and at most one more than a tenth of the free bytes.
  pub audit_manifest-IsBalanced :
      (free : ℕ) (records : List (ArtifactRecord E))
      → (sum_of (audit_manifest free records).totals_by_class ≡ bytes_of records)
        × (1 ≤ (audit_manifest free records).scratch_budget)
        × ((audit_manifest free records).scratch_budget ≤ 21474836480)
        × ((audit_manifest free records).scratch_budget ≤ free / 10 + 1)
  unfolding audit_manifest scratch_budget_bytes
  audit_manifest-IsBalanced free records = (
    omega (arith, sum_of-totals_from records no_totals),
    ground arith,
    ground arith,
    ground arith,
  )
