-- ===== src/Retention/Audit.antt =====
-- artifact_retention.py, lines 171 to 239: the walk over the roots, and the manifest of its records.
use fireviewer_ai_worker.Common.{
  ℕ, ◌+◌, String, Bool, not, ◌&&◌, ◌||◌, Option, none, some, List, [], ◌∷◌, ◌++◌, contains, ltb,
  ◌==◌, if◌then◌else◌,
}
use fireviewer_ai_worker.Common.Dict.{Dict, lookup}
use fireviewer_ai_worker.Common.Sort.{sort_by, insert_by, text_le}
use fireviewer_ai_worker.Retention.{
  ArtifactClass, active_local, remote_available, legacy_model, rebuildable_cache, unused_dataset,
  unknown, LocalFile, ArtifactRecord, Reference, consumers_of, classify, scratch_budget_bytes,
}

-- A root, resolved: whether it lies in the repository and exists, and its files: itself, if it is
-- one, and otherwise what `rglob` finds below it.
pub record AuditRoot : Type 0 where
  pub is_inside : Bool
  pub exists : Bool
  pub candidates : List LocalFile

-- totals_by_class_bytes
pub record Totals : Type 0 where
  pub active : ℕ
  pub remote : ℕ
  pub legacy : ℕ
  pub cache : ℕ
  pub unused : ℕ
  pub other : ℕ

abbrev pub no_totals : Totals
no_totals = record { active = 0; remote = 0; legacy = 0; cache = 0; unused = 0; other = 0 }

-- totals[classification] += byte_count
abbrev pub add_total : ArtifactClass → ℕ → Totals → Totals
add_total active_local n t = record t { active = t.active + n }
add_total remote_available n t = record t { remote = t.remote + n }
add_total legacy_model n t = record t { legacy = t.legacy + n }
add_total rebuildable_cache n t = record t { cache = t.cache + n }
add_total unused_dataset n t = record t { unused = t.unused + n }
add_total unknown n t = record t { other = t.other + n }

-- the dict of audit_manifest, without the time and the root
pub record AuditManifest (E : Type 0) : Type 0 where
  pub scratch_budget : ℕ
  pub totals_by_class : Totals
  pub artifacts : List (ArtifactRecord E)

module _ {E : Type 0} where
  -- the key (-byte_count, path)
  abbrev pub comes_first : ArtifactRecord E → ArtifactRecord E → Bool
  comes_first a b =
      ltb b.byte_count a.byte_count || (a.byte_count == b.byte_count && text_le a.path b.path)

  module _ (casefold : String → String) (references : List Reference) (catalog : Dict E)
      (minimum_bytes : ℕ) where
    -- the record of a file of the size
    unfoldable pub record_of : LocalFile → ℕ → ArtifactRecord E
    unfolding consumers_of classify lookup
    record_of artifact size =
        let remote = lookup (casefold artifact.relative) catalog in
        let consumers = consumers_of casefold artifact references in
        let (classification, reason) = classify casefold artifact consumers remote in
        record {
          path = artifact.relative;
          byte_count = size;
          classification = classification;
          consumers = consumers;
          remote = remote;
          reason = reason;
        }

    abbrev pub sized : LocalFile → Option ℕ → List (ArtifactRecord E) → List (ArtifactRecord E)
    sized artifact none records = records
    sized artifact (some size) records =
        if ltb size minimum_bytes then records else records ++ (record_of artifact size ∷ [])

    -- the loop over the files of a root, with the records and the paths that were seen
    unfoldable pub audit_files :
        List LocalFile
        → List (ArtifactRecord E)
        → List String
        → List (ArtifactRecord E) × List String
    unfolding record_of contains
    audit_files [] records seen = (records, seen)
    audit_files (artifact ∷ more) records seen =
        let skipped = not artifact.is_file || contains artifact.path seen in
        audit_files more (if skipped then records else sized artifact artifact.size records)
          (if skipped then seen else artifact.path ∷ seen)

    -- the loop over the roots
    unfoldable pub audit_roots :
        List AuditRoot → List (ArtifactRecord E) → List String → List (ArtifactRecord E)
    unfolding audit_files
    audit_roots [] records seen = records
    audit_roots (root ∷ roots) records seen =
        let (later, known) =
          audit_files (if root.is_inside && root.exists then root.candidates else []) records
            seen in
        audit_roots roots later known

    -- audit_artifacts
    unfoldable pub audit_artifacts : List AuditRoot → List (ArtifactRecord E)
    unfolding audit_roots sort_by insert_by
    audit_artifacts roots = sort_by comes_first (audit_roots roots [] [])

  unfoldable pub totals_from : List (ArtifactRecord E) → Totals → Totals
  totals_from [] t = t
  totals_from (r ∷ records) t = totals_from records (add_total r.classification r.byte_count t)

  -- audit_manifest, from the free bytes of the disk
  unfoldable pub audit_manifest : ℕ → List (ArtifactRecord E) → AuditManifest E
  unfolding totals_from scratch_budget_bytes
  audit_manifest free records = record {
    scratch_budget = scratch_budget_bytes free;
    totals_by_class = totals_from records no_totals;
    artifacts = records;
  }
