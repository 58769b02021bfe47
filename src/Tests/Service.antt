-- ===== src/Tests/Service.antt =====
-- Two artifacts below a repository, of which a Dockerfile names one, and a boot that fails.
use fireviewer_ai_worker.Common.{ℕ, ◌≤◌, ◌≡◌, String, true, none, some, List, [], ◌∷◌}
use fireviewer_ai_worker.Retention.{LocalFile, ArtifactRecord, Reference}
use fireviewer_ai_worker.Retention.Audit.{AuditRoot, audit_artifacts, audit_manifest}
use fireviewer_ai_worker.Retention.Balance.{sum_of, bytes_of, audit_manifest-IsBalanced}
use fireviewer_ai_worker.Bootstrap.{StatusEvent, updated, failed, after, do_get}
use fireviewer_ai_worker.Bootstrap.Laws.{IsAnswer, do_get-IsAnswer}

abbrev same_text : String → String
same_text s = s

abbrev weights : String → ℕ → LocalFile
weights name size = record {
  path = name;
  parts = "data" ∷ name ∷ [];
  relative = name;
  last_two = none;
  name = name;
  suffix = ".pt";
  is_file = true;
  size = some size;
}

abbrev data_root : AuditRoot
data_root = record {
  is_inside = true;
  exists = true;
  candidates = weights "detector.pt" 90 ∷ weights "old_model.pt" 120 ∷ [];
}

abbrev docker_file : Reference
docker_file = record { path = "Dockerfile"; relative = "dockerfile"; content = "copy detector.pt" }

abbrev two_records : List (ArtifactRecord ℕ)
two_records = audit_artifacts same_text (docker_file ∷ []) [] 50 (data_root ∷ [])

audit_manifest-IsBalanced_example :
    (sum_of (audit_manifest 5000 two_records).totals_by_class ≡ bytes_of two_records)
    × (1 ≤ (audit_manifest 5000 two_records).scratch_budget)
    × ((audit_manifest 5000 two_records).scratch_budget ≤ 21474836480)
    × ((audit_manifest 5000 two_records).scratch_budget ≤ 501)
audit_manifest-IsBalanced_example = audit_manifest-IsBalanced 5000 two_records

abbrev boot : List StatusEvent
boot = failed "OSError" "no space left" ∷ updated "provisioning" ∷ []

do_get-IsAnswer_example : IsAnswer "/readyz" (do_get "/readyz" (after same_text boot))
do_get-IsAnswer_example = do_get-IsAnswer same_text boot "/readyz"
