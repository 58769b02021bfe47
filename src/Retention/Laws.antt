-- ===== src/Retention/Laws.antt =====
-- What the inventory guarantees of its records, and that it drops no heavy file.
use fireviewer_ai_worker.Common.{
  ℕ, ◌≤◌, ◌≡◌, String, Bool, true, false, not, ◌&&◌, ◌||◌, none, some, List, [], ◌∷◌, ◌++◌, any,
  is_some, leb, contains, str_eq, get_elem?, if◌then◌else◌,
}
use fireviewer_ai_worker.Common.Dict.{Dict, lookup}
use fireviewer_ai_worker.Retention.{LocalFile, ArtifactRecord, Reference}
use fireviewer_ai_worker.Retention.Consumers.{names, is_cached, is_used, IsClassified}
use fireviewer_ai_worker.Retention.Audit.{AuditRoot, audit_files}

-- the files of the roots that are there
unfoldable pub files_of : List AuditRoot → List LocalFile
files_of [] = []
files_of (root ∷ roots) =
    (if root.is_inside && root.exists then root.candidates else []) ++ files_of roots

-- the files, each path once, beside those that were seen
unfoldable pub first_files : List String → List LocalFile → List LocalFile
unfolding contains
first_files seen [] = []
first_files seen (f ∷ files) =
    if not f.is_file || contains f.path seen
    then first_files seen files
    else f ∷ first_files (f.path ∷ seen) files

-- a size that is known and large enough
abbrev pub is_heavy : ℕ → LocalFile → Bool
is_heavy minimum f = elim f.size [ none ↦ false | some size ↦ leb minimum size ]

abbrev pub IsIn : List LocalFile → LocalFile → Type 0
IsIn files f = (i : ℕ) × (get_elem? files i ≡ some f)

module _ {E : Type 0} (casefold : String → String) (references : List Reference) (catalog : Dict E)
    (minimum : ℕ) where
  -- the record of a heavy file: its consumers are the references that name it, its entry is that of
  -- its path, and its class follows from its path, the references and the entry
  pub record IsAudited (files : List LocalFile) (r : ArtifactRecord E) : Type 0 where
    pub artifact : LocalFile
    pub place : IsIn files artifact
    pub is_file : artifact.is_file ≡ true
    pub path : r.path ≡ artifact.relative
    pub size : artifact.size ≡ some r.byte_count
    pub heavy : minimum ≤ r.byte_count
    pub consumers :
        (name : String)
        → contains name r.consumers
          ≡ any (λ other. names casefold artifact other && str_eq name other.relative) references
    pub remote : r.remote ≡ lookup (casefold artifact.relative) catalog
    pub classified :
        IsClassified casefold
          (is_cached casefold artifact)
          (is_used casefold artifact references)
          (is_some r.remote)
          r.classification

  abbrev audited :
      List LocalFile → List (ArtifactRecord E) → List String → List (ArtifactRecord E) × List String
  audited = audit_files casefold references catalog minimum
