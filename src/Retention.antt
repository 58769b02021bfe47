-- ===== src/Retention.antt =====
-- artifact_retention.py: the inventory of heavy local artifacts, and which of them are still used.
pub mod Audit
pub mod Order
pub mod Consumers
pub mod Laws
pub mod Balance
use fireviewer_ai_worker.Common.{
  ℕ, ◌*◌, ◌/◌, String, Bool, true, false, not, ◌&&◌, ◌||◌, Option, none, some, List, [], ◌∷◌, ◌++◌,
  any, keep, contains, nonempty, is_some, leb, ltb, length, str_eq, starts_with, if◌then◌else◌, map,
}
use fireviewer_ai_worker.Common.Sort.{to_set, sort_texts, sort_by, insert_by, intersection}
use fireviewer_ai_worker.Common.Strings.{text_length, occurs_in}

-- ArtifactClass
pub data ArtifactClass : Type 0 where
  active_local remote_available legacy_model rebuildable_cache unused_dataset unknown :
      ArtifactClass

-- A file below the repository: its path, absolute, by its parts, and relative to the root, with what
-- pathlib tells of it. `size` is none where `stat` raises an OSError.
pub record LocalFile : Type 0 where
  pub path : String
  pub parts : List String
  pub relative : String
  -- "/".join(parts[-2:]) of the relative path, where it has two parts
  pub last_two : Option String
  pub name : String
  pub suffix : String
  pub is_file : Bool
  pub size : Option ℕ

-- an entry of the remote catalog is a dict of which only its presence counts
pub record ArtifactRecord (E : Type 0) : Type 0 where
  pub path : String
  pub byte_count : ℕ
  pub classification : ArtifactClass
  pub consumers : List String
  pub remote : Option E
  pub reason : String

-- an entry of the reference index: the path, the same relative to the root, and the folded text
pub record Reference : Type 0 where
  pub path : String
  pub relative : String
  pub content : String

abbrev pub model_suffixes : List String
model_suffixes = ".bin" ∷ ".ckpt" ∷ ".onnx" ∷ ".pt" ∷ ".pth" ∷ ".safetensors" ∷ []

abbrev pub dataset_suffixes : List String
dataset_suffixes = ".arrow" ∷ ".csv" ∷ ".h5" ∷ ".hdf5" ∷ ".jsonl" ∷ ".parquet" ∷ []

abbrev pub cache_names : List String
cache_names = ".cache" ∷ ".hf" ∷ ".pytest_cache" ∷ "__pycache__" ∷ "cache" ∷ "caches" ∷ []

abbrev pub generic_names : List String
generic_names =
    "checkpoint.ckpt" ∷ "config.json" ∷ "model.bin" ∷ "model.onnx" ∷ "model.pt" ∷ "model.pth"
    ∷ "model.safetensors" ∷ []

-- MAX_SCRATCH_BYTES
abbrev pub max_scratch_bytes : ℕ
max_scratch_bytes = 21474836480

abbrev min_of : ℕ → ℕ → ℕ
min_of a b = if ltb b a then b else a

abbrev max_of : ℕ → ℕ → ℕ
max_of a b = if ltb a b then b else a

-- scratch_budget_bytes, from the free bytes of the disk
unfoldable pub scratch_budget_bytes : ℕ → ℕ
scratch_budget_bytes free = max_of 1 (min_of max_scratch_bytes (free / 10))

-- the returns of _classify, by the conditions in their order
abbrev pub first_class : (cached used recorded model dataset : Bool) → ArtifactClass × String
first_class cached used recorded model dataset =
    if cached
    then (rebuildable_cache, "artifact is stored in a rebuildable cache")
    else if used
    then (active_local, "referenced by current runtime or container source")
    else if recorded
    then (remote_available, "an immutable remote artifact is recorded")
    else if model
    then (legacy_model, "model artifact has no current runtime consumer")
    else if dataset
    then (unused_dataset, "dataset shard has no current runtime consumer")
    else (unknown, "artifact requires manual identification before removal")

-- `casefold` is a parameter
module _ (casefold : String → String) where
  -- _is_runtime_consumer
  unfoldable pub is_runtime_consumer : String → Bool
  is_runtime_consumer value =
      starts_with (casefold value) "src/" || starts_with (casefold value) "dockerfile"

  abbrev optional : Bool → String → List String
  optional true s = s ∷ []
  optional false s = []

  abbrev optional_of : Option String → List String
  optional_of none = []
  optional_of (some s) = casefold s ∷ []

  -- the set `needles` of _consumers
  unfoldable pub needles_of : LocalFile → List String
  unfolding contains
  needles_of artifact =
      (casefold artifact.relative ∷ [])
      ++ (optional (not (contains (casefold artifact.name) generic_names)) (casefold artifact.name)
          ++ optional_of artifact.last_two)

  -- a needle that is long enough stands in the text
  unfoldable pub is_referenced : List String → String → Bool
  unfolding any occurs_in
  is_referenced needles content =
      any (λ needle. leb 6 (text_length needle) && occurs_in needle content) needles

  -- _consumers
  unfoldable pub consumers_of : LocalFile → List Reference → List String
  unfolding needles_of is_referenced keep to_set sort_by insert_by
  consumers_of artifact references = sort_texts (
      to_set (
        map (λ r. r.relative)
          (keep
            (λ r.
              not (str_eq r.path artifact.path) && is_referenced (needles_of artifact) r.content)
            references)))

  -- _classify
  unfoldable pub classify :
      {E : Type 0} → LocalFile → List String → Option E → ArtifactClass × String
  unfolding contains keep is_runtime_consumer
  classify artifact consumers remote =
      first_class (nonempty (intersection (map casefold artifact.parts) cache_names))
        (nonempty (keep is_runtime_consumer consumers)) (is_some remote)
        (contains (casefold artifact.suffix) model_suffixes)
        (contains (casefold artifact.suffix) dataset_suffixes)
