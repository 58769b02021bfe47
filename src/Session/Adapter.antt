-- ===== src/Session/Adapter.antt =====
-- What a candidate's execution uses of its surroundings, and `_candidate_payload` of
-- session_runner.py, lines 90 to 114.
use fireviewer_ai_worker.Common.{
  ℕ, String, Bool, true, false, Option, none, some, List, [], ◌∷◌, if◌then◌else◌,
}
use fireviewer_ai_worker.Common.Exec.{
  Exception, model_output_error, output_validation_error, Result,
}
use fireviewer_ai_worker.Common.Dict.{keys, lookup}
use fireviewer_ai_worker.Common.Json.{Json, text, array, items_of, Payload}
use fireviewer_ai_worker.Common.Sort.{sort_texts}
use fireviewer_ai_worker.Contracts.{BatchItem}
use fireviewer_ai_worker.Registry.{ModelSpec}
use fireviewer_ai_worker.Validation.{OutputScreen}
use fireviewer_ai_worker.Session.Merge.{ItemPatch, Patches}
use fireviewer_ai_worker.Session.Effects.{Events}

-- A `ModelAdapter` as one execution sees it: how `load` ends, what `infer` answers to the items and
-- the accumulated patches with `correction` off and on, how `unload` ends, and the measurements of
-- the clock and of the CUDA runtime. A `synchronize_cuda` counts as the end of the call before it.
pub record Adapter (R : Type 0) : Type 0 where
  pub load : Option Exception
  pub load_ms : ℕ
  pub infer : Bool → List (BatchItem R) → Patches R → Result (Patches R)
  pub infer_ms : Bool → ℕ
  pub infer_peak : Bool → Option ℕ
  pub final_peak : Option ℕ
  pub unload : Option Exception

-- What `_execute_candidate` uses of its surroundings. `create` may answer by what happened before.
pub record CandidateWorld (R : Type 0) : Type 0 where
  pub create : Events → ModelSpec → Result (Adapter R)
  pub screen : OutputScreen R
  -- _json_digest, which is `_json_sha256_v2` of contracts.py
  pub json_digest : Payload R → String
  -- the JSON of the fields of a patch that are not None
  pub dump_patch : String → ItemPatch R → Json R

-- the `except` clauses: (ModelOutputError, OutputValidationError), and Exception
abbrev pub is_output_error : Exception → Bool
is_output_error model_output_error = true
is_output_error (output_validation_error _) = true
is_output_error _ = false

abbrev pub error_code_of : Exception → String
error_code_of e = if is_output_error e then "invalid_model_output" else "model_runtime_error"

module _ {R : Type 0} where
  -- the items of the payload, by sorted id
  unfoldable pub payload_items :
      (String → ItemPatch R → Json R) → Patches R → List String → List (Json R)
  payload_items dump patches [] = []
  payload_items dump patches (id ∷ ids) =
      let rest = payload_items dump patches ids in
      elim (lookup id patches) [ none ↦ rest | some p ↦ dump id p ∷ rest ]

  -- _candidate_payload
  unfoldable pub candidate_payload : (String → ItemPatch R → Json R) → Patches R → Payload R
  unfolding payload_items
  candidate_payload dump patches =
      ("schema_version", text "candidate-patch-v1")
      ∷ ("items", array (items_of (payload_items dump patches (sort_texts (keys patches)))))
      ∷ []
