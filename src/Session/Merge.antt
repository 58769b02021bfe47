-- ===== src/Session/Merge.antt =====
-- session_runner.py, lines 177 to 242: how an adapter's patches become results, and adapters.py's
-- `ItemPatch`.
use fireviewer_ai_worker.Common.{
  ℕ, ◌+◌, Option, none, some, List, [], ◌∷◌, ltb, if◌then◌else◌, length, count_of,
}
use fireviewer_ai_worker.Common.Exec.{
  output_validation_error, key_error, Result, ok, err, ◌>>=◌, ◌>>◌,
}
use fireviewer_ai_worker.Common.Dict.{Dict, lookup, insert}
use fireviewer_ai_worker.Stage.{PipelineRole, asr, fire_detection, visual_grounding}
use fireviewer_ai_worker.Stage.Capabilities.{is_detection, is_grounding}
use fireviewer_ai_worker.Contracts.{
  BatchItem, ItemResult, Transcript, PixelRegion, VisualEvidenceSelection, FactualObservation,
  ExplicitLiteral,
}
use fireviewer_ai_worker.Consensus.{Results}
use fireviewer_ai_worker.Validation.{OutputScreen, validate_item_result}

-- ItemPatch of adapters.py
pub record ItemPatch (R : Type 0) : Type 0 where
  pub transcript : Option (Transcript R)
  pub pixel_regions : Option (List (PixelRegion R))
  pub visual_evidence_selection : Option (List (VisualEvidenceSelection R))
  pub factual_observations : Option (List FactualObservation)
  pub explicit_places : Option (List ExplicitLiteral)
  pub explicit_times : Option (List ExplicitLiteral)

abbrev pub Patches : Type 0 → Type 0
Patches R = Dict (ItemPatch R)

abbrev pub or_else {ℓ} : {A : Type ℓ} → Option A → A → A
or_else none a = a
or_else (some b) a = b

module _ {R : Type 0} where
  -- _as_patch
  unfoldable pub as_patch : ItemResult R → ItemPatch R
  as_patch r = record {
    transcript = some r.transcript;
    pixel_regions = some r.pixel_regions;
    visual_evidence_selection = some r.visual_evidence_selection;
    factual_observations = some r.factual_observations;
    explicit_places = some r.explicit_places;
    explicit_times = some r.explicit_times;
  }

  -- {input_id: _as_patch(result) for input_id, result in base_results.items()}
  unfoldable pub as_patches : Results R → Patches R
  unfolding as_patch
  as_patches [] = []
  as_patches ((id, r) ∷ rest) = (id, as_patch r) ∷ as_patches rest

  -- _merge: a field that the patch leaves None stays as it is
  unfoldable pub merge : ItemResult R → ItemPatch R → ItemResult R
  merge r p = record r {
    transcript = or_else p.transcript r.transcript;
    pixel_regions = or_else p.pixel_regions r.pixel_regions;
    visual_evidence_selection = or_else p.visual_evidence_selection r.visual_evidence_selection;
    factual_observations = or_else p.factual_observations r.factual_observations;
    explicit_places = or_else p.explicit_places r.explicit_places;
    explicit_times = or_else p.explicit_times r.explicit_times;
  }

  -- the loop over the patches
  unfoldable pub merge_all : Patches R → Results R → Result (Results R)
  unfolding merge
  merge_all [] candidate = ok candidate
  merge_all ((id, patch) ∷ patches) candidate =
      let merged = λ (r : ItemResult R). merge_all patches (insert id (merge r patch) candidate) in
      elim (lookup id candidate) [
        | none ↦ err (output_validation_error "adapter returned unknown input_id")
        | some r ↦ merged r
      ]

  -- the loop over the items of the batch
  unfoldable pub validate_all : OutputScreen R → List (BatchItem R) → Results R → Result (Unit {0})
  validate_all screen [] candidate = ok tt
  validate_all screen (item ∷ items) candidate = elim (lookup item.input_id candidate) [
    | none ↦ err (key_error item.input_id)
    | some r ↦ validate_item_result screen item r >> validate_all screen items candidate
  ]

  -- _validated_candidates
  unfoldable pub validated_candidates :
      OutputScreen R → List (BatchItem R) → Results R → Patches R → Result (Results R)
  unfolding merge_all validate_all
  validated_candidates screen items results patches = do
    candidate ← merge_all patches results
    validate_all screen items candidate
    ok candidate

  -- `_validated_candidates` of what `adapter.infer` has answered
  unfoldable pub validated_answer :
      OutputScreen R
      → List (BatchItem R)
      → Results R
      → Result (Patches R)
      → Result (Patches R × Results R)
  unfolding validated_candidates
  validated_answer screen items base answer = do
    patches ← answer
    results ← validated_candidates screen items base patches
    ok (patches, results)

  -- the count of one result in `_maximum_stage_output_items`
  unfoldable pub stage_output_items : PipelineRole → ItemResult R → ℕ
  stage_output_items asr r = length r.transcript.segments
  stage_output_items fire_detection r =
      count_of (λ p. is_detection p.task) r.pixel_regions + length r.visual_evidence_selection
  stage_output_items visual_grounding r = count_of (λ p. is_grounding p.task) r.pixel_regions
  stage_output_items _ r =
      length r.factual_observations + length r.explicit_places + length r.explicit_times

  -- _maximum_stage_output_items, on the values of the results
  unfoldable pub maximum_stage_output_items : PipelineRole → List (ItemResult R) → ℕ
  unfolding stage_output_items
  maximum_stage_output_items role [] = 0
  maximum_stage_output_items role (r ∷ rs) =
      let rest = maximum_stage_output_items role rs in
      let here = stage_output_items role r in if ltb rest here then here else rest
