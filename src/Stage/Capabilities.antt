-- ===== src/Stage/Capabilities.antt =====
-- stage_gates.py, lines 42 to 94: the capabilities that a batch and its results give, as a set, and
-- the tests that the gates make of such sets. A frozenset is its membership test.
use fireviewer_ai_worker.Common.{
  Bool, true, false, not, ◌&&◌, ◌||◌, Option, none, some, List, [], ◌∷◌, is_some, any, keep,
  nonempty, str_eq,
}
use fireviewer_ai_worker.Stage.{
  StageRole, StageCapability, StageContract, capability_value, research_request, time_cutoff,
  network_broker, source_candidates, audio_input, visual_input, text_input, transcript,
  selected_visual, detection_regions, grounded_regions, factual_observations, fire_point_pixel,
  satellite_multispectral, burned_area_geometry, explicit_abstention, reference_bundle,
  spatial_matches, camera_pose, terrain_reference, spatial_proposals, evidence_graph, report_draft,
}
use fireviewer_ai_worker.Contracts.{WorkerInput, ItemResult, RegionTask, fire_detection}
use fireviewer_ai_worker.Contracts.Validators.{truthy}

-- frozenset[StageCapability]
abbrev pub Capabilities : Type 0
Capabilities = StageCapability → Bool

abbrev pub is_detection : RegionTask → Bool
is_detection fire_detection = true
is_detection _ = false

-- region.task in {"phrase_grounding", "ocr"}
abbrev pub is_grounding : RegionTask → Bool
is_grounding fire_detection = false
is_grounding _ = true

module _ {R : Type 0} where
  -- derive_capabilities(batch, results), `results` by its values
  unfoldable pub derive_capabilities : WorkerInput R → List (ItemResult R) → Capabilities
  derive_capabilities batch results audio_input = any (λ b. is_some b.audio_url) batch.items
  derive_capabilities batch results visual_input =
      any (λ b. is_some b.working_file_url || nonempty b.frames) batch.items
  derive_capabilities batch results text_input = any (λ b. truthy b.article_text) batch.items
  derive_capabilities batch results transcript = any (λ r. nonempty r.transcript.segments) results
  derive_capabilities batch results selected_visual =
      any (λ r. any (λ s. s.selected_for_grounding) r.visual_evidence_selection) results
  derive_capabilities batch results detection_regions =
      any (λ r. any (λ p. is_detection p.task) r.pixel_regions) results
  derive_capabilities batch results grounded_regions =
      any (λ r. any (λ p. is_grounding p.task) r.pixel_regions) results
  derive_capabilities batch results factual_observations =
      any (λ r. nonempty r.factual_observations) results
  derive_capabilities batch results _ = false

-- every capability, in the order of the values
abbrev pub by_value : List StageCapability
by_value =
    audio_input ∷ burned_area_geometry ∷ camera_pose ∷ detection_regions ∷ evidence_graph
    ∷ explicit_abstention ∷ factual_observations ∷ fire_point_pixel ∷ grounded_regions
    ∷ network_broker ∷ reference_bundle ∷ report_draft ∷ research_request ∷ satellite_multispectral
    ∷ selected_visual ∷ source_candidates ∷ spatial_matches ∷ spatial_proposals ∷ terrain_reference
    ∷ text_input ∷ time_cutoff ∷ transcript ∷ visual_input ∷ []

-- _ordered(capabilities): the members, sorted by value
unfoldable pub ordered : Capabilities → List StageCapability
unfolding keep
ordered s = keep s by_value

-- capability == other, by the values
abbrev pub same_capability : StageCapability → StageCapability → Bool
same_capability a b = str_eq (capability_value a) (capability_value b)

-- capability in group
unfoldable pub among : List StageCapability → Capabilities
among group c = any (same_capability c) group

-- capabilities.intersection(group) is not empty
unfoldable pub meets : Capabilities → List StageCapability → Bool
meets s group = any s group

-- the set that `_missing_requirements` sorts
unfoldable pub missing_set : StageContract → Capabilities → Capabilities
unfolding among meets
missing_set contract s c =
    (among contract.required_all c && not (s c))
    || ((nonempty contract.required_any && not (meets s contract.required_any))
        && among contract.required_any c)

-- _missing_requirements(contract, capabilities)
unfoldable pub missing_requirements : StageContract → Capabilities → List StageCapability
unfolding missing_set ordered
missing_requirements contract s = ordered (missing_set contract s)

-- the dict `direct_input` of `_is_not_applicable`
abbrev direct_input : StageRole → Option StageCapability
direct_input StageRole.asr = some audio_input
direct_input StageRole.fire_detection = some visual_input
direct_input StageRole.visual_grounding = some visual_input
direct_input StageRole.fire_pointing = some visual_input
direct_input _ = none

-- _is_not_applicable(role, capabilities)
unfoldable pub is_not_applicable : StageRole → Capabilities → Bool
is_not_applicable role s = elim (direct_input role) [ none ↦ false | some c ↦ not (s c) ]
