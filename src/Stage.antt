-- ===== src/Stage.antt =====
-- src/firewarning_worker/stage_contracts.py: the roles of the orchestration, the capabilities that
-- evidence gives, and the contract of one stage with its validator.
pub mod Capabilities
pub mod Members
pub mod Gates
use fireviewer_ai_worker.Common.{
  ℕ, String, Bool, true, false, not, ◌&&◌, Option, none, some, List, [], ◌∷◌, map, ltb,
  if◌then◌else◌, is_some, all, any, contains, is_unique, ◌==◌,
}
use fireviewer_ai_worker.Common.Exec.{
  Exception, value_error, Result, ok, err, ◌>>=◌, ◌>>◌, raise_if,
}

pub data StageRole : Type 0 where
  source_research asr fire_detection visual_grounding multimodal_extraction : StageRole
  fire_pointing burned_area cross_view_registration spatial_projection : StageRole
  evidence_fusion situation_report : StageRole

-- The roles of the media session: the Literals `PipelineModelRole` of session_runner.py and
-- `PipelineRole` of consensus.py.
pub data PipelineRole : Type 0 where
  asr fire_detection visual_grounding multimodal_extraction : PipelineRole

-- StageRole(role)
abbrev pub to_stage : PipelineRole → StageRole
to_stage PipelineRole.asr = StageRole.asr
to_stage PipelineRole.fire_detection = StageRole.fire_detection
to_stage PipelineRole.visual_grounding = StageRole.visual_grounding
to_stage PipelineRole.multimodal_extraction = StageRole.multimodal_extraction

-- StageRole.value
abbrev pub role_value : StageRole → String
role_value source_research = "source_research"
role_value StageRole.asr = "asr"
role_value StageRole.fire_detection = "fire_detection"
role_value StageRole.visual_grounding = "visual_grounding"
role_value StageRole.multimodal_extraction = "multimodal_extraction"
role_value fire_pointing = "fire_pointing"
role_value burned_area = "burned_area"
role_value cross_view_registration = "cross_view_registration"
role_value spatial_projection = "spatial_projection"
role_value evidence_fusion = "evidence_fusion"
role_value situation_report = "situation_report"

pub data StageCapability : Type 0 where
  research_request time_cutoff network_broker source_candidates : StageCapability
  audio_input visual_input text_input transcript selected_visual : StageCapability
  detection_regions grounded_regions factual_observations fire_point_pixel : StageCapability
  satellite_multispectral burned_area_geometry explicit_abstention : StageCapability
  reference_bundle spatial_matches camera_pose terrain_reference : StageCapability
  spatial_proposals evidence_graph report_draft : StageCapability

-- StageCapability.value
abbrev pub capability_value : StageCapability → String
capability_value research_request = "research_request"
capability_value time_cutoff = "time_cutoff"
capability_value network_broker = "network_broker"
capability_value source_candidates = "source_candidates"
capability_value audio_input = "audio_input"
capability_value visual_input = "visual_input"
capability_value text_input = "text_input"
capability_value transcript = "transcript"
capability_value selected_visual = "selected_visual"
capability_value detection_regions = "detection_regions"
capability_value grounded_regions = "grounded_regions"
capability_value factual_observations = "factual_observations"
capability_value fire_point_pixel = "fire_point_pixel"
capability_value satellite_multispectral = "satellite_multispectral"
capability_value burned_area_geometry = "burned_area_geometry"
capability_value explicit_abstention = "explicit_abstention"
capability_value reference_bundle = "reference_bundle"
capability_value spatial_matches = "spatial_matches"
capability_value camera_pose = "camera_pose"
capability_value terrain_reference = "terrain_reference"
capability_value spatial_proposals = "spatial_proposals"
capability_value evidence_graph = "evidence_graph"
capability_value report_draft = "report_draft"

pub data FailurePolicy : Type 0 where
  block continue_degraded human_review : FailurePolicy

pub data ExecutionKind : Type 0 where
  model deterministic orchestration : ExecutionKind

pub record StageContract : Type 0 where
  pub contract_id : String
  pub role : StageRole
  pub execution_kind : ExecutionKind
  pub model_binding : Option String
  pub required_all : List StageCapability
  pub required_any : List StageCapability
  pub produces : List StageCapability
  pub minimum_output_any : List StageCapability
  pub instructions : List String
  pub forbidden_outputs : List String
  pub max_input_items : ℕ
  pub max_output_items_per_input : ℕ
  pub max_wall_time_seconds : ℕ
  pub max_repair_attempts : ℕ
  pub failure_policy : FailurePolicy
  pub skip_when_not_applicable : Bool
  pub downstream_roles : List StageRole

abbrev values_of : List StageCapability → List String
values_of = map capability_value

abbrev is_model : ExecutionKind → Bool
is_model model = true
is_model _ = false

-- StageContract.validate_contract. Two members of an enum are one exactly if their values are.
unfoldable pub validate_contract : StageContract → Result (Unit {0})
validate_contract c = do
  raise_if
      (not (
        is_unique (values_of c.required_all)
        && (is_unique (values_of c.required_any)
            && (is_unique (values_of c.produces)
                && (is_unique (values_of c.minimum_output_any)
                    && is_unique (map role_value c.downstream_roles))))))
      (value_error "stage contract lists must not contain duplicates")
  raise_if
      (not (all (λ m. contains (capability_value m) (values_of c.produces)) c.minimum_output_any))
      (value_error "minimum_output_any must be a subset of produces")
  raise_if (contains (role_value c.role) (map role_value c.downstream_roles))
      (value_error "a stage cannot list itself as a downstream role")
  raise_if (is_model c.execution_kind && not (is_some c.model_binding))
      (value_error "model stages require a model_binding")
  raise_if (not (is_model c.execution_kind) && is_some c.model_binding)
      (value_error "only model stages may define model_binding")
  raise_if (not (is_model c.execution_kind) && ltb 0 c.max_repair_attempts)
      (value_error "non-model stages cannot request model repairs")
