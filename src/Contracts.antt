-- ===== src/Contracts.antt =====
-- src/firewarning_worker/contracts.py, lines 15 to 270: the messages of one worker batch. `R` is
-- the type of floats. A URL is its text; a datetime is its instant with whether it has an offset.
pub mod Validators
pub mod Trace
use fireviewer_ai_worker.Common.{ℕ, String, Bool, Option, none, List, []}
use fireviewer_ai_worker.Stage.{PipelineRole}

pub record Datetime : Type 0 where
  pub instant : ℕ
  pub aware : Bool

pub data BatchType : Type 0 where
  user_media external_media satellite_media : BatchType

pub data Priority : Type 0 where
  user_deadline scheduled_combined scheduled : Priority

pub data MediaType : Type 0 where
  image video audio article satellite_image satellite_data : MediaType

pub data LocationOrigin : Type 0 where
  metadata user_declared explicit_source_geometry human_confirmed : LocationOrigin

pub data LocationStatus : Type 0 where
  no_location capture_location_only user_declared_observation_location : LocationStatus
  explicit_source_geometry human_confirmed_observation_location : LocationStatus

pub record InputMetadata (R : Type 0) : Type 0 where
  pub captured_at : Option Datetime
  pub latitude : Option R
  pub longitude : Option R
  pub gps_accuracy_m : Option R
  pub location_origin : Option LocationOrigin

pub record FrameInput (R : Type 0) : Type 0 where
  pub frame_id : String
  pub timestamp_s : R
  pub working_file_url : String

pub data LocationMode : Type 0 where
  place device manual : LocationMode

pub record DeclaredObservation (R : Type 0) : Type 0 where
  pub observed_at : Datetime
  pub observation_type : String
  pub direct_observation : Bool
  pub description : String
  pub location_mode : LocationMode
  pub location_label : Option String
  pub latitude : Option R
  pub longitude : Option R
  pub uncertainty_m : Option R
  pub media_captured_at : Option Datetime
  pub media_direction : Option String

pub data Trust : Type 0 where
  unverified partner institutional operator : Trust

pub data SourceConfidence : Type 0 where
  a_plus a b lead : SourceConfidence

pub record SourceContext (R : Type 0) : Type 0 where
  pub source_reference_url : Option String
  pub attribution : Option String
  pub trust : Option Trust
  pub source_kind : Option String
  pub source_confidence : Option SourceConfidence
  pub publication_policy : Option String
  pub claim_types : List String
  pub declared_observation : Option (DeclaredObservation R)

pub record BatchItem (R : Type 0) : Type 0 where
  pub input_id : String
  pub media_type : MediaType
  pub working_file_url : Option String
  pub metadata : InputMetadata R
  pub frames : List (FrameInput R)
  pub audio_url : Option String
  pub article_text : Option String
  pub source_context : Option (SourceContext R)

pub record WorkerInput (R : Type 0) : Type 0 where
  pub batch_id : String
  pub batch_type : BatchType
  pub priority : Priority
  pub deadline_at : Option Datetime
  pub items : List (BatchItem R)

pub record TranscriptSegment (R : Type 0) : Type 0 where
  pub segment_id : String
  pub start_s : R
  pub end_s : R
  pub text : String
  pub uncertain : Bool

pub record Transcript (R : Type 0) : Type 0 where
  pub language : Option String
  pub segments : List (TranscriptSegment R)

pub data RegionTask : Type 0 where
  fire_detection phrase_grounding ocr : RegionTask

-- `bbox_normalized` is the tuple (x1, y1, x2, y2).
pub record PixelRegion (R : Type 0) : Type 0 where
  pub region_id : String
  pub evidence_id : String
  pub label : String
  pub bbox_normalized : R × R × R × R
  pub task : RegionTask
  pub model_score : Option R

pub data SelectionReason : Type 0 where
  single_image target_detection temporal_coverage detector_fallback : SelectionReason
  capacity_limit : SelectionReason

pub record VisualEvidenceSelection (R : Type 0) : Type 0 where
  pub evidence_id : String
  pub selected_for_grounding : Bool
  pub selection_reason : SelectionReason
  pub max_detection_score : Option R

pub data EvidenceKind : Type 0 where
  frame image transcript_segment article_text metadata : EvidenceKind

pub data Certainty : Type 0 where
  directly_visible explicitly_written explicitly_spoken : Certainty

pub record FactualObservation : Type 0 where
  pub kind : String
  pub evidence_kind : EvidenceKind
  pub evidence_id : String
  pub region_id : Option String
  pub description : String
  pub certainty : Certainty

pub record ExplicitLiteral : Type 0 where
  pub literal : String
  pub evidence_kind : EvidenceKind
  pub evidence_id : String

pub record MetadataResult : Type 0 where
  pub capture_location_available : Bool
  pub capture_location_origin : Option LocationOrigin

-- `type` has the one value "media_capture".
pub record GeographicMarkerCandidate : Type 0 where
  pub geometry_origin : LocationOrigin

-- `observed_phenomenon_marker` and `requires_human_review` are the constants None and True.
pub record ItemResult (R : Type 0) : Type 0 where
  pub input_id : String
  pub metadata_result : MetadataResult
  pub transcript : Transcript R
  pub pixel_regions : List (PixelRegion R)
  pub visual_evidence_selection : List (VisualEvidenceSelection R)
  pub factual_observations : List FactualObservation
  pub explicit_places : List ExplicitLiteral
  pub explicit_times : List ExplicitLiteral
  pub location_status : LocationStatus
  pub geographic_marker_candidate : Option GeographicMarkerCandidate

pub data RunStatus : Type 0 where
  succeeded failed skipped : RunStatus

pub data OutputStatus : Type 0 where
  succeeded partial_failure failed : OutputStatus

-- The clock stamps `started_at` and `finished_at` are left out.
pub record ModelRun : Type 0 where
  pub model_role : PipelineRole
  pub model_id : String
  pub revision : String
  pub status : RunStatus
  pub load_ms : ℕ
  pub inference_ms : ℕ
  pub peak_vram_bytes : Option ℕ
  pub error_code : Option String

pub record WorkerOutput (R : Type 0) : Type 0 where
  pub batch_id : String
  pub status : OutputStatus
  pub retryable : Bool
  pub model_runs : List ModelRun
  pub items : List (ItemResult R)
  pub validation_errors : List String
  pub boot_ms : ℕ

-- The defaults of `Transcript()`.
abbrev pub empty_transcript : {R : Type 0} → Transcript R
empty_transcript = record { language = none; segments = [] }
