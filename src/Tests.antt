-- ===== src/Tests.antt =====
-- A small job for the tests: one image, a cascade of two detectors with a judge, and factories whose
-- models answer. The `float` of the examples is ℕ.
pub mod Jobs
pub mod Consensus
pub mod Broker
pub mod Service
pub mod Reports
use fireviewer_ai_worker.Common.{
  ℕ, ◌+◌, ◌-◌, ◌*◌, ◌/◌, String, Bool, true, false, Option, none, some, List, [], ◌∷◌, ltb, leb,
  ◌==◌, str_append,
}
use fireviewer_ai_worker.Common.Exec.{Exception, model_output_error, Result, ok, err}
use fireviewer_ai_worker.Common.Float.{FloatOps}
use fireviewer_ai_worker.Common.Json.{Json, null, Payload}
use fireviewer_ai_worker.Stage.{
  StageContract, StageRole, StageCapability, visual_input, audio_input, text_input, transcript,
  selected_visual, detection_regions, grounded_regions, factual_observations, model,
  continue_degraded, role_value,
}
use fireviewer_ai_worker.Contracts.{
  BatchItem, WorkerInput, PixelRegion, image, user_media, scheduled, fire_detection,
}
use fireviewer_ai_worker.Contracts.Trace.{cascade}
use fireviewer_ai_worker.Registry.{
  ModelRole, ModelSpec, ModelCandidateSpec, ModelGroupSpec, huggingface, consensus_judge,
  human_review,
}
use fireviewer_ai_worker.Consensus.{ConsensusJudgeVerdict}
use fireviewer_ai_worker.Consensus.Text.{TextLibrary}
use fireviewer_ai_worker.Validation.{OutputScreen}
use fireviewer_ai_worker.Session.Adapter.{Adapter, CandidateWorld}
use fireviewer_ai_worker.Session.Effects.{Events}
use fireviewer_ai_worker.Session.Judge.{Judge}
use fireviewer_ai_worker.Session.Merge.{ItemPatch, Patches}
use fireviewer_ai_worker.Session.State.{SessionWorld, RegistryEntry, group}

abbrev first_or_zero : List ℕ → ℕ
first_or_zero [] = 0
first_or_zero (x ∷ xs) = x

instance abbrev pub numbers : FloatOps ℕ
numbers = record {
  eq_test = λ a b. a == b;
  le_test = leb;
  lt_test = ltb;
  add = λ a b. a + b;
  sub = λ a b. a - b;
  mul = λ a b. a * b;
  div = λ a b. a / b;
  of_int = λ n. n;
  fmean = first_or_zero;
  round6 = λ n. n;
}

abbrev pub photo : BatchItem ℕ
photo = record {
  input_id = "photo";
  media_type = image;
  working_file_url = some "https://files/photo";
  metadata = record {
    captured_at = none;
    latitude = none;
    longitude = none;
    gps_accuracy_m = none;
    location_origin = none;
  };
  frames = [];
  audio_url = none;
  article_text = none;
  source_context = none;
}

abbrev pub one_photo : WorkerInput ℕ
one_photo = record {
  batch_id = "batch";
  batch_type = user_media;
  priority = scheduled;
  deadline_at = none;
  items = photo ∷ [];
}

abbrev detector_spec : String → ModelSpec
detector_spec id = record {
  role = ModelRole.fire_detection;
  model_id = id;
  revision = "0123456789abcdef0123456789abcdef01234567";
  source = huggingface;
}

abbrev pub detector : String → ℕ → ModelCandidateSpec
detector id rank = record { candidate_id = id; spec = detector_spec id; rank = rank }

abbrev pub judge : ModelCandidateSpec
judge = record {
  candidate_id = "judge";
  spec = record (detector_spec "judge") { role = consensus_judge };
  rank = 3;
}

abbrev pub detectors : ModelGroupSpec ℕ
detectors = record {
  role = ModelRole.fire_detection;
  candidates = detector "first" 1 ∷ detector "second" 2 ∷ [];
  strategy = cascade;
  minimum_successful = 1;
  minimum_agreeing = 2;
  agreement_threshold = 1;
  disagreement_decision = human_review;
  always_challenge = false;
  adjudicator = some judge;
  adjudication_confidence_threshold = 1;
}

abbrev pub registry : List (ModelRole × RegistryEntry ℕ)
registry = (ModelRole.fire_detection, group detectors) ∷ []

abbrev fire : PixelRegion ℕ
fire = record {
  region_id = "region";
  evidence_id = "photo";
  label = "fire";
  bbox_normalized = (0, 0, 1, 1);
  task = fire_detection;
  model_score = none;
}

abbrev seen : ItemPatch ℕ
seen = record {
  transcript = none;
  pixel_regions = some (fire ∷ []);
  visual_evidence_selection = none;
  factual_observations = none;
  explicit_places = none;
  explicit_times = none;
}

-- no answer at first, and the fire on the correction
abbrev answer : Bool → Result (Patches ℕ)
answer false = err model_output_error
answer true = ok (("photo", seen) ∷ [])

abbrev pub adapter : Adapter ℕ
adapter = record {
  load = none;
  load_ms = 5;
  infer = λ correction items patches. answer correction;
  infer_ms = λ correction. 7;
  infer_peak = λ correction. some 100;
  final_peak = some 100;
  unload = none;
}

abbrev pub candidate_world : CandidateWorld ℕ
candidate_world = record {
  create = λ es spec. ok adapter;
  screen = record {
    dump = λ r. null;
    lower = λ s. s;
    speculative = λ s. false;
    decimal = λ n. "0";
  };
  json_digest = λ payload. "digest";
  dump_patch = λ id patch. null;
}

abbrev pub library : TextLibrary ℕ
library = record { nfkd = λ s. s; casefold = λ s. s; combining = λ c. false; ratio = λ s t. 1 }

abbrev pub world : SessionWorld ℕ
world = record {
  candidates = candidate_world;
  judges = none;
  idle_peak = none;
  elapsed_seconds = λ es. 1;
  library = library;
}

-- the contract of one stage of the loop
abbrev contract : StageRole → List StageCapability → List StageCapability → StageContract
contract role inputs outputs = record {
  contract_id = str_append "stage." (str_append (role_value role) ".v1");
  role = role;
  execution_kind = model;
  model_binding = some (role_value role);
  required_all = inputs;
  required_any = [];
  produces = outputs;
  minimum_output_any = outputs;
  instructions = [];
  forbidden_outputs = [];
  max_input_items = 4;
  max_output_items_per_input = 8;
  max_wall_time_seconds = 60;
  max_repair_attempts = 1;
  failure_policy = continue_degraded;
  skip_when_not_applicable = true;
  downstream_roles = [];
}

abbrev pub detection_contract : StageContract
detection_contract = contract StageRole.fire_detection (visual_input ∷ []) (detection_regions ∷ [])

abbrev pub contracts : List StageContract
contracts =
    contract StageRole.asr (audio_input ∷ []) (transcript ∷ [])
    ∷ detection_contract
    ∷ contract StageRole.visual_grounding (selected_visual ∷ []) (grounded_regions ∷ [])
    ∷ contract StageRole.multimodal_extraction (text_input ∷ []) (factual_observations ∷ [])
    ∷ []
