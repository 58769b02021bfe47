-- ===== src/Session/Stage.antt =====
-- One pass of the loop of `_run_with_trace`, session_runner.py, lines 619 to 879: the two ways to
-- skip a stage. The children hold the candidates, the consensus, and the end of a stage.
pub mod Candidates
pub mod Resolve
pub mod Finish
use fireviewer_ai_worker.Common.{
  ℕ, String, Bool, true, false, not, Option, none, some, List, [], ◌∷◌, ◌++◌, map, if◌then◌else◌,
  str_append,
}
use fireviewer_ai_worker.Common.Exec.{Exception, Result, ok, err, ◌>>=◌}
use fireviewer_ai_worker.Common.Dict.{values}
use fireviewer_ai_worker.Stage.{
  PipelineRole, StageRole, StageContract, StageCapability, capability_value, role_value, to_stage,
  fire_detection,
}
use fireviewer_ai_worker.Stage.Capabilities.{Capabilities}
use fireviewer_ai_worker.Stage.Gates.{StageGateRecord}
use fireviewer_ai_worker.Contracts.{ModelRun, RunStatus, skipped}
use fireviewer_ai_worker.Contracts.Trace.{
  StageGate, StageTrace, StageAttempt, GateDecision, not_applicable, is_retryable,
  validate_unique_values, validate_trace,
}
use fireviewer_ai_worker.Registry.{ModelSpec, ModelCandidateSpec, ModelGroupSpec}
use fireviewer_ai_worker.Session.Effects.{construct}
use fireviewer_ai_worker.Session.State.{SessionState}

-- role, as the Literal that it is
abbrev pub pipeline_value : PipelineRole → String
pipeline_value role = role_value (to_stage role)

-- f"{a}:{b}"
abbrev pub colon : String → String → String
colon a b = str_append a (str_append ":" b)

-- xs[0] of a list that is never empty
abbrev pub first_or : String → List String → String
first_or d [] = d
first_or d (x ∷ xs) = x

-- record.reason_codes[0]
abbrev pub reason_of : StageGateRecord → String
reason_of record_of = first_or "" record_of.reason_codes

-- _trace_gate
unfoldable pub trace_gate : StageGateRecord → StageGate
trace_gate r = record {
  phase = r.phase;
  decision = r.decision;
  reason_codes = r.reason_codes;
  available_capabilities = map capability_value r.available_capabilities;
  missing_capabilities = map capability_value r.missing_capabilities;
  downstream_possible = r.downstream_possible;
}

abbrev is_not_applicable : GateDecision → Bool
is_not_applicable not_applicable = true
is_not_applicable _ = false

-- the StageTrace of a stage, validated with its gates
unfoldable pub make_trace :
    StageContract
    → ℕ
    → RunStatus
    → Bool
    → StageGateRecord
    → Option StageGateRecord
    → List StageAttempt
    → Result StageTrace
unfolding trace_gate
make_trace contract sequence status retryable pre none attempts = do
  pre_gate ← construct validate_unique_values (trace_gate pre)
  construct validate_trace (record {
    stage_role = contract.role;
    contract_id = contract.contract_id;
    sequence = sequence;
    status = status;
    retryable = retryable;
    preflight = pre_gate;
    postflight = none;
    attempts = attempts;
  })
make_trace contract sequence status retryable pre (some post) attempts = do
  pre_gate ← construct validate_unique_values (trace_gate pre)
  post_gate ← construct validate_unique_values (trace_gate post)
  construct validate_trace (record {
    stage_role = contract.role;
    contract_id = contract.contract_id;
    sequence = sequence;
    status = status;
    retryable = retryable;
    preflight = pre_gate;
    postflight = some post_gate;
    attempts = attempts;
  })

abbrev pub skipped_run : PipelineRole → String → String → Option String → ModelRun
skipped_run role model_id revision error = record {
  model_role = role;
  model_id = model_id;
  revision = revision;
  status = skipped;
  load_ms = 0;
  inference_ms = 0;
  peak_vram_bytes = none;
  error_code = error;
}

-- preflight_error_code
abbrev pub preflight_error : StageGateRecord → Option String
preflight_error pre =
    if is_not_applicable pre.decision then none else some (str_append "gate_" (reason_of pre))

abbrev pub error_entry : PipelineRole → Option String → List String
error_entry role none = []
error_entry role (some code) = colon (pipeline_value role) code ∷ []

-- group.candidates[0].spec
abbrev primary_of : List ModelCandidateSpec → Option ModelSpec
primary_of [] = none
primary_of (c ∷ cs) = some c.spec

abbrev model_id_of : Option ModelSpec → String
model_id_of none = "unconfigured"
model_id_of (some m) = m.model_id

abbrev revision_of : Option ModelSpec → String
revision_of none = "unconfigured"
revision_of (some m) = m.revision

-- missing_model_error_code
abbrev pub missing_model : PipelineRole → String
missing_model fire_detection = "checkpoint_not_configured"
missing_model _ = "model_not_configured"

module _ {R : Type 0} where
  -- primary_spec
  abbrev pub primary_spec : Option (ModelGroupSpec R) → Option ModelSpec
  primary_spec none = none
  primary_spec (some g) = primary_of g.candidates

  -- the block `if preflight.decision != GateDecision.PROCEED`, lines 630 to 662
  unfoldable pub skip_stage :
      StageContract
      → ℕ
      → PipelineRole
      → Option ModelSpec
      → StageGateRecord
      → SessionState R
      → Result (SessionState R)
  unfolding make_trace
  skip_stage contract sequence role primary pre state = do
    trace ← make_trace contract sequence skipped (is_retryable pre.decision) pre none []
    ok (record state {
      errors = state.errors ++ error_entry role (preflight_error pre);
      runs =
          state.runs
          ++ skipped_run role (model_id_of primary) (revision_of primary) (preflight_error pre)
            ∷ [];
      gate_records = state.gate_records ++ pre ∷ [];
      stage_traces = state.stage_traces ++ trace ∷ [];
    })

  -- the block `if group is None`, lines 663 to 705, on its postflight record
  unfoldable pub unconfigured_stage :
      StageContract
      → ℕ
      → PipelineRole
      → StageGateRecord
      → StageGateRecord
      → SessionState R
      → Result (SessionState R)
  unfolding make_trace
  unconfigured_stage contract sequence role pre post state = do
    trace ← make_trace contract sequence skipped false pre (some post) []
    ok (record state {
      errors = state.errors ++ error_entry role (some (missing_model role));
      runs =
          state.runs
          ++ skipped_run role "unconfigured" "unconfigured" (some (missing_model role)) ∷ [];
      gate_records = state.gate_records ++ pre ∷ post ∷ [];
      stage_traces = state.stage_traces ++ trace ∷ [];
    })
