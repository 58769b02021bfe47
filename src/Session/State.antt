-- ===== src/Session/State.antt =====
-- What the loop of `_run_with_trace` accumulates, `SessionRunner.__init__`, and the model of the
-- surroundings of a whole session: session_runner.py, lines 258 to 323 and 610 to 620.
use fireviewer_ai_worker.Common.{
  ℕ, String, Bool, false, not, Option, none, some, List, [], ◌∷◌, if◌then◌else◌, str_eq, str_append,
}
use fireviewer_ai_worker.Common.Exec.{
  value_error, key_error, Result, ok, err, ◌>>=◌, ◌>>◌, raise_if,
}
use fireviewer_ai_worker.Common.Float.{FloatOps}
use fireviewer_ai_worker.Common.Dict.{insert}
use fireviewer_ai_worker.Stage.{
  StageRole, PipelineRole, StageContract, asr, fire_detection, visual_grounding,
  multimodal_extraction, to_stage, role_value,
}
use fireviewer_ai_worker.Stage.Gates.{StageGateRecord}
use fireviewer_ai_worker.Contracts.{BatchItem, ModelRun, WorkerOutput}
use fireviewer_ai_worker.Contracts.Trace.{
  CandidateRun, ConsensusResult, StageTrace, single_with_rules,
}
use fireviewer_ai_worker.Registry.{
  ModelRole, ModelSpec, ModelGroupSpec, human_review, validate_group, same_role, model_role_value,
}
use fireviewer_ai_worker.Consensus.{Results}
use fireviewer_ai_worker.Consensus.Text.{TextLibrary}
use fireviewer_ai_worker.Session.Adapter.{CandidateWorld}
use fireviewer_ai_worker.Session.Effects.{Events}
use fireviewer_ai_worker.Session.Initial.{initial_result}
use fireviewer_ai_worker.Session.Judge.{JudgeFactory}

-- ROLE_ORDER
abbrev pub role_order : List PipelineRole
role_order = asr ∷ fire_detection ∷ visual_grounding ∷ multimodal_extraction ∷ []

-- the local variables of `_run_with_trace`
pub record SessionState (R : Type 0) : Type 0 where
  pub results : Results R
  pub runs : List ModelRun
  pub errors : List String
  pub gate_records : List StageGateRecord
  pub stage_traces : List StageTrace
  pub candidate_runs : List (CandidateRun R)
  pub consensus_results : List (ConsensusResult R)

-- SessionRunResult; `contract_digest` is left out
pub record SessionRunResult (R : Type 0) : Type 0 where
  pub output : WorkerOutput R
  pub gate_records : List StageGateRecord
  pub stage_traces : List StageTrace
  pub candidate_runs : List (CandidateRun R)
  pub consensus_results : List (ConsensusResult R)

-- What a session uses of its surroundings: the factory, the clock, the texts and the digest.
pub record SessionWorld (R : Type 0) : Type 0 where
  pub candidates : CandidateWorld R
  pub judges : JudgeFactory R
  -- peak_vram_bytes() while no adapter is there
  pub idle_peak : Option ℕ
  -- perf_counter() - stage_started, when the stage has come to the events given
  pub elapsed_seconds : Events → R
  pub library : TextLibrary R

-- the attributes of a SessionRunner
pub record SessionRunner (R : Type 0) : Type 0 where
  pub registry : List (ModelRole × ModelGroupSpec R)
  pub contracts : List StageContract
  pub boot_ms : ℕ

-- registry.get(role)
unfoldable pub group_of :
    {R : Type 0} → ModelRole → List (ModelRole × ModelGroupSpec R) → Option (ModelGroupSpec R)
group_of role [] = none
group_of role ((key, group) ∷ rest) = if same_role key role then some group else group_of role rest

-- StageContractRegistry.__getitem__; a missing role is a KeyError
unfoldable pub contract_of : StageRole → List StageContract → Result StageContract
contract_of role [] = err (key_error (role_value role))
contract_of role (c ∷ cs) =
    if str_eq (role_value c.role) (role_value role) then ok c else contract_of role cs

-- what a caller registers: ModelSpec | ModelGroupSpec
pub data RegistryEntry (R : Type 0) : Type 0 where
  spec : ModelSpec → RegistryEntry R
  group : ModelGroupSpec R → RegistryEntry R

abbrev bound_to : PipelineRole → Option String → Bool
bound_to role none = false
bound_to role (some binding) = str_eq binding (role_value (to_stage role))

-- the loop over ROLE_ORDER in `__init__`
unfoldable pub check_bindings : List StageContract → List PipelineRole → Result (Unit {0})
unfolding contract_of
check_bindings contracts [] = ok tt
check_bindings contracts (role ∷ roles) = contract_of (to_stage role) contracts >>= λ contract.
    raise_if (not (bound_to role contract.model_binding))
      (value_error "stage contract is not bound to its role")
    >> check_bindings contracts roles

module _ {R : Type 0} ⦃F : FloatOps R⦄ where
  -- the ModelGroupSpec of one entry, with the defaults of the class for a single model
  unfoldable pub as_group : ModelRole → RegistryEntry R → ModelGroupSpec R
  as_group role (group g) = g
  as_group role (spec m) = record {
    role = role;
    candidates =
        record { candidate_id = str_append (model_role_value role) ".primary"; spec = m; rank = 1 }
        ∷ [];
    strategy = single_with_rules;
    minimum_successful = 1;
    minimum_agreeing = 1;
    agreement_threshold = F.of_int 1;
    disagreement_decision = human_review;
    always_challenge = false;
    adjudicator = none;
    adjudication_confidence_threshold = F.div (F.of_int 65) (F.of_int 100);
  }

  -- the loop over the registry in `__init__`
  unfoldable pub normalize_registry :
      List (ModelRole × RegistryEntry R) → Result (List (ModelRole × ModelGroupSpec R))
  unfolding as_group
  normalize_registry [] = ok []
  normalize_registry ((role, entry) ∷ rest) = do
    let g = as_group role entry
    raise_if (not (same_role g.role role)) (value_error "registry key does not match model group")
    validate_group g
    groups ← normalize_registry rest
    ok ((role, g) ∷ groups)

  -- SessionRunner.__init__, on the contracts that the registry holds
  unfoldable pub new_session_runner :
      List (ModelRole × RegistryEntry R) → List StageContract → ℕ → Result (SessionRunner R)
  unfolding normalize_registry check_bindings
  new_session_runner registry contracts boot_ms = do
    groups ← normalize_registry registry
    check_bindings contracts role_order
    ok (record { registry = groups; contracts = contracts; boot_ms = boot_ms })

module _ {R : Type 0} where
  -- {item.input_id: _initial_result(item) for item in batch.items}
  unfoldable pub initial_results : List (BatchItem R) → Results R → Result (Results R)
  initial_results [] results = ok results
  initial_results (item ∷ items) results =
      initial_result item >>= λ r. initial_results items (insert item.input_id r results)
