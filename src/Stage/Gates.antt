-- ===== src/Stage/Gates.antt =====
-- stage_gates.py, lines 18 to 39 and 97 to 227: the gate records and `StageGateEngine`.
pub mod Laws
use fireviewer_ai_worker.Common.{
  ℕ, String, Bool, true, false, not, ◌&&◌, Option, none, some, List, [], ◌∷◌, ltb, if◌then◌else◌,
  is_some, is_empty, any, nonempty, str_eq,
}
use fireviewer_ai_worker.Common.Float.{FloatOps}
use fireviewer_ai_worker.Stage.{
  StageRole, StageCapability, StageContract, FailurePolicy, block, human_review,
}
use fireviewer_ai_worker.Stage.Capabilities.{
  Capabilities, ordered, among, missing_requirements, is_not_applicable,
}
use fireviewer_ai_worker.Contracts.{RunStatus, succeeded, failed, skipped}
use fireviewer_ai_worker.Contracts.Trace.{
  GatePhase, preflight, postflight, GateDecision, proceed, not_applicable, abstain,
  failed_retryable, failed_terminal,
}

pub record StageGateRecord : Type 0 where
  pub role : StageRole
  pub phase : GatePhase
  pub decision : GateDecision
  pub reason_codes : List String
  pub available_capabilities : List StageCapability
  pub missing_capabilities : List StageCapability
  pub downstream_possible : Bool

abbrev pub is_block : FailurePolicy → Bool
is_block block = true
is_block _ = false

-- what a missing requirement makes of the stage
abbrev pub preflight_failure : FailurePolicy → GateDecision
preflight_failure FailurePolicy.human_review = GateDecision.human_review
preflight_failure block = failed_terminal
preflight_failure _ = abstain

-- what a missing output makes of the stage
abbrev pub postflight_failure : FailurePolicy → GateDecision
postflight_failure FailurePolicy.human_review = GateDecision.human_review
postflight_failure _ = abstain

abbrev gate :
    StageContract
    → GatePhase
    → GateDecision
    → String
    → Capabilities
    → List StageCapability
    → Bool
    → StageGateRecord
gate contract phase decision reason capabilities missing downstream = record {
  role = contract.role;
  phase = phase;
  decision = decision;
  reason_codes = reason ∷ [];
  available_capabilities = ordered capabilities;
  missing_capabilities = missing;
  downstream_possible = downstream;
}

-- StageGateEngine.preflight
unfoldable pub run_preflight : StageContract → Capabilities → ℕ → StageGateRecord
run_preflight contract capabilities input_items =
    let missing = missing_requirements contract capabilities in
    if ltb contract.max_input_items input_items
    then gate contract preflight failed_terminal "stage_input_limit_exceeded" capabilities [] false
    else if is_empty missing
    then gate contract preflight proceed "requirements_satisfied" capabilities [] true
    else if contract.skip_when_not_applicable && is_not_applicable contract.role capabilities
    then gate contract preflight not_applicable "no_applicable_input" capabilities missing true
    else gate contract preflight (preflight_failure contract.failure_policy)
        "required_capability_missing" capabilities missing (not (is_block contract.failure_policy))

-- x or default, on an optional text
abbrev pub or_default : Option String → String → String
or_default none d = d
or_default (some x) d = if str_eq x "" then d else x

abbrev is_text : Option String → String → Bool
is_text none t = false
is_text (some x) t = str_eq x t

abbrev truthy_text : Option String → Bool
truthy_text none = false
truthy_text (some x) = not (str_eq x "")

module _ {R : Type 0} ⦃F : FloatOps R⦄ where
  -- the part of `postflight` for a stage that succeeded
  unfoldable pub postflight_succeeded :
      StageContract → Capabilities → Capabilities → R → ℕ → StageGateRecord
  postflight_succeeded contract before after elapsed_seconds maximum_output_items =
      if F.lt_test (F.of_int contract.max_wall_time_seconds) elapsed_seconds
      then gate contract postflight failed_retryable "stage_wall_time_exceeded" after [] false
      else if ltb contract.max_output_items_per_input maximum_output_items
      then gate contract postflight failed_terminal "stage_output_limit_exceeded" after [] false
      else if any (λ c. after c && not (before c)) contract.minimum_output_any
      then gate contract postflight proceed "minimum_output_satisfied" after [] true
      else gate contract postflight (postflight_failure contract.failure_policy)
          "minimum_output_missing" after contract.minimum_output_any
          (not (is_block contract.failure_policy))

  -- StageGateEngine.postflight
  unfoldable pub run_postflight :
      StageContract
      → Capabilities
      → Capabilities
      → RunStatus
      → Option String
      → R
      → ℕ
      → StageGateRecord
  run_postflight contract before after failed error_code elapsed maximum =
      gate contract postflight
        (if is_text error_code "model_runtime_error" then failed_retryable else failed_terminal)
        (or_default error_code "stage_failed") after [] (not (is_block contract.failure_policy))
  run_postflight contract before after skipped error_code elapsed maximum =
      gate contract postflight (if truthy_text error_code then abstain else not_applicable)
        (or_default error_code "stage_skipped") after [] true
  run_postflight contract before after succeeded error_code elapsed maximum =
      postflight_succeeded contract before after elapsed maximum
