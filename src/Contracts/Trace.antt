-- ===== src/Contracts/Trace.antt =====
-- contracts.py, lines 880 to 1059: the audit records that a session leaves, and their validators.
-- The clock stamps of the records are left out, and with them the validators' checks of those.
use fireviewer_ai_worker.Common.{
  ℕ, ◌+◌, String, Bool, true, false, not, ◌&&◌, ◌||◌, Option, none, some, List, [], ◌∷◌, ltb, ◌==◌,
  if◌then◌else◌, is_some, length, nonempty, contains, is_unique, str_eq, str_append, starts_with,
}
use fireviewer_ai_worker.Common.Exec.{Result, ◌>>◌}
use fireviewer_ai_worker.Common.Json.{Payload}
use fireviewer_ai_worker.Stage.{StageRole, PipelineRole, role_value}
use fireviewer_ai_worker.Contracts.{RunStatus, succeeded, failed, skipped}
use fireviewer_ai_worker.Contracts.Validators.{reject_if, differ}

-- WorkerModelRoleV2, the four roles that a session gives
pub data WorkerModelRole : Type 0 where
  asr visual_filtering visual_grounding multimodal_extraction consensus_judge : WorkerModelRole

-- WorkerModelCandidateRunV2
pub record CandidateRun (R : Type 0) : Type 0 where
  pub candidate_id : String
  pub candidate_rank : ℕ
  pub stage_role : PipelineRole
  pub model_role : WorkerModelRole
  pub model_id : String
  pub revision : String
  pub status : RunStatus
  pub load_ms : ℕ
  pub inference_ms : ℕ
  pub peak_vram_bytes : Option ℕ
  pub repaired : Bool
  pub output_digest : Option String
  pub output_payload : Option (Payload R)
  pub error_code : Option String

abbrev pub is_succeeded : RunStatus → Bool
is_succeeded succeeded = true
is_succeeded _ = false

abbrev pub is_failed : RunStatus → Bool
is_failed failed = true
is_failed _ = false

abbrev pub is_skipped : RunStatus → Bool
is_skipped skipped = true
is_skipped _ = false

-- _json_sha256_v2(payload) != digest, where both are there
abbrev digest_differs :
    {R : Type 0} → (Payload R → String) → Option (Payload R) → Option String → Bool
digest_differs sha (some p) (some d) = not (str_eq (sha p) d)
digest_differs sha _ _ = false

-- WorkerModelCandidateRunV2.validate_candidate_run, `sha` being `_json_sha256_v2`
unfoldable pub validate_candidate_run :
    {R : Type 0} → (Payload R → String) → CandidateRun R → Result (Unit {0})
validate_candidate_run sha r =
    (if is_succeeded r.status
      then (do
        reject_if (not (is_some r.output_payload) || not (is_some r.output_digest))
            "a successful candidate run requires its private output"
        reject_if (digest_differs sha r.output_payload r.output_digest)
            "candidate output digest does not match its payload"
        reject_if (is_some r.error_code) "a successful candidate run cannot contain an error")
      else reject_if (is_some r.output_payload || is_some r.output_digest)
          "an unsuccessful candidate run cannot publish an output")
    >> (reject_if (r.repaired && not (is_succeeded r.status))
          "only a successful candidate run can be repaired"
        >> reject_if (is_failed r.status && not (is_some r.error_code))
            "a failed candidate run requires an error code")

-- ConsensusDecision of consensus.py, and the Literal of the contract
pub data ConsensusDecision : Type 0 where
  pass repair adjudicated abstain human_review : ConsensusDecision

-- ConsensusStrategy of model_registry.py, and the Literal of the contract
pub data ConsensusStrategy : Type 0 where
  single_with_rules cascade quorum : ConsensusStrategy

-- WorkerConsensusResultV2; `consensus_id` is `consensus:{stage_role}`
pub record ConsensusResult (R : Type 0) : Type 0 where
  pub consensus_id : String
  pub stage_role : PipelineRole
  pub strategy : ConsensusStrategy
  pub decision : ConsensusDecision
  pub candidate_ids : List String
  pub selected_candidate_id : Option String
  pub adjudicator_candidate_id : Option String
  pub reason_codes : List String
  pub successful_candidates : ℕ
  pub required_successful : ℕ
  pub agreement_score : Option R
  pub agreement_threshold : R
  pub downstream_allowed : Bool
  pub comparison_digest : String
  pub comparison_payload : Payload R

-- decision in {"pass", "repair", "adjudicated"}
abbrev pub is_accepting : ConsensusDecision → Bool
is_accepting pass = true
is_accepting repair = true
is_accepting adjudicated = true
is_accepting _ = false

abbrev pub is_adjudicated : ConsensusDecision → Bool
is_adjudicated adjudicated = true
is_adjudicated _ = false

-- x in ids, where x may be None
abbrev pub contains_some : Option String → List String → Bool
contains_some none ids = false
contains_some (some x) ids = contains x ids

-- WorkerConsensusResultV2.validate_consensus
unfoldable pub validate_consensus :
    {R : Type 0} → (Payload R → String) → ConsensusResult R → Result (Unit {0})
validate_consensus sha c = do
  reject_if (not (is_unique c.candidate_ids)) "consensus candidate ids must be unique"
  reject_if (contains_some c.adjudicator_candidate_id c.candidate_ids)
      "the adjudicator cannot be a stage output candidate"
  reject_if (not (is_unique c.reason_codes)) "consensus reason codes must be unique"
  reject_if (ltb (length c.candidate_ids) c.successful_candidates)
      "successful candidate count exceeds evaluated candidates"
  reject_if (ltb (length c.candidate_ids) c.required_successful)
      "required candidate count exceeds evaluated candidates"
  reject_if (not (str_eq (sha c.comparison_payload) c.comparison_digest))
      "consensus comparison digest does not match its payload"
  if is_accepting c.decision
      then (do
        reject_if (not (contains_some c.selected_candidate_id c.candidate_ids))
            "an accepted consensus requires a selected candidate"
        reject_if (not c.downstream_allowed) "an accepted consensus must allow downstream execution"
        reject_if (is_adjudicated c.decision && not (is_some c.adjudicator_candidate_id))
            "an adjudicated consensus requires its judge run"
        reject_if (not (is_adjudicated c.decision) && is_some c.adjudicator_candidate_id)
            "a direct consensus cannot reference a judge run")
      else reject_if (is_some c.selected_candidate_id || c.downstream_allowed)
          "a blocked consensus cannot select or release a candidate"

-- GatePhase and GateDecision of stage_gates.py, and the Literals of the contract
pub data GatePhase : Type 0 where
  preflight postflight : GatePhase

pub data GateDecision : Type 0 where
  proceed not_applicable abstain human_review failed_retryable failed_terminal : GateDecision

-- WorkerStageGateV2
pub record StageGate : Type 0 where
  pub phase : GatePhase
  pub decision : GateDecision
  pub reason_codes : List String
  pub available_capabilities : List String
  pub missing_capabilities : List String
  pub downstream_possible : Bool

-- WorkerStageGateV2.validate_unique_values
unfoldable pub validate_unique_values : StageGate → Result (Unit {0})
validate_unique_values g =
    reject_if
      (not (
        is_unique g.reason_codes
        && (is_unique g.available_capabilities && is_unique g.missing_capabilities)))
      "stage gate values must be unique"

pub data AttemptKind : Type 0 where
  initial repair : AttemptKind

-- WorkerStageAttemptV2
pub record StageAttempt : Type 0 where
  pub attempt : ℕ
  pub kind : AttemptKind
  pub status : RunStatus
  pub inference_ms : ℕ
  pub peak_vram_bytes : Option ℕ
  pub error_code : Option String

abbrev pub is_repair : AttemptKind → Bool
is_repair repair = true
is_repair initial = false

-- WorkerStageAttemptV2.validate_attempt
unfoldable pub validate_attempt : StageAttempt → Result (Unit {0})
validate_attempt a = do
  reject_if (not (is_repair a.kind) && not (a.attempt == 1))
      "the initial stage attempt must be attempt 1"
  reject_if (is_repair a.kind && not (a.attempt == 2)) "a stage repair must be attempt 2"
  reject_if (is_failed a.status && not (is_some a.error_code))
      "a failed stage attempt requires an error_code"
  reject_if (is_succeeded a.status && is_some a.error_code)
      "a succeeded stage attempt cannot contain an error_code"

-- WorkerStageTraceV2
pub record StageTrace : Type 0 where
  pub stage_role : StageRole
  pub contract_id : String
  pub sequence : ℕ
  pub status : RunStatus
  pub retryable : Bool
  pub preflight : StageGate
  pub postflight : Option StageGate
  pub attempts : List StageAttempt

abbrev pub is_postflight : GatePhase → Bool
is_postflight postflight = true
is_postflight preflight = false

abbrev pub is_retryable : GateDecision → Bool
is_retryable failed_retryable = true
is_retryable _ = false

-- [attempt.attempt for attempt in attempts] == list(range(n, n + len(attempts)))
unfoldable pub numbered_from : ℕ → List StageAttempt → Bool
numbered_from n [] = true
numbered_from n (a ∷ rest) = (a.attempt == n) && numbered_from (n + 1) rest

-- the status of attempts[-1]
unfoldable pub last_status : List StageAttempt → Option RunStatus
last_status [] = none
last_status (a ∷ []) = some a.status
last_status (a ∷ b ∷ rest) = last_status (b ∷ rest)

-- len(attempts) == 2 and (first.status != "failed" or repair.kind != "repair")
unfoldable pub bad_repair : List StageAttempt → Bool
bad_repair (first ∷ second ∷ []) = not (is_failed first.status) || not (is_repair second.kind)
bad_repair _ = false

abbrev pub status_test : (RunStatus → Bool) → Option RunStatus → Bool
status_test p none = false
status_test p (some s) = p s

-- WorkerStageTraceV2.validate_trace
unfoldable pub validate_trace : StageTrace → Result (Unit {0})
unfolding numbered_from last_status bad_repair
validate_trace t = do
  reject_if
      (not (
        starts_with t.contract_id
          (str_append "stage." (str_append (role_value t.stage_role) ".v"))))
      "stage trace contract_id must match its stage_role"
  reject_if (is_postflight t.preflight.phase) "stage trace preflight must use the preflight phase"
  reject_if (elim t.postflight [ none ↦ false | some g ↦ not (is_postflight g.phase) ])
      "stage trace postflight must use the postflight phase"
  reject_if (not (numbered_from 1 t.attempts)) "stage attempts must be consecutive and ordered"
  reject_if (bad_repair t.attempts) "a repair requires one failed initial attempt"
  reject_if (is_skipped t.status && nonempty t.attempts)
      "a skipped stage cannot contain inference attempts"
  reject_if (is_succeeded t.status && not (status_test is_succeeded (last_status t.attempts)))
      "a succeeded stage requires a final successful attempt"
  reject_if
      (is_failed t.status
        && (nonempty t.attempts && not (status_test is_failed (last_status t.attempts))))
      "a failed stage cannot end with a successful attempt"
  reject_if
      (differ t.retryable (
        is_retryable t.preflight.decision
        || elim t.postflight [ none ↦ false | some g ↦ is_retryable g.decision ]))
      "stage retryable must match its gate decisions"
