-- ===== src/Session/Stage/Resolve.antt =====
-- From the executions to a validated consensus, session_runner.py, lines 741 to 813.
use fireviewer_ai_worker.Common.{
  String, false, Option, none, some, List, [], ◌∷◌, map, if◌then◌else◌, length,
}
use fireviewer_ai_worker.Common.Exec.{assertion_error, Result, ok, err}
use fireviewer_ai_worker.Common.Float.{FloatOps}
use fireviewer_ai_worker.Common.Json.{Json, text, null, dict, Payload}
use fireviewer_ai_worker.Stage.{PipelineRole}
use fireviewer_ai_worker.Contracts.Trace.{CandidateRun, ConsensusResult, validate_consensus}
use fireviewer_ai_worker.Registry.{ModelCandidateSpec, ModelGroupSpec}
use fireviewer_ai_worker.Consensus.{
  SuccessfulCandidate, ConsensusEvaluation, ConsensusJudgeVerdict, apply_adjudication,
  failure_decision, update,
}
use fireviewer_ai_worker.Consensus.Evaluate.{ids_of}
use fireviewer_ai_worker.Consensus.Quorum.{evaluate_consensus}
use fireviewer_ai_worker.Session.Candidate.{CandidateExecution}
use fireviewer_ai_worker.Session.Effects.{Eff, pure, lift, ◌>>=◌, construct}
use fireviewer_ai_worker.Session.Judge.{AdjudicatorExecution, execute_adjudicator}
use fireviewer_ai_worker.Session.Stage.{colon, pipeline_value}
use fireviewer_ai_worker.Session.Stage.Candidates.{or_none, successful_of, judge_candidates}
use fireviewer_ai_worker.Session.State.{SessionWorld}

-- What a stage knows once its consensus is settled. `judge_runs` and `judge_errors` are what the
-- adjudication appends to the session's lists.
pub record Resolved (R : Type 0) : Type 0 where
  pub evaluation : ConsensusEvaluation R
  pub judge_runs : List (CandidateRun R)
  pub judge_errors : List String
  pub adjudicator_id : Option String

abbrev error_json : {R : Type 0} → Option String → Json R
error_json none = null
error_json (some s) = text s

module _ {R : Type 0} ⦃F : FloatOps R⦄ where
  -- the evaluation where the judge gave no verdict
  abbrev adjudicator_failed :
      ModelGroupSpec R → ConsensusEvaluation R → Option String → ConsensusEvaluation R
  adjudicator_failed group evaluation error = record {
    decision = failure_decision group.disagreement_decision;
    selected_candidate_id = none;
    agreement_score = evaluation.agreement_score;
    reason_codes = "adjudicator_failed" ∷ [];
    downstream_allowed = false;
    comparison_payload = update evaluation.comparison_payload (
        ("adjudication", dict (("status", text "failed") ∷ ("error_code", error_json error) ∷ []))
        ∷ []);
    requires_adjudication = false;
  }

  -- the evaluation after the judge has run
  unfoldable pub adjudicated_evaluation :
      ModelGroupSpec R
      → List (SuccessfulCandidate R)
      → ConsensusEvaluation R
      → AdjudicatorExecution R
      → Option (ConsensusJudgeVerdict R)
      → Result (ConsensusEvaluation R)
  adjudicated_evaluation group successful evaluation adjudication (some verdict) =
      apply_adjudication evaluation verdict (ids_of successful)
        group.adjudication_confidence_threshold group.disagreement_decision
  adjudicated_evaluation group successful evaluation adjudication none =
      ok (adjudicator_failed group evaluation adjudication.candidate_run.error_code)

  abbrev verdict_errors : PipelineRole → AdjudicatorExecution R → List String
  verdict_errors role a = elim a.verdict [
    | some v ↦ []
    | none ↦
        colon "consensus"
          (colon (pipeline_value role) (colon "adjudicator" (or_none a.candidate_run.error_code)))
        ∷ []
  ]

  -- what follows `_execute_adjudicator`
  unfoldable pub after_judge :
      ModelGroupSpec R
      → PipelineRole
      → ModelCandidateSpec
      → List (SuccessfulCandidate R)
      → ConsensusEvaluation R
      → AdjudicatorExecution R
      → Result (Resolved R)
  unfolding adjudicated_evaluation
  after_judge group role judge successful evaluation a =
      elim (adjudicated_evaluation group successful evaluation a a.verdict) [
        | err e ↦ err e
        | ok final ↦ ok (record {
          evaluation = final;
          judge_runs = a.candidate_run ∷ [];
          judge_errors = verdict_errors role a;
          adjudicator_id = some judge.candidate_id;
        })
      ]

  -- the block `if evaluation.requires_adjudication`, on the adjudicator of the group
  unfoldable pub adjudicate :
      SessionWorld R
      → ModelGroupSpec R
      → PipelineRole
      → List (CandidateExecution R)
      → ConsensusEvaluation R
      → Option ModelCandidateSpec
      → Eff (Resolved R)
  unfolding after_judge
  adjudicate world group role executions evaluation none = lift (err assertion_error)
  adjudicate world group role executions evaluation (some judge) =
      execute_adjudicator world.candidates.json_digest world.idle_peak world.judges role judge
        (judge_candidates executions) evaluation.comparison_payload
      >>= λ a. lift (after_judge group role judge (successful_of executions) evaluation a)

  unfoldable pub resolve :
      SessionWorld R
      → ModelGroupSpec R
      → PipelineRole
      → List (CandidateExecution R)
      → Eff (Resolved R)
  unfolding adjudicate
  resolve world group role executions =
      lift (evaluate_consensus world.library role group (successful_of executions))
      >>= λ evaluation.
          if evaluation.requires_adjudication
          then adjudicate world group role executions evaluation group.adjudicator
          else pure (record {
            evaluation = evaluation;
            judge_runs = [];
            judge_errors = [];
            adjudicator_id = none;
          })

  -- the WorkerConsensusResultV2 of the stage
  unfoldable pub consensus_result :
      (Payload R → String)
      → ModelGroupSpec R
      → PipelineRole
      → List (CandidateExecution R)
      → Resolved R
      → ConsensusResult R
  consensus_result sha group role executions resolved = record {
    consensus_id = colon "consensus" (pipeline_value role);
    stage_role = role;
    strategy = group.strategy;
    decision = resolved.evaluation.decision;
    candidate_ids = map (λ e. e.candidate.candidate_id) executions;
    selected_candidate_id = resolved.evaluation.selected_candidate_id;
    adjudicator_candidate_id = resolved.adjudicator_id;
    reason_codes = resolved.evaluation.reason_codes;
    successful_candidates = length (successful_of executions);
    required_successful = group.minimum_successful;
    agreement_score = resolved.evaluation.agreement_score;
    agreement_threshold = group.agreement_threshold;
    downstream_allowed = resolved.evaluation.downstream_allowed;
    comparison_digest = sha resolved.evaluation.comparison_payload;
    comparison_payload = resolved.evaluation.comparison_payload;
  }

  -- its construction, which validates it
  unfoldable pub make_consensus :
      (Payload R → String)
      → ModelGroupSpec R
      → PipelineRole
      → List (CandidateExecution R)
      → Resolved R
      → Result (ConsensusResult R)
  unfolding consensus_result
  make_consensus sha group role executions resolved =
      construct (validate_consensus sha) (consensus_result sha group role executions resolved)
