-- ===== src/Session/Stage/Finish.antt =====
-- From the consensus to the end of a stage, session_runner.py, lines 815 to 879.
use fireviewer_ai_worker.Common.{
  ℕ, String, Bool, true, false, Option, none, some, List, [], ◌∷◌, ◌++◌, map, if◌then◌else◌,
  contains, nonempty, str_eq, str_append,
}
use fireviewer_ai_worker.Common.Exec.{other_error, Result, ok, err, ◌>>=◌}
use fireviewer_ai_worker.Common.Float.{FloatOps}
use fireviewer_ai_worker.Common.Dict.{values}
use fireviewer_ai_worker.Stage.{PipelineRole, StageContract}
use fireviewer_ai_worker.Stage.Capabilities.{Capabilities, derive_capabilities}
use fireviewer_ai_worker.Stage.Gates.{StageGateRecord, run_postflight}
use fireviewer_ai_worker.Contracts.{WorkerInput, ModelRun, RunStatus, succeeded, failed}
use fireviewer_ai_worker.Contracts.Trace.{
  StageAttempt, ConsensusResult, GateDecision, human_review, failed_retryable, failed_terminal,
  is_retryable,
}
use fireviewer_ai_worker.Consensus.{Results, ConsensusEvaluation}
use fireviewer_ai_worker.Session.Candidate.{CandidateExecution}
use fireviewer_ai_worker.Session.Merge.{maximum_stage_output_items}
use fireviewer_ai_worker.Session.Stage.{colon, pipeline_value, first_or, reason_of, make_trace}
use fireviewer_ai_worker.Session.Stage.Candidates.{successful_of, candidate_errors}
use fireviewer_ai_worker.Session.Stage.Resolve.{Resolved}
use fireviewer_ai_worker.Session.State.{SessionState}

-- the local variables that the two branches on `selected` set
pub record Settled (R : Type 0) : Type 0 where
  pub results : Results R
  pub run : ModelRun
  pub status : RunStatus
  pub error_code : Option String
  pub attempts : List StageAttempt
  pub errors : List String

-- the decisions that add a gate error and leave the session incomplete
abbrev pub is_unfinished : GateDecision → Bool
is_unfinished human_review = true
is_unfinished failed_retryable = true
is_unfinished failed_terminal = true
is_unfinished _ = false

abbrev same_id : Option String → String → Bool
same_id none id = false
same_id (some selected) id = str_eq id selected

-- the gate error that the end of a stage adds, if it is not there
unfoldable pub gate_errors : PipelineRole → StageGateRecord → List String → List String
gate_errors role post errors =
    let gate_error = colon "gate" (colon (pipeline_value role) (reason_of post)) in
    if is_unfinished post.decision
    then (if contains gate_error errors then [] else gate_error ∷ [])
    else []

module _ {R : Type 0} where
  -- selected = next((…), None)
  unfoldable pub find_execution :
      Option String → List (CandidateExecution R) → Option (CandidateExecution R)
  find_execution selected [] = none
  find_execution selected (e ∷ es) =
      if same_id selected e.candidate.candidate_id then some e else find_execution selected es

  -- the results of the selected execution, if the evaluation releases it
  unfoldable pub released_execution :
      ConsensusEvaluation R
      → Option (CandidateExecution R)
      → Option (CandidateExecution R × Results R)
  released_execution evaluation none = none
  released_execution evaluation (some e) = elim e.results [
    | none ↦ none
    | some results ↦ if evaluation.downstream_allowed then some (e, results) else none
  ]

  -- the `else` branch, on the representative executions[0]
  unfoldable pub settle_failed :
      PipelineRole
      → ConsensusEvaluation R
      → Results R
      → List (CandidateExecution R)
      → Result (Settled R)
  settle_failed role evaluation results [] = err (other_error "list index out of range")
  settle_failed role evaluation results (representative ∷ others) =
      let reason = first_or "" evaluation.reason_codes in
      let code = str_append "consensus_" reason in
      let errors = colon "consensus" (colon (pipeline_value role) reason) ∷ [] in
      let disagreed : Settled R = record {
        results = results;
        run = record representative.run { status = failed; error_code = some code };
        status = failed;
        error_code = some code;
        attempts = [];
        errors = errors;
      } in
      let unsuccessful : Settled R = record {
        results = results;
        run = representative.run;
        status = failed;
        error_code = representative.run.error_code;
        attempts = representative.attempts;
        errors = errors;
      } in
      ok (if nonempty (successful_of (representative ∷ others)) then disagreed else unsuccessful)

  abbrev pub settle_by :
      PipelineRole
      → ConsensusEvaluation R
      → Results R
      → List (CandidateExecution R)
      → Option (CandidateExecution R × Results R)
      → Result (Settled R)
  settle_by role evaluation results executions none =
      settle_failed role evaluation results executions
  settle_by role evaluation results executions (some (e, selected_results)) = ok (record {
    results = selected_results;
    run = e.run;
    status = succeeded;
    error_code = none;
    attempts = e.attempts;
    errors = [];
  })

  -- the `if` on the evaluation and the selected execution
  unfoldable pub settle :
      PipelineRole
      → ConsensusEvaluation R
      → Results R
      → List (CandidateExecution R)
      → Result (Settled R)
  unfolding find_execution released_execution settle_failed
  settle role evaluation results executions =
      settle_by role evaluation results executions
        (released_execution evaluation (find_execution evaluation.selected_candidate_id executions))

module _ {R : Type 0} ⦃F : FloatOps R⦄ where
  -- the postflight record of a stage that has run
  unfoldable pub stage_postflight :
      StageContract → PipelineRole → WorkerInput R → Capabilities → R → Settled R → StageGateRecord
  stage_postflight contract role batch before elapsed settled =
      run_postflight contract before (derive_capabilities batch (values settled.results))
        settled.status settled.error_code elapsed
        (maximum_stage_output_items role (values settled.results))

  -- the appends at the end of a stage
  unfoldable pub finish_stage :
      StageContract
      → ℕ
      → PipelineRole
      → StageGateRecord
      → StageGateRecord
      → List (CandidateExecution R)
      → Resolved R
      → ConsensusResult R
      → Settled R
      → SessionState R
      → Result (SessionState R)
  unfolding gate_errors
  finish_stage contract sequence role pre post executions resolved consensus settled state =
      let errors =
        state.errors
        ++ (candidate_errors role executions ++ (resolved.judge_errors ++ settled.errors)) in
      make_trace contract sequence settled.status (is_retryable post.decision) pre (some post)
        settled.attempts
      >>= λ trace. ok (record {
        results = settled.results;
        runs = state.runs ++ settled.run ∷ [];
        errors = errors ++ gate_errors role post errors;
        gate_records = state.gate_records ++ pre ∷ post ∷ [];
        stage_traces = state.stage_traces ++ trace ∷ [];
        candidate_runs =
            state.candidate_runs ++ (map (λ e. e.candidate_run) executions ++ resolved.judge_runs);
        consensus_results = state.consensus_results ++ consensus ∷ [];
      })
